-- ===== src/Soloist/Control.antt =====
-- soloist_state.go: the waits for acknowledgments, the checks of controls, and the visible state.
use zombiebox_gateway_core.Base.{
  ℕ, suc, ◌-◌, String, Bool, true, false, not, ◌&&◌, ◌||◌, Option, none, some, [], ◌∷◌, any,
  if◌then◌else◌, leb, ◌==◌, str_eq,
}
use zombiebox_gateway_core.Soloist.Model.{
  Floats, Status, idle, Error, stale_session, disconnected, unauthenticated, invalid_command,
  pending, rejected, Metadata, Cover, Wait, State, finish_wait, matches,
}
use zombiebox_gateway_core.Soloist.Position.{estimated_position}

-- The visible state; the position and the age of the output that the code gives as -1 are `none`.
pub record Snapshot : Type 0 where
  pub connected : Bool
  pub authentication_known : Bool
  pub authenticated : Bool
  pub activity_known : Bool
  pub active : Bool
  pub volume_known : Bool
  pub volume : ℕ
  pub status : Status
  pub track : Option Metadata
  pub track_revision : ℕ
  pub position_known : Bool
  pub position_ms : Option ℕ
  pub position_age : ℕ
  pub local_output_known : Bool
  pub local_output_recent : Bool
  pub local_output_age : Option ℕ
  pub command_results : ℕ

-- What a stranger is shown.
abbrev pub no_snapshot : Snapshot
no_snapshot = record {
  connected = false;
  authentication_known = false;
  authenticated = false;
  activity_known = false;
  active = false;
  volume_known = false;
  volume = 0;
  status = idle;
  track = none;
  track_revision = 0;
  position_known = false;
  position_ms = none;
  position_age = 0;
  local_output_known = false;
  local_output_recent = false;
  local_output_age = none;
  command_results = 0;
}

abbrev pub is_cover_of : ℕ → ℕ → Bool → Option Cover → Bool
is_cover_of session revision known none = false
is_cover_of session revision known (some c) =
    c.session == session && c.track_revision == revision && known

abbrev pub is_pending : Option Wait → Bool
is_pending none = false
is_pending (some w) = true

abbrev pub is_wait : ℕ → Option Wait → Bool
is_wait id none = false
is_wait id (some w) = w.id == id

pub controller_command : String → Bool
controller_command command =
    any (str_eq command) ("play" ∷ "pause" ∷ "skip_next" ∷ "skip_prev" ∷ "seek" ∷ "set_volume" ∷ [])

module _ {R : Floats} where
  -- Output is recent for five seconds.
  pub snapshot : ℕ → State R → Snapshot
  unfolding estimated_position
  snapshot now s =
      let p = estimated_position now s in
      let heard = s.local_output_known && s.local_output_active && leb s.local_output_at now in
      let age = now - s.local_output_at in
      record {
        connected = s.connected;
        authentication_known = s.authentication_known;
        authenticated = s.authenticated;
        activity_known = s.activity_known;
        active = s.active;
        volume_known = s.volume_known;
        volume = s.volume;
        status = s.status;
        track = s.track;
        track_revision = s.track_revision;
        position_known = p.usable;
        position_ms = some p.at;
        position_age = if p.usable then p.age else 0;
        local_output_known = s.local_output_known;
        local_output_recent = heard && leb age 5000;
        local_output_age = if heard then some age else none;
        command_results = s.command_results;
      }

  abbrev pub matching_cover : ℕ → State R → Option Cover
  matching_cover session s =
      if is_cover_of session s.track_revision s.track_known s.cover then s.cover else none

  -- The snapshot for a session, with the cover that belongs to it; 0 asks for no login.
  unfoldable pub playback_snapshot : ℕ → ℕ → ℕ → State R → Snapshot × Option Cover
  unfolding snapshot
  playback_snapshot now session auth s =
      let v = snapshot now s in
      if not s.connected || not (matches session s)
      then (no_snapshot, none)
      else if not (auth == 0) && not (s.auth_revision == auth)
      then (
        record v {
          status = idle;
          track = none;
          position_known = false;
          position_ms = none;
          position_age = 0;
          volume_known = false;
          volume = 0;
        },
        none,
      )
      else (v, matching_cover session s)

  unfoldable pub artwork_candidate : ℕ → State R → Option Cover × Option Error
  artwork_candidate session s =
      if not (matches session s)
      then (none, some stale_session)
      else if not s.connected
      then (none, some disconnected)
      else (matching_cover session s, none)

  -- The three checks that every control starts with.
  pub refusal : ℕ → State R → Option Error
  refusal session s =
      if not (matches session s)
      then some stale_session
      else if not s.connected
      then some disconnected
      else if not s.authentication_known || not s.authenticated
      then some unauthenticated
      else none

  -- What the loop of waitUntilAuthenticated finds: it waits on for `none`.
  unfoldable pub authenticated_now : ℕ → State R → Option (Option Error)
  authenticated_now session s =
      if not (matches session s)
      then some (some stale_session)
      else if not s.connected
      then some (some disconnected)
      else if s.authentication_known && s.authenticated
      then some none
      else none

  -- What the loop of waitForPlaybackStateAfter finds: it waits on for `none`.
  unfoldable pub playback_after : ℕ → ℕ → ℕ → ℕ → State R → Option (Option Error)
  playback_after session auth playback error s =
      if not (matches session s)
      then some (some stale_session)
      else if not s.connected
      then some (some disconnected)
      else if not (s.auth_revision == auth) || not s.authentication_known || not s.authenticated
      then some (some unauthenticated)
      else if not (s.error_revision == error)
      then some (some rejected)
      else if not (s.playback_revision == playback)
      then some none
      else none

  -- What the loop of waitForAuthRevisionChange finds.
  unfoldable pub auth_change : ℕ → ℕ → State R → Option Error
  auth_change session auth s =
      if not (matches session s)
      then some stale_session
      else if not s.connected
      then some disconnected
      else if not (s.auth_revision == auth)
      then some unauthenticated
      else none

  abbrev pub with_wait : ℕ → String → State R → State R
  with_wait session command s =
      let w : Wait = record { id = s.waits; session = session; command = command } in
      record s { command_wait = some w; waits = suc s.waits }

  unfoldable pub begin_at : Option Error → ℕ → String → ℕ → State R → State R × Option Error
  unfolding controller_command
  begin_at (some e) session command auth s = (s, some e)
  begin_at none session command auth s =
      if not (auth == 0) && not (s.auth_revision == auth)
      then (s, some unauthenticated)
      else if not (controller_command command)
      then (s, some invalid_command)
      else if is_pending s.command_wait
      then (s, some pending)
      else (with_wait session command s, none)

  -- 0 expects no login.
  unfoldable pub begin_wait : ℕ → String → ℕ → State R → State R × Option Error
  unfolding refusal begin_at
  begin_wait session command auth s = begin_at (refusal session s) session command auth s

  unfoldable pub cancel_wait : ℕ → Option Error → State R → State R
  unfolding finish_wait
  cancel_wait id reason s = if is_wait id s.command_wait then finish_wait reason s else s
