-- ===== src/Soloist/Model.antt =====
-- soloist_state.go: the state, the parsed events, and the resets. Times in milliseconds.
use zombiebox_gateway_core.Base.{
  ℕ, ◌+◌, ◌%◌, ◌^◌, String, Bool, true, false, not, ◌&&◌, Option, none, some, List, [], ◌∷◌,
  if◌then◌else◌, ◌==◌,
}

-- The 64-bit float operations on playback speeds: `at_least age v r` is
-- `float64(age) * v >= float64(r)`, and `whole age v` is `int64(float64(age) * v)`.
pub record Floats : Type 1 where
  pub Float : Type 0
  pub zero_speed : Float
  pub one_speed : Float
  pub positive : Float → Bool
  pub at_least : ℕ → Float → ℕ → Bool
  pub whole : ℕ → Float → ℕ

pub data Status : Type 0 where
  idle playing paused buffering : Status

pub data Error : Type 0 where
  malformed stale_session stale_event disconnected unauthenticated : Error
  invalid_command pending rejected : Error

pub record Metadata : Type 0 where
  pub title : String
  pub artist : String
  pub artists : List String
  pub album : String
  pub duration : ℕ
  pub explicit : Option Bool

pub record Cover : Type 0 where
  pub url : String
  pub size : String
  pub session : ℕ
  pub track_revision : ℕ

pub record Track : Type 0 where
  pub metadata : Metadata
  pub identity : String
  pub has_title : Bool
  pub has_artist : Bool
  pub has_album : Bool
  pub has_duration : Bool
  pub has_explicit : Bool
  pub cover_present : Bool
  pub cover : Option Cover

pub record Position (R : Floats) : Type 0 where
  pub position_ms : ℕ
  pub timestamp : ℕ
  pub speed : R.Float

-- A command that awaits its acknowledgment; `id` is the pointer that the caller holds.
pub record Wait : Type 0 where
  pub id : ℕ
  pub session : ℕ
  pub command : String

-- `results` holds what was sent on the channels of finished waits, the newest first, and `waits`
-- counts the waits begun.
pub record State (R : Floats) : Type 0 where
  pub generation : ℕ
  pub connected : Bool
  pub auth_revision : ℕ
  pub playback_revision : ℕ
  pub error_revision : ℕ
  pub authentication_known : Bool
  pub authenticated : Bool
  pub activity_known : Bool
  pub active : Bool
  pub volume_known : Bool
  pub volume : ℕ
  pub status : Status
  pub track : Option Metadata
  pub track_identity : String
  pub track_known : Bool
  pub track_revision : ℕ
  pub cover : Option Cover
  pub position_known : Bool
  pub position_ms : ℕ
  pub position_received : ℕ
  pub position_speed : R.Float
  pub resume_speed : R.Float
  pub position_timestamp : ℕ
  pub local_output_known : Bool
  pub local_output_active : Bool
  pub local_output_at : ℕ
  pub command_results : ℕ
  pub command_wait : Option Wait
  pub results : List (ℕ × Option Error)
  pub waits : ℕ

-- The fields of the event that each kind carries.
pub data Event (R : Floats) : Type 0 where
  auth_state : Bool → Bool → Event R
  -- activity and volume where they are present, an unknown volume as `some none`
  playback_state :
      Option Bool → Option (Option ℕ) → Status → Option Track → Option (Position R) → Event R
  track_changed : Track → Event R
  playback_changed : Status → Event R
  device_changed : Bool → Event R
  volume_changed : ℕ → Event R
  position_sync : Position R → Event R
  command_result : String → Event R
  error_event : Event R

abbrev pub next_word : ℕ → ℕ
next_word n = (n + 1) % 2 ^ 64

-- `nextSoloistRevision`, and the generation of BeginSession: 0 is left out.
abbrev pub next_revision : ℕ → ℕ
next_revision n = if next_word n == 0 then 1 else next_word n

module _ (R : Floats) where
  unfoldable pub new : State R
  new = record {
    generation = 0;
    connected = false;
    auth_revision = 0;
    playback_revision = 0;
    error_revision = 0;
    authentication_known = false;
    authenticated = false;
    activity_known = false;
    active = false;
    volume_known = false;
    volume = 0;
    status = idle;
    track = none;
    track_identity = "";
    track_known = false;
    track_revision = 0;
    cover = none;
    position_known = false;
    position_ms = 0;
    position_received = 0;
    position_speed = R.zero_speed;
    resume_speed = R.zero_speed;
    position_timestamp = 0;
    local_output_known = false;
    local_output_active = false;
    local_output_at = 0;
    command_results = 0;
    command_wait = none;
    results = [];
    waits = 0;
  }

module _ {R : Floats} where
  abbrev pub finish_at : Option Wait → Option Error → State R → State R
  finish_at none reason s = s
  finish_at (some w) reason s = record s {
    command_wait = none;
    results = (w.id, reason) ∷ s.results;
  }

  -- The pending wait, if there is one, gets its result.
  unfoldable pub finish_wait : Option Error → State R → State R
  finish_wait reason s = finish_at s.command_wait reason s

  abbrev pub clear_position : State R → State R
  clear_position s = record s {
    position_known = false;
    position_ms = 0;
    position_received = 0;
    position_speed = R.zero_speed;
    resume_speed = R.one_speed;
  }

  abbrev pub clear_track : State R → State R
  clear_track s = clear_position (record s {
    track_revision = if s.track_known then next_word s.track_revision else s.track_revision;
    track = none;
    track_identity = "";
    track_known = false;
    cover = none;
  })

  unfoldable pub reset_session : State R → State R
  unfolding finish_wait
  reset_session s = record (clear_position (finish_wait (some disconnected) s)) {
    authentication_known = false;
    authenticated = false;
    activity_known = false;
    active = false;
    volume_known = false;
    volume = 0;
    status = idle;
    track = none;
    track_identity = "";
    track_known = false;
    track_revision = 0;
    cover = none;
    position_timestamp = 0;
    command_results = 0;
    auth_revision = 0;
    playback_revision = 0;
    error_revision = 0;
  }

  abbrev pub silenced : State R → State R
  silenced s = record (clear_track s) {
    activity_known = false;
    active = false;
    volume_known = false;
    volume = 0;
    status = idle;
    position_timestamp = 0;
  }

  unfoldable pub reset_playback : Error → State R → State R
  unfolding finish_wait
  reset_playback reason s = finish_wait (some reason) (silenced s)

  abbrev pub matches : ℕ → State R → Bool
  matches session s = not (session == 0) && session == s.generation

  abbrev pub connected_as : ℕ → State R → State R
  connected_as g s = record s { generation = g; connected = true }

  unfoldable pub begin_session : State R → State R × ℕ
  unfolding reset_session
  begin_session s = let g = next_revision s.generation in (reset_session (connected_as g s), g)

  unfoldable pub end_session : ℕ → State R → State R × Option Error
  unfolding reset_session
  end_session session s =
      if not (matches session s)
      then (s, some stale_session)
      else (reset_session (record s { connected = false }), none)

  unfoldable pub observe_local_output : ℕ → Bool → State R → State R
  observe_local_output now active s = record s {
    local_output_known = true;
    local_output_active = active;
    local_output_at = if active then now else 0;
  }
