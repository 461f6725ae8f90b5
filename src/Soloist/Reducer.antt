-- ===== src/Soloist/Reducer.antt =====
-- soloist_state.go: Apply, for a frame that has been parsed.
use zombiebox_gateway_core.Base.{
  ℕ, suc, ◌^◌, ◌-◌, String, Bool, true, false, not, ◌&&◌, ◌||◌, Option, none, some, [],
  if◌then◌else◌, leb, ltb, ◌==◌, str_eq,
}
use zombiebox_gateway_core.Soloist.Model.{
  Floats, Status, idle, Error, malformed, stale_session, stale_event, disconnected, unauthenticated,
  rejected, Metadata, Cover, Track, Position, Wait, State, Event, auth_state, playback_state,
  track_changed, playback_changed, device_changed, volume_changed, position_sync, command_result,
  error_event, next_word, next_revision, finish_wait, clear_position, clear_track, reset_playback,
  matches,
}
use zombiebox_gateway_core.Soloist.Position.{duration_of, set_status, set_position}

abbrev pub no_metadata : Metadata
no_metadata = record {
  title = "";
  artist = "";
  artists = [];
  album = "";
  duration = 0;
  explicit = none;
}

-- Where the metadata of a known track starts from.
abbrev pub base_of : Bool → Option Metadata → Metadata
base_of false (some m) = m
base_of _ _ = no_metadata

-- What an event names replaces what was known; a new track replaces all.
pub merged : Track → Bool → Option Metadata → Metadata
merged t replace old =
    let m = base_of replace old in
    record {
      title = if replace || t.has_title then t.metadata.title else m.title;
      artist = if replace || t.has_artist then t.metadata.artist else m.artist;
      artists = if replace || t.has_artist then t.metadata.artists else m.artists;
      album = if replace || t.has_album then t.metadata.album else m.album;
      duration = if replace || t.has_duration then t.metadata.duration else m.duration;
      explicit = if replace || t.has_explicit then t.metadata.explicit else m.explicit;
    }

abbrev pub stamped : ℕ → ℕ → Option Cover → Option Cover
stamped session revision none = none
stamped session revision (some c) = some (record c { session = session; track_revision = revision })

abbrev pub is_idle : Status → Bool
is_idle idle = true
is_idle _ = false

abbrev pub awaits : ℕ → Option Wait → Bool
awaits session none = false
awaits session (some w) = w.session == session

abbrev pub awaits_command : ℕ → String → Option Wait → Bool
awaits_command session command none = false
awaits_command session command (some w) = w.session == session && str_eq w.command command

module _ {R : Floats} where
  -- The cover belongs to the session and to the revision of the track.
  unfoldable pub with_cover : Track → State R → State R
  with_cover t s =
      if t.cover_present
      then record s { cover = stamped s.generation s.track_revision t.cover }
      else s

  abbrev pub renewed : State R → State R
  renewed s =
      clear_position (record s { track_revision = next_word s.track_revision; cover = none })

  unfoldable pub update_track : Track → State R → State R
  unfolding merged with_cover
  update_track t s =
      let changed = not s.track_known || not (str_eq s.track_identity t.identity) in
      let u = if changed then renewed s else s in
      with_cover t (record u {
        track_known = true;
        track_identity = t.identity;
        track = some (merged t changed s.track);
      })

  unfoldable pub force_track : Track → State R → State R
  unfolding merged with_cover
  force_track t s = with_cover t (record s {
    track_revision = next_word s.track_revision;
    track_known = true;
    track_identity = t.identity;
    cover = none;
    track = some (merged t true s.track);
  })

  abbrev pub position_of : Event R → Option (Position R)
  position_of (playback_state activity volume status track position) = position
  position_of (position_sync p) = some p
  position_of _ = none

  -- The duration that a position of the event is held against.
  abbrev pub duration_in : Event R → State R → ℕ
  duration_in (playback_state activity volume status (some t) position) s = t.metadata.duration
  duration_in _ s = duration_of s.track

  abbrev pub is_stale : Option (Position R) → State R → Bool
  is_stale none s = false
  is_stale (some p) s = leb p.timestamp s.position_timestamp

  abbrev pub is_beyond : Option (Position R) → ℕ → Bool
  is_beyond none duration = false
  is_beyond (some p) duration = ltb 0 duration && ltb duration p.position_ms

  abbrev pub with_activity : Option Bool → State R → State R
  with_activity none s = s
  with_activity (some active) s = record s { activity_known = true; active = active }

  abbrev pub with_volume : Option (Option ℕ) → State R → State R
  with_volume none s = s
  with_volume (some none) s = record s { volume_known = false; volume = 0 }
  with_volume (some (some v)) s = record s { volume_known = true; volume = v }

  -- Without an item the track ends only where the status is idle.
  abbrev pub with_track : Option Track → Status → State R → State R
  with_track (some t) status s = update_track t s
  with_track none status s = if is_idle status then clear_track s else s

  abbrev pub with_position : Option (Position R) → ℕ → State R → State R
  with_position none now s = s
  with_position (some p) now s = set_position p now s

  -- A later login starts from nothing.
  abbrev pub relogged : State R → State R
  relogged s = if s.authentication_known then reset_playback unauthenticated s else s

  abbrev pub with_login : Bool → State R → State R
  with_login login s = record s {
    auth_revision = next_revision s.auth_revision;
    authentication_known = true;
    authenticated = login;
  }

  unfoldable pub on_auth : Bool → Bool → State R → State R
  unfolding reset_playback
  on_auth login is_active s =
      let u = with_login login (relogged s) in
      if login
      then record u { activity_known = true; active = is_active }
      else reset_playback unauthenticated u

  unfoldable pub on_playback :
      Option Bool
      → Option (Option ℕ)
      → Status
      → Option Track
      → Option (Position R)
      → ℕ
      → State R
      → State R
  unfolding update_track set_status set_position
  on_playback activity volume status track position now s =
      let t = with_track track status (with_volume volume (with_activity activity s)) in
      let u = with_position position now (set_status status now t) in
      record u { playback_revision = next_revision u.playback_revision }

  -- The counter of results stops at its largest value.
  abbrev pub counted : State R → State R
  counted s = record s {
    command_results =
        if ltb s.command_results (2 ^ 64 - 1) then suc s.command_results else s.command_results;
  }

  unfoldable pub on_result : ℕ → String → State R → State R
  unfolding finish_wait
  on_result session command s =
      let t = counted s in
      if awaits_command session command s.command_wait then finish_wait none t else t

  unfoldable pub on_error : ℕ → State R → State R
  unfolding finish_wait
  on_error session s =
      let t = record s { error_revision = next_revision s.error_revision } in
      if awaits session s.command_wait then finish_wait (some rejected) t else t

  -- An event that needs a login.
  abbrev pub logged_in : State R → State R → State R × Option Error
  logged_in s t = if not s.authenticated then (s, some unauthenticated) else (t, none)

  -- The cases of the event, past the checks of its session and its position.
  unfoldable pub reduce : ℕ → ℕ → Event R → State R → State R × Option Error
  unfolding on_auth on_playback force_track set_status set_position on_result on_error
  reduce session now (auth_state login active) s = (on_auth login active s, none)
  reduce session now (playback_state activity volume status track position) s =
      logged_in s (on_playback activity volume status track position now s)
  reduce session now (track_changed t) s = logged_in s (clear_position (force_track t s))
  reduce session now (playback_changed status) s = logged_in s (set_status status now s)
  reduce session now (device_changed active) s =
      logged_in s (record s { activity_known = true; active = active })
  reduce session now (volume_changed v) s =
      logged_in s (record s { volume_known = true; volume = v })
  reduce session now (position_sync p) s =
      if s.authenticated && not s.track_known
      then (s, some malformed)
      else logged_in s (set_position p now s)
  reduce session now (command_result command) s = (on_result session command s, none)
  reduce session now error_event s = (on_error session s, none)

  unfoldable pub apply : ℕ → ℕ → Event R → State R → State R × Option Error
  unfolding reduce
  apply session now e s =
      if not (matches session s)
      then (s, some stale_session)
      else if not s.connected
      then (s, some disconnected)
      else if is_stale (position_of e) s
      then (s, some stale_event)
      else if is_beyond (position_of e) (duration_in e s)
      then (s, some malformed)
      else reduce session now e s
