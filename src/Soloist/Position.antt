-- ===== src/Soloist/Position.antt =====
-- soloist_state.go: the playback position, as estimated from the last report, and the status.
use zombiebox_gateway_core.Base.{
  ℕ, ◌+◌, ◌-◌, Bool, true, false, not, ◌&&◌, ◌||◌, Option, none, some, if◌then◌else◌, leb, ltb,
}
use zombiebox_gateway_core.Soloist.Model.{
  Floats, Status, playing, Metadata, Position, State, clear_position,
}

-- 24 hours, and 7 days.
abbrev pub max_age : ℕ
max_age = 86400000

abbrev pub max_position : ℕ
max_position = 604800000

abbrev pub is_playing : Status → Bool
is_playing playing = true
is_playing _ = false

abbrev pub duration_of : Option Metadata → ℕ
duration_of none = 0
duration_of (some m) = m.duration

-- The estimate, its age, and whether it may be used.
pub record Estimate : Type 0 where
  pub at : ℕ
  pub age : ℕ
  pub usable : Bool

-- The end of the track, or of the week where the duration is not known.
abbrev pub end_of : Option Metadata → ℕ
end_of track = if ltb 0 (duration_of track) then duration_of track else max_position

module _ {R : Floats} where
  -- The position after playing for a while; past the end it is the end.
  pub advanced : State R → ℕ → ℕ
  advanced s age =
      let last = end_of s.track in
      if leb last s.position_ms || R.at_least age s.position_speed (last - s.position_ms)
      then last
      else s.position_ms + R.whole age s.position_speed

  -- A clock that ran backwards, or a report of more than a day ago, gives no estimate.
  unfoldable pub estimated_position : ℕ → State R → Estimate
  unfolding advanced
  estimated_position now s =
      let age = now - s.position_received in
      if not s.position_known
      then record { at = 0; age = 0; usable = false }
      else if ltb now s.position_received || ltb max_age age
      then record { at = 0; age = age; usable = false }
      else record {
        at =
            if is_playing s.status && R.positive s.position_speed && ltb 0 age
            then advanced s age
            else s.position_ms;
        age = age;
        usable = true;
      }

  -- The first positive speed of the current one, the one to resume with, and 1.
  abbrev pub playing_speed : State R → R.Float
  playing_speed s =
      if R.positive s.position_speed
      then s.position_speed
      else (if R.positive s.resume_speed then s.resume_speed else R.one_speed)

  -- The speeds after a change of the status.
  unfoldable pub with_speed : Status → State R → State R
  with_speed status s =
      let speed = playing_speed s in
      if is_playing status
      then record s { position_speed = speed; resume_speed = speed }
      else if R.positive s.position_speed
      then record s { resume_speed = s.position_speed; position_speed = R.zero_speed }
      else s

  -- A position that is no longer usable is forgotten.
  abbrev pub refreshed : ℕ → State R → State R
  refreshed now s =
      if s.position_known && not (estimated_position now s).usable then clear_position s else s

  abbrev pub rebased : ℕ → ℕ → State R → State R
  rebased at now s =
      if s.position_known then record s { position_ms = at; position_received = now } else s

  unfoldable pub set_status : Status → ℕ → State R → State R
  unfolding estimated_position with_speed
  set_status status now s =
      let at = if s.position_known then (estimated_position now s).at else s.position_ms in
      let t = rebased at now (with_speed status (refreshed now s)) in record t { status = status }

  unfoldable pub set_position : Position R → ℕ → State R → State R
  set_position p now s = record s {
    position_known = true;
    position_ms = p.position_ms;
    position_received = now;
    position_speed = p.speed;
    resume_speed = if R.positive p.speed then p.speed else s.resume_speed;
    position_timestamp = p.timestamp;
  }
