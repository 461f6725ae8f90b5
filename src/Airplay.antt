-- ===== src/Airplay.antt =====
-- gateway/internal/worker/airplay_progress.go: the progress of a track, as read from the output of
-- the AirPlay receiver. Bytes are numbers, and times are in milliseconds.

pub mod Fence
pub mod Sound
pub mod Printed
mod Tests
use zombiebox_gateway_core.Base.{
  ℕ, zero, suc, ◌+◌, ◌-◌, ◌*◌, String, Bool, true, false, not, ◌&&◌, ◌||◌, Option, none, some, List,
  [], ◌∷◌, ◌++◌, if◌then◌else◌, leb, ltb, ◌==◌, str_eq, length, all,
}
use zombiebox_gateway_core.Base.Text.{codes, byte_length, is_digit}

pub record Sample : Type 0 where
  pub track_revision : String
  pub position_ms : ℕ
  pub duration_ms : ℕ
  pub reported_at : ℕ

-- The zero sample is `none`.
pub record Progress : Type 0 where
  pub track_revision : String
  pub line_revision : String
  pub line : List ℕ
  pub discard_line : Bool
  pub sample : Option Sample

pub record Clock : Type 0 where
  pub position_ms : ℕ
  pub duration_ms : ℕ
  pub age_ms : ℕ

abbrev pub new : Progress
new = record {
  track_revision = "";
  line_revision = "";
  line = [];
  discard_line = false;
  sample = none;
}

-- The parts of the pattern: the bytes of a text, blanks, and a clock of minutes and seconds.
infixl 1 ◌>>=◌
abbrev ◌>>=◌ : {A B : Type 0} → Option A → (A → Option B) → Option B
none >>= f = none
some a >>= f = f a

pub expect : List ℕ → List ℕ → Option (List ℕ)
expect [] s = some s
expect (c ∷ cs) [] = none
expect (c ∷ cs) (x ∷ s) = if x == c then expect cs s else none

pub is_blank : ℕ → Bool
is_blank c = c == 32 || c == 9

pub skip_blanks : List ℕ → List ℕ
unfolding is_blank
skip_blanks [] = []
skip_blanks (c ∷ s) = if is_blank c then skip_blanks s else c ∷ s

-- The blank that `[ \t]+` asks for.
pub one_blank : List ℕ → Option (List ℕ)
unfolding is_blank
one_blank [] = none
one_blank (c ∷ s) = if is_blank c then some s else none

-- A colon and two digits, the first below 6.
pub seconds : ℕ → List ℕ → Option (ℕ × List ℕ)
unfolding is_digit
seconds minutes (colon ∷ tens ∷ units ∷ s) =
    if colon == b':' && is_digit tens && leb tens b'5' && is_digit units
    then some (minutes * 60 + ((tens - b'0') * 10 + (units - b'0')), s)
    else none
seconds minutes _ = none

-- Up to `more` further digits of the minutes.
pub minutes : (more : ℕ) → ℕ → List ℕ → Option (ℕ × List ℕ)
unfolding seconds is_digit
minutes zero n s = seconds n s
minutes (suc more) n [] = none
minutes (suc more) n (c ∷ s) =
    let rest = minutes more (n * 10 + (c - b'0')) s in
    if is_digit c then rest else seconds n (c ∷ s)

pub clock : List ℕ → Option (ℕ × List ℕ)
unfolding minutes is_digit
clock [] = none
clock (c ∷ s) = if is_digit c then minutes 3 (c - b'0') s else none

pub is_end : List ℕ → Bool
is_end [] = true
is_end _ = false

-- The seconds that a line gives: the position, the rest, and the length.
pub progress_of : List ℕ → Option (ℕ × ℕ × ℕ)
unfolding expect skip_blanks one_blank clock is_end
progress_of line = do
  start ← expect (codes "audio progress (min:sec):") line
  (position, t) ← clock (skip_blanks start)
  u ← expect (codes ";") t
  v ← expect (codes "remaining:") (skip_blanks u)
  (remaining, w) ← clock (skip_blanks v)
  x ← expect (codes ";") w
  y ← expect (codes "track length") (skip_blanks x)
  z ← one_blank y
  (duration, last) ← clock (skip_blanks z)
  if is_end last then some (position, remaining, duration) else none

-- The position and the duration, if they are at most a day and add up.
pub checked : ℕ → ℕ → ℕ → Option (ℕ × ℕ)
checked position remaining duration =
    if duration == 0
      || ltb 86400 duration
      || ltb duration position
      || not (position + remaining == duration)
    then none
    else some (position * 1000, duration * 1000)

pub checked_of : Option (ℕ × ℕ × ℕ) → Option (ℕ × ℕ)
unfolding checked
checked_of none = none
checked_of (some (position, remaining, duration)) = checked position remaining duration

pub parse_airplay_progress : List ℕ → Option (ℕ × ℕ)
unfolding progress_of checked_of
parse_airplay_progress line = checked_of (progress_of line)

pub set_sample : ℕ → Option (ℕ × ℕ) → Progress → Progress
set_sample now none p = p
set_sample now (some (position, duration)) p = record p {
  sample = some (record {
    track_revision = p.line_revision;
    position_ms = position;
    duration_ms = duration;
    reported_at = now;
  });
}

pub finish_line : ℕ → Progress → Progress
unfolding set_sample
finish_line now p =
    if str_eq p.line_revision "" || not (str_eq p.line_revision p.track_revision)
    then p
    else set_sample now (parse_airplay_progress p.line) p

abbrev pub is_line_end : ℕ → Bool
is_line_end c = c == 13 || c == 10

abbrev pub next_line : Progress → Progress
next_line p = record p { line = []; line_revision = ""; discard_line = false }

-- The revision of a line is the one at its first byte.
abbrev pub line_started : Progress → Progress
line_started p = if length p.line == 0 then record p { line_revision = p.track_revision } else p

abbrev pub add_byte : ℕ → Progress → Progress
add_byte c p =
    if leb 512 (length p.line)
    then record p { line = []; line_revision = ""; discard_line = true }
    else record p { line = p.line ++ c ∷ [] }

pub write_byte : ℕ → ℕ → Progress → Progress
unfolding finish_line
write_byte now c p =
    if is_line_end c
    then next_line (finish_line now p)
    else if p.discard_line
    then p
    else add_byte c (line_started p)

pub write : ℕ → List ℕ → Progress → Progress
write now [] p = p
write now (c ∷ cs) p = write now cs (write_byte now c p)

-- A line is open after its first byte, also while it is discarded.
abbrev pub has_partial_line : Progress → Bool
has_partial_line p = ltb 0 (length p.line) || p.discard_line

-- A progress at the start of a track, that swallows the rest of a line or not.
abbrev pub fresh : Bool → String → Progress
fresh discard revision = record {
  track_revision = revision;
  line_revision = "";
  line = [];
  discard_line = discard;
  sample = none;
}

abbrev pub usable_revision : String → String
usable_revision revision = if ltb 64 (byte_length (codes revision)) then "" else revision

pub observe_track : String → Progress → Progress
observe_track revision p =
    let r = usable_revision revision in
    if str_eq r p.track_revision then p else fresh (has_partial_line p) r

abbrev pub clock_at : ℕ → Sample → Clock
clock_at now s = record {
  position_ms = s.position_ms;
  duration_ms = s.duration_ms;
  age_ms = now - s.reported_at;
}

pub clock_of : ℕ → String → Option Sample → Option Clock
clock_of now revision none = none
clock_of now revision (some s) =
    if not (str_eq s.track_revision revision)
      || ltb now s.reported_at
      || ltb 5000 (now - s.reported_at)
    then none
    else some (clock_at now s)

unfoldable pub snapshot : ℕ → Progress → Option Clock
unfolding clock_of
snapshot now p = if str_eq p.track_revision "" then none else clock_of now p.track_revision p.sample

is_hex : ℕ → Bool
is_hex c = is_digit c || (leb b'a' c && leb c b'f') || (leb b'A' c && leb c b'F')

-- The revision of a track: the digest of its labels and its connection; `digest` is the SHA-256
-- in hex.
unfoldable pub track_revision :
    (List ℕ → String) → (title artist album connection : List ℕ) → String
unfolding is_hex
track_revision digest title artist album connection =
    if length title == 0 || not (length connection == 16) || not (all is_hex connection)
    then ""
    else digest (title ++ 0 ∷ artist ++ 0 ∷ album ++ 0 ∷ connection)

-- What happens to a progress.
pub data Event : Type 0 where
  writes : ℕ → List ℕ → Event
  observes : String → Event

unfoldable pub happen : Progress → Event → Progress
unfolding write observe_track
happen p (writes now cs) = write now cs p
happen p (observes revision) = observe_track revision p

unfoldable pub after : Progress → List Event → Progress
after p [] = p
after p (e ∷ es) = after (happen p e) es
