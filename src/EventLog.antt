-- ===== src/EventLog.antt =====
-- gateway/internal/server/events.go: the log of events that devices poll with a cursor.
-- A cursor is a list of code points. The channel that wakes waiting readers is not modelled.
pub mod Numbers
pub mod Wanted
pub mod Reads
pub mod Invariant
mod Tests
use zombiebox_gateway_core.Base.{
  ℕ, zero, suc, ◌+◌, ◌-◌, ◌*◌, ◌/◌, ◌%◌, ◌^◌, String, Bool, true, false, not, ◌&&◌, ◌||◌, List, [],
  ◌∷◌, ◌++◌, length, drop, keep, ltb, leb, ◌==◌, if◌then◌else◌, str_eq,
}
use zombiebox_gateway_core.Base.Text.{
  same, split, Parsed, parsed, out_of_range, bad_syntax, parse_uint,
}

-- `%d` of an unsigned number, in front of a text; a number has no more digits than its value plus 1.
digits_from : ℕ → ℕ → List ℕ → List ℕ
digits_from zero n tail = (n + b'0') ∷ tail
digits_from (suc fuel) n tail =
    let rest = digits_from fuel (n / 10) ((n % 10 + b'0') ∷ tail) in
    if ltb n 10 then (n + b'0') ∷ tail else rest

pub digits : ℕ → List ℕ
unfolding digits_from
digits n = digits_from n n []

-- `fmt.Sprintf("%s:%d", e.epoch, n)`
pub cursor_of : List ℕ → ℕ → List ℕ
cursor_of epoch n = epoch ++ b':' ∷ digits n

pub record Event {ℓ} (A : Type ℓ) : Type ℓ where
  pub cursor : List ℕ
  pub kind : String
  pub payload : A
  pub device_id : String

pub record EventLog {ℓ} (A : Type ℓ) : Type ℓ where
  pub epoch : List ℕ
  pub sequence : ℕ
  pub events : List (Event A)

-- What a caller publishes.
pub record Publication {ℓ} (A : Type ℓ) : Type ℓ where
  pub device : String
  pub kind : String
  pub payload : A

-- `n, _ := strconv.ParseUint(...)`: the number, whatever the error.
abbrev number_or_bound : Parsed → ℕ
number_or_bound (parsed n) = n
number_or_bound out_of_range = 2 ^ 64 - 1
number_or_bound bad_syntax = 0

-- The second part of a cursor. Each event of a log has one, so the other clause is never used.
abbrev pub number_in : List (List ℕ) → ℕ
number_in (p ∷ q ∷ ps) = number_or_bound (parse_uint q)
number_in _ = 0

module _ {ℓ} {A : Type ℓ} where
  -- `newEvents`; the epoch is random.
  abbrev pub new_events : List ℕ → EventLog A
  new_events epoch = record { epoch = epoch; sequence = 0; events = [] }

  -- `e.events[len(e.events)-256:]` of a longer log.
  pub last_256 : List (Event A) → List (Event A)
  last_256 events = if ltb 256 (length events) then drop (length events - 256) events else events

  pub publish : Publication A → EventLog A → EventLog A
  unfolding last_256
  publish p e =
      let sequence = suc e.sequence % 2 ^ 64 in
      let event : Event A = record {
        cursor = cursor_of e.epoch sequence;
        kind = p.kind;
        payload = p.payload;
        device_id = p.device;
      } in
      record e { sequence = sequence; events = last_256 (e.events ++ event ∷ []) }

  pub wants : String → ℕ → Event A → Bool
  wants device seq event =
      ltb seq (number_in (split b':' event.cursor))
      && (str_eq event.device_id "" || str_eq event.device_id device)

  -- The events, and whether the reader has to start again.
  pub read_after : String → EventLog A → Parsed → List (Event A) × Bool
  read_after device e (parsed seq) =
      if ltb e.sequence seq || ltb (length e.events) (e.sequence - seq)
      then ([], true)
      else (keep (wants device seq) e.events, false)
  read_after device e _ = ([], true)

  pub read_parts : String → EventLog A → List (List ℕ) → List (Event A) × Bool
  unfolding read_after
  read_parts device e (epoch ∷ seq ∷ []) =
      if not (same epoch e.epoch) then ([], true) else read_after device e (parse_uint seq)
  read_parts device e _ = ([], true)

  pub read : String → List ℕ → EventLog A → List (Event A) × List ℕ × Bool
  unfolding read_parts
  read device cursor e =
      let (events, again) = read_parts device e (split b':' cursor) in
      if same cursor []
      then ([], cursor_of e.epoch e.sequence, false)
      else (events, cursor_of e.epoch e.sequence, again)
