-- ===== src/Ranges.antt =====
-- gateway/internal/media/youtube_range.go: one response to the client, relayed from bounded
-- requests of a source. An answer is what one round of the loop meets.
pub mod Exact
pub mod Rounds
mod Tests
use zombiebox_gateway_core.Base.{
  ℕ, suc, ◌+◌, ◌-◌, ◌^◌, min, Bool, true, false, not, ◌&&◌, ◌||◌, Option, none, some, List, [], ◌∷◌,
  ◌++◌, if◌then◌else◌, leb, ltb, ◌==◌, length, take, drop, all,
}
use zombiebox_gateway_core.Base.Text.{
  codes, is_digit, has_prefix, split, Parsed, parsed, out_of_range, bad_syntax, parse_uint,
}

-- The digits that the patterns ask for, with the errors of ParseInt.
abbrev fitting : Parsed → Option ℕ
fitting (parsed n) = if ltb n (2 ^ 63) then some n else none
fitting out_of_range = none
fitting bad_syntax = none

unfoldable number : List ℕ → Option ℕ
unfolding parse_uint is_digit
number s = if all is_digit s then fitting (parse_uint s) else none

first_of : List (List ℕ) → Option ℕ
unfolding number
first_of (first ∷ [] ∷ []) = number first
first_of _ = none

-- `openRangeStart`: no range asks for all.
pub open_range_start : List ℕ → Option ℕ
unfolding first_of has_prefix split
open_range_start [] = some 0
open_range_start (c ∷ s) =
    if has_prefix (c ∷ s) (codes "bytes=") then first_of (split b'-' (drop 6 (c ∷ s))) else none

pub record Range : Type 0 where
  pub first : ℕ
  pub last : ℕ
  pub size : ℕ

abbrev range_of : Option ℕ → Option ℕ → Option ℕ → Option Range
range_of (some first) (some last) (some size) =
    some (record { first = first; last = last; size = size })
range_of _ _ _ = none

sized : List ℕ → List (List ℕ) → Option Range
unfolding number
sized first (last ∷ size ∷ []) = range_of (number first) (number last) (number size)
sized first _ = none

spanned : List (List ℕ) → Option Range
unfolding sized split
spanned (first ∷ rest ∷ []) = sized first (split b'/' rest)
spanned _ = none

pub content_range : List ℕ → Option Range
unfolding spanned has_prefix split
content_range s = if has_prefix s (codes "bytes ") then spanned (split b'-' (drop 6 s)) else none

abbrev consistent : ℕ → ℕ → Range → Bool
consistent start end r =
    r.first == start && leb r.first r.last && leb r.last end && ltb r.last r.size

pub checked_range : ℕ → ℕ → Option Range → Option Range
checked_range start end none = none
checked_range start end (some r) = if consistent start end r then some r else none

pub parse_content_range : List ℕ → ℕ → ℕ → Option Range
unfolding content_range checked_range
parse_content_range s start end = checked_range start end (content_range s)

-- The headers of the response: the length, and the range if the client asked for one.
pub record Head : Type 0 where
  pub content_length : ℕ
  pub range : Option Range

pub record Relay : Type 0 where
  pub start : ℕ
  pub next : ℕ
  pub total : ℕ
  pub retries : ℕ
  pub head : Option Head
  pub body : List ℕ

-- The client is gone; the request fails, retryable or not; the source is unavailable for now; it
-- answers with another status; or it answers with a range, of which the client takes all or a
-- number of bytes. `waited` says that the wait before a retry was not cut off.
pub data Answer : Type 0 where
  gone : Answer
  fails : (retryable waited : Bool) → Answer
  unavailable : (waited : Bool) → Answer
  other_status : Answer
  partial : (range : List ℕ) → (bytes : List ℕ) → (taken : Option ℕ) → (waited : Bool) → Answer

-- What relayYouTubeOpenRange returns: whether the response began, and whether all went well.
pub data Outcome : Type 0 where
  running : Relay → Outcome
  ended : Relay → (began ok : Bool) → Outcome

abbrev pub relay_from : ℕ → Relay
relay_from start = record {
  start = start;
  next = start;
  total = 0;
  retries = 0;
  head = none;
  body = [];
}

abbrev pub end_of : Relay → ℕ
end_of r =
    let end = r.next + 262143 in if not (r.total == 0) && leb r.total end then r.total - 1 else end

abbrev pub with_retry : Relay → Relay
with_retry r = record r { retries = suc r.retries }

abbrev pub give_up : Relay → Outcome
give_up r = ended r (not (r.total == 0)) false

pub retry : Bool → Relay → Outcome
retry waited r = if ltb r.retries 12 && waited then running (with_retry r) else give_up r

abbrev pub head_of : Bool → ℕ → ℕ → Head
head_of ranged start size = record {
  content_length = size - start;
  range = if ranged then some (record { first = start; last = size - 1; size = size }) else none;
}

abbrev pub started : Bool → ℕ → Relay → Relay
started ranged size r =
    if r.total == 0 then record r { total = size; head = some (head_of ranged r.start size) } else r

abbrev pub limit_of : Option ℕ → ℕ → ℕ
limit_of none count = count
limit_of (some taken) count = min taken count

-- The client failed, rather than the source.
abbrev pub is_taken : Option ℕ → ℕ → Bool
is_taken none sent = false
is_taken (some taken) sent = sent == taken

abbrev pub advanced : List ℕ → Relay → Relay
advanced sent r = record r { next = r.next + length sent; body = r.body ++ sent }

pub delivered : ℕ → List ℕ → Option ℕ → Bool → Relay → Outcome
delivered count sent taken waited r =
    let v = advanced sent r in
    if length sent == count
    then (if v.next == v.total then ended v true true else running v)
    else if not (is_taken taken (length sent)) && ltb v.retries 12 && waited
    then running (with_retry v)
    else ended v true false

pub accepted : Bool → Bool → Range → List ℕ → Option ℕ → Bool → Relay → Outcome
unfolding delivered
accepted head_only ranged range bytes taken waited r =
    let count = suc range.last - r.next in
    let sent = take (limit_of taken count) bytes in
    if head_only
    then ended (started ranged range.size r) true true
    else delivered count sent taken waited (started ranged range.size r)

abbrev pub is_usable : Range → Relay → Bool
is_usable range r =
    leb range.size (2 ^ 35) && ltb r.start range.size && (r.total == 0 || range.size == r.total)

pub received : Bool → Bool → Option Range → List ℕ → Option ℕ → Bool → Relay → Outcome
unfolding accepted
received head_only ranged none bytes taken waited r = give_up r
received head_only ranged (some range) bytes taken waited r =
    if is_usable range r then accepted head_only ranged range bytes taken waited r else give_up r

pub answered : Bool → Bool → Answer → Relay → Outcome
unfolding retry received parse_content_range
answered head_only ranged gone r = give_up r
answered head_only ranged (fails retryable waited) r = retry (retryable && waited) r
answered head_only ranged (unavailable waited) r = retry waited r
answered head_only ranged other_status r = give_up r
answered head_only ranged (partial range bytes taken waited) r =
    received head_only ranged (parse_content_range range r.next (end_of r)) bytes taken waited r

-- A round of the loop; a position near 2^63 ends it.
pub round : Bool → Bool → Answer → Relay → Outcome
unfolding answered
round head_only ranged a r =
    if leb (2 ^ 63) (r.next + 262143) then give_up r else answered head_only ranged a r

pub run : Bool → Bool → List Answer → Outcome → Outcome
unfolding round
run head_only ranged [] o = o
run head_only ranged (a ∷ answers) (ended r began ok) = ended r began ok
run head_only ranged (a ∷ answers) (running r) =
    run head_only ranged answers (round head_only ranged a r)

-- The rounds that are made before the loop ends, or the answers do.
pub rounds : Bool → Bool → List Answer → Outcome → ℕ
unfolding round
rounds head_only ranged [] o = 0
rounds head_only ranged (a ∷ answers) (ended r began ok) = 0
rounds head_only ranged (a ∷ answers) (running r) =
    suc (rounds head_only ranged answers (round head_only ranged a r))
