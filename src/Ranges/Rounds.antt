-- ===== src/Ranges/Rounds.antt =====
-- youtube_range.go: the loop ends.
use zombiebox_gateway_core.Base.{
  ℕ, suc, ◌+◌, ◌-◌, ◌^◌, ◌≤◌, ◌<◌, ◌≡◌, ◌⊎◌, inl, inr, Bool, true, false, not, ◌&&◌, Option, none,
  some, List, [], ◌∷◌, arith, if◌then◌else◌, if-split, ltb, ◌==◌, length, take, Bool-cases,
}
use zombiebox_gateway_core.Ranges.{
  Range, parse_content_range, Relay, Answer, gone, fails, unavailable, other_status, partial,
  Outcome, running, ended, relay_from, end_of, with_retry, give_up, retry, started, limit_of,
  is_taken, advanced, delivered, accepted, is_usable, received, answered, round, rounds,
}
use zombiebox_gateway_core.Ranges.Exact.{
  Inv, Exact, RangeAt, Began, length-take-le, limit_of-le, parse_content_range-RangeAt,
  started-Began, round-Exact, relay_from-Inv,
}

-- The bytes to go, or as many as there can be while the size is not known.
abbrev left_of : (total next : ℕ) → ℕ
left_of total next = if total == 0 then 2 ^ 35 else total - next

unfoldable measure : Relay → ℕ
measure r = (12 - r.retries) + left_of r.total r.next

unfoldable Down : ℕ → Outcome → Type 0
Down bound (running v) = measure v < bound
Down bound (ended v began ok) = Unit

retry-Down : (waited : Bool) (r : Relay) → Down (measure r) (retry waited r)
unfolding retry Down measure
retry-Down waited r =
    if-split (Down (measure r)) _ (running (with_retry r)) (give_up r) (λ h. ground arith) (λ _. tt)

-- The bytes to go of a response that has begun are no more than before.
left_of-Began :
    (size : ℕ) (r u : Relay)
    → Inv r
    → 0 < size
    → size ≤ 2 ^ 35
    → (r.total ≡ 0) ⊎ (r.total ≡ size)
    → Began size r u
    → left_of u.total u.next ≤ left_of r.total r.next
left_of-Began size r u v some_size small before b = ground (arith, before, b.whole, b.same)

delivered-Down :
    (count : ℕ) (sent : List ℕ) (taken : Option ℕ) (waited : Bool) (r u : Relay)
    → u.retries ≡ r.retries
    → left_of u.total u.next ≤ left_of r.total r.next
    → 0 < u.total
    → 0 < count
    → u.next + count ≤ u.total
    → length sent ≤ count
    → Down (measure r) (delivered count sent taken waited u)
unfolding delivered Down measure
delivered-Down count sent taken waited r u kept less some_total some_count fits few =
    let x = advanced sent u in
    if-split (Down (measure r)) _ (if x.next == x.total then ended x true true else running x)
      (if not (is_taken taken (length sent)) && ltb x.retries 12 && waited
        then running (with_retry x)
        else ended x true false)
      (λ all_sent.
        if-split (Down (measure r)) _ (ended x true true) (running x) (λ _. tt)
          (λ _. ground (arith, all_sent, kept, less)))
      (λ _.
        if-split (Down (measure r)) _ (running (with_retry x)) (ended x true false)
          (λ h. ground (arith, h, kept, less)) (λ _. tt))

is_usable-total :
    (range : Range) (r : Relay) → is_usable range r ≡ true → (r.total ≡ 0) ⊎ (r.total ≡ range.size)
is_usable-total range r h = elim (Bool-cases (r.total == 0)) [
  | inl e ↦ inl (ground (arith, e))
  | inr e ↦ inr (ground (arith, h, e))
]

accepted-Down :
    (head_only ranged : Bool) (range : Range) (bytes : List ℕ) (taken : Option ℕ) (waited : Bool)
    (r : Relay)
    → Inv r
    → r.next ≤ range.last
    → range.last < range.size
    → is_usable range r ≡ true
    → Down (measure r) (accepted head_only ranged range bytes taken waited r)
unfolding accepted Down
accepted-Down head_only ranged range bytes taken waited r v le lt h =
    let count = suc range.last - r.next in
    let sent = take (limit_of taken count) bytes in
    let u = started ranged range.size r in
    let b = started-Began ranged range r v le lt h in
    let before : (r.total ≡ 0) ⊎ (r.total ≡ range.size) = is_usable-total range r h in
    if-split (Down (measure r)) head_only (ended u true true) (delivered count sent taken waited u)
      (λ _. tt)
      (λ _.
        delivered-Down count sent taken waited r u b.kept
          (left_of-Began range.size r u v (omega arith) (ground (arith, h)) before b)
          (omega (arith, b.whole)) (omega arith) (omega (arith, b.whole, b.same))
          (omega (arith, length-take-le (limit_of taken count) bytes, limit_of-le taken count)))

received-Down :
    (head_only ranged : Bool) (o : Option Range) (bytes : List ℕ) (taken : Option ℕ) (waited : Bool)
    (r : Relay)
    → Inv r
    → RangeAt r.next o
    → Down (measure r) (received head_only ranged o bytes taken waited r)
unfolding received RangeAt Down
received-Down head_only ranged none bytes taken waited r v at = tt
received-Down head_only ranged (some range) bytes taken waited r v at =
    if-split (Down (measure r)) _ (accepted head_only ranged range bytes taken waited r) (give_up r)
      (λ h. accepted-Down head_only ranged range bytes taken waited r v at.0 at.1 h) (λ _. tt)

answered-Down :
    (head_only ranged : Bool) (a : Answer) (r : Relay)
    → Inv r
    → Down (measure r) (answered head_only ranged a r)
unfolding answered Down
answered-Down head_only ranged gone r v = tt
answered-Down head_only ranged (fails retryable waited) r v = retry-Down (retryable && waited) r
answered-Down head_only ranged (unavailable waited) r v = retry-Down waited r
answered-Down head_only ranged other_status r v = tt
answered-Down head_only ranged (partial range bytes taken waited) r v =
    received-Down head_only ranged (parse_content_range range r.next (end_of r)) bytes taken waited
      r v (parse_content_range-RangeAt range r.next (end_of r))

round-Down :
    (head_only ranged : Bool) (a : Answer) (r : Relay)
    → Inv r
    → Down (measure r) (round head_only ranged a r)
unfolding round Down
round-Down head_only ranged a r v =
    if-split (Down (measure r)) _ (give_up r) (answered head_only ranged a r) (λ _. tt)
      (λ _. answered-Down head_only ranged a r v)

rounds_of-le :
    (head_only ranged : Bool) (answers : List Answer) (bound : ℕ) (o : Outcome)
    → Exact head_only o
    → Down bound o
    → rounds head_only ranged answers o ≤ bound
unfolding rounds Exact Down
rounds_of-le head_only ranged [] bound o x d = omega arith
rounds_of-le head_only ranged (a ∷ answers) bound (ended r began ok) x d = omega arith
rounds_of-le head_only ranged (a ∷ answers) bound (running r) x d = omega (
  arith,
  d,
  rounds_of-le head_only ranged answers (measure r) (round head_only ranged a r)
      (round-Exact head_only ranged a r x) (round-Down head_only ranged a r x),
)

-- Whatever the answers are, the loop ends within 2^35 + 13 rounds.
pub rounds-le :
    (head_only ranged : Bool) (start : ℕ) (answers : List Answer)
    → rounds head_only ranged answers (running (relay_from start)) ≤ 2 ^ 35 + 13
unfolding Exact Down measure
rounds-le head_only ranged start answers =
    rounds_of-le head_only ranged answers (2 ^ 35 + 13) (running (relay_from start))
      (relay_from-Inv start) (omega arith)
