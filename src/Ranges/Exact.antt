-- ===== src/Ranges/Exact.antt =====
-- youtube_range.go: the bytes of the response and its announced length.
use zombiebox_gateway_core.Base.{
  ℕ, zero, suc, ◌+◌, ◌-◌, ◌^◌, ◌≤◌, ◌<◌, ◌≡◌, ◌⊎◌, inl, inr, refl, Bool, true, false, not, ◌&&◌,
  Option, none, some, List, [], ◌∷◌, arith, if◌then◌else◌, if-split, ltb, ◌==◌, length, take,
  length-append,
}
use zombiebox_gateway_core.Ranges.{
  Range, checked_range, content_range, parse_content_range, Head, Relay, Answer, gone, fails,
  unavailable, other_status, partial, Outcome, running, ended, relay_from, end_of, with_retry,
  give_up, retry, started, head_of, limit_of, is_taken, advanced, delivered, accepted, is_usable,
  received, answered, round, run,
}

abbrev pub length_of : Option Head → ℕ
length_of none = 0
length_of (some h) = h.content_length

-- The response has not begun, or its length is that of the source from the start on, and the
-- position is not past the end.
pub BegunAt : (start next total : ℕ) → Option Head → Type 0
BegunAt start next total head =
    ((total ≡ 0) × (next ≡ start))
    ⊎ ((next ≤ total) × (start < total) × (total ≤ 2 ^ 35) × (length_of head ≡ total - start))

pub record Inv (r : Relay) : Type 0 where
  pub count : length r.body + r.start ≡ r.next
  pub begun : BegunAt r.start r.next r.total r.head
  pub tries : r.retries ≤ 12

-- Success is all of the announced length, unless only the headers were asked for.
unfoldable pub Exact : Bool → Outcome → Type 0
Exact head_only (running r) = Inv r
Exact head_only (ended r began ok) =
    Inv r
    × (began ≡ not (r.total == 0))
    × (ok ≡ true → (head_only ≡ true) ⊎ (length r.body ≡ length_of r.head))

give_up-Exact : (head_only : Bool) (r : Relay) → Inv r → Exact head_only (give_up r)
unfolding Exact
give_up-Exact head_only r v = (v, refl, λ h. absurd (ground (arith, h)))

retry-Exact : (head_only waited : Bool) (r : Relay) → Inv r → Exact head_only (retry waited r)
unfolding retry Exact
retry-Exact head_only waited r v =
    if-split (Exact head_only) _ (running (with_retry r)) (give_up r)
      (λ h. record { count = v.count; begun = v.begun; tries = ground arith })
      (λ _. give_up-Exact head_only r v)

pub length-take-le : (n : ℕ) (xs : List ℕ) → length (take n xs) ≤ n
length-take-le zero xs = omega arith
length-take-le (suc n) [] = omega arith
length-take-le (suc n) (x ∷ xs) = omega (arith, length-take-le n xs)

pub limit_of-le : (taken : Option ℕ) (count : ℕ) → limit_of taken count ≤ count
limit_of-le none count = omega arith
limit_of-le (some n) count = omega arith

-- What a range that passes the checks says of the position.
unfoldable pub RangeAt : ℕ → Option Range → Type 0
RangeAt next none = Unit
RangeAt next (some range) = (next ≤ range.last) × (range.last < range.size)

checked_range-RangeAt : (next end : ℕ) (o : Option Range) → RangeAt next (checked_range next end o)
unfolding checked_range RangeAt
checked_range-RangeAt next end none = tt
checked_range-RangeAt next end (some range) =
    if-split (RangeAt next) _ (some range) none (λ h. (ground (arith, h), ground (arith, h)))
      (λ _. tt)

pub parse_content_range-RangeAt :
    (s : List ℕ) (next end : ℕ) → RangeAt next (parse_content_range s next end)
unfolding parse_content_range
parse_content_range-RangeAt s next end = checked_range-RangeAt next end (content_range s)

-- The response has begun with this size, at the same position.
pub record Began (size : ℕ) (r u : Relay) : Type 0 where
  pub inv : Inv u
  pub whole : u.total ≡ size
  pub same : u.next ≡ r.next
  pub kept : u.retries ≡ r.retries

pub started-Began :
    (ranged : Bool) (range : Range) (r : Relay)
    → Inv r
    → r.next ≤ range.last
    → range.last < range.size
    → is_usable range r ≡ true
    → Began range.size r (started ranged range.size r)
unfolding BegunAt
started-Began ranged range r v le lt h =
    if-split (Began range.size r) _
      (record r { total = range.size; head = some (head_of ranged r.start range.size) }) r
      (λ none_yet. record {
        inv = record {
          count = v.count;
          begun = inr (omega arith, ground (arith, h), ground (arith, h), refl);
          tries = v.tries;
        };
        whole = refl;
        same = refl;
        kept = refl;
      })
      (λ begun. record { inv = v; whole = ground (arith, h, begun); same = refl; kept = refl })

pub advanced-Inv :
    (sent : List ℕ) (u : Relay)
    → Inv u
    → 0 < u.total
    → u.next + length sent ≤ u.total
    → Inv (advanced sent u)
unfolding BegunAt
advanced-Inv sent u v some_total fits = record {
  count = omega (arith, length-append u.body sent, v.count);
  begun = elim v.begun [ inl b ↦ absurd (omega (arith, b.0)) | inr b ↦ inr (fits, b.1, b.2, b.3) ];
  tries = v.tries;
}

complete-length :
    (u : Relay) → Inv u → u.next ≡ u.total → 0 < u.total → length u.body ≡ length_of u.head
unfolding BegunAt
complete-length u v all_of some_total = elim v.begun [
  | inl b ↦ absurd (omega (arith, b.0))
  | inr b ↦ omega (arith, v.count, b.1, b.3)
]

delivered-Exact :
    (head_only : Bool) (count : ℕ) (sent : List ℕ) (taken : Option ℕ) (waited : Bool) (u : Relay)
    → Inv u
    → 0 < u.total
    → u.next + length sent ≤ u.total
    → Exact head_only (delivered count sent taken waited u)
unfolding delivered Exact
delivered-Exact head_only count sent taken waited u v some_total fits =
    let x = advanced sent u in
    let w : Inv x = advanced-Inv sent u v some_total fits in
    if-split (Exact head_only) _ (if x.next == x.total then ended x true true else running x)
      (if not (is_taken taken (length sent)) && ltb x.retries 12 && waited
        then running (with_retry x)
        else ended x true false)
      (λ _.
        if-split (Exact head_only) _ (ended x true true) (running x)
          (λ e. (w, ground arith, λ _. inr (complete-length x w (ground (arith, e)) some_total)))
          (λ _. w))
      (λ _.
        if-split (Exact head_only) _ (running (with_retry x)) (ended x true false)
          (λ h. record { count = w.count; begun = w.begun; tries = ground (arith, h) })
          (λ _. (w, ground arith, λ h. absurd (ground (arith, h)))))

accepted-Exact :
    (head_only ranged : Bool) (range : Range) (bytes : List ℕ) (taken : Option ℕ) (waited : Bool)
    (r : Relay)
    → Inv r
    → r.next ≤ range.last
    → range.last < range.size
    → is_usable range r ≡ true
    → Exact head_only (accepted head_only ranged range bytes taken waited r)
unfolding accepted Exact
accepted-Exact head_only ranged range bytes taken waited r v le lt h =
    let count = suc range.last - r.next in
    let sent = take (limit_of taken count) bytes in
    let u = started ranged range.size r in
    let b = started-Began ranged range r v le lt h in
    let some_total : 0 < u.total = omega (arith, b.whole, lt) in
    if-split (Exact head_only) head_only (ended u true true) (delivered count sent taken waited u)
      (λ only. (b.inv, ground arith, λ _. inl only))
      (λ _. delivered-Exact head_only count sent taken waited u b.inv some_total (
        omega (
          arith,
          length-take-le (limit_of taken count) bytes,
          limit_of-le taken count,
          b.whole,
          b.same,
          lt,
          le,
        )))

received-Exact :
    (head_only ranged : Bool) (o : Option Range) (bytes : List ℕ) (taken : Option ℕ) (waited : Bool)
    (r : Relay)
    → Inv r
    → RangeAt r.next o
    → Exact head_only (received head_only ranged o bytes taken waited r)
unfolding received RangeAt
received-Exact head_only ranged none bytes taken waited r v at = give_up-Exact head_only r v
received-Exact head_only ranged (some range) bytes taken waited r v at =
    if-split (Exact head_only) _ (accepted head_only ranged range bytes taken waited r) (give_up r)
      (λ h. accepted-Exact head_only ranged range bytes taken waited r v at.0 at.1 h)
      (λ _. give_up-Exact head_only r v)

answered-Exact :
    (head_only ranged : Bool) (a : Answer) (r : Relay)
    → Inv r
    → Exact head_only (answered head_only ranged a r)
unfolding answered
answered-Exact head_only ranged gone r v = give_up-Exact head_only r v
answered-Exact head_only ranged (fails retryable waited) r v =
    retry-Exact head_only (retryable && waited) r v
answered-Exact head_only ranged (unavailable waited) r v = retry-Exact head_only waited r v
answered-Exact head_only ranged other_status r v = give_up-Exact head_only r v
answered-Exact head_only ranged (partial range bytes taken waited) r v =
    received-Exact head_only ranged (parse_content_range range r.next (end_of r)) bytes taken waited
      r v (parse_content_range-RangeAt range r.next (end_of r))

pub round-Exact :
    (head_only ranged : Bool) (a : Answer) (r : Relay)
    → Inv r
    → Exact head_only (round head_only ranged a r)
unfolding round
round-Exact head_only ranged a r v =
    if-split (Exact head_only) _ (give_up r) (answered head_only ranged a r)
      (λ _. give_up-Exact head_only r v) (λ _. answered-Exact head_only ranged a r v)

run_from-Exact :
    (head_only ranged : Bool) (answers : List Answer) (o : Outcome)
    → Exact head_only o
    → Exact head_only (run head_only ranged answers o)
unfolding run Exact
run_from-Exact head_only ranged [] o x = x
run_from-Exact head_only ranged (a ∷ answers) (ended r began ok) x = x
run_from-Exact head_only ranged (a ∷ answers) (running r) x =
    run_from-Exact head_only ranged answers (round head_only ranged a r)
      (round-Exact head_only ranged a r x)

pub relay_from-Inv : (start : ℕ) → Inv (relay_from start)
unfolding BegunAt
relay_from-Inv start = record { count = omega arith; begun = inl (refl, refl); tries = omega arith }

-- For every series of answers, also short, failing and dishonest ones: the relay has sent as many
-- bytes as its position says, never past the length that it announced, which is at most 2^35; it
-- has retried at most 12 times; and it ends well only for a request of the headers or with exactly
-- the announced length sent.
pub run-Exact :
    (head_only ranged : Bool) (start : ℕ) (answers : List Answer)
    → Exact head_only (run head_only ranged answers (running (relay_from start)))
unfolding Exact
run-Exact head_only ranged start answers =
    run_from-Exact head_only ranged answers (running (relay_from start)) (relay_from-Inv start)
