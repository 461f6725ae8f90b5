-- ===== src/Companion/Remote/Delivery/Counts.antt =====
-- remote.go: how often a command stands in the queues.
use zombiebox_gateway_core.Base.{
  ℕ, ◌+◌, ◌≤◌, ◌≡◌, refl, sym, subst, inl, inr, String, Bool, true, Option, some, List, [], ◌∷◌,
  ◌++◌, arith, length, keep, if◌then◌else◌, if-split, Bool-cases, str_eq, ◌==◌,
}
use zombiebox_gateway_core.Base.Assoc.{Assoc, find, or_else, find_or, erase}
use zombiebox_gateway_core.Companion.Model.{Command, Service}
use zombiebox_gateway_core.Companion.Remote.{polled, seen}
use zombiebox_gateway_core.Companion.Expiry.{is_fresh, fresh_queues, expire}

-- How often an id stands in a list, in a queue, and in all queues.
unfoldable pub times : String → List String → ℕ
times x [] = 0
times x (y ∷ l) = (if str_eq y x then 1 else 0) + times x l

unfoldable pub waits : String → List Command → ℕ
waits x [] = 0
waits x (c ∷ cs) = (if str_eq c.id x then 1 else 0) + waits x cs

unfoldable pub waiting : String → Assoc (List Command) → ℕ
unfolding waits
waiting x [] = 0
waiting x ((t, cs) ∷ l) = waits x cs + waiting x l

module _ (x : String) where
  pub times-append : (xs ys : List String) → times x (xs ++ ys) ≡ times x xs + times x ys
  unfolding times
  times-append [] ys = omega arith
  times-append (y ∷ l) ys = omega (arith, times-append l ys)

  pub waits-append : (cs ds : List Command) → waits x (cs ++ ds) ≡ waits x cs + waits x ds
  unfolding waits
  waits-append [] ds = omega arith
  waits-append (c ∷ cs) ds = omega (arith, waits-append cs ds)

  pub waits-keep : (p : Command → Bool) (cs : List Command) → waits x (keep p cs) ≤ waits x cs
  unfolding waits
  waits-keep p [] = omega arith
  waits-keep p (c ∷ cs) =
      if-split (λ l. waits x l ≤ waits x (c ∷ cs)) (p c) (c ∷ keep p cs) (keep p cs)
        (λ e. omega (arith, waits-keep p cs)) (λ e. omega (arith, waits-keep p cs))

  waits-empty : (cs : List Command) → (length cs == 0) ≡ true → waits x cs ≡ 0
  unfolding waits
  waits-empty [] h = refl
  waits-empty (c ∷ cs) h = absurd (ground (arith, h))

  waiting-fresh :
      (now : ℕ) (l : Assoc (List Command)) → waiting x (fresh_queues now l) ≤ waiting x l
  unfolding waiting fresh_queues
  waiting-fresh now [] = omega arith
  waiting-fresh now ((t, cs) ∷ l) =
      let pending = keep (is_fresh now) cs in
      if-split (λ q. waiting x q ≤ waits x cs + waiting x l) (length pending == 0)
        (fresh_queues now l) ((t, pending) ∷ fresh_queues now l)
        (λ e. omega (arith, waiting-fresh now l))
        (λ e. omega (arith, waiting-fresh now l, waits-keep (is_fresh now) cs))

  waiting-erase : (k : String) (l : Assoc (List Command)) → waiting x (erase k l) ≤ waiting x l
  unfolding waiting
  waiting-erase k [] = omega arith
  waiting-erase k ((j, cs) ∷ l) =
      if-split (λ q. waiting x q ≤ waits x cs + waiting x l) (str_eq j k) (erase k l)
        ((j, cs) ∷ erase k l) (λ e. omega (arith, waiting-erase k l))
        (λ e. omega (arith, waiting-erase k l))

  -- A queue and the others make up all of them.
  pub waiting-split :
      (k : String) (l : Assoc (List Command))
      → waiting x (erase k l) + waits x (find_or [] k l) ≤ waiting x l
  unfolding waiting
  waiting-split k [] = omega arith
  waiting-split k ((j, cs) ∷ l) =
      let Fits : Bool → Type 0 = λ b.
        waiting x (if b then erase k l else (j, cs) ∷ erase k l)
          + waits x (or_else [] (if b then some cs else find k l))
        ≤ waits x cs + waiting x l in
      elim (Bool-cases (str_eq j k)) [
        | inl e ↦ subst Fits (sym e) (omega (arith, waiting-erase k l))
        | inr e ↦ subst Fits (sym e) (omega (arith, waiting-split k l))
      ]

  pub waiting-expire :
      (now : ℕ) (s : Service) → waiting x (expire now s).queues ≤ waiting x s.queues
  unfolding expire
  waiting-expire now s = waiting-fresh now s.queues

  pub waiting-polled :
      (now : ℕ) (target : String) (active : Bool) (input : Option String) (s : Service)
      → waiting x (polled now target active input s).queues ≤ waiting x s.queues
  unfolding polled seen expire
  waiting-polled now target active input s = waiting-fresh now s.queues
