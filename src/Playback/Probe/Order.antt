-- ===== src/Playback/Probe/Order.antt =====
-- probe.go: the order of the list among several results of one probe.
use zombiebox_gateway_core.Base.{
  ℕ, ◌+◌, ◌<◌, ◌≡◌, refl, sym, subst, ◌∙◌, inl, inr, String, true, false, not, ◌&&◌, Option, none,
  some, List, [], ◌∷◌, arith, All, str_eq, leb, Bool-cases, if◌then◌else◌,
}
use zombiebox_gateway_core.Domain.{Probe}
use zombiebox_gateway_core.Playback.Probe.{is_future, pick_probe, select_from, select_latest_probe}

-- The first probe of the id.
pub first_of : String → List Probe → Option Probe
first_of id [] = none
first_of id (p ∷ ps) = if str_eq p.id id then some p else first_of id ps

-- A result of the id lies more than 300 s in the future.
abbrev pub IsFuture : String → ℕ → Probe → Type 0
IsFuture id now p = str_eq p.id id ≡ true → now + 300 < p.tested_at

-- One round of a plain search for the last of the latest results that are not in the future.
abbrev pub later : String → ℕ → Option Probe → Probe → Option Probe
later id now none p = if str_eq p.id id && not (is_future now p) then some p else none
later id now (some l) p =
    if str_eq p.id id && not (is_future now p) && leb l.tested_at p.tested_at
    then some p
    else some l

pub last_latest : String → ℕ → Option Probe → List Probe → Option Probe
last_latest id now best [] = best
last_latest id now best (p ∷ ps) = last_latest id now (later id now best p) ps

module _ (id : String) (now : ℕ) where
  pick-future : (l p : Probe) → IsFuture id now p → pick_probe id now (some l) p ≡ some l
  unfolding pick_probe
  pick-future l p f = elim (Bool-cases (str_eq p.id id)) [
    | inl e ↦ ground (arith, f e)
    | inr e ↦ ground arith
  ]

  select_from-future :
      (l : Probe) (ps : List Probe)
      → All (IsFuture id now) ps
      → select_from id now (some l) ps ≡ some l
  unfolding select_from
  select_from-future l [] a = refl
  select_from-future l (p ∷ ps) (f, fs) = rw (pick-future l p f) (select_from-future l ps fs)

  pick-none : (p : Probe) → pick_probe id now none p ≡ (if str_eq p.id id then some p else none)
  unfolding pick_probe
  pick-none p = ground arith

  -- When every result of the id lies more than 300 s in the future, the first one in the list is
  -- selected.
  pub select_latest_probe-first :
      (probes : List Probe)
      → All (IsFuture id now) probes
      → select_latest_probe probes id now ≡ first_of id probes
  unfolding select_latest_probe select_from first_of
  select_latest_probe-first [] a = refl
  select_latest_probe-first (p ∷ ps) (f, fs) = elim (Bool-cases (str_eq p.id id)) [
    | inl e ↦ rw (pick-none p, e) (select_from-future p ps fs)
    | inr e ↦ rw (pick-none p, e) (select_latest_probe-first ps fs)
  ]

  -- How the loop's choice and the last of the latest credible results agree.
  Agrees : Option Probe → Option Probe → Type 0
  Agrees latest (some l) = (latest ≡ some l) × (is_future now l ≡ false)
  Agrees none none = Unit {0}
  Agrees (some q) none = is_future now q ≡ true

  pick-Agrees-some :
      (l p : Probe)
      → is_future now l ≡ false
      → Agrees (pick_probe id now (some l) p) (later id now (some l) p)
  unfolding Agrees pick_probe
  pick-Agrees-some l p old = elim (Bool-cases (str_eq p.id id)) [
    | inl e ↦ elim (Bool-cases (is_future now p)) [
      | inl f ↦ rw (e, f) (refl, old)
      | inr f ↦ elim (Bool-cases (leb l.tested_at p.tested_at)) [
        | inl g ↦ rw (e, f, old, g) (refl, f)
        | inr g ↦ rw (e, f, old, g) (refl, old)
      ]
    ]
    | inr e ↦ rw e (refl, old)
  ]

  pick-Agrees :
      (latest best : Option Probe) (p : Probe)
      → Agrees latest best
      → Agrees (pick_probe id now latest p) (later id now best p)
  unfolding Agrees pick_probe
  pick-Agrees none none p a = elim (Bool-cases (str_eq p.id id)) [
    | inl e ↦ elim (Bool-cases (is_future now p)) [
      | inl f ↦ rw (e, f) f
      | inr f ↦ rw (e, f) (refl, f)
    ]
    | inr e ↦ rw e tt
  ]
  pick-Agrees (some q) none p a = elim (Bool-cases (str_eq p.id id)) [
    | inl e ↦ elim (Bool-cases (is_future now p)) [
      | inl f ↦ rw (e, f) a
      | inr f ↦ rw (e, f, a) (refl, f)
    ]
    | inr e ↦ rw e a
  ]
  pick-Agrees latest (some l) p (same_, old) =
      subst (λ q. Agrees (pick_probe id now q p) (later id now (some l) p)) (sym same_)
        (pick-Agrees-some l p old)

  select_from-Agrees :
      (latest best : Option Probe) (ps : List Probe)
      → Agrees latest best
      → Agrees (select_from id now latest ps) (last_latest id now best ps)
  unfolding select_from last_latest
  select_from-Agrees latest best [] a = a
  select_from-Agrees latest best (p ∷ ps) a =
      select_from-Agrees (pick_probe id now latest p) (later id now best p) ps
        (pick-Agrees latest best p a)

  agreed :
      (latest best : Option Probe) (l : Probe)
      → Agrees latest best
      → best ≡ some l
      → latest ≡ some l
  unfolding Agrees
  agreed latest (some b) l a e = a.0 ∙ e
  agreed latest none l a e = absurd (cc)

  -- When the list has a result of the id that is at most 300 s in the future, the selected one is
  -- the last of the latest such results: the one that no later entry of the list matches or beats.
  pub select_latest_probe-last :
      (probes : List Probe) (p : Probe)
      → last_latest id now none probes ≡ some p
      → select_latest_probe probes id now ≡ some p
  unfolding select_latest_probe Agrees
  select_latest_probe-last probes p e =
      agreed (select_from id now none probes) (last_latest id now none probes) p
        (select_from-Agrees none none probes tt) e
