-- ===== src/Base/Assoc.antt =====
-- Maps as lists of keys and values, an earlier entry before a later one of its key.
use Prim.Native.String.{String}
use mathlib.Core.Path.{◌≡◌}
use mathlib.Core.Option.{Option, none, some}
use mathlib.Core.List.{List, [], ◌∷◌}
use native.Mathlib.Omega.{arith}
use text.Mathlib.Text.{◌==◌ as str_eq}
use text.Mathlib.TextEquality.{eq_iff}
use zombiebox_gateway_core.Base.Tests.{if◌then◌else◌, if-split, Bool-cases}
use zombiebox_gateway_core.Base.Lists.{length, All}
use Prim.Native.Nat.{◌+◌, ◌≤◌}
use mathlib.Core.Logic.{inl, inr}

abbrev pub Assoc {ℓ} : Type ℓ → Type ℓ
Assoc V = List (String × V)

module _ {ℓ} {V : Type ℓ} where
  abbrev pub find : String → Assoc V → Option V
  find k [] = none
  find k ((j, v) ∷ l) = if str_eq j k then some v else find k l

  abbrev pub erase : String → Assoc V → Assoc V
  erase k [] = []
  erase k ((j, v) ∷ l) = let rest = erase k l in if str_eq j k then rest else (j, v) ∷ rest

  abbrev pub insert : String → V → Assoc V → Assoc V
  insert k v l = (k, v) ∷ erase k l

  pub find-erase :
      (k j : String) (l : Assoc V) → find j (erase k l) ≡ (if str_eq k j then none else find j l)
  find-erase k j [] = ground arith
  find-erase k j ((i, v) ∷ l) = ground (arith, find-erase k j l, eq_iff i k, eq_iff i j, eq_iff k j)

  pub find-insert :
      (k j : String) (v : V) (l : Assoc V)
      → find j (insert k v l) ≡ (if str_eq k j then some v else find j l)
  find-insert k j v l = ground (arith, find-erase k j l)

  abbrev pub or_else : V → Option V → V
  or_else d none = d
  or_else d (some v) = v

  -- A look-up with what a missing key reads as.
  abbrev pub find_or : V → String → Assoc V → V
  find_or d k l = or_else d (find k l)

  pub length-erase-le : (k : String) (l : Assoc V) → length (erase k l) ≤ length l
  length-erase-le k [] = omega arith
  length-erase-le k ((j, v) ∷ l) = ground (arith, length-erase-le k l)

  -- A key that is there takes its entry with it.
  pub length-erase-lt :
      (k : String) (v : V) (l : Assoc V) → find k l ≡ some v → length (erase k l) + 1 ≤ length l
  length-erase-lt k v [] h = absurd (ground arith)
  length-erase-lt k v ((j, w) ∷ l) h = elim (Bool-cases (str_eq j k)) [
    | inl e ↦ rw e (omega (arith, length-erase-le k l))
    | inr e ↦ rw e (omega (arith, length-erase-lt k v l (ground (arith, h, e))))
  ]

  module _ {κ} (P : V → Type κ) where
    pub All-erase : (k : String) (l : Assoc V) → All (λ e. P e.1) l → All (λ e. P e.1) (erase k l)
    All-erase k [] a = tt
    All-erase k ((j, v) ∷ l) a =
        if-split (All (λ e. P e.1)) (str_eq j k) (erase k l) ((j, v) ∷ erase k l)
          (λ e. All-erase k l a.1) (λ e. (a.0, All-erase k l a.1))

    pub All-find_or :
        (d : V) (k : String) (l : Assoc V) → P d → All (λ e. P e.1) l → P (find_or d k l)
    All-find_or d k [] pd a = pd
    All-find_or d k ((j, v) ∷ l) pd a =
        if-split (λ o. P (or_else d o)) (str_eq j k) (some v) (find k l) (λ e. a.0)
          (λ e. All-find_or d k l pd a.1)
