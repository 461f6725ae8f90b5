-- ===== src/Hardware/Displays.antt =====
-- hardware.go: the displays of a report that is kept.
use zombiebox_gateway_core.Base.{
  ℕ, ◌+◌, ◌≤◌, ◌≡◌, ◌⊎◌, inl, inr, Bool, true, false, ◌&&◌, List, [], ◌∷◌, arith, length, all, any,
  all-All, All, if◌then◌else◌, Bool-cases, ◌==◌,
}
use zombiebox_gateway_core.Base.Integers.{ℤ, pos, at_most, int_eq}
use zombiebox_gateway_core.Hardware.{
  DisplayModeHint, DisplayHint, HardwareReport, valid_display_size, fills, modes_from,
  valid_display, displays_from, CodecHint, valid_codec, valid_displays, valid_hardware,
}

module _ {ℓ} {A : Type ℓ} (id : A → ℤ) where
  -- No two elements have the same id.
  pub Distinct : List A → Type 0
  Distinct [] = Unit
  Distinct (x ∷ xs) = All (λ y. int_eq (id y) (id x) ≡ false) xs × Distinct xs

  -- None of the ids was seen before.
  abbrev Unseen : List ℤ → List A → Type 0
  Unseen seen xs = All (λ y. any (int_eq (id y)) seen ≡ false) xs

  -- What is not among the seen ids and one more is apart from that one, and still unseen.
  Unseen-apart :
      (k : ℤ) (seen : List ℤ) (xs : List A)
      → Unseen (k ∷ seen) xs
      → All (λ y. int_eq (id y) k ≡ false) xs
  Unseen-apart k seen [] u = tt
  Unseen-apart k seen (x ∷ xs) u = (ground (arith, u.0), Unseen-apart k seen xs u.1)

  Unseen-rest : (k : ℤ) (seen : List ℤ) (xs : List A) → Unseen (k ∷ seen) xs → Unseen seen xs
  Unseen-rest k seen [] u = tt
  Unseen-rest k seen (x ∷ xs) u = (ground (arith, u.0), Unseen-rest k seen xs u.1)

pub defaults : List DisplayHint → ℕ
defaults [] = 0
defaults (d ∷ ds) = (if d.is_default then 1 else 0) + defaults ds

abbrev pub mode_id : DisplayModeHint → ℤ
mode_id m = m.id

abbrev pub display_id : DisplayHint → ℤ
display_id d = d.id

pub record ModeSound (m : DisplayModeHint) : Type 0 where
  pub positive : at_most m.id 0 ≡ false
  pub size : valid_display_size m.width m.height m.refresh ≡ true

-- The active mode of a display is a listed one of the display's own size and rate.
abbrev pub has_active : DisplayHint → List DisplayModeHint → Bool
has_active d ms = any (λ m. int_eq m.id d.active_mode && fills d m) ms

record ModesSound (d : DisplayHint) (seen : List ℤ) (active : Bool) (ms : List DisplayModeHint)
    : Type 0 where
  each : All ModeSound ms
  distinct : Distinct mode_id ms
  unseen : Unseen mode_id seen ms
  known : (active ≡ true) ⊎ (has_active d ms ≡ true)

modes_from-Sound :
    (d : DisplayHint) (seen : List ℤ) (active : Bool) (ms : List DisplayModeHint)
    → modes_from d seen active ms ≡ true
    → ModesSound d seen active ms
unfolding modes_from Distinct
modes_from-Sound d seen active [] h = record {
  each = tt;
  distinct = tt;
  unseen = tt;
  known = inl h;
}
modes_from-Sound d seen active (m ∷ ms) h =
    let next = if int_eq m.id d.active_mode then fills d m else active in
    let v = modes_from-Sound d (m.id ∷ seen) next ms (ground (arith, h)) in
    let here : next ≡ true → (active ≡ true) ⊎ (has_active d (m ∷ ms) ≡ true) = λ n.
      elim (Bool-cases (int_eq m.id d.active_mode)) [
        | inl e ↦ inr (ground (arith, e, n))
        | inr e ↦ inl (ground (arith, e, n))
      ] in
    record {
      each = (record { positive = ground (arith, h); size = ground (arith, h) }, v.each);
      distinct = (Unseen-apart mode_id m.id seen ms v.unseen, v.distinct);
      unseen = (ground (arith, h), Unseen-rest mode_id m.id seen ms v.unseen);
      known = elim v.known [ inl n ↦ here n | inr n ↦ inr (ground (arith, n)) ];
    }

-- A display has valid numbers and at most 16 modes, all valid and with different ids, and its
-- active mode is 0 or a listed one of its own size and rate.
pub record DisplaySound (d : DisplayHint) : Type 0 where
  pub numbers : valid_display d ≡ true
  pub modes : All ModeSound d.modes
  pub distinct : Distinct mode_id d.modes
  pub active : (int_eq d.active_mode (pos 0) ≡ true) ⊎ (has_active d d.modes ≡ true)

record DisplaysFrom (seen : List ℤ) (count : ℕ) (ds : List DisplayHint) : Type 0 where
  each : All DisplaySound ds
  distinct : Distinct display_id ds
  unseen : Unseen display_id seen ds
  one_default : count + defaults ds ≤ 1

displays_from-Sound :
    (seen : List ℤ) (count : ℕ) (ds : List DisplayHint)
    → count ≤ 1
    → displays_from seen count ds ≡ true
    → DisplaysFrom seen count ds
unfolding displays_from Distinct defaults
displays_from-Sound seen count [] few h = record {
  each = tt;
  distinct = tt;
  unseen = tt;
  one_default = omega (arith, few);
}
displays_from-Sound seen count (d ∷ ds) few h =
    let next = count + (if d.is_default then 1 else 0) in
    let v = displays_from-Sound (d.id ∷ seen) next ds (ground (arith, h)) (ground (arith, h)) in
    let m = modes_from-Sound d [] (int_eq d.active_mode (pos 0)) d.modes (ground (arith, h)) in
    record {
      each = (
        record {
          numbers = ground (arith, h);
          modes = m.each;
          distinct = m.distinct;
          active = m.known;
        },
        v.each,
      );
      distinct = (Unseen-apart display_id d.id seen ds v.unseen, v.distinct);
      unseen = (ground (arith, h), Unseen-rest display_id d.id seen ds v.unseen);
      one_default = omega (arith, v.one_default);
    }

-- A report that is kept.
pub record HardwareSound (r : HardwareReport) : Type 0 where
  pub few : length r.displays ≤ 8
  pub displays : All DisplaySound r.displays
  pub distinct : Distinct display_id r.displays
  pub one_default : defaults r.displays ≤ 1
  pub encoders : All (λ c. length c.probe_candidates ≡ 0) r.encoders

no_candidates-All :
    (cs : List CodecHint)
    → all (λ c. length c.probe_candidates == 0 && valid_codec c) cs ≡ true
    → All (λ c. length c.probe_candidates ≡ 0) cs
no_candidates-All cs h =
    all-All (λ c. length c.probe_candidates == 0 && valid_codec c) cs (λ c e. ground (arith, e)) h

-- A hardware report is kept only if it has at most eight displays with different ids, of which at
-- most one is the default; each has positive sides and modes with positive, different ids, and an
-- active mode that is 0 or a listed one of exactly the display's own size and rate; and no encoder
-- proposes a probe.
pub valid_hardware-Sound : (r : HardwareReport) → valid_hardware r ≡ true → HardwareSound r
unfolding valid_hardware valid_displays
valid_hardware-Sound r h =
    let v = displays_from-Sound [] 0 r.displays (omega arith) (ground (arith, h)) in
    record {
      few = ground (arith, h);
      displays = v.each;
      distinct = v.distinct;
      one_default = omega (arith, v.one_default);
      encoders = no_candidates-All r.encoders (ground (arith, h));
    }
