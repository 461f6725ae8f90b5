-- ===== src/Playback/Qualities/Selection.antt =====
-- qualities.go: the selected option of an inventory, and `HasQuality`.
use zombiebox_gateway_core.Base.{
  ℕ, ◌≡◌, refl, sym, subst, ◌∙◌, ◌⊎◌, inl, inr, String, Bool, true, false, not, ◌&&◌, List, [], ◌∷◌,
  arith, any, str_eq, eq_iff, Bool-cases,
}
use zombiebox_gateway_core.Domain.{Metadata, Source, Device, QualityOption, QualityInventory}
use zombiebox_gateway_core.Playback.Runtime.{Runtime}
use zombiebox_gateway_core.Playback.Qualities.Options.{
  auto_option, auto_inventory, inventory_of, select_option, normalize_quality, qualities,
  has_quality,
}
use zombiebox_gateway_core.Playback.Qualities.Sound.{guarded}

-- What the selection of an inventory promises about the current quality.
pub record SelectedSound (q : QualityInventory) (current : String) : Type 0 where
  -- The selected quality is one of the options.
  pub listed : any (λ (o : QualityOption). str_eq o.id q.selected_id) q.options ≡ true
  -- A current quality that is an option stays selected, under its modern name.
  pub kept :
      (has_quality q current ≡ false)
      ⊎ (str_eq (normalize_quality current) "" ≡ true)
      ⊎ (q.selected_id ≡ normalize_quality current)
  -- Any other falls back to Auto.
  pub reset : (has_quality q current ≡ true) ⊎ (q.selected_id ≡ "auto")

SelectedSound-of :
    (q : QualityInventory) (current : String)
    → any (λ (o : QualityOption). str_eq o.id q.selected_id) q.options ≡ true
    → (has_quality q current ≡ true
        → str_eq (normalize_quality current) "" ≡ false
        → q.selected_id ≡ normalize_quality current)
    → (has_quality q current ≡ false → q.selected_id ≡ "auto")
    → SelectedSound q current
SelectedSound-of q current listed keeps resets = record {
  listed = listed;
  kept = elim (Bool-cases (has_quality q current)) [
    | inr e ↦ inl e
    | inl e ↦ elim (Bool-cases (str_eq (normalize_quality current) "")) [
      | inl n ↦ inr (inl n)
      | inr n ↦ inr (inr (keeps e n))
    ]
  ];
  reset = elim (Bool-cases (has_quality q current)) [ inl e ↦ inl e | inr e ↦ inr (resets e) ];
}

normalize-auto :
    (current : String) → str_eq current "auto" ≡ true → normalize_quality current ≡ "auto"
unfolding normalize_quality
normalize-auto current h =
    subst (λ c. normalize_quality c ≡ "auto") (sym ((eq_iff current "auto").0 h)) refl

abbrev lists : List QualityOption → String → Bool
lists os id = any (λ (o : QualityOption). str_eq o.id id) os

select_option-cases :
    (os : List QualityOption) (norm : String)
    → ((select_option os norm ≡ norm) × (lists os norm ≡ true))
      ⊎ ((select_option os norm ≡ "auto")
          × ((str_eq norm "" ≡ true) ⊎ (str_eq norm "auto" ≡ true) ⊎ (lists os norm ≡ false)))
select_option-cases os norm =
    elim (Bool-cases (not (str_eq norm "") && not (str_eq norm "auto") && lists os norm)) [
      | inl t ↦ inl (rw t, ground arith)
      | inr t ↦ inr (rw t, ground arith)
    ]

module _ (os : List QualityOption) (current : String) where
  abbrev all_options : List QualityOption
  all_options = auto_option ∷ os

  abbrev chosen : QualityInventory
  chosen = record {
    selected_id = select_option all_options (normalize_quality current);
    options = all_options;
  }

  kept_auto :
      has_quality chosen current ≡ true
      → str_eq (normalize_quality current) "" ≡ false
      → (str_eq (normalize_quality current) "" ≡ true)
        ⊎ (str_eq (normalize_quality current) "auto" ≡ true)
        ⊎ (lists all_options (normalize_quality current) ≡ false)
      → normalize_quality current ≡ "auto"
  unfolding has_quality
  kept_auto h n (inl e) = cc
  kept_auto h n (inr (inl a)) = (eq_iff _ "auto").0 a
  kept_auto h n (inr (inr l)) = normalize-auto current (ground arith)

  chosen-SelectedSound : SelectedSound chosen current
  unfolding has_quality
  chosen-SelectedSound = elim (select_option-cases all_options (normalize_quality current)) [
    | inl (e, l) ↦
        SelectedSound-of chosen current (subst (λ id. lists all_options id ≡ true) (sym e) l)
          (λ h n. e) (λ h. absurd (ground arith))
    | inr (e, c) ↦
        SelectedSound-of chosen current (subst (λ id. lists all_options id ≡ true) (sym e) refl)
          (λ h n. e ∙ sym (kept_auto h n c)) (λ h. e)
  ]

auto-SelectedSound : (current : String) → SelectedSound auto_inventory current
unfolding has_quality
auto-SelectedSound current =
    SelectedSound-of auto_inventory current refl
      (λ h n. elim (Bool-cases (str_eq current "auto")) [
        | inl a ↦ sym (normalize-auto current a)
        | inr a ↦ (eq_iff "auto" (normalize_quality current)).0 (ground arith)
      ])
      (λ h. refl)

inventory-SelectedSound :
    (os : List QualityOption) (current : String)
    → SelectedSound (inventory_of os (normalize_quality current)) current
inventory-SelectedSound [] current = auto-SelectedSound current
inventory-SelectedSound (o ∷ os) current = chosen-SelectedSound (o ∷ os) current

-- For every source and device, the selected quality of the inventory is one of its options. A
-- current quality that `HasQuality` accepts, and that is not empty, stays selected under its modern
-- name; one that it does not accept resets the selection to Auto.
pub qualities-SelectedSound :
    ⦃rt : Runtime⦄ (m : Metadata) (s : Source) (d : Device) (now : ℕ) (current : String)
    → SelectedSound (qualities m s d now current) current
unfolding qualities
qualities-SelectedSound m s d now current =
    guarded (λ q. SelectedSound q current) m s _ (auto-SelectedSound current)
      (inventory-SelectedSound _ current)
