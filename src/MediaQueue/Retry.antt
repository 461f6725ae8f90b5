-- ===== src/MediaQueue/Retry.antt =====
-- service.go: a `Start` that a phone sends again.
use zombiebox_gateway_core.Base.{
  ◌≡◌, refl, sym, subst, inl, inr, String, true, false, not, ◌||◌, Option, List, [], ◌∷◌, arith,
  eq_iff, Bool-cases,
}
use zombiebox_gateway_core.MediaQueue.Items.{Item, Url, validate}
use zombiebox_gateway_core.MediaQueue.Service.{Service, new_run, is_current, current_active, start}

module _ (parse : String → Option Url) (owner id : String) (items : List Item) where
  again :
      (s : Service)
      → (s.closed || not (validate parse items)) ≡ false
      → is_current owner id s.runs ≡ true
      → start parse owner id items s ≡ (s, true)
  unfolding start
  again s open_ known = rw (open_, known) refl

  current_new : is_current owner id (new_run owner id items ∷ []) ≡ true
  current_new = rw ((eq_iff owner owner).1 refl, (eq_iff id id).1 refl) refl

  refused :
      (s : Service)
      → (s.closed || not (validate parse items)) ≡ true
      → (start parse owner id items s).1 ≡ true
      → ⊥
  unfolding start
  refused s shut ok = ground arith

  occupied :
      (s : Service)
      → (s.closed || not (validate parse items)) ≡ false
      → is_current owner id s.runs ≡ false
      → current_active s.runs ≡ true
      → (start parse owner id items s).1 ≡ true
      → ⊥
  unfolding start
  occupied s open_ other active_ ok = ground arith

  begins :
      (s : Service)
      → (s.closed || not (validate parse items)) ≡ false
      → is_current owner id s.runs ≡ false
      → current_active s.runs ≡ false
      → start parse owner id items s ≡ (record s { runs = new_run owner id items ∷ s.runs }, true)
  unfolding start
  begins s open_ other free = rw (open_, other, free) refl

  -- When a start is accepted, sending the same list again is accepted too and changes nothing,
  -- whatever else the service holds.
  pub start-start :
      (s : Service)
      → (start parse owner id items s).1 ≡ true
      → start parse owner id items (start parse owner id items s).0
        ≡ ((start parse owner id items s).0, true)
  start-start s ok = elim (Bool-cases (s.closed || not (validate parse items))) [
    | inl shut ↦ absurd (refused s shut ok)
    | inr open_ ↦ elim (Bool-cases (is_current owner id s.runs)) [
      | inl known ↦
          subst (λ q. start parse owner id items q.0 ≡ (q.0, true)) (sym (again s open_ known))
            (again s open_ known)
      | inr other ↦ elim (Bool-cases (current_active s.runs)) [
        | inl active_ ↦ absurd (occupied s open_ other active_ ok)
        | inr free ↦
            subst (λ q. start parse owner id items q.0 ≡ (q.0, true))
              (sym (begins s open_ other free))
              (again (record s { runs = new_run owner id items ∷ s.runs }) open_ current_new)
      ]
    ]
  ]
