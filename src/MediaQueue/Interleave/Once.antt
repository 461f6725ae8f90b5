-- ===== src/MediaQueue/Interleave/Once.antt =====
-- service.go: repeated completions of one media, with anything between them.
use zombiebox_gateway_core.Base.{
  ℕ, zero, suc, ◌≡◌, refl, ap, ◌⊎◌, inl, inr, String, Bool, true, false, not, ◌||◌, Option, List,
  [], ◌∷◌, arith, All, if◌then◌else◌, if-split, str_eq,
}
use zombiebox_gateway_core.MediaQueue.Items.{Item, Url, validate}
use zombiebox_gateway_core.MediaQueue.Worker.{
  active, Point, at_item, in_start, in_select, in_stop, in_abort, returning, Run, Answer, draw,
  start_returns, picks_next, picks_done, go_on, work_at, work,
}
use zombiebox_gateway_core.MediaQueue.Service.{
  Service, empty, new_run, start, stop_run, advance_run, complete_run, complete, cancel_run, cancel,
  close, on_current, is_current, current_active,
}
use zombiebox_gateway_core.MediaQueue.Invariant.{RunInv}
use zombiebox_gateway_core.MediaQueue.Interleave.{
  Event, starts, completes, cancels, closes_service, works, expires, at_run, expire_run, happen,
  after, ServiceInv, work-Inactive, happen-ServiceInv, after-ServiceInv,
}

-- The answer draws no id that is this media's.
abbrev pub AnswerApart : String → Answer → Type 0
AnswerApart media (draw m) = str_eq m media ≡ false
AnswerApart media _ = Unit

abbrev pub Apart : String → Event → Type 0
Apart media (works n a) = AnswerApart media a
Apart media _ = Unit

module _ (owner media : String) where
  -- A run that a completion of the media by the owner no longer moves.
  Spent : Run → Type 0
  Spent r =
      (str_eq r.owner owner ≡ false) ⊎ (str_eq r.media_id media ≡ false) ⊎ (active r.phase ≡ false)

  SpentAt : List Run → Type 0
  unfolding Spent
  SpentAt [] = Unit
  SpentAt (r ∷ rs) = Spent r

  complete_run_same : (advance : Bool) (r : Run) → Spent r → complete_run owner media advance r ≡ r
  unfolding Spent complete_run
  complete_run_same advance r h = ground (arith, h)

  complete_same :
      (advance : Bool) (s : Service) → SpentAt s.runs → complete owner media advance s ≡ s
  unfolding SpentAt complete
  complete_same advance s h = go s.runs h
    where
      go :
          (rs : List Run)
          → SpentAt rs
          → record s { runs = on_current (complete_run owner media advance) rs }
            ≡ record s { runs = rs }
      go [] h = refl
      go (r ∷ rs) h = ap (λ q. record s { runs = q ∷ rs }) (complete_run_same advance r h)

  complete_run-Spent :
      (advance : Bool) (r : Run)
      → str_eq "" media ≡ false
      → Spent (complete_run owner media advance r)
  unfolding Spent complete_run active
  complete_run-Spent advance r named =
      if-split Spent
        (not (str_eq r.owner owner) || not (str_eq r.media_id media) || not (active r.phase)) r
        (if not advance then stop_run r else advance_run r) (λ h. ground (arith, h))
        (λ h.
          if-split Spent (not advance) (stop_run r) (advance_run r) (λ a. inr (inr refl))
            (λ a. inr (inl named)))

  complete-SpentAt :
      (advance : Bool) (s : Service)
      → str_eq "" media ≡ false
      → SpentAt (complete owner media advance s).runs
  unfolding SpentAt complete
  complete-SpentAt advance s named = go s.runs
    where
      go : (rs : List Run) → SpentAt (on_current (complete_run owner media advance) rs)
      go [] = tt
      go (r ∷ rs) = complete_run-Spent advance r named

  Named : Run → Type 0
  Named r = (str_eq r.owner owner ≡ false) ⊎ (str_eq r.media_id media ≡ false)

  work_at-Named :
      (p : Point) (a : Answer) (r : Run) → AnswerApart media a → Named r → Named (work_at p a r)
  unfolding Named work_at active
  work_at-Named (at_item i (item ∷ rest)) (draw m) r e h = ground (arith, h)
  work_at-Named (at_item i []) go_on r e h = ground (arith, h)
  work_at-Named (in_start m rest) (start_returns ok) r e h = ground (arith, h)
  work_at-Named (in_select m rest) picks_next r e h = ground (arith, h)
  work_at-Named (in_select m rest) picks_done r e h = ground (arith, h)
  work_at-Named (in_stop m rest advance) go_on r e h = ground (arith, h)
  work_at-Named (in_abort m) go_on r e h = h
  work_at-Named returning go_on r e h = ground (arith, h)
  work_at-Named _ _ r e h = h

  work-Spent : (a : Answer) (r : Run) → RunInv r → AnswerApart media a → Spent r → Spent (work a r)
  unfolding Spent Named work
  work-Spent a r v e (inl o) = elim (work_at-Named r.point a r e (inl o)) [
    | inl x ↦ inl x
    | inr x ↦ inr (inl x)
  ]
  work-Spent a r v e (inr (inl o)) = elim (work_at-Named r.point a r e (inr o)) [
    | inl x ↦ inl x
    | inr x ↦ inr (inl x)
  ]
  work-Spent a r v e (inr (inr i)) = inr (inr (work-Inactive a r v i))

  at_run-SpentAt :
      (f : Run → Run) (n : ℕ) (rs : List Run)
      → ((r : Run) → RunInv r → Spent r → Spent (f r))
      → All RunInv rs
      → SpentAt rs
      → SpentAt (at_run n f rs)
  unfolding SpentAt
  at_run-SpentAt f n [] keeps v h = tt
  at_run-SpentAt f zero (r ∷ rs) keeps v h = keeps r v.0 h
  at_run-SpentAt f (suc n) (r ∷ rs) keeps v h = h

  on_current-SpentAt :
      (f : Run → Run) (rs : List Run)
      → ((r : Run) → Spent r → Spent (f r))
      → SpentAt rs
      → SpentAt (on_current f rs)
  unfolding SpentAt
  on_current-SpentAt f [] keeps h = tt
  on_current-SpentAt f (r ∷ rs) keeps h = keeps r h

  others-Spent :
      (who what : String) (advance : Bool) (r : Run)
      → str_eq "" media ≡ false
      → Spent r
      → Spent (complete_run who what advance r)
  unfolding Spent complete_run active
  others-Spent who what advance r named h = ground (arith, h, named)

  cancel_run-Spent : (who : String) (r : Run) → Spent r → Spent (cancel_run who r)
  unfolding Spent cancel_run active
  cancel_run-Spent who r h = ground (arith, h)

  stop_run-Spent : (r : Run) → Spent r → Spent (stop_run r)
  unfolding Spent active
  stop_run-Spent r h = inr (inr refl)

  expire_run-Spent : (r : Run) → Spent r → Spent (expire_run r)
  unfolding Spent
  expire_run-Spent r h = h

  module _ (parse : String → Option Url) where
    start-SpentAt :
        (who id : String) (items : List Item) (s : Service)
        → str_eq "" media ≡ false
        → SpentAt s.runs
        → SpentAt (start parse who id items s).0.runs
    unfolding SpentAt Spent start
    start-SpentAt who id items s named h =
        let P : Service × Bool → Type 0 = λ p. SpentAt p.0.runs in
        let fresh : Service = record s { runs = new_run who id items ∷ s.runs } in
        let idle : Service × Bool = if current_active s.runs then (s, false) else (fresh, true) in
        let known : Service × Bool = if is_current who id s.runs then (s, true) else idle in
        if-split P (s.closed || not (validate parse items)) (s, false) known (λ c. h)
          λ c.
            if-split P (is_current who id s.runs) (s, true) idle (λ c. h)
              λ c.
                if-split P (current_active s.runs) (s, false) (fresh, true) (λ c. h)
                  (λ c. inr (inl named))

    happen-SpentAt :
        (s : Service) (e : Event)
        → str_eq "" media ≡ false
        → Apart media e
        → ServiceInv s
        → SpentAt s.runs
        → SpentAt (happen parse s e).runs
    unfolding happen complete cancel close
    happen-SpentAt s (starts who id items) named e v h = start-SpentAt who id items s named h
    happen-SpentAt s (completes who what advance) named e v h =
        on_current-SpentAt (complete_run who what advance) s.runs
          (λ r. others-Spent who what advance r named) h
    happen-SpentAt s (cancels who) named e v h =
        on_current-SpentAt (cancel_run who) s.runs (cancel_run-Spent who) h
    happen-SpentAt s closes_service named e v h =
        on_current-SpentAt stop_run s.runs stop_run-Spent h
    happen-SpentAt s (works n a) named e v h =
        at_run-SpentAt (work a) n s.runs (λ r i. work-Spent a r i e) v.sound h
    happen-SpentAt s (expires n) named e v h =
        at_run-SpentAt expire_run n s.runs (λ r i. expire_run-Spent r) v.sound h

    after_from-SpentAt :
        (s : Service) (es : List Event)
        → str_eq "" media ≡ false
        → All (Apart media) es
        → ServiceInv s
        → SpentAt s.runs
        → SpentAt (after parse s es).runs
    unfolding after
    after_from-SpentAt s [] named a v h = h
    after_from-SpentAt s (e ∷ es) named a v h =
        after_from-SpentAt (happen parse s e) es named a.1 (happen-ServiceInv parse s e v)
          (happen-SpentAt s e named a.0 v h)

-- A completion of a media that has an id counts at most once. Let anything happen from the empty
-- service, let a phone complete the media, advancing or not, and let anything happen then, the
-- goroutine going on to later items included, but that the same id is drawn again: a further
-- completion of that media by the same phone, advancing or not, changes nothing.
pub complete-once :
    (parse : String → Option Url) (owner media : String) (advance again : Bool)
    (before later : List Event)
    → str_eq "" media ≡ false
    → All (Apart media) later
    → complete owner media again
        (after parse (complete owner media advance (after parse empty before)) later)
      ≡ after parse (complete owner media advance (after parse empty before)) later
unfolding happen
complete-once parse owner media advance again before later named apart =
    let s = after parse empty before in
    let t = complete owner media advance s in
    let v =
      happen-ServiceInv parse s (completes owner media advance) (after-ServiceInv parse before) in
    complete_same owner media again (after parse t later) (
      after_from-SpentAt owner media parse t later named apart v
        (complete-SpentAt owner media advance s named))
