-- ===== src/MediaQueue/Invariant.antt =====
-- What holds of a run between any two steps, whoever makes them.
use zombiebox_gateway_core.Base.{
  ℕ, suc, ◌+◌, ◌≤◌, ◌≡◌, refl, sym, subst, ◌⊎◌, inl, inr, String, Bool, true, false, not, ◌||◌,
  Option, none, some, List, [], ◌∷◌, length, arith, str_eq, if◌then◌else◌, if-split,
}
use zombiebox_gateway_core.MediaQueue.Items.{Item}
use zombiebox_gateway_core.MediaQueue.Worker.{
  active, Call, started, ended, Point, at_item, in_start, in_select, in_stop, in_abort, returning,
  done, Run, Answer, draw, start_returns, picks_next, picks_done, go_on, work_at, work,
}
use zombiebox_gateway_core.MediaQueue.Service.{
  new_run, stop_run, advance_run, complete_run, cancel_run,
}

-- The calls alternate: each media that is started is stopped before the next one is started. The
-- index is the media that is still to be stopped.
pub data Alternates : List Call → Option String → Type 0 where
  silent : Alternates [] none
  opens : {l : List Call} (m : String) → Alternates l none → Alternates (started m ∷ l) (some m)
  closes : {l : List Call} (m : String) → Alternates l (some m) → Alternates (ended m ∷ l) none

-- The media that the goroutine has still to stop.
abbrev pub open_media : Point → Option String
open_media (in_start m rest) = some m
open_media (in_select m rest) = some m
open_media (in_stop m rest advance) = some m
open_media (in_abort m) = some m
open_media _ = none

-- Where nothing can make the run active again.
abbrev pub ending : Point → Bool
ending (in_abort m) = true
ending returning = true
ending done = true
ending _ = false

-- The index counts the items that are behind, and the rest are those ahead.
abbrev pub Placed : Point → ℕ → ℕ → Type 0
Placed (at_item i rest) index count = (i + length rest ≡ count) × (index ≤ i)
Placed (in_start m rest) index count = suc index + length rest ≡ count
Placed (in_select m rest) index count = suc index + length rest ≡ count
Placed (in_stop m rest advance) index count = suc index + length rest ≡ count
Placed _ index count = index ≤ count

pub record RunInvAt (p : Point) (r : Run) : Type 0 where
  pub logged : Alternates r.log (open_media p)
  pub quiet : active r.phase ≡ false → (r.cancelled ≡ true) ⊎ (ending p ≡ true)
  pub placed : Placed p r.index r.count
  pub settled : p ≡ done → active r.phase ≡ false

abbrev pub RunInv : Run → Type 0
RunInv r = RunInvAt r.point r

moved : {p : Point} {r : Run} → r.point ≡ p → RunInvAt p r → RunInv r
moved {r} e v = subst (λ q. RunInvAt q r) (sym e) v

work_at-RunInv :
    (p : Point) (a : Answer) (r : Run) → r.point ≡ p → RunInvAt p r → RunInv (work_at p a r)
unfolding work_at active
work_at-RunInv (at_item i (item ∷ rest)) (draw media) r e v =
    if-split RunInv r.cancelled _ _
      (λ c. record {
        logged = v.logged;
        quiet = λ q. inr refl;
        placed = omega arith;
        settled = λ d. cc;
      })
      (λ c. record {
        logged = opens media v.logged;
        quiet = λ q. cc;
        placed = omega arith;
        settled = λ d. cc;
      })
work_at-RunInv (at_item i []) go_on r e v =
    if-split RunInv r.cancelled _ _
      (λ c. record {
        logged = v.logged;
        quiet = λ q. inr refl;
        placed = omega arith;
        settled = λ d. cc;
      })
      (λ c. record {
        logged = v.logged;
        quiet = λ q. inr refl;
        placed = omega arith;
        settled = λ d. cc;
      })
work_at-RunInv (in_start media rest) (start_returns ok) r e v =
    if-split RunInv r.cancelled _ _
      (λ c. record {
        logged = v.logged;
        quiet = λ q. inr refl;
        placed = omega arith;
        settled = λ d. cc;
      })
      (λ c.
        if-split RunInv ok _ _
          (λ o. record { logged = v.logged; quiet = λ q. cc; placed = v.placed; settled = λ d. cc })
          (λ o. record {
            logged = v.logged;
            quiet = λ q. inr refl;
            placed = omega arith;
            settled = λ d. cc;
          }))
work_at-RunInv (in_select media rest) picks_next r e v =
    if-split RunInv r.next _ _
      (λ n. record { logged = v.logged; quiet = v.quiet; placed = v.placed; settled = λ d. cc })
      (λ n. moved e v)
work_at-RunInv (in_select media rest) picks_done r e v =
    if-split RunInv r.cancelled _ _
      (λ n. record { logged = v.logged; quiet = v.quiet; placed = v.placed; settled = λ d. cc })
      (λ n. moved e v)
work_at-RunInv (in_stop media rest advance) go_on r e v =
    if-split RunInv (not advance || r.cancelled) _ _
      (λ c. record {
        logged = closes media v.logged;
        quiet = λ q. inr refl;
        placed = omega arith;
        settled = λ d. cc;
      })
      (λ c. record {
        logged = closes media v.logged;
        quiet = λ q. ground (arith, v.quiet);
        placed = omega arith;
        settled = λ d. cc;
      })
work_at-RunInv (in_abort media) go_on r e v = record {
  logged = closes media v.logged;
  quiet = λ q. inr refl;
  placed = v.placed;
  settled = λ d. cc;
}
work_at-RunInv returning go_on r e v =
    if-split RunInv (active r.phase) _ _
      (λ a. record {
        logged = v.logged;
        quiet = λ q. inl refl;
        placed = v.placed;
        settled = λ d. refl;
      })
      (λ a. record {
        logged = v.logged;
        quiet = λ q. inl refl;
        placed = v.placed;
        settled = λ d. a;
      })
work_at-RunInv _ _ r e v = moved e v

pub work-RunInv : (a : Answer) (r : Run) → RunInv r → RunInv (work a r)
unfolding work
work-RunInv a r v = work_at-RunInv r.point a r refl v

pub new_run-RunInv : (owner id : String) (items : List Item) → RunInv (new_run owner id items)
unfolding active
new_run-RunInv owner id items = record {
  logged = silent;
  quiet = λ q. cc;
  placed = omega arith;
  settled = λ d. cc;
}

-- Stopping a run keeps its place.
pub stop_run-RunInv : (r : Run) → RunInv r → RunInv (stop_run r)
unfolding active
stop_run-RunInv r v = record {
  logged = v.logged;
  quiet = λ q. inl refl;
  placed = v.placed;
  settled = λ d. refl;
}

pub cancel_run-RunInv : (owner : String) (r : Run) → RunInv r → RunInv (cancel_run owner r)
unfolding cancel_run
cancel_run-RunInv owner r v = if-split RunInv _ _ _ (λ c. stop_run-RunInv r v) (λ c. v)

pub complete_run-RunInv :
    (owner media : String) (advance : Bool) (r : Run)
    → RunInv r
    → RunInv (complete_run owner media advance r)
unfolding complete_run
complete_run-RunInv owner media advance r v =
    if-split RunInv
      (not (str_eq r.owner owner) || not (str_eq r.media_id media) || not (active r.phase)) r
      (if not advance then stop_run r else advance_run r) (λ c. v)
      (λ c.
        if-split RunInv (not advance) (stop_run r) (advance_run r) (λ a. stop_run-RunInv r v)
          (λ a. record {
            logged = v.logged;
            quiet = v.quiet;
            placed = v.placed;
            settled = v.settled;
          }))
