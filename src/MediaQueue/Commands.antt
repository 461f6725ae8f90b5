-- ===== src/MediaQueue/Commands.antt =====
-- service.go: the goroutine of a cancelled run.
use zombiebox_gateway_core.Base.{ℕ, zero, suc, ◌≡◌, refl, ap, ◌∙◌, true, false, [], ◌∷◌, arith}
use zombiebox_gateway_core.MediaQueue.Worker.{
  active, Point, at_item, in_start, in_select, in_stop, in_abort, returning, done, Run, Answer,
  draw, start_returns, picks_done, go_on, work_at, work,
}

-- What the goroutine of a cancelled run is told, wherever it stands.
answer_for : Point → Answer
answer_for (at_item i []) = go_on
answer_for (at_item i (item ∷ rest)) = draw ""
answer_for (in_start m rest) = start_returns true
answer_for (in_select m rest) = picks_done
answer_for _ = go_on

pub drain : ℕ → Run → Run
unfolding answer_for
drain zero r = r
drain (suc n) r = drain n (work (answer_for r.point) r)

-- The places that the goroutine of a cancelled run passes.
place_after : Point → Point
place_after (at_item i rest) = returning
place_after (in_start m rest) = in_abort m
place_after (in_select m rest) = in_stop m rest false
place_after (in_stop m rest advance) = returning
place_after (in_abort m) = returning
place_after returning = done
place_after done = done

Moves : Point → Run → Type 0
Moves p r = (r.point ≡ place_after p) × (r.cancelled ≡ true)

work_at-Moves :
    (p : Point) (r : Run) → r.point ≡ p → r.cancelled ≡ true → Moves p (work_at p (answer_for p) r)
unfolding Moves place_after work_at answer_for active
work_at-Moves (at_item i []) r e c = ground arith
work_at-Moves (at_item i (item ∷ rest)) r e c = ground arith
work_at-Moves (in_start m rest) r e c = ground arith
work_at-Moves (in_select m rest) r e c = ground arith
work_at-Moves (in_stop m rest true) r e c = ground arith
work_at-Moves (in_stop m rest false) r e c = ground arith
work_at-Moves (in_abort m) r e c = ground arith
work_at-Moves returning r e c = ground arith
work_at-Moves done r e c = ground arith

work-Moves : (r : Run) → r.cancelled ≡ true → Moves r.point (work (answer_for r.point) r)
unfolding work
work-Moves r c = work_at-Moves r.point r refl c

place-third : (p : Point) → place_after (place_after (place_after p)) ≡ done
unfolding place_after
place-third (at_item i rest) = refl
place-third (in_start m rest) = refl
place-third (in_select m rest) = refl
place-third (in_stop m rest advance) = refl
place-third (in_abort m) = refl
place-third returning = refl
place-third done = refl

-- Three steps of the goroutine end a cancelled run, whatever it was doing.
pub drain-done : (r : Run) → r.cancelled ≡ true → (drain 3 r).point ≡ done
unfolding drain Moves
drain-done r c =
    (work-Moves (step (step r)) (work-Moves (step r) (work-Moves r c).1).1).0
    ∙ ap place_after
        ((work-Moves (step r) (work-Moves r c).1).0 ∙ ap place_after (work-Moves r c).0)
    ∙ place-third r.point
  where
    step : Run → Run
    step q = work (answer_for q.point) q
