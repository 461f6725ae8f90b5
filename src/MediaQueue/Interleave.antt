-- ===== src/MediaQueue/Interleave.antt =====
-- Every interleaving of the service's methods, its goroutines' steps and the six-hour timeout.
pub mod Once
use zombiebox_gateway_core.Base.{
  ℕ, zero, suc, ◌≡◌, refl, sym, subst, inl, String, Bool, not, ◌||◌, true, false, Option, List, [],
  ◌∷◌, arith, All, if◌then◌else◌, if-split,
}
use zombiebox_gateway_core.MediaQueue.Items.{Item, Url, validate}
use zombiebox_gateway_core.MediaQueue.Worker.{
  active, Point, at_item, in_start, in_select, in_stop, in_abort, returning, Run, Answer, draw,
  start_returns, picks_next, picks_done, go_on, work_at, work,
}
use zombiebox_gateway_core.MediaQueue.Service.{
  Service, empty, new_run, start, complete_run, complete, cancel_run, cancel, stop_run, close,
  on_current, is_current, current_active,
}
use zombiebox_gateway_core.MediaQueue.Invariant.{
  RunInvAt, RunInv, work-RunInv, new_run-RunInv, stop_run-RunInv, cancel_run-RunInv,
  complete_run-RunInv,
}

-- What can happen next. `works` and `expires` name the run, counted from the current one.
pub data Event : Type 0 where
  starts : String → String → List Item → Event
  completes : String → String → Bool → Event
  cancels : String → Event
  closes_service : Event
  works : ℕ → Answer → Event
  expires : ℕ → Event

abbrev pub at_run : ℕ → (Run → Run) → List Run → List Run
at_run n f [] = []
at_run zero f (r ∷ rs) = f r ∷ rs
at_run (suc n) f (r ∷ rs) = r ∷ at_run n f rs

-- The deadline of the run's context.
abbrev expire_run : Run → Run
expire_run r = record r { cancelled = true }

module _ (parse : String → Option Url) where
  unfoldable pub happen : Service → Event → Service
  happen s (starts owner id items) = (start parse owner id items s).0
  happen s (completes owner media advance) = complete owner media advance s
  happen s (cancels owner) = cancel owner s
  happen s closes_service = close s
  happen s (works n a) = record s { runs = at_run n (work a) s.runs }
  happen s (expires n) = record s { runs = at_run n expire_run s.runs }

  unfoldable pub after : Service → List Event → Service
  unfolding happen
  after s [] = s
  after s (e ∷ es) = after (happen s e) es

abbrev pub Inactive : Run → Type 0
Inactive r = active r.phase ≡ false

-- Each run is sound, and only the current one may be active; none is in a closed service.
abbrev pub Exclusive : List Run → Type 0
Exclusive [] = Unit {0}
Exclusive (r ∷ rs) = All Inactive rs

pub record ServiceInv (s : Service) : Type 0 where
  pub sound : All RunInv s.runs
  pub exclusive : Exclusive s.runs
  pub shut : s.closed ≡ true → All Inactive s.runs

work_at-Inactive :
    (p : Point) (a : Answer) (r : Run) → RunInvAt p r → Inactive r → Inactive (work_at p a r)
unfolding work_at active
work_at-Inactive (at_item i (item ∷ rest)) (draw media) r v h = ground (arith, v.quiet h)
work_at-Inactive (at_item i []) go_on r v h = ground (arith, v.quiet h)
work_at-Inactive (in_start media rest) (start_returns ok) r v h = ground (arith, v.quiet h)
work_at-Inactive (in_select media rest) picks_next r v h = ground (arith, v.quiet h)
work_at-Inactive (in_select media rest) picks_done r v h = ground (arith, v.quiet h)
work_at-Inactive (in_stop media rest advance) go_on r v h = ground (arith, v.quiet h)
work_at-Inactive (in_abort media) go_on r v h = h
work_at-Inactive returning go_on r v h = ground (arith, v.quiet h)
work_at-Inactive _ _ r v h = h

-- A run that is not active stays so.
pub work-Inactive : (a : Answer) (r : Run) → RunInv r → Inactive r → Inactive (work a r)
unfolding work
work-Inactive a r v h = work_at-Inactive r.point a r v h

module _ (f : Run → Run) (keeps : (r : Run) → RunInv r → RunInv (f r)) where
  at_run-RunInv : (n : ℕ) (rs : List Run) → All RunInv rs → All RunInv (at_run n f rs)
  at_run-RunInv n [] a = tt
  at_run-RunInv zero (r ∷ rs) a = (keeps r a.0, a.1)
  at_run-RunInv (suc n) (r ∷ rs) a = (a.0, at_run-RunInv n rs a.1)

  at_run-Inactive :
      (calm : (r : Run) → RunInv r → Inactive r → Inactive (f r)) (n : ℕ) (rs : List Run)
      → All RunInv rs
      → All Inactive rs
      → All Inactive (at_run n f rs)
  at_run-Inactive calm n [] a i = tt
  at_run-Inactive calm zero (r ∷ rs) a i = (calm r a.0 i.0, i.1)
  at_run-Inactive calm (suc n) (r ∷ rs) a i = (i.0, at_run-Inactive calm n rs a.1 i.1)

  at_run-Exclusive :
      (calm : (r : Run) → RunInv r → Inactive r → Inactive (f r)) (n : ℕ) (rs : List Run)
      → All RunInv rs
      → Exclusive rs
      → Exclusive (at_run n f rs)
  at_run-Exclusive calm n [] a x = tt
  at_run-Exclusive calm zero (r ∷ rs) a x = x
  at_run-Exclusive calm (suc n) (r ∷ rs) a x = at_run-Inactive calm n rs a.1 x

  -- A change of one run that keeps its invariant and does not revive it.
  at_run-ServiceInv :
      (calm : (r : Run) → RunInv r → Inactive r → Inactive (f r)) (n : ℕ) (s : Service)
      → ServiceInv s
      → ServiceInv (record s { runs = at_run n f s.runs })
  at_run-ServiceInv calm n s v = record {
    sound = at_run-RunInv n s.runs v.sound;
    exclusive = at_run-Exclusive calm n s.runs v.sound v.exclusive;
    shut = λ c. at_run-Inactive calm n s.runs v.sound (v.shut c);
  }

on_current-at_run : (f : Run → Run) (rs : List Run) → on_current f rs ≡ at_run 0 f rs
on_current-at_run f [] = refl
on_current-at_run f (r ∷ rs) = refl

expire_run-RunInv : (r : Run) → RunInv r → RunInv (expire_run r)
expire_run-RunInv r v = record {
  logged = v.logged;
  quiet = λ q. inl refl;
  placed = v.placed;
  settled = v.settled;
}

cancel_run-Inactive : (owner : String) (r : Run) → Inactive r → Inactive (cancel_run owner r)
unfolding cancel_run active
cancel_run-Inactive owner r h = ground arith

pub complete_run-Inactive :
    (owner media : String) (advance : Bool) (r : Run)
    → Inactive r
    → Inactive (complete_run owner media advance r)
unfolding complete_run
complete_run-Inactive owner media advance r h = ground arith

Inactive-Exclusive : (rs : List Run) → current_active rs ≡ false → Exclusive rs → All Inactive rs
Inactive-Exclusive [] h x = tt
Inactive-Exclusive (r ∷ rs) h x = (h, x)

module _ (parse : String → Option Url) where
  appended :
      (owner id : String) (items : List Item) (s : Service)
      → ServiceInv s
      → s.closed ≡ false
      → current_active s.runs ≡ false
      → ServiceInv (record s { runs = new_run owner id items ∷ s.runs })
  appended owner id items s v open_ idle = record {
    sound = (new_run-RunInv owner id items, v.sound);
    exclusive = Inactive-Exclusive s.runs idle v.exclusive;
    shut = λ c. absurd (ground arith);
  }

  start-ServiceInv :
      (owner id : String) (items : List Item) (s : Service)
      → ServiceInv s
      → ServiceInv (start parse owner id items s).0
  unfolding start
  start-ServiceInv owner id items s v =
      let P : Service × Bool → Type 0 = λ p. ServiceInv p.0 in
      let fresh : Service = record s { runs = new_run owner id items ∷ s.runs } in
      let idle : Service × Bool = if current_active s.runs then (s, false) else (fresh, true) in
      let known : Service × Bool = if is_current owner id s.runs then (s, true) else idle in
      if-split P (s.closed || not (validate parse items)) (s, false) known (λ c. v)
        λ open_.
          if-split P (is_current owner id s.runs) (s, true) idle (λ c. v)
            λ other.
              if-split P (current_active s.runs) (s, false) (fresh, true) (λ c. v)
                λ free. appended owner id items s v (ground arith) free

  close-ServiceInv : (s : Service) → ServiceInv s → ServiceInv (close s)
  unfolding close active
  close-ServiceInv s v = closed_runs s.runs v.sound v.exclusive
    where
      closed_runs :
          (rs : List Run)
          → All RunInv rs
          → Exclusive rs
          → ServiceInv (record { closed = true; runs = on_current stop_run rs })
      closed_runs [] a x = record { sound = tt; exclusive = tt; shut = λ c. tt }
      closed_runs (r ∷ rs) a x = record {
        sound = (stop_run-RunInv r a.0, a.1);
        exclusive = x;
        shut = λ c. (refl, x);
      }

  current-ServiceInv :
      (f : Run → Run) (keeps : (r : Run) → RunInv r → RunInv (f r))
      → ((r : Run) → Inactive r → Inactive (f r))
      → (s : Service) → ServiceInv s
      → ServiceInv (record s { runs = on_current f s.runs })
  current-ServiceInv f keeps calm s v =
      subst (λ rs. ServiceInv (record s { runs = rs })) (sym (on_current-at_run f s.runs))
        (at_run-ServiceInv f keeps (λ r i h. calm r h) 0 s v)

  pub happen-ServiceInv : (s : Service) (e : Event) → ServiceInv s → ServiceInv (happen parse s e)
  unfolding happen complete cancel
  happen-ServiceInv s (starts owner id items) v = start-ServiceInv owner id items s v
  happen-ServiceInv s (completes owner media advance) v =
      current-ServiceInv (complete_run owner media advance)
        (complete_run-RunInv owner media advance) (complete_run-Inactive owner media advance) s v
  happen-ServiceInv s (cancels owner) v =
      current-ServiceInv (cancel_run owner) (cancel_run-RunInv owner) (cancel_run-Inactive owner) s
        v
  happen-ServiceInv s closes_service v = close-ServiceInv s v
  happen-ServiceInv s (works n a) v =
      at_run-ServiceInv (work a) (work-RunInv a) (work-Inactive a) n s v
  happen-ServiceInv s (expires n) v =
      at_run-ServiceInv expire_run expire_run-RunInv (λ r i h. h) n s v

  pub after_from-ServiceInv :
      (s : Service) (es : List Event) → ServiceInv s → ServiceInv (after parse s es)
  unfolding after
  after_from-ServiceInv s [] v = v
  after_from-ServiceInv s (e ∷ es) v =
      after_from-ServiceInv (happen parse s e) es (happen-ServiceInv s e v)

  -- After any interleaving, from the empty service, of the methods, the goroutines' steps and the
  -- timeouts: only the current run can be active, and none in a closed service; and of each run
  -- the calls of `start` and `stop` alternate, each stop with the id of the start before it, with
  -- a media open exactly while the goroutine starts it, plays it or is about to stop it; a run
  -- that is not active is cancelled or at its end; its index and the items ahead add up to its
  -- count; and where its goroutine is done it is not active.
  pub after-ServiceInv : (es : List Event) → ServiceInv (after parse empty es)
  after-ServiceInv es =
      after_from-ServiceInv empty es (record { sound = tt; exclusive = tt; shut = λ c. tt })
