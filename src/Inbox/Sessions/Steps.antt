-- ===== src/Inbox/Sessions/Steps.antt =====
-- service.go: the methods and the steps of Snapshot, by what they do to the open sessions.
use zombiebox_gateway_core.Base.{
  ℕ, ◌+◌, ◌≡◌, refl, sym, ap, ◌∙◌, String, true, false, not, ◌&&◌, ◌||◌, Option, none, some, ◌∷◌,
  if-split, str_eq, leb,
}
use zombiebox_gateway_core.Domain.{Item, Source}
use zombiebox_gateway_core.Inbox.Selection.{NowPlaying, Values}
use zombiebox_gateway_core.Inbox.Service.{
  Plan, stopped, Inbox, busy, changed, lease, granted, stop_plan, call_cancel, next_generation,
  clear, expire, claim, owns, release, dismiss_plan, dismiss_at, dismiss, stand_by, standby,
}
use zombiebox_gateway_core.Inbox.Snapshot.{
  Poll, Chosen, Point, Answer, committing, leaving, begin, is_current, arm, adopt, finish,
  with_item, act_at, act, refused, poll_of, plays, suppressed, with_source, without_source, act_on,
  decide, commit, replaced, error, fail, step_at, arming, reading, deciding, starting, failing,
  go_on, replies, at_time, plan_starts, start_fails, observed, selection_of,
}
use zombiebox_gateway_core.Inbox.Sessions.{
  Balanced, session_of, open_sessions, StopsOpen, stop_plan-Balanced, stop_plan-plan, Balanced-take,
  Balanced-give_up,
}

-- The inbox of a result is in balance.
record BalancedIn {A : Type 0} (extra : Option String) (r : Inbox × A) : Type 0 where
  held : Balanced extra r.0

module _ (extra : Option String) where
  call_cancel-Balanced : (s : Inbox) → Balanced extra s → Balanced extra (call_cancel s)
  unfolding open_sessions StopsOpen
  call_cancel-Balanced s b =
      if-split (Balanced extra) s.cancel _ s
        (λ e. record { sessions = b.sessions; stops = b.stops }) (λ e. b)

  bumped-Balanced :
      (s : Inbox) → Balanced extra s → Balanced extra (call_cancel (next_generation s))
  bumped-Balanced s b =
      call_cancel-Balanced (next_generation s) (record { sessions = b.sessions; stops = b.stops })

  pub clear-Balanced : (s : Inbox) → Balanced extra s → Balanced extra (clear s)
  unfolding clear
  clear-Balanced s b =
      let t = stop_plan-Balanced extra (call_cancel (next_generation s)) (bumped-Balanced s b) in
      record { sessions = t.sessions; stops = t.stops }

  pub expire-Balanced : (now : ℕ) (s : Inbox) → Balanced extra s → Balanced extra (expire now s)
  unfolding expire
  expire-Balanced now s b =
      if-split (Balanced extra) (not (str_eq s.owner "") && leb s.expires now) (clear s) s
        (λ e. clear-Balanced s b) (λ e. b)

  pub claim-Balanced :
      (now later : ℕ) (owner provider : String) (s : Inbox)
      → Balanced extra s
      → Balanced extra (claim now later owner provider s).0
  unfolding claim
  claim-Balanced now later owner provider s b =
      let t = expire now s in
      let v = expire-Balanced now s b in
      let w = clear-Balanced t v in
      let r : BalancedIn extra (claim now later owner provider s) =
        if-split (BalancedIn extra) (not (str_eq t.owner "") && not (str_eq t.owner owner))
          (t, some busy) (granted later owner provider (clear t), none) (λ e. record { held = v })
          λ e. record { held = record { sessions = w.sessions; stops = w.stops } } in
      r.held

  pub release-Balanced :
      (owner : String) (s : Inbox) → Balanced extra s → Balanced extra (release owner s)
  unfolding release
  release-Balanced owner s b =
      if-split (Balanced extra) (owns owner s) (clear s) s (λ e. clear-Balanced s b) (λ e. b)

  dismiss_plan-Balanced :
      (p : Plan) (s : Inbox) → Balanced extra s → Balanced extra (dismiss_plan p s)
  unfolding dismiss_plan
  dismiss_plan-Balanced p s b =
      stop_plan-Balanced extra _ (record { sessions = b.sessions; stops = b.stops })

  dismiss_at-Balanced :
      (o : Option Plan) (owner session : String) (s : Inbox)
      → Balanced extra s
      → Balanced extra (dismiss_at o owner session s).0
  dismiss_at-Balanced none owner session s b = b
  dismiss_at-Balanced (some p) owner session s b =
      let r : BalancedIn extra (dismiss_at (some p) owner session s) =
        if-split (BalancedIn extra) _ _ _ (λ e. record { held = dismiss_plan-Balanced p s b })
          λ e. record { held = b } in
      r.held

  pub dismiss-Balanced :
      (owner session : String) (s : Inbox)
      → Balanced extra s
      → Balanced extra (dismiss owner session s).0
  unfolding dismiss
  dismiss-Balanced owner session s b = dismiss_at-Balanced s.plan owner session s b

  pub standby-Balanced :
      (owner : String) (s : Inbox) → Balanced extra s → Balanced extra (standby owner s)
  unfolding standby stand_by
  standby-Balanced owner s b =
      let t = stop_plan-Balanced extra (call_cancel (next_generation s)) (bumped-Balanced s b) in
      if-split (Balanced extra) _ s (stand_by s) (λ e. b)
        (λ e. record { sessions = t.sessions; stops = t.stops })

  pub begin-Balanced :
      (now later : ℕ) (owner : String) (s : Inbox)
      → Balanced extra s
      → Balanced extra (begin now later owner s).0
  unfolding begin
  begin-Balanced now later owner s b =
      let t = expire now s in
      let v = expire-Balanced now s b in
      let r : BalancedIn extra (begin now later owner s) =
        if-split (BalancedIn extra) (not (owns owner t)) (t, none)
          (record t { expires = later + lease }, some (poll_of owner t)) (λ e. record { held = v })
          λ e. record { held = record { sessions = v.sessions; stops = v.stops } } in
      r.held

-- What a step of the call leaves open besides the session of the plan.
unfoldable pub extra_of : Point → Option String
extra_of (committing x plan) = some plan.session
extra_of p = none

-- The result of a step.
pub record StepBalanced (r : Inbox × Point) : Type 0 where
  pub held : Balanced (extra_of r.1) r.0

session_of-with_item : (i : Item) (o : Option Plan) → session_of (with_item i o) ≡ session_of o
session_of-with_item i none = refl
session_of-with_item i (some p) = refl

adopt-Balanced : (c : Poll) (x : Chosen) (s : Inbox) → Balanced none s → StepBalanced (adopt c x s)
unfolding adopt extra_of
adopt-Balanced c x s b = record {
  held = record {
    sessions = b.sessions ∙ sym (session_of-with_item x.source.item s.plan);
    stops = b.stops;
  };
}

with_source-Balanced :
    (c : Poll) (x : Chosen) (s : Inbox) → Balanced none s → StepBalanced (with_source c x s)
unfolding with_source extra_of
with_source-Balanced c x s b =
    if-split StepBalanced (suppressed c x s) (finish c x.status s) _ (λ e. record { held = b })
      λ e.
        if-split StepBalanced (plays x s) _ _ (λ d. adopt-Balanced c x s b)
          (λ d. record { held = b })

without_source-Balanced :
    (c : Poll) (selected : String) (status : NowPlaying) (s : Inbox)
    → Balanced none s
    → StepBalanced (without_source c selected status s)
unfolding without_source extra_of
without_source-Balanced c selected status s b =
    let v = stop_plan-Balanced none s b in
    if-split StepBalanced (not (str_eq selected "airplay") || not (str_eq status.state "BUFFERING"))
      (finish c status (record (stop_plan s) { blocked = "" })) (finish c status s)
      (λ e. record { held = record { sessions = v.sessions; stops = v.stops } })
      (λ e. record { held = b })

module _ (digest : Source → String) where
  act_at-Balanced :
      (err late : Option String) (source : Option Source) (c : Poll) (selected : String)
      (status : NowPlaying) (s : Inbox)
      → Balanced none s
      → StepBalanced (act_at digest err late source c selected status s)
  unfolding act_at extra_of
  act_at-Balanced (some e) late source c selected status s b = record { held = b }
  act_at-Balanced none (some e) source c selected status s b = record { held = b }
  act_at-Balanced none none none c selected status s b =
      without_source-Balanced c selected status s b
  act_at-Balanced none none (some source) c selected status s b = with_source-Balanced c _ s b

  act-Balanced :
      (c : Poll) (late : Option String) (values : Values) (s : Inbox)
      → Balanced none s
      → StepBalanced (act digest c late values s)
  unfolding act act_on
  act-Balanced c late values s b =
      let (selection, selected) = selection_of c values s in
      let v = observed selected values in
      act_at-Balanced v.err late v.source c selected v.status
        (record s { cancel = false; selection = selection })
        (record { sessions = b.sessions; stops = b.stops })

  decide-Balanced :
      (now : ℕ) (late : Option String) (c : Poll) (values : Values) (s : Inbox)
      → Balanced none s
      → StepBalanced (decide digest now late c values s)
  unfolding decide extra_of
  decide-Balanced now late c values s b =
      let t = expire now s in
      let v = expire-Balanced none now s b in
      if-split StepBalanced (not (is_current c t)) (t, leaving (refused changed))
        (act digest c late values t) (λ e. record { held = v }) λ e. act-Balanced c late values t v

commit-Balanced :
    (now : ℕ) (c : Poll) (x : Chosen) (plan : Plan) (s : Inbox)
    → Balanced (some plan.session) s
    → StepBalanced (commit now c x plan s)
unfolding commit replaced extra_of
commit-Balanced now c x plan s b =
    let t = expire now s in
    let v = expire-Balanced (some plan.session) now s b in
    let w = stop_plan-Balanced (some plan.session) t v in
    let taken = Balanced-take plan (stop_plan t) (stop_plan-plan t) w in
    let dropped : Inbox = record t { log = stopped plan.session ∷ t.log } in
    if-split StepBalanced (not (is_current c t)) (dropped, leaving (refused changed))
      (adopt c x (replaced x plan t)) (λ e. record { held = Balanced-give_up plan.session t v })
      λ e.
        adopt-Balanced c x (replaced x plan t)
          (record { sessions = taken.sessions; stops = taken.stops })

fail-Balanced :
    (now : ℕ) (c : Poll) (e : String) (s : Inbox) → Balanced none s → StepBalanced (fail now c e s)
unfolding fail extra_of
fail-Balanced now c e s b =
    let t = expire now s in
    let v = expire-Balanced none now s b in
    if-split StepBalanced (not (is_current c t)) (t, leaving (refused changed))
      (t, leaving (error e)) (λ d. record { held = v }) (λ d. record { held = v })

arm-Balanced : (c : Poll) (s : Inbox) → Balanced none s → StepBalanced (arm c s)
unfolding arm extra_of
arm-Balanced c s b =
    if-split StepBalanced (not (is_current c s)) (s, leaving (refused changed))
      (record s { cancel = true }, reading) (λ e. record { held = b })
      (λ e. record { held = record { sessions = b.sessions; stops = b.stops } })

-- A step of the call keeps the account of the sessions.
pub step_at-Balanced :
    (digest : Source → String) (p : Point) (a : Answer) (c : Poll) (s : Inbox)
    → Balanced (extra_of p) s
    → StepBalanced (step_at digest p a c s)
unfolding step_at extra_of open_sessions StopsOpen
step_at-Balanced digest arming go_on c s b = arm-Balanced c s b
step_at-Balanced digest reading (replies answer) c s b = record { held = b }
step_at-Balanced digest (deciding values) (at_time now late) c s b =
    decide-Balanced digest now late c values s b
step_at-Balanced digest (starting x) (plan_starts plan) c s b = record {
  held = record { sessions = ap (◌∷◌ plan.session) b.sessions; stops = b.stops };
}
step_at-Balanced digest (starting x) (start_fails e) c s b = record { held = b }
step_at-Balanced digest (committing x plan) (at_time now late) c s b =
    commit-Balanced now c x plan s b
step_at-Balanced digest (failing x e) (at_time now late) c s b = fail-Balanced now c e s b
step_at-Balanced digest p a c s b = record { held = b }
