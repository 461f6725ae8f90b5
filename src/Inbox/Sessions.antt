-- ===== src/Inbox/Sessions.antt =====
-- The sessions that the log of calls leaves open, and the steps that start and stop them.
pub mod Steps
pub mod Always
use zombiebox_gateway_core.Base.{
  ◌≡◌, refl, sym, ap, ◌∙◌, subst, String, Bool, true, false, Option, none, some, List, [], ◌∷◌,
  ◌++◌, arith, any, if◌then◌else◌, str_eq, eq_iff,
}
use zombiebox_gateway_core.Inbox.Service.{
  Plan, Call, started, stopped, cancelled, Inbox, stop_at, stop_plan,
}

-- The list without the first occurrence of a session.
abbrev pub without : String → List String → List String
without x [] = []
without x (y ∷ l) = let rest = without x l in if str_eq y x then l else y ∷ rest

-- The sessions that were started and not stopped, one entry for each start.
pub open_sessions : List Call → List String
open_sessions [] = []
open_sessions (started x ∷ l) = x ∷ open_sessions l
open_sessions (stopped x ∷ l) = without x (open_sessions l)
open_sessions (cancelled ∷ l) = open_sessions l

-- Each stop names a session that is open.
pub StopsOpen : List Call → Type 0
StopsOpen [] = Unit
StopsOpen (started x ∷ l) = StopsOpen l
StopsOpen (stopped x ∷ l) = (any (str_eq x) (open_sessions l) ≡ true) × StopsOpen l
StopsOpen (cancelled ∷ l) = StopsOpen l

abbrev pub one : Option String → List String
one none = []
one (some x) = x ∷ []

abbrev pub session_of : Option Plan → List String
session_of none = []
session_of (some p) = p.session ∷ []

-- The open sessions are that of a call, if it has one, and that of the plan.
pub record Balanced (extra : Option String) (s : Inbox) : Type 0 where
  pub sessions : open_sessions s.log ≡ one extra ++ session_of s.plan
  pub stops : StopsOpen s.log

without-pair : (c p : String) → without p (c ∷ p ∷ []) ≡ c ∷ []
without-pair c p = ground (arith, eq_iff c p, eq_iff p p)

without-one : (p : String) → without p (p ∷ []) ≡ []
without-one p = ground (arith, eq_iff p p)

any-pair : (c p : String) → any (str_eq p) (c ∷ p ∷ []) ≡ true
any-pair c p = ground (arith, eq_iff p p)

any-one : (p : String) (l : List String) → any (str_eq p) (p ∷ l) ≡ true
any-one p l = ground (arith, eq_iff p p)

-- To stop the plan's session.
stopped_plan :
    (extra : Option String) (s : Inbox) (p : Plan)
    → s.plan ≡ some p
    → Balanced extra s
    → Balanced extra (record s { plan = none; log = stopped p.session ∷ s.log })
unfolding open_sessions StopsOpen
stopped_plan none s p e b =
    let known : open_sessions s.log ≡ p.session ∷ [] = b.sessions ∙ ap session_of e in
    record {
      sessions = ap (without p.session) known ∙ without-one p.session;
      stops = (ap (any (str_eq p.session)) known ∙ any-one p.session [], b.stops);
    }
stopped_plan (some c) s p e b =
    let known : open_sessions s.log ≡ c ∷ p.session ∷ [] =
      b.sessions ∙ ap (λ o. c ∷ session_of o) e in
    record {
      sessions = ap (without p.session) known ∙ without-pair c p.session;
      stops = (ap (any (str_eq p.session)) known ∙ any-pair c p.session, b.stops);
    }

stop_at-Balanced :
    (extra : Option String) (s : Inbox) (o : Option Plan)
    → s.plan ≡ o
    → Balanced extra s
    → Balanced extra (stop_at o s)
stop_at-Balanced extra s none e b = b
stop_at-Balanced extra s (some p) e b = stopped_plan extra s p e b

pub stop_plan-Balanced :
    (extra : Option String) (s : Inbox) → Balanced extra s → Balanced extra (stop_plan s)
unfolding stop_plan
stop_plan-Balanced extra s b = stop_at-Balanced extra s s.plan refl b

stop_at-plan : (s : Inbox) (o : Option Plan) → s.plan ≡ o → (stop_at o s).plan ≡ none
stop_at-plan s none e = e
stop_at-plan s (some p) e = refl

pub stop_plan-plan : (s : Inbox) → (stop_plan s).plan ≡ none
unfolding stop_plan
stop_plan-plan s = stop_at-plan s s.plan refl

-- A started session becomes that of the plan, once the old one is stopped.
pub Balanced-take :
    (p : Plan) (s : Inbox)
    → s.plan ≡ none
    → Balanced (some p.session) s
    → Balanced none (record s { plan = some p })
Balanced-take p s e b = record {
  sessions = b.sessions ∙ ap (λ o. p.session ∷ session_of o) e;
  stops = b.stops;
}

-- Or it is stopped, and the plan stays.
pub Balanced-give_up :
    (x : String) (s : Inbox)
    → Balanced (some x) s
    → Balanced none (record s { log = stopped x ∷ s.log })
unfolding open_sessions StopsOpen
Balanced-give_up x s b = record {
  sessions = ap (without x) b.sessions ∙ without-head x (session_of s.plan);
  stops = (ap (any (str_eq x)) b.sessions ∙ any-one x (session_of s.plan), b.stops);
}
  where
    without-head : (x : String) (l : List String) → without x (x ∷ l) ≡ l
    without-head x l = ground (arith, eq_iff x x)
