-- ===== src/Inbox/Sessions/Always.antt =====
-- service.go: the open sessions along every interleaving.
use zombiebox_gateway_core.Base.{
  ℕ, ◌≡◌, refl, sym, subst, String, Option, none, some, List, [], ◌∷◌,
}
use zombiebox_gateway_core.Domain.{Source}
use zombiebox_gateway_core.Inbox.Service.{Inbox}
use zombiebox_gateway_core.Inbox.Snapshot.{Poll, Point, Answer, leaving, begin}
use zombiebox_gateway_core.Inbox.Interleave.{
  System, fresh, Event, claims, looks, releases, dismisses, stands_by, closes, begins, enters, goes,
  nth, begun, enter_at, enter, go_at, happen, after,
}
use zombiebox_gateway_core.Inbox.Sessions.{Balanced, open_sessions, StopsOpen}
use zombiebox_gateway_core.Inbox.Sessions.Steps.{
  extra_of, clear-Balanced, expire-Balanced, claim-Balanced, release-Balanced, dismiss-Balanced,
  standby-Balanced, begin-Balanced, step_at-Balanced,
}

-- The session that the call in the slot has started and not yet handed over.
pub in_flight : Option (Poll × Point) → Option String
unfolding extra_of
in_flight none = none
in_flight (some (c, p)) = extra_of p

-- The sessions that are started and not stopped are that of the plan and that in flight.
pub record NoLeak (s : System) : Type 0 where
  pub held : Balanced (in_flight s.slot) s.inbox

begun-NoLeak :
    (r : Inbox × Option Poll) (s : System) → Balanced (in_flight s.slot) r.0 → NoLeak (begun r s)
unfolding begun
begun-NoLeak (i, none) s b = record { held = b }
begun-NoLeak (i, some c) s b = record { held = b }

enter_at-NoLeak :
    (c : Option Poll) (o : Option (Poll × Point)) (n : ℕ) (s : System)
    → Balanced (in_flight o) s.inbox
    → s.slot ≡ o
    → NoLeak (enter_at c o n s)
unfolding enter_at in_flight extra_of
enter_at-NoLeak none o n s b e = record {
  held = subst (λ q. Balanced (in_flight q) s.inbox) (sym e) b;
}
enter_at-NoLeak (some c) none n s b e = record { held = b }
enter_at-NoLeak (some c) (some h) n s b e = record {
  held = subst (λ q. Balanced (in_flight q) s.inbox) (sym e) b;
}

go_at-NoLeak :
    (digest : Source → String) (o : Option (Poll × Point)) (a : Answer) (s : System)
    → Balanced (in_flight o) s.inbox
    → s.slot ≡ o
    → NoLeak (go_at digest o a s)
unfolding go_at in_flight extra_of
go_at-NoLeak digest none a s b e = record {
  held = subst (λ q. Balanced (in_flight q) s.inbox) (sym e) b;
}
go_at-NoLeak digest (some (c, leaving o)) a s b e = record { held = b }
go_at-NoLeak digest (some (c, p)) a s b e = record {
  held = (step_at-Balanced digest p a c s.inbox b).held;
}

module _ (digest : Source → String) where
  happen-NoLeak : (s : System) (e : Event) → NoLeak s → NoLeak (happen digest s e)
  unfolding happen enter
  happen-NoLeak s (claims now later owner provider) v = record {
    held = claim-Balanced (in_flight s.slot) now later owner provider s.inbox v.held;
  }
  happen-NoLeak s (looks now) v = record {
    held = expire-Balanced (in_flight s.slot) now s.inbox v.held;
  }
  happen-NoLeak s (releases owner) v = record {
    held = release-Balanced (in_flight s.slot) owner s.inbox v.held;
  }
  happen-NoLeak s (dismisses owner session) v = record {
    held = dismiss-Balanced (in_flight s.slot) owner session s.inbox v.held;
  }
  happen-NoLeak s (stands_by owner) v = record {
    held = standby-Balanced (in_flight s.slot) owner s.inbox v.held;
  }
  happen-NoLeak s closes v = record { held = clear-Balanced (in_flight s.slot) s.inbox v.held }
  happen-NoLeak s (begins now later owner) v =
      begun-NoLeak (begin now later owner s.inbox) s
        (begin-Balanced (in_flight s.slot) now later owner s.inbox v.held)
  happen-NoLeak s (enters n) v = enter_at-NoLeak (nth n s.waiting) s.slot n s v.held refl
  happen-NoLeak s (goes a) v = go_at-NoLeak digest s.slot a s v.held refl

  after_from-NoLeak : (s : System) (es : List Event) → NoLeak s → NoLeak (after digest s es)
  unfolding after
  after_from-NoLeak s [] v = v
  after_from-NoLeak s (e ∷ es) v = after_from-NoLeak (happen digest s e) es (happen-NoLeak s e v)

  -- After any interleaving, from the new service, of the methods with the steps of concurrent
  -- Snapshot calls, and for whatever the backend, the clock and the session starts answer: the
  -- sessions started and not stopped are that of the plan and, while a call hands it over, the one
  -- it has just started, each counted once; and no session was stopped that was not open.
  pub after-NoLeak : (es : List Event) → NoLeak (after digest fresh es)
  unfolding open_sessions StopsOpen in_flight
  after-NoLeak es =
      after_from-NoLeak fresh es (record { held = record { sessions = refl; stops = tt } })
