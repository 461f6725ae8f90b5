-- ===== src/Inbox/Interleave.antt =====
-- service.go: every interleaving of the methods with the steps of concurrent Snapshot calls.
-- The channel of capacity one is the slot that one call holds; the calls before it wait in a list.
use zombiebox_gateway_core.Base.{ℕ, zero, suc, String, Option, none, some, List, [], ◌∷◌, ◌++◌}
use zombiebox_gateway_core.Domain.{Source}
use zombiebox_gateway_core.Inbox.Service.{
  Inbox, busy, new, expire, claim, release, dismiss, standby, clear,
}
use zombiebox_gateway_core.Inbox.Snapshot.{
  Poll, Point, Outcome, Answer, arming, leaving, disabled, refused, begin, step_at,
}

pub record System : Type 0 where
  pub inbox : Inbox
  pub waiting : List Poll
  pub slot : Option (Poll × Point)
  pub results : List Outcome

abbrev pub fresh : System
fresh = record { inbox = new; waiting = []; slot = none; results = [] }

-- What can happen next. Each method reads the clock; a claim and a poll read it twice.
-- `looks` stands for Active, Owned, OwnedAirPlay, Listening and Sweep.
pub data Event : Type 0 where
  claims : ℕ → ℕ → String → String → Event
  looks : ℕ → Event
  releases : String → Event
  dismisses : String → String → Event
  stands_by : String → Event
  closes : Event
  begins : ℕ → ℕ → String → Event
  -- the call with this place in the list tries the slot
  enters : ℕ → Event
  goes : Answer → Event

abbrev pub nth : ℕ → List Poll → Option Poll
nth n [] = none
nth zero (c ∷ cs) = some c
nth (suc n) (c ∷ cs) = nth n cs

abbrev pub remove_nth : ℕ → List Poll → List Poll
remove_nth n [] = []
remove_nth zero (c ∷ cs) = cs
remove_nth (suc n) (c ∷ cs) = c ∷ remove_nth n cs

abbrev pub on_inbox : Inbox → System → System
on_inbox i s = record s { inbox = i }

-- A stranger's call is over; another one waits for the slot.
unfoldable pub begun : Inbox × Option Poll → System → System
begun (i, none) s = record s { inbox = i; results = disabled ∷ s.results }
begun (i, some c) s = record s { inbox = i; waiting = s.waiting ++ c ∷ [] }

-- The slot is taken, or the call is refused.
unfoldable pub enter_at : Option Poll → Option (Poll × Point) → ℕ → System → System
enter_at none slot n s = s
enter_at (some c) none n s = record s { waiting = remove_nth n s.waiting; slot = some (c, arming) }
enter_at (some c) (some h) n s = record s {
  waiting = remove_nth n s.waiting;
  results = refused busy ∷ s.results;
}

unfoldable pub enter : ℕ → System → System
unfolding enter_at
enter n s = enter_at (nth n s.waiting) s.slot n s

module _ (digest : Source → String) where
  -- The call that holds the slot makes a step, or leaves.
  unfoldable pub go_at : Option (Poll × Point) → Answer → System → System
  unfolding step_at
  go_at none a s = s
  go_at (some (c, leaving o)) a s = record s { slot = none; results = o ∷ s.results }
  go_at (some (c, p)) a s =
      let (i, q) = step_at digest p a c s.inbox in record s { inbox = i; slot = some (c, q) }

  unfoldable pub happen : System → Event → System
  unfolding go_at enter begun expire claim release dismiss standby clear begin
  happen s (claims now later owner provider) = on_inbox (claim now later owner provider s.inbox).0 s
  happen s (looks now) = on_inbox (expire now s.inbox) s
  happen s (releases owner) = on_inbox (release owner s.inbox) s
  happen s (dismisses owner session) = on_inbox (dismiss owner session s.inbox).0 s
  happen s (stands_by owner) = on_inbox (standby owner s.inbox) s
  happen s closes = on_inbox (clear s.inbox) s
  happen s (begins now later owner) = begun (begin now later owner s.inbox) s
  happen s (enters n) = enter n s
  happen s (goes a) = go_at s.slot a s

  unfoldable pub after : System → List Event → System
  after s [] = s
  after s (e ∷ es) = after (happen s e) es
