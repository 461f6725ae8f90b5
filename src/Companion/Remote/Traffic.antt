-- ===== src/Companion/Remote/Traffic.antt =====
-- remote.go: any order of the calls, with the commands accepted and handed out so far.
use zombiebox_gateway_core.Base.{ℕ, String, Bool, Option, none, some, List, [], ◌∷◌, ◌++◌, map}
use zombiebox_gateway_core.Base.Assoc.{Assoc}
use zombiebox_gateway_core.Companion.Model.{Command, Rate, Store, Service, Error, Io, new}
use zombiebox_gateway_core.Companion.Remote.{Order, send, poll, acknowledge, revoke}
use zombiebox_gateway_core.Companion.Expiry.{expire}

-- The service, and the ids that Send accepted and that Poll handed out, the newest first.
pub record Traffic : Type 0 where
  pub service : Service
  pub sent : List String
  pub out : List String

abbrev pub start : Store → Traffic
start store = record { service = new store; sent = []; out = [] }

-- `pairs` stands for the methods of pairing, which touch the store and the attempts alone;
-- `asks` is RemoteStatus.
pub data Event : Type 0 where
  sends : Io → ℕ → String → Order → Event
  polls : Io → ℕ → String → Bool → Option String → Event
  acknowledges : ℕ → String → String → String → Event
  revokes : Io → String → String → Event
  asks : ℕ → Event
  pairs : Store → Assoc Rate → Event

abbrev pub accept : String → Service × Option Error → Traffic → Traffic
accept id (s, none) t = record t { service = s; sent = id ∷ t.sent }
accept id (s, some e) t = record t { service = s }

abbrev pub id_of : Command → String
id_of c = c.id

abbrev pub hand_out : Service × List Command → Traffic → Traffic
hand_out (s, cs) t = record t { service = s; out = map id_of cs ++ t.out }

unfoldable pub happen : Traffic → Event → Traffic
unfolding send poll acknowledge revoke expire
happen t (sends io now id o) = accept id (send io now id o t.service) t
happen t (polls io now target active input) = hand_out (poll io now target active input t.service) t
happen t (acknowledges now target id status) = record t {
  service = (acknowledge now target id status t.service).0;
}
happen t (revokes io target id) = record t { service = (revoke io target id t.service).0 }
happen t (asks now) = record t { service = expire now t.service }
happen t (pairs store attempts) = record t {
  service = record t.service { store = store; attempts = attempts };
}

unfoldable pub after : Traffic → List Event → Traffic
after t [] = t
after t (e ∷ es) = after (happen t e) es
