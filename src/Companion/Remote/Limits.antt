-- ===== src/Companion/Remote/Limits.antt =====
-- remote.go: the bounds in any order of the calls.
use zombiebox_gateway_core.Base.{String, Option, none, some, List, [], ◌∷◌, arith}
use zombiebox_gateway_core.Companion.Model.{Service, Store, Error}
use zombiebox_gateway_core.Companion.Remote.{send}
use zombiebox_gateway_core.Companion.Remote.Bounds.{Bounded, expire-Bounded, poll-Bounded}
use zombiebox_gateway_core.Companion.Remote.Bounds.Commands.{
  send-Bounded, acknowledge-Bounded, revoke-Bounded,
}
use zombiebox_gateway_core.Companion.Remote.Traffic.{
  Traffic, start, Event, sends, polls, acknowledges, revokes, asks, pairs, accept, happen, after,
}

accept-Bounded :
    (id : String) (r : Service × Option Error) (t : Traffic)
    → Bounded r.0
    → Bounded (accept id r t).service
accept-Bounded id (s, none) t b = b
accept-Bounded id (s, some e) t b = b

happen-Bounded : (t : Traffic) (e : Event) → Bounded t.service → Bounded (happen t e).service
unfolding happen
happen-Bounded t (sends io now id o) b =
    accept-Bounded id (send io now id o t.service) t (send-Bounded io now id o t.service b)
happen-Bounded t (polls io now target active input) b =
    poll-Bounded io now target active input t.service b
happen-Bounded t (acknowledges now target id status) b =
    acknowledge-Bounded now target id status t.service b
happen-Bounded t (revokes io target id) b = revoke-Bounded io target id t.service b
happen-Bounded t (asks now) b = expire-Bounded now t.service b
happen-Bounded t (pairs store attempts) b = record {
  queues = b.queues;
  delivered = b.delivered;
  present = b.present;
}

after_from-Bounded :
    (t : Traffic) (es : List Event) → Bounded t.service → Bounded (after t es).service
unfolding after
after_from-Bounded t [] b = b
after_from-Bounded t (e ∷ es) b = after_from-Bounded (happen t e) es (happen-Bounded t e b)

-- In any order of the calls, from a new service: no television has more than 16 commands queued,
-- at most 1024 commands await their report, and at most 128 televisions are kept as present.
pub after-Bounded : (store : Store) (es : List Event) → Bounded (after (start store) es).service
after-Bounded store es =
    after_from-Bounded (start store) es
      (record { queues = tt; delivered = omega arith; present = omega arith })
