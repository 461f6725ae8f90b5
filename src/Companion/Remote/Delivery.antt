-- ===== src/Companion/Remote/Delivery.antt =====
-- remote.go: how often a command is handed out.
pub mod Counts
use zombiebox_gateway_core.Base.{
  ℕ, zero, suc, ◌+◌, ◌≤◌, ◌≡◌, refl, sym, ap, ◌∙◌, subst, inl, inr, String, Bool, true, false, not,
  ◌||◌, ◌&&◌, Option, none, some, List, [], ◌∷◌, ◌++◌, map, arith, length, any, keep, if◌then◌else◌,
  if-split, Bool-cases, leb, ltb, str_eq, ◌==◌,
}
use zombiebox_gateway_core.Base.Assoc.{Assoc, find, or_else, find_or, erase, insert}
use zombiebox_gateway_core.Companion.Model.{
  Command, Receipt, Rate, Service, Store, Error, Io, is_granted, within_of, invalid, denied, busy,
  storage, new,
}
use zombiebox_gateway_core.Companion.Remote.{
  Order, counted, current_rate, no_rate, is_valid, queue_of, queued, command_of, send,
  text_inputs_at, polled, seen, online_at, set_result, receive, deliver, handed, poll, reports,
  acknowledge_at, acknowledge, not_of, without_grant, revoke,
}
use zombiebox_gateway_core.Companion.Expiry.{is_fresh, fresh_queues, expire, note}
use zombiebox_gateway_core.Companion.Remote.Traffic.{
  Traffic, start, Event, sends, polls, acknowledges, revokes, asks, pairs, accept, id_of, hand_out,
  happen, after,
}
use zombiebox_gateway_core.Companion.Remote.Delivery.Counts.{
  times, waits, waiting, times-append, waits-append, waits-keep, waiting-split, waiting-expire,
  waiting-polled,
}

module _ (x : String) where
  -- What the loop of Poll hands out of a queue, and that it leaves the queues.
  record Handed (cs : List Command) (s : Service) (r : Service × List Command) : Type 0 where
    kept : r.0.queues ≡ s.queues
    few : times x (map id_of r.1) ≤ waits x cs

  deliver-Handed :
      (io : Io) (now : ℕ) (active : Bool) (target : String) (cs : List Command) (s : Service)
      → Handed cs s (deliver io now active target cs s)
  unfolding deliver times waits
  deliver-Handed io now active target [] s = record { kept = refl; few = omega arith }
  deliver-Handed io now active target (c ∷ cs) s =
      let refusing = set_result c.grant_id c.id "BUSY" s in
      let refused = deliver io now active target cs refusing in
      let skipped = deliver io now active target cs s in
      let taken = deliver io now active target cs (receive target c s) in
      let on_refused = deliver-Handed io now active target cs refusing in
      let on_skipped = deliver-Handed io now active target cs s in
      let on_taken = deliver-Handed io now active target cs (receive target c s) in
      if-split (Handed (c ∷ cs) s) (not active || not (is_granted io c.grant_id target s.store))
        refused _ (λ e. record { kept = on_refused.kept; few = omega (arith, on_refused.few) })
        λ e.
          if-split (Handed (c ∷ cs) s) (leb c.expires now || leb 1024 (length s.delivered)) skipped
            (taken.0, handed now c ∷ taken.1)
            (λ d. record { kept = on_skipped.kept; few = omega (arith, on_skipped.few) })
            (λ d. record { kept = on_taken.kept; few = omega (arith, on_taken.few) })

  -- How many of an id are handed out or still wait, against how many were accepted.
  pub record Account (t : Traffic) : Type 0 where
    pub balance : times x t.out + waiting x t.service.queues ≤ times x t.sent

  poll-Account :
      (io : Io) (now : ℕ) (target : String) (active : Bool) (input : Option String) (t : Traffic)
      → Account t
      → Account (hand_out (poll io now target active input t.service) t)
  unfolding poll
  poll-Account io now target active input t v =
      let u = polled now target active input t.service in
      let cs = queue_of target u in
      let r = deliver io now active target cs u in
      let h = deliver-Handed io now active target cs u in
      let same : waiting x (erase target r.0.queues) ≡ waiting x (erase target u.queues) =
        ap (λ q. waiting x (erase target q)) h.kept in
      record {
        balance = omega (
          arith,
          times-append x (map id_of r.1) t.out,
          h.few,
          same,
          waiting-split x target u.queues,
          waiting-polled x now target active input t.service,
          v.balance,
        );
      }

  waiting-queued :
      (c : Command) (target : String) (s : Service)
      → waiting x (queued c target s).queues ≤ waiting x s.queues + (if str_eq c.id x then 1 else 0)
  unfolding waiting waits
  waiting-queued c target s =
      omega (arith, waits-append x (queue_of target s) (c ∷ []), waiting-split x target s.queues)

  -- The result of Send: an accepted command is queued once, and else no queue grows.
  record Sent (id : String) (s : Service) (r : Service × Option Error) : Type 0 where
    accepted :
        waiting x r.0.queues
        ≤ waiting x s.queues + elim r.1 [ none ↦ if str_eq id x then 1 else 0 | some e ↦ 0 ]

  send-Sent :
      (io : Io) (now : ℕ) (id : String) (o : Order) (s : Service) → Sent id s (send io now id o s)
  unfolding send
  send-Sent io now id o s =
      let rate = current_rate now (find_or no_rate o.grant_id s.command_rates) in
      let t = expire now (counted now o s) in
      let full : Service × Option Error =
        if leb 16 (length (queue_of o.grant_target t))
        then (t, some busy)
        else (queued (command_of now id o) o.grant_target t, none) in
      let less = waiting-expire x now (counted now o s) in
      if-split (Sent id s) (not (is_valid o s)) (s, some invalid) _
        (λ e. record { accepted = omega arith })
        λ e.
          if-split (Sent id s) (not (is_granted io o.grant_id o.grant_target s.store))
            (s, some denied) _ (λ e. record { accepted = omega arith })
            λ e.
              if-split (Sent id s) (not (within_of 5000 now (find o.grant_target s.online)))
                (s, some busy) (if leb 5 rate.count then (s, some busy) else full)
                (λ e. record { accepted = omega arith })
                λ e.
                  if-split (Sent id s) (leb 5 rate.count) (s, some busy) full
                    (λ e. record { accepted = omega arith })
                    λ e.
                      if-split (Sent id s) (leb 16 (length (queue_of o.grant_target t)))
                        (t, some busy) (queued (command_of now id o) o.grant_target t, none)
                        (λ e. record { accepted = omega (arith, less) })
                        (λ e. record {
                          accepted =
                              omega (
                                arith,
                                less,
                                waiting-queued (command_of now id o) o.grant_target t,
                              );
                        })

  accept-Account :
      (id : String) (r : Service × Option Error) (t : Traffic)
      → Sent id t.service r
      → Account t
      → Account (accept id r t)
  unfolding times
  accept-Account id (s, none) t h v = record { balance = omega (arith, h.accepted, v.balance) }
  accept-Account id (s, some e) t h v = record { balance = omega (arith, h.accepted, v.balance) }

  -- A result that adds no command.
  record NoMore {A : Type 0} (s : Service) (r : Service × A) : Type 0 where
    pub calm : waiting x r.0.queues ≤ waiting x s.queues

  acknowledge_at-NoMore :
      (v : Option Receipt) (target id status : String) (s : Service)
      → NoMore s (acknowledge_at v target id status s)
  unfolding acknowledge_at
  acknowledge_at-NoMore none target id status s = record { calm = omega arith }
  acknowledge_at-NoMore (some v) target id status s =
      let kept : Service = record s {
        delivered = erase id s.delivered;
        results = note v.grant id status s.results;
      } in
      if-split (NoMore s) (not (str_eq v.target target)) (s, some denied)
        (if not (any (str_eq status) reports) then (s, some invalid) else (kept, none))
        (λ e. record { calm = omega arith })
        λ e.
          if-split (NoMore s) (not (any (str_eq status) reports)) (s, some invalid) (kept, none)
            (λ e. record { calm = omega arith }) (λ e. record { calm = omega arith })

  acknowledge-NoMore :
      (now : ℕ) (target id status : String) (s : Service)
      → NoMore s (acknowledge now target id status s)
  unfolding acknowledge
  acknowledge-NoMore now target id status s =
      let t = expire now s in
      let r = acknowledge_at-NoMore (find id t.delivered) target id status t in
      record { calm = omega (arith, r.calm, waiting-expire x now s) }

  revoke-NoMore : (io : Io) (target id : String) (s : Service) → NoMore s (revoke io target id s)
  unfolding revoke waiting
  revoke-NoMore io target id s =
      let store = s.store in
      let cs = queue_of target s in
      let gone : Service = record s {
        store = record store { grants = erase id store.grants };
        delivered = without_grant id s.delivered;
        results = erase id s.results;
        command_rates = erase id s.command_rates;
        queues = insert target (keep (not_of id) cs) s.queues;
      } in
      if-split (NoMore s) (not (is_granted io id target store)) (s, some denied)
        (if not (io.deletes id) then (s, some storage) else (gone, none))
        (λ e. record { calm = omega arith })
        λ e.
          if-split (NoMore s) (not (io.deletes id)) (s, some storage) (gone, none)
            (λ e. record { calm = omega arith })
            λ e. record {
              calm = omega (arith, waits-keep x (not_of id) cs, waiting-split x target s.queues);
            }

  happen-Account : (t : Traffic) (e : Event) → Account t → Account (happen t e)
  unfolding happen
  happen-Account t (sends io now id o) v =
      accept-Account id (send io now id o t.service) t (send-Sent io now id o t.service) v
  happen-Account t (polls io now target active input) v =
      poll-Account io now target active input t v
  happen-Account t (acknowledges now target id status) v = record {
    balance = omega (arith, v.balance, (acknowledge-NoMore now target id status t.service).calm);
  }
  happen-Account t (revokes io target id) v = record {
    balance = omega (arith, v.balance, (revoke-NoMore io target id t.service).calm);
  }
  happen-Account t (asks now) v = record {
    balance = omega (arith, v.balance, waiting-expire x now t.service);
  }
  happen-Account t (pairs store attempts) v = record { balance = v.balance }

  after_from-Account : (t : Traffic) (es : List Event) → Account t → Account (after t es)
  unfolding after
  after_from-Account t [] v = v
  after_from-Account t (e ∷ es) v = after_from-Account (happen t e) es (happen-Account t e v)

  -- In any order of the calls, from a service with nothing queued: however often an id has been
  -- handed out by Poll or still waits in a queue, it was accepted by Send at least as often, so a
  -- command is handed out at most once.
  pub after-Account : (store : Store) (es : List Event) → Account (after (start store) es)
  unfolding times waiting
  after-Account store es = after_from-Account (start store) es (record { balance = omega arith })
