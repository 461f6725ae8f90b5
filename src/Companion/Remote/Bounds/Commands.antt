-- ===== src/Companion/Remote/Bounds/Commands.antt =====
-- remote.go and grants.go: Send, Acknowledge and Revoke, by the same bounds.
use zombiebox_gateway_core.Base.{
  ℕ, ◌≤◌, ◌≡◌, String, false, not, Option, none, some, [], ◌∷◌, arith, length, length-append, keep,
  any, length-keep-le, if◌then◌else◌, if-split, leb, str_eq,
}
use zombiebox_gateway_core.Base.Assoc.{
  find, find_or, erase, insert, length-erase-le, All-erase, All-find_or,
}
use zombiebox_gateway_core.Companion.Model.{
  Command, Receipt, Service, Error, Io, is_granted, within_of, invalid, denied, busy, storage,
}
use zombiebox_gateway_core.Companion.Remote.{
  Order, counted, current_rate, no_rate, is_valid, queue_of, queued, command_of, send,
  acknowledge_at, acknowledge, not_of, without_grant, revoke, reports,
}
use zombiebox_gateway_core.Companion.Expiry.{expire, note}
use zombiebox_gateway_core.Companion.Remote.Bounds.{
  Short, Bounded, BoundedIn, expire-Bounded, without_grant-le,
}

queued-Bounded :
    (c : Command) (target : String) (s : Service)
    → leb 16 (length (queue_of target s)) ≡ false
    → Bounded s
    → Bounded (queued c target s)
queued-Bounded c target s room b = record {
  queues = (
    ground (arith, length-append (queue_of target s) (c ∷ []), room),
    All-erase Short target s.queues b.queues,
  );
  delivered = b.delivered;
  present = b.present;
}

pub send-Bounded :
    (io : Io) (now : ℕ) (id : String) (o : Order) (s : Service)
    → Bounded s
    → Bounded (send io now id o s).0
unfolding send
send-Bounded io now id o s b =
    let rate = current_rate now (find_or no_rate o.grant_id s.command_rates) in
    let t = expire now (counted now o s) in
    let v =
      expire-Bounded now (counted now o s)
        (record { queues = b.queues; delivered = b.delivered; present = b.present }) in
    let full : Service × Option Error =
      if leb 16 (length (queue_of o.grant_target t))
      then (t, some busy)
      else (queued (command_of now id o) o.grant_target t, none) in
    let same : BoundedIn (s, some busy) = record { held = b } in
    let r : BoundedIn (send io now id o s) =
      if-split BoundedIn (not (is_valid o s)) (s, some invalid) _ (λ e. record { held = b })
        λ e.
          if-split BoundedIn (not (is_granted io o.grant_id o.grant_target s.store))
            (s, some denied) _ (λ e. record { held = b })
            λ e.
              if-split BoundedIn (not (within_of 5000 now (find o.grant_target s.online)))
                (s, some busy) (if leb 5 rate.count then (s, some busy) else full) (λ e. same)
                λ e.
                  if-split BoundedIn (leb 5 rate.count) (s, some busy) full (λ e. same)
                    λ e.
                      if-split BoundedIn (leb 16 (length (queue_of o.grant_target t)))
                        (t, some busy) (queued (command_of now id o) o.grant_target t, none)
                        (λ e. record { held = v })
                        (λ e. record { held = queued-Bounded _ o.grant_target t e v }) in
    r.held

acknowledge_at-Bounded :
    (v : Option Receipt) (target id status : String) (s : Service)
    → Bounded s
    → BoundedIn (acknowledge_at v target id status s)
unfolding acknowledge_at
acknowledge_at-Bounded none target id status s b = record { held = b }
acknowledge_at-Bounded (some v) target id status s b =
    let kept : Service = record s {
      delivered = erase id s.delivered;
      results = note v.grant id status s.results;
    } in
    if-split BoundedIn (not (str_eq v.target target)) (s, some denied)
      (if not (any (str_eq status) reports) then (s, some invalid) else (kept, none))
      (λ e. record { held = b })
      λ e.
        if-split BoundedIn (not (any (str_eq status) reports)) (s, some invalid) (kept, none)
          (λ e. record { held = b })
          λ e. record {
            held = record {
              queues = b.queues;
              delivered = omega (arith, length-erase-le id s.delivered, b.delivered);
              present = b.present;
            };
          }

pub acknowledge-Bounded :
    (now : ℕ) (target id status : String) (s : Service)
    → Bounded s
    → Bounded (acknowledge now target id status s).0
unfolding acknowledge
acknowledge-Bounded now target id status s b =
    let t = expire now s in
    (acknowledge_at-Bounded (find id t.delivered) target id status t (expire-Bounded now s b)).held

pub revoke-Bounded :
    (io : Io) (target id : String) (s : Service) → Bounded s → Bounded (revoke io target id s).0
unfolding revoke
revoke-Bounded io target id s b =
    let store = s.store in
    let cs = queue_of target s in
    let gone : Service = record s {
      store = record store { grants = erase id store.grants };
      delivered = without_grant id s.delivered;
      results = erase id s.results;
      command_rates = erase id s.command_rates;
      queues = insert target (keep (not_of id) cs) s.queues;
    } in
    let short : length cs ≤ 16 = All-find_or Short [] target s.queues (omega arith) b.queues in
    let r : BoundedIn (revoke io target id s) =
      if-split BoundedIn (not (is_granted io id target store)) (s, some denied)
        (if not (io.deletes id) then (s, some storage) else (gone, none)) (λ e. record { held = b })
        λ e.
          if-split BoundedIn (not (io.deletes id)) (s, some storage) (gone, none)
            (λ e. record { held = b })
            λ e. record {
              held = record {
                queues = (
                  omega (arith, length-keep-le (not_of id) cs, short),
                  All-erase Short target s.queues b.queues,
                );
                delivered = omega (arith, without_grant-le id s.delivered, b.delivered);
                present = b.present;
              };
            } in
    r.held
