-- ===== src/Companion/Remote/Bounds.antt =====
-- remote.go: how many commands, receipts and televisions the service holds.
pub mod Commands
use zombiebox_gateway_core.Base.{
  ℕ, ◌+◌, ◌≤◌, ◌<◌, ◌≡◌, refl, sym, ap, ◌∙◌, inl, inr, String, Bool, true, false, not, ◌||◌, ◌&&◌,
  Option, none, some, List, [], ◌∷◌, ◌++◌, arith, length, length-append, keep, length-keep-le, All,
  if◌then◌else◌, if-split, Bool-cases, leb, ltb, leb→le, ltb→lt, Option-cases, str_eq, ◌==◌,
}
use zombiebox_gateway_core.Base.Assoc.{
  Assoc, find, find_or, erase, insert, length-erase-le, length-erase-lt, All-erase, All-find_or,
}
use zombiebox_gateway_core.Companion.Model.{
  Command, Receipt, Service, Store, Error, Io, is_granted, within_of, invalid, denied, busy,
  storage, new,
}
use zombiebox_gateway_core.Companion.Remote.{
  Order, counted, current_rate, no_rate, is_valid, queue_of, queued, command_of, send,
  text_inputs_at, polled, recent, seen, is_present, set_result, receive, deliver, handed, poll,
  acknowledge_at, acknowledge, remote_status, not_of, without_grant, revoke,
}
use zombiebox_gateway_core.Companion.Expiry.{is_fresh, fresh_queues, fresh_delivered, expire}

abbrev pub Short : List Command → Type 0
Short cs = length cs ≤ 16

pub record Bounded (s : Service) : Type 0 where
  pub queues : All (λ e. Short e.1) s.queues
  pub delivered : length s.delivered ≤ 1024
  pub present : length s.present ≤ 128

fresh_queues-Short :
    (now : ℕ) (l : Assoc (List Command))
    → All (λ e. Short e.1) l
    → All (λ e. Short e.1) (fresh_queues now l)
unfolding fresh_queues
fresh_queues-Short now [] a = tt
fresh_queues-Short now ((t, cs) ∷ l) a =
    if-split (All (λ e. Short e.1)) (length (keep (is_fresh now) cs) == 0) (fresh_queues now l)
      ((t, keep (is_fresh now) cs) ∷ fresh_queues now l) (λ e. fresh_queues-Short now l a.1)
      (λ e. (omega (arith, length-keep-le (is_fresh now) cs, a.0), fresh_queues-Short now l a.1))

fresh_delivered-le : (now : ℕ) (l : Assoc Receipt) → length (fresh_delivered now l) ≤ length l
unfolding fresh_delivered
fresh_delivered-le now [] = omega arith
fresh_delivered-le now ((id, v) ∷ l) = ground (arith, fresh_delivered-le now l)

recent-le : (now : ℕ) (l : Assoc ℕ) → length (recent now l) ≤ length l
unfolding recent
recent-le now [] = omega arith
recent-le now ((id, v) ∷ l) = ground (arith, recent-le now l)

pub without_grant-le : (g : String) (l : Assoc Receipt) → length (without_grant g l) ≤ length l
unfolding without_grant
without_grant-le g [] = omega arith
without_grant-le g ((id, v) ∷ l) = ground (arith, without_grant-le g l)

pub expire-Bounded : (now : ℕ) (s : Service) → Bounded s → Bounded (expire now s)
unfolding expire
expire-Bounded now s b = record {
  queues = fresh_queues-Short now s.queues b.queues;
  delivered = omega (arith, fresh_delivered-le now s.delivered, b.delivered);
  present = b.present;
}

is_present-some : (k : String) (l : Assoc ℕ) → is_present k l ≡ true → (t : ℕ) × (find k l ≡ some t)
is_present-some k l h = elim (Option-cases (find k l)) [
  | inl e ↦ absurd (ground (arith, h, e))
  | inr e ↦ e
]

insert-le :
    (now : ℕ) (k : String) (l : Assoc ℕ)
    → (ltb (length l) 128 || is_present k l) ≡ true
    → length l ≤ 128
    → length (insert k now l) ≤ 128
insert-le now k l h le = elim (Bool-cases (ltb (length l) 128)) [
  | inl e ↦ omega (arith, ltb→lt (length l) 128 e, length-erase-le k l)
  | inr e ↦
      let (t, p) = is_present-some k l (ground (arith, h, e)) in
      omega (arith, length-erase-lt k t l p, le)
]

seen-Bounded : (now : ℕ) (target : String) (s : Service) → Bounded s → Bounded (seen now target s)
unfolding seen
seen-Bounded now target s b = record {
  queues = b.queues;
  delivered = b.delivered;
  present =
      let l = recent now s.present in
      let le : length l ≤ 128 = omega (arith, recent-le now s.present, b.present) in
      if-split (λ m. length m ≤ 128) (ltb (length l) 128 || is_present target l)
        (insert target now l) l (λ e. insert-le now target l e le) (λ e. le);
}

polled-Bounded :
    (now : ℕ) (target : String) (active : Bool) (input : Option String) (s : Service)
    → Bounded s
    → Bounded (polled now target active input s)
unfolding polled
polled-Bounded now target active input s b =
    let inputs = text_inputs_at active target input s.text_inputs in
    let u : Service = record s { text_inputs = inputs } in
    let v = seen-Bounded now target (expire now u) (
      expire-Bounded now u
        (record { queues = b.queues; delivered = b.delivered; present = b.present })) in
    record { queues = v.queues; delivered = v.delivered; present = v.present }

receive-Bounded :
    (target : String) (c : Command) (s : Service)
    → leb 1024 (length s.delivered) ≡ false
    → Bounded s
    → Bounded (receive target c s)
receive-Bounded target c s room b = record {
  queues = b.queues;
  delivered = ground (arith, length-erase-le c.id s.delivered, room);
  present = b.present;
}

-- The service of a result is bounded.
pub record BoundedIn {A : Type 0} (r : Service × A) : Type 0 where
  pub held : Bounded r.0

deliver-Bounded :
    (io : Io) (now : ℕ) (active : Bool) (target : String) (cs : List Command) (s : Service)
    → Bounded s
    → BoundedIn (deliver io now active target cs s)
unfolding deliver
deliver-Bounded io now active target [] s b = record { held = b }
deliver-Bounded io now active target (c ∷ cs) s b =
    let taken = deliver io now active target cs (receive target c s) in
    let skipped = deliver io now active target cs s in
    if-split BoundedIn (not active || not (is_granted io c.grant_id target s.store))
      (deliver io now active target cs (set_result c.grant_id c.id "BUSY" s)) _
      (λ e.
        deliver-Bounded io now active target cs (set_result c.grant_id c.id "BUSY" s)
          (record { queues = b.queues; delivered = b.delivered; present = b.present }))
      λ e.
        if-split BoundedIn (leb c.expires now || leb 1024 (length s.delivered)) skipped
          (taken.0, handed now c ∷ taken.1) (λ d. deliver-Bounded io now active target cs s b)
          λ d. record {
            held =
                (deliver-Bounded io now active target cs (receive target c s)
                  (receive-Bounded target c s (ground (arith, d)) b)).held;
          }

pub poll-Bounded :
    (io : Io) (now : ℕ) (target : String) (active : Bool) (input : Option String) (s : Service)
    → Bounded s
    → Bounded (poll io now target active input s).0
unfolding poll
poll-Bounded io now target active input s b =
    let t = polled now target active input s in
    let v =
      deliver-Bounded io now active target (queue_of target t) t
        (polled-Bounded now target active input s b) in
    let w = v.held in
    record {
      queues = All-erase Short target _ w.queues;
      delivered = w.delivered;
      present = w.present;
    }
