-- ===== src/Companion/Remote/Authorized.antt =====
-- remote.go: whose commands Poll hands out.
use zombiebox_gateway_core.Base.{
  ℕ, ◌+◌, ◌<◌, ◌≡◌, refl, String, Bool, true, not, ◌||◌, Option, List, [], ◌∷◌, arith, length, All,
  if-split, leb,
}
use zombiebox_gateway_core.Companion.Model.{Command, Service, Store, Io, is_granted}
use zombiebox_gateway_core.Companion.Expiry.{expire}
use zombiebox_gateway_core.Companion.Remote.{
  queue_of, polled, seen, set_result, receive, deliver, handed, poll,
}

-- The television asks for commands, the grant is in the store for it, and the time is not over.
pub record Authorized (io : Io) (now : ℕ) (active : Bool) (target : String) (store : Store)
    (c : Command) : Type 0 where
  pub asked : active ≡ true
  pub granted : is_granted io c.grant_id target store ≡ true
  pub in_time : now < c.expires
  pub rest : c.expires ≡ now + c.remaining_ms

module _ (io : Io) (now : ℕ) (active : Bool) (target : String) where
  record AllAuthorized (store : Store) (r : Service × List Command) : Type 0 where
    store_kept : r.0.store ≡ store
    all_out : All (Authorized io now active target store) r.1

  deliver-Authorized :
      (cs : List Command) (s : Service) → AllAuthorized s.store (deliver io now active target cs s)
  unfolding deliver
  deliver-Authorized [] s = record { store_kept = refl; all_out = tt }
  deliver-Authorized (c ∷ cs) s =
      let refusing = set_result c.grant_id c.id "BUSY" s in
      let skipped = deliver io now active target cs s in
      let taken = deliver io now active target cs (receive target c s) in
      let on_taken = deliver-Authorized cs (receive target c s) in
      if-split (AllAuthorized s.store) (not active || not (is_granted io c.grant_id target s.store))
        (deliver io now active target cs refusing) _ (λ e. deliver-Authorized cs refusing)
        λ e.
          if-split (AllAuthorized s.store) (leb c.expires now || leb 1024 (length s.delivered))
            skipped (taken.0, handed now c ∷ taken.1) (λ d. deliver-Authorized cs s)
            λ d. record {
              store_kept = on_taken.store_kept;
              all_out = (
                record {
                  asked = ground (arith, e);
                  granted = ground (arith, e);
                  in_time = ground (arith, d);
                  rest = ground (arith, d);
                },
                on_taken.all_out,
              );
            }

-- Every command that Poll hands out belongs to a grant that the store holds for this television
-- at that moment, has not expired, is handed out with the time that it has left, and goes to a
-- television that asked for commands; the store is not changed.
pub poll-Authorized :
    (io : Io) (now : ℕ) (target : String) (active : Bool) (input : Option String) (s : Service)
    → ((poll io now target active input s).0.store ≡ s.store)
      × All (Authorized io now active target s.store) (poll io now target active input s).1
unfolding poll polled seen expire
poll-Authorized io now target active input s =
    let t = polled now target active input s in
    let r = deliver-Authorized io now active target (queue_of target t) t in
    (r.store_kept, r.all_out)
