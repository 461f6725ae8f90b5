-- ===== src/Companion/Joining.antt =====
-- pairing.go: Join, the request of a phone.
use zombiebox_gateway_core.Base.{
  ℕ, suc, ◌+◌, String, Bool, true, false, not, ◌&&◌, ◌||◌, Option, none, some, [], ◌∷◌, length, any,
  if◌then◌else◌, leb, ltb, str_eq, ◌==◌,
}
use zombiebox_gateway_core.Base.Assoc.{Assoc, find_or, insert}
use zombiebox_gateway_core.Base.Text.{trim_space, byte_length}
use zombiebox_gateway_core.Companion.Model.{
  Text, Invitation, Request, Grant, Rate, Service, Error, denied, busy, invalid, storage, Io,
  valid_hex, Reply, ok, refuse,
}
use zombiebox_gateway_core.Companion.Pairing.{cleanup, without_hashes}
use zombiebox_gateway_core.Companion.Onboarding.{Join, join_target, blocked}

pub is_name : Text → Bool
unfolding byte_length
is_name name = not (length name == 0) && leb (byte_length name) 80 && not (any (λ c. ltb c 32) name)

pub running : ℕ → Assoc Rate → Assoc Rate
running now [] = []
running now ((k, r) ∷ l) =
    let rest = running now l in if ltb now r.until then (k, r) ∷ rest else rest

abbrev pub no_rate : Rate
no_rate = record { count = 0; until = 0 }

-- The random texts of one call.
pub record JoinDraws : Type 0 where
  pub token : String
  pub id : String
  pub comparison : String

abbrev pub set_requests : Assoc Request → Service → Service
set_requests l s = let store = s.store in record s { store = record store { requests = l } }

-- The pending requests for a television, and whether one is of the same phone.
pub pending_count : String → Assoc Request → ℕ
pending_count target [] = 0
pending_count target ((k, r) ∷ l) =
    let rest = pending_count target l in
    if str_eq r.target_id target && str_eq r.state "PENDING" then suc rest else rest

pub asks_twice : String → String → String → Assoc Request → Bool
asks_twice target client origin [] = false
asks_twice target client origin ((k, r) ∷ l) =
    (str_eq r.target_id target
      && str_eq r.state "PENDING"
      && (str_eq r.origin_hash origin || (not (str_eq client "") && str_eq r.client_hash client)))
    || asks_twice target client origin l

-- Two minutes, or less where the invitation ends before; the zero time is no end.
pub request_end : ℕ → Invitation → ℕ
request_end now v =
    if not (v.expires == 0) && ltb v.expires (now + 120000) then v.expires else now + 120000

-- The write of a request, with the used invitation and the grant of a secret.
unfoldable pub put_joined : ℕ → Invitation → Bool → Request → Service → Service
put_joined now v consent r s =
    let store = s.store in
    let grant : Grant = record {
      id = r.id;
      target_id = v.target_id;
      target_name = v.target_name;
      name = r.name;
      token_hash = r.token_hash;
      created = now;
    } in
    record s {
      store = record store {
        invitations =
            if str_eq v.id ""
            then store.invitations
            else insert v.id (record v { used = true }) store.invitations;
        grants = if consent then insert grant.id grant store.grants else store.grants;
        requests = insert r.id r store.requests;
      };
    }

-- Each address has five attempts a minute, and 128 addresses are counted.
unfoldable pub counted_join : ℕ → String → Service → Service
unfolding running
counted_join now ip s =
    let attempts = running now s.attempts in
    let rate : Rate = record {
      count = suc (find_or no_rate ip attempts).count;
      until = now + 60000;
    } in
    record s { attempts = insert ip rate attempts }

module _ (digest : String → String) where
  abbrev pub request_of : ℕ → JoinDraws → Text → String → String → Invitation → Bool → Request
  request_of now d name client ip v consent = record {
    id = d.id;
    target_id = v.target_id;
    name = name;
    comparison = d.comparison;
    state = if consent then "APPROVED" else "PENDING";
    expires = request_end now v;
    token_hash = digest d.token;
    client_hash = client;
    origin_hash = digest ip;
  }

  -- The end of the method.
  unfoldable pub admit :
      Io
      → ℕ
      → JoinDraws
      → Text
      → String
      → String
      → Invitation
      → Bool
      → Service
      → Service × Reply (Request × String)
  unfolding put_joined request_end
  admit io now d name client ip v consent s =
      let r = request_of now d name client ip v consent in
      if consent && not (io.lists "companion-grants")
      then (s, refuse storage)
      else if consent && leb 128 (length s.store.grants)
      then (s, refuse busy)
      else if not io.puts
      then (s, refuse storage)
      else (put_joined now v consent r s, ok (without_hashes r, d.token))

  -- Without the secret of an invitation the television must not have ignored the phone, and few
  -- requests may be pending.
  pub may_ask : Io → ℕ → String → String → String → Service → Option Error
  unfolding blocked asks_twice pending_count
  may_ask io now target client origin s = elim (blocked digest io now target client origin s) [
    | refuse e ↦ some e
    | ok true ↦ some denied
    | ok false ↦
        if asks_twice target client origin s.store.requests
        then some busy
        else if leb 4 (pending_count target s.store.requests)
        then some busy
        else none
  ]

  unfoldable pub admit_if :
      Option Error
      → Io
      → ℕ
      → JoinDraws
      → Text
      → String
      → String
      → Invitation
      → Bool
      → Service
      → Service × Reply (Request × String)
  unfolding admit
  admit_if (some e) io now d name client ip v consent s = (s, refuse e)
  admit_if none io now d name client ip v consent s = admit io now d name client ip v consent s

  unfoldable pub join_with :
      Reply (Invitation × Bool)
      → Io
      → ℕ
      → JoinDraws
      → Text
      → String
      → Join
      → Service
      → Service × Reply (Request × String)
  unfolding valid_hex may_ask admit_if
  join_with (refuse e) io now d name ip j s = (s, refuse e)
  join_with (ok (v, consent)) io now d name ip j s =
      let client = if str_eq j.client_key "" then "" else digest j.client_key in
      let trouble = if consent then none else may_ask io now v.target_id client (digest ip) s in
      if not (str_eq j.client_key "") && not (valid_hex j.client_key 64)
      then (s, refuse invalid)
      else admit_if trouble io now d name client ip v consent s

  unfoldable pub join_counted :
      Io → ℕ → JoinDraws → Text → String → Join → Service → Service × Reply (Request × String)
  unfolding cleanup join_target join_with
  join_counted io now d name ip j s =
      let (l, fine) = cleanup (λ r. r.expires) io.deletes now s.store.requests in
      let t = set_requests l s in
      if not (io.lists "companion-requests")
      then (s, refuse storage)
      else if not fine
      then (t, refuse storage)
      else if leb 64 (length l)
      then (t, refuse busy)
      else join_with (join_target io now j t) io now d name ip j t

  unfoldable pub join :
      Io → ℕ → JoinDraws → String → Join → Service → Service × Reply (Request × String)
  unfolding trim_space is_name running counted_join join_counted
  join io now d ip j s =
      let name = trim_space j.name in
      let attempts = running now s.attempts in
      if not (is_name name)
      then (s, refuse invalid)
      else if leb 5 (find_or no_rate ip attempts).count || leb 128 (length attempts)
      then (record s { attempts = attempts }, refuse busy)
      else join_counted io now d name ip j (counted_join now ip s)
