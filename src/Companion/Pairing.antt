-- ===== src/Companion/Pairing.antt =====
-- pairing.go and onboarding.go: invitations, and what a television decides on a request.
-- Records are kept under their own id, and what the store holds decodes.
use zombiebox_gateway_core.Base.{
  ℕ, ◌+◌, String, Bool, true, false, not, ◌&&◌, ◌||◌, Option, none, some, List, [], ◌∷◌, ◌++◌,
  length, if◌then◌else◌, leb, ltb, str_eq, take,
}
use Prim.Native.String.{◌++◌ as join}
use zombiebox_gateway_core.Base.Assoc.{Assoc, find, insert}
use zombiebox_gateway_core.Companion.Model.{
  Text, Invitation, Request, Grant, Block, Service, denied, expired, busy, storage, Io, valid_hex,
  Reply, ok, refuse,
}

-- What is left of a bucket, and whether every deletion succeeded: the first that fails ends it.
unfoldable pub cleanup {ℓ} : {V : Type ℓ} → (V → ℕ) → (String → Bool) → ℕ → Assoc V → Assoc V × Bool
cleanup expires deletes now [] = ([], true)
cleanup expires deletes now ((k, v) ∷ l) =
    let (rest, fine) = cleanup expires deletes now l in
    if ltb now (expires v)
    then ((k, v) ∷ rest, fine)
    else if deletes k
    then (rest, fine)
    else ((k, v) ∷ l, false)

abbrev pub set_invitations : Assoc Invitation → Service → Service
set_invitations l s = let store = s.store in record s { store = record store { invitations = l } }

-- The open invitation of a television.
pub open_for : String → Assoc Invitation → Option Invitation
open_for target [] = none
open_for target ((k, v) ∷ l) =
    let rest = open_for target l in if str_eq v.target_id target && not v.used then some v else rest

abbrev pub has_code : String → Assoc Invitation → Bool
has_code code [] = false
has_code code ((k, v) ∷ l) = str_eq v.code code || has_code code l

-- The first code that no invitation has.
pub new_code : List String → Assoc Invitation → Option String
new_code [] l = none
new_code (code ∷ codes) l =
    let rest = new_code codes l in if has_code code l then rest else some code

-- The random texts of one call: ids, secrets, and the codes that shortCode draws.
pub record Draws : Type 0 where
  pub id : String
  pub secret : String
  pub codes : List String

-- Five minutes.
abbrev pub invitation_of : ℕ → Draws → String → Text → String → Invitation
invitation_of now d target name code = record {
  id = d.id;
  target_id = target;
  target_name = name;
  secret = d.secret;
  code = code;
  expires = now + 300000;
  used = false;
  auto_approve = true;
}

invite_with : Io → ℕ → Draws → String → Text → Option String → Service → Service × Reply Invitation
invite_with io now d target name none s = (s, refuse busy)
invite_with io now d target name (some code) s =
    let v = invitation_of now d target name code in
    if not io.puts
    then (s, refuse storage)
    else (set_invitations (insert v.id v s.store.invitations) s, ok v)

invite_new :
    Io → ℕ → Draws → String → Text → Option Invitation → Service → Service × Reply Invitation
unfolding new_code invite_with
invite_new io now d target name (some old) s = (s, ok old)
invite_new io now d target name none s =
    if leb 64 (length s.store.invitations)
    then (s, refuse busy)
    else invite_with io now d target name (new_code (take 32 d.codes) s.store.invitations) s

unfoldable pub invite : Io → ℕ → Draws → String → Text → Service → Service × Reply Invitation
unfolding cleanup open_for invite_new
invite io now d target name s =
    let (l, fine) = cleanup (λ v. v.expires) io.deletes now s.store.invitations in
    let t = set_invitations l s in
    if not (io.lists "companion-invitations")
    then (s, refuse storage)
    else if not fine
    then (t, refuse storage)
    else invite_new io now d target name (open_for target l) t

abbrev pub without_hashes : Request → Request
without_hashes r = record r { token_hash = ""; client_hash = ""; origin_hash = "" }

-- `digest` is SHA-256 in hexadecimal digits.
module _ (digest : String → String) where
  request_at : ℕ → String → Option Request → Reply Request
  request_at now token none = refuse denied
  request_at now token (some r) =
      if not (str_eq r.token_hash (digest token))
      then refuse denied
      else (if leb r.expires now then refuse expired else ok (without_hashes r))

  unfoldable pub request_status : Io → ℕ → String → String → Service → Reply Request
  unfolding valid_hex request_at
  request_status io now id token s =
      if not (valid_hex id 32) || not (valid_hex token 64) || not (io.gets "companion-requests" id)
      then refuse denied
      else request_at now token (find id s.store.requests)

  grant_at : String → Option Grant → Reply Grant
  grant_at token none = refuse denied
  grant_at token (some g) =
      if not (str_eq g.token_hash (digest token))
      then refuse denied
      else ok (record g { token_hash = "" })

  unfoldable pub authenticate : Io → String → String → Service → Reply Grant
  unfolding valid_hex grant_at
  authenticate io id token s =
      if not (valid_hex id 32) || not (valid_hex token 64) || not (io.gets "companion-grants" id)
      then refuse denied
      else grant_at token (find id s.store.grants)

  unfoldable pub block_id : String → String → String → String
  block_id target kind hash = digest (join target (join ":" (join kind (join ":" hash))))

  -- A day. A request without a client has one block, and so has one without an origin.
  unfoldable pub blocks_of : ℕ → Request → List Block
  unfolding block_id
  blocks_of now r =
      let block : String → String → Block =
        λ kind hash. record { id = block_id r.target_id kind hash; expires = now + 86400000 } in
      let client : List Block =
        if str_eq r.client_hash "" then [] else block "client" r.client_hash ∷ [] in
      let origin : List Block =
        if str_eq r.origin_hash "" then [] else block "origin" r.origin_hash ∷ [] in
      client ++ origin

abbrev pub is_pending : ℕ → String → Request → Bool
is_pending now target r = str_eq r.target_id target && str_eq r.state "PENDING" && ltb now r.expires

pub pending_in : ℕ → String → Assoc Request → List Request
pending_in now target [] = []
pending_in now target ((k, r) ∷ l) =
    let rest = pending_in now target l in
    if is_pending now target r then without_hashes r ∷ rest else rest

unfoldable pub pending : Io → ℕ → String → Service → Reply (List Request)
unfolding pending_in
pending io now target s =
    if not (io.lists "companion-requests")
    then refuse storage
    else ok (pending_in now target s.store.requests)

pub grants_in : String → Assoc Grant → List Grant
grants_in target [] = []
grants_in target ((k, g) ∷ l) =
    let rest = grants_in target l in
    if str_eq g.target_id target then record g { token_hash = "" } ∷ rest else rest

unfoldable pub grants_of : Io → String → Service → Reply (List Grant)
unfolding grants_in
grants_of io target s =
    if not (io.lists "companion-grants")
    then refuse storage
    else ok (grants_in target s.store.grants)
