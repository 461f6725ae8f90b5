-- ===== src/Companion/Onboarding.antt =====
-- onboarding.go and grants.go: the televisions that a phone may ask, and what it asks with.
use zombiebox_gateway_core.Base.{
  ℕ, ◌+◌, String, Bool, true, false, not, ◌&&◌, ◌||◌, Option, none, some, List, [], ◌∷◌, ◌++◌,
  length, all, if◌then◌else◌, leb, ltb, str_eq, ◌==◌, take,
}
use Prim.Native.String.{◌++◌ as join}
use zombiebox_gateway_core.Base.Assoc.{Assoc, find}
use zombiebox_gateway_core.Base.Text.{codes, is_digit, same, trim_space, byte_length}
use zombiebox_gateway_core.Companion.Model.{
  Text, Invitation, Grant, Block, Service, denied, expired, busy, invalid, storage, Io, valid_hex,
  within_of, Reply, ok, refuse,
}
use zombiebox_gateway_core.Companion.Pairing.{block_id}

is_id_char : ℕ → Bool
unfolding is_digit
is_id_char c =
    is_digit c || (leb b'a' c && leb c b'z') || (leb b'A' c && leb c b'Z') || c == b'_' || c == b'-'

-- `^[A-Za-z0-9_-]{8,80}$`
pub is_target_id : String → Bool
unfolding is_id_char
is_target_id id = let cs = codes id in leb 8 (length cs) && leb (length cs) 80 && all is_id_char cs

-- A name of at most 120 code points.
pub target_name : Text × Text → Text
unfolding trim_space
target_name (manufacturer, model) =
    let name = trim_space (manufacturer ++ b' ' ∷ model) in
    if length name == 0 then codes "Zombie Box TV" else take 120 name

pub record PairingTarget : Type 0 where
  pub id : String
  pub name : Text

-- `<` on texts.
less : Text → Text → Bool
less xs [] = false
less [] (y ∷ ys) = true
less (x ∷ xs) (y ∷ ys) = let rest = less xs ys in if x == y then rest else ltb x y

before_target : PairingTarget → PairingTarget → Bool
unfolding less
before_target a b =
    if same a.name b.name then less (codes a.id) (codes b.id) else less a.name b.name

put_target : PairingTarget → List PairingTarget → List PairingTarget
unfolding before_target
put_target a [] = a ∷ []
put_target a (b ∷ l) =
    let rest = put_target a l in if before_target a b then a ∷ b ∷ l else b ∷ rest

device_target : Io → String → Option (Text × Text) → List PairingTarget → List PairingTarget
unfolding target_name put_target
device_target io id none l = l
device_target io id (some d) l =
    if io.gets "devices" id then put_target (record { id = id; name = target_name d }) l else l

-- The ids of the map are all different, so the order is the only one.
sorted_targets : Io → ℕ → Assoc ℕ → Assoc (Text × Text) → List PairingTarget
unfolding device_target
sorted_targets io now [] devices = []
sorted_targets io now ((id, seen) ∷ l) devices =
    let rest = sorted_targets io now l devices in
    if leb now (seen + 15000) then device_target io id (find id devices) rest else rest

unfoldable pub targets : Io → ℕ → Service → List PairingTarget
unfolding sorted_targets
targets io now s = take 32 (sorted_targets io now s.present s.store.devices)

-- `hmac` is HMAC-SHA-256 of a text under a key, in hexadecimal digits.
proof_at : (String → String → String) → String → String → Option Grant → Reply String
proof_at hmac id nonce none = refuse denied
proof_at hmac id nonce (some g) =
    ok (hmac g.token_hash (join "zombie-companion-v1\n" (join id (join "\n" nonce))))

unfoldable pub proof : (String → String → String) → Io → String → String → Service → Reply String
unfolding proof_at valid_hex
proof hmac io id nonce s =
    if not (valid_hex id 32) || not (valid_hex nonce 32)
    then refuse denied
    else if not (io.gets "companion-grants" id)
    then refuse denied
    else proof_at hmac id nonce (find id s.store.grants)

pub record Join : Type 0 where
  pub target_id : String
  pub client_key : String
  pub invitation_id : String
  pub secret : String
  pub code : String
  pub name : Text

-- The invitation that a television without one stands for.
abbrev pub direct : String → Text × Text → Invitation
direct target d = record {
  id = "";
  target_id = target;
  target_name = target_name d;
  secret = "";
  code = "";
  expires = 0;
  used = false;
  auto_approve = false;
}

unfoldable pub direct_at : String → Option (Text × Text) → Reply (Invitation × Bool)
direct_at target none = refuse busy
direct_at target (some d) = ok (direct target d, false)

-- An invitation, and whether it came by its secret.
unfoldable pub usable : ℕ → Bool → Invitation → Reply (Invitation × Bool)
usable now qr v =
    if str_eq v.id "" || v.used || leb v.expires now
    then refuse expired
    else ok (v, qr && v.auto_approve)

unfoldable pub by_secret : ℕ → String → Option Invitation → Reply (Invitation × Bool)
unfolding usable
by_secret now secret none = refuse denied
by_secret now secret (some v) =
    if not (str_eq v.secret secret) then refuse denied else usable now true v

-- The first invitation with the code that has not expired.
pub with_code : ℕ → String → Assoc Invitation → Option Invitation
with_code now code [] = none
with_code now code ((k, v) ∷ l) =
    let rest = with_code now code l in
    if str_eq v.code code && ltb now v.expires then some v else rest

unfoldable pub by_code : ℕ → Option Invitation → Reply (Invitation × Bool)
unfolding usable
by_code now none = refuse expired
by_code now (some v) = usable now false v

-- The three ways to name a television: its id, the secret of an invitation, or a code.
unfoldable pub join_direct : Io → ℕ → Join → Service → Reply (Invitation × Bool)
unfolding is_target_id valid_hex direct_at
join_direct io now j s =
    if not (str_eq j.invitation_id "")
      || not (str_eq j.secret "")
      || not (str_eq j.code "")
      || not (is_target_id j.target_id)
      || not (valid_hex j.client_key 64)
    then refuse invalid
    else if not (within_of 15000 now (find j.target_id s.present))
        || not (io.gets "devices" j.target_id)
    then refuse busy
    else direct_at j.target_id (find j.target_id s.store.devices)

unfoldable pub join_secret : Io → ℕ → Join → Service → Reply (Invitation × Bool)
unfolding valid_hex by_secret
join_secret io now j s =
    if not (str_eq j.code "")
      || not (valid_hex j.invitation_id 32)
      || not (valid_hex j.secret 64)
      || not (io.gets "companion-invitations" j.invitation_id)
    then refuse denied
    else by_secret now j.secret (find j.invitation_id s.store.invitations)

unfoldable pub join_code : Io → ℕ → Join → Service → Reply (Invitation × Bool)
unfolding with_code by_code
join_code io now j s =
    if not (byte_length (codes j.code) == 6) || not (str_eq j.secret "")
    then refuse denied
    else if not (io.lists "companion-invitations")
    then refuse storage
    else by_code now (with_code now j.code s.store.invitations)

unfoldable pub join_target : Io → ℕ → Join → Service → Reply (Invitation × Bool)
unfolding join_direct join_secret join_code
join_target io now j s =
    if not (str_eq j.target_id "")
    then join_direct io now j s
    else if not (str_eq j.invitation_id "")
    then join_secret io now j s
    else join_code io now j s

-- `digest` is SHA-256 in hexadecimal digits.
module _ (digest : String → String) where
  blocked_in : ℕ → String → String → String → Assoc Block → Bool
  unfolding block_id
  blocked_in now target client origin [] = false
  blocked_in now target client origin ((k, b) ∷ l) =
      (ltb now b.expires
        && (str_eq b.id (block_id digest target "origin" origin)
            || (not (str_eq client "") && str_eq b.id (block_id digest target "client" client))))
      || blocked_in now target client origin l

  unfoldable pub blocked : Io → ℕ → String → String → String → Service → Reply Bool
  unfolding blocked_in
  blocked io now target client origin s =
      if not (io.lists "companion-blocks")
      then refuse storage
      else ok (blocked_in now target client origin s.store.blocks)
