-- ===== src/Companion/Decide.antt =====
-- pairing.go: Decide, the answer of a television to a request.
use zombiebox_gateway_core.Base.{
  ℕ, String, Bool, not, ◌||◌, Option, none, some, List, [], ◌∷◌, length, if◌then◌else◌, leb, ltb,
  str_eq,
}
use zombiebox_gateway_core.Base.Assoc.{Assoc, find, insert}
use zombiebox_gateway_core.Companion.Model.{
  Text, Request, Grant, Block, Service, Error, denied, expired, busy, storage, Io, valid_hex,
}
use zombiebox_gateway_core.Companion.Pairing.{cleanup, blocks_of}

abbrev pub put_blocks : List Block → Assoc Block → Assoc Block
put_blocks [] l = l
put_blocks (b ∷ bs) l = put_blocks bs (insert b.id b l)

abbrev pub set_blocks : Assoc Block → Service → Service
set_blocks l s = let store = s.store in record s { store = record store { blocks = l } }

abbrev pub grant_of : ℕ → String → Text → Request → Grant
grant_of now target name r = record {
  id = r.id;
  target_id = target;
  target_name = name;
  name = r.name;
  token_hash = r.token_hash;
  created = now;
}

-- One write of the decided request, with a grant or with blocks.
unfoldable pub put_decided : Request → Option Grant → List Block → Service → Service
put_decided r grant bs s =
    let store = s.store in
    record s {
      store = record store {
        requests = insert r.id r store.requests;
        grants = elim grant [ none ↦ store.grants | some g ↦ insert g.id g store.grants ];
        blocks = put_blocks bs store.blocks;
      };
    }

unfoldable pub accept_request : Io → ℕ → String → Text → Request → Service → Service × Option Error
unfolding put_decided
accept_request io now target name r s =
    if not (io.lists "companion-grants")
    then (s, some storage)
    else if leb 128 (length s.store.grants)
    then (s, some busy)
    else if not io.puts
    then (s, some storage)
    else (
      put_decided (record r { state = "APPROVED" }) (some (grant_of now target name r)) [] s,
      none,
    )

-- `digest` is SHA-256 in hexadecimal digits.
module _ (digest : String → String) where
  -- The blocks of a denial that ignores the phone for a day: the expired ones go first.
  unfoldable pub deny_request : Io → ℕ → Bool → Request → Service → Service × Option Error
  unfolding put_decided blocks_of cleanup
  deny_request io now ignore r s =
      let (l, fine) = cleanup (λ b. b.expires) io.deletes now s.store.blocks in
      let t = set_blocks l s in
      let denial = record r { state = "DENIED" } in
      if not ignore
      then (if not io.puts then (s, some storage) else (put_decided denial none [] s, none))
      else if not (io.lists "companion-blocks")
      then (s, some storage)
      else if not fine
      then (t, some storage)
      else if ltb 254 (length l)
      then (t, some busy)
      else if not io.puts
      then (t, some storage)
      else (put_decided denial none (blocks_of digest now r) t, none)

  unfoldable pub decide_at :
      Io → ℕ → String → Text → Option Request → Bool → Bool → Service → Service × Option Error
  unfolding accept_request deny_request
  decide_at io now target name none accept ignore s = (s, some denied)
  decide_at io now target name (some r) accept ignore s =
      if not (str_eq r.target_id target)
      then (s, some denied)
      else if not (str_eq r.state "PENDING") || leb r.expires now
      then (s, some expired)
      else if accept
      then accept_request io now target name r s
      else deny_request io now ignore r s

  unfoldable pub decide :
      Io → ℕ → String → Text → String → Bool → Bool → Service → Service × Option Error
  unfolding valid_hex decide_at
  decide io now target name id accept ignore s =
      if not (valid_hex id 32) || not (io.gets "companion-requests" id)
      then (s, some denied)
      else decide_at io now target name (find id s.store.requests) accept ignore s
