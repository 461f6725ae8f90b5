-- ===== src/Companion/Model.antt =====
-- model.go, and the Service of pairing.go with its helpers. Times in milliseconds.
use zombiebox_gateway_core.Base.{
  ℕ, ◌+◌, String, Bool, false, ◌&&◌, ◌||◌, Option, none, some, List, [], length, all, leb, str_eq,
  ◌==◌,
}
use zombiebox_gateway_core.Base.Assoc.{Assoc, find}
use zombiebox_gateway_core.Base.Text.{codes, is_digit}

-- Names and texts that are taken apart are lists of code points.
abbrev pub Text : Type 0
Text = List ℕ

pub record Invitation : Type 0 where
  pub id : String
  pub target_id : String
  pub target_name : Text
  pub secret : String
  pub code : String
  pub expires : ℕ
  pub used : Bool
  pub auto_approve : Bool

pub record Request : Type 0 where
  pub id : String
  pub target_id : String
  pub name : Text
  pub comparison : String
  pub state : String
  pub expires : ℕ
  pub token_hash : String
  pub client_hash : String
  pub origin_hash : String

pub record Grant : Type 0 where
  pub id : String
  pub target_id : String
  pub target_name : Text
  pub name : Text
  pub token_hash : String
  pub created : ℕ

pub record Command : Type 0 where
  pub text : Text
  pub input_id : String
  pub id : String
  pub grant_id : String
  pub action : String
  pub provider : String
  pub expires : ℕ
  pub remaining_ms : ℕ

pub record Result : Type 0 where
  pub id : String
  pub status : String

pub record Receipt : Type 0 where
  pub target : String
  pub grant : String
  pub expires : ℕ

pub record Rate : Type 0 where
  pub count : ℕ
  pub until : ℕ

pub record Block : Type 0 where
  pub id : String
  pub expires : ℕ

-- The buckets of the store that this service reads, by record id; `devices` holds the
-- manufacturer and the model of each television.
pub record Store : Type 0 where
  pub invitations : Assoc Invitation
  pub requests : Assoc Request
  pub grants : Assoc Grant
  pub blocks : Assoc Block
  pub devices : Assoc (Text × Text)

pub record Service : Type 0 where
  pub store : Store
  pub attempts : Assoc Rate
  pub queues : Assoc (List Command)
  pub online : Assoc ℕ
  pub present : Assoc ℕ
  pub text_inputs : Assoc String
  pub results : Assoc Result
  pub delivered : Assoc Receipt
  pub command_rates : Assoc Rate

abbrev pub new : Store → Service
new store = record {
  store = store;
  attempts = [];
  queues = [];
  online = [];
  present = [];
  text_inputs = [];
  results = [];
  delivered = [];
  command_rates = [];
}

-- The errors of the package, and one for a persistence call that fails.
pub data Error : Type 0 where
  denied expired busy invalid storage : Error

-- Which calls of the persistence succeed while a method runs: a list of a bucket, a read of a
-- bucket at an id, a write of many records, a deletion of an id.
pub record Io : Type 0 where
  pub lists : String → Bool
  pub gets : String → String → Bool
  pub puts : Bool
  pub deletes : String → Bool

is_hex : ℕ → Bool
unfolding is_digit
is_hex c = is_digit c || (leb b'a' c && leb c b'f') || (leb b'A' c && leb c b'F')

-- Asked with an even length only; what is no ASCII digit or letter fails the decoder.
unfoldable pub valid_hex : String → ℕ → Bool
unfolding is_hex
valid_hex value n = length (codes value) == n && all is_hex (codes value)

-- `now.Sub(seen) <= limit`; a missing time is the zero time, which is too old.
abbrev pub within_of : ℕ → ℕ → Option ℕ → Bool
within_of limit now none = false
within_of limit now (some seen) = leb now (seen + limit)

abbrev pub grant_for : String → Option Grant → Bool
grant_for target none = false
grant_for target (some g) = str_eq g.target_id target

unfoldable pub is_granted : Io → String → String → Store → Bool
unfolding valid_hex
is_granted io id target store =
    valid_hex id 32 && io.gets "companion-grants" id && grant_for target (find id store.grants)

-- What a method returns: a value, or its error.
pub data Reply (A : Type 0) : Type 0 where
  ok : A → Reply A
  refuse : Error → Reply A
