-- ===== src/Companion/Remote.antt =====
-- remote.go, and Revoke of grants.go: the queue of commands of each television.
pub mod Bounds
pub mod Authorized
pub mod Traffic
pub mod Limits
pub mod Delivery
use zombiebox_gateway_core.Base.{
  ℕ, suc, ◌+◌, ◌-◌, String, Bool, true, false, not, ◌&&◌, ◌||◌, Option, none, some, List, [], ◌∷◌,
  ◌++◌, length, any, keep, if◌then◌else◌, leb, ltb, str_eq, ◌==◌,
}
use zombiebox_gateway_core.Base.Assoc.{Assoc, find, find_or, erase, insert}
use zombiebox_gateway_core.Companion.Model.{
  Text, Command, Result, Receipt, Rate, Store, Service, Error, denied, busy, invalid, storage, Io,
  valid_hex, within_of, is_granted,
}
use zombiebox_gateway_core.Companion.Expiry.{
  no_result, result_id, note, is_fresh, note_expired, fresh_queues, note_queues, fresh_delivered,
  note_delivered, expire,
}

abbrev pub providers : List String
providers = "youtube" ∷ "plex" ∷ "stremio" ∷ "jellyfin" ∷ "iptv" ∷ "spotify" ∷ "airplay" ∷ []

abbrev pub actions : List String
actions =
    "UP" ∷ "DOWN" ∷ "LEFT" ∷ "RIGHT" ∷ "OK" ∷ "BACK" ∷ "HOME" ∷ "PLAY_PAUSE" ∷ "STOP" ∷ "NEXT"
    ∷ "SEEK_BACK" ∷ "SEEK_FORWARD" ∷ "VOLUME_UP" ∷ "VOLUME_DOWN" ∷ "MUTE" ∷ []

pub valid_command : String → String → Bool
valid_command action provider =
    if str_eq action "PROVIDER"
    then any (str_eq provider) providers
    else if not (str_eq provider "")
    then false
    else any (str_eq action) actions

-- `unicode.IsControl`
abbrev pub is_control : ℕ → Bool
is_control c = ltb c 32 || (leb 127 c && leb c 159)

-- A text is a list of code points, so it is valid UTF-8.
pub valid_text : Text → Bool
valid_text text = not (length text == 0) && leb (length text) 512 && not (any is_control text)

abbrev pub no_rate : Rate
no_rate = record { count = 0; until = 0 }

-- The rate of a grant, started again where its second is over.
abbrev pub current_rate : ℕ → Rate → Rate
current_rate now r = if leb r.until now then record { count = 0; until = now + 1000 } else r

pub record Order : Type 0 where
  pub grant_id : String
  pub grant_target : String
  pub action : String
  pub provider : String
  pub text : Text
  pub input_id : String

-- SendText asks for the text input that is open on the television.
pub is_valid : Order → Service → Bool
unfolding valid_text valid_command valid_hex
is_valid o s =
    if str_eq o.action "TEXT"
    then valid_text o.text
      && valid_hex o.input_id 32
      && str_eq (find_or "" o.grant_target s.text_inputs) o.input_id
    else valid_command o.action o.provider

abbrev pub command_of : ℕ → String → Order → Command
command_of now id o = record {
  text = o.text;
  input_id = o.input_id;
  id = id;
  grant_id = o.grant_id;
  action = o.action;
  provider = o.provider;
  expires = now + 2000;
  remaining_ms = 2000;
}

abbrev pub queue_of : String → Service → List Command
queue_of target s = find_or [] target s.queues

-- The attempt counts, also where the queue is full.
abbrev pub counted : ℕ → Order → Service → Service
counted now o s =
    let rate = current_rate now (find_or no_rate o.grant_id s.command_rates) in
    record s {
      command_rates = insert o.grant_id (record rate { count = suc rate.count }) s.command_rates;
    }

abbrev pub queued : Command → String → Service → Service
queued c target s = record s {
  queues = insert target (queue_of target s ++ c ∷ []) s.queues;
  results = insert c.grant_id (record { id = c.id; status = "QUEUED" }) s.results;
}

-- `id` is the random id, drawn once the command is accepted.
pub send : Io → ℕ → String → Order → Service → Service × Option Error
unfolding is_valid is_granted expire
send io now id o s =
    let rate = current_rate now (find_or no_rate o.grant_id s.command_rates) in
    let t = expire now (counted now o s) in
    if not (is_valid o s)
    then (s, some invalid)
    else if not (is_granted io o.grant_id o.grant_target s.store)
    then (s, some denied)
    else if not (within_of 5000 now (find o.grant_target s.online))
    then (s, some busy)
    else if leb 5 rate.count
    then (s, some busy)
    else if leb 16 (length (queue_of o.grant_target t))
    then (t, some busy)
    else (queued (command_of now id o) o.grant_target t, none)

-- The open text inputs after a poll: the one of an active television, if it gives an id.
abbrev pub text_inputs_at : Bool → String → Option String → Assoc String → Assoc String
text_inputs_at true target (some id) inputs =
    if valid_hex id 32 then insert target id inputs else erase target inputs
text_inputs_at _ target _ inputs = erase target inputs

-- The televisions that were seen within 15 seconds, and the text inputs of the others removed.
pub recent : ℕ → Assoc ℕ → Assoc ℕ
recent now [] = []
recent now ((id, seen) ∷ l) =
    let rest = recent now l in if leb now (seen + 15000) then (id, seen) ∷ rest else rest

pub without_absent : ℕ → Assoc ℕ → Assoc String → Assoc String
without_absent now [] inputs = inputs
without_absent now ((id, seen) ∷ l) inputs =
    without_absent now l (if leb now (seen + 15000) then inputs else erase id inputs)

abbrev pub is_present : String → Assoc ℕ → Bool
is_present target l = elim (find target l) [ none ↦ false | some t ↦ true ]

-- At most 128 televisions are kept.
pub seen : ℕ → String → Service → Service
unfolding recent without_absent
seen now target s =
    let present = recent now s.present in
    record s {
      text_inputs = without_absent now s.present s.text_inputs;
      present =
          if ltb (length present) 128 || is_present target present
          then insert target now present
          else present;
    }

abbrev pub online_at : Bool → ℕ → String → Assoc ℕ → Assoc ℕ
online_at true now target l = insert target now l
online_at false now target l = erase target l

abbrev pub set_result : String → String → String → Service → Service
set_result grant id status s = record s {
  results = insert grant (record { id = id; status = status }) s.results;
}

abbrev pub receive : String → Command → Service → Service
receive target c s = set_result c.grant_id c.id "DELIVERED" (record s {
  delivered =
      insert c.id (record { target = target; grant = c.grant_id; expires = c.expires }) s.delivered;
})

abbrev pub handed : ℕ → Command → Command
handed now c = record c { remaining_ms = c.expires - now }

-- The loop of Poll over the queue: the service and the commands that are handed out.
pub deliver : Io → ℕ → Bool → String → List Command → Service → Service × List Command
unfolding is_granted
deliver io now active target [] s = (s, [])
deliver io now active target (c ∷ cs) s =
    let busy_ = deliver io now active target cs (set_result c.grant_id c.id "BUSY" s) in
    let skipped = deliver io now active target cs s in
    let taken = deliver io now active target cs (receive target c s) in
    if not active || not (is_granted io c.grant_id target s.store)
    then busy_
    else if leb c.expires now || leb 1024 (length s.delivered)
    then skipped
    else (taken.0, handed now c ∷ taken.1)

-- Poll up to its loop.
pub polled : ℕ → String → Bool → Option String → Service → Service
unfolding expire seen
polled now target active input s =
    let inputs = text_inputs_at active target input s.text_inputs in
    let t = seen now target (expire now (record s { text_inputs = inputs })) in
    record t { online = online_at active now target t.online }

pub poll : Io → ℕ → String → Bool → Option String → Service → Service × List Command
unfolding polled deliver
poll io now target active input s =
    let t = polled now target active input s in
    let (u, out) = deliver io now active target (queue_of target t) t in
    (record u { queues = erase target u.queues }, out)

abbrev pub reports : List String
reports = "EXECUTED" ∷ "BUSY" ∷ "UNSUPPORTED" ∷ []

pub acknowledge_at : Option Receipt → String → String → String → Service → Service × Option Error
unfolding note
acknowledge_at none target id status s = (s, some denied)
acknowledge_at (some v) target id status s =
    if not (str_eq v.target target)
    then (s, some denied)
    else if not (any (str_eq status) reports)
    then (s, some invalid)
    else (
      record s { delivered = erase id s.delivered; results = note v.grant id status s.results },
      none,
    )

pub acknowledge : ℕ → String → String → String → Service → Service × Option Error
unfolding expire acknowledge_at
acknowledge now target id status s =
    let t = expire now s in acknowledge_at (find id t.delivered) target id status t

unfoldable pub remote_status : ℕ → String → String → Service → Service × Bool × Result
unfolding expire
remote_status now target grant s =
    let t = expire now s in
    (t, within_of 5000 now (find target t.online), find_or no_result grant t.results)

unfoldable pub text_input : ℕ → String → Service → String
text_input now target s =
    if within_of 5000 now (find target s.online) then find_or "" target s.text_inputs else ""

abbrev pub not_of : String → Command → Bool
not_of grant c = not (str_eq c.grant_id grant)

pub without_grant : String → Assoc Receipt → Assoc Receipt
without_grant grant [] = []
without_grant grant ((id, v) ∷ l) =
    let rest = without_grant grant l in if str_eq v.grant grant then rest else (id, v) ∷ rest

pub revoke : Io → String → String → Service → Service × Option Error
unfolding is_granted without_grant
revoke io target id s =
    let store = s.store in
    if not (is_granted io id target store)
    then (s, some denied)
    else if not (io.deletes id)
    then (s, some storage)
    else (
      record s {
        store = record store { grants = erase id store.grants };
        delivered = without_grant id s.delivered;
        results = erase id s.results;
        command_rates = erase id s.command_rates;
        queues = insert target (keep (not_of id) (queue_of target s)) s.queues;
      },
      none,
    )
