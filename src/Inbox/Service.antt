-- ===== src/Inbox/Service.antt =====
-- service.go: the methods of the receiver, but for Snapshot. Sweep is `expire`, Close is `clear`,
-- and Active is `is_owner`.
use zombiebox_gateway_core.Base.{
  ℕ, ◌+◌, ◌%◌, ◌^◌, String, Bool, true, false, not, ◌&&◌, ◌||◌, Option, none, some, List, [], ◌∷◌,
  if◌then◌else◌, leb, str_eq,
}
use zombiebox_gateway_core.Base.Assoc.{find, insert}
use zombiebox_gateway_core.Domain.{Item}
use zombiebox_gateway_core.Inbox.Selection.{Selection, no_selection, is_automatic}

-- The fields of `domain.Plan` that the receiver reads or sets; the others stay as they come.
pub record Plan : Type 0 where
  pub session : String
  pub item : Item

-- The calls of the injected sessions and of the stored cancellation, newest first in the log.
pub data Call : Type 0 where
  started stopped : String → Call
  cancelled : Call

-- Times in milliseconds; `cancel` tells whether a cancellation is stored.
pub record Inbox : Type 0 where
  pub owner : String
  pub provider : String
  pub blocked : String
  pub selection : Selection
  pub expires : ℕ
  pub generation : ℕ
  pub plan : Option Plan
  pub source_key : String
  pub cancel : Bool
  pub log : List Call

pub data Refusal : Type 0 where
  busy changed : Refusal

-- The zero time lies before every reading of the clock.
abbrev pub new : Inbox
new = record {
  owner = "";
  provider = "";
  blocked = "";
  selection = no_selection;
  expires = 0;
  generation = 0;
  plan = none;
  source_key = "";
  cancel = false;
  log = [];
}

-- 45 seconds.
abbrev pub lease : ℕ
lease = 45000

abbrev pub stop_at : Option Plan → Inbox → Inbox
stop_at none s = s
stop_at (some p) s = record s { plan = none; log = stopped p.session ∷ s.log }

unfoldable pub stop_plan : Inbox → Inbox
stop_plan s = stop_at s.plan s

abbrev pub call_cancel : Inbox → Inbox
call_cancel s = if s.cancel then record s { cancel = false; log = cancelled ∷ s.log } else s

-- The generation is a uint64.
abbrev pub next_generation : Inbox → Inbox
next_generation s = record s { generation = (s.generation + 1) % 2 ^ 64 }

unfoldable pub clear : Inbox → Inbox
unfolding stop_plan
clear s = record (stop_plan (call_cancel (next_generation s))) {
  owner = "";
  provider = "";
  blocked = "";
  selection = no_selection;
}

unfoldable pub expire : ℕ → Inbox → Inbox
unfolding clear
expire now s = if not (str_eq s.owner "") && leb s.expires now then clear s else s

abbrev pub granted : ℕ → String → String → Inbox → Inbox
granted later owner provider s = record s {
  owner = owner;
  provider = provider;
  expires = later + lease;
}

-- The clock is read in `expire` and again for the new lease.
unfoldable pub claim : ℕ → ℕ → String → String → Inbox → Inbox × Option Refusal
unfolding expire clear
claim now later owner provider s =
    let t = expire now s in
    if not (str_eq t.owner "") && not (str_eq t.owner owner)
    then (t, some busy)
    else (granted later owner provider (clear t), none)

abbrev pub owns : String → Inbox → Bool
owns owner s = str_eq s.owner owner

unfoldable pub is_owner : ℕ → String → Inbox → Inbox × Bool
unfolding expire
is_owner now owner s = let t = expire now s in (t, owns owner t)

unfoldable pub owned : ℕ → String → Inbox → Inbox × Bool
unfolding expire
owned now owner s =
    let t = expire now s in
    (
      t,
      owns owner t
          && (str_eq t.provider "spotify"
              || (is_automatic t.provider && str_eq t.selection.current "spotify")),
    )

abbrev pub plays_from : String → Inbox → Bool
plays_from provider s = elim s.plan [ none ↦ false | some p ↦ str_eq p.item.provider provider ]

unfoldable pub owned_air_play : ℕ → String → Inbox → Inbox × Bool
unfolding expire
owned_air_play now owner s =
    let t = expire now s in
    (
      t,
      if not (owns owner t)
          then false
          else if str_eq t.provider "airplay"
          then true
          else is_automatic t.provider
            && str_eq t.selection.current "airplay"
            && plays_from "airplay" t,
    )

unfoldable pub release : String → Inbox → Inbox
unfolding clear
release owner s = if owns owner s then clear s else s

abbrev pub block_in : String → String → Selection → Selection
block_in key id p = record p {
  blocked = elim p.blocked [ none ↦ none | some m ↦ some (insert key id m) ];
}

unfoldable pub dismiss_plan : Plan → Inbox → Inbox
unfolding stop_plan
dismiss_plan p s = stop_plan (record s {
  blocked = p.item.id;
  selection =
      if is_automatic s.provider
      then block_in s.selection.current p.item.id s.selection
      else s.selection;
})

abbrev pub dismiss_at : Option Plan → String → String → Inbox → Inbox × Bool
dismiss_at none owner session s = (s, false)
dismiss_at (some p) owner session s =
    if owns owner s && str_eq p.session session then (dismiss_plan p s, true) else (s, false)

unfoldable pub dismiss : String → String → Inbox → Inbox × Bool
dismiss owner session s = dismiss_at s.plan owner session s

unfoldable pub listening : ℕ → String → Inbox → Inbox × Bool
unfolding expire
listening now owner s = let t = expire now s in (t, owns owner t && str_eq t.provider "universal")

-- A sender that plays, or of which nothing is known, is blocked whatever it plays.
abbrev pub maybe_playing : String → Selection → Bool
maybe_playing id p = elim p.playing [
  | none ↦ true
  | some m ↦ elim (find id m) [ none ↦ true | some active ↦ active ]
]

abbrev pub block_all_of : String → Selection → Selection
block_all_of id p = if maybe_playing id p then block_in id "*" p else p

abbrev pub with_blocked : Selection → Selection
with_blocked p = record p { blocked = elim p.blocked [ none ↦ some [] | some m ↦ some m ] }

unfoldable pub stand_by : Inbox → Inbox
unfolding stop_plan
stand_by s =
    let p = block_all_of "airplay" (block_all_of "spotify" (with_blocked s.selection)) in
    let t = stop_plan (call_cancel (next_generation s)) in
    record t { selection = record p { current = ""; pending = "" } }

unfoldable pub standby : String → Inbox → Inbox
unfolding stand_by
standby owner s =
    if not (owns owner s) || not (str_eq s.provider "universal") then s else stand_by s
