-- ===== src/Inbox/Selection.antt =====
-- selection.go: which sender an automatic receiver follows.
use zombiebox_gateway_core.Base.{
  String, Bool, true, false, not, ◌&&◌, ◌||◌, Option, none, some, [], ◌∷◌, if◌then◌else◌, str_eq,
}
use zombiebox_gateway_core.Base.Assoc.{Assoc, find_or, erase, insert}
use zombiebox_gateway_core.Domain.{Source}

-- The fields of `domain.NowPlaying` that the receiver reads or sets.
pub record NowPlaying : Type 0 where
  pub provider : String
  pub state : String

-- `err` is the text of the error, if there is one.
pub record Observation : Type 0 where
  pub source : Option Source
  pub status : NowPlaying
  pub err : Option String

-- The maps are nil until the first choice.
pub record Selection : Type 0 where
  pub current : String
  pub pending : String
  pub playing : Option (Assoc Bool)
  pub blocked : Option (Assoc String)

abbrev pub no_selection : Selection
no_selection = record { current = ""; pending = ""; playing = none; blocked = none }

-- What a missing key of the map of observations reads as.
abbrev pub unobserved : Observation
unobserved = record { source = none; status = record { provider = ""; state = "" }; err = none }

abbrev pub Values : Type 0
Values = Assoc Observation

abbrev pub value_of : String → Values → Observation
value_of id values = find_or unobserved id values

abbrev pub is_automatic : String → Bool
is_automatic provider = str_eq provider "auto" || str_eq provider "universal"

-- What the backend answers for one provider; `late` is the error of the request's context.
pub record Reply : Type 0 where
  pub source : Option Source
  pub status : NowPlaying
  pub err : Option String
  pub late : Option String

abbrev pub observation_of : Reply → Observation
observation_of r = record {
  source = r.source;
  status = r.status;
  err = elim r.err [ none ↦ r.late | some e ↦ some e ];
}

-- Each provider is asked in turn.
unfoldable pub read : (String → Reply) → String → Values
read answer provider =
    if is_automatic provider
    then ("spotify", observation_of (answer "spotify"))
      ∷ ("airplay", observation_of (answer "airplay"))
      ∷ []
    else (provider, observation_of (answer provider)) ∷ []

abbrev pub failed : Observation → Bool
failed v = elim v.err [ none ↦ false | some e ↦ true ]

abbrev pub has_source : Observation → Bool
has_source v = elim v.source [ none ↦ false | some s ↦ true ]

abbrev pub source_id : Observation → String
source_id v = elim v.source [ none ↦ "" | some s ↦ s.item.id ]

-- A read of a nil map finds nothing, and a deletion from it does nothing.
abbrev pub playing_of : String → Selection → Bool
playing_of id p = elim p.playing [ none ↦ false | some m ↦ find_or false id m ]

abbrev pub blocked_of : String → Selection → String
blocked_of id p = elim p.blocked [ none ↦ "" | some m ↦ find_or "" id m ]

abbrev pub unblock : String → Selection → Selection
unblock id p = record p { blocked = elim p.blocked [ none ↦ none | some m ↦ some (erase id m) ] }

-- The first choice makes both maps before anything is written to them.
abbrev pub made_at : Option (Assoc Bool) → Selection → Selection
made_at none p = record p { playing = some []; blocked = some [] }
made_at (some m) p = p

abbrev pub made : Selection → Selection
made p = made_at p.playing p

abbrev pub note_playing : String → Bool → Selection → Selection
note_playing id active p = record p {
  playing = elim p.playing [ none ↦ none | some m ↦ some (insert id active m) ];
}

unfoldable pub is_active : Observation → Bool
is_active v = has_source v && str_eq v.status.state "PLAYING"

-- Playback that is active and that no local stop suppresses.
unfoldable pub startable : Selection → String → Observation → Bool
unfolding is_active
startable p id v =
    is_active v
    && not (str_eq (blocked_of id p) "*")
    && not (str_eq (blocked_of id p) (source_id v))

-- One round of the first loop, with the candidate so far.
unfoldable pub survey : Values → String → Selection × String → Selection × String
unfolding is_active startable
survey values id (p, candidate) =
    let v = value_of id values in
    let q = if has_source v then p else unblock id p in
    let newly = not (playing_of id q) || str_eq q.pending id || str_eq q.current "" in
    if failed v then (p, candidate) else (
      note_playing id (is_active v) q,
      if startable q id v && not (str_eq id q.current) && newly then id else candidate,
    )

-- One round of the second loop, for a current sender that is known to be idle.
unfoldable pub takeover : Values → Selection → String → String → String
unfolding startable
takeover values p id candidate =
    let v = value_of id values in if not (failed v) && startable p id v then id else candidate

-- After the loops: a candidate is taken at once without a current sender, else at its second poll.
unfoldable pub settle : Values → Selection → String → Selection × String
settle values p candidate =
    if not (str_eq candidate "") && (str_eq p.current "" || str_eq p.pending candidate)
    then (record p { pending = candidate }, candidate)
    else if str_eq candidate "" && not (str_eq p.pending "") && failed (value_of p.pending values)
    then (p, p.current)
    else (record p { pending = candidate }, p.current)

-- The first loop, over both providers.
unfoldable pub surveyed : Values → Selection → Selection × String
unfolding survey
surveyed values p = survey values "airplay" (survey values "spotify" (made p, ""))

unfoldable pub candidate_of : Values → Selection → String → String
unfolding takeover
candidate_of values p candidate =
    let c = value_of p.current values in
    if str_eq candidate "" && not (str_eq p.current "") && not (failed c) && not (has_source c)
    then takeover values p "airplay" (takeover values p "spotify" candidate)
    else candidate

unfoldable pub choose : Values → Selection → Selection × String
unfolding surveyed candidate_of settle
choose values p =
    let (q, candidate) = surveyed values p in settle values q (candidate_of values q candidate)
