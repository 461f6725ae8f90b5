-- ===== src/Inbox/Snapshot.antt =====
-- service.go: Snapshot, cut where it unlocks, waits for its slot, reads or starts a session.
use zombiebox_gateway_core.Base.{
  ℕ, ◌+◌, String, Bool, true, false, not, ◌&&◌, ◌||◌, Option, none, some, ◌∷◌, if◌then◌else◌,
  str_eq, ◌==◌,
}
use zombiebox_gateway_core.Domain.{Item, Source}
use zombiebox_gateway_core.Inbox.Selection.{
  NowPlaying, Observation, Values, Reply, Selection, value_of, is_automatic, failed, read, choose,
  blocked_of,
}
use zombiebox_gateway_core.Inbox.Service.{
  Plan, started, stopped, Inbox, Refusal, changed, lease, stop_plan, expire, owns,
}

-- What one call keeps in its local variables.
pub record Poll : Type 0 where
  pub owner : String
  pub provider : String
  pub generation : ℕ

-- A source that is not played yet, with its key and the status that came with it.
pub record Chosen : Type 0 where
  pub source : Source
  pub key : String
  pub selected : String
  pub status : NowPlaying

-- The result of a call: nothing for a stranger, an error, or the visible state.
pub data Outcome : Type 0 where
  disabled : Outcome
  refused : Refusal → Outcome
  error : String → Outcome
  shown : String → Option Plan → NowPlaying → Outcome

-- Where the call that holds the slot stands.
pub data Point : Type 0 where
  -- before the lock that stores the cancellation
  arming : Point
  -- inside `read`
  reading : Point
  -- before the lock after `read`
  deciding : Values → Point
  -- inside `sessions.Start`
  starting : Chosen → Point
  -- before the lock after it, with its plan or its error
  committing : Chosen → Plan → Point
  failing : Chosen → String → Point
  -- before the deferred release of the slot
  leaving : Outcome → Point

-- `s.owner == owner && s.generation == generation`
unfoldable pub is_current : Poll → Inbox → Bool
is_current c s = owns c.owner s && s.generation == c.generation

abbrev pub poll_of : String → Inbox → Poll
poll_of owner t = record { owner = owner; provider = t.provider; generation = t.generation }

-- Up to the first unlock: the locals of a call that goes on to the slot, or nothing.
unfoldable pub begin : ℕ → ℕ → String → Inbox → Inbox × Option Poll
unfolding expire
begin now later owner s =
    let t = expire now s in
    if not (owns owner t)
    then (t, none)
    else (record t { expires = later + lease }, some (poll_of owner t))

unfoldable pub arm : Poll → Inbox → Inbox × Point
unfolding is_current
arm c s =
    if not (is_current c s)
    then (s, leaving (refused changed))
    else (record s { cancel = true }, reading)

-- The end of the method.
abbrev pub finish : Poll → NowPlaying → Inbox → Inbox × Point
finish c status s = (s, leaving (shown c.provider s.plan status))

abbrev pub with_item : Item → Option Plan → Option Plan
with_item item none = none
with_item item (some p) = some (record p { item = item })

abbrev pub followed : Poll → Chosen → Selection → Selection
followed c x p = if is_automatic c.provider then record p { current = x.selected } else p

-- The source becomes the item of the plan, and its sender the current one.
unfoldable pub adopt : Poll → Chosen → Inbox → Inbox × Point
adopt c x s =
    finish c x.status
      (record s { plan = with_item x.source.item s.plan; selection = followed c x s.selection })

-- `s.plan != nil && s.plan.Item.ID == source.Item.ID && s.sourceKey == key`
abbrev pub plays : Chosen → Inbox → Bool
plays x s = elim s.plan [
  | none ↦ false
  | some p ↦ str_eq p.item.id x.source.item.id && str_eq s.source_key x.key
]

-- Whether a local stop suppresses the source.
pub suppressed : Poll → Chosen → Inbox → Bool
suppressed c x s =
    let id = x.source.item.id in
    str_eq id s.blocked
    || (str_eq c.provider "auto" && str_eq (blocked_of x.selected s.selection) id)

unfoldable pub with_source : Poll → Chosen → Inbox → Inbox × Point
unfolding adopt suppressed
with_source c x s =
    if suppressed c x s
    then finish c x.status s
    else if plays x s
    then adopt c x s
    else (s, starting x)

-- Without a source the session ends, but for an AirPlay sender that buffers.
unfoldable pub without_source : Poll → String → NowPlaying → Inbox → Inbox × Point
unfolding stop_plan
without_source c selected status s =
    if not (str_eq selected "airplay") || not (str_eq status.state "BUFFERING")
    then finish c status (record (stop_plan s) { blocked = "" })
    else finish c status s

-- The selected observation. Without one it is the stopped state, and an error where both fail.
unfoldable pub observed : String → Values → Observation
observed selected values =
    let v = value_of selected values in
    let spotify = value_of "spotify" values in
    if str_eq selected ""
    then record v {
      status = record { provider = "auto"; state = "STOPPED" };
      err = if failed spotify && failed (value_of "airplay" values) then spotify.err else v.err;
    }
    else v

unfoldable pub selection_of : Poll → Values → Inbox → Selection × String
unfolding choose
selection_of c values s =
    if is_automatic c.provider then choose values s.selection else (s.selection, c.provider)

-- `digest` is the SHA-256 of the JSON text of a source's address and headers.
module _ (digest : Source → String) where
  unfoldable pub act_at :
      Option String
      → Option String
      → Option Source
      → Poll
      → String
      → NowPlaying
      → Inbox
      → Inbox × Point
  unfolding with_source without_source
  act_at (some e) late source c selected status s = (s, leaving (error e))
  act_at none (some e) source c selected status s = (s, leaving (error e))
  act_at none none none c selected status s = without_source c selected status s
  act_at none none (some source) c selected status s =
      with_source c
        (record { source = source; key = digest source; selected = selected; status = status }) s

  unfoldable pub act_on : Poll → String → Option String → Observation → Inbox → Inbox × Point
  unfolding act_at
  act_on c selected late v s = act_at v.err late v.source c selected v.status s

  -- What follows the test, with the selection made.
  unfoldable pub act : Poll → Option String → Values → Inbox → Inbox × Point
  unfolding selection_of act_on observed
  act c late values s =
      let (selection, selected) = selection_of c values s in
      act_on c selected late (observed selected values)
        (record s { cancel = false; selection = selection })

  -- After `read`; `late` is the error of the request's context.
  unfoldable pub decide : ℕ → Option String → Poll → Values → Inbox → Inbox × Point
  unfolding expire is_current act
  decide now late c values s =
      let t = expire now s in
      if not (is_current c t) then (t, leaving (refused changed)) else act c late values t

-- The new session takes the place of the old one.
unfoldable pub replaced : Chosen → Plan → Inbox → Inbox
unfolding stop_plan
replaced x plan s = record (stop_plan s) { plan = some plan; source_key = x.key }

-- After a start that succeeded.
unfoldable pub commit : ℕ → Poll → Chosen → Plan → Inbox → Inbox × Point
unfolding expire is_current replaced adopt
commit now c x plan s =
    let t = expire now s in
    if not (is_current c t)
    then (record t { log = stopped plan.session ∷ t.log }, leaving (refused changed))
    else adopt c x (replaced x plan t)

-- After a start that failed: the confirmed stream stays.
unfoldable pub fail : ℕ → Poll → String → Inbox → Inbox × Point
unfolding expire is_current
fail now c e s =
    let t = expire now s in
    if not (is_current c t) then (t, leaving (refused changed)) else (t, leaving (error e))

-- What the environment answers when the call goes on.
pub data Answer : Type 0 where
  go_on : Answer
  -- the reads return
  replies : (String → Reply) → Answer
  -- the reading of the clock and the error of the context, after the reads
  at_time : ℕ → Option String → Answer
  -- `Start` returns
  plan_starts : Plan → Answer
  start_fails : String → Answer

module _ (digest : Source → String) where
  -- One step of the call; an answer that does not fit its place leaves it waiting.
  unfoldable pub step_at : Point → Answer → Poll → Inbox → Inbox × Point
  unfolding arm read decide commit fail
  step_at arming go_on c s = arm c s
  step_at reading (replies answer) c s = (s, deciding (read answer c.provider))
  step_at (deciding values) (at_time now late) c s = decide digest now late c values s
  step_at (starting x) (plan_starts plan) c s =
      (record s { log = started plan.session ∷ s.log }, committing x plan)
  step_at (starting x) (start_fails e) c s = (s, failing x e)
  step_at (committing x plan) (at_time now late) c s = commit now c x plan s
  step_at (failing x e) (at_time now late) c s = fail now c e s
  step_at p a c s = (s, p)
