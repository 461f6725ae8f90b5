-- ===== src/Inbox/Choice/Uncertain.antt =====
-- selection.go and service.go: reads that fail, and what Snapshot makes of them.
use zombiebox_gateway_core.Base.{
  ◌≡◌, refl, ap, ◌∙◌, inl, inr, String, Bool, true, false, ◌||◌, Option, none, some, arith,
  if-split, Bool-cases, str_eq, eq_iff,
}
use zombiebox_gateway_core.Domain.{Source}
use zombiebox_gateway_core.Inbox.Selection.{
  Selection, Values, value_of, failed, made_at, made, survey, surveyed, takeover, candidate_of,
  settle, choose, is_automatic, NowPlaying,
}
use zombiebox_gateway_core.Inbox.Service.{Inbox}
use zombiebox_gateway_core.Inbox.Snapshot.{
  Poll, Point, leaving, error, selection_of, observed, act_at, act_on, act,
}

-- A failed read adds nothing.
survey-failed :
    (values : Values) (id : String) (r : Selection × String)
    → failed (value_of id values) ≡ true
    → survey values id r ≡ r
unfolding survey
survey-failed values id (q, c) h = rw h refl

surveyed-failed :
    (values : Values) (p : Selection)
    → failed (value_of "spotify" values) ≡ true
    → failed (value_of "airplay" values) ≡ true
    → surveyed values p ≡ (made p, "")
unfolding surveyed
surveyed-failed values p s a =
    ap (survey values "airplay") (survey-failed values "spotify" (made p, "") s)
    ∙ survey-failed values "airplay" (made p, "") a

takeover-failed :
    (values : Values) (p : Selection) (id c : String)
    → failed (value_of id values) ≡ true
    → takeover values p id c ≡ c
unfolding takeover
takeover-failed values p id c h = ground (arith, h)

candidate_of-failed :
    (values : Values) (p : Selection) (c : String)
    → failed (value_of "spotify" values) ≡ true
    → failed (value_of "airplay" values) ≡ true
    → candidate_of values p c ≡ c
unfolding candidate_of
candidate_of-failed values p c s a =
    if-split (λ x. x ≡ c) _ (takeover values p "airplay" (takeover values p "spotify" c)) c
      (λ e. takeover-failed values p "airplay" _ a ∙ takeover-failed values p "spotify" c s)
      (λ e. refl)

pub choose-failed :
    (values : Values) (p : Selection)
    → failed (value_of "spotify" values) ≡ true
    → failed (value_of "airplay" values) ≡ true
    → choose values p ≡ settle values (made p) ""
unfolding choose
choose-failed values p s a =
    ap (λ r. settle values r.0 (candidate_of values r.0 r.1)) (surveyed-failed values p s a)
    ∙ ap (settle values (made p)) (candidate_of-failed values (made p) "" s a)

-- The plan stays, no session is stopped, and the error is what the caller gets.
pub record Kept (s : Inbox) (r : Inbox × Point) : Type 0 where
  pub plan : r.0.plan ≡ s.plan
  pub log : r.0.log ≡ s.log
  pub owner : r.0.owner ≡ s.owner
  pub outcome : (e : String) × (r.1 ≡ leaving (error e))

act_at-Kept :
    (digest : Source → String) (err late : Option String) (source : Option Source) (c : Poll)
    (selected : String) (status : NowPlaying) (s : Inbox)
    → (elim err [ none ↦ false | some e ↦ true ]) ≡ true
    → Kept s (act_at digest err late source c selected status s)
unfolding act_at
act_at-Kept digest none late source c selected status s h = absurd (ground arith)
act_at-Kept digest (some e) late source c selected status s h = record {
  plan = refl;
  log = refl;
  owner = refl;
  outcome = (e, refl);
}

-- The current sender is none or one of the two.
unfoldable pub known_sender : String → Bool
known_sender id = str_eq id "" || str_eq id "spotify" || str_eq id "airplay"

observed-failed :
    (id : String) (values : Values)
    → known_sender id ≡ true
    → failed (value_of "spotify" values) ≡ true
    → failed (value_of "airplay" values) ≡ true
    → failed (observed id values) ≡ true
unfolding observed known_sender
observed-failed id values k s a = elim (Bool-cases (str_eq id "")) [
  | inl e ↦ rw e (rw s (rw a s))
  | inr e ↦ rw e (elim (Bool-cases (str_eq id "spotify")) [
    | inl f ↦ ap (λ j. failed (value_of j values)) ((eq_iff id "spotify").0 f) ∙ s
    | inr f ↦
        ap (λ j. failed (value_of j values)) ((eq_iff id "airplay").0 (ground (arith, e, f, k))) ∙ a
  ])
]

settle-nothing : (values : Values) (p : Selection) → (settle values p "").1 ≡ p.current
unfolding settle
settle-nothing values p = ground arith

made-current : (p : Selection) → (made p).current ≡ p.current
made-current p = at p.playing p
  where
    at : (o : _) (p : Selection) → (made_at o p).current ≡ p.current
    at none p = refl
    at (some m) p = refl

selected-failed :
    (c : Poll) (values : Values) (s : Inbox)
    → is_automatic c.provider ≡ true
    → failed (value_of "spotify" values) ≡ true
    → failed (value_of "airplay" values) ≡ true
    → (selection_of c values s).1 ≡ s.selection.current
unfolding selection_of
selected-failed c values s auto f g = rw auto (
    ap (λ r. r.1) (choose-failed values s.selection f g)
    ∙ settle-nothing values (made s.selection)
    ∙ made-current s.selection)

-- When the reads of both providers fail, an automatic receiver that follows no sender or one of
-- the two keeps its plan, stops no session, keeps its owner, and returns an error: unknown network
-- state never ends playback.
pub act-Kept :
    (digest : Source → String) (c : Poll) (late : Option String) (values : Values) (s : Inbox)
    → is_automatic c.provider ≡ true
    → known_sender s.selection.current ≡ true
    → failed (value_of "spotify" values) ≡ true
    → failed (value_of "airplay" values) ≡ true
    → Kept s (act digest c late values s)
unfolding act act_on
act-Kept digest c late values s auto known f g =
    let (selection, selected) = selection_of c values s in
    let v = observed selected values in
    let r =
      act_at-Kept digest v.err late v.source c selected v.status
        (record s { cancel = false; selection = selection })
        (observed-failed selected values
          (ap known_sender (selected-failed c values s auto f g) ∙ known) f g) in
    record { plan = r.plan; log = r.log; owner = r.owner; outcome = r.outcome }
