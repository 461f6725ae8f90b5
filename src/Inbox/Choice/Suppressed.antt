-- ===== src/Inbox/Choice/Suppressed.antt =====
-- selection.go and service.go: what Standby suppresses.
use zombiebox_gateway_core.Base.{
  ◌≡◌, refl, sym, ap, ◌∙◌, subst, ◌⊎◌, inl, inr, String, Bool, true, false, ◌&&◌, ◌||◌, Option,
  none, some, [], arith, if◌then◌else◌, Bool-cases, str_eq, eq_iff,
}
use zombiebox_gateway_core.Base.Assoc.{Assoc, find_or, insert, find-insert}
use zombiebox_gateway_core.Inbox.Selection.{
  Selection, no_selection, Values, made_at, survey, surveyed, candidate_of, settle, choose,
}
use zombiebox_gateway_core.Inbox.Service.{
  Inbox, stand_by, maybe_playing, block_all_of, with_blocked,
}
use zombiebox_gateway_core.Inbox.Choice.{choose-Handoff}

-- The map of blocked items with the entry that Standby adds for a provider.
starred : String → Selection → Assoc String → Assoc String
starred id p b = if maybe_playing id p then insert id "*" b else b

block_all_of-some :
    (id : String) (p : Selection) (b : Assoc String)
    → block_all_of id (record p { blocked = some b }) ≡ record p { blocked = some (starred id p b) }
unfolding starred
block_all_of-some id p b = elim (Bool-cases (maybe_playing id p)) [
  | inl e ↦ rw e refl
  | inr e ↦ rw e refl
]

blocked_map : Option (Assoc String) → Assoc String
blocked_map none = []
blocked_map (some m) = m

with_blocked-some :
    (p : Selection) → with_blocked p ≡ record p { blocked = some (blocked_map p.blocked) }
unfolding blocked_map
with_blocked-some p = at p.blocked
  where
    at :
        (o : Option (Assoc String))
        → with_blocked (record p { blocked = o }) ≡ record p { blocked = some (blocked_map o) }
    at none = refl
    at (some m) = refl

abbrev both_starred : Selection → Assoc String
both_starred p = starred "airplay" p (starred "spotify" p (blocked_map p.blocked))

abbrev at_rest : Selection → Selection
at_rest p = record p { current = ""; pending = "" }

-- The selection that Standby leaves.
stand_by-selection :
    (s : Inbox)
    → (stand_by s).selection
      ≡ record s.selection { current = ""; pending = ""; blocked = some (both_starred s.selection) }
unfolding stand_by
stand_by-selection s =
    let p = s.selection in
    let b = blocked_map p.blocked in
    ap (λ q. at_rest (block_all_of "airplay" (block_all_of "spotify" q))) (with_blocked-some p)
    ∙ ap (λ q. at_rest (block_all_of "airplay" q)) (block_all_of-some "spotify" p b)
    ∙ ap at_rest (block_all_of-some "airplay" p (starred "spotify" p b))

-- When a receiver whose choice was never made is put on standby, the next choice is the one that
-- a fresh selection makes: what Standby blocks is forgotten with the maps that the choice makes.
pub choose-stand_by_unpolled :
    (values : Values) (s : Inbox)
    → s.selection.playing ≡ none
    → choose values (stand_by s).selection ≡ choose values no_selection
unfolding choose surveyed
choose-stand_by_unpolled values s h =
    let p = s.selection in
    let q : Selection = record p { current = ""; pending = ""; blocked = some (both_starred p) } in
    ap (choose values) (stand_by-selection s)
    ∙ ap
        (λ m.
          let (r, c) = survey values "airplay" (survey values "spotify" (m, "")) in
          settle values r (candidate_of values r c))
        (ap (λ o. made_at o q) h)

find_or-starred :
    (id j : String) (p : Selection) (b : Assoc String)
    → find_or "" id (starred j p b)
      ≡ (if maybe_playing j p && str_eq j id then "*" else find_or "" id b)
unfolding starred
find_or-starred id j p b = ground (arith, find-insert j id "*" b)

if-other : (c : Bool) (x y : String) → (if c && false then x else y) ≡ y
if-other c x y = ground arith

-- What may be playing is starred, for both providers.
both_starred-star :
    (id : String) (p : Selection)
    → maybe_playing id p ≡ true
    → (str_eq id "spotify" || str_eq id "airplay") ≡ true
    → find_or "" id (both_starred p) ≡ "*"
both_starred-star id p m k = elim (Bool-cases (str_eq id "airplay")) [
  | inl e ↦
      let here = (eq_iff id "airplay").0 e in
      subst (λ j. find_or "" j (both_starred p) ≡ "*") (sym here)
        (find_or-starred "airplay" "airplay" p _
          ∙ rw (subst (λ j. maybe_playing j p ≡ true) here m) refl)
  | inr e ↦
      let here = (eq_iff id "spotify").0 (ground (arith, e, k)) in
      let b = blocked_map p.blocked in
      subst (λ j. find_or "" j (both_starred p) ≡ "*") (sym here)
        (find_or-starred "spotify" "airplay" p (starred "spotify" p b)
          ∙ if-other (maybe_playing "airplay" p) "*" _
          ∙ find_or-starred "spotify" "spotify" p b
          ∙ rw (subst (λ j. maybe_playing j p ≡ true) here m) refl)
]

-- When a receiver that has been polled is put on standby, the next choice is no sender, or one
-- that was known not to play then.
pub choose-stand_by :
    (values : Values) (s : Inbox) (m : Assoc Bool)
    → s.selection.playing ≡ some m
    → ((choose values (stand_by s).selection).1 ≡ "")
      ⊎ (maybe_playing (choose values (stand_by s).selection).1 s.selection ≡ false)
choose-stand_by values s m h =
    let p = s.selection in
    let q : Selection = record p { current = ""; pending = ""; blocked = some (both_starred p) } in
    let same = stand_by-selection s in
    let result = choose-Handoff values q in
    subst (λ r. ((choose values r).1 ≡ "") ⊎ (maybe_playing (choose values r).1 p ≡ false))
      (sym same)
      (elim result [
        | inl e ↦ inl e
        | inr v ↦ elim (Bool-cases (maybe_playing (choose values q).1 p)) [
          | inr calm ↦ inr calm
          | inl loud ↦
              let id = (choose values q).1 in
              let star = both_starred-star id p loud v.known in
              elim v.unstopped [
                | inl fresh ↦ cc
                | inr free ↦ absurd (ground (arith, ap (λ x. str_eq x "*") star, free.0))
              ]
        ]
      ])
