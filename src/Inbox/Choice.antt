-- ===== src/Inbox/Choice.antt =====
-- selection.go: what the two loops keep, and which sender comes out.
pub mod Uncertain
pub mod Suppressed
use zombiebox_gateway_core.Base.{
  ◌≡◌, refl, sym, ap, subst, ◌∙◌, ◌⊎◌, inl, inr, String, Bool, true, false, not, ◌&&◌, ◌||◌, Option,
  none, some, List, [], ◌∷◌, arith, if◌then◌else◌, if-split, Bool-cases, str_eq, eq_iff,
}
use zombiebox_gateway_core.Base.Assoc.{Assoc, find, find_or, erase, insert, find-erase}
use zombiebox_gateway_core.Inbox.Selection.{
  Observation, Selection, Values, value_of, failed, has_source, source_id, playing_of, blocked_of,
  unblock, made_at, made, note_playing, is_active, startable, survey, takeover, settle, surveyed,
  candidate_of, choose,
}

pub blocked_of-unblock :
    (id j : String) (p : Selection)
    → blocked_of id (unblock j p) ≡ (if str_eq j id then "" else blocked_of id p)
blocked_of-unblock id j p = at p.blocked
  where
    at :
        (o : Option (Assoc String))
        → blocked_of id (unblock j (record p { blocked = o }))
          ≡ (if str_eq j id then "" else blocked_of id (record p { blocked = o }))
    at none = ground arith
    at (some m) = ground (arith, find-erase j id m)

module _ (values : Values) (p : Selection) where
  -- What the rounds of the first loop leave of the selection they started from.
  record Framed (q : Selection) : Type 0 where
    current : q.current ≡ p.current
    pending : q.pending ≡ p.pending
    blocked :
        (id : String)
        → has_source (value_of id values) ≡ true
        → blocked_of id q ≡ blocked_of id (made p)

  -- A candidate is none, or a provider whose read succeeded and whose playback may start.
  record Fit (id : String) : Type 0 where
    read_ok : failed (value_of id values) ≡ false
    free : startable (made p) id (value_of id values) ≡ true
    known : (str_eq id "spotify" || str_eq id "airplay") ≡ true

  made_at-Framed :
      (o : Option (Assoc Bool))
      → ((id : String) → blocked_of id (made_at o p) ≡ blocked_of id (made p))
      → Framed (made_at o p)
  made_at-Framed none same = record { current = refl; pending = refl; blocked = λ id h. same id }
  made_at-Framed (some m) same = record {
    current = refl;
    pending = refl;
    blocked = λ id h. same id;
  }

  made-Framed : Framed (made p)
  made-Framed = made_at-Framed p.playing (λ id. refl)

  -- What has a source is not unblocked.
  unblock-Framed :
      (j : String) (q : Selection)
      → has_source (value_of j values) ≡ false
      → Framed q
      → Framed (unblock j q)
  unblock-Framed j q idle v = record {
    current = v.current;
    pending = v.pending;
    blocked = λ id h.
        blocked_of-unblock id j q
        ∙ ground (arith, eq_iff j id, v.blocked id h, has_source_other id j h idle);
  }
    where
      has_source_other :
          (id j : String)
          → has_source (value_of id values) ≡ true
          → has_source (value_of j values) ≡ false
          → str_eq j id ≡ false
      has_source_other id j h g = elim (Bool-cases (str_eq j id)) [
        | inl e ↦
            absurd
              (ground (arith, h, g, ap (λ k. has_source (value_of k values)) ((eq_iff j id).0 e)))
        | inr e ↦ e
      ]

  note-Framed :
      (j : String) (active : Bool) (q : Selection) → Framed q → Framed (note_playing j active q)
  note-Framed j active q v = record {
    current = v.current;
    pending = v.pending;
    blocked = v.blocked;
  }

  -- A free candidate is free in every selection that the rounds leave.
  startable-Fit :
      (id : String) (q : Selection)
      → Framed q
      → (str_eq id "spotify" || str_eq id "airplay") ≡ true
      → failed (value_of id values) ≡ false
      → startable q id (value_of id values) ≡ true
      → Fit id
  unfolding startable is_active
  startable-Fit id q v known ok s = record {
    read_ok = ok;
    free = ground (arith, s, v.blocked id (ground (arith, s)));
    known = known;
  }

  record Round (r : Selection × String) : Type 0 where
    frame : Framed r.0
    candidate : (r.1 ≡ "") ⊎ Fit r.1

  survey-Round :
      (id : String) (r : Selection × String)
      → (str_eq id "spotify" || str_eq id "airplay") ≡ true
      → Round r
      → Round (survey values id r)
  unfolding survey
  survey-Round id (q, candidate) known v =
      let o = value_of id values in
      let u = if has_source o then q else unblock id q in
      let newly = not (playing_of id u) || str_eq u.pending id || str_eq u.current "" in
      let framed : Framed u =
        if-split Framed (has_source o) q (unblock id q) (λ e. v.frame)
          (λ e. unblock-Framed id q e v.frame) in
      if-split Round (failed o) (q, candidate) _ (λ e. v)
        λ ok. record {
          frame = note-Framed id (is_active o) u framed;
          candidate =
              if-split (λ c. (c ≡ "") ⊎ Fit c)
                (startable u id o && not (str_eq id u.current) && newly) id candidate
                (λ e. inr (startable-Fit id u framed known ok (ground (arith, e))))
                (λ e. v.candidate);
        }

  surveyed-Round : Round (surveyed values p)
  unfolding surveyed
  surveyed-Round = survey-Round "airplay" (survey values "spotify" (made p, "")) refl (
      survey-Round "spotify" (made p, "") refl
        (record { frame = made-Framed; candidate = inl refl }))

  takeover-Fit :
      (id : String) (q : Selection) (candidate : String)
      → (str_eq id "spotify" || str_eq id "airplay") ≡ true
      → Framed q
      → (candidate ≡ "") ⊎ Fit candidate
      → (takeover values q id candidate ≡ "") ⊎ Fit (takeover values q id candidate)
  unfolding takeover
  takeover-Fit id q candidate known v h =
      if-split (λ c. (c ≡ "") ⊎ Fit c)
        (not (failed (value_of id values)) && startable q id (value_of id values)) id candidate
        (λ e. inr (startable-Fit id q v known (ground (arith, e)) (ground (arith, e)))) (λ e. h)

  candidate_of-Fit :
      (r : Selection × String)
      → Round r
      → (candidate_of values r.0 r.1 ≡ "") ⊎ Fit (candidate_of values r.0 r.1)
  unfolding candidate_of
  candidate_of-Fit (q, candidate) v =
      if-split (λ c. (c ≡ "") ⊎ Fit c) _
        (takeover values q "airplay" (takeover values q "spotify" candidate)) candidate
        (λ e.
          takeover-Fit "airplay" q _ refl v.frame
            (takeover-Fit "spotify" q candidate refl v.frame v.candidate))
        (λ e. v.candidate)

  -- No local stop is in force against what a provider plays: neither one for whatever it plays,
  -- `*`, nor one for this item. A first choice forgets the stops that came before it.
  abbrev pub Unstopped : String → Type 0
  Unstopped id =
      (p.playing ≡ none)
      ⊎ ((str_eq (blocked_of id p) "*" ≡ false)
          × (str_eq (blocked_of id p) (source_id (value_of id values)) ≡ false))

  startable-Unstopped :
      (id : String) → startable (made p) id (value_of id values) ≡ true → Unstopped id
  unfolding startable
  startable-Unstopped id h = at p.playing refl
    where
      at : (o : Option (Assoc Bool)) → p.playing ≡ o → Unstopped id
      at none e = inl e
      at (some m) e =
          let same = ap (λ o. blocked_of id (made_at o p)) e in
          inr (
            subst (λ b. str_eq b "*" ≡ false) same (ground (arith, h)),
            subst (λ b. str_eq b (source_id (value_of id values)) ≡ false) same (ground (arith, h)),
          )

  -- The current sender stays, or a provider that may start takes over: at once where there is no
  -- current sender, and else only if it was pending from an earlier poll.
  pub record Handoff (id : String) : Type 0 where
    pub read_ok : failed (value_of id values) ≡ false
    pub sends : has_source (value_of id values) ≡ true
    pub plays : str_eq (value_of id values).status.state "PLAYING" ≡ true
    pub unstopped : Unstopped id
    pub known : (str_eq id "spotify" || str_eq id "airplay") ≡ true
    pub twice : (str_eq p.current "" || str_eq p.pending id) ≡ true

  startable-sends :
      (id : String)
      → startable (made p) id (value_of id values) ≡ true
      → has_source (value_of id values) ≡ true
  unfolding startable is_active
  startable-sends id h = ground (arith, h)

  startable-plays :
      (id : String)
      → startable (made p) id (value_of id values) ≡ true
      → str_eq (value_of id values).status.state "PLAYING" ≡ true
  unfolding startable is_active
  startable-plays id h = ground (arith, h)

  settle-Handoff :
      (q : Selection) (c : String)
      → Framed q
      → (c ≡ "") ⊎ Fit c
      → ((settle values q c).1 ≡ p.current) ⊎ Handoff (settle values q c).1
  unfolding settle
  settle-Handoff q c v h = elim h [
    | inl e ↦ inl (ground (arith, e, v.current, eq_iff c ""))
    | inr f ↦ elim (Bool-cases (not (str_eq c "") && (str_eq q.current "" || str_eq q.pending c))) [
      | inl e ↦ rw e (
          inr (record {
            read_ok = f.read_ok;
            sends = startable-sends c f.free;
            plays = startable-plays c f.free;
            unstopped = startable-Unstopped c f.free;
            known = f.known;
            twice =
                subst (λ x. (str_eq x "" || str_eq p.pending c) ≡ true) v.current
                  (subst (λ x. (str_eq q.current "" || str_eq x c) ≡ true) v.pending
                    (ground (arith, e)));
          }))
      | inr e ↦ rw e (inl (ground (arith, v.current)))
    ]
  ]

-- For every observation and selection, the choice is the current sender, or a provider whose read
-- succeeded, that has a source and plays it, that was pending from an earlier poll unless there is
-- no current sender, and that neither a stop of whatever it plays nor one of this item suppresses,
-- unless this is a first choice (no playback is noted yet), which forgets the stops before it.
pub choose-Handoff :
    (values : Values) (p : Selection)
    → ((choose values p).1 ≡ p.current) ⊎ Handoff values p (choose values p).1
unfolding choose
choose-Handoff values p =
    let r = surveyed-Round values p in
    let (q, c) = surveyed values p in
    settle-Handoff values p q (candidate_of values q c) r.frame
      (candidate_of-Fit values p (surveyed values p) r)
