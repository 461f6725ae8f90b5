-- ===== src/Playback/Tracks/Preferred/Best.antt =====
-- preferences.go: the scores of the eligible tracks.
use zombiebox_gateway_core.Base.{
  ℕ, ◌≡◌, refl, sym, subst, ◌⊎◌, inl, inr, true, false, Option, none, some, List, [], ◌∷◌, Memᴰ,
  arith, All, Bool-cases,
}
use zombiebox_gateway_core.Domain.{Track}
use zombiebox_gateway_core.Playback.Tracks.Preferred.{
  Wanted, eligible, track_score, beats, best_of, prefer, prefer_from, preferred_track,
}

beats_irrefl : (a : Option ℕ) → beats a a ≡ false
beats_irrefl none = refl
beats_irrefl (some a) = ground arith

beats_trans : (a b c : Option ℕ) → beats a c ≡ false → beats b c ≡ true → beats a b ≡ false
beats_trans none b c h k = refl
beats_trans (some a) none c h k = absurd (cc)
beats_trans (some a) (some b) none h k = absurd (cc)
beats_trans (some a) (some b) (some c) h k = ground arith

-- Not better than the selected track, if it is eligible at all.
abbrev pub NoBetter : Wanted → Option Track → Track → Type 0
NoBetter w selected q =
    (eligible w q ≡ false) ⊎ (beats (track_score w q) (best_of w selected) ≡ false)

abbrev pub IsEligible : Wanted → Option Track → Type 0
IsEligible w none = Unit {0}
IsEligible w (some t) = eligible w t ≡ true

module _ (w : Wanted) where
  -- What a round gives: the track, which is eligible and better, or what was there.
  prefer_cases :
      (s : Option Track) (t : Track)
      → ((prefer w s t ≡ some t)
          × (eligible w t ≡ true)
          × (beats (track_score w t) (best_of w s) ≡ true))
        ⊎ ((prefer w s t ≡ s) × NoBetter w s t)
  unfolding prefer
  prefer_cases s t = elim (Bool-cases (eligible w t)) [
    | inr e ↦ inr (rw e refl, inl e)
    | inl e ↦ elim (Bool-cases (beats (track_score w t) (best_of w s))) [
      | inl b ↦ inl (rw (e, b) refl, e, b)
      | inr b ↦ inr (rw (e, b) refl, inr b)
    ]
  ]

  prefer-NoBetter : (s : Option Track) (t q : Track) → NoBetter w s q → NoBetter w (prefer w s t) q
  prefer-NoBetter s t q n = elim (prefer_cases s t) [
    | inr (e, _) ↦ subst (λ r. NoBetter w r q) (sym e) n
    | inl (e, _, b) ↦
        subst (λ r. NoBetter w r q) (sym e)
          (elim n [
            | inl i ↦ inl i
            | inr k ↦ inr (beats_trans (track_score w q) (track_score w t) (best_of w s) k b)
          ])
  ]

  prefer-NoBetter-self : (s : Option Track) (t : Track) → NoBetter w (prefer w s t) t
  prefer-NoBetter-self s t = elim (prefer_cases s t) [
    | inr (e, n) ↦ subst (λ r. NoBetter w r t) (sym e) n
    | inl (e, _, _) ↦ subst (λ r. NoBetter w r t) (sym e) (inr (beats_irrefl (track_score w t)))
  ]

  prefer-IsEligible : (s : Option Track) (t : Track) → IsEligible w s → IsEligible w (prefer w s t)
  prefer-IsEligible s t i = elim (prefer_cases s t) [
    | inr (e, _) ↦ subst (IsEligible w) (sym e) i
    | inl (e, g, _) ↦ subst (IsEligible w) (sym e) g
  ]

  prefer_from-NoBetter :
      (s : Option Track) (ts : List Track) (q : Track)
      → NoBetter w s q
      → NoBetter w (prefer_from w s ts) q
  unfolding prefer_from
  prefer_from-NoBetter s [] q n = n
  prefer_from-NoBetter s (t ∷ ts) q n =
      prefer_from-NoBetter (prefer w s t) ts q (prefer-NoBetter s t q n)

  prefer_from-All :
      (s : Option Track) (ts : List Track)
      → IsEligible w s
      → All (NoBetter w (prefer_from w s ts)) ts × IsEligible w (prefer_from w s ts)
  unfolding prefer_from
  prefer_from-All s [] i = (tt, i)
  prefer_from-All s (t ∷ ts) i =
      let rest = prefer_from-All (prefer w s t) ts (prefer-IsEligible s t i) in
      ((prefer_from-NoBetter (prefer w s t) ts t (prefer-NoBetter-self s t), rest.0), rest.1)

  prefer_from-Mem :
      (s : Option Track) (ts : List Track) (r : Track)
      → prefer_from w s ts ≡ some r
      → (s ≡ some r) ⊎ Memᴰ r ts
  unfolding prefer_from
  prefer_from-Mem s [] r h = inl h
  prefer_from-Mem s (t ∷ ts) r h = elim (prefer_from-Mem (prefer w s t) ts r h) [
    | inr m ↦ inr (Memᴰ.tail m)
    | inl e ↦ elim (prefer_cases s t) [
      | inr (f, _) ↦ inl (cc)
      | inl (f, _, _) ↦ inr (Memᴰ.head (cc))
    ]
  ]

-- What `preferredTrack` promises of its result.
abbrev pub Preferred : List Track → Wanted → Option Track → Type 0
Preferred tracks w none =
    All (λ q. (eligible w q ≡ false) ⊎ (beats (track_score w q) none ≡ false)) tracks
Preferred tracks w (some t) =
    Memᴰ t tracks
    × (eligible w t ≡ true)
    × All (λ q. (eligible w q ≡ false) ⊎ (beats (track_score w q) (track_score w t) ≡ false)) tracks

Preferred-of :
    (tracks : List Track) (w : Wanted) (r : Option Track)
    → ((t : Track) → r ≡ some t → Memᴰ t tracks)
    → IsEligible w r
    → All (NoBetter w r) tracks
    → Preferred tracks w r
Preferred-of tracks w none mem i a = a
Preferred-of tracks w (some t) mem i a = (mem t refl, i, a)

-- For all tracks and wishes: if a track is preferred, it is one of the list, it is of the wanted
-- kind, selectable, forced if only forced ones are wanted, and of a wanted language unless the
-- fallback is allowed, and no such track has a higher score; if none is, no such track has a score
-- above -1.
pub preferred_track-Preferred :
    (tracks : List Track) (w : Wanted) → Preferred tracks w (preferred_track tracks w)
unfolding preferred_track
preferred_track-Preferred tracks w =
    let (all, i) = prefer_from-All w none tracks tt in
    Preferred-of tracks w (prefer_from w none tracks)
      (λ t e. elim (prefer_from-Mem w none tracks t e) [ inl f ↦ absurd (cc) | inr m ↦ m ]) i all
