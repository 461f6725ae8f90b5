-- ===== src/Playback/Cast/Laws.antt =====
-- cast_profile.go: the bounds of a capped grant.
use zombiebox_gateway_core.Base.{
  ℕ, ◌*◌, ◌≤◌, ◌<◌, ◌≡◌, ◌⊎◌, ◌↔◌, inl, inr, refl, sym, ap, subst, true, false, none, some, List,
  [], ◌∷◌, arith, All, All-mono, ltb, leb, ◌==◌, Bool-cases,
}
use zombiebox_gateway_core.Playback.Cast.{
  CastVideo, Grant, screen_tiers, budget_of, tier_fits, cap_to, cap_cast_profile_for_network,
  low_goodput,
}

-- No limit of the first is above the second's.
pub record WithinProfile (a b : CastVideo) : Type 0 where
  pub width : a.max_width ≤ b.max_width
  pub height : a.max_height ≤ b.max_height
  pub fps : a.fps ≤ b.fps
  pub bitrate : a.bitrate ≤ b.bitrate

-- A tier that the budget and the profile allow.
abbrev pub Fits : CastVideo → ℕ → CastVideo → Type 0
Fits profile budget t =
    (t.bitrate ≤ budget)
    × (t.bitrate ≤ profile.bitrate)
    × (t.max_height ≤ profile.max_height)
    × (t.max_width ≤ profile.max_width)

tier_fits_iff :
    (profile : CastVideo) (budget : ℕ) (t : CastVideo)
    → (tier_fits profile budget t ≡ true) ↔ Fits profile budget t
unfolding tier_fits
tier_fits_iff profile budget t = (λ h. ground arith, λ h. ground arith)

-- The bit rates of the list fall.
abbrev Falling : ℕ → List CastVideo → Type 0
Falling top [] = Unit {0}
Falling top (t ∷ ts) = (t.bitrate ≤ top) × Falling t.bitrate ts

module _ (profile : CastVideo) (budget : ℕ) where
  cap_to-bounds :
      (ts : List CastVideo)
      → 800000 ≤ budget
      → WithinProfile (cap_to profile budget ts) profile
        × ((cap_to profile budget ts).bitrate ≤ budget)
  unfolding cap_to
  cap_to-bounds [] h = (omega arith, omega arith)
  cap_to-bounds (t ∷ ts) h = elim (Bool-cases (tier_fits profile budget t)) [
    | inl e ↦
        let (b, r, y, x) = (tier_fits_iff profile budget t).0 e in rw e (omega arith, omega arith)
    | inr e ↦ rw e (cap_to-bounds ts h)
  ]

AtMost : ℕ → CastVideo → Type 0
AtMost top t = t.bitrate ≤ top

Falling-le : (top : ℕ) (ts : List CastVideo) → Falling top ts → All (AtMost top) ts
unfolding AtMost
Falling-le top [] f = tt
Falling-le top (t ∷ ts) f = (
  f.0,
  All-mono (AtMost t.bitrate) (AtMost top) ts (λ u le. omega arith) (Falling-le t.bitrate ts f.1),
)

-- No tier that fits has a higher bit rate.
abbrev pub Best : CastVideo → ℕ → List CastVideo → ℕ → Type 0
Best profile budget ts rate = All (λ t. Fits profile budget t → t.bitrate ≤ rate) ts

module _ (profile : CastVideo) (budget : ℕ) where
  cap_to-hit :
      (t : CastVideo) (ts : List CastVideo)
      → tier_fits profile budget t ≡ true
      → (cap_to profile budget (t ∷ ts)).bitrate ≡ t.bitrate
  unfolding cap_to
  cap_to-hit t ts e = rw e

  cap_to-miss :
      (t : CastVideo) (ts : List CastVideo)
      → tier_fits profile budget t ≡ false
      → cap_to profile budget (t ∷ ts) ≡ cap_to profile budget ts
  unfolding cap_to
  cap_to-miss t ts e = rw e

  cap_to-Best :
      (top : ℕ) (ts : List CastVideo)
      → Falling top ts
      → Best profile budget ts (cap_to profile budget ts).bitrate
  cap_to-Best top [] f = tt
  cap_to-Best top (t ∷ ts) f = elim (Bool-cases (tier_fits profile budget t)) [
    | inl e ↦
        let tail : Best profile budget ts t.bitrate =
          All-mono (AtMost t.bitrate) (λ u. Fits profile budget u → u.bitrate ≤ t.bitrate) ts
            (λ u le _. unfold AtMost in le) (Falling-le t.bitrate ts f.1) in
        subst (Best profile budget (t ∷ ts)) (sym (cap_to-hit t ts e)) (λ _. omega arith, tail)
    | inr e ↦
        subst (Best profile budget (t ∷ ts)) (sym (ap (λ v. v.bitrate) (cap_to-miss t ts e))) (
          λ fits. absurd (ground (arith, (tier_fits_iff profile budget t).1 fits)),
          cap_to-Best t.bitrate ts f.1,
        )
  ]

budget_of-le : (kbps : ℕ) → budget_of kbps ≤ kbps * 700
unfolding budget_of
budget_of-le kbps = ground arith

-- What the network cap promises for each of its results.
abbrev pub CapSound : CastVideo → ℕ → Grant → Type 0
CapSound profile kbps (r, some e) = (e ≡ low_goodput) × (0 < kbps) × (budget_of kbps < 800000)
CapSound profile kbps (r, none) =
    WithinProfile r profile
    × (((kbps ≡ 0) × (r ≡ profile))
        ⊎ ((0 < kbps)
            × (r.bitrate ≤ kbps * 700)
            × (r.bitrate ≤ budget_of kbps)
            × Best profile (budget_of kbps) screen_tiers r.bitrate))

Best-profile :
    (profile : CastVideo) (budget : ℕ) (ts : List CastVideo)
    → Best profile budget ts profile.bitrate
Best-profile profile budget [] = tt
Best-profile profile budget (t ∷ ts) = (λ fits. fits.1, Best-profile profile budget ts)

WithinProfile-refl : (p : CastVideo) → WithinProfile p p
WithinProfile-refl p = omega arith

-- For every profile and goodput in kbit/s: the cap fails with the low goodput error only, and only
-- if a goodput is measured and its 70% (as int64) is below 800 kbit/s. Otherwise no limit of the
-- granted profile is above the given one's; with no measured goodput the profile is unchanged;
-- with one, its bit rate is at most 70% of the goodput, and at least that of every screen tier
-- that fits both the budget and the given profile.
pub cap_cast_profile_for_network-CapSound :
    (profile : CastVideo) (kbps : ℕ)
    → CapSound profile kbps (cap_cast_profile_for_network profile kbps)
unfolding cap_cast_profile_for_network
cap_cast_profile_for_network-CapSound profile kbps = elim (Bool-cases (kbps == 0)) [
  | inl z ↦ rw z (WithinProfile-refl profile, inl (ground arith, refl))
  | inr z ↦ elim (Bool-cases (ltb (budget_of kbps) 800000)) [
    | inl low ↦ rw (z, low) (refl, ground arith, ground arith)
    | inr high ↦ elim (Bool-cases (leb profile.bitrate (budget_of kbps))) [
      | inl fits ↦
          rw (z, high, fits)
            (
              WithinProfile-refl profile,
              inr (
                ground arith,
                ground (arith, budget_of-le kbps),
                ground arith,
                Best-profile profile (budget_of kbps) screen_tiers,
              ),
            )
      | inr more ↦
          let (within, small) =
            cap_to-bounds profile (budget_of kbps) screen_tiers (ground arith) in
          rw (z, high, more)
            (
              within,
              inr (
                ground arith,
                ground (arith, budget_of-le kbps, small),
                small,
                cap_to-Best profile (budget_of kbps) 12000000 screen_tiers (omega arith),
              ),
            )
    ]
  ]
]
