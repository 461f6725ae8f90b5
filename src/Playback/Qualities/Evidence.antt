-- ===== src/Playback/Qualities/Evidence.antt =====
-- qualities.go: the probes behind the tiers that `canDecodeH264Tier` accepts.
use zombiebox_gateway_core.Base.{
  ℕ, ◌≤◌, ◌<◌, ◌≡◌, ◌⊎◌, inl, inr, String, true, List, [], ◌∷◌, arith, All, any, str_eq, ◌*◌, ◌==◌,
  leb, leb→le, if◌then◌else◌, Bool-cases,
}
use zombiebox_gateway_core.Domain.{Capabilities, Stream}
use zombiebox_gateway_core.Playback.Planner.Evidence.{
  Certifies, baseline_360, baseline_480, main_720, high_720, high_1080, high_2160, Proven, Decodes,
  passed-Proven,
}
use zombiebox_gateway_core.Playback.Qualities.Tiers.{
  effective, named_tier, classify_dimensions_tier, decoders_360, decoders_480, decoders_720,
  decoders_1080, is_probe_passing, can_decode_h264_tier,
}

-- A fresh pass of a video probe that is at least this tall.
pub record Covers (caps : Capabilities) (now : ℕ) (height : ℕ) : Type 0 where
  pub id : String
  pub max_width : ℕ
  pub max_height : ℕ
  pub certified : Certifies id max_width max_height
  pub proven : Proven caps now id
  pub tall : height ≤ max_height

-- A probe of the suite that is at least this tall.
abbrev Tall : ℕ → String → Type 0
Tall height id = (w : ℕ) × (h : ℕ) × Certifies id w h × (height ≤ h)

module _ (caps : Capabilities) (now : ℕ) where
  any-Covers :
      (height : ℕ) (ids : List String)
      → All (Tall height) ids
      → any (is_probe_passing caps now) ids ≡ true
      → Covers caps now height
  any-Covers height [] t h = cc
  any-Covers height (id ∷ ids) t h = elim (Bool-cases (is_probe_passing caps now id)) [
    | inl p ↦
        let (w, k, c, le) = t.0 in
        record {
          id = id;
          max_width = w;
          max_height = k;
          certified = c;
          proven = passed-Proven caps now id p;
          tall = le;
        }
    | inr p ↦ any-Covers height ids t.1 (ground arith)
  ]

  pub Covers-of_Decodes : (s : Stream) → Decodes caps now s → Covers caps now s.height
  Covers-of_Decodes s d = record {
    id = d.id;
    max_width = d.max_width;
    max_height = d.max_height;
    certified = d.certified;
    proven = d.proven;
    tall = d.height_fits;
  }

  pub Covers-mono : {h k : ℕ} → h ≤ k → Covers caps now k → Covers caps now h
  Covers-mono le c = record {
    id = c.id;
    max_width = c.max_width;
    max_height = c.max_height;
    certified = c.certified;
    proven = c.proven;
    tall = omega arith;
  }

-- The nominal height of a tier's name; the small tiers share the evidence for 360p.
unfoldable pub nominal : String → ℕ
nominal id =
    if str_eq id "1080p"
    then 1080
    else (if str_eq id "720p" then 720 else (if str_eq id "480p" then 480 else 360))

Tall-1080 : (h : ℕ) → h ≤ 1080 → All (Tall h) decoders_1080
Tall-1080 h le = ((1920, 1080, high_1080, le), ((3840, 2160, high_2160, omega arith), tt))

Tall-720 : (h : ℕ) → h ≤ 720 → All (Tall h) decoders_720
Tall-720 h le = ((1280, 720, main_720, le), ((1280, 720, high_720, le), Tall-1080 h (omega arith)))

Tall-480 : (h : ℕ) → h ≤ 480 → All (Tall h) decoders_480
Tall-480 h le = ((854, 480, baseline_480, le), Tall-720 h (omega arith))

Tall-360 : (h : ℕ) → h ≤ 360 → All (Tall h) decoders_360
Tall-360 h le = ((640, 360, baseline_360, le), Tall-480 h (omega arith))

-- A tier that the code takes for decodable has a probe that is at least as tall as its name says.
pub can_decode_h264_tier-Covers :
    (caps : Capabilities) (now : ℕ) (id : String)
    → can_decode_h264_tier caps now id ≡ true
    → Covers caps now (nominal id)
unfolding can_decode_h264_tier nominal
can_decode_h264_tier-Covers caps now id h = elim (Bool-cases (str_eq id "1080p")) [
  | inl a ↦ rw a (any-Covers caps now 1080 decoders_1080 (Tall-1080 1080 (omega arith)) (rw a at h))
  | inr a ↦ elim (Bool-cases (str_eq id "720p")) [
    | inl b ↦
        rw (a, b)
          (any-Covers caps now 720 decoders_720 (Tall-720 720 (omega arith)) (rw (a, b) at h))
    | inr b ↦ elim (Bool-cases (str_eq id "480p")) [
      | inl c ↦
          rw (a, b, c)
            (any-Covers caps now 480 decoders_480 (Tall-480 480 (omega arith)) (rw (a, b, c) at h))
      | inr c ↦
          rw (a, b, c)
            (any-Covers caps now 360 decoders_360 (Tall-360 360 (omega arith)) (ground arith))
    ]
  ]
]

nominal_360 : (id : String) → 360 ≤ nominal id
unfolding nominal
nominal_360 id = ground arith

-- The name of a reach, in 16ths of a line.
pub nominal-named_tier :
    (reach : ℕ)
    → ((1080 * 16 ≤ reach) × (nominal (named_tier reach) ≡ 1080))
      ⊎ ((720 * 16 ≤ reach) × (reach < 1080 * 16) × (nominal (named_tier reach) ≡ 720))
      ⊎ ((480 * 16 ≤ reach) × (reach < 720 * 16) × (nominal (named_tier reach) ≡ 480))
      ⊎ ((reach < 480 * 16) × (nominal (named_tier reach) ≡ 360))
unfolding named_tier nominal
nominal-named_tier reach = elim (Bool-cases (leb (1080 * 16) reach)) [
  | inl a ↦ inl (leb→le _ _ a, rw a)
  | inr a ↦ elim (Bool-cases (leb (720 * 16) reach)) [
    | inl b ↦ inr (inl (leb→le _ _ b, ground arith, rw (a, b)))
    | inr b ↦ elim (Bool-cases (leb (480 * 16) reach)) [
      | inl c ↦ inr (inr (inl (leb→le _ _ c, ground arith, rw (a, b, c))))
      | inr c ↦ inr (inr (inr (ground arith, rw (a, b, c))))
    ]
  ]
]

effective-reach : (w h : ℕ) → (h * 16 ≤ effective w h) × (w * 9 ≤ effective w h)
unfolding effective
effective-reach w h = ground arith

reaches :
    (reach h : ℕ)
    → h * 16 ≤ reach
    → (h ≡ 1080) ⊎ (h ≡ 720) ⊎ (h ≡ 480) ⊎ (h ≤ 360)
    → h ≤ nominal (named_tier reach)
reaches reach h le s = omega (arith, nominal-named_tier reach)

-- A standard height is reached by the tier that the picture is classified as.
pub classify-reaches :
    (w h : ℕ)
    → (h ≡ 1080) ⊎ (h ≡ 720) ⊎ (h ≡ 480) ⊎ (h ≤ 360)
    → h ≤ nominal (classify_dimensions_tier w h)
unfolding classify_dimensions_tier
classify-reaches w h s = elim (Bool-cases (h == 0)) [
  | inl z ↦ ground (arith, nominal_360 (classify_dimensions_tier w h))
  | inr z ↦ rw z (reaches (effective w h) h (effective-reach w h).0 s)
]
