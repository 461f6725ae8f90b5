-- ===== src/Playback/Planner/Evidence.antt =====
-- The evidence that a decision of the planner rests on: an independent table of what each probe
-- certifies, and the lemmas that find the probe behind each test of the code.
use zombiebox_gateway_core.Base.{
  ℕ, ◌≤◌, ◌≡◌, refl, ◌⊎◌, inl, inr, String, true, ◌||◌, some, List, [], ◌∷◌, Memᴰ, arith, str_eq,
  Bool-cases, Option-cases, if◌then◌else◌,
}
use zombiebox_gateway_core.Domain.{Probe, Capabilities, Stream, Metadata}
use zombiebox_gateway_core.Playback.Picture.{exceeds-false, within-true}
use zombiebox_gateway_core.Playback.Runtime.{Runtime}
use zombiebox_gateway_core.Playback.Probe.{week, Verdict, pass, fail, unknown, probe_status, passed}
use zombiebox_gateway_core.Playback.Probe.Laws.{FreshPass, Explains, probe_status-Explains}
use zombiebox_gateway_core.Playback.Extended.{
  extended_video_candidate, extended_probe, first_probe_passes,
}
use zombiebox_gateway_core.Playback.Hls.{
  hls_video_candidate, has_fresh_hls_evidence, has_fresh_live_video_hls_evidence,
}
use zombiebox_gateway_core.Playback.Planner.Codecs.{video_candidate}

-- The probes of the suite that decode video, with the picture size of each.
pub data Certifies : String → ℕ → ℕ → Type 0 where
  baseline_360 : Certifies "h264-baseline-360" 640 360
  hls_segment : Certifies "hls-h264-aac" 640 360
  hls_event : Certifies "hls-event-h264-aac" 640 360
  baseline_480 : Certifies "h264-baseline-480" 854 480
  main_720 : Certifies "h264-720-main" 1280 720
  high_720 : Certifies "h264-720-high" 1280 720
  high_1080 : Certifies "h264-1080-high" 1920 1080
  high_2160 : Certifies "h264-2160-high" 3840 2160
  hevc_1080 : Certifies "hevc-1080-main" 1920 1080
  hevc_2160 : Certifies "hevc-2160-main" 3840 2160

-- A fresh pass of a probe.
pub record Proven (caps : Capabilities) (now : ℕ) (id : String) : Type 0 where
  pub probe : Probe
  pub listed : Memᴰ probe caps.probes
  pub same_id : str_eq probe.id id ≡ true
  pub fresh : FreshPass now probe

-- The codec that a video probe decodes.
abbrev pub codec_of : String → String
codec_of id = if str_eq id "hevc-1080-main" || str_eq id "hevc-2160-main" then "hevc" else "h264"

-- A fresh pass of a video probe of the stream's codec, whose picture is at least as large as the
-- stream's.
pub record Decodes (caps : Capabilities) (now : ℕ) (s : Stream) : Type 0 where
  pub id : String
  pub max_width : ℕ
  pub max_height : ℕ
  pub certified : Certifies id max_width max_height
  pub same_codec : str_eq s.codec (codec_of id) ≡ true
  pub proven : Proven caps now id
  pub width_fits : s.width ≤ max_width
  pub height_fits : s.height ≤ max_height

-- A passed probe of a table of (id, width, height) that holds the stream's picture.
abbrev Fits : Stream → (String → Verdict) → String → ℕ → ℕ → Type 0
Fits s status id w h = (passed (status id) ≡ true) × (s.width ≤ w) × (s.height ≤ h)

-- Which probe lets the code accept a video stream up to 1080p.
video_candidate-Fits :
    (s : Stream) (status : String → Verdict)
    → video_candidate s status ≡ true
    → Fits s status "h264-1080-high" 1920 1080
      ⊎ Fits s status "h264-720-high" 1280 720
      ⊎ Fits s status "h264-720-main" 1280 720
      ⊎ Fits s status "h264-baseline-360" 640 360
      ⊎ Fits s status "h264-baseline-480" 854 480
unfolding video_candidate
video_candidate-Fits s status h = ground (
  arith,
  exceeds-false s 1920 1080,
  exceeds-false s 1280 720,
  within-true s 640 360,
  within-true s 854 480,
)

-- The same for a stream of a manifest; the fixture of the manifest's own probe is 640 by 360.
hls_video_candidate-Fits :
    (s : Stream) (status : String → Verdict)
    → hls_video_candidate s status ≡ true
    → Fits s status "h264-2160-high" 3840 2160
      ⊎ Fits s status "h264-1080-high" 1920 1080
      ⊎ Fits s status "h264-720-high" 1280 720
      ⊎ Fits s status "h264-720-main" 1280 720
      ⊎ Fits s status "h264-baseline-480" 854 480
      ⊎ ((s.width ≤ 640) × (s.height ≤ 360))
unfolding hls_video_candidate
hls_video_candidate-Fits s status h = ground (
  arith,
  exceeds-false s 3840 2160,
  exceeds-false s 1920 1080,
  exceeds-false s 1280 720,
  within-true s 640 360,
  within-true s 854 480,
)

-- The certified size of an extended stream.
extended_probe-fits :
    (s : Stream) (m : Metadata) (id : String) (limit : ℕ)
    → extended_probe s m ≡ some (id, limit)
    → s.width ≤ 3840
    → s.height ≤ 2160
    → (((id ≡ "h264-2160-high") × (str_eq s.codec "h264" ≡ true))
        ⊎ ((id ≡ "hevc-2160-main") × (str_eq s.codec "hevc" ≡ true)))
      ⊎ ((id ≡ "hevc-1080-main")
          × (str_eq s.codec "hevc" ≡ true)
          × (s.width ≤ 1920)
          × (s.height ≤ 1080))
unfolding extended_probe
extended_probe-fits s m id limit e w h = ground (arith, within-true s 1920 1080)

extended_video_candidate-probe :
    ⦃rt : Runtime⦄ (s : Stream) (m : Metadata) (caps : Capabilities) (now : ℕ)
    → extended_video_candidate s m caps now ≡ true
    → (probe : String) × (limit : ℕ) × (extended_probe s m ≡ some (probe, limit))
      × (first_probe_passes probe now caps.probes ≡ true)
      × (s.width ≤ 3840)
      × (s.height ≤ 2160)
unfolding extended_video_candidate
extended_video_candidate-probe s m caps now h = elim (Option-cases (extended_probe s m)) [
  | inl e ↦ absurd (ground arith)
  | inr ((id, limit), e) ↦ (
    id,
    limit,
    e,
    ground arith,
    ground (arith, exceeds-false s 3840 2160),
    ground (arith, exceeds-false s 3840 2160),
  )
]

module _ (caps : Capabilities) (now : ℕ) where
  pub passed-Proven : (id : String) → passed (probe_status caps id now) ≡ true → Proven caps now id
  passed-Proven id h = go (probe_status caps id now) h (probe_status-Explains caps id now)
    where
      go : (v : Verdict) → passed v ≡ true → Explains caps.probes id now v → Proven caps now id
      go pass h (p, (m, i, _), f) = record { probe = p; listed = m; same_id = i; fresh = f }
      go fail h e = cc
      go unknown h e = cc

  first_probe_passes-Proven :
      (id : String) (ps : List Probe)
      → ((p : Probe) → Memᴰ p ps → Memᴰ p caps.probes)
      → week ≤ now
      → first_probe_passes id now ps ≡ true
      → Proven caps now id
  unfolding first_probe_passes
  first_probe_passes-Proven id [] sub w h = cc
  first_probe_passes-Proven id (p ∷ ps) sub w h = elim (Bool-cases (str_eq p.id id)) [
    | inr e ↦ first_probe_passes-Proven id ps (λ q m. sub q (Memᴰ.tail m)) w (rw e at h)
    | inl e ↦ record {
      probe = p;
      listed = sub p (Memᴰ.head refl);
      same_id = e;
      fresh = ground arith;
    }
  ]

  certify :
      (s : Stream) (id : String) (w h : ℕ)
      → Certifies id w h
      → str_eq s.codec (codec_of id) ≡ true
      → s.width ≤ w
      → s.height ≤ h
      → passed (probe_status caps id now) ≡ true
      → Decodes caps now s
  certify s id w h c k sw sh p = record {
    id = id;
    max_width = w;
    max_height = h;
    certified = c;
    same_codec = k;
    proven = passed-Proven id p;
    width_fits = sw;
    height_fits = sh;
  }

  first-certify :
      (s : Stream) (id : String) (w h : ℕ)
      → Certifies id w h
      → str_eq s.codec (codec_of id) ≡ true
      → s.width ≤ w
      → s.height ≤ h
      → week ≤ now
      → first_probe_passes id now caps.probes ≡ true
      → Decodes caps now s
  first-certify s id w h c k sw sh wk p = record {
    id = id;
    max_width = w;
    max_height = h;
    certified = c;
    same_codec = k;
    proven = first_probe_passes-Proven id caps.probes (λ q m. m) wk p;
    width_fits = sw;
    height_fits = sh;
  }

  -- A stream that the code lets through up to 1080p has a probe behind it.
  pub video_candidate-Decodes :
      (s : Stream)
      → str_eq s.codec "h264" ≡ true
      → video_candidate s (λ id. probe_status caps id now) ≡ true
      → Decodes caps now s
  video_candidate-Decodes s k h = elim (video_candidate-Fits s (λ id. probe_status caps id now) h) [
    | inl (p, w, t) ↦ certify s _ _ _ high_1080 k w t p
    | inr (inl (p, w, t)) ↦ certify s _ _ _ high_720 k w t p
    | inr (inr (inl (p, w, t))) ↦ certify s _ _ _ main_720 k w t p
    | inr (inr (inr (inl (p, w, t)))) ↦ certify s _ _ _ baseline_360 k w t p
    | inr (inr (inr (inr (p, w, t)))) ↦ certify s _ _ _ baseline_480 k w t p
  ]

  pub hls_evidence-Proven :
      has_fresh_hls_evidence caps now || has_fresh_live_video_hls_evidence caps now ≡ true
      → Proven caps now "hls-h264-aac" ⊎ Proven caps now "hls-event-h264-aac"
  unfolding has_fresh_hls_evidence has_fresh_live_video_hls_evidence
  hls_evidence-Proven h = elim (Bool-cases (passed (probe_status caps "hls-h264-aac" now))) [
    | inl p ↦ inl (passed-Proven "hls-h264-aac" p)
    | inr q ↦ inr (passed-Proven "hls-event-h264-aac" (ground arith))
  ]

  pub hls_video_candidate-Decodes :
      (s : Stream)
      → str_eq s.codec "h264" ≡ true
      → Proven caps now "hls-h264-aac" ⊎ Proven caps now "hls-event-h264-aac"
      → hls_video_candidate s (λ id. probe_status caps id now) ≡ true
      → Decodes caps now s
  hls_video_candidate-Decodes s k manifest h =
      elim (hls_video_candidate-Fits s (λ id. probe_status caps id now) h) [
        | inl (p, w, t) ↦ certify s _ _ _ high_2160 k w t p
        | inr (inl (p, w, t)) ↦ certify s _ _ _ high_1080 k w t p
        | inr (inr (inl (p, w, t))) ↦ certify s _ _ _ high_720 k w t p
        | inr (inr (inr (inl (p, w, t)))) ↦ certify s _ _ _ main_720 k w t p
        | inr (inr (inr (inr (inl (p, w, t))))) ↦ certify s _ _ _ baseline_480 k w t p
        | inr (inr (inr (inr (inr (w, t))))) ↦ elim manifest [
          | inl p ↦ record {
            id = "hls-h264-aac";
            max_width = 640;
            max_height = 360;
            certified = hls_segment;
            same_codec = k;
            proven = p;
            width_fits = w;
            height_fits = t;
          }
          | inr p ↦ record {
            id = "hls-event-h264-aac";
            max_width = 640;
            max_height = 360;
            certified = hls_event;
            same_codec = k;
            proven = p;
            width_fits = w;
            height_fits = t;
          }
        ]
      ]

  pub extended_video_candidate-Decodes :
      ⦃rt : Runtime⦄ (s : Stream) (m : Metadata)
      → week ≤ now
      → extended_video_candidate s m caps now ≡ true
      → Decodes caps now s
  extended_video_candidate-Decodes s m wk h =
      let (id, limit, e, f, w, t) = extended_video_candidate-probe s m caps now h in
      elim (extended_probe-fits s m id limit e w t) [
        | inl (inl (i, k)) ↦ first-certify s _ _ _ high_2160 k w t wk (rw i at f)
        | inl (inr (i, k)) ↦ first-certify s _ _ _ hevc_2160 k w t wk (rw i at f)
        | inr (i, k, w', t') ↦ first-certify s _ _ _ hevc_1080 k w' t' wk (rw i at f)
      ]
