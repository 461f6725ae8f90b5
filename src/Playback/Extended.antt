-- ===== src/Playback/Extended.antt =====
-- gateway/internal/playback/extended.go: video beyond 1080p H.264, certified by its own probe.
use zombiebox_gateway_core.Base.{
  ℕ, ◌+◌, String, Bool, false, not, ◌&&◌, ◌||◌, Option, none, some, List, [], ◌∷◌, ltb, leb, ◌==◌,
  if◌then◌else◌, str_eq,
}
use zombiebox_gateway_core.Base.Text.{codes, contains, split, parse_int}
use zombiebox_gateway_core.Playback.Picture.{no_picture, exceeds, within}
use zombiebox_gateway_core.Domain.{Probe, Capabilities, Stream, Metadata}
use zombiebox_gateway_core.Playback.Probe.{week}
use zombiebox_gateway_core.Playback.Runtime.{Runtime}

-- One round of the loop over the two frame rates.
ratio_ok : ⦃rt : Runtime⦄ → List (List ℕ) → Bool
ratio_ok ⦃rt⦄ (numerator ∷ denominator ∷ []) = elim (rt.parse_float numerator) [
  | none ↦ false
  | some n ↦ elim (rt.parse_float denominator) [
    | none ↦ false
    | some d ↦ rt.is_positive n && rt.is_positive d && rt.at_most_30 n d
  ]
]
ratio_ok _ = false

unfoldable pub rate_ok : ⦃rt : Runtime⦄ → String → Bool
unfolding ratio_ok
rate_ok rate = ratio_ok (split b'/' (codes rate))

-- The probe that certifies the stream and the bit rate that it certifies, if any does.
unfoldable pub extended_probe : Stream → Metadata → Option (String × ℕ)
extended_probe s m =
    if str_eq s.codec "hevc"
    then (if not (str_eq s.profile "Main")
          || s.level == 0
          || ltb 150 s.level
          || not (str_eq s.codec_tag "hvc1")
          || not (contains (codes m.format_name) (codes "mp4"))
        then none
        else if within s 1920 1080
        then (if ltb 120 s.level then none else some ("hevc-1080-main", 4000000))
        else some ("hevc-2160-main", 12000000))
    else if not (str_eq s.codec "h264")
        || not (str_eq s.profile "High")
        || s.level == 0
        || ltb 51 s.level
    then none
    else some ("h264-2160-high", 12000000)

-- The last loop: the first probe of the id decides.
unfoldable pub first_probe_passes : String → ℕ → List Probe → Bool
first_probe_passes id now [] = false
first_probe_passes id now (p ∷ ps) =
    if str_eq p.id id
    then str_eq p.status "PASS"
      && not p.stalled
      && leb 500 p.position_ms
      && ltb now (p.tested_at + week)
      && leb p.tested_at (now + 300)
    else first_probe_passes id now ps

unfoldable pub bit_rate_within : Metadata → ℕ → Bool
bit_rate_within m limit =
    let (rate, valid) = parse_int (codes m.bit_rate) in valid && not (rate == 0) && leb rate limit

unfoldable pub extended_video_candidate :
    ⦃rt : Runtime⦄ → Stream → Metadata → Capabilities → ℕ → Bool
extended_video_candidate s m caps now =
    if not (str_eq s.color_transfer "bt709") || not (str_eq s.color_primaries "bt709")
    then false
    else if not (caps.suite_version == 2)
        || str_eq caps.cache_key ""
        || no_picture s
        || exceeds s 3840 2160
        || not (str_eq s.pixel_format "yuv420p")
    then false
    else if not (rate_ok s.frame_rate && rate_ok s.average_frame_rate)
    then false
    else elim (extended_probe s m) [
      | none ↦ false
      | some (probe, limit) ↦ bit_rate_within m limit && first_probe_passes probe now caps.probes
    ]
