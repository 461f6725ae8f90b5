-- ===== src/Playback/Qualities/Tiers.antt =====
-- qualities.go: the standard tiers, and what a device can show and decode of them.
use zombiebox_gateway_core.Base.{
  ℕ, ◌*◌, String, Bool, false, not, ◌&&◌, ◌||◌, Option, none, some, List, [], ◌∷◌, any, ltb, leb,
  ◌==◌, if◌then◌else◌, str_eq,
}
use zombiebox_gateway_core.Domain.{
  Probe, Capabilities, Stream, Metadata, Source, DisplayMode, Display, Hardware, Device,
}
use zombiebox_gateway_core.Playback.Runtime.{Runtime}
use zombiebox_gateway_core.Playback.Probe.{probe_status, passed}
use zombiebox_gateway_core.Playback.Devices.{probe_suite_version, no_evidence}
use zombiebox_gateway_core.Playback.Extended.{extended_video_candidate}
use zombiebox_gateway_core.Playback.Hls.{is_video, is_audio}
use zombiebox_gateway_core.Playback.Planner.Codecs.{needs_compatible_container, is_extended}

pub record QualityTier : Type 0 where
  pub id : String
  pub label : String
  pub height : ℕ
  pub width : ℕ
  pub bitrate : ℕ

abbrev tier : String → String → ℕ → ℕ → ℕ → QualityTier
tier id label h w b = record { id = id; label = label; height = h; width = w; bitrate = b }

abbrev pub standard_tiers : List QualityTier
standard_tiers =
    tier "2160p" "4K (2160p)" 2160 3840 12000000
    ∷ tier "1440p" "1440p" 1440 2560 8000000
    ∷ tier "1080p" "1080p" 1080 1920 4000000
    ∷ tier "720p" "720p" 720 1280 2000000
    ∷ tier "480p" "480p" 480 854 1200000
    ∷ tier "360p" "360p" 360 640 1000000
    ∷ tier "240p" "240p" 240 426 400000
    ∷ tier "144p" "144p" 144 256 200000
    ∷ []

-- 16 times the 16:9 height that the picture reaches by its height or by its width.
unfoldable pub effective : ℕ → ℕ → ℕ
effective width height = if ltb (height * 16) (width * 9) then width * 9 else height * 16

-- The switch of `classifyDimensionsTier`.
unfoldable pub named_tier : ℕ → String
named_tier reach =
    if leb (1080 * 16) reach
    then "1080p"
    else if leb (720 * 16) reach
    then "720p"
    else if leb (480 * 16) reach
    then "480p"
    else "360p"

unfoldable pub classify_dimensions_tier : ℕ → ℕ → String
classify_dimensions_tier width height =
    if height == 0 then "" else named_tier (effective width height)

find_tier_in : String → List QualityTier → Option QualityTier
find_tier_in id [] = none
find_tier_in id (t ∷ ts) = if str_eq t.id id then some t else find_tier_in id ts

unfoldable pub find_tier : String → Option QualityTier
unfolding find_tier_in
find_tier id = find_tier_in id standard_tiers

-- One round of the loop of `findVideoStream`: the first of the tallest.
abbrev taller : Option Stream → Stream → Option Stream
taller none s = if is_video s then some s else none
taller (some best) s = if is_video s && ltb best.height s.height then some s else some best

find_video_from : Option Stream → List Stream → Option Stream
find_video_from best [] = best
find_video_from best (s ∷ ss) = find_video_from (taller best s) ss

unfoldable pub find_video_stream : List Stream → Option Stream
unfolding find_video_from
find_video_stream ss = find_video_from none ss

abbrev quality_names : List String
quality_names =
    "" ∷ "auto" ∷ "STANDARD" ∷ "LOW" ∷ "144p" ∷ "240p" ∷ "360p" ∷ "480p" ∷ "720p" ∷ "1080p"
    ∷ "1440p" ∷ "2160p" ∷ []

unfoldable pub valid_quality : String → Bool
valid_quality quality = any (str_eq quality) quality_names

-- The loops of `maxSupportedOutputHeight` over the modes and the displays.
tallest_mode : ℕ → List DisplayMode → ℕ
tallest_mode h [] = h
tallest_mode h (d ∷ ds) = tallest_mode (if ltb h d.mode_height then d.mode_height else h) ds

tallest_display : ℕ → List Display → ℕ
unfolding tallest_mode
tallest_display h [] = h
tallest_display h (d ∷ ds) = tallest_display (if d.is_default then tallest_mode h d.modes else h) ds

abbrev output_height_of : Option Hardware → ℕ
output_height_of none = 0
output_height_of (some h) = tallest_display 0 h.displays

unfoldable pub max_supported_output_height : Device → ℕ
unfolding tallest_display
max_supported_output_height d = output_height_of d.hardware

-- The decoder probes that serve a tier, the tallest last.
abbrev pub decoders_1080 : List String
decoders_1080 = "h264-1080-high" ∷ "h264-2160-high" ∷ []

abbrev pub decoders_720 : List String
decoders_720 = "h264-720-main" ∷ "h264-720-high" ∷ decoders_1080

abbrev pub decoders_480 : List String
decoders_480 = "h264-baseline-480" ∷ decoders_720

abbrev pub decoders_360 : List String
decoders_360 = "h264-baseline-360" ∷ decoders_480

module _ (caps : Capabilities) (now : ℕ) where
  abbrev pub is_probe_passing : String → Bool
  is_probe_passing id = passed (probe_status caps id now)

  abbrev pub passes_any : List String → Bool
  passes_any ids = any is_probe_passing ids

  unfoldable pub can_transcode : Bool
  can_transcode = is_probe_passing "http-fmp4" && is_probe_passing "aac" && passes_any decoders_360

  unfoldable pub can_decode_h264_tier : String → Bool
  can_decode_h264_tier id =
      if str_eq id "1080p"
      then passes_any decoders_1080
      else if str_eq id "720p"
      then passes_any decoders_720
      else if str_eq id "480p"
      then passes_any decoders_480
      else if str_eq id "360p" || str_eq id "240p" || str_eq id "144p"
      then passes_any decoders_360
      else false

  -- `hasAudioStream` and `audioFound` of the loop over the streams.
  abbrev playable_audio : Stream → Bool
  playable_audio s =
      is_audio s && (if str_eq s.codec "aac" then is_probe_passing "aac" else str_eq s.codec "mp3")

  abbrev pub native_video : ⦃rt : Runtime⦄ → Metadata → ℕ → Option Stream → Bool
  native_video m max_height none = false
  native_video m max_height (some v) =
      if v.height == 0
      then false
      else if any is_audio m.streams && not (any playable_audio m.streams)
      then false
      else if ltb 0 max_height && ltb max_height v.height
      then false
      else if is_extended v
      then extended_video_candidate v m caps now
      else str_eq v.codec "h264" && can_decode_h264_tier (classify_dimensions_tier v.width v.height)

  unfoldable pub is_native_direct_play_verified : ⦃rt : Runtime⦄ → Metadata → Source → Device → Bool
  is_native_direct_play_verified m s d =
      if not (str_eq s.audio_url "")
      then false
      else if needs_compatible_container m.format_name s.mime
      then false
      else if str_eq s.mime "video/x-matroska" || str_eq s.mime "video/webm"
      then false
      else if any (λ (p : Probe). str_eq p.id "http-progressive" && str_eq p.status "FAIL")
          caps.probes
      then false
      else native_video m (max_supported_output_height d) (find_video_stream m.streams)

unfoldable pub current_caps : Device → Capabilities
current_caps d =
    if not (d.capabilities.suite_version == 0)
      && not (d.capabilities.suite_version == probe_suite_version)
    then no_evidence d
    else d.capabilities
