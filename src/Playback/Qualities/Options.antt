-- ===== src/Playback/Qualities/Options.antt =====
-- qualities.go: `Qualities`, `HasQuality`, and the known-length remux of YouTube.
use zombiebox_gateway_core.Base.{
  ℕ, ◌+◌, String, Bool, true, false, not, ◌&&◌, ◌||◌, Option, none, some, List, [], ◌∷◌, map, any,
  keep, ltb, leb, ◌==◌, if◌then◌else◌, str_eq,
}
use zombiebox_gateway_core.Base.Text.{codes, lower, contains}
use zombiebox_gateway_core.Domain.{
  Probe, Capabilities, Stream, Metadata, Source, Device, QualityOption, QualityInventory,
}
use zombiebox_gateway_core.Playback.Runtime.{Runtime}
use zombiebox_gateway_core.Playback.Probe.{week, is_future}
use zombiebox_gateway_core.Playback.Devices.{probe_suite_version, probe_cache_key}
use zombiebox_gateway_core.Playback.Qualities.Tiers.{
  QualityTier, standard_tiers, find_tier, find_video_stream, max_supported_output_height,
  is_probe_passing, can_transcode, can_decode_h264_tier, is_native_direct_play_verified,
  current_caps,
}

abbrev pub auto_option : QualityOption
auto_option = record { id = "auto"; label = "Auto"; width = 0; height = 0 }

abbrev pub auto_inventory : QualityInventory
auto_inventory = record { selected_id = "auto"; options = auto_option ∷ [] }

abbrev pub option_of : QualityTier → QualityOption
option_of t = record { id = t.id; label = t.label; width = t.width; height = t.height }

abbrev pub has_variant : List String → String → Bool
has_variant variants id = any (λ v. str_eq v id) variants

abbrev pub has_variants : List String → Bool
has_variants [] = false
has_variants (_ ∷ _) = true

abbrev pub height_of : Option Stream → ℕ
height_of none = 0
height_of (some s) = s.height

-- What the loop over the tiers reads.
pub record Offer : Type 0 where
  pub caps : Capabilities
  pub now : ℕ
  pub variants : List String
  pub source_height : ℕ
  pub output_height : ℕ
  pub transcode_ok : Bool
  pub native_verified : Bool

-- Whether a round of the loop appends the tier: each `continue` before the append is `false`.
unfoldable pub offers : Offer → QualityTier → Bool
offers o t =
    if has_variants o.variants && not (has_variant o.variants t.id)
    then false
    else if not (has_variants o.variants) && ltb o.source_height t.height
    then false
    else if ltb 1080 t.height && o.output_height == 0
    then false
    else if ltb 0 o.output_height && ltb o.output_height t.height
    then false
    else if has_variants o.variants
    then can_decode_h264_tier o.caps o.now t.id
      && is_probe_passing o.caps o.now "aac"
      && (is_probe_passing o.caps o.now "http-progressive"
          || is_probe_passing o.caps o.now "http-fmp4")
    else if t.height == o.source_height
    then o.native_verified
      || (o.transcode_ok && leb t.height 1080 && can_decode_h264_tier o.caps o.now t.id)
    else leb t.height 1080 && o.transcode_ok && can_decode_h264_tier o.caps o.now t.id

unfoldable pub normalize_quality : String → String
normalize_quality quality =
    if str_eq quality "STANDARD" then "360p" else (if str_eq quality "LOW" then "240p" else quality)

-- The selection at the end of `Qualities`, from the options that follow Auto.
abbrev pub select_option : List QualityOption → String → String
select_option options norm =
    if not (str_eq norm "")
      && not (str_eq norm "auto")
      && any (λ (o : QualityOption). str_eq o.id norm) options
    then norm
    else "auto"

abbrev pub inventory_of : List QualityOption → String → QualityInventory
inventory_of [] norm = auto_inventory
inventory_of (o ∷ os) norm = record {
  selected_id = select_option (auto_option ∷ o ∷ os) norm;
  options = auto_option ∷ o ∷ os;
}

module _ ⦃rt : Runtime⦄ (m : Metadata) (s : Source) (d : Device) (now : ℕ) where
  unfoldable pub offer_of : Offer
  offer_of =
      let caps = current_caps d in
      record {
        caps = caps;
        now = now;
        variants = s.variants;
        source_height = height_of (find_video_stream m.streams);
        output_height = max_supported_output_height d;
        transcode_ok = can_transcode caps now;
        native_verified = is_native_direct_play_verified caps now m s d;
      }

  unfoldable pub qualities : String → QualityInventory
  unfolding offer_of
  qualities current_quality =
      if s.live || str_eq s.item.kind "track" || str_eq s.item.provider "iptv"
      then auto_inventory
      else if height_of (find_video_stream m.streams) == 0 && not (has_variants s.variants)
      then auto_inventory
      else inventory_of (map option_of (keep (offers offer_of) standard_tiers))
          (normalize_quality current_quality)

unfoldable pub has_quality : QualityInventory → String → Bool
has_quality inventory quality =
    if str_eq quality "auto"
    then true
    else any (λ (o : QualityOption). str_eq o.id (normalize_quality quality)) inventory.options

-- The last loop of `youtubeKnownLengthRemuxEligible`: the first fresh chunked probe that is
-- conclusive decides.
unfoldable pub known_length_probe : ℕ → List Probe → Bool
known_length_probe now [] = false
known_length_probe now (p ∷ ps) =
    if not (str_eq p.id "http-fmp4-chunked")
      || p.tested_at == 0
      || leb (p.tested_at + week) now
      || is_future now p
    then known_length_probe now ps
    else if str_eq p.status "PASS" || p.stalled
    then false
    else if str_eq p.status "FAIL"
    then true
    else if str_eq p.status "UNKNOWN"
        && contains (lower (codes p.detail)) (codes "@prepare")
        && contains (lower (codes p.detail)) (codes "what=0")
    then true
    else known_length_probe now ps

unfoldable pub youtube_known_length_remux_eligible : ⦃rt : Runtime⦄ → Device → Source → ℕ → Bool
youtube_known_length_remux_eligible d s now =
    let caps = current_caps d in
    if not (str_eq s.item.provider "youtube")
      || not (str_eq s.item.kind "video")
      || s.live
      || not (str_eq s.path "")
      || str_eq s.url ""
      || str_eq s.audio_url ""
    then false
    else if not (caps.suite_version == probe_suite_version)
        || not (str_eq caps.device_id d.id)
        || str_eq caps.cache_key ""
        || not (str_eq caps.cache_key (probe_cache_key d))
    then false
    else if not (is_probe_passing caps now "http-fmp4") || not (is_probe_passing caps now "aac")
    then false
    else if not (is_probe_passing caps now "h264-1080-high")
        && not (is_probe_passing caps now "h264-2160-high")
    then false
    else known_length_probe now caps.probes

abbrev tier_below : Option QualityTier → Option Stream → Bool
tier_below none v = false
tier_below (some t) none = false
tier_below (some t) (some v) = not (v.height == 0) && ltb t.height v.height

unfoldable pub requires_transcode_for_quality : Metadata → String → Bool
requires_transcode_for_quality m quality =
    if str_eq quality "" || str_eq quality "auto"
    then false
    else tier_below (find_tier (normalize_quality quality)) (find_video_stream m.streams)
