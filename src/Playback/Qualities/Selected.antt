-- ===== src/Playback/Qualities/Selected.antt =====
-- qualities.go, `SelectedQualityMode`: the mode and the quality of a chosen rendition.
use zombiebox_gateway_core.Base.{
  ℕ, String, Bool, true, false, not, ◌&&◌, ◌||◌, Option, none, some, ltb, ◌==◌, if◌then◌else◌,
  str_eq,
}
use zombiebox_gateway_core.Domain.{Stream, Metadata, Source, Device}
use zombiebox_gateway_core.Playback.Runtime.{Runtime}
use zombiebox_gateway_core.Playback.Planner.Local.{
  Mode, direct_play, remux, hybrid, transcode, external_player,
}
use zombiebox_gateway_core.Playback.Planner.Live.{local_mode_source}
use zombiebox_gateway_core.Playback.Qualities.Tiers.{
  QualityTier, classify_dimensions_tier, find_tier, find_video_stream, is_probe_passing,
  can_decode_h264_tier, current_caps,
}
use zombiebox_gateway_core.Playback.Qualities.Options.{
  height_of, normalize_quality, youtube_known_length_remux_eligible,
}

abbrev pub is_direct : Mode → Bool
is_direct direct_play = true
is_direct _ = false

abbrev copies : Mode → Bool
copies remux = true
copies hybrid = true
copies _ = false

abbrev tier_of : Option Stream → String
tier_of none = ""
tier_of (some v) = classify_dimensions_tier v.width v.height

abbrev native_height : Option QualityTier → ℕ → Bool
native_height none h = false
native_height (some t) h = ltb 0 h && t.height == h

module _ ⦃rt : Runtime⦄ (m : Metadata) (s : Source) (d : Device) (position now : ℕ) where
  abbrev split_tracks : Bool
  split_tracks = not (str_eq s.audio_url "")

  abbrev passing : String → Bool
  passing id = is_probe_passing (current_caps d) now id

  abbrev decodes_tier : Option QualityTier → Bool
  decodes_tier none = false
  decodes_tier (some t) = can_decode_h264_tier (current_caps d) now t.id

  -- Auto, or no quality.
  unfoldable pub auto_mode : Mode
  auto_mode =
      let tier_id = tier_of (find_video_stream m.streams) in
      let mode = local_mode_source m s (current_caps d) now "" in
      if split_tracks
      then (if ltb 0 position
          then transcode
          else if not (str_eq tier_id "")
              && can_decode_h264_tier (current_caps d) now tier_id
              && passing "http-fmp4"
          then remux
          else transcode)
      else if ltb 0 position && copies mode
      then transcode
      else mode

  unfoldable pub chosen_mode : String → Mode
  chosen_mode norm =
      let tier = find_tier norm in
      if native_height tier (height_of (find_video_stream m.streams))
        && not split_tracks
        && is_direct (local_mode_source m s (current_caps d) now "")
      then direct_play
      else if split_tracks
          && decodes_tier tier
          && passing "http-fmp4"
          && (position == 0
              || (str_eq s.item.provider "youtube" && youtube_known_length_remux_eligible d s now))
      then remux
      else transcode

  unfoldable pub selected_quality_mode : String → Mode × String
  unfolding auto_mode chosen_mode
  selected_quality_mode quality =
      if split_tracks && not (passing "http-fmp4")
      then (external_player, "")
      else if str_eq quality "" || str_eq quality "auto"
      then (auto_mode, "")
      else (chosen_mode (normalize_quality quality), normalize_quality quality)
