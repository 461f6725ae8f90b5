-- ===== src/Playback/Planner/Local.antt =====
-- planner.go, `LocalMode`: the order direct play, remux, hybrid, transcode, external player.
use zombiebox_gateway_core.Base.{ℕ, String, Bool, true, not, ◌&&◌, ◌||◌, if◌then◌else◌, str_eq}
use zombiebox_gateway_core.Domain.{Capabilities, Metadata}
use zombiebox_gateway_core.Playback.Runtime.{Runtime}
use zombiebox_gateway_core.Playback.Probe.{probe_status, failed}
use zombiebox_gateway_core.Playback.Hls.{is_hls, native_hls_candidate}
use zombiebox_gateway_core.Playback.Planner.Codecs.{
  progressive_direct_candidate, can_remux, can_hybrid,
}

pub data Mode : Type 0 where
  direct_play remux hybrid transcode raw_pcm pcm_stream external_player : Mode

module _ ⦃rt : Runtime⦄ (m : Metadata) (caps : Capabilities) (now : ℕ) where
  abbrev direct_ok : String → Bool → Bool
  direct_ok mime allow_native_hls =
      if is_hls m.format_name mime
      then allow_native_hls && native_hls_candidate m mime caps now
      else progressive_direct_candidate m caps now mime

  unfoldable pub local_mode_with : String → String → Bool → Mode
  local_mode_with mime requested allow_native_hls =
      if str_eq requested "REMUX"
      then remux
      else if str_eq requested "TRANSCODE"
      then transcode
      else if direct_ok mime allow_native_hls
      then direct_play
      else if failed (probe_status caps "http-fmp4" now)
      then external_player
      else if can_remux m caps now
      then remux
      else if not (is_hls m.format_name mime) && can_hybrid m caps now
      then hybrid
      else if failed (probe_status caps "h264-baseline-360" now)
          || failed (probe_status caps "aac" now)
      then external_player
      else transcode

  unfoldable pub local_mode : String → String → Mode
  unfolding local_mode_with
  local_mode mime requested = local_mode_with mime requested true
