-- ===== src/Playback/Planner/Live.antt =====
-- planner.go, `LocalModeSource`: live audio and raw PCM beside the local mode.
use zombiebox_gateway_core.Base.{
  ℕ, String, Bool, true, false, not, ◌&&◌, ◌||◌, Option, none, some, List, any, all, if◌then◌else◌,
  str_eq,
}
use zombiebox_gateway_core.Base.Text.{codes, lower, equal_fold, has_suffix, before, trim_space}
use zombiebox_gateway_core.Domain.{Capabilities, Metadata, Source}
use zombiebox_gateway_core.Playback.Runtime.{Runtime}
use zombiebox_gateway_core.Playback.Probe.{probe_status, passed}
use zombiebox_gateway_core.Playback.Hls.{
  is_video, is_audio, is_hls, has_fresh_live_video_hls_evidence,
}
use zombiebox_gateway_core.Playback.Planner.Local.{
  Mode, direct_play, remux, transcode, raw_pcm, pcm_stream, external_player, local_mode_with,
}

abbrev manifest_path : Option (List ℕ) → Bool
manifest_path none = false
manifest_path (some path) =
    has_suffix (lower path) (codes ".m3u8") || has_suffix (lower path) (codes ".mpd")

-- Every stream but audio of the codec and data, and some audio.
unfoldable pub only_audio : String → Metadata → Bool
only_audio codec m =
    all (λ s. not (is_video s) && (not (is_audio s) || str_eq s.codec codec)) m.streams
    && any is_audio m.streams

unfoldable pub is_live_mp3_audio : ⦃rt : Runtime⦄ → Metadata → Source → Bool
is_live_mp3_audio ⦃rt⦄ m s =
    if not s.live
      || not (str_eq s.audio_url "")
      || not (equal_fold (trim_space (before b';' (codes s.mime))) (codes "audio/mpeg"))
    then false
    else if manifest_path (rt.url_path s.url)
    then false
    else only_audio "mp3" m

abbrev pub unrequested : String → Bool
unrequested requested = str_eq requested "" || str_eq requested "AUTO"

abbrev pub convertible : String → Bool
convertible requested =
    unrequested requested || str_eq requested "REMUX" || str_eq requested "TRANSCODE"

unfoldable pub raw_pcm_mode : Source → Capabilities → ℕ → String → Mode
raw_pcm_mode s caps now requested =
    if not (str_eq s.item.provider "spotify")
      || not (str_eq s.pcm_format "s16le")
      || not s.live
      || not (str_eq s.path "")
    then external_player
    else if str_eq requested "DIRECT_PLAY" || str_eq requested "EXTERNAL_PLAYER"
    then external_player
    else if (unrequested requested || str_eq requested "TRANSCODE")
        && passed (probe_status caps "audio-track-pcm-stream" now)
    then raw_pcm
    else external_player

unfoldable pub live_mp3_mode : Capabilities → ℕ → String → Mode → Mode
live_mp3_mode caps now requested mode =
    if str_eq requested "REMUX"
    then mode
    else if not (str_eq requested "TRANSCODE") && passed (probe_status caps "mp3-chunked" now)
    then direct_play
    else if passed (probe_status caps "audio-track-pcm-stream" now)
    then pcm_stream
    else external_player

unfoldable pub live_aac_mode : Capabilities → ℕ → String → Mode
live_aac_mode caps now requested =
    if not (str_eq requested "TRANSCODE") && passed (probe_status caps "aac-adts" now)
    then remux
    else if not (str_eq requested "REMUX")
        && passed (probe_status caps "audio-track-pcm-stream" now)
    then pcm_stream
    else external_player

abbrev pub is_converted : Mode → Bool
is_converted remux = true
is_converted external_player = true
is_converted transcode = true
is_converted _ = false

-- `allowNativeHLS`
abbrev pub allow_native_hls : Source → Capabilities → ℕ → Bool
allow_native_hls s caps now =
    not s.live || str_eq s.item.kind "audio" || has_fresh_live_video_hls_evidence caps now

unfoldable pub local_mode_source :
    ⦃rt : Runtime⦄ → Metadata → Source → Capabilities → ℕ → String → Mode
local_mode_source m s caps now requested =
    let mode = local_mode_with m caps now s.mime requested (allow_native_hls s caps now) in
    if s.raw_pcm
    then raw_pcm_mode s caps now requested
    else if is_live_mp3_audio m s && convertible requested
    then live_mp3_mode caps now requested mode
    else if s.live
        && is_hls m.format_name s.mime
        && convertible requested
        && only_audio "aac" m
        && is_converted mode
    then live_aac_mode caps now requested
    else mode

pub live_mp3_direct_proven : Capabilities → ℕ → Bool
live_mp3_direct_proven caps now = passed (probe_status caps "mp3-chunked" now)
