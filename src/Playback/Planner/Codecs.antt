-- ===== src/Playback/Planner/Codecs.antt =====
-- planner.go: whether the streams of a source can be played directly, copied, or half copied.
use zombiebox_gateway_core.Base.{
  ℕ, String, Bool, true, false, not, ◌&&◌, ◌||◌, List, [], ◌∷◌, any, all, if◌then◌else◌, str_eq,
}
use zombiebox_gateway_core.Base.Text.{codes, lower, contains, trim_space, split}
use zombiebox_gateway_core.Playback.Picture.{no_picture, exceeds, within}
use zombiebox_gateway_core.Domain.{Capabilities, Stream, Metadata}
use zombiebox_gateway_core.Playback.Runtime.{Runtime}
use zombiebox_gateway_core.Playback.Probe.{Verdict, probe_status, passed, failed}
use zombiebox_gateway_core.Playback.Extended.{extended_video_candidate}
use zombiebox_gateway_core.Playback.Hls.{is_video, is_audio, one_of, profile_has}

abbrev foreign_mimes : List String
foreign_mimes =
    "video/x-matroska" ∷ "video/webm" ∷ "video/x-msvideo" ∷ "video/x-flv" ∷ "video/x-ms-asf" ∷ []

abbrev foreign_containers : List String
foreign_containers =
    "matroska" ∷ "webm" ∷ "mpegts" ∷ "mpeg" ∷ "hls" ∷ "dash" ∷ "avi" ∷ "flv" ∷ "asf" ∷ []

unfoldable pub needs_compatible_container : String → String → Bool
needs_compatible_container format mime =
    any (λ name. one_of foreign_containers (trim_space (lower name))) (split b',' (codes format))
    || one_of foreign_mimes (lower (codes mime))
    || contains (lower (codes mime)) (codes "mpegurl")
    || contains (lower (codes mime)) (codes "dash")

unfoldable pub video_candidate : Stream → (String → Verdict) → Bool
video_candidate s status =
    if no_picture s || exceeds s 1920 1080
    then false
    else if exceeds s 1280 720
    then profile_has s "high" && passed (status "h264-1080-high")
    else if profile_has s "high"
    then passed (status "h264-720-high")
    else if profile_has s "main" || (str_eq s.profile "" && (exceeds s 854 480))
    then passed (status "h264-720-main")
    else if profile_has s "baseline" || str_eq s.profile ""
    then (if within s 640 360
        then passed (status "h264-baseline-360")
        else if within s 854 480
        then passed (status "h264-baseline-480")
        else false)
    else false

unfoldable pub video_remux_candidate : Stream → (String → Verdict) → Bool
video_remux_candidate s status =
    if no_picture s || exceeds s 1920 1080
    then false
    else if exceeds s 1280 720
    then profile_has s "high" && passed (status "h264-1080-high")
    else if profile_has s "high"
    then not (failed (status "h264-720-high"))
    else if profile_has s "main" || (str_eq s.profile "" && (exceeds s 854 480))
    then not (failed (status "h264-720-main"))
    else if profile_has s "baseline" || str_eq s.profile ""
    then (if within s 640 360
        then not (failed (status "h264-baseline-360"))
        else if within s 854 480
        then not (failed (status "h264-baseline-480"))
        else not (failed (status "h264-720-main")))
    else false

unfoldable pub has_fresh_h264_decoder_evidence : Stream → Capabilities → ℕ → Bool
unfolding video_candidate
has_fresh_h264_decoder_evidence s caps now =
    if not (is_video s) || not (str_eq s.codec "h264")
    then false
    else video_candidate s (λ id. probe_status caps id now)

-- `stream.Codec == "hevc" || stream.Width > 1920 || stream.Height > 1080`
abbrev pub is_extended : Stream → Bool
is_extended s = str_eq s.codec "hevc" || exceeds s 1920 1080

module _ ⦃rt : Runtime⦄ (m : Metadata) (caps : Capabilities) (now : ℕ) where
  abbrev status_at : String → Verdict
  status_at id = probe_status caps id now

  -- Whether a stream lets the loop of `progressiveDirectCandidate` go on.
  unfoldable pub direct_stream_ok : Stream → Bool
  direct_stream_ok s =
      if is_video s
      then (if is_extended s
          then extended_video_candidate s m caps now
          else str_eq s.codec "h264" && video_candidate s status_at)
      else if is_audio s
      then (if str_eq s.codec "aac" then passed (status_at "aac") else str_eq s.codec "mp3")
      else true

  unfoldable pub progressive_direct_candidate : String → Bool
  unfolding direct_stream_ok
  progressive_direct_candidate mime =
      if needs_compatible_container m.format_name mime
      then false
      else if one_of foreign_mimes (lower (codes mime))
      then false
      else if not (all direct_stream_ok m.streams)
      then false
      else if not (any is_video m.streams) && not (any is_audio m.streams)
      then false
      else if any (λ s. is_video s && is_extended s) m.streams
      then not (failed (status_at "http-progressive"))
      else passed (status_at "http-progressive")

  -- The same for `canRemux`.
  pub remux_stream_ok : Stream → Bool
  remux_stream_ok s =
      if is_video s
      then (if is_extended s
          then extended_video_candidate s m caps now
          else str_eq s.codec "h264" && video_remux_candidate s status_at)
      else if is_audio s
      then (if str_eq s.codec "aac" then not (failed (status_at "aac")) else str_eq s.codec "mp3")
      else true

  unfoldable pub can_remux : Bool
  unfolding remux_stream_ok
  can_remux =
      if not (all remux_stream_ok m.streams)
      then false
      else any is_video m.streams || any is_audio m.streams

  abbrev copied_audio : Stream → Bool
  copied_audio s = str_eq s.codec "aac" || str_eq s.codec "mp3"

  -- The same for `canHybrid`, whose audio never ends the loop.
  pub hybrid_stream_ok : Stream → Bool
  hybrid_stream_ok s =
      if is_video s then str_eq s.codec "h264" && video_candidate s status_at else true

  unfoldable pub can_hybrid : Bool
  unfolding hybrid_stream_ok
  can_hybrid =
      if not (all hybrid_stream_ok m.streams)
      then false
      else any is_video m.streams
        && any is_audio m.streams
        && any (λ s. is_audio s && not (copied_audio s)) m.streams
        && passed (status_at "aac")
