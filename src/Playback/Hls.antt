-- ===== src/Playback/Hls.antt =====
-- gateway/internal/playback/hls.go: whether a manifest plays natively on the device.
use zombiebox_gateway_core.Base.{
  ℕ, String, Bool, true, false, not, ◌&&◌, ◌||◌, Option, none, some, List, [], ◌∷◌, any, all, leb,
  ◌==◌, if◌then◌else◌, str_eq,
}
use zombiebox_gateway_core.Base.Text.{codes, same, lower, contains, split, trim_space}
use zombiebox_gateway_core.Playback.Picture.{no_picture, exceeds, within}
use zombiebox_gateway_core.Domain.{Probe, Capabilities, Stream, Metadata}
use zombiebox_gateway_core.Playback.Probe.{select_latest_probe, Verdict, probe_status, passed}

abbrev pub is_video : Stream → Bool
is_video s = str_eq s.kind "video"

abbrev pub is_audio : Stream → Bool
is_audio s = str_eq s.kind "audio"

-- `case "a", "b":` over a text.
abbrev pub one_of : List String → List ℕ → Bool
one_of [] t = false
one_of (name ∷ names) t = same t (codes name) || one_of names t

abbrev container_names : String → List (List ℕ)
container_names format = split b',' (codes format)

unfoldable pub is_hls : String → String → Bool
is_hls format mime =
    any (λ name. one_of ("hls" ∷ "applehttp" ∷ []) (trim_space (lower name)))
      (container_names format)
    || contains (lower (codes mime)) (codes "mpegurl")

pub is_fmp4 : Metadata → Bool
is_fmp4 m =
    any (λ part. one_of ("mp4" ∷ "fmp4" ∷ "m4s" ∷ "mov" ∷ []) (trim_space part))
      (split b',' (lower (codes m.format_name)))
    || any
        (λ (s : Stream).
          one_of ("avc1" ∷ "mp4a" ∷ "hvc1" ∷ "mp4v" ∷ []) (lower (codes s.codec_tag)))
        m.streams

unfoldable pub has_fresh_hls_evidence : Capabilities → ℕ → Bool
has_fresh_hls_evidence caps now =
    if not (caps.suite_version == 2) || str_eq caps.cache_key ""
    then false
    else passed (probe_status caps "hls-h264-aac" now)

abbrev long_event : Option Probe → Bool
long_event none = false
long_event (some p) = p.completed && leb 20000 p.position_ms

unfoldable pub has_fresh_live_video_hls_evidence : Capabilities → ℕ → Bool
has_fresh_live_video_hls_evidence caps now =
    if not (caps.suite_version == 2) || str_eq caps.cache_key ""
    then false
    else passed (probe_status caps "hls-event-h264-aac" now)
      && long_event (select_latest_probe caps.probes "hls-event-h264-aac" now)

abbrev pub profile_has : Stream → String → Bool
profile_has s name = contains (lower (codes s.profile)) (codes name)

unfoldable pub hls_video_candidate : Stream → (String → Verdict) → Bool
hls_video_candidate s status =
    if no_picture s || exceeds s 3840 2160
    then false
    else if profile_has s "high"
    then (if exceeds s 1920 1080
        then passed (status "h264-2160-high")
        else if exceeds s 1280 720
        then passed (status "h264-1080-high")
        else passed (status "h264-720-high"))
    else if profile_has s "main"
    then (if exceeds s 1280 720 then false else passed (status "h264-720-main"))
    else if profile_has s "baseline"
    then (if within s 640 360
        then true
        else within s 854 480 && passed (status "h264-baseline-480"))
    else false

-- Whether a stream makes the loop return false.
unfoldable pub hls_stream_ok : (String → Verdict) → Stream → Bool
unfolding hls_video_candidate
hls_stream_ok status s =
    if is_video s
    then str_eq s.codec "h264" && hls_video_candidate s status
    else if is_audio s
    then str_eq s.codec "aac" && passed (status "aac")
    else true

unfoldable pub native_hls_candidate : Metadata → String → Capabilities → ℕ → Bool
unfolding is_hls is_fmp4 has_fresh_hls_evidence has_fresh_live_video_hls_evidence hls_stream_ok
native_hls_candidate m mime caps now =
    if not (is_hls m.format_name mime)
    then false
    else if is_fmp4 m
    then false
    else if not (all (hls_stream_ok (λ id. probe_status caps id now)) m.streams)
    then false
    else if any is_video m.streams
    then has_fresh_hls_evidence caps now || has_fresh_live_video_hls_evidence caps now
    else any is_audio m.streams && has_fresh_hls_evidence caps now
