-- ===== src/Playback/Planner/Direct.antt =====
-- planner.go: the evidence behind direct play, and the fallbacks of an unrequested plan.
use zombiebox_gateway_core.Base.{
  ℕ, ◌≤◌, ◌≡◌, refl, sym, subst, ◌⊎◌, inl, inr, String, Bool, true, false, ◌&&◌, arith, All, any,
  all-All, str_eq, eq_iff, either, Bool-cases,
}
use zombiebox_gateway_core.Domain.{Capabilities, Stream, Metadata}
use zombiebox_gateway_core.Playback.Runtime.{Runtime}
use zombiebox_gateway_core.Playback.Probe.{week, probe_status, passed, failed}
use zombiebox_gateway_core.Playback.Hls.{
  is_hls, is_video, is_audio, hls_stream_ok, native_hls_candidate,
}
use zombiebox_gateway_core.Playback.Planner.Codecs.{
  needs_compatible_container, is_extended, direct_stream_ok, progressive_direct_candidate,
  can_hybrid,
}
use zombiebox_gateway_core.Playback.Planner.Local.{
  Mode, direct_play, remux, hybrid, transcode, raw_pcm, pcm_stream, external_player,
  local_mode_with,
}
use zombiebox_gateway_core.Playback.Planner.Evidence.{
  Proven, Decodes, passed-Proven, video_candidate-Decodes, hls_video_candidate-Decodes,
  extended_video_candidate-Decodes, hls_evidence-Proven,
}

-- An audio stream that a device plays: AAC with a fresh pass of the AAC probe, or MP3.
abbrev pub Audible : Capabilities → ℕ → Stream → Type 0
Audible caps now s =
    ((str_eq s.codec "aac" ≡ true) × Proven caps now "aac") ⊎ (str_eq s.codec "mp3" ≡ true)

-- A video stream has a fresh pass of a probe of its codec that is at least as large, and an audio
-- stream is AAC with a fresh pass of the AAC probe, or MP3.
pub record StreamProven (caps : Capabilities) (now : ℕ) (s : Stream) : Type 0 where
  pub video : (is_video s ≡ false) ⊎ Decodes caps now s
  pub audio : (is_audio s ≡ false) ⊎ Audible caps now s

-- A manifest has a fresh pass of a manifest probe. A progressive file has no foreign container and
-- a fresh pass of the progressive probe; with an extended stream it is enough that the probe did
-- not fail.
abbrev pub TransportProven : Metadata → String → Capabilities → ℕ → Type 0
TransportProven m mime caps now =
    ((is_hls m.format_name mime ≡ true)
      × (Proven caps now "hls-h264-aac" ⊎ Proven caps now "hls-event-h264-aac"))
    ⊎ ((is_hls m.format_name mime ≡ false)
        × (needs_compatible_container m.format_name mime ≡ false)
        × (Proven caps now "http-progressive"
            ⊎ ((any (λ s. is_video s && is_extended s) m.streams ≡ true)
                × (failed (probe_status caps "http-progressive" now) ≡ false))))

Audible-passed :
    (caps : Capabilities) (now : ℕ) (s : Stream)
    → ((str_eq s.codec "aac" ≡ true) × (passed (probe_status caps "aac" now) ≡ true))
      ⊎ (str_eq s.codec "mp3" ≡ true)
    → Audible caps now s
Audible-passed caps now s (inl (k, p)) = inl (k, passed-Proven caps now "aac" p)
Audible-passed caps now s (inr e) = inr e

audio-not-video : (s : Stream) → is_audio s ≡ true → is_video s ≡ false
audio-not-video s a = subst (λ k. str_eq k "video" ≡ false) (sym ((eq_iff s.kind "audio").0 a)) refl

module _ ⦃rt : Runtime⦄ (m : Metadata) (caps : Capabilities) (now : ℕ) (wk : week ≤ now) where
  direct_video_ok :
      (s : Stream) → is_video s ≡ true → direct_stream_ok m caps now s ≡ true → Decodes caps now s
  unfolding direct_stream_ok
  direct_video_ok s v h = elim (Bool-cases (is_extended s)) [
    | inl e ↦ extended_video_candidate-Decodes caps now s m wk (ground arith)
    | inr e ↦ video_candidate-Decodes caps now s (ground arith) (ground arith)
  ]

  direct_stream_ok-StreamProven :
      (s : Stream) → direct_stream_ok m caps now s ≡ true → StreamProven caps now s
  unfolding direct_stream_ok
  direct_stream_ok-StreamProven s h = record {
    video = either (is_video s) (λ v. direct_video_ok s v h);
    audio =
        either (is_audio s) (λ a. Audible-passed caps now s (ground (arith, audio-not-video s a)));
  }

  hls_stream_ok-StreamProven :
      (s : Stream)
      → Proven caps now "hls-h264-aac" ⊎ Proven caps now "hls-event-h264-aac"
      → hls_stream_ok (λ id. probe_status caps id now) s ≡ true
      → StreamProven caps now s
  unfolding hls_stream_ok
  hls_stream_ok-StreamProven s manifest h = record {
    video =
        either (is_video s)
          (λ v. hls_video_candidate-Decodes caps now s (ground arith) manifest (ground arith));
    audio =
        either (is_audio s) (λ a. Audible-passed caps now s (ground (arith, audio-not-video s a)));
  }

  progressive-Proven :
      (mime : String)
      → progressive_direct_candidate m caps now mime ≡ true
      → All (StreamProven caps now) m.streams
        × (needs_compatible_container m.format_name mime ≡ false)
        × (Proven caps now "http-progressive"
            ⊎ ((any (λ s. is_video s && is_extended s) m.streams ≡ true)
                × (failed (probe_status caps "http-progressive" now) ≡ false)))
  unfolding progressive_direct_candidate
  progressive-Proven mime h =
      let extended = any (λ s. is_video s && is_extended s) m.streams in
      (
        all-All (direct_stream_ok m caps now) m.streams direct_stream_ok-StreamProven
            (ground arith),
        ground arith,
        elim (Bool-cases extended) [
          | inl e ↦ inr (e, ground arith)
          | inr e ↦ inl (passed-Proven caps now "http-progressive" (ground arith))
        ],
      )

  native_hls-Proven :
      (mime : String)
      → native_hls_candidate m mime caps now ≡ true
      → (Proven caps now "hls-h264-aac" ⊎ Proven caps now "hls-event-h264-aac")
        × All (StreamProven caps now) m.streams
  unfolding native_hls_candidate
  native_hls-Proven mime h =
      let manifest = hls_evidence-Proven caps now (ground arith) in
      (
        manifest,
        all-All (hls_stream_ok (λ id. probe_status caps id now)) m.streams
            (λ s. hls_stream_ok-StreamProven s manifest) (ground arith),
      )

  -- Whatever is requested and whether or not native manifests are allowed: when the local mode is
  -- direct play and the clock is past the first week of 1970, every video stream has a probe of
  -- its codec that passed within the last week (at most 300 s ahead, with no stall, with
  -- progress) and whose certified picture is at least as large as the stream's; every audio
  -- stream is MP3, or AAC with a fresh pass of the AAC probe; and the transport has a fresh pass
  -- of its own probe, where for a progressive file with an extended stream, HEVC or beyond 1080p,
  -- it is enough that this probe has no fresh failure.
  pub local_mode_with-direct_play :
      (mime requested : String) (allow : Bool)
      → local_mode_with m caps now mime requested allow ≡ direct_play
      → All (StreamProven caps now) m.streams × TransportProven m mime caps now
  unfolding local_mode_with
  local_mode_with-direct_play mime requested allow h =
      elim (Bool-cases (is_hls m.format_name mime)) [
        | inl e ↦
            let (manifest, streams) = native_hls-Proven mime (ground arith) in
            (streams, inl (e, manifest))
        | inr e ↦
            let (streams, container, transport) = progressive-Proven mime (ground arith) in
            (streams, inr (e, container, transport))
      ]

-- The mode that an unrequested plan falls back to once direct play is refused.
abbrev pub NotRequested : String → Type 0
NotRequested requested = (str_eq requested "REMUX" ≡ false) × (str_eq requested "TRANSCODE" ≡ false)

-- What the code promises of each mode that is not direct play, when no conversion was requested.
abbrev pub FallbackSound : Metadata → Capabilities → ℕ → Mode → Type 0
FallbackSound m caps now remux = failed (probe_status caps "http-fmp4" now) ≡ false
FallbackSound m caps now hybrid =
    (failed (probe_status caps "http-fmp4" now) ≡ false)
    × Proven caps now "aac"
    × (any is_video m.streams ≡ true)
FallbackSound m caps now transcode =
    (failed (probe_status caps "http-fmp4" now) ≡ false)
    × (failed (probe_status caps "h264-baseline-360" now) ≡ false)
    × (failed (probe_status caps "aac" now) ≡ false)
FallbackSound m caps now external_player =
    (failed (probe_status caps "http-fmp4" now) ≡ true)
    ⊎ (failed (probe_status caps "h264-baseline-360" now) ≡ true)
    ⊎ (failed (probe_status caps "aac" now) ≡ true)
FallbackSound m caps now direct_play = Unit
FallbackSound m caps now _ = ⊥

can_hybrid_sound :
    ⦃rt : Runtime⦄ (m : Metadata) (caps : Capabilities) (now : ℕ)
    → can_hybrid m caps now ≡ true
    → (passed (probe_status caps "aac" now) ≡ true) × (any is_video m.streams ≡ true)
unfolding can_hybrid
can_hybrid_sound m caps now h = (ground arith, ground arith)

FallbackSound-of :
    ⦃rt : Runtime⦄ (m : Metadata) (caps : Capabilities) (now : ℕ) (mime requested : String)
    (allow : Bool) (mode : Mode)
    → NotRequested requested
    → local_mode_with m caps now mime requested allow ≡ mode
    → FallbackSound m caps now mode
unfolding local_mode_with
FallbackSound-of m caps now mime requested allow direct_play n h = tt
FallbackSound-of m caps now mime requested allow remux n h = ground arith
FallbackSound-of m caps now mime requested allow hybrid n h =
    let facts = can_hybrid_sound m caps now (ground arith) in
    (ground arith, passed-Proven caps now "aac" facts.0, facts.1)
FallbackSound-of m caps now mime requested allow transcode n h =
    (ground arith, ground arith, ground arith)
FallbackSound-of m caps now mime requested allow external_player n h = ground arith
FallbackSound-of m caps now mime requested allow raw_pcm n h = ground arith
FallbackSound-of m caps now mime requested allow pcm_stream n h = ground arith

-- When neither REMUX nor TRANSCODE is requested: a plan to remux, to copy the video, or to
-- transcode is made only if the fragmented MP4 probe has no fresh failure; a hybrid plan has a
-- video stream and a fresh pass of the AAC probe; a transcode plan has no fresh failure of the
-- 360p baseline or of the AAC probe; an external player is chosen only if one of these three
-- probes has a fresh failure; and no other mode but direct play is returned.
pub local_mode_with-FallbackSound :
    ⦃rt : Runtime⦄ (m : Metadata) (caps : Capabilities) (now : ℕ) (mime requested : String)
    (allow : Bool)
    → NotRequested requested
    → FallbackSound m caps now (local_mode_with m caps now mime requested allow)
local_mode_with-FallbackSound m caps now mime requested allow n =
    FallbackSound-of m caps now mime requested allow _ n refl
