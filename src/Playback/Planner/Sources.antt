-- ===== src/Playback/Planner/Sources.antt =====
-- planner.go: what the modes of `LocalModeSource` say of live and raw sources.
use zombiebox_gateway_core.Base.{
  ℕ, ◌≤◌, ◌≡◌, refl, ◌⊎◌, inl, inr, String, Bool, true, false, not, ◌&&◌, ◌||◌, arith, All, all-All,
  any, str_eq, Bool-cases,
}
use zombiebox_gateway_core.Domain.{Capabilities, Metadata, Source}
use zombiebox_gateway_core.Playback.Runtime.{Runtime}
use zombiebox_gateway_core.Playback.Probe.{week}
use zombiebox_gateway_core.Playback.Hls.{
  is_hls, is_video, is_audio, has_fresh_live_video_hls_evidence,
}
use zombiebox_gateway_core.Playback.Planner.Local.{
  Mode, direct_play, remux, hybrid, transcode, raw_pcm, pcm_stream, external_player,
  local_mode_with,
}
use zombiebox_gateway_core.Playback.Planner.Live.{
  only_audio, is_live_mp3_audio, raw_pcm_mode, live_mp3_mode, live_aac_mode, is_converted,
  convertible, allow_native_hls, local_mode_source,
}
use zombiebox_gateway_core.Playback.Planner.Evidence.{Proven, passed-Proven}
use zombiebox_gateway_core.Playback.Planner.Direct.{
  StreamProven, TransportProven, local_mode_with-direct_play,
}
use zombiebox_gateway_core.Playback.Planner.Events.{EventProven, event-EventProven}

-- There is an audio stream, each one is of the codec, and there is no video stream.
abbrev pub OnlyAudio : String → Metadata → Type 0
OnlyAudio codec m =
    (any is_audio m.streams ≡ true)
    × All (λ s. (is_video s ≡ false) × ((is_audio s ≡ false) ⊎ (str_eq s.codec codec ≡ true)))
        m.streams

only_audio-OnlyAudio :
    (codec : String) (m : Metadata) → only_audio codec m ≡ true → OnlyAudio codec m
unfolding only_audio
only_audio-OnlyAudio codec m h = (
  ground arith,
  all-All (λ s. not (is_video s) && (not (is_audio s) || str_eq s.codec codec)) m.streams
      (λ s e. (ground (arith, e), ground (arith, e))) (ground arith),
)

-- What holds of a source that gets a mode.
abbrev pub SourceSound : Metadata → Source → Capabilities → ℕ → Mode → Type 0
SourceSound m s caps now raw_pcm =
    (s.raw_pcm ≡ true)
    × (str_eq s.item.provider "spotify" ≡ true)
    × (str_eq s.pcm_format "s16le" ≡ true)
    × (s.live ≡ true)
    × (str_eq s.path "" ≡ true)
    × Proven caps now "audio-track-pcm-stream"
SourceSound m s caps now pcm_stream =
    (s.raw_pcm ≡ false)
    × (s.live ≡ true)
    × (OnlyAudio "mp3" m ⊎ OnlyAudio "aac" m)
    × Proven caps now "audio-track-pcm-stream"
SourceSound m s caps now direct_play =
    (s.raw_pcm ≡ false)
    × (((s.live ≡ true) × OnlyAudio "mp3" m × Proven caps now "mp3-chunked")
        ⊎ (All (StreamProven caps now) m.streams
            × TransportProven m s.mime caps now
            × ((s.live ≡ false)
                ⊎ (str_eq s.item.kind "audio" ≡ true)
                ⊎ (is_hls m.format_name s.mime ≡ false)
                ⊎ EventProven caps now)))
SourceSound m s caps now external_player = Unit
SourceSound m s caps now _ = s.raw_pcm ≡ false

module _ ⦃rt : Runtime⦄ (m : Metadata) (s : Source) (caps : Capabilities) (now : ℕ) where
  raw_pcm_mode_sound :
      (requested : String) (mode : Mode)
      → s.raw_pcm ≡ true
      → raw_pcm_mode s caps now requested ≡ mode
      → SourceSound m s caps now mode
  unfolding raw_pcm_mode
  raw_pcm_mode_sound requested raw_pcm r h = (
    r,
    ground arith,
    ground arith,
    ground arith,
    ground arith,
    passed-Proven caps now "audio-track-pcm-stream" (ground arith),
  )
  raw_pcm_mode_sound requested external_player r h = tt
  raw_pcm_mode_sound requested direct_play r h = absurd (ground arith)
  raw_pcm_mode_sound requested remux r h = absurd (ground arith)
  raw_pcm_mode_sound requested hybrid r h = absurd (ground arith)
  raw_pcm_mode_sound requested transcode r h = absurd (ground arith)
  raw_pcm_mode_sound requested pcm_stream r h = absurd (ground arith)

  live_mp3-facts : is_live_mp3_audio m s ≡ true → (s.live ≡ true) × OnlyAudio "mp3" m
  unfolding is_live_mp3_audio
  live_mp3-facts h = (ground arith, only_audio-OnlyAudio "mp3" m (ground arith))

  -- A live manifest that plays directly and is no audio item has its evidence.
  event_cases :
      (requested : String)
      → local_mode_with m caps now s.mime requested (allow_native_hls s caps now) ≡ direct_play
      → (s.live ≡ false)
        ⊎ (str_eq s.item.kind "audio" ≡ true)
        ⊎ (is_hls m.format_name s.mime ≡ false)
        ⊎ EventProven caps now
  unfolding local_mode_with
  event_cases requested h = elim (Bool-cases (has_fresh_live_video_hls_evidence caps now)) [
    | inl e ↦ inr (inr (inr (event-EventProven caps now e)))
    | inr e ↦ elim (Bool-cases s.live) [
      | inr l ↦ inl l
      | inl l ↦ elim (Bool-cases (str_eq s.item.kind "audio")) [
        | inl a ↦ inr (inl a)
        | inr a ↦ inr (inr (inl (ground arith)))
      ]
    ]
  ]

  -- The mode of the general path, for a source that is not raw.
  local_sound :
      (requested : String) (mode : Mode)
      → week ≤ now
      → s.raw_pcm ≡ false
      → local_mode_with m caps now s.mime requested (allow_native_hls s caps now) ≡ mode
      → SourceSound m s caps now mode
  unfolding local_mode_with
  local_sound requested direct_play wk r h =
      let (streams, transport) = local_mode_with-direct_play m caps now wk s.mime requested _ h in
      (r, inr (streams, transport, event_cases requested h))
  local_sound requested remux wk r h = r
  local_sound requested hybrid wk r h = r
  local_sound requested transcode wk r h = r
  local_sound requested external_player wk r h = tt
  local_sound requested raw_pcm wk r h = absurd (ground arith)
  local_sound requested pcm_stream wk r h = absurd (ground arith)

  -- Live MP3: nothing but the modes of the general path, direct play and PCM.
  live_mp3_mode_sound :
      (requested : String) (mode : Mode)
      → s.raw_pcm ≡ false
      → is_live_mp3_audio m s ≡ true
      → str_eq requested "REMUX" ≡ false
      → live_mp3_mode caps now requested remux ≡ mode
      → SourceSound m s caps now mode
  unfolding live_mp3_mode
  live_mp3_mode_sound requested direct_play r l n h =
      let (live, only) = live_mp3-facts l in
      (r, inl (live, only, passed-Proven caps now "mp3-chunked" (ground arith)))
  live_mp3_mode_sound requested pcm_stream r l n h =
      let (live, only) = live_mp3-facts l in
      (r, live, inl only, passed-Proven caps now "audio-track-pcm-stream" (ground arith))
  live_mp3_mode_sound requested external_player r l n h = tt
  live_mp3_mode_sound requested remux r l n h = r
  live_mp3_mode_sound requested hybrid r l n h = r
  live_mp3_mode_sound requested transcode r l n h = r
  live_mp3_mode_sound requested raw_pcm r l n h = absurd (ground arith)

  live_aac_mode_sound :
      (requested : String) (mode : Mode)
      → s.raw_pcm ≡ false
      → s.live ≡ true
      → only_audio "aac" m ≡ true
      → live_aac_mode caps now requested ≡ mode
      → SourceSound m s caps now mode
  unfolding live_aac_mode
  live_aac_mode_sound requested pcm_stream r l o h = (
    r,
    l,
    inr (only_audio-OnlyAudio "aac" m o),
    passed-Proven caps now "audio-track-pcm-stream" (ground arith),
  )
  live_aac_mode_sound requested external_player r l o h = tt
  live_aac_mode_sound requested remux r l o h = r
  live_aac_mode_sound requested hybrid r l o h = r
  live_aac_mode_sound requested transcode r l o h = r
  live_aac_mode_sound requested direct_play r l o h = absurd (ground arith)
  live_aac_mode_sound requested raw_pcm r l o h = absurd (ground arith)

  abbrev is_live_mp3 : String → Bool
  is_live_mp3 requested = is_live_mp3_audio m s && convertible requested

  abbrev is_live_aac : String → Mode → Bool
  is_live_aac requested mode =
      s.live
      && is_hls m.format_name s.mime
      && convertible requested
      && only_audio "aac" m
      && is_converted mode

  live_mp3_mode-remux :
      (requested : String) (mode : Mode)
      → str_eq requested "REMUX" ≡ false
      → live_mp3_mode caps now requested mode ≡ live_mp3_mode caps now requested remux
  unfolding live_mp3_mode
  live_mp3_mode-remux requested mode n = ground arith

  live_mp3_mode-mode :
      (requested : String) (mode : Mode)
      → str_eq requested "REMUX" ≡ true
      → live_mp3_mode caps now requested mode ≡ mode
  unfolding live_mp3_mode
  live_mp3_mode-mode requested mode n = ground arith

  mode_sound :
      (requested : String) (mode local : Mode)
      → week ≤ now
      → local_mode_with m caps now s.mime requested (allow_native_hls s caps now) ≡ local
      → local_mode_source m s caps now requested ≡ mode
      → SourceSound m s caps now mode
  unfolding local_mode_source
  mode_sound requested mode local wk l h = elim (Bool-cases s.raw_pcm) [
    | inl r ↦ raw_pcm_mode_sound requested mode r (ground arith)
    | inr r ↦ elim (Bool-cases (is_live_mp3 requested)) [
      | inl p ↦ elim (Bool-cases (str_eq requested "REMUX")) [
        | inl q ↦
            local_sound requested mode wk r (ground (arith, live_mp3_mode-mode requested local q))
        | inr q ↦
            live_mp3_mode_sound requested mode r (ground arith) q
              (ground (arith, live_mp3_mode-remux requested local q))
      ]
      | inr p ↦ elim (Bool-cases (is_live_aac requested local)) [
        | inl q ↦ live_aac_mode_sound requested mode r (ground arith) (ground arith) (ground arith)
        | inr q ↦ local_sound requested mode wk r (ground arith)
      ]
    ]
  ]

  -- For every source, device and request, past the first week of 1970. Raw PCM mode: the source
  -- is raw, live, s16le, from Spotify and has no path, and the PCM probe has a fresh pass. PCM
  -- stream: the source is live and not raw, it has audio and no video, all of its audio is MP3 or
  -- all of it is AAC, and the PCM probe has a fresh pass. Direct play: the source is not raw, and
  -- either is live with MP3 audio only and a fresh pass of the chunked MP3 probe, or each video
  -- stream has a fresh pass of a probe of its codec that is as large, each audio stream is MP3,
  -- or AAC with a fresh pass of the AAC probe, the transport is proven as for local direct play,
  -- and if it is a live manifest that is no audio item, there is a fresh pass of the event probe
  -- that completed and reached 20 seconds. Remux, hybrid and transcode: the source is not raw.
  pub local_mode_source-SourceSound :
      (requested : String)
      → week ≤ now
      → SourceSound m s caps now (local_mode_source m s caps now requested)
  local_mode_source-SourceSound requested wk = mode_sound requested _ _ wk refl refl
