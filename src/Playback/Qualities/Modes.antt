-- ===== src/Playback/Qualities/Modes.antt =====
-- qualities.go: what the mode of a chosen rendition says of the source and the evidence.
use zombiebox_gateway_core.Base.{
  ℕ, ◌≡◌, refl, ◌⊎◌, inl, inr, String, true, false, not, ◌&&◌, arith, str_eq, ==_iff, ◌||◌,
  Bool-cases,
}
use zombiebox_gateway_core.Domain.{Metadata, Source, Device}
use zombiebox_gateway_core.Playback.Runtime.{Runtime}
use zombiebox_gateway_core.Playback.Planner.Local.{
  Mode, direct_play, remux, hybrid, transcode, raw_pcm, pcm_stream, external_player,
}
use zombiebox_gateway_core.Playback.Planner.Live.{local_mode_source}
use zombiebox_gateway_core.Playback.Planner.Evidence.{Proven, passed-Proven}
use zombiebox_gateway_core.Playback.Qualities.Tiers.{is_probe_passing, current_caps}
use zombiebox_gateway_core.Playback.Qualities.Options.{
  normalize_quality, youtube_known_length_remux_eligible,
}
use zombiebox_gateway_core.Playback.Qualities.Selected.{
  is_direct, auto_mode, chosen_mode, selected_quality_mode,
}

-- What the mode of a rendition says, for a source with separate tracks and for one without.
abbrev pub RenditionSound : ⦃rt : Runtime⦄ → Metadata → Source → Device → ℕ → ℕ → Mode → Type 0
RenditionSound m s d position now direct_play =
    (str_eq s.audio_url "" ≡ true)
    × (is_direct (local_mode_source m s (current_caps d) now "") ≡ true)
RenditionSound m s d position now remux =
    ((str_eq s.audio_url "" ≡ false)
      × Proven (current_caps d) now "http-fmp4"
      × ((position ≡ 0)
          ⊎ ((str_eq s.item.provider "youtube" ≡ true)
              × (youtube_known_length_remux_eligible d s now ≡ true))))
    ⊎ ((str_eq s.audio_url "" ≡ true)
        × (position ≡ 0)
        × (local_mode_source m s (current_caps d) now "" ≡ remux))
RenditionSound m s d position now hybrid = (str_eq s.audio_url "" ≡ true) × (position ≡ 0)
RenditionSound m s d position now transcode =
    (str_eq s.audio_url "" ≡ true) ⊎ Proven (current_caps d) now "http-fmp4"
RenditionSound m s d position now external_player =
    (is_probe_passing (current_caps d) now "http-fmp4" ≡ false)
    ⊎ (local_mode_source m s (current_caps d) now "" ≡ external_player)
RenditionSound m s d position now _ = str_eq s.audio_url "" ≡ true

module _ ⦃rt : Runtime⦄ (m : Metadata) (s : Source) (d : Device) (position now : ℕ) where
  blocked_sound :
      (mode : Mode)
      → not (str_eq s.audio_url "") && not (is_probe_passing (current_caps d) now "http-fmp4")
        ≡ true
      → external_player ≡ mode
      → RenditionSound m s d position now mode
  blocked_sound external_player b e = inl (ground arith)
  blocked_sound direct_play b e = cc
  blocked_sound remux b e = cc
  blocked_sound hybrid b e = cc
  blocked_sound transcode b e = cc
  blocked_sound raw_pcm b e = cc
  blocked_sound pcm_stream b e = cc

  transport :
      not (str_eq s.audio_url "") && not (is_probe_passing (current_caps d) now "http-fmp4") ≡ false
      → (str_eq s.audio_url "" ≡ true) ⊎ Proven (current_caps d) now "http-fmp4"
  transport h = elim (Bool-cases (str_eq s.audio_url "")) [
    | inl e ↦ inl e
    | inr e ↦ inr (passed-Proven _ now "http-fmp4" (ground arith))
  ]

  auto_mode_sound :
      (mode : Mode)
      → (str_eq s.audio_url "" ≡ true) ⊎ Proven (current_caps d) now "http-fmp4"
      → auto_mode m s d position now ≡ mode
      → RenditionSound m s d position now mode
  unfolding auto_mode
  auto_mode_sound direct_play p h = (ground arith, ground arith)
  auto_mode_sound remux p h = elim (Bool-cases (str_eq s.audio_url "")) [
    | inl e ↦ inr (e, ground arith, ground arith)
    | inr e ↦ inl (e, passed-Proven _ now "http-fmp4" (ground arith), inl (ground arith))
  ]
  auto_mode_sound hybrid p h = (ground arith, ground arith)
  auto_mode_sound transcode p h = p
  auto_mode_sound external_player p h = inr (ground arith)
  auto_mode_sound raw_pcm p h = ground arith
  auto_mode_sound pcm_stream p h = ground arith

  chosen_mode_sound :
      (norm : String) (mode : Mode)
      → (str_eq s.audio_url "" ≡ true) ⊎ Proven (current_caps d) now "http-fmp4"
      → chosen_mode m s d position now norm ≡ mode
      → RenditionSound m s d position now mode
  unfolding chosen_mode
  chosen_mode_sound norm direct_play p h = (ground arith, ground arith)
  chosen_mode_sound norm remux p h = inl (
    ground arith,
    passed-Proven _ now "http-fmp4" (ground arith),
    ground (arith, ==_iff position 0),
  )
  chosen_mode_sound norm transcode p h = p
  chosen_mode_sound norm hybrid p h = absurd (ground arith)
  chosen_mode_sound norm external_player p h = absurd (ground arith)
  chosen_mode_sound norm raw_pcm p h = absurd (ground arith)
  chosen_mode_sound norm pcm_stream p h = absurd (ground arith)

  mode_sound :
      (quality : String) (mode : Mode)
      → (selected_quality_mode m s d position now quality).0 ≡ mode
      → RenditionSound m s d position now mode
  unfolding selected_quality_mode
  mode_sound quality mode h =
      let passing = is_probe_passing (current_caps d) now "http-fmp4" in
      elim (Bool-cases (not (str_eq s.audio_url "") && not passing)) [
        | inl blocked ↦ blocked_sound mode blocked (ground arith)
        | inr open_ ↦ elim (Bool-cases (str_eq quality "" || str_eq quality "auto")) [
          | inl auto ↦ auto_mode_sound mode (transport open_) (ground arith)
          | inr named ↦
              chosen_mode_sound (normalize_quality quality) mode (transport open_) (ground arith)
        ]
      ]

  -- For every source, device, position and quality. Direct play: the source has no separate audio
  -- and its own mode is direct play. Remux: with separate audio the fragmented MP4 probe has a
  -- fresh pass, and the position is 0 or the source is a YouTube video that is eligible for the
  -- known-length remux; without, the position is 0 and the source's own mode is remux. Hybrid: no
  -- separate audio and position 0. Transcode: no separate audio, or a fresh pass of that probe.
  -- External player: the probe is not passing, or it is the source's own mode. Raw PCM and PCM
  -- stream: no separate audio.
  pub selected_quality_mode-RenditionSound :
      (quality : String)
      → RenditionSound m s d position now (selected_quality_mode m s d position now quality).0
  selected_quality_mode-RenditionSound quality = mode_sound quality _ refl
