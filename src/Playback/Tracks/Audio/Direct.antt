-- ===== src/Playback/Tracks/Audio/Direct.antt =====
-- audio_selection.go: direct play with a preferred sound track.
use zombiebox_gateway_core.Base.{
  ℕ, ◌≤◌, ◌≡◌, refl, sym, subst, ◌⊎◌, inl, inr, String, true, false, not, ◌&&◌, ◌||◌, Option, none,
  some, arith, All, str_eq, Bool-cases,
}
use zombiebox_gateway_core.Domain.{Capabilities, Metadata}
use zombiebox_gateway_core.Playback.Runtime.{Runtime}
use zombiebox_gateway_core.Playback.Probe.{week}
use zombiebox_gateway_core.Playback.Planner.Local.{
  Mode, direct_play, remux, hybrid, transcode, raw_pcm, pcm_stream, external_player, local_mode,
}
use zombiebox_gateway_core.Playback.Planner.Direct.{
  StreamProven, TransportProven, local_mode_with-direct_play,
}
use zombiebox_gateway_core.Playback.Tracks.Audio.{
  MediaSelection, requires_audio_mapping, audio_metadata, is_mode_direct, selected_audio_mode,
  preferred_audio_mode,
}
use zombiebox_gateway_core.Playback.Tracks.Audio.Modes.{AudioSound, selected_audio_mode-AudioSound}

-- The source itself plays directly, and if no mode was requested, the source has the track and its
-- first audio stream is that track.
abbrev pub Kept : Metadata → String → Option ℕ → Type 0
Kept m requested none = Unit {0}
Kept m requested (some id) =
    ((str_eq requested "" ≡ false) × (str_eq requested "AUTO" ≡ false))
    ⊎ (((audio_metadata m id).1 ≡ true) × (requires_audio_mapping m (some id) ≡ false))

is_mode_direct-direct_play : (mode : Mode) → is_mode_direct mode ≡ true → mode ≡ direct_play
is_mode_direct-direct_play direct_play e = refl
is_mode_direct-direct_play remux e = absurd (cc)
is_mode_direct-direct_play hybrid e = absurd (cc)
is_mode_direct-direct_play transcode e = absurd (cc)
is_mode_direct-direct_play raw_pcm e = absurd (cc)
is_mode_direct-direct_play pcm_stream e = absurd (cc)
is_mode_direct-direct_play external_player e = absurd (cc)

module _ ⦃rt : Runtime⦄ (m : Metadata) (mime : String) (caps : Capabilities) (now : ℕ) where
  never_direct :
      (selection : MediaSelection) (current : String)
      → selected_audio_mode m mime caps now selection current ≡ direct_play
      → ⊥
  never_direct selection current e =
      subst (AudioSound m caps selection current) e
        (selected_audio_mode-AudioSound m mime caps now selection current)

  original-direct :
      (requested : String) (audio : Option ℕ)
      → preferred_audio_mode m mime caps now requested audio ≡ direct_play
      → (local_mode m caps now mime requested ≡ direct_play) × Kept m requested audio
  unfolding preferred_audio_mode
  original-direct requested none e = (e, tt)
  original-direct requested (some id) e =
      let original = local_mode m caps now mime requested in
      let mode = local_mode (audio_metadata m id).0 caps now mime requested in
      elim (Bool-cases (not (str_eq requested "") && not (str_eq requested "AUTO"))) [
        | inl asked ↦ (ground arith, inl (ground arith, ground arith))
        | inr open_ ↦ elim (Bool-cases (audio_metadata m id).1) [
          | inr missing ↦ absurd (ground arith)
          | inl found ↦
              elim (Bool-cases (
                is_mode_direct mode
                && (not (is_mode_direct original) || requires_audio_mapping m (some id)))) [
                  | inl remade ↦ absurd (
                      never_direct (record { quality = ""; audio_id = some id; position_ms = 0 }) ""
                        (ground arith))
                  | inr same_ ↦
                      let direct : mode ≡ direct_play = ground arith in
                      let is_direct : is_mode_direct mode ≡ true =
                        subst (λ q. is_mode_direct q ≡ true) (sym direct) refl in
                      (
                        is_mode_direct-direct_play original (ground arith),
                        inr (found, ground arith),
                      )
                ]
        ]
      ]

  -- Past the first week of 1970: when the mode for a preferred sound track is direct play, the
  -- source plays directly with all its tracks: each video stream has a fresh pass of a probe of
  -- its codec that is as large, each audio stream is MP3, or AAC with a fresh pass of the AAC
  -- probe, and the transport is proven as for local direct play; and if a track is preferred and
  -- no mode was requested, the source has that track and it is the first audio stream, which the
  -- player picks by itself.
  pub preferred_audio_mode-direct_play :
      (requested : String) (audio : Option ℕ)
      → week ≤ now
      → preferred_audio_mode m mime caps now requested audio ≡ direct_play
      → All (StreamProven caps now) m.streams
        × TransportProven m mime caps now
        × Kept m requested audio
  unfolding local_mode
  preferred_audio_mode-direct_play requested audio wk e =
      let (direct, kept) = original-direct requested audio e in
      let (streams, transport) =
        local_mode_with-direct_play m caps now wk mime requested true direct in
      (streams, transport, kept)
