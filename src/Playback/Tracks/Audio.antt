-- ===== src/Playback/Tracks/Audio.antt =====
-- audio_selection.go, and `RequiresAudioMapping` of preferences.go: the mode that a chosen sound
-- track needs.
pub mod Modes
pub mod Direct
use zombiebox_gateway_core.Base.{
  ℕ, String, Bool, true, false, not, ◌&&◌, ◌||◌, Option, none, some, List, [], ◌∷◌, any, keep, ltb,
  ◌==◌, if◌then◌else◌, str_eq,
}
use zombiebox_gateway_core.Domain.{Probe, Capabilities, Stream, Metadata}
use zombiebox_gateway_core.Playback.Runtime.{Runtime}
use zombiebox_gateway_core.Playback.Hls.{is_audio}
use zombiebox_gateway_core.Playback.Planner.Local.{
  Mode, direct_play, remux, hybrid, transcode, external_player, local_mode,
}

-- `domain.MediaSelection`
pub record MediaSelection : Type 0 where
  pub quality : String
  pub audio_id : Option ℕ
  pub position_ms : ℕ

first_audio_differs : ℕ → List Stream → Bool
first_audio_differs selected [] = false
first_audio_differs selected (s ∷ ss) =
    if is_audio s then not (s.index == selected) else first_audio_differs selected ss

unfoldable pub requires_audio_mapping : Metadata → Option ℕ → Bool
unfolding first_audio_differs
requires_audio_mapping m none = false
requires_audio_mapping m (some selected) = first_audio_differs selected m.streams

-- Whether a round of `audioMetadata` appends the stream.
abbrev pub mapped : ℕ → Stream → Bool
mapped audio_id s = not (is_audio s) || s.index == audio_id

unfoldable pub audio_metadata : Metadata → ℕ → Metadata × Bool
audio_metadata m audio_id = (
  record m { streams = keep (mapped audio_id) m.streams },
  any (λ s. is_audio s && s.index == audio_id) m.streams,
)

-- `failed`: any probe of the id, whatever its age.
unfoldable pub ever_failed : Capabilities → String → Bool
ever_failed caps id = any (λ (p : Probe). str_eq p.id id && str_eq p.status "FAIL") caps.probes

abbrev pub is_mode_external : Mode → Bool
is_mode_external external_player = true
is_mode_external _ = false

abbrev pub is_mode_direct : Mode → Bool
is_mode_direct direct_play = true
is_mode_direct _ = false

abbrev pub is_mode_transcode : Mode → Bool
is_mode_transcode transcode = true
is_mode_transcode _ = false

-- The end of `SelectedAudioMode`: `force` is the test of the position, the quality and the current
-- mode.
pub audio_mode : Capabilities → Bool → Mode → Mode
audio_mode caps force mode =
    let forced = if force then transcode else mode in
    if is_mode_external mode
    then external_player
    else if is_mode_transcode forced
        && (ever_failed caps "h264-baseline-360" || ever_failed caps "aac")
    then external_player
    else if is_mode_direct forced
    then remux
    else forced

module _ ⦃rt : Runtime⦄ (m : Metadata) (mime : String) (caps : Capabilities) (now : ℕ) where
  pub selected_audio_mode : MediaSelection → String → Mode
  selected_audio_mode selection current_mode = elim selection.audio_id [
    | none ↦ external_player
    | some id ↦
        if not (audio_metadata m id).1
        then external_player
        else if ever_failed caps "http-fmp4"
        then external_player
        else audio_mode caps
            (ltb 0 selection.position_ms
              || str_eq selection.quality "LOW"
              || str_eq current_mode "TRANSCODE")
            (local_mode (audio_metadata m id).0 caps now mime "AUTO")
  ]

  unfoldable pub preferred_audio_mode : String → Option ℕ → Mode
  preferred_audio_mode requested none = local_mode m caps now mime requested
  preferred_audio_mode requested (some id) =
      let original = local_mode m caps now mime requested in
      let mode = local_mode (audio_metadata m id).0 caps now mime requested in
      if not (str_eq requested "") && not (str_eq requested "AUTO")
      then original
      else if not (audio_metadata m id).1
      then external_player
      else if is_mode_direct mode
          && (not (is_mode_direct original) || requires_audio_mapping m (some id))
      then selected_audio_mode (record { quality = ""; audio_id = some id; position_ms = 0 }) ""
      else mode
