-- ===== src/Playback/Tracks/Audio/Modes.antt =====
-- audio_selection.go: the mode of a chosen sound track.
use zombiebox_gateway_core.Base.{
  ℕ, ◌≡◌, refl, sym, subst, inl, inr, String, Bool, true, false, not, ◌||◌, Option, none, some,
  arith, ltb, if◌then◌else◌, str_eq, Bool-cases, if-split,
}
use zombiebox_gateway_core.Domain.{Capabilities, Metadata}
use zombiebox_gateway_core.Playback.Runtime.{Runtime}
use zombiebox_gateway_core.Playback.Planner.Local.{
  Mode, direct_play, remux, hybrid, transcode, raw_pcm, pcm_stream, external_player, local_mode,
}
use zombiebox_gateway_core.Playback.Planner.Direct.{FallbackSound, local_mode_with-FallbackSound}
use zombiebox_gateway_core.Playback.Tracks.Audio.{
  MediaSelection, audio_metadata, ever_failed, audio_mode, selected_audio_mode,
}

-- The chosen track exists, and the conversion has no failed transport probe.
abbrev pub Mappable : Metadata → Capabilities → Option ℕ → Type 0
Mappable m caps none = ⊥
Mappable m caps (some id) =
    ((audio_metadata m id).1 ≡ true) × (ever_failed caps "http-fmp4" ≡ false)

-- Nothing asks for a new encoding of the picture.
abbrev pub Unforced : MediaSelection → String → Type 0
Unforced selection current =
    (selection.position_ms ≡ 0)
    × (str_eq selection.quality "LOW" ≡ false)
    × (str_eq current "TRANSCODE" ≡ false)

-- What the mode of a chosen sound track says.
abbrev pub AudioSound : Metadata → Capabilities → MediaSelection → String → Mode → Type 0
AudioSound m caps selection current remux =
    Mappable m caps selection.audio_id × Unforced selection current
AudioSound m caps selection current hybrid =
    Mappable m caps selection.audio_id × Unforced selection current
AudioSound m caps selection current transcode =
    Mappable m caps selection.audio_id
    × (ever_failed caps "h264-baseline-360" ≡ false)
    × (ever_failed caps "aac" ≡ false)
AudioSound m caps selection current external_player = Unit {0}
AudioSound m caps selection current _ = ⊥

-- The planner's modes without a request are those of files.
abbrev IsFileMode : Mode → Type 0
IsFileMode raw_pcm = ⊥
IsFileMode pcm_stream = ⊥
IsFileMode _ = Unit {0}

file_mode :
    (m : Metadata) (caps : Capabilities) (now : ℕ) (mode : Mode)
    → FallbackSound m caps now mode
    → IsFileMode mode
file_mode m caps now direct_play f = tt
file_mode m caps now remux f = tt
file_mode m caps now hybrid f = tt
file_mode m caps now transcode f = tt
file_mode m caps now external_player f = tt
file_mode m caps now raw_pcm f = f
file_mode m caps now pcm_stream f = f

-- What the end of `SelectedAudioMode` makes of a mode.
abbrev Ended : Capabilities → Bool → Mode → Type 0
Ended caps force remux = force ≡ false
Ended caps force hybrid = force ≡ false
Ended caps force transcode =
    (ever_failed caps "h264-baseline-360" ≡ false) × (ever_failed caps "aac" ≡ false)
Ended caps force external_player = Unit {0}
Ended caps force _ = ⊥

encoded-Ended :
    (caps : Capabilities) (force : Bool)
    → Ended caps force (
        if ever_failed caps "h264-baseline-360" || ever_failed caps "aac"
        then external_player
        else transcode)
encoded-Ended caps force =
    let bad = ever_failed caps "h264-baseline-360" || ever_failed caps "aac" in
    elim (Bool-cases bad) [
      | inl b ↦ subst (λ t. Ended caps force (if t then external_player else transcode)) (sym b) tt
      | inr g ↦
          subst (λ t. Ended caps force (if t then external_player else transcode)) (sym g)
            (ground arith, ground arith)
    ]

audio_mode-Ended :
    (caps : Capabilities) (force : Bool) (mode : Mode)
    → IsFileMode mode
    → Ended caps force (audio_mode caps force mode)
unfolding audio_mode
audio_mode-Ended caps force raw_pcm f = absurd f
audio_mode-Ended caps force pcm_stream f = absurd f
audio_mode-Ended caps force external_player f = tt
audio_mode-Ended caps false direct_play f = refl
audio_mode-Ended caps false remux f = refl
audio_mode-Ended caps false hybrid f = refl
audio_mode-Ended caps false transcode f = encoded-Ended caps false
audio_mode-Ended caps true direct_play f = encoded-Ended caps true
audio_mode-Ended caps true remux f = encoded-Ended caps true
audio_mode-Ended caps true hybrid f = encoded-Ended caps true
audio_mode-Ended caps true transcode f = encoded-Ended caps true

abbrev forces : MediaSelection → String → Bool
forces selection current =
    ltb 0 selection.position_ms || str_eq selection.quality "LOW" || str_eq current "TRANSCODE"

forces-Unforced :
    (selection : MediaSelection) (current : String)
    → forces selection current ≡ false
    → Unforced selection current
forces-Unforced selection current h = (ground arith, ground arith, ground arith)

sound-of :
    (m : Metadata) (caps : Capabilities) (selection : MediaSelection) (current : String)
    (mode : Mode)
    → Mappable m caps selection.audio_id
    → Ended caps (forces selection current) mode
    → AudioSound m caps selection current mode
sound-of m caps selection current remux p e = (p, forces-Unforced selection current e)
sound-of m caps selection current hybrid p e = (p, forces-Unforced selection current e)
sound-of m caps selection current transcode p e = (p, e.0, e.1)
sound-of m caps selection current external_player p e = tt
sound-of m caps selection current direct_play p e = e
sound-of m caps selection current raw_pcm p e = e
sound-of m caps selection current pcm_stream p e = e

module _ ⦃rt : Runtime⦄ (m : Metadata) (mime : String) (caps : Capabilities) (now : ℕ) where
  local-IsFileMode : (n : Metadata) → IsFileMode (local_mode n caps now mime "AUTO")
  unfolding local_mode
  local-IsFileMode n =
      file_mode n caps now _
        (local_mode_with-FallbackSound n caps now mime "AUTO" true (refl, refl))

  at_id :
      (selection : MediaSelection) (current : String) (id : ℕ)
      → selection.audio_id ≡ some id
      → AudioSound m caps selection current (
          if not (audio_metadata m id).1
          then external_player
          else if ever_failed caps "http-fmp4"
          then external_player
          else audio_mode caps
              (forces selection current)
              (local_mode (audio_metadata m id).0 caps now mime "AUTO"))
  at_id selection current id e =
      let P : Mode → Type 0 = AudioSound m caps selection current in
      let last =
        audio_mode caps (forces selection current)
          (local_mode (audio_metadata m id).0 caps now mime "AUTO") in
      if-split P (not (audio_metadata m id).1) external_player
        (if ever_failed caps "http-fmp4" then external_player else last) (λ _. tt)
        λ found.
          if-split P (ever_failed caps "http-fmp4") external_player last (λ _. tt)
            λ fine.
              sound-of m caps selection current last
                (subst (Mappable m caps) (sym e) (ground arith, fine))
                (audio_mode-Ended caps (forces selection current) _
                  (local-IsFileMode (audio_metadata m id).0))

  -- For every source, device, selection and current mode: a chosen sound track is never played
  -- directly or as PCM. It is remuxed, or half copied, only if the source has the track, no
  -- fragmented MP4 probe ever failed, the position is 0, the quality is not LOW and the current
  -- mode is no transcode; and transcoded only if the source has the track and no fragmented MP4,
  -- 360p baseline or AAC probe ever failed.
  pub selected_audio_mode-AudioSound :
      (selection : MediaSelection) (current : String)
      → AudioSound m caps selection current (selected_audio_mode m mime caps now selection current)
  unfolding selected_audio_mode
  selected_audio_mode-AudioSound selection current = go selection.audio_id refl
    where
      go :
          (o : Option ℕ)
          → selection.audio_id ≡ o
          → AudioSound m caps selection current (elim o [
            | none ↦ external_player
            | some id ↦
                if not (audio_metadata m id).1
                then external_player
                else if ever_failed caps "http-fmp4"
                then external_player
                else audio_mode caps
                    (forces selection current)
                    (local_mode (audio_metadata m id).0 caps now mime "AUTO")
          ])
      go none e = tt
      go (some id) e = at_id selection current id e
