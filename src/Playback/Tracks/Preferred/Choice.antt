-- ===== src/Playback/Tracks/Preferred/Choice.antt =====
-- preferences.go: the preferred tracks and the inventory.
use zombiebox_gateway_core.Base.{
  ℕ, ◌≡◌, refl, subst, ◌⊎◌, inl, inr, true, false, ◌&&◌, ◌||◌, Option, none, some, Memᴰ, arith,
  any-Mem, ◌==◌, ==_iff, str_eq, Bool-cases,
}
use zombiebox_gateway_core.Domain.{Metadata, Track, Preferences}
use zombiebox_gateway_core.Playback.Tracks.{inventory, has_track}
use zombiebox_gateway_core.Playback.Tracks.Preferred.{
  Wanted, eligible, preferred_track, id_of, preferred_audio, forced_only_of, preferred_subtitle,
  preferred_tracks,
}
use zombiebox_gateway_core.Playback.Tracks.Preferred.Best.{Preferred, preferred_track-Preferred}

-- The facts of a preferred track.
pub record Chosen (m : Metadata) (w : Wanted) (t : Track) : Type 0 where
  pub listed : Memᴰ t (inventory m none).tracks
  pub kind : str_eq t.kind w.kind ≡ true
  pub selectable : t.selectable ≡ true
  pub forced : (w.forced_only ≡ false) ⊎ (t.is_forced ≡ true)

Chosen-of :
    (m : Metadata) (w : Wanted) (t : Track)
    → Preferred (inventory m none).tracks w (some t)
    → Chosen m w t
unfolding eligible
Chosen-of m w t (mem, e, _) = record {
  listed = mem;
  kind = ground arith;
  selectable = ground arith;
  forced = ground arith;
}

Chosen-has_track :
    (m : Metadata) (w : Wanted) (t : Track)
    → Chosen m w t
    → has_track (inventory m none) t.id w.kind ≡ true
unfolding has_track
Chosen-has_track m w t c =
    any-Mem (λ (u : Track). u.id == t.id && str_eq u.kind w.kind && u.selectable)
      (inventory m none).tracks c.listed (rw (c.kind, c.selectable, (==_iff t.id t.id).1 refl) refl)

-- What is said of the preferred audio track and of the preferred subtitle.
abbrev pub AudioChoice : Metadata → Option ℕ → Type 0
AudioChoice m none = Unit {0}
AudioChoice m (some id) = has_track (inventory m none) id "audio" ≡ true

abbrev pub SubtitleChoice : Metadata → Preferences → Option ℕ → Type 0
SubtitleChoice m p none = Unit {0}
SubtitleChoice m p (some id) =
    (has_track (inventory m none) id "subtitle" ≡ true)
    × (str_eq p.subtitle_mode "off" ≡ false)
    × (str_eq p.subtitle_mode "" ≡ false)
    × ((forced_only_of p (preferred_audio m p) ≡ false)
        ⊎ ((t : Track) × Memᴰ t (inventory m none).tracks × (t.id ≡ id) × (t.is_forced ≡ true)))

audio-AudioChoice :
    (m : Metadata) (w : Wanted) (r : Option Track)
    → w.kind ≡ "audio"
    → preferred_track (inventory m none).tracks w ≡ r
    → AudioChoice m (id_of r)
audio-AudioChoice m w none k e = tt
audio-AudioChoice m w (some t) k e =
    let best : Preferred (inventory m none).tracks w (some t) =
      subst (Preferred (inventory m none).tracks w) e
        (preferred_track-Preferred (inventory m none).tracks w) in
    subst (λ kind. has_track (inventory m none) t.id kind ≡ true) k
      (Chosen-has_track m w t (Chosen-of m w t best))

subtitle-SubtitleChoice :
    (m : Metadata) (p : Preferences) (r : Option Track)
    → preferred_subtitle m p ≡ r
    → SubtitleChoice m p (id_of r)
unfolding preferred_subtitle
subtitle-SubtitleChoice m p none e = tt
subtitle-SubtitleChoice m p (some t) e =
    let forced_only = forced_only_of p (preferred_audio m p) in
    let w : Wanted = record {
      kind = "subtitle";
      languages = p.subtitle_languages;
      forced_only = forced_only;
      fallback = str_eq p.subtitle_mode "always" || forced_only;
    } in
    elim (Bool-cases (str_eq p.subtitle_mode "off" || str_eq p.subtitle_mode "")) [
      | inl off ↦ absurd (ground arith)
      | inr shown ↦
          let found : preferred_track (inventory m none).tracks w ≡ some t = ground arith in
          let best : Preferred (inventory m none).tracks w (some t) =
            subst (Preferred (inventory m none).tracks w) found
              (preferred_track-Preferred (inventory m none).tracks w) in
          let c = Chosen-of m w t best in
          (
            Chosen-has_track m w t c,
            ground arith,
            ground arith,
            elim c.forced [ inl f ↦ inl f | inr f ↦ inr (t, c.listed, refl, f) ],
          )
    ]

-- For every metadata and preferences: a preferred audio track is in the inventory as a selectable
-- audio track; a preferred subtitle is in it as a selectable subtitle, the subtitles are not off,
-- and where only forced ones are wanted (in the mode forced, and in the mode auto when the audio
-- is in a preferred language) a track of its number is forced.
pub preferred_tracks-Choice :
    (m : Metadata) (p : Preferences)
    → AudioChoice m (preferred_tracks m p).0 × SubtitleChoice m p (preferred_tracks m p).1
unfolding preferred_tracks preferred_audio
preferred_tracks-Choice m p = (
  audio-AudioChoice m
      (record {
        kind = "audio";
        languages = p.audio_languages;
        forced_only = false;
        fallback = true;
      })
      _ refl refl,
  subtitle-SubtitleChoice m p (preferred_subtitle m p) refl,
)
