-- ===== src/Playback/Tracks/Preferred.antt =====
-- preferences.go: the tracks that the language preferences of a profile choose.
pub mod Best
pub mod Choice
use zombiebox_gateway_core.Base.{
  ℕ, suc, ◌+◌, ◌-◌, ◌*◌, String, Bool, true, false, not, ◌&&◌, ◌||◌, Option, none, some, List, [],
  ◌∷◌, map, ltb, leb, ◌==◌, if◌then◌else◌, str_eq,
}
use zombiebox_gateway_core.Base.Text.{codes, same, lower, trim_space, before}
use zombiebox_gateway_core.Domain.{Stream, Metadata, Track, Preferences}
use zombiebox_gateway_core.Playback.Tracks.{inventory}

-- The map `aliases`.
abbrev aliases : List (String × String)
aliases =
    ("eng", "en")
    ∷ ("spa", "es")
    ∷ ("jpn", "ja")
    ∷ ("fra", "fr")
    ∷ ("fre", "fr")
    ∷ ("deu", "de")
    ∷ ("ger", "de")
    ∷ ("ita", "it")
    ∷ ("por", "pt")
    ∷ ("zho", "zh")
    ∷ ("chi", "zh")
    ∷ ("kor", "ko")
    ∷ ("rus", "ru")
    ∷ ("ara", "ar")
    ∷ ("hin", "hi")
    ∷ ("nld", "nl")
    ∷ ("dut", "nl")
    ∷ []

alias_in : List (String × String) → List ℕ → List ℕ
alias_in [] value = value
alias_in ((name, alias) ∷ rest) value =
    if same value (codes name) then codes alias else alias_in rest value

unfoldable pub language_code : String → List ℕ
unfolding alias_in
language_code value =
    let dashed = map (λ c. if c == b'_' then b'-' else c) (lower (trim_space (codes value))) in
    alias_in aliases (before b'-' dashed)

-- The loop of `languageRank` from an index on; nothing stands for -1.
rank_from : ℕ → List ℕ → List String → Option ℕ
rank_from index language [] = none
rank_from index language (p ∷ ps) =
    if same language (language_code p) then some index else rank_from (suc index) language ps

unfoldable pub language_rank : String → List String → Option ℕ
unfolding rank_from
language_rank language preferences =
    let code = language_code language in
    if same code [] || same code (codes "und") then none else rank_from 0 code preferences

-- `score` of a track whose language has this rank. Nothing stands for a score below -1, which is
-- never above the best so far: a rank above 100 has a score of at most -8.
unfoldable pub score_of : Option ℕ → Bool → Option ℕ
score_of none is_default = some (if is_default then 2 else 0)
score_of (some rank) is_default =
    if ltb 100 rank then none else some (1000 - rank * 10 + (if is_default then 2 else 0))

-- What the loop of `preferredTrack` is called with.
pub record Wanted : Type 0 where
  pub kind : String
  pub languages : List String
  pub forced_only : Bool
  pub fallback : Bool

abbrev pub known : Option ℕ → Bool
known none = false
known (some _) = true

-- Whether a round reaches the score.
unfoldable pub eligible : Wanted → Track → Bool
eligible w t =
    str_eq t.kind w.kind
    && t.selectable
    && (not w.forced_only || t.is_forced)
    && (known (language_rank t.language w.languages) || w.fallback)

unfoldable pub track_score : Wanted → Track → Option ℕ
track_score w t = score_of (language_rank t.language w.languages) t.is_default

-- `score > best`, with nothing for the first `best`.
abbrev pub beats : Option ℕ → Option ℕ → Bool
beats none best = false
beats (some score) none = true
beats (some score) (some best) = ltb best score

-- One round: `selected` before and after. Its score is `best`.
abbrev pub best_of : Wanted → Option Track → Option ℕ
best_of w none = none
best_of w (some t) = track_score w t

unfoldable pub prefer : Wanted → Option Track → Track → Option Track
prefer w selected t =
    if eligible w t && beats (track_score w t) (best_of w selected) then some t else selected

prefer_from : Wanted → Option Track → List Track → Option Track
prefer_from w selected [] = selected
prefer_from w selected (t ∷ ts) = prefer_from w (prefer w selected t) ts

unfoldable pub preferred_track : List Track → Wanted → Option Track
unfolding prefer_from
preferred_track tracks w = prefer_from w none tracks

abbrev id_of : Option Track → Option ℕ
id_of none = none
id_of (some t) = some t.id

abbrev speaks : List String → Option Track → Bool
speaks languages none = false
speaks languages (some t) = known (language_rank t.language languages)

unfoldable pub preferred_audio : Metadata → Preferences → Option Track
preferred_audio m p =
    preferred_track (inventory m none).tracks (record {
      kind = "audio";
      languages = p.audio_languages;
      forced_only = false;
      fallback = true;
    })

-- `forcedOnly`
abbrev pub forced_only_of : Preferences → Option Track → Bool
forced_only_of p audio =
    str_eq p.subtitle_mode "forced"
    || (str_eq p.subtitle_mode "auto" && speaks p.audio_languages audio)

unfoldable pub preferred_subtitle : Metadata → Preferences → Option Track
preferred_subtitle m p =
    if str_eq p.subtitle_mode "off" || str_eq p.subtitle_mode ""
    then none
    else let forced_only = forced_only_of p (preferred_audio m p) in
      preferred_track (inventory m none).tracks (record {
        kind = "subtitle";
        languages = p.subtitle_languages;
        forced_only = forced_only;
        fallback = str_eq p.subtitle_mode "always" || forced_only;
      })

unfoldable pub preferred_tracks : Metadata → Preferences → Option ℕ × Option ℕ
preferred_tracks m p = (id_of (preferred_audio m p), id_of (preferred_subtitle m p))
