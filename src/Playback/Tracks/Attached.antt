-- ===== src/Playback/Tracks/Attached.antt =====
-- tracks.go: the numbers of the subtitles that a source brings along.
use mathlib.Core.List.{append-nil}
use zombiebox_gateway_core.Base.{
  ℕ, suc, ◌+◌, ◌≤◌, ◌<◌, ◌≡◌, refl, sym, subst, inl, inr, String, true, not, ◌||◌, Option, none,
  some, List, [], ◌∷◌, ◌++◌, arith, All, leb, str_eq, if◌then◌else◌, Bool-cases, if-split,
}
use zombiebox_gateway_core.Base.Text.{codes, same, lower}
use zombiebox_gateway_core.Domain.{Stream, Metadata, Source, SubtitleSource}
use zombiebox_gateway_core.Playback.Tracks.{
  format_among, text_format, external_subtitle_base, attached_stream, attach, attachments,
  with_subtitles, text_subtitle,
}

-- A selectable subtitle with a number of the range that FFmpeg never uses.
pub record Attached (s : Stream) : Type 0 where
  pub kind : str_eq s.kind "subtitle" ≡ true
  pub is_text : text_subtitle s.codec ≡ true
  pub high : external_subtitle_base ≤ s.index
  pub low : s.index < external_subtitle_base + 32

-- The numbers rise, from a bound on.
abbrev pub Rising : ℕ → List Stream → Type 0
Rising bound [] = Unit {0}
Rising bound (s ∷ ss) = (bound ≤ s.index) × Rising (suc s.index) ss

Rising-weaken : (low high : ℕ) (ss : List Stream) → low ≤ high → Rising high ss → Rising low ss
Rising-weaken low high [] le r = tt
Rising-weaken low high (s ∷ ss) le r = (omega arith, r.1)

format_among-text_subtitle :
    (names : List String) (codec : List ℕ) (name : String)
    → All (λ n. text_subtitle n ≡ true) names
    → format_among names codec ≡ some name
    → text_subtitle name ≡ true
format_among-text_subtitle [] codec name a e = absurd (cc)
format_among-text_subtitle (n ∷ ns) codec name (t, ts) e =
    elim (Bool-cases (same codec (codes n))) [
      | inl s ↦
          let same_ : some n ≡ some name = ground arith in
          let here : n ≡ name = cc in subst (λ k. text_subtitle k ≡ true) here t
      | inr s ↦ format_among-text_subtitle ns codec name ts (ground arith)
    ]

text_format-text_subtitle :
    (codec : List ℕ) (name : String) → text_format codec ≡ some name → text_subtitle name ≡ true
unfolding text_format text_subtitle
text_format-text_subtitle codec name e =
    format_among-text_subtitle ("srt" ∷ "subrip" ∷ "vtt" ∷ "webvtt" ∷ "ass" ∷ "ssa" ∷ []) codec name
      (refl, (refl, (refl, (refl, (refl, (refl, tt)))))) e

attached_stream-Attached :
    (index : ℕ) (codec : String) (a : SubtitleSource)
    → index < 32
    → text_subtitle codec ≡ true
    → Attached (attached_stream index codec a)
attached_stream-Attached index codec a lt t = record {
  kind = refl;
  is_text = t;
  high = omega arith;
  low = omega arith;
}

-- The streams of the attachments from an index on.
abbrev Fresh : ℕ → List Stream → Type 0
Fresh index ss = All Attached ss × Rising (external_subtitle_base + index) ss

attach-Fresh :
    (index : ℕ) (a : SubtitleSource) (rest : List Stream)
    → index < 32
    → Fresh (suc index) rest
    → Fresh index (attach index a ++ rest)
unfolding attach
attach-Fresh index a rest lt f = go (text_format (lower (codes a.codec))) refl
  where
    skipped : Fresh index rest
    skipped = (f.0, Rising-weaken _ _ rest (omega arith) f.1)

    go :
        (o : Option String)
        → text_format (lower (codes a.codec)) ≡ o
        → Fresh index (
            (elim o [
              | none ↦ []
              | some codec ↦ if str_eq a.url "" then [] else attached_stream index codec a ∷ []
            ])
            ++ rest)
    go none e = skipped
    go (some codec) e =
        let one = attached_stream index codec a ∷ [] in
        if-split (λ ss. Fresh index (ss ++ rest)) (str_eq a.url "") [] one (λ _. skipped)
          λ _. (
            (attached_stream-Attached index codec a lt (text_format-text_subtitle _ codec e), f.0),
            (omega arith, Rising-weaken _ _ rest (omega arith) f.1),
          )

attachments-Fresh : (index : ℕ) (as_ : List SubtitleSource) → Fresh index (attachments index as_)
unfolding attachments
attachments-Fresh index [] = (tt, tt)
attachments-Fresh index (a ∷ as_) =
    let rest = attachments (suc index) as_ in
    if-split (Fresh index) (leb 32 index) [] (attach index a ++ rest) (λ _. (tt, tt))
      λ low. attach-Fresh index a rest (ground arith) (attachments-Fresh (suc index) as_)

-- What is appended to the streams of a source.
pub record Appended (m : Metadata) (streams : List Stream) : Type 0 where
  pub extra : List Stream
  pub kept : streams ≡ m.streams ++ extra
  pub sound : All Attached extra
  pub rising : Rising external_subtitle_base extra

-- For every metadata and source, the streams stay in their places and only subtitles are appended:
-- text ones, with rising numbers, so no two are alike, that are at least 1600000000 and below
-- 1600000032.
pub with_subtitles-Appended : (m : Metadata) (s : Source) → Appended m (with_subtitles m s).streams
unfolding with_subtitles
with_subtitles-Appended m s =
    let full : Metadata = record m { streams = m.streams ++ attachments 0 s.subtitles } in
    if-split (λ (n : Metadata). Appended m n.streams)
      (s.live || not (str_eq s.audio_url "") || not (str_eq s.path "")) m full
      (λ _. record { extra = []; kept = sym (append-nil m.streams); sound = tt; rising = tt })
      λ _.
        let (sound, rising) = attachments-Fresh 0 s.subtitles in
        record {
          extra = attachments 0 s.subtitles;
          kept = refl;
          sound = sound;
          rising = Rising-weaken _ _ (attachments 0 s.subtitles) (omega arith) rising;
        }
