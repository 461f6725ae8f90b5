-- ===== src/Airplay/Sound.antt =====
-- airplay_progress.go: what is kept in every order of writes and tracks.
use zombiebox_gateway_core.Base.{
  ℕ, ◌*◌, ◌≤◌, String, Option, ◌≡◌, refl, ◌⊎◌, inl, inr, true, none, some, List, [], ◌∷◌, ◌++◌,
  arith, eq_iff, if-split, if◌then◌else◌, length, length-append,
}
use zombiebox_gateway_core.Airplay.{
  Progress, Sample, Clock, new, parse_airplay_progress, progress_of, checked, checked_of,
  set_sample, finish_line, next_line, line_started, add_byte, has_partial_line, fresh, clock_at,
  write_byte, write, usable_revision, observe_track, clock_of, snapshot, Event, writes, observes,
  happen, after,
}

-- A position in a track of at most a day.
pub InTrack : ℕ → ℕ → Type 0
InTrack position duration = (position ≤ duration) × (1000 ≤ duration) × (duration ≤ 86400000)

unfoldable TimesAt : Option (ℕ × ℕ) → Type 0
TimesAt none = Unit
TimesAt (some (position, duration)) = InTrack position duration

checked-TimesAt : (position remaining duration : ℕ) → TimesAt (checked position remaining duration)
unfolding TimesAt InTrack checked
checked-TimesAt position remaining duration =
    if-split TimesAt _ none (some (position * 1000, duration * 1000)) (λ _. tt)
      (λ h. (ground arith, ground arith, ground arith))

checked_of-TimesAt : (o : Option (ℕ × ℕ × ℕ)) → TimesAt (checked_of o)
unfolding TimesAt checked_of
checked_of-TimesAt none = tt
checked_of-TimesAt (some (position, remaining, duration)) =
    checked-TimesAt position remaining duration

parse_airplay_progress-TimesAt : (line : List ℕ) → TimesAt (parse_airplay_progress line)
unfolding parse_airplay_progress
parse_airplay_progress-TimesAt line = checked_of-TimesAt (progress_of line)

pub SampleAt : String → Option Sample → Type 0
SampleAt revision none = Unit
SampleAt revision (some s) = (s.track_revision ≡ revision) × InTrack s.position_ms s.duration_ms

-- The line is short and of the current track, and so is the sample.
pub record Sound (p : Progress) : Type 0 where
  pub short : length p.line ≤ 512
  pub fenced : (p.line_revision ≡ "") ⊎ (p.line_revision ≡ p.track_revision)
  pub credible : SampleAt p.track_revision p.sample

set_sample-Sound :
    (now : ℕ) (o : Option (ℕ × ℕ)) (p : Progress)
    → p.line_revision ≡ p.track_revision
    → TimesAt o
    → Sound p
    → Sound (set_sample now o p)
unfolding set_sample TimesAt SampleAt
set_sample-Sound now none p e t v = v
set_sample-Sound now (some (position, duration)) p e t v = record {
  short = v.short;
  fenced = v.fenced;
  credible = (e, t);
}

finish_line-Sound : (now : ℕ) (p : Progress) → Sound p → Sound (finish_line now p)
unfolding finish_line
finish_line-Sound now p v =
    if-split Sound _ p (set_sample now (parse_airplay_progress p.line) p) (λ _. v)
      (λ h.
        set_sample-Sound now (parse_airplay_progress p.line) p
          ((eq_iff p.line_revision p.track_revision).0 (ground (arith, h)))
          (parse_airplay_progress-TimesAt p.line) v)

line_started-Sound : (p : Progress) → Sound p → Sound (line_started p)
line_started-Sound p v =
    if-split Sound _ (record p { line_revision = p.track_revision }) p
      (λ _. record { short = v.short; fenced = inr refl; credible = v.credible }) (λ _. v)

add_byte-Sound : (c : ℕ) (p : Progress) → Sound p → Sound (add_byte c p)
add_byte-Sound c p v =
    if-split Sound _ (record p { line = []; line_revision = ""; discard_line = true })
      (record p { line = p.line ++ c ∷ [] })
      (λ _. record { short = omega arith; fenced = inl refl; credible = v.credible })
      (λ h. record {
        short = ground (arith, length-append p.line (c ∷ []));
        fenced = v.fenced;
        credible = v.credible;
      })

next_line-Sound : (p : Progress) → Sound p → Sound (next_line p)
next_line-Sound p v = record { short = omega arith; fenced = inl refl; credible = v.credible }

write_byte-Sound : (now c : ℕ) (p : Progress) → Sound p → Sound (write_byte now c p)
unfolding write_byte
write_byte-Sound now c p v =
    let byte = add_byte c (line_started p) in
    if-split Sound _ (next_line (finish_line now p)) (if p.discard_line then p else byte)
      (λ _. next_line-Sound (finish_line now p) (finish_line-Sound now p v))
      (λ _.
        if-split Sound p.discard_line p byte (λ _. v)
          (λ _. add_byte-Sound c (line_started p) (line_started-Sound p v)))

write-Sound : (now : ℕ) (cs : List ℕ) (p : Progress) → Sound p → Sound (write now cs p)
unfolding write
write-Sound now [] p v = v
write-Sound now (c ∷ cs) p v = write-Sound now cs (write_byte now c p) (write_byte-Sound now c p v)

observe_track-Sound :
    (revision : String) (p : Progress) → Sound p → Sound (observe_track revision p)
unfolding observe_track SampleAt
observe_track-Sound revision p v =
    if-split Sound _ p (fresh (has_partial_line p) (usable_revision revision)) (λ _. v)
      (λ _. record { short = omega arith; fenced = inl refl; credible = tt })

happen-Sound : (p : Progress) (e : Event) → Sound p → Sound (happen p e)
unfolding happen
happen-Sound p (writes now cs) v = write-Sound now cs p v
happen-Sound p (observes revision) v = observe_track-Sound revision p v

after_from-Sound : (p : Progress) (es : List Event) → Sound p → Sound (after p es)
unfolding after
after_from-Sound p [] v = v
after_from-Sound p (e ∷ es) v = after_from-Sound (happen p e) es (happen-Sound p e v)

-- What a client is shown: a position in the track, at most five seconds old.
pub Shown : Option Clock → Type 0
Shown none = Unit
Shown (some c) = InTrack c.position_ms c.duration_ms × (c.age_ms ≤ 5000)

clock_of-Shown :
    (now : ℕ) (revision : String) (o : Option Sample)
    → SampleAt revision o
    → Shown (clock_of now revision o)
unfolding clock_of SampleAt Shown
clock_of-Shown now revision none a = tt
clock_of-Shown now revision (some s) a =
    if-split Shown _ none (some (clock_at now s)) (λ _. tt) (λ h. (a.1, ground arith))

snapshot-Shown : (now : ℕ) (p : Progress) → Sound p → Shown (snapshot now p)
unfolding snapshot Shown
snapshot-Shown now p v =
    if-split Shown _ none (clock_of now p.track_revision p.sample) (λ _. tt)
      (λ _. clock_of-Shown now p.track_revision p.sample v.credible)

-- In every order of writes and tracks, from a new progress: a line holds at most 512 bytes and, if
-- it counts at all, began in the current track; a sample is of the current track; and what a
-- snapshot shows is a position within a track of 1 s to 24 h, at most five seconds old.
pub after-Sound :
    (es : List Event) (now : ℕ) → Sound (after new es) × Shown (snapshot now (after new es))
unfolding SampleAt
after-Sound es now =
    let start : Sound new = record { short = omega arith; fenced = inl refl; credible = tt } in
    let v = after_from-Sound new es start in (v, snapshot-Shown now (after new es) v)
