-- ===== src/Airplay/Printed.antt =====
-- airplay_progress.go: the lines that the receiver prints are read back.
use zombiebox_gateway_core.Base.{
  ℕ, zero, suc, ◌+◌, ◌-◌, ◌*◌, ◌/◌, ◌%◌, ◌≤◌, ◌<◌, ◌≡◌, refl, ap, ◌∙◌, inl, inr, true, some, List,
  [], ◌∷◌, ◌++◌, arith, if◌then◌else◌, ltb, Bool-cases,
}
use zombiebox_gateway_core.Base.Text.{codes, is_digit}
use zombiebox_gateway_core.Airplay.{
  expect, is_blank, skip_blanks, one_blank, seconds, minutes, clock, is_end, progress_of, checked,
  checked_of, parse_airplay_progress,
}

abbrev digit : ℕ → ℕ
digit d = d + b'0'

-- The seconds in two digits, and before them the minutes in as few digits as they take.
abbrev seconds_text : ℕ → List ℕ → List ℕ
seconds_text s tail = b':' ∷ digit (s / 10) ∷ digit (s % 10) ∷ tail

unfoldable minutes_text : ℕ → List ℕ → List ℕ
minutes_text m tail =
    if ltb m 10
    then digit m ∷ tail
    else if ltb m 100
    then digit (m / 10) ∷ digit (m % 10) ∷ tail
    else if ltb m 1000
    then digit (m / 100) ∷ digit (m / 10 % 10) ∷ digit (m % 10) ∷ tail
    else digit (m / 1000) ∷ digit (m / 100 % 10) ∷ digit (m / 10 % 10) ∷ digit (m % 10) ∷ tail

pub clock_text : ℕ → List ℕ → List ℕ
unfolding minutes_text
clock_text n tail = minutes_text (n / 60) (seconds_text (n % 60) tail)

digit_back : (d : ℕ) → digit d - b'0' ≡ d
digit_back d = omega arith

seconds-text :
    (m s : ℕ) (tail : List ℕ) → s < 60 → seconds m (seconds_text s tail) ≡ some (m * 60 + s, tail)
unfolding seconds is_digit
seconds-text m s tail small = ground arith

minutes-more :
    (more n d : ℕ) (tail : List ℕ)
    → d < 10
    → minutes (suc more) n (digit d ∷ tail) ≡ minutes more (n * 10 + d) tail
unfolding minutes is_digit
minutes-more more n d tail small = rw (digit_back d) (ground arith)

minutes-end :
    (more n s : ℕ) (tail : List ℕ)
    → s < 60
    → minutes more n (seconds_text s tail) ≡ some (n * 60 + s, tail)
unfolding minutes is_digit
minutes-end zero n s tail small = seconds-text n s tail small
minutes-end (suc more) n s tail small = seconds-text n s tail small

is_digit-digit : (d : ℕ) → d < 10 → is_digit (digit d) ≡ true
unfolding is_digit
is_digit-digit d small = ground arith

clock-digit : (d : ℕ) (tail : List ℕ) → d < 10 → clock (digit d ∷ tail) ≡ minutes 3 d tail
unfolding clock
clock-digit d tail small = rw (is_digit-digit d small, digit_back d) refl

clock-minutes :
    (m s : ℕ) (tail : List ℕ)
    → m < 10000
    → s < 60
    → clock (minutes_text m (seconds_text s tail)) ≡ some (m * 60 + s, tail)
unfolding minutes_text
clock-minutes m s tail few small =
    let end = seconds_text s tail in
    elim (Bool-cases (ltb m 10)) [
      | inl one ↦ rw one (clock-digit m end (ground arith) ∙ minutes-end 3 m s tail small)
      | inr ten ↦ rw ten (elim (Bool-cases (ltb m 100)) [
        | inl two ↦ rw two (
            clock-digit (m / 10) (digit (m % 10) ∷ end) (ground arith)
            ∙ minutes-more 2 (m / 10) (m % 10) end (omega arith)
            ∙ minutes-end 2 (m / 10 * 10 + m % 10) s tail small
            ∙ ap (λ k. some (k * 60 + s, tail)) (omega arith))
        | inr hundred ↦ rw hundred (elim (Bool-cases (ltb m 1000)) [
          | inl three ↦ rw three (
              clock-digit (m / 100) (digit (m / 10 % 10) ∷ digit (m % 10) ∷ end) (ground arith)
              ∙ minutes-more 2 (m / 100) (m / 10 % 10) (digit (m % 10) ∷ end) (omega arith)
              ∙ minutes-more 1 (m / 100 * 10 + m / 10 % 10) (m % 10) end (omega arith)
              ∙ minutes-end 1 ((m / 100 * 10 + m / 10 % 10) * 10 + m % 10) s tail small
              ∙ ap (λ k. some (k * 60 + s, tail)) (omega arith))
          | inr four ↦ rw four (
              clock-digit (m / 1000)
                (digit (m / 100 % 10) ∷ digit (m / 10 % 10) ∷ digit (m % 10) ∷ end) (omega arith)
              ∙ minutes-more 2 (m / 1000) (m / 100 % 10)
                  (digit (m / 10 % 10) ∷ digit (m % 10) ∷ end) (omega arith)
              ∙ minutes-more 1 (m / 1000 * 10 + m / 100 % 10) (m / 10 % 10) (digit (m % 10) ∷ end)
                  (omega arith)
              ∙ minutes-more 0 ((m / 1000 * 10 + m / 100 % 10) * 10 + m / 10 % 10) (m % 10) end
                  (omega arith)
              ∙ minutes-end 0 (((m / 1000 * 10 + m / 100 % 10) * 10 + m / 10 % 10) * 10 + m % 10) s
                  tail small
              ∙ ap (λ k. some (k * 60 + s, tail)) (omega arith))
        ])
      ])
    ]

-- No blank stands in front of a printed clock.
skip_blanks-digit : (d : ℕ) (tail : List ℕ) → d < 10 → skip_blanks (digit d ∷ tail) ≡ digit d ∷ tail
unfolding skip_blanks is_blank
skip_blanks-digit d tail small = ground arith

skip_blanks-minutes_text :
    (m : ℕ) (tail : List ℕ) → m < 10000 → skip_blanks (minutes_text m tail) ≡ minutes_text m tail
unfolding minutes_text
skip_blanks-minutes_text m tail few = elim (Bool-cases (ltb m 10)) [
  | inl one ↦ rw one (skip_blanks-digit m tail (ground arith))
  | inr ten ↦ rw ten (elim (Bool-cases (ltb m 100)) [
    | inl two ↦ rw two (skip_blanks-digit (m / 10) _ (ground arith))
    | inr hundred ↦ rw hundred (elim (Bool-cases (ltb m 1000)) [
      | inl three ↦ rw three (skip_blanks-digit (m / 100) _ (ground arith))
      | inr four ↦ rw four (skip_blanks-digit (m / 1000) _ (omega arith))
    ])
  ])
]

clock-clock_text :
    (n : ℕ) (tail : List ℕ)
    → n ≤ 86400
    → clock (skip_blanks (32 ∷ clock_text n tail)) ≡ some (n, tail)
unfolding clock_text skip_blanks is_blank
clock-clock_text n tail le =
    ap clock (skip_blanks-minutes_text (n / 60) (seconds_text (n % 60) tail) (omega arith))
    ∙ clock-minutes (n / 60) (n % 60) tail (omega arith) (omega arith)
    ∙ ap (λ k. some (k, tail)) (omega arith)

-- A line as the receiver prints it, for a position in a track.
abbrev pub printed : ℕ → ℕ → List ℕ
printed position duration =
    codes "audio progress (min:sec): "
    ++ clock_text position (
        codes "; remaining: "
        ++ clock_text (duration - position) (codes "; track length " ++ clock_text duration []))

progress_of-printed :
    (position duration : ℕ)
    → position ≤ duration
    → duration ≤ 86400
    → progress_of (printed position duration) ≡ some (position, duration - position, duration)
unfolding progress_of expect one_blank is_blank is_end
progress_of-printed position duration le day =
    let end : List ℕ = codes "; track length " ++ clock_text duration [] in
    let middle : List ℕ = codes "; remaining: " ++ clock_text (duration - position) end in
    rw
      (
        clock-clock_text position middle (omega arith),
        clock-clock_text (duration - position) end (omega arith),
        clock-clock_text duration [] day,
      )
      refl

checked-rest :
    (position duration : ℕ)
    → position ≤ duration
    → 0 < duration
    → duration ≤ 86400
    → checked position (duration - position) duration ≡ some (position * 1000, duration * 1000)
unfolding checked
checked-rest position duration le long day = ground arith

-- A line that the receiver prints for a position within a track of 1 s to 24 h, with the rest of
-- the track after it, is read back as that position and that duration in milliseconds.
pub parse_airplay_progress-printed :
    (position duration : ℕ)
    → position ≤ duration
    → 0 < duration
    → duration ≤ 86400
    → parse_airplay_progress (printed position duration) ≡ some (position * 1000, duration * 1000)
unfolding parse_airplay_progress checked_of
parse_airplay_progress-printed position duration le long day =
    ap checked_of (progress_of-printed position duration le day)
    ∙ checked-rest position duration le long day
