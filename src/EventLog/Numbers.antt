-- ===== src/EventLog/Numbers.antt =====
-- events.go: the text of a cursor, as `publish` writes it and `read` takes it apart.
use zombiebox_gateway_core.Base.{
  ℕ, zero, suc, ◌+◌, ◌-◌, ◌*◌, ◌/◌, ◌%◌, ◌^◌, ◌≤◌, ◌<◌, ◌≡◌, refl, ap, ◌∙◌, inl, inr, true, false,
  List, [], ◌∷◌, ◌++◌, arith, All, ltb, ◌==◌, Bool-cases, ==_iff,
}
use zombiebox_gateway_core.Base.Text.{
  same, split, push_head, is_digit, parsed, parse_uint, parse_from,
}
use zombiebox_gateway_core.EventLog.{digits_from, digits, cursor_of}

digit_back : (d : ℕ) → (d + b'0') - b'0' ≡ d
digit_back d = omega arith

parse_from-digit :
    (k d : ℕ) (tail : List ℕ)
    → d < 10
    → k * 10 + d < 2 ^ 64
    → parse_from k ((d + b'0') ∷ tail) ≡ parse_from (k * 10 + d) tail
unfolding parse_from is_digit
parse_from-digit k d tail small fits = rw (digit_back d) (ground arith)

parse_from-digits_from :
    (fuel n : ℕ) (tail : List ℕ)
    → n ≤ fuel
    → n < 2 ^ 64
    → parse_from 0 (digits_from fuel n tail) ≡ parse_from n tail
unfolding digits_from
parse_from-digits_from zero n tail le fits =
    parse_from-digit 0 n tail (omega arith) (omega arith)
    ∙ ap (λ q. parse_from q tail) (omega arith)
parse_from-digits_from (suc fuel) n tail le fits = elim (Bool-cases (ltb n 10)) [
  | inl few ↦ rw few (
      parse_from-digit 0 n tail (ground arith) (omega arith)
      ∙ ap (λ q. parse_from q tail) (omega arith))
  | inr many ↦ rw many (
      parse_from-digits_from fuel (n / 10) ((n % 10 + b'0') ∷ tail) (ground arith) (omega arith)
      ∙ parse_from-digit (n / 10) (n % 10) tail (omega arith) (omega arith)
      ∙ ap (λ q. parse_from q tail) (omega arith))
]

-- A text of digits is not empty, and has no separator.
unfoldable pub IsDigits : List ℕ → Type 0
IsDigits s = All (λ c. (c == b':') ≡ false) s

digits_from-IsDigits :
    (fuel n : ℕ) (tail : List ℕ) → n ≤ fuel → IsDigits tail → IsDigits (digits_from fuel n tail)
unfolding digits_from IsDigits
digits_from-IsDigits zero n tail le t = (ground arith, t)
digits_from-IsDigits (suc fuel) n tail le t = elim (Bool-cases (ltb n 10)) [
  | inl few ↦ rw few (ground arith, t)
  | inr many ↦
      rw many (
        digits_from-IsDigits fuel (n / 10) ((n % 10 + b'0') ∷ tail) (ground arith)
          (ground arith, t))
]

digits_from-cons :
    (fuel n : ℕ) (tail : List ℕ)
    → parse_uint (digits_from fuel n tail) ≡ parse_from 0 (digits_from fuel n tail)
unfolding digits_from parse_uint
digits_from-cons zero n tail = refl
digits_from-cons (suc fuel) n tail = elim (Bool-cases (ltb n 10)) [
  | inl few ↦ rw few refl
  | inr many ↦ rw many (digits_from-cons fuel (n / 10) ((n % 10 + b'0') ∷ tail))
]

-- For every number below 2^64, the digits that are written for it are read back as that number.
pub parse_uint-digits : (n : ℕ) → n < 2 ^ 64 → parse_uint (digits n) ≡ parsed n
unfolding digits parse_from
parse_uint-digits n fits =
    digits_from-cons n n [] ∙ parse_from-digits_from n n [] (omega arith) fits

split-plain : (s : List ℕ) → IsDigits s → split b':' s ≡ s ∷ []
unfolding split push_head IsDigits
split-plain [] a = refl
split-plain (c ∷ s) (n, a) = rw (split-plain s a, n) refl

split-cut : (s t : List ℕ) → IsDigits s → IsDigits t → split b':' (s ++ b':' ∷ t) ≡ s ∷ t ∷ []
unfolding split push_head IsDigits
split-cut [] t a b = rw (split-plain t b) refl
split-cut (c ∷ s) t (n, a) b = rw (split-cut s t a b, n) refl

-- An epoch is hexadecimal: it has no colon.
unfoldable pub IsEpoch : List ℕ → Type 0
IsEpoch epoch = IsDigits epoch

pub split-cursor_of :
    (epoch : List ℕ) (n : ℕ)
    → IsEpoch epoch
    → split b':' (cursor_of epoch n) ≡ epoch ∷ digits n ∷ []
unfolding cursor_of digits IsEpoch IsDigits
split-cursor_of epoch n plain =
    split-cut epoch (digits_from n n []) plain (digits_from-IsDigits n n [] (omega arith) tt)

pub same_refl : (s : List ℕ) → same s s ≡ true
same_refl [] = refl
same_refl (c ∷ s) = rw ((==_iff c c).1 refl, same_refl s) refl

pub cursor_of-not-empty : (epoch : List ℕ) (n : ℕ) → same (cursor_of epoch n) [] ≡ false
unfolding cursor_of
cursor_of-not-empty [] n = refl
cursor_of-not-empty (c ∷ s) n = refl
