-- ===== src/Base/Text.antt =====
-- The parts of Go's `strings` and `strconv` that the program uses, over code points.
-- A native `String` is compared whole; `codes` gives the code points of one that is taken apart.
use Prim.Native.Nat.{ℕ, ◌+◌, ◌-◌, ◌*◌, ◌^◌}
use Prim.Native.Char.{code}
use Prim.Native.String.{String}
use mathlib.Core.Bool.{Bool, true, false, not, ◌&&◌, ◌||◌}
use mathlib.Core.List.{List, [], ◌∷◌, map, reverse}
use zombiebox_gateway_core.Base.Tests.{ltb, leb, ◌==◌, if◌then◌else◌}

abbrev pub codes : String → List ℕ
codes String.[] = []
codes (String.◌∷◌ c s) = code c ∷ codes s

-- `==` on texts.
abbrev pub same : List ℕ → List ℕ → Bool
same [] [] = true
same (x ∷ xs) (y ∷ ys) = x == y && same xs ys
same _ _ = false

-- `unicode.ToLower` as far as an ASCII name can tell: besides A to Z, the only code points with
-- an ASCII lower case are U+0130 (to i) and U+212A (to k).
pub to_lower : ℕ → ℕ
to_lower c =
    if leb b'A' c && leb c b'Z'
    then c + 32
    else (if c == 0x130 then b'i' else (if c == 0x212a then b'k' else c))

-- `strings.ToLower`
unfoldable pub lower : List ℕ → List ℕ
unfolding to_lower
lower s = map to_lower s

-- `strings.EqualFold` with an ASCII name that holds no k and no s: no other letter has a fold
-- outside ASCII.
lower_ascii : ℕ → ℕ
lower_ascii c = if leb b'A' c && leb c b'Z' then c + 32 else c

unfoldable pub equal_fold : List ℕ → List ℕ → Bool
unfolding lower_ascii
equal_fold s name = same (map lower_ascii s) (map lower_ascii name)

-- `strings.HasPrefix`
unfoldable pub has_prefix : List ℕ → List ℕ → Bool
has_prefix s [] = true
has_prefix [] (p ∷ ps) = false
has_prefix (x ∷ s) (p ∷ ps) = x == p && has_prefix s ps

-- `strings.Contains`
unfoldable pub contains : List ℕ → List ℕ → Bool
unfolding has_prefix
contains [] sub = has_prefix [] sub
contains (x ∷ s) sub = has_prefix (x ∷ s) sub || contains s sub

-- `strings.HasSuffix`
unfoldable pub has_suffix : List ℕ → List ℕ → Bool
unfolding has_prefix
has_suffix s suffix = has_prefix (reverse s) (reverse suffix)

-- `strings.Split` at a separator of one code point.
unfoldable pub push_head : ℕ → List (List ℕ) → List (List ℕ)
push_head x [] = (x ∷ []) ∷ []
push_head x (part ∷ parts) = (x ∷ part) ∷ parts

unfoldable pub split : ℕ → List ℕ → List (List ℕ)
unfolding push_head
split sep [] = [] ∷ []
split sep (x ∷ s) = let rest = split sep s in if x == sep then [] ∷ rest else push_head x rest

-- The head of `strings.SplitN(s, sep, 2)`.
unfoldable pub before : ℕ → List ℕ → List ℕ
before sep [] = []
before sep (x ∷ s) = if x == sep then [] else x ∷ before sep s

-- `unicode.IsSpace`
is_space : ℕ → Bool
is_space c =
    (leb 9 c && leb c 13)
    || c == 32
    || c == 0x85
    || c == 0xa0
    || c == 0x1680
    || (leb 0x2000 c && leb c 0x200a)
    || c == 0x2028
    || c == 0x2029
    || c == 0x202f
    || c == 0x205f
    || c == 0x3000

drop_spaces : List ℕ → List ℕ
unfolding is_space
drop_spaces [] = []
drop_spaces (x ∷ s) = if is_space x then drop_spaces s else x ∷ s

-- `strings.TrimSpace`
unfoldable pub trim_space : List ℕ → List ℕ
unfolding drop_spaces
trim_space s = reverse (drop_spaces (reverse (drop_spaces s)))

unfoldable pub is_digit : ℕ → Bool
is_digit c = leb b'0' c && leb c b'9'

pub data Parsed : Type 0 where
  parsed : ℕ → Parsed
  out_of_range bad_syntax : Parsed

-- `strconv.ParseUint(s, 10, 64)` from the value read so far: an overflow ends the reading.
unfoldable pub parse_from : ℕ → List ℕ → Parsed
unfolding is_digit
parse_from n [] = parsed n
parse_from n (c ∷ s) =
    let next = n * 10 + (c - b'0') in
    let rest = parse_from next s in
    if not (is_digit c) then bad_syntax else (if ltb next (2 ^ 64) then rest else out_of_range)

-- `strconv.ParseUint(s, 10, 64)`
unfoldable pub parse_uint : List ℕ → Parsed
unfolding parse_from
parse_uint [] = bad_syntax
parse_uint (c ∷ s) = parse_from 0 (c ∷ s)

abbrev clamp_positive : Parsed → ℕ × Bool
clamp_positive (parsed n) = if ltb n (2 ^ 63) then (n, true) else (2 ^ 63 - 1, false)
clamp_positive out_of_range = (2 ^ 63 - 1, false)
clamp_positive bad_syntax = (0, false)

abbrev clamp_negative : Parsed → ℕ × Bool
clamp_negative (parsed n) = (0, leb n (2 ^ 63))
clamp_negative _ = (0, false)

-- `strconv.ParseInt(s, 10, 64)`: the value and whether there was no error. A negative value is
-- given as 0, as every caller asks whether it is positive.
unfoldable pub parse_int : List ℕ → ℕ × Bool
unfolding parse_uint
parse_int [] = (0, false)
parse_int (c ∷ s) =
    if c == b'-'
    then clamp_negative (parse_uint s)
    else (if c == b'+' then clamp_positive (parse_uint s) else clamp_positive (parse_uint (c ∷ s)))

-- `len` of a text in UTF-8.
byte_length_of : ℕ → ℕ
byte_length_of c =
    if ltb c 0x80 then 1 else (if ltb c 0x800 then 2 else (if ltb c 0x10000 then 3 else 4))

unfoldable pub byte_length : List ℕ → ℕ
unfolding byte_length_of
byte_length [] = 0
byte_length (c ∷ s) = byte_length_of c + byte_length s
