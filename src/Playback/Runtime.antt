-- ===== src/Playback/Runtime.antt =====
-- What the playback policy takes from Go's runtime and does not compute by itself: 64-bit floats,
-- by their bits, the parser of URLs, and the digest of a JSON text.
use zombiebox_gateway_core.Base.{ℕ, String, Bool, List, Option}
use zombiebox_gateway_core.Domain.{Platform}

pub record Runtime : Type 0 where
  -- `strconv.ParseFloat(s, 64)`, and nothing on an error.
  pub parse_float : List ℕ → Option ℕ
  -- `x > 0`
  pub is_positive : ℕ → Bool
  -- `x / y <= 30`
  pub at_most_30 : ℕ → ℕ → Bool
  -- The path of `url.Parse(s)`, and nothing on an error.
  pub url_path : String → Option (List ℕ)
  -- The hexadecimal SHA-256 of the JSON text of a platform, an application version, a hardware
  -- fingerprint and a probe suite.
  pub probe_digest : Platform → String → String → ℕ → String
