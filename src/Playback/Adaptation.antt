-- ===== src/Playback/Adaptation.antt =====
-- gateway/internal/playback/adaptation.go and bandwidth.go: lowering the quality of a session to
-- the measured goodput. A time is in nanoseconds from Go's zero time, which is 0.
pub mod Laws
use zombiebox_gateway_core.Base.{
  ℕ, suc, ◌+◌, ◌-◌, ◌*◌, String, Bool, true, false, not, ◌&&◌, ◌||◌, Option, none, some, List, [],
  ◌∷◌, any, ltb, leb, ◌==◌, if◌then◌else◌, str_eq,
}
use zombiebox_gateway_core.Base.Text.{codes, parse_int}
use zombiebox_gateway_core.Domain.{Metadata}
use zombiebox_gateway_core.Playback.Hls.{is_video}
use zombiebox_gateway_core.Playback.Cast.{budget_of}

abbrev pub minute : ℕ
minute = 60000000000

pub record Adaptation : Type 0 where
  pub measured : ℕ
  pub candidate : String
  pub matches : ℕ

-- The map `rank`, which gives 0 for a name that it does not hold.
unfoldable pub rank : String → ℕ
rank quality = if str_eq quality "STANDARD" then 1 else (if str_eq quality "LOW" then 2 else 0)

-- The matches so far, forgotten after a gap of three minutes.
abbrev pub recent_matches : Adaptation → ℕ → ℕ
recent_matches a measured = if ltb (3 * minute) (measured - a.measured) then 0 else a.matches

-- The end of `Observe`, for a candidate that is lower than the current quality.
unfoldable pub count_match : ℕ → String → ℕ → Adaptation × Bool
count_match measured candidate matches =
    if ltb (suc matches) 2
    then (record { measured = measured; candidate = candidate; matches = suc matches }, false)
    else (record { measured = measured; candidate = candidate; matches = 0 }, true)

unfoldable pub observe : Adaptation → ℕ → ℕ → String → String → Adaptation × Bool
observe a measured now candidate current =
    if measured == 0 || ltb (5 * minute) (now - measured) || leb measured a.measured
    then (a, false)
    else if str_eq candidate "" || leb (rank candidate) (rank current)
    then (record { measured = measured; candidate = ""; matches = 0 }, false)
    else count_match measured candidate
        (if str_eq a.candidate candidate then recent_matches a measured else 0)

abbrev has_video : Option Metadata → Bool
has_video none = false
has_video (some m) = any is_video m.streams

abbrev bitrate_of : Option Metadata → ℕ
bitrate_of none = 0
bitrate_of (some m) = (parse_int (codes m.bit_rate)).0

pub quality_for : ℕ → ℕ → String
quality_for bitrate budget =
    if ltb 0 bitrate && leb bitrate budget
    then ""
    else if ltb budget 1500000
    then "LOW"
    else if ltb budget bitrate
    then "STANDARD"
    else ""

pub network_quality : Option Metadata → ℕ → String
unfolding quality_for
network_quality m kbps =
    if kbps == 0
    then ""
    else if not (has_video m)
    then ""
    else quality_for (bitrate_of m) (budget_of kbps)
