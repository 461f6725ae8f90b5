-- ===== src/Playback/Probe.antt =====
-- gateway/internal/playback/probe.go: the latest credible result of a device probe.
-- `now` is the Unix time in seconds, a parameter of each function.
pub mod Laws
pub mod Order
use zombiebox_gateway_core.Base.{
  ℕ, ◌+◌, String, Bool, true, false, not, ◌&&◌, ◌||◌, Option, none, some, List, [], ◌∷◌, ltb, leb,
  ◌==◌, if◌then◌else◌, str_eq,
}
use zombiebox_gateway_core.Domain.{Probe, Capabilities}

-- 7 * 24 * 60 * 60
abbrev pub week : ℕ
week = 604800

-- Go's `p.TestedAt > now+300`.
abbrev pub is_future : ℕ → Probe → Bool
is_future now p = ltb (now + 300) p.tested_at

-- One round of the loop: `latest` before, and after.
pub pick_probe : String → ℕ → Option Probe → Probe → Option Probe
pick_probe id now none p = if not (str_eq p.id id) then none else some p
pick_probe id now (some latest) p =
    if not (str_eq p.id id)
    then some latest
    else if is_future now p
    then some latest
    else if is_future now latest || leb latest.tested_at p.tested_at
    then some p
    else some latest

select_from : String → ℕ → Option Probe → List Probe → Option Probe
select_from id now latest [] = latest
select_from id now latest (p ∷ ps) = select_from id now (pick_probe id now latest p) ps

unfoldable pub select_latest_probe : List Probe → String → ℕ → Option Probe
unfolding select_from pick_probe
select_latest_probe probes id now = select_from id now none probes

pub data Verdict : Type 0 where
  pass fail unknown : Verdict

-- The body of `probeStatus` once the probe is chosen. `p.TestedAt <= now - week` is written with
-- the sum, as times are not negative here.
unfoldable pub verdict_of : ℕ → Option Probe → Verdict
verdict_of now none = unknown
verdict_of now (some p) =
    if p.tested_at == 0 || leb (p.tested_at + week) now || is_future now p
    then unknown
    else if str_eq p.status "PASS" && not p.stalled && (leb 500 p.position_ms || p.completed)
    then pass
    else if str_eq p.status "FAIL" || p.stalled
    then fail
    else unknown

unfoldable pub probe_status : Capabilities → String → ℕ → Verdict
probe_status caps id now = verdict_of now (select_latest_probe caps.probes id now)

-- `status(id) == "PASS"` and `status(id) == "FAIL"`.
abbrev pub passed : Verdict → Bool
passed pass = true
passed _ = false

abbrev pub failed : Verdict → Bool
failed fail = true
failed _ = false

pub probe_pass : Capabilities → String → ℕ → Bool
probe_pass caps id now = passed (probe_status caps id now)
