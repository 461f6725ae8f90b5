-- ===== src/Playback/Adaptation/Laws.antt =====
-- adaptation.go and bandwidth.go: series of samples, and two goodputs of one source.
use zombiebox_gateway_core.Base.{
  ℕ, suc, ◌+◌, ◌*◌, ◌^◌, ◌≤◌, ◌<◌, ◌≡◌, inl, inr, String, true, false, ◌&&◌, Option, List, [], ◌∷◌,
  length, arith, ltb, leb, ◌==◌, str_eq, if◌then◌else◌, Bool-cases,
}
use zombiebox_gateway_core.Domain.{Metadata}
use zombiebox_gateway_core.Playback.Cast.{budget_of}
use zombiebox_gateway_core.Playback.Adaptation.{
  minute, Adaptation, rank, count_match, observe, has_video, bitrate_of, quality_for,
  network_quality,
}

-- The sample and the session that make `Observe` answer true.
pub record Agreed (a : Adaptation) (measured now : ℕ) (candidate current : String) : Type 0 where
  pub same_candidate : str_eq a.candidate candidate ≡ true
  pub earlier_match : 0 < a.matches
  pub newer : a.measured < measured
  pub close : measured ≤ a.measured + 3 * minute
  pub fresh : now ≤ measured + 5 * minute
  pub lower : rank current < rank candidate

-- For every state and sample: if an observation asks for a downgrade, the state held an earlier
-- match of the same candidate, at most three minutes older than the sample, the sample is newer
-- and at most five minutes old, the candidate ranks below the current quality, and the matches
-- start from 0 again.
pub observe-Agreed :
    (a : Adaptation) (measured now : ℕ) (candidate current : String)
    → (observe a measured now candidate current).1 ≡ true
    → Agreed a measured now candidate current
      × ((observe a measured now candidate current).0.matches ≡ 0)
unfolding observe count_match
observe-Agreed a measured now candidate current h = (
  record {
    same_candidate = ground arith;
    earlier_match = ground arith;
    newer = ground arith;
    close = ground arith;
    fresh = ground arith;
    lower = ground arith;
  },
  ground arith,
)

-- A sample: when it was measured, the time of the call, its candidate and the current quality.
pub record Sample : Type 0 where
  pub measured : ℕ
  pub now : ℕ
  pub candidate : String
  pub current : String

-- The observations of a session in order, and how often they ask for a downgrade.
unfoldable pub downgrades : Adaptation → List Sample → ℕ
downgrades a [] = 0
downgrades a (s ∷ ss) =
    let (b, fired) = observe a s.measured s.now s.candidate s.current in
    let rest = downgrades b ss in if fired then suc rest else rest

observe-matches :
    (a : Adaptation) (measured now : ℕ) (candidate current : String)
    → a.matches ≤ 1
    → let (b, fired) = observe a measured now candidate current in
      (b.matches ≤ 1) × (b.matches + (if fired then 2 else 0) ≤ a.matches + 1)
unfolding observe count_match
observe-matches a measured now candidate current h = (ground arith, ground arith)

-- For every series of samples and every state with at most one match, such as the first: twice
-- the number of downgrades is at most the number of samples and the match that was there before.
pub downgrades-le :
    (a : Adaptation) (ss : List Sample)
    → a.matches ≤ 1
    → downgrades a ss * 2 ≤ length ss + a.matches
unfolding downgrades
downgrades-le a [] h = omega arith
downgrades-le a (s ∷ ss) h =
    let (small, cost) = observe-matches a s.measured s.now s.candidate s.current h in
    ground
      (arith, cost, downgrades-le (observe a s.measured s.now s.candidate s.current).0 ss small)

-- The rank that each branch of `quality_for` has.
abbrev rank_for : ℕ → ℕ → ℕ
rank_for bitrate budget =
    if ltb 0 bitrate && leb bitrate budget
    then 0
    else if ltb budget 1500000
    then 2
    else if ltb budget bitrate
    then 1
    else 0

rank-quality_for :
    (bitrate budget : ℕ) → rank (quality_for bitrate budget) ≡ rank_for bitrate budget
unfolding quality_for rank
rank-quality_for bitrate budget = elim (Bool-cases (ltb 0 bitrate && leb bitrate budget)) [
  | inl a ↦ rw a
  | inr a ↦ elim (Bool-cases (ltb budget 1500000)) [
    | inl b ↦ rw (a, b)
    | inr b ↦ elim (Bool-cases (ltb budget bitrate)) [ inl c ↦ rw (a, b, c) | inr c ↦ rw (a, b, c) ]
  ]
]

quality_for_mono :
    (bitrate less more : ℕ)
    → less ≤ more
    → rank (quality_for bitrate more) ≤ rank (quality_for bitrate less)
quality_for_mono bitrate less more h =
    rw (rank-quality_for bitrate more, rank-quality_for bitrate less) (ground arith)

budget_of_mono : (k l : ℕ) → k ≤ l → l * 700 < 2 ^ 63 → budget_of k ≤ budget_of l
unfolding budget_of
budget_of_mono k l h b = ground arith

measured_positive : (k : ℕ) → 0 < k → (k == 0) ≡ false
measured_positive k h = ground arith

-- For every metadata and two measured goodputs whose 70% fits int64, the larger goodput never asks
-- for a lower quality (no cap, STANDARD, LOW) than the smaller.
pub network_quality_mono :
    (m : Option Metadata) (k l : ℕ)
    → 0 < k
    → k ≤ l
    → l * 700 < 2 ^ 63
    → rank (network_quality m l) ≤ rank (network_quality m k)
unfolding network_quality
network_quality_mono m k l pos le fits = elim (Bool-cases (has_video m)) [
  | inr v ↦ rw (measured_positive k pos, measured_positive l (omega arith), v) (omega arith)
  | inl v ↦
      rw (measured_positive k pos, measured_positive l (omega arith), v)
        (quality_for_mono (bitrate_of m) (budget_of k) (budget_of l) (budget_of_mono k l le fits))
]
