-- ===== src/Ranges/Tests.antt =====
-- A client asks for a small file from its second byte on; the first answer breaks off.
use zombiebox_gateway_core.Base.{
  ◌≡◌, refl, ℕ, ◌+◌, ◌^◌, ◌≤◌, true, false, none, some, List, [], ◌∷◌,
}
use zombiebox_gateway_core.Base.Text.{codes}
use zombiebox_gateway_core.Ranges.{
  open_range_start, content_range, checked_range, parse_content_range, Answer, unavailable, partial,
  Outcome, running, ended, relay_from, retry, delivered, accepted, received, answered, round, run,
  rounds,
}
use zombiebox_gateway_core.Ranges.Exact.{Exact, run-Exact}
use zombiebox_gateway_core.Ranges.Rounds.{rounds-le}

asked : open_range_start (codes "bytes=1-") ≡ some 1
unfolding open_range_start
asked = refl

abbrev answers : List Answer
answers =
    unavailable true
    ∷ partial (codes "bytes 1-4/5") (20 ∷ 30 ∷ []) none true
    ∷ partial (codes "bytes 3-4/5") (40 ∷ 50 ∷ []) none true
    ∷ []

abbrev body_of : Outcome → List ℕ
body_of (running r) = r.body
body_of (ended r began ok) = r.body

relayed : body_of (run false true answers (running (relay_from 1))) ≡ 20 ∷ 30 ∷ 40 ∷ 50 ∷ []
unfolding run round answered retry received accepted delivered parse_content_range checked_range
    content_range
relayed = refl

run-Exact_example : Exact false (run false true answers (running (relay_from 1)))
run-Exact_example = run-Exact false true 1 answers

rounds-le_example : rounds false true answers (running (relay_from 1)) ≤ 2 ^ 35 + 13
rounds-le_example = rounds-le false true 1 answers
