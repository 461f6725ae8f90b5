-- ===== src/Playback/Tests/Samples.antt =====
-- Two agreeing samples of a poor network, one after the other.
use zombiebox_gateway_core.Base.{ℕ, ◌≡◌, refl, true, [], ◌∷◌}
use zombiebox_gateway_core.Playback.Adaptation.{Adaptation, rank, observe, count_match}
use zombiebox_gateway_core.Playback.Adaptation.Laws.{Agreed, Sample, downgrades, observe-Agreed}

abbrev fresh : Adaptation
fresh = record { measured = 0; candidate = ""; matches = 0 }

abbrev once : Adaptation
once = record { measured = 600000000000; candidate = "LOW"; matches = 1 }

abbrev poor : ℕ → Sample
poor at = record { measured = at; now = at; candidate = "LOW"; current = "" }

second_agrees : (observe once 660000000000 661000000000 "LOW" "STANDARD").1 ≡ true
unfolding observe count_match rank
second_agrees = refl

two_downgrade : downgrades fresh (poor 600000000000 ∷ poor 660000000000 ∷ []) ≡ 1
unfolding downgrades observe count_match rank
two_downgrade = refl

observe-Agreed_example :
    Agreed once 660000000000 661000000000 "LOW" "STANDARD"
    × ((observe once 660000000000 661000000000 "LOW" "STANDARD").0.matches ≡ 0)
observe-Agreed_example =
    observe-Agreed once 660000000000 661000000000 "LOW" "STANDARD" second_agrees
