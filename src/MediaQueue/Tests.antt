-- ===== src/MediaQueue/Tests.antt =====
-- One phone with a list of two, worked off under a race of a completion, a cancel and a timeout.
use zombiebox_gateway_core.Base.{◌≡◌, refl, String, true, false, Option, some, List, [], ◌∷◌}
use zombiebox_gateway_core.MediaQueue.Items.{Item, Url, validate, item_ok}
use zombiebox_gateway_core.MediaQueue.Worker.{
  active, work, work_at, playing, draw, start_returns, picks_next, go_on,
}
use zombiebox_gateway_core.MediaQueue.Service.{empty, start, state, complete, complete_run}
use zombiebox_gateway_core.MediaQueue.Interleave.{
  Event, starts, completes, cancels, works, expires, happen, after, ServiceInv, after-ServiceInv,
}
use zombiebox_gateway_core.MediaQueue.Interleave.Once.{complete-once}

abbrev parse : String → Option Url
parse url = some (record { scheme = "https"; hostname = "host"; has_user = false; fragment = "" })

abbrev songs : List Item
songs =
    record { url = "https://host/a"; title = "First" }
    ∷ record { url = "https://host/b"; title = "Second" }
    ∷ []

abbrev evening : List Event
evening =
    starts "phone" "q1" songs
    ∷ works 0 (draw "m1")
    ∷ works 0 (start_returns true)
    ∷ completes "phone" "m1" true
    ∷ works 0 picks_next
    ∷ works 0 go_on
    ∷ works 0 (draw "m2")
    ∷ expires 0
    ∷ works 0 (start_returns true)
    ∷ works 0 go_on
    ∷ works 0 go_on
    ∷ starts "phone" "q2" songs
    ∷ cancels "phone"
    ∷ []

after-ServiceInv_example : ServiceInv (after parse empty evening)
after-ServiceInv_example = after-ServiceInv parse evening

abbrev before : List Event
before = starts "phone" "q1" songs ∷ works 0 (draw "m1") ∷ works 0 (start_returns true) ∷ []

abbrev later : List Event
later = works 0 picks_next ∷ works 0 go_on ∷ works 0 (draw "m2") ∷ works 0 (start_returns true) ∷ []

-- The goroutine has gone on to the second song.
second_song :
    state "phone" (after parse (complete "phone" "m1" true (after parse empty before)) later)
    ≡ record { id = "q1"; phase = playing; index = 1; count = 2; title = "Second" }
unfolding after happen start validate item_ok active complete complete_run work work_at state
second_song = refl

complete-once_example :
    complete "phone" "m1" true
      (after parse (complete "phone" "m1" true (after parse empty before)) later)
    ≡ after parse (complete "phone" "m1" true (after parse empty before)) later
complete-once_example =
    complete-once parse "phone" "m1" true true before later refl (tt, (tt, (refl, (tt, tt))))
