-- ===== src/Airplay/Tests.antt =====
-- A receiver prints the progress of a song, in pieces, while the track changes.
use zombiebox_gateway_core.Base.{
  ◌≡◌, refl, ℕ, true, false, some, List, [], ◌∷◌, ◌++◌, arith, All, str_eq,
}
use zombiebox_gateway_core.Base.Text.{codes, byte_length}
use zombiebox_gateway_core.Airplay.{
  Progress, new, parse_airplay_progress, write, write_byte, finish_line, set_sample, is_line_end,
  has_partial_line, usable_revision, observe_track, clock_of, snapshot, Event, writes, observes,
  happen, after,
}
use zombiebox_gateway_core.Airplay.Fence.{observe_track-Fence}
use zombiebox_gateway_core.Airplay.Sound.{Sound, Shown, after-Sound}
use zombiebox_gateway_core.Airplay.Printed.{printed, parse_airplay_progress-printed}

abbrev song_line : List ℕ
song_line = codes "audio progress (min:sec): 1:05; remaining: 2:10; track length 3:15"

printed_times : parse_airplay_progress song_line ≡ some (65000, 195000)
unfolding parse_airplay_progress
printed_times = refl

abbrev one : Progress
one = write 100 (codes "audio progress (min:sec): 0:0") (observe_track "first" new)

started : has_partial_line one ≡ true
unfolding write write_byte observe_track byte_length
started = refl

changed : str_eq (usable_revision "second") one.track_revision ≡ false
unfolding write write_byte observe_track byte_length
changed = refl

abbrev rest_of_line : List ℕ
rest_of_line = codes "1; remaining: 3:14; track length 3:15"

inside : All (λ c. is_line_end c ≡ false) rest_of_line
inside = search

observe_track-Fence_example :
    write 200 (rest_of_line ++ 10 ∷ song_line) (observe_track "second" one)
    ≡ write 200 song_line (observe_track "second" new)
observe_track-Fence_example =
    observe_track-Fence one "second" 200 10 rest_of_line song_line started changed inside refl

abbrev evening : List Event
evening =
    observes "first"
    ∷ writes 100 (song_line ++ 10 ∷ codes "audio")
    ∷ observes "second"
    ∷ writes 200 (codes " progress" ++ 13 ∷ song_line ++ 13 ∷ [])
    ∷ []

after-Sound_example : Sound (after new evening) × Shown (snapshot 1000 (after new evening))
after-Sound_example = after-Sound evening 1000

shown_again :
    snapshot 1000 (after new evening)
    ≡ some (record { position_ms = 65000; duration_ms = 195000; age_ms = 800 })
unfolding snapshot clock_of after happen observe_track write write_byte finish_line
    parse_airplay_progress set_sample byte_length
shown_again = refl

-- 24 hours of a track.
parse_airplay_progress-printed_example :
    parse_airplay_progress (printed 3599 86400) ≡ some (3599000, 86400000)
parse_airplay_progress-printed_example =
    parse_airplay_progress-printed 3599 86400 (omega arith) (omega arith) (omega arith)
