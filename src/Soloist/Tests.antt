-- ===== src/Soloist/Tests.antt =====
-- A receiver logs in, plays a track, is told to pause, and logs out.
use zombiebox_gateway_core.Base.{
  ◌≡◌, refl, ℕ, ◌*◌, true, false, none, some, List, [], ◌∷◌, leb, ltb,
}
use zombiebox_gateway_core.Soloist.Model.{
  Floats, State, playing, paused, new, Track, Position, auth_state, playback_state,
  playback_changed, command_result,
}
use zombiebox_gateway_core.Soloist.Reducer.{no_metadata, apply}
use zombiebox_gateway_core.Soloist.Refusals.{Checked, apply-Checked}
use zombiebox_gateway_core.Soloist.Steps.{Step, begins, applies, awaits_result, after, happen}
use zombiebox_gateway_core.Soloist.Waits.{Answered}
use zombiebox_gateway_core.Soloist.Waits.Once.{after-Answered}
use zombiebox_gateway_core.Soloist.Login.{Safe}
use zombiebox_gateway_core.Soloist.Login.Always.{after-Safe}

-- Whole speeds.
abbrev whole_speeds : Floats
whole_speeds = record {
  Float = ℕ;
  zero_speed = 0;
  one_speed = 1;
  positive = λ v. ltb 0 v;
  at_least = λ age v r. leb r (age * v);
  whole = λ age v. age * v;
}

abbrev song : Track
song = record {
  metadata = record no_metadata { title = "Song"; duration = 200000 };
  identity = "song";
  has_title = true;
  has_artist = false;
  has_album = false;
  has_duration = true;
  has_explicit = false;
  cover_present = true;
  cover = some (record {
    url = "https://i.scdn.co/image/a";
    size = "large";
    session = 0;
    track_revision = 0;
  });
}

abbrev start_at : Position whole_speeds
start_at = record { position_ms = 1000; timestamp = 5; speed = 1 }

abbrev evening : List (Step whole_speeds)
evening =
    begins
    ∷ applies 1 10 (auth_state true true)
    ∷ applies 1 20 (playback_state none none playing (some song) (some start_at))
    ∷ awaits_result 1 "pause" 0
    ∷ applies 1 30 (command_result "pause")
    ∷ applies 1 40 (playback_changed paused)
    ∷ awaits_result 1 "play" 0
    ∷ applies 1 50 (auth_state false false)
    ∷ []

after-Answered_example : Answered (after (new whole_speeds) evening)
after-Answered_example = after-Answered whole_speeds evening

after-Safe_example : Safe (after (new whole_speeds) evening)
after-Safe_example = after-Safe whole_speeds evening

two_answers : (after (new whole_speeds) evening).waits ≡ 2
unfolding after happen new
two_answers = refl

abbrev logged_in : State whole_speeds
logged_in = after (new whole_speeds) (begins ∷ applies 1 10 (auth_state true true) ∷ [])

apply-Checked_example :
    Checked 1
      (playback_state none none playing (some song) (some start_at))
      logged_in
      (apply 1 20 (playback_state none none playing (some song) (some start_at)) logged_in)
apply-Checked_example =
    apply-Checked 1 20 (playback_state none none playing (some song) (some start_at)) logged_in
