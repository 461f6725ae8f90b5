-- ===== src/EventLog/Tests.antt =====
-- A television that polls a log of one event.
use zombiebox_gateway_core.Base.{
  ℕ, ◌+◌, ◌≡◌, refl, String, true, false, List, [], ◌∷◌, length, keep, arith,
}
use zombiebox_gateway_core.Base.Text.{codes, split, push_head}
use zombiebox_gateway_core.EventLog.{
  cursor_of, EventLog, new_events, Publication, read, read_parts, read_after,
}
use zombiebox_gateway_core.EventLog.Numbers.{IsEpoch, IsDigits}
use zombiebox_gateway_core.EventLog.Wanted.{LogInv, events_of, addressed, publish_all}
use zombiebox_gateway_core.EventLog.Reads.{read-publish_all}
use zombiebox_gateway_core.EventLog.Invariant.{Bounded}

abbrev epoch : List ℕ
epoch = codes "ab12"

abbrev log : EventLog String
log = record {
  epoch = epoch;
  sequence = 1;
  events =
      record {
        cursor = cursor_of epoch 1;
        kind = "modules.changed";
        payload = "plex";
        device_id = "";
      }
      ∷ [];
}

abbrev news : List (Publication String)
news =
    record { device = "tv"; kind = "cast.started"; payload = "one" }
    ∷ record { device = "box"; kind = "cast.ended"; payload = "two" }
    ∷ record { device = ""; kind = "modules.changed"; payload = "three" }
    ∷ []

log-LogInv : LogInv log
unfolding IsEpoch IsDigits
log-LogInv = record {
  plain = (refl, (refl, (refl, (refl, tt))));
  fits = omega arith;
  known = (record { number = 1; small = omega arith; cursor = refl }, tt);
}

log-Bounded : Bounded log
log-Bounded = record { sound = log-LogInv; few = omega arith }

fresh_read : read "tv" [] (new_events {A = String} epoch) ≡ ([], cursor_of epoch 0, false)
unfolding read
fresh_read = refl

foreign_cursor : read "tv" (codes "ab13:1") log ≡ ([], cursor_of epoch 1, true)
unfolding read read_parts read_after split push_head
foreign_cursor = refl

read-publish_all_example :
    read "tv" (cursor_of epoch 1) (publish_all news log)
    ≡ (keep (addressed "tv") (events_of epoch 1 news), cursor_of epoch (1 + length news), false)
read-publish_all_example = read-publish_all "tv" log news log-LogInv (omega arith) (omega arith)
