-- ===== src/Inbox/Tests.antt =====
-- A phone arms the receiver, two senders play, and the phone stands by or leaves.
use zombiebox_gateway_core.Base.{
  ◌≡◌, ◌≢◌, refl, ◌⊎◌, String, true, false, none, some, List, [], ◌∷◌, arith,
}
use zombiebox_gateway_core.Domain.{Source}
use zombiebox_gateway_core.Inbox.Selection.{
  Selection, no_selection, Reply, Values, survey, surveyed, takeover, candidate_of, settle, choose,
}
use zombiebox_gateway_core.Inbox.Service.{Inbox, Plan, new, claim, expire, stand_by}
use zombiebox_gateway_core.Inbox.Snapshot.{
  Poll, go_on, replies, at_time, plan_starts, is_current, begin, act,
}
use zombiebox_gateway_core.Inbox.Interleave.{
  fresh, Event, claims, releases, begins, enters, goes, after,
}
use zombiebox_gateway_core.Inbox.Sessions.Always.{NoLeak, after-NoLeak}
use zombiebox_gateway_core.Inbox.Choice.{Handoff, choose-Handoff}
use zombiebox_gateway_core.Inbox.Choice.Uncertain.{Kept, act-Kept, known_sender}
use zombiebox_gateway_core.Inbox.Choice.Suppressed.{choose-stand_by_unpolled}
use zombiebox_gateway_core.Inbox.Fence.{Fenced, by_claim, interrupt, interrupts, interrupt-Fenced}
use zombiebox_gateway_core.Inbox.Lease.{Held, begin-Held}

abbrev digest : Source → String
digest s = s.url

abbrev song : String → String → Source
song provider id = record {
  item = record { id = id; provider = provider; kind = "AUDIO" };
  url = id;
  audio_url = "";
  path = "";
  mime = "audio/flac";
  live = true;
  raw_pcm = false;
  pcm_format = "";
  variants = [];
  subtitles = [];
}

abbrev plays : String → Reply
plays provider = record {
  source = some (song provider "track");
  status = record { provider = provider; state = "PLAYING" };
  err = none;
  late = none;
}

abbrev breaks : String → Reply
breaks provider = record {
  source = none;
  status = record { provider = provider; state = "" };
  err = some "unreachable";
  late = none;
}

abbrev plan : Plan
plan = record { session = "s1"; item = (song "spotify" "track").item }

-- The session starts while the phone releases the receiver, and a second one is refused the slot.
abbrev evening : List Event
evening =
    claims 0 0 "phone" "universal"
    ∷ begins 10 10 "phone"
    ∷ begins 11 11 "phone"
    ∷ enters 0
    ∷ enters 0
    ∷ goes go_on
    ∷ goes (replies plays)
    ∷ goes (at_time 20 none)
    ∷ goes (plan_starts plan)
    ∷ releases "phone"
    ∷ goes (at_time 30 none)
    ∷ goes go_on
    ∷ []

after-NoLeak_example : NoLeak (after digest fresh evening)
after-NoLeak_example = after-NoLeak digest evening

abbrev both : Values
both =
    (
      "spotify",
      record {
        source = none;
        status = record { provider = "spotify"; state = "" };
        err = some "down";
      },
    )
    ∷ (
      "airplay",
      record {
        source = some (song "airplay" "film");
        status = record { provider = "airplay"; state = "PLAYING" };
        err = none;
      },
    )
    ∷ []

-- AirPlay was pending from the poll before.
abbrev waiting : Selection
waiting = record {
  current = "spotify";
  pending = "airplay";
  playing = some (("airplay", true) ∷ ("spotify", true) ∷ []);
  blocked = some [];
}

choose-Handoff_example :
    ((choose both waiting).1 ≡ "spotify") ⊎ Handoff both waiting (choose both waiting).1
choose-Handoff_example = choose-Handoff both waiting

handed_over : (choose both waiting).1 ≡ "airplay"
unfolding choose surveyed survey candidate_of settle takeover
handed_over = refl

abbrev broken : Values
broken =
    (
      "spotify",
      record { source = none; status = record { provider = ""; state = "" }; err = some "down" },
    )
    ∷ (
      "airplay",
      record { source = none; status = record { provider = ""; state = "" }; err = some "late" },
    )
    ∷ []

abbrev armed : Inbox
armed = record new {
  owner = "phone";
  provider = "auto";
  selection = waiting;
  expires = 100000;
  generation = 1;
  plan = some plan;
}

abbrev poll : Poll
poll = record { owner = "phone"; provider = "auto"; generation = 1 }

act-Kept_example : Kept armed (act digest poll none broken armed)
unfolding known_sender
act-Kept_example = act-Kept digest poll none broken armed refl refl refl refl

abbrev unpolled : Inbox
unpolled = record new { owner = "phone"; provider = "universal"; expires = 100000 }

choose-stand_by_unpolled_example :
    choose both (stand_by unpolled).selection ≡ choose both no_selection
choose-stand_by_unpolled_example = choose-stand_by_unpolled both unpolled refl

interrupt-Fenced_example :
    Fenced digest 30 poll (interrupt (by_claim 20 20 "phone" "spotify") armed)
unfolding is_current interrupts claim expire
interrupt-Fenced_example =
    interrupt-Fenced digest 30 (by_claim 20 20 "phone" "spotify") poll armed refl refl

phone-other : ◌≢◌ {A = String} "phone" "tablet"
phone-other e = cc

begin-Held_example : Held 50 "tablet" "spotify" (begin 50 50 "phone" armed).0
begin-Held_example =
    begin-Held 50 50 "phone" "tablet" "spotify" armed (omega arith) refl (λ e. cc) phone-other
