-- ===== src/Companion/Tests.antt =====
-- A phone joins by the code and by the secret, is accepted, and steers the television.
use zombiebox_gateway_core.Base.{◌≡◌, refl, String, true, false, none, List, [], ◌∷◌, All}
use zombiebox_gateway_core.Base.Text.{codes}
use zombiebox_gateway_core.Companion.Model.{Invitation, Request, Grant, Store, Service, Io, new}
use zombiebox_gateway_core.Companion.Remote.{Order, send, poll}
use zombiebox_gateway_core.Companion.Remote.Traffic.{
  start, Event, sends, polls, acknowledges, revokes, asks, happen, after,
}
use zombiebox_gateway_core.Companion.Remote.Delivery.{Account, after-Account}
use zombiebox_gateway_core.Companion.Remote.Bounds.{Bounded}
use zombiebox_gateway_core.Companion.Remote.Limits.{after-Bounded}
use zombiebox_gateway_core.Companion.Remote.Authorized.{Authorized, poll-Authorized}
use zombiebox_gateway_core.Companion.Onboarding.{Join}
use zombiebox_gateway_core.Companion.Joining.{JoinDraws}
use zombiebox_gateway_core.Companion.Decide.{decide}
use zombiebox_gateway_core.Companion.Verdict.{VerdictSound, decide-Accepted, Closed, decide-decide}

abbrev io : Io
io = record { lists = λ b. true; gets = λ b id. true; puts = true; deletes = λ id. true }

abbrev digest : String → String
digest s = s

abbrev phone : String
phone = "0123456789abcdef0123456789abcdef"

abbrev grant : Grant
grant = record {
  id = phone;
  target_id = "television";
  target_name = codes "TV";
  name = codes "Phone";
  token_hash = "t";
  created = 0;
}

abbrev request : Request
request = record {
  id = phone;
  target_id = "television";
  name = codes "Phone";
  comparison = "123456";
  state = "PENDING";
  expires = 120000;
  token_hash = "t";
  client_hash = "";
  origin_hash = "o";
}

abbrev invitation : Invitation
invitation = record {
  id = phone;
  target_id = "television";
  target_name = codes "TV";
  secret = "0123456789abcdef0123456789abcdef0123456789abcdef0123456789abcdef";
  code = "123456";
  expires = 300000;
  used = false;
  auto_approve = true;
}

abbrev store : Store
store = record {
  invitations = (phone, invitation) ∷ [];
  requests = (phone, request) ∷ [];
  grants = (phone, grant) ∷ [];
  blocks = [];
  devices = [];
}

abbrev up : Order
up = record {
  grant_id = phone;
  grant_target = "television";
  action = "UP";
  provider = "";
  text = [];
  input_id = "";
}

abbrev evening : List Event
evening =
    polls io 0 "television" true none
    ∷ sends io 100 "c1" up
    ∷ sends io 200 "c2" up
    ∷ polls io 300 "television" true none
    ∷ acknowledges 400 "television" "c1" "EXECUTED"
    ∷ polls io 500 "television" true none
    ∷ revokes io "television" phone
    ∷ asks 900
    ∷ []

after-Account_example : Account "c1" (after (start store) evening)
after-Account_example = after-Account "c1" store evening

handed_out : (after (start store) evening).out ≡ "c1" ∷ "c2" ∷ []
unfolding after happen
handed_out = refl

after-Bounded_example : Bounded (after (start store) evening).service
after-Bounded_example = after-Bounded store evening

abbrev waiting : Service
waiting = (send io 100 "c1" up (poll io 0 "television" true none (new store)).0).0

poll-Authorized_example :
    ((poll io 300 "television" true none waiting).0.store ≡ waiting.store)
    × All
        (Authorized io 300 true "television" waiting.store)
        (poll io 300 "television" true none waiting).1
poll-Authorized_example = poll-Authorized io 300 "television" true none waiting

abbrev draws : JoinDraws
draws = record { token = "token"; id = "joined"; comparison = "654321" }

abbrev by_secret : Join
by_secret = record {
  target_id = "";
  client_key = "";
  invitation_id = phone;
  secret = invitation.secret;
  code = "";
  name = codes "Phone";
}

decide-Accepted_example :
    VerdictSound 1000 "television" phone true
      (new store)
      (decide digest io 1000 "television" (codes "TV") phone true false (new store)).0
decide-Accepted_example =
    decide-Accepted digest io 1000 "television" (codes "TV") phone request true false (new store)
      refl refl

decide-decide_example :
    Closed digest (decide digest io 1000 "television" (codes "TV") phone true false (new store)).0 (
      decide digest io 2000 "television"
        (codes "TV")
        phone
        false
        true
        (decide digest io 1000 "television" (codes "TV") phone true false (new store)).0)
unfolding decide
decide-decide_example =
    decide-decide digest io 1000 "television" (codes "TV") phone request true false (new store) refl
      refl refl io 2000 "television" (codes "TV") false true
