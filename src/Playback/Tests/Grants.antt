-- ===== src/Playback/Tests/Grants.antt =====
-- What a phone is granted on the television.
use zombiebox_gateway_core.Base.{◌≡◌, refl, none}
use zombiebox_gateway_core.Playback.Cast.{
  cast_video, cast_profile_for_sender, cap_cast_profile_for_network, cap_to, tier_fits, budget_of,
}
use zombiebox_gateway_core.Playback.Cast.Laws.{CapSound, cap_cast_profile_for_network-CapSound}
use zombiebox_gateway_core.Playback.Cast.Sender.{SenderSound, cast_profile_for_sender-SenderSound}
use zombiebox_gateway_core.Playback.Tests.Fixtures.{now, television}

capped :
    cap_cast_profile_for_network (cast_video "h264" 1920 1080 30 4000000) 3000
    ≡ (cast_video "h264" 1280 720 30 2000000, none)
unfolding cap_cast_profile_for_network cap_to tier_fits budget_of
capped = refl

cap_cast_profile_for_network-CapSound_example :
    CapSound
      (cast_video "h264" 1920 1080 30 4000000)
      3000
      (cap_cast_profile_for_network (cast_video "h264" 1920 1080 30 4000000) 3000)
cap_cast_profile_for_network-CapSound_example =
    cap_cast_profile_for_network-CapSound (cast_video "h264" 1920 1080 30 4000000) 3000

cast_profile_for_sender-SenderSound_example :
    SenderSound television 1080 now (cast_profile_for_sender television 1080 now)
cast_profile_for_sender-SenderSound_example =
    cast_profile_for_sender-SenderSound television 1080 now
