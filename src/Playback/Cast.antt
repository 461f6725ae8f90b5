-- ===== src/Playback/Cast.antt =====
-- gateway/internal/playback/cast_profile.go: the encoder limits granted to a casting phone.
-- A negative size or goodput stands for 0, which the code treats alike.
pub mod Laws
pub mod Sender
use zombiebox_gateway_core.Base.{
  ℕ, ◌*◌, ◌%◌, ◌^◌, min, String, Bool, true, false, not, ◌&&◌, ◌||◌, Option, none, some, List, [],
  ◌∷◌, any, ltb, leb, ◌==◌, if◌then◌else◌, str_eq,
}
use zombiebox_gateway_core.Domain.{Probe, Device}
use zombiebox_gateway_core.Playback.Probe.{probe_status, passed}
use zombiebox_gateway_core.Playback.Qualities.Tiers.{max_supported_output_height}

pub record CastVideo : Type 0 where
  pub codec : String
  pub max_width : ℕ
  pub max_height : ℕ
  pub fps : ℕ
  pub bitrate : ℕ

pub data CastError : Type 0 where
  transport_unsupported video_unsupported audio_unsupported low_goodput invalid_mode : CastError

-- A Go pair `(CastVideo, error)`.
abbrev pub Grant : Type 0
Grant = CastVideo × Option CastError

abbrev pub cast_video : String → ℕ → ℕ → ℕ → ℕ → CastVideo
cast_video codec w h fps bitrate = record {
  codec = codec;
  max_width = w;
  max_height = h;
  fps = fps;
  bitrate = bitrate;
}

-- `CastVideo{}`
abbrev pub no_video : CastVideo
no_video = cast_video "" 0 0 0 0

abbrev base_video : CastVideo
base_video = cast_video "h264" 640 360 24 800000

-- `states[id]` of the map that the loop fills: the last status of the id, or nothing.
last_status : String → String → List Probe → String
last_status id found [] = found
last_status id found (p ∷ ps) = last_status id (if str_eq p.id id then p.status else found) ps

unfoldable pub state_of : List Probe → String → String
unfolding last_status
state_of probes id = last_status id "" probes

pub cast_profile : Device → Grant
cast_profile d =
    let states = state_of d.capabilities.probes in
    let low_memory = ltb 0 d.memory_mb && leb d.memory_mb 768 in
    if str_eq (states "hls-h264-aac") "FAIL"
    then (base_video, some transport_unsupported)
    else if not low_memory
        && (str_eq (states "h264-720-main") "PASS" || str_eq (states "h264-720-high") "PASS")
    then (cast_video "h264" 1280 720 30 2000000, none)
    else if not low_memory && str_eq (states "h264-baseline-480") "PASS"
    then (cast_video "h264" 854 480 24 1200000, none)
    else if str_eq (states "h264-baseline-360") "FAIL"
    then (base_video, some video_unsupported)
    else (base_video, none)

-- The outer test of `CastProfileForSender`, and the transport of both inner tests.
pub may_be_larger : Device → ℕ → ℕ → Bool
may_be_larger d max_height now =
    (max_height == 1080 || max_height == 2160)
    && (d.memory_mb == 0 || ltb 768 d.memory_mb)
    && d.capabilities.suite_version == 2
    && not (str_eq d.capabilities.cache_key "")
    && passed (probe_status d.capabilities "hls-h264-aac" now)

pub grants_2160 : Device → ℕ → ℕ → Bool
unfolding may_be_larger
grants_2160 d max_height now =
    may_be_larger d max_height now
    && max_height == 2160
    && passed (probe_status d.capabilities "h264-2160-high" now)
    && leb 2160 (max_supported_output_height d)

pub grants_1080 : Device → ℕ → ℕ → Bool
unfolding may_be_larger
grants_1080 d max_height now =
    may_be_larger d max_height now && passed (probe_status d.capabilities "h264-1080-high" now)

pub cast_profile_for_sender : Device → ℕ → ℕ → Grant
cast_profile_for_sender d max_height now =
    if grants_2160 d max_height now
    then (cast_video "h264" 3840 2160 30 12000000, none)
    else if grants_1080 d max_height now
    then (cast_video "h264" 1920 1080 30 4000000, none)
    else cast_profile d

abbrev pub screen_tiers : List CastVideo
screen_tiers =
    cast_video "h264" 3840 2160 30 12000000
    ∷ cast_video "h264" 1920 1080 30 4000000
    ∷ cast_video "h264" 1280 720 30 2000000
    ∷ cast_video "h264" 854 480 24 1200000
    ∷ cast_video "h264" 640 360 24 800000
    ∷ []

-- `kbps * 700` on int64; a product that wraps to a negative value is 0, which is as much too small.
unfoldable pub budget_of : ℕ → ℕ
budget_of kbps = let p = kbps * 700 % 2 ^ 64 in if ltb p (2 ^ 63) then p else 0

unfoldable pub tier_fits : CastVideo → ℕ → CastVideo → Bool
tier_fits profile budget t =
    leb t.bitrate budget
    && leb t.bitrate profile.bitrate
    && leb t.max_height profile.max_height
    && leb t.max_width profile.max_width

-- The loop over the tiers, and the smallest profile after it.
unfoldable pub cap_to : CastVideo → ℕ → List CastVideo → CastVideo
cap_to profile budget [] = record {
  codec = if str_eq profile.codec "" then "h264" else profile.codec;
  max_width = min profile.max_width 640;
  max_height = min profile.max_height 360;
  fps = min profile.fps 24;
  bitrate = min profile.bitrate 800000;
}
cap_to profile budget (t ∷ ts) =
    if tier_fits profile budget t
    then record {
      codec = if str_eq profile.codec "" then "h264" else profile.codec;
      max_width = t.max_width;
      max_height = t.max_height;
      fps = min profile.fps t.fps;
      bitrate = t.bitrate;
    }
    else cap_to profile budget ts

unfoldable pub cap_cast_profile_for_network : CastVideo → ℕ → Grant
cap_cast_profile_for_network profile kbps =
    let budget = budget_of kbps in
    if kbps == 0
    then (profile, none)
    else if ltb budget 800000
    then (no_video, some low_goodput)
    else if leb profile.bitrate budget
    then (profile, none)
    else (cap_to profile budget screen_tiers, none)

-- The screen grant, with the goodput sample if the caller gives one.
abbrev screen_grant : Grant → Option ℕ → Grant
screen_grant (video, some e) goodput = (video, some e)
screen_grant (video, none) none = (video, none)
screen_grant (video, none) (some kbps) = cap_cast_profile_for_network video kbps

unfoldable pub cast_profile_for_mode : Device → String → ℕ → ℕ → Option ℕ → Grant
cast_profile_for_mode d mode max_height now goodput =
    if str_eq mode "SCREEN"
    then screen_grant (cast_profile_for_sender d max_height now) goodput
    else if not (str_eq mode "AUDIO")
    then (no_video, some invalid_mode)
    else if any
        (λ (p : Probe). (str_eq p.id "aac" || str_eq p.id "hls-h264-aac") && str_eq p.status "FAIL")
        d.capabilities.probes
    then (no_video, some audio_unsupported)
    else (no_video, none)
