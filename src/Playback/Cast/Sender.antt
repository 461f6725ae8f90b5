-- ===== src/Playback/Cast/Sender.antt =====
-- cast_profile.go: the evidence behind a grant above 720p, and devices with little memory.
use zombiebox_gateway_core.Base.{ℕ, ◌≤◌, ◌<◌, ◌≡◌, ◌⊎◌, inl, inr, true, arith, Bool-cases}
use zombiebox_gateway_core.Domain.{Device}
use zombiebox_gateway_core.Playback.Planner.Evidence.{Proven, passed-Proven}
use zombiebox_gateway_core.Playback.Qualities.Tiers.{max_supported_output_height}
use zombiebox_gateway_core.Playback.Cast.{
  CastVideo, Grant, cast_video, cast_profile, grants_2160, grants_1080, cast_profile_for_sender,
}

-- The evidence for a picture above 720p, for a phone that asked for at most `max_height`.
pub record LargeGrant (d : Device) (max_height now : ℕ) (video : CastVideo) : Type 0 where
  pub asked : video.max_height ≤ max_height
  pub suite : d.capabilities.suite_version ≡ 2
  pub memory : (d.memory_mb ≡ 0) ⊎ (768 < d.memory_mb)
  pub transport : Proven d.capabilities now "hls-h264-aac"
  pub decoder :
      (Proven d.capabilities now "h264-1080-high" × (video.max_height ≤ 1080))
      ⊎ (Proven d.capabilities now "h264-2160-high" × (2160 ≤ max_supported_output_height d))

-- A device that is known to have at most 768 MB gets a small picture.
abbrev pub LowMemory : Device → CastVideo → Type 0
LowMemory d video =
    (d.memory_mb ≡ 0) ⊎ (768 < d.memory_mb) ⊎ ((video.max_width ≤ 640) × (video.max_height ≤ 360))

abbrev pub SenderSound : Device → ℕ → ℕ → Grant → Type 0
SenderSound d max_height now (video, e) =
    ((video.max_height ≤ 720) ⊎ LargeGrant d max_height now video)
    × LowMemory d video
    × (video.fps ≤ 30)

cast_profile-small :
    (d : Device)
    → ((cast_profile d).0.max_height ≤ 720)
      × ((cast_profile d).0.fps ≤ 30)
      × LowMemory d (cast_profile d).0
unfolding cast_profile
cast_profile-small d = (ground arith, ground arith, ground arith)

large-memory :
    (d : Device) (max_height now : ℕ) (video : CastVideo)
    → (grants_2160 d max_height now ≡ true) ⊎ (grants_1080 d max_height now ≡ true)
    → LowMemory d video
unfolding grants_2160 grants_1080
large-memory d max_height now video (inl e) = ground arith
large-memory d max_height now video (inr e) = ground arith

grants_2160-LargeGrant :
    (d : Device) (max_height now : ℕ)
    → grants_2160 d max_height now ≡ true
    → LargeGrant d max_height now (cast_video "h264" 3840 2160 30 12000000)
unfolding grants_2160
grants_2160-LargeGrant d max_height now e = record {
  asked = ground arith;
  suite = ground arith;
  memory = ground arith;
  transport = passed-Proven d.capabilities now "hls-h264-aac" (ground arith);
  decoder = inr (passed-Proven d.capabilities now "h264-2160-high" (ground arith), ground arith);
}

grants_1080-LargeGrant :
    (d : Device) (max_height now : ℕ)
    → grants_1080 d max_height now ≡ true
    → LargeGrant d max_height now (cast_video "h264" 1920 1080 30 4000000)
unfolding grants_1080
grants_1080-LargeGrant d max_height now e = record {
  asked = ground arith;
  suite = ground arith;
  memory = ground arith;
  transport = passed-Proven d.capabilities now "hls-h264-aac" (ground arith);
  decoder = inl (passed-Proven d.capabilities now "h264-1080-high" (ground arith), omega arith);
}

-- For every device, requested height and time, whether or not the grant is an error: a picture
-- taller than 720 lines is granted only to a phone that asked for it, on a device with suite 2
-- evidence, with memory unknown or above 768 MB, with a fresh pass of the manifest probe and of
-- the 1080p decoder probe, or of the 2160p probe on a display with a 2160-line mode. A device with
-- 1 to 768 MB gets at most 640 by 360. No grant has more than 30 frames a second.
pub cast_profile_for_sender-SenderSound :
    (d : Device) (max_height now : ℕ)
    → SenderSound d max_height now (cast_profile_for_sender d max_height now)
unfolding cast_profile_for_sender
cast_profile_for_sender-SenderSound d max_height now =
    elim (Bool-cases (grants_2160 d max_height now)) [
      | inl e ↦ rw e (
        inr (grants_2160-LargeGrant d max_height now e),
        large-memory d max_height now (cast_video "h264" 3840 2160 30 12000000) (inl e),
        omega arith,
      )
      | inr e ↦ elim (Bool-cases (grants_1080 d max_height now)) [
        | inl f ↦
            rw (e, f)
              (
                inr (grants_1080-LargeGrant d max_height now f),
                large-memory d max_height now (cast_video "h264" 1920 1080 30 4000000) (inr f),
                omega arith,
              )
        | inr f ↦ let (height, fps, low) = cast_profile-small d in rw (e, f) (inl height, low, fps)
      ]
    ]
