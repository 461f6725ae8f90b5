-- ===== src/Playback/Tests/Plans.antt =====
-- The modes of the film and of the station.
use zombiebox_gateway_core.Base.{◌≡◌, refl, true, arith, All}
use zombiebox_gateway_core.Base.Text.{
  split, trim_space, lower, contains, equal_fold, before, has_suffix,
}
use zombiebox_gateway_core.Playback.Picture.{exceeds, no_picture}
use zombiebox_gateway_core.Playback.Probe.{probe_status, select_latest_probe, verdict_of}
use zombiebox_gateway_core.Playback.Hls.{is_hls}
use zombiebox_gateway_core.Playback.Planner.Codecs.{
  progressive_direct_candidate, video_candidate, video_remux_candidate, needs_compatible_container,
  can_remux, can_hybrid,
}
use zombiebox_gateway_core.Playback.Planner.Local.{direct_play, hybrid, pcm_stream, local_mode_with}
use zombiebox_gateway_core.Playback.Planner.Live.{
  local_mode_source, only_audio, is_live_mp3_audio, live_mp3_mode,
}
use zombiebox_gateway_core.Playback.Planner.Direct.{
  StreamProven, TransportProven, FallbackSound, local_mode_with-direct_play,
  local_mode_with-FallbackSound,
}
use zombiebox_gateway_core.Playback.Planner.Sources.{SourceSound, local_mode_source-SourceSound}
use zombiebox_gateway_core.Playback.Tests.Fixtures.{
  now, capabilities, film, surround_film, station, station_source, runtime,
}

film_plays : local_mode_with film capabilities now "video/mp4" "" true ≡ direct_play
unfolding local_mode_with is_hls progressive_direct_candidate video_candidate
    needs_compatible_container probe_status select_latest_probe verdict_of split trim_space lower
    contains exceeds no_picture
film_plays = refl

surround_film_copied :
    local_mode_with surround_film capabilities now "video/x-matroska" "" true ≡ hybrid
unfolding local_mode_with is_hls progressive_direct_candidate video_candidate
    needs_compatible_container can_remux can_hybrid probe_status select_latest_probe verdict_of
    split trim_space lower contains exceeds no_picture video_remux_candidate
surround_film_copied = refl

station_streamed : local_mode_source station station_source capabilities now "" ≡ pcm_stream
unfolding local_mode_source is_live_mp3_audio live_mp3_mode local_mode_with is_hls
    progressive_direct_candidate needs_compatible_container can_remux probe_status
    select_latest_probe verdict_of split trim_space lower contains equal_fold before has_suffix
    only_audio
station_streamed = refl

local_mode_with-direct_play_example :
    All (StreamProven capabilities now) film.streams
    × TransportProven film "video/mp4" capabilities now
local_mode_with-direct_play_example =
    local_mode_with-direct_play film capabilities now (omega arith) "video/mp4" "" true film_plays

local_mode_with-FallbackSound_example :
    FallbackSound surround_film capabilities now
      (local_mode_with surround_film capabilities now "video/x-matroska" "" true)
local_mode_with-FallbackSound_example =
    local_mode_with-FallbackSound surround_film capabilities now "video/x-matroska" "" true
      (refl, refl)

local_mode_source-SourceSound_example :
    SourceSound station station_source capabilities now
      (local_mode_source station station_source capabilities now "")
local_mode_source-SourceSound_example =
    local_mode_source-SourceSound station station_source capabilities now "" (omega arith)
