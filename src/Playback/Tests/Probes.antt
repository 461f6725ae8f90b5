-- ===== src/Playback/Tests/Probes.antt =====
-- The choice of a probe among the fixtures, where one of two AAC results lies in the future.
use zombiebox_gateway_core.Base.{◌≡◌, refl, some}
use zombiebox_gateway_core.Playback.Probe.{select_latest_probe, unknown, verdict_of, probe_status}
use zombiebox_gateway_core.Playback.Probe.Laws.{
  Chosen, Explains, select_latest_probe-Chosen, probe_status-Explains,
}
use zombiebox_gateway_core.Playback.Tests.Fixtures.{now, passed_at, probes, capabilities}

-- A later result from the future does not win.
future_loses : select_latest_probe probes "aac" now ≡ some (passed_at "aac" 1699990002)
unfolding select_latest_probe
future_loses = refl

never_tested : probe_status capabilities "mp3-chunked" now ≡ unknown
unfolding probe_status select_latest_probe verdict_of
never_tested = refl

select_latest_probe-Chosen_example : Chosen probes "aac" now (select_latest_probe probes "aac" now)
select_latest_probe-Chosen_example = select_latest_probe-Chosen probes "aac" now

probe_status-Explains_example :
    Explains probes "h264-1080-high" now (probe_status capabilities "h264-1080-high" now)
probe_status-Explains_example = probe_status-Explains capabilities "h264-1080-high" now
