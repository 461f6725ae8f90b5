-- ===== src/Playback/Planner/Events.antt =====
-- hls.go: the event probe behind direct play of a live manifest.
use zombiebox_gateway_core.Base.{ℕ, ◌≤◌, ◌≡◌, refl, true, Option, none, some, Memᴰ, arith, str_eq}
use zombiebox_gateway_core.Domain.{Probe, Capabilities}
use zombiebox_gateway_core.Playback.Probe.{probe_status, select_latest_probe}
use zombiebox_gateway_core.Playback.Probe.Laws.{
  FreshPass, Chosen, select_latest_probe-Chosen, pass-FreshPass,
}
use zombiebox_gateway_core.Playback.Hls.{has_fresh_live_video_hls_evidence}

-- A fresh pass of the event probe that completed and played for 20 seconds.
pub record EventProven (caps : Capabilities) (now : ℕ) : Type 0 where
  pub probe : Probe
  pub listed : Memᴰ probe caps.probes
  pub same_id : str_eq probe.id "hls-event-h264-aac" ≡ true
  pub fresh : FreshPass now probe
  pub complete : probe.completed ≡ true
  pub long : 20000 ≤ probe.position_ms

pub event-EventProven :
    (caps : Capabilities) (now : ℕ)
    → has_fresh_live_video_hls_evidence caps now ≡ true
    → EventProven caps now
unfolding has_fresh_live_video_hls_evidence probe_status
event-EventProven caps now h =
    go (select_latest_probe caps.probes "hls-event-h264-aac" now) refl
      (select_latest_probe-Chosen caps.probes "hls-event-h264-aac" now)
  where
    go :
        (r : Option Probe)
        → select_latest_probe caps.probes "hls-event-h264-aac" now ≡ r
        → Chosen caps.probes "hls-event-h264-aac" now r
        → EventProven caps now
    go none e c = absurd (ground arith)
    go (some p) e (m, i, _) = record {
      probe = p;
      listed = m;
      same_id = i;
      fresh = pass-FreshPass now p (ground arith);
      complete = ground arith;
      long = ground arith;
    }
