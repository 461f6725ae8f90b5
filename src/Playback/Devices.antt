-- ===== src/Playback/Devices.antt =====
-- gateway/internal/devices/probes.go: which probe evidence of a device still counts.
use zombiebox_gateway_core.Base.{
  ℕ, String, not, ◌&&◌, ◌||◌, Option, none, some, [], ◌==◌, if◌then◌else◌, str_eq,
}
use zombiebox_gateway_core.Domain.{Capabilities, Hardware, Device}
use zombiebox_gateway_core.Playback.Runtime.{Runtime}

abbrev pub probe_suite_version : ℕ
probe_suite_version = 2

abbrev fingerprint_of : Option Hardware → String
fingerprint_of none = ""
fingerprint_of (some h) = h.fingerprint

unfoldable pub probe_cache_key : ⦃rt : Runtime⦄ → Device → String
probe_cache_key ⦃rt⦄ d =
    rt.probe_digest d.platform d.client_version (fingerprint_of d.hardware) probe_suite_version

-- The evidence of a device that has none.
abbrev pub no_evidence : Device → Capabilities
no_evidence d = record {
  suite_version = 0;
  cache_key = "";
  version = 1;
  device_id = d.id;
  probes = [];
}

unfoldable pub current_capabilities : ⦃rt : Runtime⦄ → Device → Capabilities
current_capabilities d =
    if not (d.capabilities.suite_version == 0)
      && (not (d.capabilities.suite_version == probe_suite_version)
          || not (str_eq d.capabilities.cache_key (probe_cache_key d)))
    then no_evidence d
    else d.capabilities
