-- ===== src/Hardware/Tests.antt =====
-- A box with one display, in a mode of its own size.
use zombiebox_gateway_core.Base.{◌≡◌, refl, true, false, [], ◌∷◌}
use zombiebox_gateway_core.Base.Integers.{pos, negsuc}
use zombiebox_gateway_core.Hardware.{
  DisplayHint, DisplayModeHint, CodecHint, HardwareReport, valid_hardware,
}
use zombiebox_gateway_core.Hardware.Displays.{HardwareSound, valid_hardware-Sound}

abbrev full_hd : DisplayModeHint
full_hd = record { id = pos 1; width = pos 1920; height = pos 1080; refresh = pos 60000 }

abbrev screen : DisplayHint
screen = record {
  id = pos 0;
  is_default = true;
  presentation = false;
  width = pos 1920;
  height = pos 1080;
  refresh = pos 60000;
  active_mode = pos 1;
  modes = full_hd ∷ [];
}

abbrev decoder : CodecHint
decoder = record {
  profiles = record { mime = "video/avc"; profile = pos 8; level = pos 512 } ∷ [];
  acceleration = "HARDWARE";
  probe_candidates = "h264-2160-high" ∷ [];
  name = "OMX.box.avc";
  types = "video/avc" ∷ [];
}

abbrev box : HardwareReport
box = record {
  encoders = [];
  displays = screen ∷ [];
  inventory_limited = false;
  integration_hints = [];
  version = pos 1;
  fingerprint = "0123456789abcdef0123456789abcdef0123456789abcdef0123456789abcdef";
  product = "box";
  device = "box";
  abis = "armeabi-v7a" ∷ [];
  cpu_cores = pos 4;
  physical_mb = pos 1024;
  storage_free_mb = pos 2000;
  gles = pos 131072;
  keyboard = false;
  mouse = false;
  network = "wifi";
  gateway_latency_ms = pos 4;
  decoders = decoder ∷ [];
  external_players = [];
  native_dial = "UNKNOWN";
  multicast = "UNKNOWN";
}

valid_hardware-Sound_example : HardwareSound box
unfolding valid_hardware
valid_hardware-Sound_example = valid_hardware-Sound box refl

negative_cores : valid_hardware (record box { cpu_cores = negsuc 0 }) ≡ false
unfolding valid_hardware
negative_cores = refl
