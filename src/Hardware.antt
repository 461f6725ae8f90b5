-- ===== src/Hardware.antt =====
-- gateway/internal/devices/hardware.go: whether a device's report of its hardware is kept.
pub mod Displays
mod Tests
use zombiebox_gateway_core.Base.{
  ℕ, suc, ◌+◌, String, Bool, true, false, not, ◌&&◌, ◌||◌, List, [], ◌∷◌, ◌++◌, length, all, any,
  if◌then◌else◌, leb, ltb, str_eq, ◌==◌,
}
use zombiebox_gateway_core.Base.Integers.{ℤ, pos, is_negative, at_most, int_eq}
use zombiebox_gateway_core.Base.Text.{codes, byte_length, is_digit}

-- The reported texts are lists of code points where their length counts.
pub record CodecProfileHint : Type 0 where
  pub mime : String
  pub profile : ℤ
  pub level : ℤ

pub record DisplayModeHint : Type 0 where
  pub id : ℤ
  pub width : ℤ
  pub height : ℤ
  pub refresh : ℤ

pub record DisplayHint : Type 0 where
  pub id : ℤ
  pub is_default : Bool
  pub presentation : Bool
  pub width : ℤ
  pub height : ℤ
  pub refresh : ℤ
  pub active_mode : ℤ
  pub modes : List DisplayModeHint

pub record CodecHint : Type 0 where
  pub profiles : List CodecProfileHint
  pub acceleration : String
  pub probe_candidates : List String
  pub name : String
  pub types : List String

pub record HardwareReport : Type 0 where
  pub encoders : List CodecHint
  pub displays : List DisplayHint
  pub inventory_limited : Bool
  pub integration_hints : List String
  pub version : ℤ
  pub fingerprint : String
  pub product : String
  pub device : String
  pub abis : List String
  pub cpu_cores : ℤ
  pub physical_mb : ℤ
  pub storage_free_mb : ℤ
  pub gles : ℤ
  pub keyboard : Bool
  pub mouse : Bool
  pub network : String
  pub gateway_latency_ms : ℤ
  pub decoders : List CodecHint
  pub external_players : List String
  pub native_dial : String
  pub multicast : String

abbrev longer : ℕ → String → Bool
longer n s = ltb n (byte_length (codes s))

is_lower_hex : ℕ → Bool
unfolding is_digit
is_lower_hex c = is_digit c || (leb b'a' c && leb c b'f')

-- `^[a-f0-9]{64}$`
pub is_fingerprint : String → Bool
unfolding is_lower_hex
is_fingerprint s = length (codes s) == 64 && all is_lower_hex (codes s)

-- `width > 0 && width <= 16384`
abbrev side_ok : ℤ → Bool
side_ok z = not (at_most z 0) && at_most z 16384

pub valid_display_size : ℤ → ℤ → ℤ → Bool
valid_display_size width height rate =
    side_ok width && side_ok height && not (is_negative rate) && at_most rate 480000

-- A mode that fills the display as it is reported.
abbrev pub fills : DisplayHint → DisplayModeHint → Bool
fills d m = int_eq m.width d.width && int_eq m.height d.height && int_eq m.refresh d.refresh

-- The loop over the modes, with the ids seen and whether the active mode is known.
pub modes_from : DisplayHint → List ℤ → Bool → List DisplayModeHint → Bool
unfolding valid_display_size
modes_from d seen active [] = active
modes_from d seen active (m ∷ ms) =
    let rest =
      modes_from d (m.id ∷ seen) (if int_eq m.id d.active_mode then fills d m else active) ms in
    if at_most m.id 0
      || any (int_eq m.id) seen
      || not (valid_display_size m.width m.height m.refresh)
    then false
    else rest

pub valid_display : DisplayHint → Bool
unfolding valid_display_size
valid_display d =
    not (is_negative d.id)
    && valid_display_size d.width d.height d.refresh
    && not (is_negative d.active_mode)
    && leb (length d.modes) 16

-- The loop over the displays, with the ids seen and the defaults counted.
pub displays_from : List ℤ → ℕ → List DisplayHint → Bool
unfolding valid_display modes_from
displays_from seen defaults [] = true
displays_from seen defaults (d ∷ ds) =
    let count = defaults + (if d.is_default then 1 else 0) in
    let rest = displays_from (d.id ∷ seen) count ds in
    if not (valid_display d) || any (int_eq d.id) seen
    then false
    else if ltb 1 count
    then false
    else if not (modes_from d [] (int_eq d.active_mode (pos 0)) d.modes)
    then false
    else rest

pub valid_displays : List DisplayHint → Bool
unfolding displays_from
valid_displays displays = displays_from [] 0 displays

abbrev same_profile : CodecProfileHint → CodecProfileHint → Bool
same_profile p q = str_eq p.mime q.mime && int_eq p.profile q.profile && int_eq p.level q.level

-- Each profile is of a listed type, not negative, and listed once.
profiles_from : List String → List CodecProfileHint → List CodecProfileHint → Bool
profiles_from types seen [] = true
profiles_from types seen (p ∷ ps) =
    let rest = profiles_from types (p ∷ seen) ps in
    if not (any (str_eq p.mime) types)
      || is_negative p.profile
      || is_negative p.level
      || any (same_profile p) seen
    then false
    else rest

abbrev candidates : List String
candidates = "h264-2160-high" ∷ "hevc-1080-main" ∷ "hevc-2160-main" ∷ []

candidates_from : List String → List String → Bool
candidates_from seen [] = true
candidates_from seen (c ∷ cs) =
    let rest = candidates_from (c ∷ seen) cs in
    if any (str_eq c) seen || not (any (str_eq c) candidates) then false else rest

abbrev accelerations : List String
accelerations = "" ∷ "UNKNOWN" ∷ "HARDWARE" ∷ "SOFTWARE" ∷ []

pub valid_codec : CodecHint → Bool
unfolding profiles_from candidates_from byte_length
valid_codec c =
    leb (length c.profiles) 8
    && any (str_eq c.acceleration) accelerations
    && profiles_from c.types [] c.profiles
    && not (longer 200 c.name)
    && leb (length c.types) 16
    && leb (length c.probe_candidates) 3
    && candidates_from [] c.probe_candidates
    && not (any (longer 100) c.types)

abbrev no_candidates : CodecHint → Bool
no_candidates c = length c.probe_candidates == 0

-- The lists are no longer than what a device can have.
abbrev sizes_ok : HardwareReport → Bool
sizes_ok r =
    leb (length r.integration_hints) 32
    && leb (length r.abis) 8
    && leb (length r.decoders) 128
    && leb (length r.encoders) 32
    && leb (length r.displays) 8
    && leb (length r.external_players) 32

abbrev numbers_ok : HardwareReport → Bool
unfolding byte_length
numbers_ok r =
    not (is_negative r.cpu_cores)
    && at_most r.cpu_cores 1024
    && not (is_negative r.gles)
    && not (is_negative r.physical_mb)
    && not (is_negative r.storage_free_mb)
    && not (is_negative r.gateway_latency_ms)
    && at_most r.gateway_latency_ms 60000
    && not (longer 40 r.network)

pub valid_hardware : HardwareReport → Bool
unfolding is_fingerprint valid_codec valid_displays byte_length
valid_hardware r =
    int_eq r.version (pos 1)
    && is_fingerprint r.fingerprint
    && not (longer 200 r.product)
    && not (longer 200 r.device)
    && numbers_ok r
    && sizes_ok r
    && str_eq r.native_dial "UNKNOWN"
    && str_eq r.multicast "UNKNOWN"
    && not (any (longer 200) (r.abis ++ r.external_players ++ r.integration_hints))
    && all valid_codec r.decoders
    && all (λ c. no_candidates c && valid_codec c) r.encoders
    && valid_displays r.displays
