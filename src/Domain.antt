-- ===== src/Domain.antt =====
-- gateway/internal/domain/models.go, tracks.go, adapters.go and hardware.go: the records that the
-- playback policy reads, with the fields it reads.
-- A Go `int` or `int64` of these records is a natural number here: sizes, levels, times and
-- identifiers are not negative on the wire, and where the code asks for `<= 0` the model asks for 0.
use zombiebox_gateway_core.Base.{ℕ, String, Bool, List, Option}

pub record Probe : Type 0 where
  pub id : String
  pub status : String
  pub tested_at : ℕ
  pub position_ms : ℕ
  pub completed : Bool
  pub stalled : Bool
  pub detail : String

pub record Capabilities : Type 0 where
  pub suite_version : ℕ
  pub cache_key : String
  pub version : ℕ
  pub device_id : String
  pub probes : List Probe

-- `Tags` and `Disposition` are written into the stream itself.
pub record Stream : Type 0 where
  pub index : ℕ
  pub kind : String
  pub codec : String
  pub profile : String
  pub level : ℕ
  pub width : ℕ
  pub height : ℕ
  pub pixel_format : String
  pub frame_rate : String
  pub average_frame_rate : String
  pub codec_tag : String
  pub color_transfer : String
  pub color_primaries : String
  pub language : String
  pub title : String
  pub default_flag : ℕ
  pub forced_flag : ℕ

-- `Format` is written into the metadata itself.
pub record Metadata : Type 0 where
  pub streams : List Stream
  pub format_name : String
  pub bit_rate : String

pub record Item : Type 0 where
  pub id : String
  pub provider : String
  pub kind : String

pub record SubtitleSource : Type 0 where
  pub url : String
  pub codec : String
  pub language : String
  pub title : String
  pub is_default : Bool
  pub is_forced : Bool

pub record Source : Type 0 where
  pub item : Item
  pub url : String
  pub audio_url : String
  pub path : String
  pub mime : String
  pub live : Bool
  pub raw_pcm : Bool
  pub pcm_format : String
  pub variants : List String
  pub subtitles : List SubtitleSource

pub record DisplayMode : Type 0 where
  pub mode_id : ℕ
  pub mode_width : ℕ
  pub mode_height : ℕ
  pub refresh : ℕ

pub record Display : Type 0 where
  pub display_id : ℕ
  pub is_default : Bool
  pub width : ℕ
  pub height : ℕ
  pub refresh : ℕ
  pub active_mode : ℕ
  pub modes : List DisplayMode

pub record Platform : Type 0 where
  pub android_api : ℕ
  pub release : String
  pub manufacturer : String
  pub model : String
  pub abis : List String

-- The part of the hardware report that the policy reads.
pub record Hardware : Type 0 where
  pub fingerprint : String
  pub displays : List Display

-- The part of `Registration` that the policy reads is written into the device itself.
pub record Device : Type 0 where
  pub id : String
  pub client_version : String
  pub platform : Platform
  pub memory_mb : ℕ
  pub hardware : Option Hardware
  pub capabilities : Capabilities

pub record Track : Type 0 where
  pub id : ℕ
  pub kind : String
  pub language : String
  pub title : String
  pub is_default : Bool
  pub is_forced : Bool
  pub selectable : Bool

pub record Preferences : Type 0 where
  pub audio_languages : List String
  pub subtitle_languages : List String
  pub subtitle_mode : String

pub record QualityOption : Type 0 where
  pub id : String
  pub label : String
  pub width : ℕ
  pub height : ℕ

pub record QualityInventory : Type 0 where
  pub selected_id : String
  pub options : List QualityOption
