-- ===== src/Playback/Tracks.antt =====
-- gateway/internal/playback/tracks.go: the tracks of a source that a viewer can choose.
pub mod Attached
pub mod Preferred
pub mod Audio
use Prim.Native.String.{len}
use zombiebox_gateway_core.Base.{
  ℕ, zero, suc, ◌+◌, String, Bool, true, false, not, ◌&&◌, ◌||◌, Option, none, some, List, [], ◌∷◌,
  ◌++◌, map, any, keep, leb, ◌==◌, if◌then◌else◌, str_eq,
}
use zombiebox_gateway_core.Base.Text.{codes, same, lower}
use zombiebox_gateway_core.Domain.{Stream, Metadata, Source, SubtitleSource, Track}

-- The name in the switch of `subtitles.TextFormat` that the lowered codec is equal to.
abbrev format_among : List String → List ℕ → Option String
format_among [] codec = none
format_among (name ∷ names) codec =
    if same codec (codes name) then some name else format_among names codec

pub text_format : List ℕ → Option String
text_format codec = format_among ("srt" ∷ "subrip" ∷ "vtt" ∷ "webvtt" ∷ "ass" ∷ "ssa" ∷ []) codec

-- The first code points of a text.
abbrev take_text : ℕ → String → String
take_text zero s = ""
take_text (suc n) String.[] = ""
take_text (suc n) (String.◌∷◌ c s) = String.◌∷◌ c (take_text n s)

abbrev flag : Bool → ℕ
flag true = 1
flag false = 0

-- `domain.ExternalSubtitleBase`
abbrev pub external_subtitle_base : ℕ
external_subtitle_base = 1600000000

abbrev pub attached_stream : ℕ → String → SubtitleSource → Stream
attached_stream index codec a = record {
  index = external_subtitle_base + index;
  kind = "subtitle";
  codec = codec;
  profile = "";
  level = 0;
  width = 0;
  height = 0;
  pixel_format = "";
  frame_rate = "";
  average_frame_rate = "";
  codec_tag = "";
  color_transfer = "";
  color_primaries = "";
  language = if leb (len a.language) 32 then a.language else "";
  title = take_text 128 a.title;
  default_flag = flag a.is_default;
  forced_flag = flag a.is_forced;
}

-- One round of the loop, and the rounds from an index on; the loop breaks at index 32.
pub attach : ℕ → SubtitleSource → List Stream
attach index a = elim (text_format (lower (codes a.codec))) [
  | none ↦ []
  | some codec ↦ if str_eq a.url "" then [] else attached_stream index codec a ∷ []
]

pub attachments : ℕ → List SubtitleSource → List Stream
unfolding attach
attachments index [] = []
attachments index (a ∷ as_) =
    let rest = attachments (suc index) as_ in if leb 32 index then [] else attach index a ++ rest

pub with_subtitles : Metadata → Source → Metadata
unfolding attachments
with_subtitles m s =
    if s.live || not (str_eq s.audio_url "") || not (str_eq s.path "")
    then m
    else record m { streams = m.streams ++ attachments 0 s.subtitles }

-- `TextSubtitle`
unfoldable pub text_subtitle : String → Bool
text_subtitle codec =
    any (str_eq codec)
      ("subrip" ∷ "srt" ∷ "webvtt" ∷ "vtt" ∷ "ass" ∷ "ssa" ∷ "mov_text" ∷ "text" ∷ [])

abbrev pub is_track : Stream → Bool
is_track s = str_eq s.kind "audio" || str_eq s.kind "subtitle"

unfoldable pub track_of : Stream → Track
track_of s = record {
  id = s.index;
  kind = s.kind;
  language = s.language;
  title = s.title;
  is_default = s.default_flag == 1;
  is_forced = s.forced_flag == 1;
  selectable = str_eq s.kind "audio" || text_subtitle s.codec;
}

pub record TrackInventory : Type 0 where
  pub available : Bool
  pub tracks : List Track
  pub audio_id : Option ℕ

unfoldable pub inventory : Metadata → Option ℕ → TrackInventory
inventory m selected = record {
  available = true;
  tracks = map track_of (keep is_track m.streams);
  audio_id = selected;
}

pub has_track : TrackInventory → ℕ → String → Bool
has_track i id kind = any (λ (t : Track). t.id == id && str_eq t.kind kind && t.selectable) i.tracks
