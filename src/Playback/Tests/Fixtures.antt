-- ===== src/Playback/Tests/Fixtures.antt =====
-- A television of a living room with fresh probe evidence, and what it is asked to play.
use zombiebox_gateway_core.Base.{ℕ, String, true, false, some, List, [], ◌∷◌, length}
use zombiebox_gateway_core.Domain.{
  Probe, Capabilities, Stream, Metadata, Item, Source, Display, Platform, Device,
}
use zombiebox_gateway_core.Playback.Runtime.{Runtime}

-- A runtime that parses every text as the number of its bytes.
instance abbrev pub runtime : Runtime
runtime = record {
  parse_float = λ text. some (length text);
  is_positive = λ x. true;
  at_most_30 = λ x y. true;
  url_path = λ url. some [];
  probe_digest = λ platform version fingerprint suite. "digest";
}

abbrev pub now : ℕ
now = 1700000000

abbrev pub passed_at : String → ℕ → Probe
passed_at id tested = record {
  id = id;
  status = "PASS";
  tested_at = tested;
  position_ms = 20000;
  completed = true;
  stalled = false;
  detail = "";
}

abbrev pub probes : List Probe
probes =
    passed_at "http-progressive" 1699990000
    ∷ passed_at "http-fmp4" 1699990001
    ∷ passed_at "aac" 1699990002
    ∷ passed_at "aac" 1700009000
    ∷ passed_at "h264-720-main" 1699990003
    ∷ passed_at "h264-1080-high" 1699990004
    ∷ passed_at "hls-h264-aac" 1699990005
    ∷ passed_at "audio-track-pcm-stream" 1699990006
    ∷ []

abbrev pub capabilities : Capabilities
capabilities = record {
  suite_version = 2;
  cache_key = "digest";
  version = 1;
  device_id = "tv";
  probes = probes;
}

abbrev pub platform : Platform
platform = record {
  android_api = 28;
  release = "9";
  manufacturer = "maker";
  model = "box";
  abis = "armeabi-v7a" ∷ [];
}

abbrev pub screen : Display
screen = record {
  display_id = 0;
  is_default = true;
  width = 1920;
  height = 1080;
  refresh = 60000;
  active_mode = 1;
  modes = record { mode_id = 1; mode_width = 1920; mode_height = 1080; refresh = 60000 } ∷ [];
}

abbrev pub television : Device
television = record {
  id = "tv";
  client_version = "1.0";
  platform = platform;
  memory_mb = 2048;
  hardware = some (record { fingerprint = "print"; displays = screen ∷ [] });
  capabilities = capabilities;
}

abbrev pub stream : String → String → String → ℕ → ℕ → Stream
stream kind codec profile width height = record {
  index = 0;
  kind = kind;
  codec = codec;
  profile = profile;
  level = 40;
  width = width;
  height = height;
  pixel_format = "yuv420p";
  frame_rate = "25/1";
  average_frame_rate = "25/1";
  codec_tag = "avc1";
  color_transfer = "";
  color_primaries = "";
  language = "";
  title = "";
  default_flag = 1;
  forced_flag = 0;
}

-- A 1080p film.
abbrev pub film : Metadata
film = record {
  streams = stream "video" "h264" "High" 1920 1080 ∷ stream "audio" "aac" "LC" 0 0 ∷ [];
  format_name = "mov,mp4";
  bit_rate = "3500000";
}

-- The same film with a sound track that has to be converted.
abbrev pub surround_film : Metadata
surround_film = record {
  streams = stream "video" "h264" "High" 1920 1080 ∷ stream "audio" "ac3" "" 0 0 ∷ [];
  format_name = "matroska";
  bit_rate = "3500000";
}

-- A live station.
abbrev pub station : Metadata
station = record {
  streams = stream "audio" "mp3" "" 0 0 ∷ [];
  format_name = "mp3";
  bit_rate = "128000";
}

abbrev pub item : String → String → Item
item provider kind = record { id = "one"; provider = provider; kind = kind }

abbrev pub film_source : Source
film_source = record {
  item = item "local" "video";
  url = "";
  audio_url = "";
  path = "/media/film.mp4";
  mime = "video/mp4";
  live = false;
  raw_pcm = false;
  pcm_format = "";
  variants = [];
  subtitles = [];
}

-- A video whose sound comes from a second address, in two renditions.
abbrev pub split_source : Source
split_source = record {
  item = item "youtube" "video";
  url = "https://example.com/video";
  audio_url = "https://example.com/audio";
  path = "";
  mime = "video/mp4";
  live = false;
  raw_pcm = false;
  pcm_format = "";
  variants = "1080p" ∷ "720p" ∷ [];
  subtitles = [];
}

abbrev pub station_source : Source
station_source = record {
  item = item "radio" "audio";
  url = "http://example.com/live";
  audio_url = "";
  path = "";
  mime = "audio/mpeg";
  live = true;
  raw_pcm = false;
  pcm_format = "";
  variants = [];
  subtitles = [];
}
