-- ===== src/Playback/Tests/Languages.antt =====
-- The tracks that a Spanish profile gets of a film with two languages.
use zombiebox_gateway_core.Base.{ℕ, ◌≡◌, refl, String, true, false, none, some, [], ◌∷◌, arith, All}
use zombiebox_gateway_core.Base.Text.{split, trim_space, lower, contains, before}
use zombiebox_gateway_core.Domain.{Stream, Metadata, Source, Preferences}
use zombiebox_gateway_core.Playback.Picture.{exceeds, no_picture}
use zombiebox_gateway_core.Playback.Probe.{probe_status, select_latest_probe, verdict_of}
use zombiebox_gateway_core.Playback.Hls.{is_hls}
use zombiebox_gateway_core.Playback.Planner.Codecs.{
  progressive_direct_candidate, video_candidate, needs_compatible_container,
}
use zombiebox_gateway_core.Playback.Planner.Local.{direct_play, local_mode, local_mode_with}
use zombiebox_gateway_core.Playback.Planner.Direct.{StreamProven, TransportProven}
use zombiebox_gateway_core.Playback.Tracks.{inventory, track_of, text_subtitle, with_subtitles}
use zombiebox_gateway_core.Playback.Tracks.Attached.{Appended, with_subtitles-Appended}
use zombiebox_gateway_core.Playback.Tracks.Preferred.{
  Wanted, preferred_track, preferred_tracks, preferred_audio, preferred_subtitle, prefer, eligible,
  track_score, language_rank, language_code, score_of,
}
use zombiebox_gateway_core.Playback.Tracks.Preferred.Best.{Preferred, preferred_track-Preferred}
use zombiebox_gateway_core.Playback.Tracks.Preferred.Choice.{
  AudioChoice, SubtitleChoice, preferred_tracks-Choice,
}
use zombiebox_gateway_core.Playback.Tracks.Audio.{
  MediaSelection, selected_audio_mode, preferred_audio_mode, audio_metadata, requires_audio_mapping,
}
use zombiebox_gateway_core.Playback.Tracks.Audio.Modes.{AudioSound, selected_audio_mode-AudioSound}
use zombiebox_gateway_core.Playback.Tracks.Audio.Direct.{Kept, preferred_audio_mode-direct_play}
use zombiebox_gateway_core.Playback.Tests.Fixtures.{
  now, capabilities, stream, film, film_source, runtime,
}

abbrev spoken : ℕ → String → String → String → Stream
spoken index kind codec language = record (stream kind codec "" 0 0) {
  index = index;
  language = language;
}

abbrev foreign_film : Metadata
foreign_film = record film {
  streams =
      stream "video" "h264" "High" 1920 1080
      ∷ spoken 1 "audio" "aac" "eng"
      ∷ spoken 2 "audio" "aac" "es-MX"
      ∷ spoken 3 "subtitle" "subrip" "en"
      ∷ [];
}

abbrev spanish : Preferences
spanish = record {
  audio_languages = "es" ∷ "en" ∷ [];
  subtitle_languages = "en" ∷ [];
  subtitle_mode = "always";
}

abbrev wanted : Wanted
wanted = record { kind = "audio"; languages = "es" ∷ []; forced_only = false; fallback = true }

abbrev attached_source : Source
attached_source = record film_source {
  path = "";
  subtitles =
      record {
        url = "https://example.com/film.srt";
        codec = "SRT";
        language = "en";
        title = "English";
        is_default = true;
        is_forced = false;
      }
      ∷ [];
}

abbrev chosen : MediaSelection
chosen = record { quality = ""; audio_id = some 2; position_ms = 0 }

with_subtitles-Appended_example : Appended film (with_subtitles film attached_source).streams
with_subtitles-Appended_example = with_subtitles-Appended film attached_source

preferred_track-Preferred_example :
    Preferred
      (inventory foreign_film none).tracks
      wanted
      (preferred_track (inventory foreign_film none).tracks wanted)
preferred_track-Preferred_example =
    preferred_track-Preferred (inventory foreign_film none).tracks wanted

preferred_tracks-Choice_example :
    AudioChoice foreign_film (preferred_tracks foreign_film spanish).0
    × SubtitleChoice foreign_film spanish (preferred_tracks foreign_film spanish).1
preferred_tracks-Choice_example = preferred_tracks-Choice foreign_film spanish

selected_audio_mode-AudioSound_example :
    AudioSound foreign_film capabilities chosen "DIRECT_PLAY"
      (selected_audio_mode foreign_film "video/mp4" capabilities now chosen "DIRECT_PLAY")
selected_audio_mode-AudioSound_example =
    selected_audio_mode-AudioSound foreign_film "video/mp4" capabilities now chosen "DIRECT_PLAY"

first_track_plays :
    preferred_audio_mode foreign_film "video/mp4" capabilities now "" (some 1) ≡ direct_play
unfolding preferred_audio_mode audio_metadata requires_audio_mapping local_mode local_mode_with
    is_hls progressive_direct_candidate video_candidate needs_compatible_container probe_status
    select_latest_probe verdict_of split trim_space lower contains exceeds no_picture
first_track_plays = refl

preferred_audio_mode-direct_play_example :
    All (StreamProven capabilities now) foreign_film.streams
    × TransportProven foreign_film "video/mp4" capabilities now
    × Kept foreign_film "" (some 1)
preferred_audio_mode-direct_play_example =
    preferred_audio_mode-direct_play foreign_film "video/mp4" capabilities now "" (some 1)
      (omega arith) first_track_plays

both_chosen : preferred_tracks foreign_film spanish ≡ (some 2, some 3)
unfolding preferred_tracks preferred_audio preferred_subtitle preferred_track prefer eligible
    track_score language_rank language_code score_of inventory track_of text_subtitle before lower
    trim_space
both_chosen = refl
