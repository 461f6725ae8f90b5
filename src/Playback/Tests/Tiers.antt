-- ===== src/Playback/Tests/Tiers.antt =====
-- The inventory of the film, and the mode of a rendition of the split source.
use zombiebox_gateway_core.Base.{arith, All}
use zombiebox_gateway_core.Playback.Qualities.Options.{offer_of, qualities}
use zombiebox_gateway_core.Playback.Qualities.Selected.{selected_quality_mode}
use zombiebox_gateway_core.Playback.Qualities.Sound.{OptionSound, qualities-OptionSound}
use zombiebox_gateway_core.Playback.Qualities.Selection.{SelectedSound, qualities-SelectedSound}
use zombiebox_gateway_core.Playback.Qualities.Modes.{
  RenditionSound, selected_quality_mode-RenditionSound,
}
use zombiebox_gateway_core.Playback.Tests.Fixtures.{
  now, television, film, film_source, split_source, runtime,
}

qualities-OptionSound_example :
    All
      (OptionSound (offer_of film film_source television now))
      (qualities film film_source television now "720p").options
qualities-OptionSound_example =
    qualities-OptionSound film film_source television now (omega arith) "720p"

qualities-SelectedSound_example :
    SelectedSound (qualities film film_source television now "LOW") "LOW"
qualities-SelectedSound_example = qualities-SelectedSound film film_source television now "LOW"

selected_quality_mode-RenditionSound_example :
    RenditionSound film split_source television 0 now
      (selected_quality_mode film split_source television 0 now "1080p").0
selected_quality_mode-RenditionSound_example =
    selected_quality_mode-RenditionSound film split_source television 0 now "1080p"
