-- ===== src/Lib.antt =====
-- A model of the core of the ZombieBox gateway, a Go program under gateway/ that plays media on
-- television boxes: it keeps the probe evidence of each device, decides in which mode a device
-- plays a source and in which quality, grants encoder limits to casting phones, works off the
-- playlists that phones send, follows the senders of an armed receiver, lets phones steer a
-- television that has let them in, checks what a device reports about its hardware, reduces the
-- events of an audio receiver to a state, reads the progress that another prints, relays a source
-- in bounded ranges, and tells devices what happened through a log that they poll.
--
-- Parts and files. Domain holds the records of gateway/internal/domain that the policy reads.
-- Playback models gateway/internal/playback: Playback/Probe is probe.go (selectLatestProbe,
-- probeStatus), the evidence that all other parts ask; Playback/Hls is hls.go, Playback/Extended
-- is extended.go, and Playback/Picture holds the size tests of both; Playback/Planner is
-- planner.go, with the stream tests in Codecs, localMode in Local and LocalModeSource in Live;
-- Playback/Devices is gateway/internal/devices/probes.go; Playback/Qualities is qualities.go,
-- with the tiers in Tiers, Qualities and HasQuality in Options and SelectedQualityMode in
-- Selected; Playback/Tracks is tracks.go, with preferences.go in Preferred and audio_selection.go
-- in Audio; Playback/Cast is cast_profile.go, and Playback/Adaptation is adaptation.go and
-- bandwidth.go. MediaQueue models gateway/internal/mediaqueue/service.go: Items is Validate,
-- Worker the goroutine that Start launches, Service the methods, and Interleave the event by
-- event composition of methods, goroutine steps and timeouts. EventLog models
-- gateway/internal/server/events.go: publish and read, with Numbers for the text of a cursor.
-- Inbox models gateway/internal/receivers/inbox: Selection is selection.go (read, choose),
-- Service the methods of service.go, Snapshot its Snapshot cut at the locks and blocking calls,
-- and Interleave every order of these steps. Companion models gateway/internal/companion: Model
-- is model.go with the Service, Pairing is Invite, RequestStatus, Pending, Authenticate and
-- Grants, Decide is Decide, Onboarding is onboarding.go (joinTarget, Targets, blocked) with
-- Proof, Joining is Join, Expiry is expire, Remote is remote.go with Revoke, and Remote/Traffic
-- every order of the calls. Hardware is gateway/internal/devices/hardware.go. Soloist models
-- gateway/internal/worker/soloist_state.go: Model is SoloistState with its sessions and resets,
-- Position the estimate and the speeds (estimatedPosition, setPlaybackStatus), Reducer is Apply
-- on a frame that is parsed, Control the waits for acknowledgments, the checks of a control and
-- the snapshots, and Steps every order of these. Airplay models
-- gateway/internal/worker/airplay_progress.go: the pattern of a line, Write byte by byte,
-- ObserveTrack and Snapshot. Ranges models gateway/internal/media/youtube_range.go:
-- relayYouTubeOpenRange round by round, each with what it meets as an answer, and
-- parseContentRange. Base holds what these share, with the parts of Go's strings and strconv that
-- they use.
--
-- Interaction. The planner and the inventory read a device's capabilities through probe statuses
-- only; SelectedQualityMode calls the planner on the capabilities of the device; the cast grants
-- share the statuses and the output height of the inventory, and the adaptation shares the 70%
-- budget of the cast cap.
--
-- State. The playback policy is pure: each function is one function here, and a loop over
-- streams, probes or tiers is a recursion over the list or a test of all or any of it. An
-- adaptation is a record that Observe returns changed. A media queue is a record with the list of
-- its runs, the current one first. Each method runs under the mutex and is one step; the
-- goroutine's steps are the sections between its locks and its blocking calls, and its calls of
-- the injected start and stop are logged. The receiver inbox keeps its log of session starts and
-- stops in its record; the channel of capacity one is a slot that holds the running Snapshot
-- call. The companion service is a record of its maps, association lists with one entry for a
-- key, and of the buckets of the store that it writes; an argument says which calls of the
-- persistence succeed.
--
-- Numbers. Integers that are never negative are natural numbers, and a test for at most 0 is a
-- test for 0; a negative size or time would take the same branch. Subtractions of times are
-- written as sums on the other side. The product kbps * 700 is taken on int64, with a wrapped
-- negative product given as 0, which every caller treats alike; ParseInt keeps its 64-bit range.
-- The clock is an argument: the code reads it several times in one call, and the model takes one
-- reading, but for the leases of the inbox, where it takes two. Every function is structural: the
-- loop of a relay is a recursion on its answers, and the number of its rounds has a bound. Only
-- the digits of a cursor take fuel, the number itself, which is more than its digits. The
-- sequence of the event log wraps at 2^64, and its theorems ask that it does not; the generation
-- of the inbox wraps too, and their theorems hold across the wrap. A hardware report is read as
-- integers of either sign.
--
-- Parameters. Floats holds the 64-bit float operations on playback speeds. Runtime holds the
-- 64-bit float operations, the URL path and the digest of ProbeCacheKey; Validate takes the URL
-- parser as an argument. SHA-256 of the JSON key of a source, of the labels of a track, of tokens
-- and addresses, HMAC-SHA-256, and random texts (with the codes of shortCode) are arguments. What
-- the backend reads, whether a session starts, and when a context ends are answers in the events.
-- Lower case is exact for the ASCII names that the code compares with.
--
-- Not modelled: the HTTP server and its handlers but for the event log, providers, media
-- processes but for the relay of ranges (its test of the origin and the headers that it passes on
-- are left out), storage, the worker processes but for the state of Soloist and the progress of
-- AirPlay, artwork, discovery and the wrappers in other languages. The parser of the frames of
-- Soloist and the transport of its controls are left out: a frame arrives as a parsed event, its
-- digest as a text. The waits of its clients for a change are the tests that their loops make.
-- The wait of Close for the goroutines is left out: it changes no state. The companion's publish
-- only wakes readers of the event log, and a record that does not decode is not in the store. The
-- handlers that call the inbox and the companion are HTTP glue.
pub mod Base
pub mod Domain
pub mod Playback
pub mod MediaQueue
pub mod Airplay
pub mod Companion
pub mod EventLog
pub mod Hardware
pub mod Inbox
pub mod Ranges
pub mod Soloist
