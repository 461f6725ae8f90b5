-- ===== src/Soloist/Login/Always.antt =====
-- soloist_state.go: the same, in every order of the calls.
use zombiebox_gateway_core.Base.{
  ℕ, refl, inl, inr, String, Bool, true, false, not, ◌&&◌, Option, none, some, List, [], ◌∷◌, arith,
  if◌then◌else◌, if-split, ◌==◌,
}
use zombiebox_gateway_core.Soloist.Model.{
  connected_as, Floats, Status, Error, State, Event, Track, Position, auth_state, playback_state,
  track_changed, playback_changed, device_changed, volume_changed, position_sync, command_result,
  error_event, new, finish_wait, clear_position, clear_track, reset_session, reset_playback,
  matches, begin_session, end_session, observe_local_output, stale_session, disconnected,
  stale_event, malformed, unauthenticated, rejected, invalid_command, pending, next_revision,
}
use zombiebox_gateway_core.Soloist.Position.{set_status, set_position}
use zombiebox_gateway_core.Soloist.Reducer.{
  force_track, with_track, with_position, with_volume, with_activity, relogged, with_login, on_auth,
  on_playback, on_result, on_error, counted, awaits, awaits_command, logged_in, reduce, apply,
  is_stale, is_beyond, position_of, duration_in, is_idle,
}
use zombiebox_gateway_core.Soloist.Control.{
  begin_at, begin_wait, with_wait, is_pending, is_wait, cancel_wait, refusal, controller_command,
}
use zombiebox_gateway_core.Soloist.Steps.{
  Step, begins, ends, applies, hears, awaits_result, cancels, happen, after,
}
use zombiebox_gateway_core.Soloist.Login.{
  CoverAt, silence, Safe, Live, Live-Safe, finish_wait-Safe, reset_session-Safe,
  reset_playback-Safe, update_track-Live, force_track-Live, set_status-Live,
}

module _ {R : Floats} where
  with_activity-Live : (o : Option Bool) (s : State R) → Live s → Live (with_activity o s)
  with_activity-Live none s v = v
  with_activity-Live (some active) s v = record { login = v.login; cover = v.cover }

  with_volume-Live : (o : Option (Option ℕ)) (s : State R) → Live s → Live (with_volume o s)
  with_volume-Live none s v = v
  with_volume-Live (some none) s v = record { login = v.login; cover = v.cover }
  with_volume-Live (some (some n)) s v = record { login = v.login; cover = v.cover }

  with_track-Live :
      (o : Option Track) (status : Status) (s : State R) → Live s → Live (with_track o status s)
  unfolding CoverAt
  with_track-Live (some t) status s v = update_track-Live t s v
  with_track-Live none status s v =
      if-split Live (is_idle status) (clear_track s) s (λ e. record { login = v.login; cover = tt })
        (λ e. v)

  with_position-Live :
      (o : Option (Position R)) (now : ℕ) (s : State R) → Live s → Live (with_position o now s)
  unfolding set_position
  with_position-Live none now s v = v
  with_position-Live (some p) now s v = record { login = v.login; cover = v.cover }

  on_playback-Live :
      (activity : Option Bool) (volume : Option (Option ℕ)) (status : Status) (track : Option Track)
      (position : Option (Position R)) (now : ℕ) (s : State R)
      → Live s
      → Live (on_playback activity volume status track position now s)
  unfolding on_playback
  on_playback-Live activity volume status track position now s v =
      let t = with_track track status (with_volume volume (with_activity activity s)) in
      let w =
        with_track-Live track status _
          (with_volume-Live volume _ (with_activity-Live activity s v)) in
      let r =
        with_position-Live position now (set_status status now t)
          (set_status-Live status now t w) in
      record { login = r.login; cover = r.cover }

  on_auth-Safe : (login active : Bool) (s : State R) → Safe s → Safe (on_auth login active s)
  unfolding on_auth
  on_auth-Safe false active s v =
      reset_playback-Safe unauthenticated (with_login false (relogged s))
  on_auth-Safe true active s v =
      let w =
        if-split Safe s.authentication_known (reset_playback unauthenticated s) s
          (λ e. reset_playback-Safe unauthenticated s) (λ e. v) in
      record { quiet = inl refl; cover = w.cover }

  on_result-Safe :
      (session : ℕ) (command : String) (s : State R) → Safe s → Safe (on_result session command s)
  unfolding on_result
  on_result-Safe session command s v =
      let w : Safe (counted s) = record { quiet = v.quiet; cover = v.cover } in
      if-split Safe (awaits_command session command s.command_wait) (finish_wait none (counted s))
        (counted s) (λ e. finish_wait-Safe none (counted s) w) (λ e. w)

  on_error-Safe : (session : ℕ) (s : State R) → Safe s → Safe (on_error session s)
  unfolding on_error
  on_error-Safe session s v =
      let t : State R = record s { error_revision = next_revision s.error_revision } in
      let w : Safe t = record { quiet = v.quiet; cover = v.cover } in
      if-split Safe (awaits session s.command_wait) (finish_wait (some rejected) t) t
        (λ e. finish_wait-Safe (some rejected) t w) (λ e. w)

  record SafeIn {A : Type 0} (r : State R × A) : Type 0 where
    held : Safe r.0

  logged_in-Safe : (s t : State R) → Safe s → (Live s → Live t) → SafeIn (logged_in s t)
  logged_in-Safe s t v next =
      if-split SafeIn (not s.authenticated) (s, some unauthenticated) (t, none)
        (λ e. record { held = v })
        λ e. record {
          held = Live-Safe t (next (record { login = ground (arith, e); cover = v.cover }));
        }

  reduce-Safe :
      (session now : ℕ) (e : Event R) (s : State R) → Safe s → SafeIn (reduce session now e s)
  unfolding reduce set_position
  reduce-Safe session now (auth_state login active) s v = record {
    held = on_auth-Safe login active s v;
  }
  reduce-Safe session now (playback_state activity volume status track position) s v =
      logged_in-Safe s _ v (on_playback-Live activity volume status track position now s)
  reduce-Safe session now (track_changed t) s v =
      logged_in-Safe s (clear_position (force_track t s)) v
        λ l. let f = force_track-Live t s l in record { login = f.login; cover = f.cover }
  reduce-Safe session now (playback_changed status) s v =
      logged_in-Safe s _ v (set_status-Live status now s)
  reduce-Safe session now (device_changed active) s v =
      logged_in-Safe s _ v (λ l. record { login = l.login; cover = l.cover })
  reduce-Safe session now (volume_changed n) s v =
      logged_in-Safe s _ v (λ l. record { login = l.login; cover = l.cover })
  reduce-Safe session now (position_sync p) s v =
      if-split SafeIn (s.authenticated && not s.track_known) (s, some malformed)
        (logged_in s (set_position p now s)) (λ e. record { held = v })
        λ e.
          logged_in-Safe s (set_position p now s) v
            (λ l. record { login = l.login; cover = l.cover })
  reduce-Safe session now (command_result command) s v = record {
    held = on_result-Safe session command s v;
  }
  reduce-Safe session now error_event s v = record { held = on_error-Safe session s v }

  apply-Safe :
      (session now : ℕ) (e : Event R) (s : State R) → Safe s → SafeIn (apply session now e s)
  unfolding apply
  apply-Safe session now e s v =
      let same : (e : Error) → SafeIn (s, some e) = λ e. record { held = v } in
      let past = reduce session now e s in
      let fits : State R × Option Error =
        if is_beyond (position_of e) (duration_in e s) then (s, some malformed) else past in
      let fresh : State R × Option Error =
        if is_stale (position_of e) s then (s, some stale_event) else fits in
      if-split SafeIn (not (matches session s)) (s, some stale_session)
        (if not s.connected then (s, some disconnected) else fresh) (λ d. same stale_session)
        λ d.
          if-split SafeIn (not s.connected) (s, some disconnected) fresh (λ d. same disconnected)
            λ d.
              if-split SafeIn (is_stale (position_of e) s) (s, some stale_event) fits
                (λ d. same stale_event)
                λ d.
                  if-split SafeIn (is_beyond (position_of e) (duration_in e s)) (s, some malformed)
                    past (λ d. same malformed) (λ d. reduce-Safe session now e s v)

  end_session-Safe : (session : ℕ) (s : State R) → Safe s → SafeIn (end_session session s)
  unfolding end_session
  end_session-Safe session s v =
      let t : State R = record s { connected = false } in
      if-split SafeIn (not (matches session s)) (s, some stale_session) (reset_session t, none)
        (λ e. record { held = v }) (λ e. record { held = reset_session-Safe t })

  begin_at-Safe :
      (o : Option Error) (session : ℕ) (command : String) (auth : ℕ) (s : State R)
      → Safe s
      → SafeIn (begin_at o session command auth s)
  unfolding begin_at
  begin_at-Safe (some e) session command auth s v = record { held = v }
  begin_at-Safe none session command auth s v =
      let same : (e : Error) → SafeIn (s, some e) = λ e. record { held = v } in
      let begun : State R × Option Error = (with_wait session command s, none) in
      let last : State R × Option Error =
        if is_pending s.command_wait then (s, some pending) else begun in
      if-split SafeIn (not (auth == 0) && not (s.auth_revision == auth)) (s, some unauthenticated)
        (if not (controller_command command) then (s, some invalid_command) else last)
        (λ e. same unauthenticated)
        λ e.
          if-split SafeIn (not (controller_command command)) (s, some invalid_command) last
            (λ e. same invalid_command)
            λ e.
              if-split SafeIn (is_pending s.command_wait) (s, some pending) begun
                (λ e. same pending)
                (λ idle_. record { held = record { quiet = v.quiet; cover = v.cover } })

  happen-Safe : (s : State R) (e : Step R) → Safe s → Safe (happen s e)
  unfolding happen begin_session begin_wait cancel_wait observe_local_output
  happen-Safe s begins v = reset_session-Safe (connected_as (next_revision s.generation) s)
  happen-Safe s (ends session) v = (end_session-Safe session s v).held
  happen-Safe s (applies session now e) v = (apply-Safe session now e s v).held
  happen-Safe s (hears now active) v = record { quiet = v.quiet; cover = v.cover }
  happen-Safe s (awaits_result session command auth) v =
      (begin_at-Safe (refusal session s) session command auth s v).held
  happen-Safe s (cancels id reason) v =
      if-split Safe (is_wait id s.command_wait) (finish_wait reason s) s
        (λ e. finish_wait-Safe reason s v) (λ e. v)

  after_from-Safe : (s : State R) (es : List (Step R)) → Safe s → Safe (after s es)
  unfolding after
  after_from-Safe s [] v = v
  after_from-Safe s (e ∷ es) v = after_from-Safe (happen s e) es (happen-Safe s e v)

-- In every order of sessions, frames, observations and waits, from the new state: without a login
-- the state holds no track, cover, known volume or position, and is idle and not active; and a
-- cover always carries the current session and the current revision of the track.
pub after-Safe : (R : Floats) (es : List (Step R)) → Safe (after (new R) es)
unfolding new CoverAt
after-Safe R es = after_from-Safe (new R) es (record { quiet = inr silence; cover = tt })
