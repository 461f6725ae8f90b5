-- ===== src/Soloist/Waits/Once.antt =====
-- soloist_state.go: each wait is answered once, in every order of the calls.
use zombiebox_gateway_core.Base.{
  ℕ, ◌≡◌, refl, String, Bool, true, false, not, ◌&&◌, Option, none, some, List, [], ◌∷◌, map, arith,
  if◌then◌else◌, if-split, ◌==◌,
}
use zombiebox_gateway_core.Soloist.Model.{
  Floats, Status, Error, Wait, State, Event, Track, Position, auth_state, playback_state,
  track_changed, playback_changed, device_changed, volume_changed, position_sync, command_result,
  error_event, new, finish_wait, clear_position, clear_track, reset_session, reset_playback,
  matches, begin_session, end_session, observe_local_output, stale_session, disconnected,
  stale_event, malformed, unauthenticated, rejected, invalid_command, pending, next_revision,
}
use zombiebox_gateway_core.Soloist.Position.{set_status, set_position}
use zombiebox_gateway_core.Soloist.Reducer.{
  force_track, with_track, with_position, with_volume, with_activity, relogged, with_login, on_auth,
  on_playback, on_result, on_error, counted, awaits, awaits_command, logged_in, reduce, apply,
  is_stale, is_beyond, position_of, duration_in, is_idle,
}
use zombiebox_gateway_core.Soloist.Control.{
  begin_at, begin_wait, with_wait, is_pending, is_wait, cancel_wait, refusal, controller_command,
}
use zombiebox_gateway_core.Soloist.Steps.{
  Step, begins, ends, applies, hears, awaits_result, cancels, happen, after,
}
use zombiebox_gateway_core.Soloist.Waits.{
  below, AnsweredAt, Answered, finish_wait-Answered, reset_session-Answered,
  reset_playback-Answered, update_track-Answered, force_track-Answered, set_status-Answered,
}

module _ {R : Floats} where
  with_activity-Answered :
      (o : Option Bool) (s : State R) → Answered s → Answered (with_activity o s)
  with_activity-Answered none s v = v
  with_activity-Answered (some active) s v = record { at = v.at }

  with_volume-Answered :
      (o : Option (Option ℕ)) (s : State R) → Answered s → Answered (with_volume o s)
  with_volume-Answered none s v = v
  with_volume-Answered (some none) s v = record { at = v.at }
  with_volume-Answered (some (some n)) s v = record { at = v.at }

  with_track-Answered :
      (o : Option Track) (status : Status) (s : State R)
      → Answered s
      → Answered (with_track o status s)
  with_track-Answered (some t) status s v = update_track-Answered t s v
  with_track-Answered none status s v =
      if-split Answered (is_idle status) (clear_track s) s (λ e. record { at = v.at }) (λ e. v)

  with_position-Answered :
      (o : Option (Position R)) (now : ℕ) (s : State R)
      → Answered s
      → Answered (with_position o now s)
  unfolding set_position
  with_position-Answered none now s v = v
  with_position-Answered (some p) now s v = record { at = v.at }

  on_playback-Answered :
      (activity : Option Bool) (volume : Option (Option ℕ)) (status : Status) (track : Option Track)
      (position : Option (Position R)) (now : ℕ) (s : State R)
      → Answered s
      → Answered (on_playback activity volume status track position now s)
  unfolding on_playback
  on_playback-Answered activity volume status track position now s v =
      let t = with_track track status (with_volume volume (with_activity activity s)) in
      let w =
        with_track-Answered track status _
          (with_volume-Answered volume _ (with_activity-Answered activity s v)) in
      record {
        at =
            (with_position-Answered position now (set_status status now t)
              (set_status-Answered status now t w)).at;
      }

  on_auth-Answered :
      (login active : Bool) (s : State R) → Answered s → Answered (on_auth login active s)
  unfolding on_auth
  on_auth-Answered login active s v =
      let w =
        if-split Answered s.authentication_known (reset_playback unauthenticated s) s
          (λ e. reset_playback-Answered unauthenticated s v) (λ e. v) in
      let u = with_login login (relogged s) in
      if-split Answered login (record u { activity_known = true; active = active })
        (reset_playback unauthenticated u) (λ e. record { at = w.at })
        (λ e. reset_playback-Answered unauthenticated u (record { at = w.at }))

  on_result-Answered :
      (session : ℕ) (command : String) (s : State R)
      → Answered s
      → Answered (on_result session command s)
  unfolding on_result
  on_result-Answered session command s v =
      let w : Answered (counted s) = record { at = v.at } in
      if-split Answered (awaits_command session command s.command_wait)
        (finish_wait none (counted s)) (counted s) (λ e. finish_wait-Answered none (counted s) w)
        (λ e. w)

  on_error-Answered : (session : ℕ) (s : State R) → Answered s → Answered (on_error session s)
  unfolding on_error
  on_error-Answered session s v =
      let t : State R = record s { error_revision = next_revision s.error_revision } in
      let w : Answered t = record { at = v.at } in
      if-split Answered (awaits session s.command_wait) (finish_wait (some rejected) t) t
        (λ e. finish_wait-Answered (some rejected) t w) (λ e. w)

  record AnsweredIn {A : Type 0} (r : State R × A) : Type 0 where
    held : Answered r.0

  logged_in-Answered : (s t : State R) → Answered s → Answered t → AnsweredIn (logged_in s t)
  logged_in-Answered s t v w =
      if-split AnsweredIn (not s.authenticated) (s, some unauthenticated) (t, none)
        (λ e. record { held = v }) (λ e. record { held = w })

  reduce-Answered :
      (session now : ℕ) (e : Event R) (s : State R)
      → Answered s
      → AnsweredIn (reduce session now e s)
  unfolding reduce set_position
  reduce-Answered session now (auth_state login active) s v = record {
    held = on_auth-Answered login active s v;
  }
  reduce-Answered session now (playback_state activity volume status track position) s v =
      logged_in-Answered s _ v (on_playback-Answered activity volume status track position now s v)
  reduce-Answered session now (track_changed t) s v =
      logged_in-Answered s (clear_position (force_track t s)) v
        (record { at = (force_track-Answered t s v).at })
  reduce-Answered session now (playback_changed status) s v =
      logged_in-Answered s _ v (set_status-Answered status now s v)
  reduce-Answered session now (device_changed active) s v =
      logged_in-Answered s _ v (record { at = v.at })
  reduce-Answered session now (volume_changed n) s v =
      logged_in-Answered s _ v (record { at = v.at })
  reduce-Answered session now (position_sync p) s v =
      if-split AnsweredIn (s.authenticated && not s.track_known) (s, some malformed)
        (logged_in s (set_position p now s)) (λ e. record { held = v })
        (λ e. logged_in-Answered s (set_position p now s) v (record { at = v.at }))
  reduce-Answered session now (command_result command) s v = record {
    held = on_result-Answered session command s v;
  }
  reduce-Answered session now error_event s v = record { held = on_error-Answered session s v }

  apply-Answered :
      (session now : ℕ) (e : Event R) (s : State R)
      → Answered s
      → AnsweredIn (apply session now e s)
  unfolding apply
  apply-Answered session now e s v =
      let same : (e : Error) → AnsweredIn (s, some e) = λ e. record { held = v } in
      let past = reduce session now e s in
      let fits : State R × Option Error =
        if is_beyond (position_of e) (duration_in e s) then (s, some malformed) else past in
      let fresh : State R × Option Error =
        if is_stale (position_of e) s then (s, some stale_event) else fits in
      if-split AnsweredIn (not (matches session s)) (s, some stale_session)
        (if not s.connected then (s, some disconnected) else fresh) (λ d. same stale_session)
        λ d.
          if-split AnsweredIn (not s.connected) (s, some disconnected) fresh
            (λ d. same disconnected)
            λ d.
              if-split AnsweredIn (is_stale (position_of e) s) (s, some stale_event) fits
                (λ d. same stale_event)
                λ d.
                  if-split AnsweredIn (is_beyond (position_of e) (duration_in e s))
                    (s, some malformed) past (λ d. same malformed)
                    (λ d. reduce-Answered session now e s v)

  with_wait-Answered :
      (session : ℕ) (command : String) (s : State R)
      → is_pending s.command_wait ≡ false
      → Answered s
      → Answered (with_wait session command s)
  unfolding AnsweredAt
  with_wait-Answered session command s idle v = record {
    at = (free s.command_wait idle v.at, refl);
  }
    where
      free :
          (o : Option Wait)
          → is_pending o ≡ false
          → AnsweredAt o s.results s.waits
          → map (λ (r : ℕ × Option Error). r.0) s.results ≡ below s.waits
      free none h a = a
      free (some w) h a = absurd (ground arith)

  begin_at-Answered :
      (o : Option Error) (session : ℕ) (command : String) (auth : ℕ) (s : State R)
      → Answered s
      → AnsweredIn (begin_at o session command auth s)
  unfolding begin_at
  begin_at-Answered (some e) session command auth s v = record { held = v }
  begin_at-Answered none session command auth s v =
      let begun : State R × Option Error = (with_wait session command s, none) in
      let last : State R × Option Error =
        if is_pending s.command_wait then (s, some pending) else begun in
      if-split AnsweredIn (not (auth == 0) && not (s.auth_revision == auth))
        (s, some unauthenticated)
        (if not (controller_command command) then (s, some invalid_command) else last)
        (λ e. record { held = v })
        λ e.
          if-split AnsweredIn (not (controller_command command)) (s, some invalid_command) last
            (λ e. record { held = v })
            λ e.
              if-split AnsweredIn (is_pending s.command_wait) (s, some pending) begun
                (λ e. record { held = v })
                (λ idle. record { held = with_wait-Answered session command s idle v })

  end_session-Answered :
      (session : ℕ) (s : State R) → Answered s → AnsweredIn (end_session session s)
  unfolding end_session
  end_session-Answered session s v =
      let t : State R = record s { connected = false } in
      if-split AnsweredIn (not (matches session s)) (s, some stale_session) (reset_session t, none)
        (λ e. record { held = v })
        (λ e. record { held = reset_session-Answered t (record { at = v.at }) })

  happen-Answered : (s : State R) (e : Step R) → Answered s → Answered (happen s e)
  unfolding happen begin_session begin_wait cancel_wait observe_local_output
  happen-Answered s begins v = reset_session-Answered _ (record { at = v.at })
  happen-Answered s (ends session) v = (end_session-Answered session s v).held
  happen-Answered s (applies session now e) v = (apply-Answered session now e s v).held
  happen-Answered s (hears now active) v = record { at = v.at }
  happen-Answered s (awaits_result session command auth) v =
      (begin_at-Answered (refusal session s) session command auth s v).held
  happen-Answered s (cancels id reason) v =
      if-split Answered (is_wait id s.command_wait) (finish_wait reason s) s
        (λ e. finish_wait-Answered reason s v) (λ e. v)

  after_from-Answered : (s : State R) (es : List (Step R)) → Answered s → Answered (after s es)
  unfolding after
  after_from-Answered s [] v = v
  after_from-Answered s (e ∷ es) v = after_from-Answered (happen s e) es (happen-Answered s e v)

-- In every order of sessions, frames, observations, waits and cancellations, from the new state:
-- of the waits for an acknowledgment that were begun at most the last one is pending, and each
-- other one has got exactly one result, in the order they were begun.
pub after-Answered : (R : Floats) (es : List (Step R)) → Answered (after (new R) es)
unfolding new AnsweredAt below
after-Answered R es = after_from-Answered (new R) es (record { at = refl })
