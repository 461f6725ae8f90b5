-- ===== src/Soloist/Waits.antt =====
-- soloist_state.go: which waits have been answered.
pub mod Once
use zombiebox_gateway_core.Base.{
  ℕ, zero, suc, ◌≡◌, refl, sym, ap, ◌∙◌, subst, inl, inr, String, Bool, true, false, not, ◌&&◌,
  ◌||◌, Option, none, some, List, [], ◌∷◌, map, arith, if◌then◌else◌, if-split, ◌==◌, ltb, leb,
  str_eq,
}
use zombiebox_gateway_core.Soloist.Model.{
  Floats, Status, Error, Wait, State, Event, Track, Position, auth_state, playback_state,
  track_changed, playback_changed, device_changed, volume_changed, position_sync, command_result,
  error_event, new, finish_at, finish_wait, clear_position, clear_track, reset_session,
  reset_playback, matches, begin_session, end_session, observe_local_output, stale_session,
  disconnected, stale_event, malformed, unauthenticated, rejected, invalid_command, pending,
  next_revision,
}
use zombiebox_gateway_core.Soloist.Position.{
  set_status, set_position, with_speed, refreshed, rebased, playing_speed, estimated_position,
  is_playing,
}
use zombiebox_gateway_core.Soloist.Reducer.{
  update_track, force_track, with_cover, renewed, with_track, with_position, with_volume,
  with_activity, on_auth, on_playback, on_result, on_error, counted, awaits, awaits_command,
  logged_in, reduce, apply, is_stale, is_beyond, position_of, duration_in, is_idle, merged,
}
use zombiebox_gateway_core.Soloist.Control.{
  begin_at, begin_wait, with_wait, is_pending, is_wait, cancel_wait, refusal, controller_command,
}
use zombiebox_gateway_core.Soloist.Steps.{
  Step, begins, ends, applies, hears, awaits_result, cancels, happen, after,
}

-- The numbers of the first waits, the last one first.
pub below : ℕ → List ℕ
below zero = []
below (suc n) = n ∷ below n

abbrev pub number_of : ℕ × Option Error → ℕ
number_of r = r.0

-- With no wait pending all that were begun have their result, each exactly once and in order; a
-- pending one is the last that was begun.
pub AnsweredAt : Option Wait → List (ℕ × Option Error) → ℕ → Type 0
unfolding below
AnsweredAt none results waits = map number_of results ≡ below waits
AnsweredAt (some w) results waits = (map number_of results ≡ below w.id) × (waits ≡ suc w.id)

module _ {R : Floats} where
  pub record Answered (s : State R) : Type 0 where
    pub at : AnsweredAt s.command_wait s.results s.waits

  finish_at-Answered :
      (o : Option Wait) (reason : Option Error) (s : State R)
      → AnsweredAt o s.results s.waits
      → s.command_wait ≡ o
      → Answered (finish_at o reason s)
  unfolding AnsweredAt below
  finish_at-Answered none reason s a e = record {
    at = subst (λ o. AnsweredAt o s.results s.waits) (sym e) a;
  }
  finish_at-Answered (some w) reason s (a, n) e = record { at = ap (◌∷◌ w.id) a ∙ ap below (sym n) }

  pub finish_wait-Answered :
      (reason : Option Error) (s : State R) → Answered s → Answered (finish_wait reason s)
  unfolding finish_wait
  finish_wait-Answered reason s v = finish_at-Answered s.command_wait reason s v.at refl

  pub reset_session-Answered : (s : State R) → Answered s → Answered (reset_session s)
  unfolding reset_session
  reset_session-Answered s v = record { at = (finish_wait-Answered (some disconnected) s v).at }

  pub reset_playback-Answered :
      (reason : Error) (s : State R) → Answered s → Answered (reset_playback reason s)
  unfolding reset_playback
  reset_playback-Answered reason s v = finish_wait-Answered (some reason) _ (record { at = v.at })

  with_cover-Answered : (t : Track) (s : State R) → Answered s → Answered (with_cover t s)
  unfolding with_cover
  with_cover-Answered t s v =
      if-split Answered t.cover_present _ s (λ e. record { at = v.at }) (λ e. v)

  pub update_track-Answered : (t : Track) (s : State R) → Answered s → Answered (update_track t s)
  unfolding update_track
  update_track-Answered t s v =
      let changed = not s.track_known || not (str_eq s.track_identity t.identity) in
      let u = if-split Answered changed (renewed s) s (λ e. record { at = v.at }) (λ e. v) in
      with_cover-Answered t _ (record { at = u.at })

  pub force_track-Answered : (t : Track) (s : State R) → Answered s → Answered (force_track t s)
  unfolding force_track
  force_track-Answered t s v = with_cover-Answered t _ (record { at = v.at })

  with_speed-Answered :
      (status : Status) (s : State R) → Answered s → Answered (with_speed status s)
  unfolding with_speed
  with_speed-Answered status s v =
      let slow : State R = record s {
        resume_speed = s.position_speed;
        position_speed = R.zero_speed;
      } in
      if-split Answered (is_playing status) _ (if R.positive s.position_speed then slow else s)
        (λ e. record { at = v.at })
        λ e.
          if-split Answered (R.positive s.position_speed) slow s (λ d. record { at = v.at })
            (λ d. v)

  pub set_status-Answered :
      (status : Status) (now : ℕ) (s : State R) → Answered s → Answered (set_status status now s)
  unfolding set_status
  set_status-Answered status now s v =
      let at = if s.position_known then (estimated_position now s).at else s.position_ms in
      let fresh =
        if-split Answered (s.position_known && not (estimated_position now s).usable)
          (clear_position s) s (λ e. record { at = v.at }) (λ e. v) in
      let u = with_speed status (refreshed now s) in
      let fast = with_speed-Answered status (refreshed now s) fresh in
      let r =
        if-split Answered u.position_known (record u { position_ms = at; position_received = now })
          u (λ e. record { at = fast.at }) (λ e. fast) in
      record { at = r.at }
