-- ===== src/Soloist/Login.antt =====
-- soloist_state.go: what is kept without a login, and whose cover is shown.
pub mod Always
use zombiebox_gateway_core.Base.{
  ℕ, zero, suc, ◌≡◌, ◌⊎◌, refl, sym, ap, ◌∙◌, subst, inl, inr, String, Bool, true, false, not, ◌&&◌,
  ◌||◌, Option, none, some, List, [], ◌∷◌, map, arith, if◌then◌else◌, if-split, ◌==◌, ltb, leb,
  str_eq,
}
use zombiebox_gateway_core.Soloist.Model.{
  Floats, Status, idle, Error, Cover, Metadata, Wait, State, Event, Track, Position, auth_state,
  playback_state, track_changed, playback_changed, device_changed, volume_changed, position_sync,
  command_result, error_event, new, finish_at, finish_wait, clear_position, clear_track,
  reset_session, reset_playback, matches, silenced, begin_session, end_session,
  observe_local_output, stale_session, disconnected, stale_event, malformed, unauthenticated,
  rejected, invalid_command, pending, next_revision,
}
use zombiebox_gateway_core.Soloist.Position.{
  set_status, set_position, with_speed, refreshed, rebased, playing_speed, estimated_position,
  is_playing,
}
use zombiebox_gateway_core.Soloist.Reducer.{
  update_track, force_track, with_cover, renewed, with_track, with_position, with_volume,
  with_activity, on_auth, on_playback, on_result, on_error, counted, awaits, awaits_command,
  logged_in, reduce, apply, is_stale, is_beyond, position_of, duration_in, is_idle, merged, stamped,
}
use zombiebox_gateway_core.Soloist.Control.{
  begin_at, begin_wait, with_wait, is_pending, is_wait, cancel_wait, refusal, controller_command,
}
use zombiebox_gateway_core.Soloist.Steps.{
  Step, begins, ends, applies, hears, awaits_result, cancels, happen, after,
}

-- A cover carries the session and the track revision.
pub CoverAt : Option Cover → ℕ → ℕ → Type 0
CoverAt none generation revision = Unit
CoverAt (some c) generation revision = (c.session ≡ generation) × (c.track_revision ≡ revision)

stamped-CoverAt : (g r : ℕ) (o : Option Cover) → CoverAt (stamped g r o) g r
unfolding CoverAt
stamped-CoverAt g r none = tt
stamped-CoverAt g r (some c) = (refl, refl)

-- Nothing of the playback is kept in these fields.
pub record SilentAt (active_ : Bool) (status_ : Status) (track_ : Option Metadata)
    (volume_ position_ : Bool) (cover_ : Option Cover) : Type 0 where
  pub active : active_ ≡ false
  pub status : status_ ≡ idle
  pub track : track_ ≡ none
  pub volume : volume_ ≡ false
  pub position : position_ ≡ false
  pub cover : cover_ ≡ none

abbrev pub silence : SilentAt false idle none false false none
silence = record {
  active = refl;
  status = refl;
  track = refl;
  volume = refl;
  position = refl;
  cover = refl;
}

module _ {R : Floats} where
  abbrev pub Silent : State R → Type 0
  Silent s = SilentAt s.active s.status s.track s.volume_known s.position_known s.cover

  pub record Safe (s : State R) : Type 0 where
    pub quiet : (s.authenticated ≡ true) ⊎ Silent s
    pub cover : CoverAt s.cover s.generation s.track_revision

  -- With a login.
  pub record Live (s : State R) : Type 0 where
    pub login : s.authenticated ≡ true
    pub cover : CoverAt s.cover s.generation s.track_revision

  pub Live-Safe : (s : State R) → Live s → Safe s
  Live-Safe s v = record { quiet = inl v.login; cover = v.cover }

  finish_at-Safe :
      (o : Option Wait) (reason : Option Error) (s : State R) → Safe s → Safe (finish_at o reason s)
  finish_at-Safe none reason s v = v
  finish_at-Safe (some w) reason s v = record { quiet = v.quiet; cover = v.cover }

  pub finish_wait-Safe :
      (reason : Option Error) (s : State R) → Safe s → Safe (finish_wait reason s)
  unfolding finish_wait
  finish_wait-Safe reason s v = finish_at-Safe s.command_wait reason s v

  pub reset_session-Safe : (s : State R) → Safe (reset_session s)
  unfolding reset_session CoverAt
  reset_session-Safe s = record { quiet = inr silence; cover = tt }

  pub reset_playback-Safe : (reason : Error) (s : State R) → Safe (reset_playback reason s)
  unfolding reset_playback CoverAt
  reset_playback-Safe reason s =
      finish_wait-Safe (some reason) (silenced s) (record { quiet = inr silence; cover = tt })

  with_cover-Live : (t : Track) (s : State R) → Live s → Live (with_cover t s)
  unfolding with_cover
  with_cover-Live t s v =
      if-split Live t.cover_present _ s
        (λ e. record {
          login = v.login;
          cover = stamped-CoverAt s.generation s.track_revision t.cover;
        })
        (λ e. v)

  pub update_track-Live : (t : Track) (s : State R) → Live s → Live (update_track t s)
  unfolding update_track CoverAt
  update_track-Live t s v =
      let changed = not s.track_known || not (str_eq s.track_identity t.identity) in
      let u =
        if-split Live changed (renewed s) s (λ e. record { login = v.login; cover = tt })
          (λ e. v) in
      with_cover-Live t _ (record { login = u.login; cover = u.cover })

  pub force_track-Live : (t : Track) (s : State R) → Live s → Live (force_track t s)
  unfolding force_track CoverAt
  force_track-Live t s v = with_cover-Live t _ (record { login = v.login; cover = tt })

  with_speed-Live : (status : Status) (s : State R) → Live s → Live (with_speed status s)
  unfolding with_speed
  with_speed-Live status s v =
      let slow : State R = record s {
        resume_speed = s.position_speed;
        position_speed = R.zero_speed;
      } in
      if-split Live (is_playing status) _ (if R.positive s.position_speed then slow else s)
        (λ e. record { login = v.login; cover = v.cover })
        λ e.
          if-split Live (R.positive s.position_speed) slow s
            (λ d. record { login = v.login; cover = v.cover }) (λ d. v)

  pub set_status-Live :
      (status : Status) (now : ℕ) (s : State R) → Live s → Live (set_status status now s)
  unfolding set_status
  set_status-Live status now s v =
      let at = if s.position_known then (estimated_position now s).at else s.position_ms in
      let fresh =
        if-split Live (s.position_known && not (estimated_position now s).usable) (clear_position s)
          s (λ e. record { login = v.login; cover = v.cover }) (λ e. v) in
      let u = with_speed status (refreshed now s) in
      let fast = with_speed-Live status (refreshed now s) fresh in
      let r =
        if-split Live u.position_known (record u { position_ms = at; position_received = now }) u
          (λ e. record { login = fast.login; cover = fast.cover }) (λ e. fast) in
      record { login = r.login; cover = r.cover }
