-- ===== src/Soloist/Refusals.antt =====
-- soloist_state.go: which frames Apply refuses, and what it leaves then.
use zombiebox_gateway_core.Base.{
  ℕ, ◌<◌, ◌≡◌, refl, ◌⊎◌, inl, inr, true, false, not, ◌&&◌, Option, none, some, arith,
  if◌then◌else◌, if-split, ==_iff,
}
use zombiebox_gateway_core.Soloist.Model.{
  Floats, Error, malformed, stale_session, stale_event, disconnected, unauthenticated, Position,
  State, Event, auth_state, playback_state, track_changed, playback_changed, device_changed,
  volume_changed, position_sync, command_result, error_event, matches,
}
use zombiebox_gateway_core.Soloist.Reducer.{
  position_of, duration_in, is_stale, is_beyond, logged_in, reduce, apply,
}

module _ {R : Floats} where
  -- A position is newer than the last one that was taken.
  abbrev pub Newer : Option (Position R) → State R → Type 0
  Newer none s = Unit
  Newer (some p) s = s.position_timestamp < p.timestamp

  -- The frame is of the current session, which is connected.
  pub record Current (session : ℕ) (e : Event R) (s : State R) : Type 0 where
    pub session_current : session ≡ s.generation
    pub connected : s.connected ≡ true
    pub newer : Newer (position_of e) s

  -- Refused with nothing changed, or taken.
  pub record Checked (session : ℕ) (e : Event R) (s : State R) (r : State R × Option Error)
      : Type 0 where
    pub outcome :
        ((r.0 ≡ s) × ((x : Error) × (r.1 ≡ some x))) ⊎ ((r.1 ≡ none) × Current session e s)

  -- Past the checks of its session a frame is taken, or refused for want of a login or a track.
  record Taken (s : State R) (r : State R × Option Error) : Type 0 where
    result : ((r.0 ≡ s) × ((x : Error) × (r.1 ≡ some x))) ⊎ (r.1 ≡ none)

  logged_in-Taken : (s t : State R) → Taken s (logged_in s t)
  logged_in-Taken s t =
      if-split (Taken s) (not s.authenticated) (s, some unauthenticated) (t, none)
        (λ e. record { result = inl (refl, (unauthenticated, refl)) })
        (λ e. record { result = inr refl })

  reduce-Taken : (session now : ℕ) (e : Event R) (s : State R) → Taken s (reduce session now e s)
  unfolding reduce
  reduce-Taken session now (auth_state login active) s = record { result = inr refl }
  reduce-Taken session now (playback_state activity volume status track position) s =
      logged_in-Taken s _
  reduce-Taken session now (track_changed t) s = logged_in-Taken s _
  reduce-Taken session now (playback_changed status) s = logged_in-Taken s _
  reduce-Taken session now (device_changed active) s = logged_in-Taken s _
  reduce-Taken session now (volume_changed n) s = logged_in-Taken s _
  reduce-Taken session now (position_sync p) s =
      if-split (Taken s) (s.authenticated && not s.track_known) (s, some malformed) _
        (λ e. record { result = inl (refl, (malformed, refl)) }) (λ e. logged_in-Taken s _)
  reduce-Taken session now (command_result command) s = record { result = inr refl }
  reduce-Taken session now error_event s = record { result = inr refl }

  Newer-fresh : (o : Option (Position R)) (s : State R) → is_stale o s ≡ false → Newer o s
  Newer-fresh none s h = tt
  Newer-fresh (some p) s h = ground (arith, h)

  -- Apply refuses a frame and changes nothing, or takes it; and it takes only frames of the current
  -- and connected session, with a position, if there is one, that is newer than the last one taken.
  pub apply-Checked :
      (session now : ℕ) (e : Event R) (s : State R) → Checked session e s (apply session now e s)
  unfolding apply
  apply-Checked session now e s =
      let no_ : (x : Error) → Checked session e s (s, some x) =
        λ x. record { outcome = inl (refl, (x, refl)) } in
      let past = reduce session now e s in
      let fits : State R × Option Error =
        if is_beyond (position_of e) (duration_in e s) then (s, some malformed) else past in
      let fresh : State R × Option Error =
        if is_stale (position_of e) s then (s, some stale_event) else fits in
      if-split (Checked session e s) (not (matches session s)) (s, some stale_session)
        (if not s.connected then (s, some disconnected) else fresh) (λ d. no_ stale_session)
        λ mine.
          if-split (Checked session e s) (not s.connected) (s, some disconnected) fresh
            (λ d. no_ disconnected)
            λ on.
              if-split (Checked session e s) (is_stale (position_of e) s) (s, some stale_event) fits
                (λ d. no_ stale_event)
                λ new_.
                  if-split (Checked session e s) (is_beyond (position_of e) (duration_in e s))
                    (s, some malformed) past (λ d. no_ malformed)
                    λ d. elim (reduce-Taken session now e s).result [
                      | inl x ↦ record { outcome = inl x }
                      | inr x ↦ record {
                        outcome = inr (
                          x,
                          record {
                            session_current =
                                (==_iff session s.generation).0 (ground (arith, mine));
                            connected = ground (arith, on);
                            newer = Newer-fresh (position_of e) s new_;
                          },
                        );
                      }
                    ]
