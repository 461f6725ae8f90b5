-- ===== src/Soloist/Steps.antt =====
-- soloist_state.go: every order of sessions, frames, observations and waits.
use zombiebox_gateway_core.Base.{ℕ, String, Bool, Option, List, [], ◌∷◌}
use zombiebox_gateway_core.Soloist.Model.{
  Floats, Error, State, Event, begin_session, end_session, observe_local_output,
}
use zombiebox_gateway_core.Soloist.Reducer.{apply}
use zombiebox_gateway_core.Soloist.Control.{begin_wait, cancel_wait}

-- Sessions are named by their generation, and waits by their number.
pub data Step (R : Floats) : Type 0 where
  begins : Step R
  ends : ℕ → Step R
  applies : ℕ → ℕ → Event R → Step R
  hears : ℕ → Bool → Step R
  awaits_result : ℕ → String → ℕ → Step R
  cancels : ℕ → Option Error → Step R

module _ {R : Floats} where
  unfoldable pub happen : State R → Step R → State R
  unfolding begin_session end_session apply observe_local_output begin_wait cancel_wait
  happen s begins = (begin_session s).0
  happen s (ends session) = (end_session session s).0
  happen s (applies session now e) = (apply session now e s).0
  happen s (hears now active) = observe_local_output now active s
  happen s (awaits_result session command auth) = (begin_wait session command auth s).0
  happen s (cancels id reason) = cancel_wait id reason s

  unfoldable pub after : State R → List (Step R) → State R
  after s [] = s
  after s (e ∷ es) = after (happen s e) es
