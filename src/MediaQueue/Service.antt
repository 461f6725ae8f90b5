-- ===== src/MediaQueue/Service.antt =====
-- The methods of the service.
use zombiebox_gateway_core.Base.{
  ℕ, String, Bool, true, false, not, ◌&&◌, ◌||◌, Option, List, [], ◌∷◌, length, if◌then◌else◌,
  str_eq,
}
use zombiebox_gateway_core.MediaQueue.Items.{Item, Url, validate}
use zombiebox_gateway_core.MediaQueue.Worker.{
  Phase, absent, preparing, stopped, active, Run, at_item,
}

-- The current run, if any, stands first.
pub record Service : Type 0 where
  pub closed : Bool
  pub runs : List Run

abbrev pub empty : Service
empty = record { closed = false; runs = [] }

abbrev pub new_run : String → String → List Item → Run
new_run owner id items = record {
  owner = owner;
  id = id;
  phase = preparing;
  index = 0;
  count = length items;
  title = "";
  media_id = "";
  cancelled = false;
  next = false;
  point = at_item 0 items;
  log = [];
}

-- `s.current != nil && s.current.owner == owner && s.current.state.ID == id`
abbrev pub is_current : String → String → List Run → Bool
is_current owner id [] = false
is_current owner id (r ∷ rs) = str_eq r.owner owner && str_eq r.id id

abbrev pub current_active : List Run → Bool
current_active [] = false
current_active (r ∷ rs) = active r.phase

module _ (parse : String → Option Url) where
  unfoldable pub start : String → String → List Item → Service → Service × Bool
  start owner id items s =
      if s.closed || not (validate parse items)
      then (s, false)
      else if is_current owner id s.runs
      then (s, true)
      else if current_active s.runs
      then (s, false)
      else (record s { runs = new_run owner id items ∷ s.runs }, true)

unfoldable pub busy : Service → Bool
busy s = current_active s.runs

-- The visible state of a run.
pub record State : Type 0 where
  pub id : String
  pub phase : Phase
  pub index : ℕ
  pub count : ℕ
  pub title : String

abbrev pub no_state : State
no_state = record { id = ""; phase = absent; index = 0; count = 0; title = "" }

abbrev pub state_of : Run → State
state_of r = record {
  id = r.id;
  phase = r.phase;
  index = r.index;
  count = r.count;
  title = r.title;
}

state_in : String → List Run → State
state_in owner [] = no_state
state_in owner (r ∷ rs) = if str_eq r.owner owner then state_of r else no_state

unfoldable pub state : String → Service → State
unfolding state_in
state owner s = state_in owner s.runs

-- What a method does to the current run.
abbrev pub on_current : (Run → Run) → List Run → List Run
on_current f [] = []
on_current f (r ∷ rs) = f r ∷ rs

abbrev pub stop_run : Run → Run
stop_run r = record r { phase = stopped; cancelled = true }

abbrev pub advance_run : Run → Run
advance_run r = record r { media_id = ""; next = true }

unfoldable pub complete_run : String → String → Bool → Run → Run
complete_run owner media advance r =
    if not (str_eq r.owner owner) || not (str_eq r.media_id media) || not (active r.phase)
    then r
    else if not advance
    then stop_run r
    else advance_run r

unfoldable pub complete : String → String → Bool → Service → Service
complete owner media advance s = record s {
  runs = on_current (complete_run owner media advance) s.runs;
}

unfoldable pub cancel_run : String → Run → Run
cancel_run owner r = if str_eq r.owner owner && active r.phase then stop_run r else r

unfoldable pub cancel : String → Service → Service
cancel owner s = record s { runs = on_current (cancel_run owner) s.runs }

-- `Close`, up to the wait for the goroutines.
unfoldable pub close : Service → Service
close s = record s { closed = true; runs = on_current stop_run s.runs }

owner_in : List Run → String
owner_in [] = ""
owner_in (r ∷ rs) = if active r.phase then r.owner else ""

unfoldable pub owner_of : Service → String
unfolding owner_in
owner_of s = owner_in s.runs
