-- ===== src/MediaQueue/Worker.antt =====
-- The goroutine of one run. Its calls of `start` and `stop` are logged, the newest first.
use zombiebox_gateway_core.Base.{
  ℕ, suc, String, Bool, true, false, not, ◌||◌, List, [], ◌∷◌, if◌then◌else◌,
}
use zombiebox_gateway_core.MediaQueue.Items.{Item}

-- `absent` is the state that `State` gives to a phone that owns no run.
pub data Phase : Type 0 where
  absent preparing playing stopped failed finished : Phase

unfoldable pub active : Phase → Bool
active preparing = true
active playing = true
active _ = false

-- The two injected calls of the goroutine, with the media id.
pub data Call : Type 0 where
  started ended : String → Call

-- Where the goroutine stands, with its local variables.
pub data Point : Type 0 where
  -- the top of the loop: the index and the items left
  at_item : ℕ → List Item → Point
  -- inside `start`
  in_start : String → List Item → Point
  -- at the `select`
  in_select : String → List Item → Point
  -- before `stop` after the `select`, with `advance`
  in_stop : String → List Item → Bool → Point
  -- before `stop` after a start that failed or was cancelled
  in_abort : String → Point
  -- before the deferred function
  returning : Point
  done : Point

pub record Run : Type 0 where
  pub owner : String
  pub id : String
  pub phase : Phase
  pub index : ℕ
  pub count : ℕ
  pub title : String
  pub media_id : String
  -- `ctx.Err() != nil`
  pub cancelled : Bool
  -- whether the buffer of `next` is full
  pub next : Bool
  pub point : Point
  pub log : List Call

-- What the environment answers when the goroutine goes on.
pub data Answer : Type 0 where
  -- `random()`, at the top of the loop
  draw : String → Answer
  -- `start` returns, without an error or with one
  start_returns : Bool → Answer
  -- `select` picks the case of `next`, or that of `ctx.Done()`
  picks_next picks_done : Answer
  -- nothing is asked
  go_on : Answer

-- One step of the goroutine; an answer that does not fit its place leaves it waiting.
unfoldable pub work_at : Point → Answer → Run → Run
work_at (at_item i (item ∷ rest)) (draw media) r =
    if r.cancelled then record r { point = returning } else record r {
      media_id = media;
      index = i;
      title = item.title;
      phase = preparing;
      point = in_start media rest;
      log = started media ∷ r.log;
    }
work_at (at_item i []) go_on r =
    if r.cancelled
    then record r { point = returning }
    else record r { phase = finished; point = returning }
work_at (in_start media rest) (start_returns ok) r =
    if r.cancelled
    then record r { point = in_abort media }
    else if ok
    then record r { phase = playing; point = in_select media rest }
    else record r { phase = failed; point = in_abort media }
work_at (in_select media rest) picks_next r =
    if r.next then record r { next = false; point = in_stop media rest true } else r
work_at (in_select media rest) picks_done r =
    if r.cancelled then record r { point = in_stop media rest false } else r
work_at (in_stop media rest advance) go_on r =
    if not advance || r.cancelled
    then record r { point = returning; log = ended media ∷ r.log }
    else record r { point = at_item (suc r.index) rest; log = ended media ∷ r.log }
work_at (in_abort media) go_on r = record r { point = returning; log = ended media ∷ r.log }
work_at returning go_on r =
    if active r.phase
    then record r { phase = stopped; cancelled = true; point = done }
    else record r { cancelled = true; point = done }
work_at _ _ r = r

unfoldable pub work : Answer → Run → Run
unfolding work_at active
work a r = work_at r.point a r
