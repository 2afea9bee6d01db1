-- ===== src/Manager/Attempts/Laws.antt =====
-- task_manager.py: the state after an operation that ends with `_dispatch`.
use backend_wrf.Base.{ℕ, ◌≡◌, refl, String, Option}
use backend_wrf.Store.{Task}
use backend_wrf.Store.Tasks.{Env}
use backend_wrf.Manager.{Manager, other_error}
use backend_wrf.Manager.Dispatch.{Host, Dispatched, launches, declines, fails, dispatch, dispatched}
use backend_wrf.Manager.Attempts.{taken, stopped, state_left, and_dispatch}

state_left-dispatched :
    (answer : Manager → Option Task) (d : Dispatched)
    → state_left (elim d [
      | launches u ↦ taken (answer u) u
      | declines u ↦ taken (answer u) u
      | fails u ↦ stopped other_error u
    ])
      ≡ dispatched d
state_left-dispatched answer (launches u) = refl
state_left-dispatched answer (declines u) = refl
state_left-dispatched answer (fails u) = refl

pub state_left-and_dispatch :
    (env : Env) (h : Host) (clock : ℕ) (id : String) (answer : Manager → Option Task) (m : Manager)
    → state_left (and_dispatch env h clock id answer m) ≡ dispatched (dispatch env h clock id m)
unfolding and_dispatch
state_left-and_dispatch env h clock id answer m =
    state_left-dispatched answer (dispatch env h clock id m)
