-- ===== src/Manager/Start.antt =====
-- task_manager.py: `start`. The threads that it starts beside the tasks' workers, and `_log`, are left
-- out; what the workers do meanwhile comes as later steps.
use backend_wrf.Base.{
  ℕ, ◌==◌, string_eq, String, Bool, true, false, not, ◌||◌, some, List, [], ◌∷◌, if◌then◌else◌,
}
use backend_wrf.Text.{codes}
use backend_wrf.Table.{Table}
use backend_wrf.Store.{Task}
use backend_wrf.Store.Interrupted.{recover_interrupted_operations}
use backend_wrf.Store.Tasks.{Env, Changes, no_changes}
use backend_wrf.Manager.{Manager, add, launched, put}
use backend_wrf.Manager.Dispatch.{Host, launches, declines, fails, dispatch}
use backend_wrf.Manager.Cancel.{start_remote_cancel, cancelled_now}
use backend_wrf.Pool.Pick.{text_lt}

-- ACTIVE_STATES of database.py
unfoldable pub is_active : String → Bool
is_active s =
    s == "queued"
    || s == "prefetching"
    || s == "uploading"
    || s == "running"
    || s == "rendering"
    || s == "cancel_pending"
    || s == "reconciling"

abbrev pub Entry : Type 0
Entry = String × Task

-- `ORDER BY created_at`, where equal times keep the order of the rows
unfoldable pub insert_by_time : Entry → List Entry → List Entry
insert_by_time a [] = a ∷ []
insert_by_time a (b ∷ bs) =
    let rest = insert_by_time a bs in
    if text_lt (codes ((b.1).created_at)) (codes ((a.1).created_at)) then b ∷ rest else a ∷ b ∷ bs

-- `active`
unfoldable pub active : Table String Task → List Entry
active [] = []
active ((id, t) ∷ tasks) =
    let rest = active tasks in if is_active t.status then insert_by_time (id, t) rest else rest

abbrev pub reconciles_again : Changes
reconciles_again = record no_changes { status = some "reconciling"; stage = some "reconciling" }

-- The loop over the active tasks: false if `_dispatch` raises, which ends `start`. The status of a
-- task is the one read before the loop.
unfoldable pub start_tasks : Env → Host → ℕ → List Entry → Manager → Bool × Manager
start_tasks env h clock [] m = (true, m)
start_tasks env h clock ((id, t) ∷ later) m =
    if t.status == "cancel_pending"
    then start_tasks env h clock later (record m { cancelled = add id m.cancelled })
    else elim (dispatch env h clock id
        (if t.status == "queued" then m else put env id reconciles_again m)) [
          | launches u ↦ start_tasks env h clock later u
          | declines u ↦ start_tasks env h clock later u
          | fails u ↦ (false, u)
        ]

-- one task of the loop over `pending_cancellations`
unfoldable pub finish_cancel : Env → Entry → Manager → Manager
finish_cancel env (id, t) m =
    if not (t.status == "cancel_pending")
    then m
    else if launched t.runtime
    then start_remote_cancel id m
    else put env id cancelled_now m

unfoldable pub finish_cancels : Env → List Entry → Manager → Manager
finish_cancels env [] m = m
finish_cancels env (a ∷ later) m = finish_cancels env later (finish_cancel env a m)

-- `start`; `stamp` is the time that `recover_interrupted_operations` notes
unfoldable pub start : Env → Host → ℕ → ℕ → Manager → Manager
start env h clock stamp m =
    if m.started
    then m
    else let u : Manager = record m {
      started = true;
      stopping = false;
      store = recover_interrupted_operations stamp m.store;
    } in
      let items = active u.store.tasks in
      let v = start_tasks env h clock items u in if v.0 then finish_cancels env items (v.1) else v.1
