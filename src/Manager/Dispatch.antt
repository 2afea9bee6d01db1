-- ===== src/Manager/Dispatch.antt =====
-- task_manager.py: `_dispatch`, which starts the worker thread of a task.
-- Numbers in JSON are natural, so a decomposition of -1 is a missing one. A request that has been
-- stored has passed the schemas: its domains have their sizes.
pub mod Admitted
use backend_wrf.Base.{
  ℕ, suc, ◌+◌, ◌*◌, ◌/◌, ◌==◌, string_eq, ℕ_eq, nat_eq, ltb, leb, String, Bool, true, false, not,
  ◌&&◌, ◌||◌, any, length, Option, none, some, List, [], ◌∷◌, ◌++◌, if◌then◌else◌,
}
use backend_wrf.Json.{
  Json, num, bool, arr, obj, nil, cons, Items, Dict, empty, field, get, str, null, truthy?,
}
use backend_wrf.Table.{Table}
use backend_wrf.Store.{Store, Task}
use backend_wrf.Store.Tasks.{Env, get_task}
use backend_wrf.Manager.{Manager, has, add, discard, terminal_seen, wrf_succeeded, merge_runtime}
use backend_wrf.Manager.Needs.{
  Need, budget_of, compute_budget, entries, grid_of, grids, items_of, levels_of, need_of, number,
  or_zero, total_need,
}
use backend_wrf.Manager.Budget.{Grid, Layout, mpi_budget, memory_bytes}

-- the settings and the observation of the host that `_dispatch` reads
pub record Host : Type 0 where
  pub max_concurrent : ℕ
  pub processes : ℕ
  pub cpu_headroom : ℕ
  pub memory_headroom_bytes : ℕ
  pub is_hpc : Bool
  pub is_ready : Bool
  pub cpu_count : ℕ
  pub memory_available_mb : ℕ

-- `running`, `rendering`, ...: the statuses in which a remote attempt may be under way
unfoldable pub may_run : String → Bool
may_run s =
    s == "running"
    || s == "rendering"
    || s == "reconciling"
    || s == "cancel_pending"
    || s == "paused_external"
    || s == "waiting_restart"

-- the test of the loop over these tasks
unfoldable pub holds_slot : Task → Bool
holds_slot t =
    may_run t.status
    && truthy? (get "remote_launch_attempted" t.runtime)
    && not (wrf_succeeded t.runtime)
    && not (terminal_seen t.runtime)

unfoldable pub slots : Table String Task → List String → List String
slots [] ids = ids
slots ((id, t) ∷ tasks) ids = slots tasks (if holds_slot t then add id ids else ids)

-- `occupied`
unfoldable pub occupied : String → Manager → List String
occupied id m = discard id (slots m.store.tasks m.threads)

-- `legacy_supervisor`
unfoldable pub legacy_supervisor : Task → Bool
legacy_supervisor t =
    truthy? (get "release_id" t.runtime)
    && not (
        truthy? (get "supervisor_release_id" t.runtime)
        && truthy? (get "supervisor_fingerprint" t.runtime))

-- `other`: the tasks of the ids that are still stored
unfoldable pub tasks_of : Store → List String → List Task
tasks_of s [] = []
tasks_of s (id ∷ ids) = elim (get_task id s) [ none ↦ tasks_of s ids | some t ↦ t ∷ tasks_of s ids ]

pub data Room : Type 0 where
  room : Need → Room
  no_room : String → Room
  raises : Room

-- `reason`
unfoldable pub compare_need : Host → Need → Need → Room
compare_need h total own =
    if not h.is_ready
    then no_room "等待有效资源观测"
    else if ltb h.cpu_count (total.mpi_processes + own.mpi_processes + h.cpu_headroom)
    then no_room "CPU预留不足"
    else if ltb (h.memory_available_mb * 1048576)
        (total.memory + own.memory + h.memory_headroom_bytes)
    then no_room "可用内存不足，等待预留释放"
    else room own

abbrev pub is_empty_list : List String → Bool
is_empty_list [] = true
is_empty_list (x ∷ xs) = false

-- the branch for several tasks at once
unfoldable pub shared_room : Host → Task → List String → Store → Room
shared_room h t ids s =
    let others = tasks_of s ids in
    if legacy_supervisor t && not (is_empty_list ids) || any legacy_supervisor others
    then no_room "原发布任务保持串行，等待其资源释放"
    else elim (compute_budget t.request h.processes) [
      | none ↦ raises
      | some own ↦ elim (total_need h.processes others) [
        | none ↦ raises
        | some total ↦ compare_need h total own
      ]
    ]

abbrev pub wait_for : String → Dict
wait_for reason = field "resource_wait_reason" (str reason) empty

abbrev pub admitted : Need → Dict
admitted n = field "resource_budget" (obj n.budget) (field "resource_wait_reason" null empty)

abbrev pub slot_reason : Host → String
slot_reason h = if ltb 1 h.max_concurrent then "计算名额已占用（最多4个任务）" else "等待执行名额"

-- what `_dispatch` returns, or that it raises, and the state it leaves
pub data Dispatched : Type 0 where
  launches : Manager → Dispatched
  declines : Manager → Dispatched
  fails : Manager → Dispatched

abbrev pub dispatched : Dispatched → Manager
dispatched (launches m) = m
dispatched (declines m) = m
dispatched (fails m) = m

unfoldable pub start_thread : String → Manager → Manager
start_thread id m = record m { threads = add id m.threads; pending = add id m.pending }

-- the branch of a queued task
unfoldable pub dispatch_queued : Env → Host → ℕ → String → Task → Manager → Dispatched
dispatch_queued env h clock id t m =
    if ltb clock (or_zero (number (get "resource_retry_at" t.runtime)))
    then declines m
    else if leb h.max_concurrent (length (occupied id m))
    then declines (merge_runtime env id (wait_for (slot_reason h)) m)
    else if ltb 1 h.max_concurrent && h.is_hpc
    then elim (shared_room h t (occupied id m) m.store) [
      | raises ↦ fails m
      | no_room reason ↦ declines (merge_runtime env id (wait_for reason) m)
      | room own ↦ launches (start_thread id (merge_runtime env id (admitted own) m))
    ]
    else launches (start_thread id m)

unfoldable pub is_over : String → Bool
is_over s = s == "succeeded" || s == "failed" || s == "cancelled"

-- `_dispatch`, `clock` being `time.time()`
unfoldable pub dispatch : Env → Host → ℕ → String → Manager → Dispatched
dispatch env h clock id m =
    if not m.started || has id m.threads || m.stopping
    then declines m
    else let p : Manager = record m { pending = add id m.pending } in
      elim (get_task id m.store) [
        | none ↦ declines (record p { pending = discard id p.pending })
        | some t ↦
            if is_over t.status
            then declines (record p { pending = discard id p.pending })
            else if t.status == "queued"
            then dispatch_queued env h clock id t p
            else if t.status == "reconciling" && has id p.reconcile_timers
            then declines p
            else launches (start_thread id p)
      ]
