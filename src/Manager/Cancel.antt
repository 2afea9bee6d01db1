-- ===== src/Manager/Cancel.antt =====
-- task_manager.py: `cancel` and the observation of a cancellation. A reply of the HPC client is an
-- argument. `_log` and the event for the cleanup thread are left out.
pub mod Keeps
pub mod Turns
use backend_wrf.Base.{
  ℕ, ◌+◌, ◌==◌, string_eq, ℕ_eq, nat_eq, String, Bool, true, false, not, ◌&&◌, ◌||◌, Option, none,
  some, List, [], ◌∷◌, if◌then◌else◌,
}
use backend_wrf.Text.{codes}
use backend_wrf.Json.{Json, str, Dict, empty, field, get, same?}
use backend_wrf.Table.{Table}
use backend_wrf.Store.{Store, Task}
use backend_wrf.Store.Tasks.{Env, Changes, no_changes, get_task}
use backend_wrf.Manager.{
  Manager, Outcome, did, refused, not_found, has, add, discard, is_final, is_terminal_text,
  terminal_seen, launched, wrf_succeeded, put, merge_runtime,
}
use backend_wrf.Manager.Dispatch.{Host, Dispatched, launches, declines, fails, dispatch}
use backend_wrf.Pool.Pick.{text_lt}

-- `(item.get('created_at',''), item['id'])`
abbrev pub Turn : Type 0
Turn = String × String

unfoldable pub before_turn : Turn → Turn → Bool
before_turn a b = text_lt (codes a.0) (codes b.0) || a.0 == b.0 && text_lt (codes a.1) (codes b.1)

unfoldable pub insert_turn : Turn → List Turn → List Turn
insert_turn a [] = a ∷ []
insert_turn a (b ∷ bs) =
    let rest = insert_turn a bs in if before_turn b a then b ∷ rest else a ∷ b ∷ bs

-- the tasks with the status `queued` or `reconciling`, sorted
unfoldable pub turns : Table String Task → List Turn
turns [] = []
turns ((id, t) ∷ tasks) =
    let rest = turns tasks in
    if t.status == "queued" || t.status == "reconciling"
    then insert_turn (t.created_at, id) rest
    else rest

-- the loop of `_dispatch_pending`, which an exception ends
unfoldable pub dispatch_all : Env → Host → ℕ → List Turn → Manager → Manager
dispatch_all env h clock [] m = m
dispatch_all env h clock (a ∷ as_later) m = elim (dispatch env h clock (a.1) m) [
  | launches u ↦ dispatch_all env h clock as_later u
  | declines u ↦ dispatch_all env h clock as_later u
  | fails u ↦ u
]

-- `_dispatch_pending`
unfoldable pub dispatch_pending : Env → Host → ℕ → Manager → Manager
dispatch_pending env h clock m = dispatch_all env h clock (turns m.store.tasks) m

-- `unresolved_attempt`
unfoldable pub unresolved : Dict → Bool
unresolved r = launched r && not (wrf_succeeded r || terminal_seen r)

abbrev pub cancelled_now : Changes
cancelled_now = record no_changes {
  status = some "cancelled";
  stage = some "cancelled";
  error = some none;
}

abbrev pub cancel_waits : Changes
cancel_waits = record no_changes {
  status = some "cancel_pending";
  stage = some "cancel_pending";
  error = some none;
}

-- `_start_remote_cancel`
unfoldable pub start_remote_cancel : String → Manager → Manager
start_remote_cancel id m = if has id m.cancel_threads then m else record m {
  cancel_timers = discard id m.cancel_timers;
  cancel_threads = add id m.cancel_threads;
}

abbrev pub mark_cancelled : String → Manager → Manager
mark_cancelled id m = record m { cancelled = add id m.cancelled }

-- the block of `cancel` under `_state_lock`, for a task that it does not return at once
unfoldable pub cancel_task : Env → String → Task → Manager → Manager
cancel_task env id t m =
    if launched t.runtime
    then put env id cancel_waits (mark_cancelled id m)
    else put env id (record cancelled_now { progress = some t.progress })
        (record (mark_cancelled id m) { pending = discard id m.pending })

-- `cancel`
unfoldable pub cancel : Env → Host → ℕ → String → Manager → Outcome (Option Task)
cancel env h clock id m = elim (get_task id m.store) [
  | none ↦ refused not_found
  | some t ↦
      if is_final t.status && not (unresolved t.runtime)
      then did (some t) m
      else let u = cancel_task env id t m in
        let v =
          if launched t.runtime then start_remote_cancel id u else dispatch_pending env h clock u in
        did (get_task id v.store) v
]

-- `(task.get("attempt_no"), runtime.get("launch_attempt"))`
abbrev pub Binding : Type 0
Binding = ℕ × Option Json

unfoldable pub bound_to : Binding → Task → Bool
bound_to b t = nat_eq t.attempt_no (b.0) && same? (get "launch_attempt" t.runtime) (b.1)

abbrev pub terminal_status : String → Dict
terminal_status s = field "remote_terminal_status" (str s) empty

-- `_record_cancel_observation`, `doubt` being the text of the error that it stores otherwise
unfoldable pub record_cancel_observation :
    Env → String → String → String → Binding → Manager → Manager
record_cancel_observation env doubt id status b m = elim (get_task id m.store) [
  | none ↦ m
  | some t ↦
      if not (t.status == "cancel_pending") || not (bound_to b t)
      then m
      else if is_terminal_text status
      then merge_runtime env id (terminal_status status) (put env id cancelled_now m)
      else put env id (record no_changes { error = some (some doubt) }) m
]

-- the end of `_schedule_cancel_reconcile`
unfoldable pub schedule_cancel_reconcile : String → Manager → Manager
schedule_cancel_reconcile id m = elim (get_task id m.store) [
  | none ↦ m
  | some t ↦
      if not m.started || m.stopping || not (t.status == "cancel_pending") || has id m.cancel_timers
      then m
      else record m { cancel_timers = add id m.cancel_timers }
]

-- `_remote_cancel` from the last reply on (`unknown` after an exception), given the binding that it
-- read before the first call
unfoldable pub end_remote_cancel :
    Env → Host → ℕ → String → String → String → Binding → Manager → Manager
end_remote_cancel env h clock doubt id status b m =
    let u = record_cancel_observation env doubt id status b m in
    let v : Manager = record u { cancel_threads = discard id u.cancel_threads } in
    dispatch_pending env h clock (schedule_cancel_reconcile id v)

-- `observe`, the timer's function, up to the call of the client: true if it goes on. The binding is
-- read then.
unfoldable pub begin_observe : String → Manager → Bool × Manager
begin_observe id m = if not (has id m.cancel_timers) then (false, m) else (
  not m.stopping && is_pending (get_task id m.store),
  record m { cancel_timers = discard id m.cancel_timers },
)
  where
    is_pending : Option Task → Bool
    is_pending none = false
    is_pending (some t) = t.status == "cancel_pending"

-- `observe` from the reply on
unfoldable pub end_observe : Env → Host → ℕ → String → String → String → Binding → Manager → Manager
end_observe env h clock doubt id status b m =
    let u = record_cancel_observation env doubt id status b m in
    dispatch_pending env h clock (schedule_cancel_reconcile id u)

-- `_complete_task_cancellation`
unfoldable pub complete_task_cancellation : Env → String → Manager → Manager
complete_task_cancellation env id m = elim (get_task id m.store) [
  | none ↦ m
  | some t ↦
      if is_final t.status
      then m
      else if launched t.runtime
      then start_remote_cancel id (
          put env id
            (record no_changes { status = some "cancel_pending"; stage = some "cancel_pending" }) m)
      else put env id cancelled_now m
]
