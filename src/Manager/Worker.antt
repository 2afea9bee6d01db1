-- ===== src/Manager/Worker.antt =====
-- task_manager.py: the worker thread of a task: `_run_task`, `_failure_info`, `_defer_external`,
-- `_schedule_reconcile`.
use backend_wrf.Base.{
  ℕ, ◌+◌, ◌==◌, string_eq, ℕ_eq, leb, String, Bool, true, false, not, ◌||◌, Option, none, some,
  List, [], ◌∷◌, if◌then◌else◌, any,
}
use backend_wrf.Text.{codes, contains_text}
use backend_wrf.Json.{bool, num, str, Dict, field, get, set}
use backend_wrf.Store.{Task}
use backend_wrf.Store.Tasks.{Env, Changes, no_changes, get_task}
use backend_wrf.Manager.{Manager, has, add, discard, is_final, wrf_succeeded, must_confirm, put}
use backend_wrf.Manager.Dispatch.{Host, dispatch, dispatched}
use backend_wrf.Manager.Needs.{number, or_zero}
use backend_wrf.Manager.Cancel.{dispatch_pending, complete_task_cancellation}

-- `_run_task` up to `_execute`: true if the work begins
unfoldable pub begin_work : String → Manager → Bool × Manager
begin_work id m = elim (get_task id m.store) [
  | none ↦ (false, m)
  | some t ↦
      if is_final t.status || has id m.cancelled
      then (false, m)
      else (true, record m { pending = discard id m.pending; active = add id m.active })
]

-- the `finally` of `_run_task`
unfoldable pub end_work : Env → Host → ℕ → String → Manager → Manager
end_work env h clock id m = dispatch_pending env h clock (record m {
  pending = discard id m.pending;
  active = discard id m.active;
  threads = discard id m.threads;
})

abbrev pub output_stage : String → Bool
output_stage s = s == "downloading_outputs" || s == "rendering" || s == "checking_remote_outputs"

abbrev pub data_stage : String → Bool
data_stage s =
    s == "selecting_cycle"
    || s == "checking_hpc_gfs"
    || s == "waiting_for_hpc_gfs"
    || s == "remote_gfs_ready"
    || s == "data"
    || s == "checking_hpc_forcing"
    || s == "waiting_for_hpc_forcing"
    || s == "waiting_for_forcing_cache"
    || s == "remote_forcing_ready"

abbrev pub configuration_words : List String
configuration_words = "namelist" ∷ "parameter" ∷ "参数" ∷ "配置" ∷ "mismatch" ∷ "inconsisten" ∷ []

-- What `_failure_info` takes from the exception: whether `_is_external_error` holds, the stage of
-- the remote failure if there is one, its message in lower case, and whether
-- `is_namelist_read_failure` holds.
pub record Trouble : Type 0 where
  pub external : Bool
  pub remote_stage : Option String
  pub lowered : List ℕ
  pub namelist_unread : Bool

-- `str((remote_failure or {}).get("stage") or task.get("stage") or "unknown")`
unfoldable pub trouble_stage : Trouble → Task → String
trouble_stage x t = elim x.remote_stage [
  | some s ↦ if s == "" then own t.stage else s
  | none ↦ own t.stage
]
  where
    own : String → String
    own s = if s == "" then "unknown" else s

-- `failure_class` and `recommended_action` of `_failure_info`
unfoldable pub failure_class : Trouble → Task → String × String
failure_class x t =
    if x.external
    then ("external", "resume")
    else if wrf_succeeded t.runtime || output_stage (trouble_stage x t)
    then ("output", "retry_outputs")
    else if data_stage (trouble_stage x t)
    then ("data", "restart")
    else if x.namelist_unread
    then ("configuration_generation", "regenerate_plan")
    else if any (λ w. contains_text x.lowered (codes w)) configuration_words
    then ("configuration", "edit_and_restart")
    else ("model", "edit_and_restart")

-- the dict that `_failure_info` returns, but for the texts `code`, `message`, `remote`, `evidence`,
-- which are in `texts`
unfoldable pub failure_info : Trouble → Dict → Task → Dict
failure_info x texts t = field "failure_class" (str ((failure_class x t).0)) (
    field "stage" (str (trouble_stage x t)) (
      field "recoverable" (bool true)
        (field "recommended_action" (str ((failure_class x t).1)) texts)))

abbrev pub Report : Type 0
Report = Trouble × Dict × String

-- `_defer_external`: the exception's text is the last part of the report; `elapsed` is the time since
-- the first interruption, `since` its text
unfoldable pub defer_external : Env → ℕ → ℕ → String → Report → String → Manager → Manager
defer_external env timeout elapsed since (x, texts, message) id m = elim (get_task id m.store) [
  | none ↦ m
  | some t ↦
      let failure = failure_info x texts t in
      let runtime =
        set "external_retry_count"
          (num (or_zero (number (get "external_retry_count" t.runtime)) + 1))
          (set "external_retry_started_at" (str since) t.runtime) in
      let paused : Changes = record no_changes {
        status = some "paused_external";
        stage = some "paused_external";
        failure = some (some failure);
        error = some (some message);
      } in
      if must_confirm t
      then put env id paused m
      else if leb timeout elapsed
      then put env id (record paused { runtime = some runtime }) m
      else schedule_reconcile (
          put env id
            (record paused {
              status = some "reconciling";
              stage = some "reconciling";
              runtime = some runtime;
            })
            m)
]
  where
    schedule_reconcile : Manager → Manager
    schedule_reconcile u = record u { reconcile_timers = add id u.reconcile_timers }

-- `enqueue`, the function of the timer that `_schedule_reconcile` starts
unfoldable pub enqueue_reconcile : Env → Host → ℕ → String → Manager → Manager
enqueue_reconcile env h clock id m =
    let u : Manager = record m { reconcile_timers = discard id m.reconcile_timers } in
    if not (has id m.reconcile_timers)
    then m
    else if u.stopping || not (is_reconciling (get_task id m.store))
    then u
    else dispatched (dispatch env h clock id u)
  where
    is_reconciling : Option Task → Bool
    is_reconciling none = false
    is_reconciling (some t) = t.status == "reconciling"

-- how `_execute` ends: it returns, it raises `TaskCancelledError`, or it raises something else
pub data Ending : Type 0 where
  returns : Ending
  stops_cancelled : Ending
  raises : Report → Ending

-- an exception that is not an interruption from outside
unfoldable pub give_up : Env → Report → String → Manager → Manager
give_up env (x, texts, message) id m = elim (get_task id m.store) [
  | none ↦ m
  | some t ↦
      put env id
        (record no_changes {
          status = some (if (failure_class x t).0 == "output" then "failed" else "waiting_restart");
          stage = some "failed";
          failure = some (some (failure_info x texts t));
          error = some (some message);
        })
        m
]

-- the `except` clauses of `_run_task`
unfoldable pub after_execute : Env → ℕ → ℕ → String → Ending → String → Manager → Manager
after_execute env timeout elapsed since returns id m = m
after_execute env timeout elapsed since stops_cancelled id m = complete_task_cancellation env id m
after_execute env timeout elapsed since (raises r) id m =
    if has id m.cancelled
    then complete_task_cancellation env id m
    else if (r.0).external
    then defer_external env timeout elapsed since r id m
    else give_up env r id m
