-- ===== src/Manager/Remote.antt =====
-- task_manager.py: what a worker does with the remote attempt: `_merge_remote_profile`, `_reconcile`,
-- and the launch in `_execute`.
use backend_wrf.Base.{
  ℕ, ◌==◌, string_eq, ℕ_eq, String, Bool, true, false, not, ◌&&◌, Option, none, some, if◌then◌else◌,
}
use backend_wrf.Json.{Json, null, bool, num, str, Dict, empty, field, get, truthy?}
use backend_wrf.Store.{Task}
use backend_wrf.Store.Tasks.{Env, Changes, no_changes, get_task, or_json}
use backend_wrf.Manager.{Manager, has, is_terminal_text, launched, put, merge_runtime}
use backend_wrf.Manager.Cancel.{start_remote_cancel, terminal_status}

-- the values for the profile that ran
unfoldable pub profile_values : Dict → Dict
profile_values p = field "requested_runtime_profile" (or_json (get "requested" p) (str "cpu")) (
    field "active_runtime_profile" (or_json (get "actual" p) null) (
      field "fallback_used" (bool (truthy? (get "fallback_used" p))) (
        field "fallback_reason"
          (if truthy? (get "fallback_used" p) then str "gpu_runtime_error" else null) empty)))

-- `_merge_remote_profile`: the status of the reply and its `runtime_profile`, `empty` if it is not a
-- dict
unfoldable pub merge_remote_profile : Env → String → String → Dict → Manager → Manager
merge_remote_profile env id status profile m =
    let u =
      if is_terminal_text status then merge_runtime env id (terminal_status status) m else m in
    if truthy? (get "actual" profile) then merge_runtime env id (profile_values profile) u else u

-- what `_reconcile` returns, or that it raises `RemoteTaskFailure`
pub data Decision : Type 0 where
  monitors finalizes restarts stops failure_raised : Decision

abbrev pub unclear_message : String
unclear_message = "远端进程状态不明，已禁止自动清理和重复启动"

-- `failure` of an unclear remote state; `code` is `f"remote_{status}"`
abbrev pub unclear_failure : String → String → Dict
unclear_failure code stage = field "failure_class" (str "model") (
    field "stage" (str stage) (
      field "code" (str code) (
        field "message" (str unclear_message) (
          field "recoverable" (bool true)
            (field "recommended_action" (str "edit_and_restart") empty)))))

-- the end of `_reconcile`, for a status that says nothing of a run
unfoldable pub unclear : Env → String → String → String → Manager → Decision × Manager
unclear env code id status m = elim (get_task id m.store) [
  | none ↦ (stops, m)
  | some t ↦ if status == "missing" && not (launched t.runtime) then (restarts, m) else (
    stops,
    put env id
        (record no_changes {
          status = some "waiting_restart";
          stage = some "failed";
          failure =
              some (some (unclear_failure code (if t.stage == "" then "unknown" else t.stage)));
          error = some (some unclear_message);
        })
        m,
  )
]

-- `_reconcile` after the reply of the client
unfoldable pub reconcile : Env → String → String → String → Dict → Manager → Decision × Manager
reconcile env code id status profile before =
    let m = merge_remote_profile env id status profile before in
    if status == "running"
    then (
      monitors,
      put env id
          (record no_changes {
            status = some "running";
            stage = some "running";
            failure = some none;
            error = some none;
          })
          m,
    )
    else if status == "succeeded"
    then (finalizes, m)
    else if status == "failed"
    then (failure_raised, m)
    else unclear env code id status m

abbrev pub intent : Json → Dict
intent attempt = field "remote_launch_attempted" (bool true) (field "launch_attempt" attempt empty)

-- `launch_attempt`: an attempt that was denied is tried again under its name, otherwise `fresh`, a new
-- UUID, is its name
abbrev pub launch_attempt : String → Option Task → Json
launch_attempt fresh none = str fresh
launch_attempt fresh (some t) =
    if truthy? (get "resource_denied_before_launch" t.runtime)
    then or_json (get "launch_attempt" t.runtime) null
    else str fresh

abbrev pub running_now : Changes
running_now = record no_changes {
  status = some "running";
  stage = some "running";
  progress = some 68;
}

-- the block under `_state_lock` before `hpc.launch`; none is `TaskCancelledError`
unfoldable pub intend_launch : Env → String → String → Manager → Option Manager
intend_launch env id fresh m =
    let u = put env id running_now m in
    if has id m.cancelled
    then none
    else some (merge_runtime env id (intent (launch_attempt fresh (get_task id u.store))) u)

abbrev pub denied : String → ℕ → Dict
denied reason retry_at = field "remote_launch_attempted" (bool false) (
    field "resource_denied_before_launch" (bool true)
      (field "resource_wait_reason" (str reason) (field "resource_retry_at" (num retry_at) empty)))

-- `launch.get('resource_wait') is True`
unfoldable pub deny_launch : Env → String → String → ℕ → Manager → Manager
deny_launch env id reason retry_at m =
    let u = merge_runtime env id (denied reason retry_at) m in
    if has id m.cancelled
    then put env id (record no_changes { status = some "cancelled"; stage = some "cancelled" }) u
    else put env id
        (record no_changes { status = some "queued"; stage = some "queued"; progress = some 0 }) u

abbrev pub not_denied : Dict
not_denied =
    field "resource_denied_before_launch" (bool false)
      (field "resource_retry_at" (num 0) (field "resource_wait_reason" null empty))

-- after a launch: true if it ends by `TaskCancelledError`
unfoldable pub end_launch : Env → String → Dict → Manager → Bool × Manager
end_launch env id reply m =
    let u = merge_runtime env id reply (merge_runtime env id not_denied m) in
    if has id m.cancelled
    then (
      true,
      start_remote_cancel id (
          put env id
            (record no_changes { status = some "cancel_pending"; stage = some "cancel_pending" })
            u),
    )
    else (false, u)
