-- ===== src/Manager/Submit.antt =====
-- task_manager.py: `submit` and `submit_idempotent`. The request is the one that `normalize_task_request` makes
-- of the caller's, `task_id` the id made of its start and of a random part, or of the digest of
-- owner and key. The files
-- of the task and `_log` are left out.
pub mod Closed
pub mod Settles
pub mod Once
use backend_wrf.Base.{
  ℕ, ◌==◌, string_eq, String, Bool, true, false, not, ◌&&◌, Option, none, some, if◌then◌else◌,
}
use backend_wrf.Json.{Json, bool, str, Dict, field, empty}
use backend_wrf.Store.{Store, Task, Submission, Error, value_error, ok, err}
use backend_wrf.Store.Submissions.{reserve_submission, accept_submission}
use backend_wrf.Store.Tasks.{Env, get_task, create}
use backend_wrf.Manager.{Manager, Refusal, bad_value, other_error, has, merge_runtime}
use backend_wrf.Manager.Dispatch.{Host}
use backend_wrf.Manager.Attempts.{Taken, taken, stopped, and_dispatch}

-- what is noted of a new task, `release` being the setting `hpc_runtime_release`
abbrev pub birth : String → Json → Dict
birth now release = field "attempt_started_at" (str now) (
    field "requested_runtime_profile" (str "cpu") (
      field "active_runtime_profile" (str "cpu")
        (field "fallback_used" (bool false) (field "release_id" release empty))))

abbrev pub accepted_in : String → String → Manager → Manager
accepted_in owner key m = record m { store = accept_submission owner key m.store }

-- the branch `if existing`
unfoldable pub submit_again : Env → Host → ℕ → String → String → String → Task → Manager → Taken
submit_again env h clock owner key task_id t m =
    let u = accepted_in owner key m in
    if t.status == "queued" && not (has task_id m.threads)
    then and_dispatch env h clock task_id (λ _. some t) u
    else taken (some t) u

-- a task is created
unfoldable pub submit_new :
    Env → Host → ℕ → Json → Json → String → String → String → Manager → Taken
submit_new env h clock release request owner key task_id m =
    elim (create env.now task_id request owner m.store) [
      | err e ↦ stopped other_error m
      | ok t s ↦
          let u =
            merge_runtime env task_id (birth env.now release)
              (accepted_in owner key (record m { store = s })) in
          and_dispatch env h clock task_id (λ _. get_task task_id u.store) u
    ]

-- `submit`
unfoldable pub submit : Env → Host → ℕ → Json → Json → String → String → Manager → Taken
submit env h clock release request owner task_id m =
    elim (create env.now task_id request owner m.store) [
      | err e ↦ stopped other_error m
      | ok t s ↦
          let u = merge_runtime env task_id (birth env.now release) (record m { store = s }) in
          and_dispatch env h clock task_id (λ _. get_task task_id u.store) u
    ]

unfoldable pub submit_reserved :
    Env → Host → ℕ → Json → Json → String → String → String → Submission → Manager → Taken
submit_reserved env h clock release request owner key task_id r m =
    elim (get_task task_id m.store) [
      | some t ↦ submit_again env h clock owner key task_id t m
      | none ↦
          if r.accepted
          then stopped bad_value m
          else submit_new env h clock release request owner key task_id m
    ]

unfoldable pub refusal_of : Error → Refusal
refusal_of (value_error message) = bad_value
refusal_of e = other_error

module _ (canonical : Json → String) where
  -- `submit_idempotent`
  unfoldable pub submit_idempotent :
      Env → Host → ℕ → Json → Json → String → String → String → Manager → Taken
  submit_idempotent env h clock release request owner key task_id m =
      elim (reserve_submission canonical owner key request task_id m.store) [
        | err e ↦ stopped (refusal_of e) m
        | ok r s ↦
            submit_reserved env h clock release request owner key task_id r (record m { store = s })
      ]
