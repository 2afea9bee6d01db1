-- ===== src/Manager.antt =====
-- task_manager.py: the state of `WrfTaskManager` in memory, beside the store. A set of ids, of
-- threads or of timers by id, is a list of ids. What runs under `_state_lock` is one function.
pub mod Budget
pub mod Needs
pub mod Dispatch
pub mod Cancel
pub mod Worker
pub mod Remote
pub mod Attempts
pub mod Again
pub mod Submit
pub mod Start
pub mod Finish
pub mod Confirmed
pub mod Tests
use backend_wrf.Base.{
  ℕ, String, ◌==◌, string_eq, Bool, true, false, not, ◌&&◌, ◌||◌, any, List, [], ◌∷◌, ◌++◌, Option,
  none, some, if◌then◌else◌,
}
use backend_wrf.Json.{Json, Dict, get, truthy?, update, str, obj}
use backend_wrf.Store.{Store, Task, text_of, deletion_blocked}
use backend_wrf.Store.Tasks.{Env, Changes, no_changes, get_task, update_task, is_some_dict}

pub record Manager : Type 0 where
  pub store : Store
  pub started : Bool
  pub stopping : Bool
  pub threads : List String
  pub pending : List String
  pub active : List String
  pub cancelled : List String
  pub cancel_threads : List String
  pub cancel_timers : List String
  pub reconcile_timers : List String

-- Why an operation refuses: `TaskNotFoundError`, `TaskConflictError`, `ValueError`, or an error of
-- the store, the files, the client or the resource budget.
pub data Refusal : Type 0 where
  not_found conflict bad_value other_error : Refusal

pub data Outcome {ℓ} (A : Type ℓ) : Type ℓ where
  did : A → Manager → Outcome A
  refused : Refusal → Outcome A

unfoldable pub has : String → List String → Bool
has id ids = any (λ x. x == id) ids

-- `ids.add(id)`
unfoldable pub add : String → List String → List String
add id ids = if has id ids then ids else id ∷ ids

-- `ids.discard(id)`, `ids.pop(id, None)`
unfoldable pub discard : String → List String → List String
discard id [] = []
discard id (x ∷ ids) = let rest = discard id ids in if x == id then rest else x ∷ rest

-- FINAL_STATES
unfoldable pub is_final : String → Bool
is_final s =
    s == "succeeded"
    || s == "partial_success"
    || s == "failed"
    || s == "cancelled"
    || s == "waiting_restart"

-- `{"failed", "cancelled", "succeeded"}`
unfoldable pub is_terminal_text : String → Bool
is_terminal_text s = s == "failed" || s == "cancelled" || s == "succeeded"

-- `runtime.get("remote_terminal_status") in {...}`
unfoldable pub terminal_seen : Dict → Bool
terminal_seen r = elim (text_of (get "remote_terminal_status" r)) [
  | none ↦ false
  | some s ↦ is_terminal_text s
]

-- `runtime.get("remote_pid") or runtime.get("remote_launch_attempted")`
unfoldable pub launched : Dict → Bool
launched r = truthy? (get "remote_pid" r) || truthy? (get "remote_launch_attempted" r)

unfoldable pub wrf_succeeded : Dict → Bool
wrf_succeeded r = truthy? (get "remote_wrf_succeeded" r)

-- `store.update` as the manager calls it
unfoldable pub put : Env → String → Changes → Manager → Manager
put env id c m = record m { store = update_task env id c m.store }

-- `_merge_runtime`
unfoldable pub merge_runtime : Env → String → Dict → Manager → Manager
merge_runtime env id values m = elim (get_task id m.store) [
  | none ↦ m
  | some t ↦ put env id (record no_changes { runtime = some (update t.runtime values) }) m
]

-- `_require_recovery_idle`: true if it raises
unfoldable pub is_busy : String → Manager → Bool
is_busy id m = deletion_blocked id m.store || has id m.threads || has id m.cancel_threads

-- `_forcing_cycle(runtime)` is truthy
unfoldable pub has_cycle : Dict → Bool
has_cycle r =
    truthy? (get "forcing_cycle" r) || truthy? (get "gfs_cycle" r) || truthy? (get "ecmwf_cycle" r)

-- `(task.get("failure") or {}).get("failure_class") == "external"`
unfoldable pub failed_outside : Task → Bool
failed_outside t = elim t.failure [
  | none ↦ false
  | some f ↦ elim (text_of (get "failure_class" f)) [ none ↦ false | some c ↦ c == "external" ]
]

-- `task["request"].get("recovery_policy") == "confirm"`
unfoldable pub must_confirm : Task → Bool
must_confirm t = policy t.request
  where
    policy : Json → Bool
    policy (obj q) = elim (text_of (get "recovery_policy" q)) [
      | none ↦ false
      | some p ↦ p == "confirm"
    ]
    policy _ = false
