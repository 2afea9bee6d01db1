-- ===== src/Store.antt =====
-- database.py: the tables of `TaskStore`, a record with one field for each.
-- `with self._lock, self._db` runs a method as one transaction: what it raises rolls it back. A
-- method is a function from the store, and `err` stands for a store left as it was.
-- The clock is an argument: `now` is `utc_now()`, `stamp` is `datetime.now(...).timestamp()`.
pub mod Recovery
pub mod Deletion
pub mod Submissions
pub mod Patch
pub mod ForcingPolicy
pub mod Operations
pub mod Interrupted
pub mod Tasks
mod Tests
use backend_wrf.Base.{
  ℕ, String, ◌==◌, string_eq, pair_eq, attempt_eq, ℕ_eq, Bool, true, false, Option, none, some,
  if◌then◌else◌,
}
use backend_wrf.Json.{Json, Dict, str}
use backend_wrf.Table.{Table, find}

-- Python's exceptions, as far as the methods raise them.
pub data Error : Type 0 where
  value_error : String → Error
  key_error attribute_error type_error integrity_error runtime_error : Error

pub data Result {ℓ} (S A : Type ℓ) : Type ℓ where
  ok : A → S → Result S A
  err : Error → Result S A

-- wrf_tasks
pub record Task : Type 0 where
  pub owner_sub : String
  pub status : String
  pub stage : String
  pub progress : ℕ
  pub request : Json
  pub runtime : Dict
  pub result : Option Json
  pub failure : Option Dict
  pub error : Option String
  pub attempt_no : ℕ
  pub created_at : String
  pub updated_at : String

-- wrf_task_attempts
pub record Attempt : Type 0 where
  pub request : Json
  pub status : String
  pub stage : String
  pub progress : ℕ
  pub runtime : Dict
  pub result : Option Json
  pub failure : Option Dict
  pub error : Option String
  pub log_path : Option String
  pub started_at : String
  pub finished_at : String

-- wrf_incidents and wrf_diagnosis_snapshots
pub record Incident : Type 0 where
  pub task_id : String
  pub attempt_no : ℕ
  pub details : Dict

-- wrf_recovery_plans
pub record RecoveryPlan : Type 0 where
  pub details : Dict
  pub status : String

-- wrf_task_metadata
pub record Metadata : Type 0 where
  pub name : String
  pub notes : String
  pub archived : Bool
  pub version : ℕ
  pub updated_at : Option String

-- wrf_task_deletion_plans
pub record DeletionPlan : Type 0 where
  pub task_id : String
  pub actor_sub : String
  pub status : String
  pub phase : String
  pub details : Dict

-- wrf_task_tombstones
pub record Tombstone : Type 0 where
  pub deletion_plan_id : String
  pub status : String
  pub deleted_at : Option String

-- wrf_submissions, by `(owner_sub, submission_key)`; the request is its canonical JSON text
pub record Submission : Type 0 where
  pub request_json : String
  pub task_id : String
  pub accepted : Bool

-- wrf_forcing_policy
pub record Policy : Type 0 where
  pub version : ℕ
  pub enabled : Bool
  pub auto_cleanup : Bool
  pub retained_complete_cycles : ℕ
  pub held_cycles : Dict
  pub updated_at : Option String

-- wrf_forcing_operations
pub record Operation : Type 0 where
  pub owner_sub : String
  pub source : String
  pub cycle : String
  pub start_hour : ℕ
  pub end_hour : ℕ
  pub status : String
  pub created_at : String
  pub updated_at : String
  pub detail : Dict

-- wrf_forcing_cleanup_plans
pub record CleanupPlan : Type 0 where
  pub actor_sub : String
  pub status : String
  pub details : Dict

pub record Store : Type 0 where
  pub tasks : Table String Task
  pub attempts : Table (String × ℕ) Attempt
  pub incidents : Table String Incident
  pub diagnoses : Table String Incident
  pub recovery_plans : Table String RecoveryPlan
  pub metadata : Table String Metadata
  pub deletion_plans : Table String DeletionPlan
  pub tombstones : Table String Tombstone
  pub submissions : Table (String × String) Submission
  pub policy : Option Policy
  pub operations : Table String Operation
  pub cleanup_plans : Table String CleanupPlan

-- `TaskStore.deletion_blocked`: a tombstone is never removed
unfoldable pub deletion_blocked : String → Store → Bool
deletion_blocked task_id s = elim (find task_id s.tombstones) [ none ↦ false | some t ↦ true ]

-- A JSON value as the parameter of a condition on a TEXT column. The ids in the plans are texts.
unfoldable pub text_of : Option Json → Option String
text_of (some (str t)) = some t
text_of _ = none
