-- ===== src/Store/Interrupted.antt =====
-- database.py: `recover_interrupted_operations`, run once before the service accepts requests.
pub mod Settled
use backend_wrf.Base.{
  ℕ, ◌==◌, string_eq, ℕ_eq, Bool, true, false, not, ◌&&◌, ◌||◌, Option, none, some, if◌then◌else◌,
}
use backend_wrf.Json.{Json, Dict, null, bool, num, str, get, set}
use backend_wrf.Table.{map_rows}
use backend_wrf.Store.{Store, DeletionPlan, Operation, CleanupPlan}

-- `json_extract(v)=1`
unfoldable pub is_one : Option Json → Bool
is_one (some (bool b)) = b
is_one (some (num n)) = n == 1
is_one _ = false

-- `json_extract(v) IS NOT NULL`
unfoldable pub is_given : Option Json → Bool
is_given none = false
is_given (some null) = false
is_given (some _) = true

-- Each `UPDATE ... SET column=value WHERE condition` is a function of the row: the column is the
-- value where the condition holds, and otherwise what it was.
unfoldable pub stop_cleanup : ℕ → CleanupPlan → CleanupPlan
stop_cleanup stamp c = record c {
  details =
      if c.status == "checking" || c.status == "executing"
      then set "finished_at" (num stamp) c.details
      else c.details;
}

unfoldable pub requested : DeletionPlan → Bool
requested d = d.status == "pending" && is_one (get "execution_requested" d.details)

unfoldable pub stop_deletion : ℕ → DeletionPlan → DeletionPlan
stop_deletion stamp d = record d {
  details =
      if d.status == "checking" || d.status == "executing" || requested d
      then set "finished_at" (num stamp) d.details
      else d.details;
}

unfoldable pub forget_submission : Operation → Operation
forget_submission o = record o { status = if o.status == "submitting" then "unknown" else o.status }

unfoldable pub forget_cancel : Operation → Operation
forget_cancel o = record o {
  status = if o.status == "cancel_pending" then "cancel_unknown" else o.status;
}

unfoldable pub doubt_cleanup : CleanupPlan → CleanupPlan
doubt_cleanup c = record c { status = if c.status == "executing" then "unknown" else c.status }

unfoldable pub lost_check : CleanupPlan → Bool
lost_check c = c.status == "checking" && is_given (get "cycle" c.details)

unfoldable pub block_cleanup : CleanupPlan → CleanupPlan
block_cleanup c = record c {
  status = if lost_check c then "blocked" else c.status;
  details = if lost_check c then set "phase" (str "interrupted") c.details else c.details;
}

unfoldable pub doubt_deletion : DeletionPlan → DeletionPlan
doubt_deletion d = record d { status = if d.status == "executing" then "unknown" else d.status }

unfoldable pub block_deletion : DeletionPlan → DeletionPlan
block_deletion d = record d {
  status = if d.status == "checking" || requested d then "blocked" else d.status;
  phase = if d.status == "checking" || requested d then "interrupted" else d.phase;
}

-- `recover_interrupted_operations`, its eight statements in order
unfoldable pub recover_interrupted_operations : ℕ → Store → Store
recover_interrupted_operations stamp s₀ =
    let s₁ : Store = record s₀ { cleanup_plans = map_rows (stop_cleanup stamp) s₀.cleanup_plans } in
    let s₂ : Store = record s₁ {
      deletion_plans = map_rows (stop_deletion stamp) s₁.deletion_plans;
    } in
    let s₃ : Store = record s₂ { operations = map_rows forget_submission s₂.operations } in
    let s₄ : Store = record s₃ { operations = map_rows forget_cancel s₃.operations } in
    let s₅ : Store = record s₄ { cleanup_plans = map_rows doubt_cleanup s₄.cleanup_plans } in
    let s₆ : Store = record s₅ { cleanup_plans = map_rows block_cleanup s₅.cleanup_plans } in
    let s₇ : Store = record s₆ { deletion_plans = map_rows doubt_deletion s₆.deletion_plans } in
    record s₇ { deletion_plans = map_rows block_deletion s₇.deletion_plans }
