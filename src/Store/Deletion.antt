-- ===== src/Store/Deletion.antt =====
-- database.py: the plans that delete a task and the tombstones of deleted tasks.
-- A row is kept in its parts: the code's `plan["status"]` and `plan["phase"]` are the columns, and
-- its other lookups go to `details`; `plan_dict` is the merged dict that it writes back.
pub mod Claim
pub mod Purge
pub mod Permanent
use backend_wrf.Base.{
  ℕ, String, ◌==◌, string_eq, Bool, true, false, not, ◌&&◌, ◌||◌, ◌⊎◌, inl, inr, Option, none, some,
  if◌then◌else◌,
}
use backend_wrf.Json.{
  Json, Items, Dict, null, bool, num, str, arr, obj, nil, cons, get, set, pop, update, append,
  truthy?, same, same?,
}
use backend_wrf.Table.{find, insert, modify, any_row}
use backend_wrf.Store.{
  Store, Task, DeletionPlan, Tombstone, RecoveryPlan, Incident, Error, Result, ok, err, value_error,
  key_error, attribute_error, type_error, integrity_error, deletion_blocked, text_of,
}

-- `{**json.loads(data_json), "status": status, "phase": phase}`
unfoldable pub plan_dict : DeletionPlan → Dict
plan_dict r = set "phase" (str r.phase) (set "status" (str r.status) r.details)

-- a TEXT column from an entry of the dict that is there
unfoldable pub text_or : String → Option Json → String
text_or d (some (str t)) = t
text_or d _ = d

-- `save_deletion`
unfoldable pub save_deletion : String → DeletionPlan → Store → Result Store (Unit {0})
save_deletion id r s = elim (insert id r s.deletion_plans) [
  | none ↦ err integrity_error
  | some t ↦ ok tt (record s { deletion_plans = t })
]

-- the row that `update_deletion_detail` writes
unfoldable pub changed : Dict → DeletionPlan → DeletionPlan
changed changes r = record r {
  status = text_or r.status (get "status" changes);
  phase = text_or r.phase (get "phase" changes);
  details = update (plan_dict r) changes;
}

-- `update_deletion_detail`
unfoldable pub update_deletion_detail : String → Dict → Store → Result Store (Unit {0})
update_deletion_detail id changes s = elim (find id s.deletion_plans) [
  | none ↦ err (value_error "删除操作不存在")
  | some r ↦ ok tt (record s { deletion_plans = modify id (changed changes) s.deletion_plans })
]

-- the row that `reserve_deletion_execution` writes
unfoldable pub reserved : DeletionPlan → DeletionPlan
reserved r = record r {
  phase = "checking_execution";
  details =
      set "phase" (str "checking_execution") (set "execution_requested" (bool true) (plan_dict r));
}

-- `reserve_deletion_execution`
unfoldable pub reserve_deletion_execution : String → Store → Bool × Store
reserve_deletion_execution id s = elim (find id s.deletion_plans) [
  | none ↦ (false, s)
  | some r ↦
      if not (r.status == "pending") || truthy? (get "execution_requested" r.details)
      then (false, s)
      else (true, record s { deletion_plans = modify id reserved s.deletion_plans })
]

-- the task's status in `claim_deletion`
unfoldable pub is_finished : String → Bool
is_finished status =
    status == "succeeded"
    || status == "partial_success"
    || status == "failed"
    || status == "cancelled"
    || status == "waiting_restart"

-- `task.get("result")`
unfoldable pub result_value : Option Json → Json
result_value none = null
result_value (some v) = v

-- the list whose digest is the fingerprint of a task
unfoldable pub fingerprint_items : Task → Items
fingerprint_items t = cons (str t.status) (
    cons (str t.stage) (
      cons (num t.attempt_no)
        (cons t.request (cons (obj t.runtime) (cons (result_value t.result) nil)))))

-- `m["task_fingerprint"]` of a value that should be a dict
unfoldable pub fingerprint_of : Json → Error ⊎ Json
fingerprint_of (obj m) = elim (get "task_fingerprint" m) [ none ↦ inl key_error | some v ↦ inr v ]
fingerprint_of _ = inl type_error

-- `plan["manifest"]["task_fingerprint"]`
unfoldable pub manifest_fingerprint : Dict → Error ⊎ Json
manifest_fingerprint d = elim (get "manifest" d) [
  | none ↦ inl key_error
  | some v ↦ fingerprint_of v
]

-- a recovery that is under way, or whose result is unknown, for the task
unfoldable pub recovery_runs : String → RecoveryPlan → Bool
recovery_runs task_id r =
    same? (get "task_id" r.details) (some (str task_id))
    && (r.status == "executing" || r.status == "unknown")

abbrev pub claimed : DeletionPlan → DeletionPlan
claimed r = record r { status = "executing"; phase = "claimed" }

-- the two writes of `claim_deletion`
unfoldable pub write_claim : String → String → Store → Result Store Bool
write_claim plan_id task_id s =
    let grave : Tombstone = record {
      deletion_plan_id = plan_id;
      status = "deleting";
      deleted_at = none;
    } in
    elim (insert task_id grave s.tombstones) [
      | none ↦ err integrity_error
      | some t ↦
          ok true
            (record s { tombstones = t; deletion_plans = modify plan_id claimed s.deletion_plans })
    ]

-- `retirement.sha` is the SHA-256 of the JSON text of its argument.
module _ (sha : Items → String) where
  -- the tests of `claim_deletion` on the rows that it found
  unfoldable pub claim_checked : String → String → DeletionPlan → Task → Store → Result Store Bool
  claim_checked plan_id task_id r task s =
      if not (r.status == "pending") || not (is_finished task.status)
      then ok false s
      else if deletion_blocked task_id s
      then ok false s
      else elim (manifest_fingerprint r.details) [
        | inl e ↦ err e
        | inr expected ↦
            if not (same (str (sha (fingerprint_items task))) expected)
            then ok false s
            else if any_row (recovery_runs task_id) s.recovery_plans
            then ok false s
            else write_claim plan_id task_id s
      ]

  -- `claim_deletion`
  unfoldable pub claim_deletion : String → String → Store → Result Store Bool
  claim_deletion plan_id task_id s = elim (find plan_id s.deletion_plans) [
    | none ↦ ok false s
    | some r ↦ elim (find task_id s.tasks) [
      | none ↦ ok false s
      | some task ↦ claim_checked plan_id task_id r task s
    ]
  ]

-- `advance_deletion`
unfoldable pub advance_deletion : String → String → String → Store → Store
advance_deletion id phase status s = record s {
  deletion_plans = modify id (λ r. record r { phase = phase; status = status }) s.deletion_plans;
}

-- `plan.get(k)` as a JSON value
unfoldable pub value_of : Option Json → Json
value_of none = null
value_of (some v) = v

-- `plan.get("reconciliations",[])`
unfoldable pub history_of : Option Json → Items
history_of (some (arr vs)) = vs
history_of _ = nil

-- the dict that `reserve_directory_reconciliation` writes; a proof without `verified_at`, for which the
-- code raises KeyError, is never made by its caller (task_deletion.py)
unfoldable pub reconciled : Dict → Dict → Dict
reconciled proof plan =
    let entry : Dict =
      set "previous_error" (value_of (get "error" plan))
        (set "previous_started_at" (value_of (get "started_at" plan)) proof) in
    let history : Items = append (history_of (get "reconciliations" plan)) (obj entry) in
    pop "finished_at" (
      set "reconciliation_accepted_at" (value_of (get "verified_at" proof)) (
        set "started_at" null (
          set "error" null (
            set "reconciliation_requested" (bool true)
              (set "reconciliations" (arr history) plan)))))

abbrev pub requeued : Dict → DeletionPlan → DeletionPlan
requeued proof r = record r {
  status = "executing";
  phase = "queued";
  details = reconciled proof (plan_dict r);
}

-- the tests of `reserve_directory_reconciliation`
unfoldable pub can_reconcile :
    String → String → String → Option DeletionPlan → Option Tombstone → Bool
can_reconcile plan_id task_id actor (some r) (some t) =
    r.status == "unknown"
    && r.task_id == task_id
    && r.actor_sub == actor
    && t.deletion_plan_id == plan_id
    && t.status == "deleting"
can_reconcile plan_id task_id actor none t = false
can_reconcile plan_id task_id actor (some r) none = false

-- `reserve_directory_reconciliation`
unfoldable pub reserve_directory_reconciliation :
    String → String → String → Dict → Store → Bool × Store
reserve_directory_reconciliation plan_id task_id actor proof s =
    if can_reconcile plan_id task_id actor (find plan_id s.deletion_plans)
      (find task_id s.tombstones)
    then (true, record s { deletion_plans = modify plan_id (requeued proof) s.deletion_plans })
    else (false, s)

-- `resume_deletion`
unfoldable pub resume_deletion : String → Store → Bool × Store
resume_deletion plan_id s = elim (find plan_id s.deletion_plans) [
  | none ↦ (false, s)
  | some r ↦
      if r.status == "unknown"
      then (
        true,
        record s {
          deletion_plans = modify plan_id (λ x. record x { status = "executing" }) s.deletion_plans;
        },
      )
      else (false, s)
]
