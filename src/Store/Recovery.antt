-- ===== src/Store/Recovery.antt =====
-- database.py: `save_recovery`, `recovery`, `claim_recovery`, `finish_recovery`.
-- `recovery` gives `{**data, "status": status}`. A row is kept in its two parts: the code's
-- `plan["status"]` is `status`, and its other lookups go to `details`.
pub mod Claim
pub mod Exclusive
use backend_wrf.Base.{
  String, ◌==◌, string_eq, Bool, true, false, not, ◌&&◌, ◌||◌, Option, none, some, if◌then◌else◌,
}
use backend_wrf.Json.{Json, Dict, str, get, set, truthy?, same?}
use backend_wrf.Table.{find, insert, modify, any_row}
use backend_wrf.Store.{
  Store, RecoveryPlan, Incident, Error, Result, ok, err, key_error, attribute_error, type_error,
  integrity_error, deletion_blocked, text_of,
}

-- `save_recovery`
unfoldable pub save_recovery : String → Dict → Store → Result Store (Unit {0})
save_recovery id details s =
    elim (insert id (record { details = details; status = "pending" }) s.recovery_plans) [
      | none ↦ err integrity_error
      | some t ↦ ok tt (record s { recovery_plans = t })
    ]

-- `recovery`
unfoldable pub recovery : String → Store → Option RecoveryPlan
recovery id s = find id s.recovery_plans

-- `status IN ('executing','accepted','unknown')`
unfoldable pub is_claimed : RecoveryPlan → Bool
is_claimed r = r.status == "executing" || r.status == "accepted" || r.status == "unknown"

-- `same_event` in `claim_recovery`
unfoldable pub same_event : Dict → Dict → Bool
same_event plan other =
    truthy? (get "event_id" plan) && same? (get "event_id" other) (get "event_id" plan)

-- `same_state` in `claim_recovery`
unfoldable pub same_state : Dict → Dict → Bool
same_state plan other =
    truthy? (get "fingerprint" plan)
    && same? (get "task_id" other) (get "task_id" plan)
    && same? (get "attempt_no" other) (get "attempt_no" plan)
    && same? (get "fingerprint" other) (get "fingerprint" plan)

-- the test of the loop in `claim_recovery`
unfoldable pub competes : Dict → RecoveryPlan → Bool
competes plan r = is_claimed r && (same_event plan r.details || same_state plan r.details)

-- `plan.get("task_id") and self.deletion_blocked(plan["task_id"])`
unfoldable pub task_blocked : Dict → Store → Bool
task_blocked plan s = elim (text_of (get "task_id" plan)) [
  | none ↦ false
  | some t ↦ not (t == "") && deletion_blocked t s
]

abbrev pub executing : RecoveryPlan → RecoveryPlan
executing r = record r { status = "executing" }

-- the body of `claim_recovery` for a row that is there
unfoldable pub claim_plan : String → RecoveryPlan → Store → Bool × Store
claim_plan id r s =
    if not (r.status == "pending") || task_blocked r.details s
    then (false, s)
    else if any_row (competes r.details) s.recovery_plans
    then (false, s)
    else (true, record s { recovery_plans = modify id executing s.recovery_plans })

-- `claim_recovery`
unfoldable pub claim_recovery : String → Store → Bool × Store
claim_recovery id s = elim (recovery id s) [ none ↦ (false, s) | some r ↦ claim_plan id r s ]

-- the status that an accepted recovery gives to its incident
unfoldable pub incident_status : String → String
incident_status task_status =
    if task_status == "succeeded" then "resolved" else "recovery_requested"

-- `self.get(plan["task_id"])["status"]`
unfoldable pub task_status : Dict → Store → Result Store String
task_status plan s = elim (get "task_id" plan) [
  | none ↦ err key_error
  | some v ↦ elim (text_of (some v)) [
    | none ↦ err type_error
    | some t ↦ elim (find t s.tasks) [ none ↦ err type_error | some task ↦ ok task.status s ]
  ]
]

abbrev pub with_status : String → Incident → Incident
with_status status i = record i { details = set "status" (str status) i.details }

-- the branch `status == "accepted"` of `finish_recovery`
unfoldable pub settle_incident : Dict → Store → Result Store (Unit {0})
settle_incident plan s = elim (text_of (get "event_id" plan)) [
  | none ↦ ok tt s
  | some e ↦ if e == "" then ok tt s else elim (find e s.incidents) [
    | none ↦ ok tt s
    | some i ↦ elim (task_status plan s) [
      | err x ↦ err x
      | ok status _ ↦
          ok tt
            (record s { incidents = modify e (with_status (incident_status status)) s.incidents })
    ]
  ]
]

abbrev pub finished : String → RecoveryPlan → RecoveryPlan
finished status r = record r { status = status }

-- `finish_recovery`
unfoldable pub finish_recovery : String → String → Store → Result Store (Unit {0})
finish_recovery id status s =
    let s' : Store = record s { recovery_plans = modify id (finished status) s.recovery_plans } in
    if status == "accepted"
    then elim (recovery id s') [
      | none ↦ err attribute_error
      | some r ↦ settle_incident r.details s'
    ]
    else ok tt s'
