-- ===== src/Store/Tests/Plans.antt =====
-- Recovery and deletion plans of one task.
use backend_wrf.Base.{
  ◌≡◌, ◌↔◌, ◌≢◌, refl, String, string_eq, eq_iff, true, false, none, some, [], ◌∷◌, arith,
}
use backend_wrf.Json.{Dict, Items, str, obj, field, empty, get, truthy?, same?}
use backend_wrf.Table.{find, insert, modify, any_row, delete, delete_where}
use backend_wrf.Store.{Store, DeletionPlan, RecoveryPlan, ok, deletion_blocked, text_of}
use backend_wrf.Store.Recovery.{
  save_recovery, claim_recovery, claim_plan, recovery, competes, is_claimed, same_event, same_state,
  task_blocked, executing,
}
use backend_wrf.Store.Recovery.Claim.{
  Claimed, CanClaim, claim_recovery-Claimed, claim_recovery-CanClaim,
}
use backend_wrf.Store.Recovery.Exclusive.{
  IsExclusive, RecoverySteps, saved, claimed, start, next, RecoverySteps-IsExclusive,
}
use backend_wrf.Store.Deletion.{
  claim_deletion, claim_checked, write_claim, is_finished, manifest_fingerprint, fingerprint_of,
  recovery_runs, advance_deletion,
}
use backend_wrf.Store.Deletion.Claim.{HasGrave, DeletionClaimed, claim_deletion-DeletionClaimed}
use backend_wrf.Store.Deletion.Permanent.{PlanStep, PlanSteps, PlanSteps-claimed_for_good}
use backend_wrf.Store.Deletion.Purge.{
  Purged, purge_deleted_task, purge_deleted_task-Purged, owns_grave, purge_rows, recovers,
  purged_plan,
}
use backend_wrf.Store.Tests.{no_rows, ended_task}

abbrev event_plan : Dict
event_plan = field "task_id" (str "t1") (field "event_id" (str "e1") empty)

abbrev pending_plan : RecoveryPlan
pending_plan = record { details = event_plan; status = "pending" }

-- Two plans for one event.
abbrev two_plans : Store
two_plans = record no_rows { recovery_plans = ("p1", pending_plan) ∷ ("p2", pending_plan) ∷ [] }

abbrev one_started : Store
one_started = record no_rows {
  recovery_plans = ("p1", executing pending_plan) ∷ ("p2", pending_plan) ∷ [];
}

first_claim_wins : claim_recovery "p1" two_plans ≡ (true, one_started)
unfolding claim_recovery claim_plan recovery competes is_claimed task_blocked text_of
    deletion_blocked find modify any_row get same_event same_state truthy? same?
first_claim_wins = refl

second_claim_loses : claim_recovery "p2" one_started ≡ (false, one_started)
unfolding claim_recovery claim_plan recovery competes is_claimed task_blocked text_of
    deletion_blocked find modify any_row get same_event same_state truthy? same?
second_claim_loses = refl

claim_recovery-Claimed_example : Claimed "p1" two_plans (claim_recovery "p1" two_plans).1
unfolding claim_recovery claim_plan recovery competes is_claimed task_blocked text_of
    deletion_blocked find modify any_row get same_event same_state truthy? same?
claim_recovery-Claimed_example = claim_recovery-Claimed "p1" two_plans refl

claim_recovery-CanClaim_example :
    ((claim_recovery "p2" one_started).0 ≡ true) ↔ CanClaim "p2" one_started
claim_recovery-CanClaim_example = claim_recovery-CanClaim "p2" one_started

no_rows-IsExclusive : IsExclusive no_rows
unfolding recovery find
no_rows-IsExclusive e i j n a b = absurd (ground (arith, a.found))

two_saved : RecoverySteps no_rows two_plans
unfolding save_recovery insert find
two_saved =
    next {t = record no_rows { recovery_plans = ("p1", pending_plan) ∷ [] }}
      (next start (saved "p1" event_plan refl)) (saved "p2" event_plan refl)

two_claims : RecoverySteps no_rows one_started
unfolding claim_recovery claim_plan recovery competes is_claimed task_blocked text_of
    deletion_blocked find modify any_row get same_event same_state truthy? same?
two_claims = next (next two_saved (claimed "p1" refl)) (claimed "p2" refl)

RecoverySteps-IsExclusive_example : IsExclusive one_started
RecoverySteps-IsExclusive_example = RecoverySteps-IsExclusive no_rows-IsExclusive two_claims

-- A digest for the tests.
abbrev no_digest : Items → String
no_digest v = "d"

abbrev deletion_row : DeletionPlan
deletion_row = record {
  task_id = "t1";
  actor_sub = "ana";
  status = "pending";
  phase = "preview";
  details = field "manifest" (obj (field "task_fingerprint" (str "d") empty)) empty;
}

abbrev to_delete : Store
to_delete = record two_plans {
  tasks = ("t1", ended_task) ∷ [];
  deletion_plans = ("d1", deletion_row) ∷ [];
}

abbrev deleting : Store
deleting = record to_delete {
  deletion_plans = ("d1", record deletion_row { status = "executing"; phase = "claimed" }) ∷ [];
  tombstones =
      ("t1", record { deletion_plan_id = "d1"; status = "deleting"; deleted_at = none }) ∷ [];
}

deletion_claimed : claim_deletion no_digest "d1" "t1" to_delete ≡ ok true deleting
unfolding claim_deletion claim_checked write_claim is_finished manifest_fingerprint fingerprint_of
    recovery_runs deletion_blocked find insert modify any_row get same?
deletion_claimed = refl

claim_deletion-DeletionClaimed_example : DeletionClaimed no_digest "d1" "t1" to_delete deleting
claim_deletion-DeletionClaimed_example =
    claim_deletion-DeletionClaimed no_digest "d1" "t1" to_delete deleting deletion_claimed

t1_named : ◌≢◌ {A = String} "t1" ""
t1_named = ground (arith, eq_iff "t1" "")

abbrev advanced_store : Store
advanced_store = advance_deletion "d1" "local_deleted" "executing" deleting

advanced_once : PlanSteps no_digest deleting advanced_store
advanced_once =
    PlanSteps.next PlanSteps.start (PlanStep.advanced "d1" "local_deleted" "executing" refl)

PlanSteps-claimed_for_good_example :
    HasGrave "t1" "d1" advanced_store
    × ((other : String)
        → claim_deletion no_digest other "t1" advanced_store ≡ ok false advanced_store)
    × ((id : String)
        → ((r : RecoveryPlan)
            → recovery id advanced_store ≡ some r
            → get "task_id" r.details ≡ some (str "t1"))
        → claim_recovery id advanced_store ≡ (false, advanced_store))
PlanSteps-claimed_for_good_example =
    PlanSteps-claimed_for_good no_digest "t1" "d1" to_delete deleting t1_named deletion_claimed
      advanced_store advanced_once

abbrev purged_store : Store
purged_store = record no_rows {
  deletion_plans =
      ("d1", purged_plan false 7 (record deletion_row { status = "executing"; phase = "claimed" }))
      ∷ [];
  tombstones =
      ("t1", record { deletion_plan_id = "d1"; status = "deleted"; deleted_at = some "2026-01-03" })
      ∷ [];
}

purge_runs : purge_deleted_task "2026-01-03" 7 "t1" "d1" false deleting ≡ ok tt purged_store
unfolding purge_deleted_task purge_rows owns_grave recovers find modify delete delete_where get
    same?
purge_runs = refl

purge_deleted_task-Purged_example : Purged "t1" "d1" deleting purged_store
purge_deleted_task-Purged_example =
    purge_deleted_task-Purged "2026-01-03" 7 "t1" "d1" false deleting purged_store purge_runs
