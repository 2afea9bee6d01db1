-- ===== src/Store/Deletion/Purge.antt =====
-- database.py: `purge_deleted_task`, and what is left of a task after it.
use backend_wrf.Base.{
  ℕ, String, ◌==◌, string_eq, attempt_eq, eq_iff, Bool, true, false, not, ◌&&◌, ◌≡◌, ◌≢◌, refl,
  Option, none, some, arith, if◌then◌else◌,
}
use backend_wrf.Json.{bool, num, str, get, set, same?}
use backend_wrf.Table.{find, modify, delete, delete_where}
use backend_wrf.Table.Laws.{
  find-delete, find-delete_keys, find-modify, delete_where_left, delete_where_kept,
}
use backend_wrf.Store.{
  Store, DeletionPlan, Tombstone, RecoveryPlan, Incident, Result, ok, err, value_error,
  attribute_error,
}
use backend_wrf.Store.Deletion.{plan_dict}

-- `json.loads(record["data_json"]).get("task_id") == task_id`
unfoldable pub recovers : String → RecoveryPlan → Bool
recovers task_id r = same? (get "task_id" r.details) (some (str task_id))

-- the row of the plan after the deletions
unfoldable pub purged_plan : Bool → ℕ → DeletionPlan → DeletionPlan
purged_plan true stamp r = record r {
  status = "executing";
  phase = "space_cleanup";
  details =
      set "cleanup_status" (str "pending")
        (set "removed_at" (num stamp) (set "removed" (bool true) (plan_dict r)));
}
purged_plan false stamp r = record r {
  status = "complete";
  phase = "complete";
  details = set "finished_at" (num stamp) (plan_dict r);
}

abbrev pub buried : String → Tombstone → Tombstone
buried now t = record t { status = "deleted"; deleted_at = some now }

-- The `DELETE` statements. Deleting the row of `wrf_tasks` deletes the attempts and the metadata
-- that refer to it (`ON DELETE CASCADE`).
unfoldable pub purge_rows : String → Store → Store
purge_rows task_id s = record s {
  diagnoses = delete_where (λ _ i. i.task_id == task_id) s.diagnoses;
  incidents = delete_where (λ _ i. i.task_id == task_id) s.incidents;
  recovery_plans = delete_where (λ _ r. recovers task_id r) s.recovery_plans;
  tasks = delete task_id s.tasks;
  metadata = delete task_id s.metadata;
  attempts = delete_where (λ k _. k.0 == task_id) s.attempts;
}

-- the test on the tombstone
unfoldable pub owns_grave : String → Option Tombstone → Bool
owns_grave plan_id none = false
owns_grave plan_id (some t) = t.deletion_plan_id == plan_id && t.status == "deleting"

-- `purge_deleted_task`
unfoldable pub purge_deleted_task :
    String → ℕ → String → String → Bool → Store → Result Store (Unit {0})
purge_deleted_task now stamp task_id plan_id cleanup_pending s =
    if not (owns_grave plan_id (find task_id s.tombstones))
    then err (value_error "任务删除状态不一致")
    else elim (find plan_id s.deletion_plans) [
      | none ↦ err attribute_error
      | some r ↦ ok tt (record (purge_rows task_id s) {
        tombstones = modify task_id (buried now) s.tombstones;
        deletion_plans = modify plan_id (purged_plan cleanup_pending stamp) s.deletion_plans;
      })
    ]

-- Nothing of the task is left but its tombstone and its submission.
pub record Purged (task_id plan_id : String) (s t : Store) : Type 0 where
  pub was_claimed :
      (g : Tombstone) × (find task_id s.tombstones ≡ some g)
      × (g.deletion_plan_id ≡ plan_id)
      × (g.status ≡ "deleting")
  pub no_task : find task_id t.tasks ≡ none
  pub no_metadata : find task_id t.metadata ≡ none
  pub no_attempt : (n : ℕ) → find (task_id, n) t.attempts ≡ none
  pub no_incident : (i : String) (r : Incident) → find i t.incidents ≡ some r → r.task_id ≢ task_id
  pub no_diagnosis : (i : String) (r : Incident) → find i t.diagnoses ≡ some r → r.task_id ≢ task_id
  pub no_recovery :
      (i : String) (r : RecoveryPlan)
      → find i t.recovery_plans ≡ some r
      → recovers task_id r ≡ false
  pub grave : (g : Tombstone) × (find task_id t.tombstones ≡ some g) × (g.status ≡ "deleted")
  pub other_tasks : (j : String) → task_id ≢ j → find j t.tasks ≡ find j s.tasks
  pub other_attempts :
      (j : String) (n : ℕ) → task_id ≢ j → find (j, n) t.attempts ≡ find (j, n) s.attempts
  pub other_recoveries :
      (i : String) (r : RecoveryPlan)
      → find i s.recovery_plans ≡ some r
      → recovers task_id r ≡ false
      → find i t.recovery_plans ≡ some r
  pub submissions : t.submissions ≡ s.submissions

-- The tables that a purge that succeeds leaves.
pub record Written (task_id plan_id now : String) (s t : Store) : Type 0 where
  owner :
      (g : Tombstone) × (find task_id s.tombstones ≡ some g)
      × (g.deletion_plan_id ≡ plan_id)
      × (g.status ≡ "deleting")
  pub tasks : t.tasks ≡ delete task_id s.tasks
  metadata : t.metadata ≡ delete task_id s.metadata
  attempts : t.attempts ≡ delete_where (λ k _. k.0 == task_id) s.attempts
  incidents : t.incidents ≡ delete_where (λ _ i. i.task_id == task_id) s.incidents
  diagnoses : t.diagnoses ≡ delete_where (λ _ i. i.task_id == task_id) s.diagnoses
  recoveries : t.recovery_plans ≡ delete_where (λ _ r. recovers task_id r) s.recovery_plans
  tombstones : t.tombstones ≡ modify task_id (buried now) s.tombstones
  pub submissions : t.submissions ≡ s.submissions

owns_grave_elim :
    (plan_id : String) (o : Option Tombstone)
    → owns_grave plan_id o ≡ true
    → (g : Tombstone) × (o ≡ some g) × (g.deletion_plan_id ≡ plan_id) × (g.status ≡ "deleting")
unfolding owns_grave
owns_grave_elim plan_id none h = absurd (cc)
owns_grave_elim plan_id (some g) h = (
  g,
  refl,
  ground (arith, eq_iff g.deletion_plan_id plan_id),
  ground (arith, eq_iff g.status "deleting"),
)

pub purge_deleted_task-Written :
    (now : String) (stamp : ℕ) (task_id plan_id : String) (c : Bool) (s t : Store)
    → purge_deleted_task now stamp task_id plan_id c s ≡ ok tt t
    → Written task_id plan_id now s t
unfolding purge_deleted_task purge_rows
purge_deleted_task-Written now stamp task_id plan_id c s t h = record {
  owner = owns_grave_elim plan_id (find task_id s.tombstones) (ground arith);
  tasks = ground arith;
  metadata = ground arith;
  attempts = ground arith;
  incidents = ground arith;
  diagnoses = ground arith;
  recoveries = ground arith;
  tombstones = ground arith;
  submissions = ground arith;
}

-- A purge that succeeds had the task's tombstone from the same plan, still being deleted. It
-- removes the task, its metadata, attempts, incidents, diagnoses and recovery plans, marks the
-- tombstone deleted, and keeps the submissions, the tasks and attempts of every other task and
-- the recovery plans that do not name the task.
pub purge_deleted_task-Purged :
    (now : String) (stamp : ℕ) (task_id plan_id : String) (cleanup_pending : Bool) (s t : Store)
    → purge_deleted_task now stamp task_id plan_id cleanup_pending s ≡ ok tt t
    → Purged task_id plan_id s t
purge_deleted_task-Purged now stamp task_id plan_id c s t h =
    let w = purge_deleted_task-Written now stamp task_id plan_id c s t h in
    let (g, there, own, live) = w.owner in
    record {
      was_claimed = (g, there, own, live);
      no_task =
          rw w.tasks (ground (arith, find-delete task_id task_id s.tasks, eq_iff task_id task_id));
      no_metadata =
          rw w.metadata
            (ground (arith, find-delete task_id task_id s.metadata, eq_iff task_id task_id));
      no_attempt = λ n. rw w.attempts (
          ground (
            arith,
            find-delete_keys (λ k. k.0 == task_id) (task_id, n) s.attempts,
            eq_iff task_id task_id,
          ));
      no_incident = λ i r e. ground (
        arith,
        eq_iff r.task_id task_id,
        delete_where_left (λ _ x. x.task_id == task_id) i r s.incidents (rw w.incidents at e),
      );
      no_diagnosis = λ i r e. ground (
        arith,
        eq_iff r.task_id task_id,
        delete_where_left (λ _ x. x.task_id == task_id) i r s.diagnoses (rw w.diagnoses at e),
      );
      no_recovery = λ i r e.
          delete_where_left (λ _ x. recovers task_id x) i r s.recovery_plans (rw w.recoveries at e);
      grave = (
        buried now g,
        rw w.tombstones (
            ground (
              arith,
              find-modify task_id task_id (buried now) s.tombstones,
              eq_iff task_id task_id,
            )),
        refl,
      );
      other_tasks =
          λ j n. rw w.tasks (ground (arith, find-delete task_id j s.tasks, eq_iff task_id j));
      other_attempts = λ j k n. rw w.attempts (
          ground
            (arith, find-delete_keys (λ x. x.0 == task_id) (j, k) s.attempts, eq_iff j task_id));
      other_recoveries = λ i r e n.
          rw w.recoveries (delete_where_kept (λ _ x. recovers task_id x) i r s.recovery_plans e n);
      submissions = w.submissions;
    }

-- A purge by a plan that does not hold the tombstone, or of a task whose tombstone is already
-- deleted, raises.
pub purge_deleted_task_refused :
    (now : String) (stamp : ℕ) (task_id plan_id : String) (c : Bool) (s : Store)
    → owns_grave plan_id (find task_id s.tombstones) ≡ false
    → purge_deleted_task now stamp task_id plan_id c s ≡ err (value_error "任务删除状态不一致")
unfolding purge_deleted_task
purge_deleted_task_refused now stamp task_id plan_id c s h = ground arith
