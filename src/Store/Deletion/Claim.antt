-- ===== src/Store/Deletion/Claim.antt =====
-- database.py: what a claim of a deletion needs and does, and what it means for recoveries of the task.
use backend_wrf.Base.{
  ◌≡◌, ◌≢◌, refl, String, string_eq, eq_iff, true, false, inl, inr, Option-cases, none, some, arith,
}
use backend_wrf.Json.{Json, Items, str, get, same}
use backend_wrf.Table.{find, insert, modify, any_row}
use backend_wrf.Table.Laws.{find-insert, find-modify}
use backend_wrf.Store.{Store, Task, DeletionPlan, Tombstone, ok, deletion_blocked, text_of}
use backend_wrf.Store.Recovery.{recovery, claim_recovery, claim_plan, task_blocked}
use backend_wrf.Store.Deletion.{
  claim_deletion, claim_checked, write_claim, claimed, is_finished, manifest_fingerprint,
  fingerprint_items, recovery_runs,
}

-- The plan `plan_id` holds the tombstone of the task.
pub record HasGrave (task_id plan_id : String) (s : Store) : Type 0 where
  pub grave : Tombstone
  pub found : find task_id s.tombstones ≡ some grave
  pub owner : grave.deletion_plan_id ≡ plan_id

module _ (sha : Items → String) where
  -- What holds before and after a claim that returned `True`.
  pub record DeletionClaimed (plan_id task_id : String) (s t : Store) : Type 0 where
    pub row : DeletionPlan
    pub plan_found : find plan_id s.deletion_plans ≡ some row
    pub was_pending : row.status ≡ "pending"
    pub task : Task
    pub task_found : find task_id s.tasks ≡ some task
    pub task_finished : is_finished task.status ≡ true
    pub no_grave : deletion_blocked task_id s ≡ false
    pub expected : Json
    pub manifest : manifest_fingerprint row.details ≡ inr expected
    pub unchanged : same (str (sha (fingerprint_items task))) expected ≡ true
    pub no_recovery : any_row (recovery_runs task_id) s.recovery_plans ≡ false
    pub now_grave : HasGrave task_id plan_id t
    pub now_executing : find plan_id t.deletion_plans ≡ some (claimed row)
    pub same_tasks : t.tasks ≡ s.tasks

write_claim-HasGrave :
    (plan_id task_id : String) (s t : Store)
    → write_claim plan_id task_id s ≡ ok true t
    → HasGrave task_id plan_id t
unfolding write_claim
write_claim-HasGrave plan_id task_id s t h =
    let grave : Tombstone = record {
      deletion_plan_id = plan_id;
      status = "deleting";
      deleted_at = none;
    } in
    elim (Option-cases (insert task_id grave s.tombstones)) [
      | inl taken ↦ absurd (ground arith)
      | inr (u, there) ↦ record {
        grave = grave;
        found =
            ground
              (arith, find-insert task_id task_id grave s.tombstones there, eq_iff task_id task_id);
        owner = refl;
      }
    ]

write_claim-deletion_plans :
    (plan_id task_id : String) (s t : Store)
    → write_claim plan_id task_id s ≡ ok true t
    → t.deletion_plans ≡ modify plan_id claimed s.deletion_plans
unfolding write_claim
write_claim-deletion_plans plan_id task_id s t h = ground arith

write_claim-tasks :
    (plan_id task_id : String) (s t : Store)
    → write_claim plan_id task_id s ≡ ok true t
    → t.tasks ≡ s.tasks
unfolding write_claim
write_claim-tasks plan_id task_id s t h = ground arith

module _ (sha : Items → String) where
  claim_checked-DeletionClaimed :
      (plan_id task_id : String) (r : DeletionPlan) (task : Task) (s t : Store)
      → find plan_id s.deletion_plans ≡ some r
      → find task_id s.tasks ≡ some task
      → claim_checked sha plan_id task_id r task s ≡ ok true t
      → (v : Json) → manifest_fingerprint r.details ≡ inr v
      → DeletionClaimed sha plan_id task_id s t
  unfolding claim_checked
  claim_checked-DeletionClaimed plan_id task_id r task s t rf tf h v m =
      let w : write_claim plan_id task_id s ≡ ok true t = ground arith in
      record {
        row = r;
        plan_found = rf;
        was_pending = ground (arith, eq_iff r.status "pending");
        task = task;
        task_found = tf;
        task_finished = ground arith;
        no_grave = ground arith;
        expected = v;
        manifest = m;
        unchanged = ground arith;
        no_recovery = ground arith;
        now_grave = write_claim-HasGrave plan_id task_id s t w;
        now_executing = ground (
          arith,
          write_claim-deletion_plans plan_id task_id s t w,
          find-modify plan_id plan_id claimed s.deletion_plans,
          eq_iff plan_id plan_id,
        );
        same_tasks = write_claim-tasks plan_id task_id s t w;
      }

  claim_checked-manifest :
      (plan_id task_id : String) (r : DeletionPlan) (task : Task) (s t : Store)
      → claim_checked sha plan_id task_id r task s ≡ ok true t
      → (v : Json) × (manifest_fingerprint r.details ≡ inr v)
  unfolding claim_checked
  claim_checked-manifest plan_id task_id r task s t h = split (manifest_fingerprint r.details) refl
    where
      split :
          (m : _)
          → manifest_fingerprint r.details ≡ m
          → (v : Json) × (manifest_fingerprint r.details ≡ inr v)
      split (inl e) p = absurd (ground arith)
      split (inr v) p = (v, p)

  -- A claim of a deletion that returns True found the plan pending, the task finished, no tombstone
  -- of it, its fingerprint as in the plan's manifest and no recovery of it that is executing or
  -- unknown. It puts up the task's tombstone for that plan, sets the plan to executing and keeps
  -- the tasks.
  pub claim_deletion-DeletionClaimed :
      (plan_id task_id : String) (s t : Store)
      → claim_deletion sha plan_id task_id s ≡ ok true t
      → DeletionClaimed sha plan_id task_id s t
  unfolding claim_deletion
  claim_deletion-DeletionClaimed plan_id task_id s t h =
      elim (Option-cases (find plan_id s.deletion_plans)) [
        | inl absent ↦ absurd (ground arith)
        | inr (r, rf) ↦ elim (Option-cases (find task_id s.tasks)) [
          | inl absent ↦ absurd (ground arith)
          | inr (task, tf) ↦
              let c : claim_checked sha plan_id task_id r task s ≡ ok true t = ground arith in
              let (v, m) = claim_checked-manifest plan_id task_id r task s t c in
              claim_checked-DeletionClaimed plan_id task_id r task s t rf tf c v m
        ]
      ]

  -- While a task has a tombstone every claim of its deletion returns False and changes nothing.
  pub claim_deletion_blocked :
      (plan_id task_id : String) (s : Store)
      → deletion_blocked task_id s ≡ true
      → claim_deletion sha plan_id task_id s ≡ ok false s
  unfolding claim_deletion claim_checked
  claim_deletion_blocked plan_id task_id s h = ground arith

pub HasGrave-deletion_blocked :
    (task_id plan_id : String) (s : Store)
    → HasGrave task_id plan_id s
    → deletion_blocked task_id s ≡ true
unfolding deletion_blocked
HasGrave-deletion_blocked task_id plan_id s g = ground (arith, g.found)

-- No recovery plan of a task with a tombstone is claimed.
pub claim_recovery_blocked :
    (id task_id plan_id : String) (s : Store)
    → task_id ≢ ""
    → HasGrave task_id plan_id s
    → ((r : _) → recovery id s ≡ some r → get "task_id" r.details ≡ some (str task_id))
    → claim_recovery id s ≡ (false, s)
unfolding claim_recovery claim_plan task_blocked text_of
claim_recovery_blocked id task_id plan_id s n g own = elim (Option-cases (recovery id s)) [
  | inl absent ↦ ground arith
  | inr (r, there) ↦
      ground (arith, own r there, HasGrave-deletion_blocked task_id plan_id s g, eq_iff task_id "")
]
