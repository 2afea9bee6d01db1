-- ===== src/Store/Deletion/Permanent.antt =====
-- database.py: the tombstone of a task under the store's methods on deletion and recovery plans.
use backend_wrf.Base.{
  ℕ, ◌≡◌, ◌≢◌, String, ◌==◌, string_eq, eq_iff, Bool, true, false, inl, inr, Option-cases, none,
  some, arith, if◌then◌else◌,
}
use backend_wrf.Json.{Items, Dict, str, get}
use backend_wrf.Table.{Table, find, insert, modify}
use backend_wrf.Table.Laws.{find-insert, find-modify}
use backend_wrf.Store.{Store, DeletionPlan, RecoveryPlan, Tombstone, ok}
use backend_wrf.Store.Recovery.{
  claim_recovery, claim_plan, save_recovery, finish_recovery, settle_incident, recovery,
}
use backend_wrf.Store.Deletion.{
  save_deletion, update_deletion_detail, reserve_deletion_execution, claim_deletion, claim_checked,
  write_claim, advance_deletion, reserve_directory_reconciliation, resume_deletion,
}
use backend_wrf.Store.Deletion.Purge.{purge_deleted_task, buried}
use backend_wrf.Store.Deletion.Claim.{
  HasGrave, HasGrave-deletion_blocked, claim_deletion-DeletionClaimed, claim_deletion_blocked,
  claim_recovery_blocked,
}

-- One call of a method on deletion or recovery plans.
pub data PlanStep (sha : Items → String) (s t : Store) : Type 0 where
  saved : (id : String) (r : DeletionPlan) → save_deletion id r s ≡ ok tt t → PlanStep sha s t
  detailed : (id : String) (d : Dict) → update_deletion_detail id d s ≡ ok tt t → PlanStep sha s t
  reserved : (id : String) → t ≡ (reserve_deletion_execution id s).1 → PlanStep sha s t
  claimed :
      (id task_id : String) (b : Bool) → claim_deletion sha id task_id s ≡ ok b t → PlanStep sha s t
  advanced : (id phase status : String) → t ≡ advance_deletion id phase status s → PlanStep sha s t
  reconciled :
      (id task_id actor : String) (proof : Dict)
      → t ≡ (reserve_directory_reconciliation id task_id actor proof s).1
      → PlanStep sha s t
  resumed : (id : String) → t ≡ (resume_deletion id s).1 → PlanStep sha s t
  purged :
      (now : String) (stamp : ℕ) (task_id id : String) (c : Bool)
      → purge_deleted_task now stamp task_id id c s ≡ ok tt t
      → PlanStep sha s t
  recovery_saved : (id : String) (d : Dict) → save_recovery id d s ≡ ok tt t → PlanStep sha s t
  recovery_claimed : (id : String) → t ≡ (claim_recovery id s).1 → PlanStep sha s t
  recovery_ended : (id status : String) → finish_recovery id status s ≡ ok tt t → PlanStep sha s t

pub data PlanSteps (sha : Items → String) (s : Store) : Store → Type 0 where
  start : PlanSteps sha s s
  next : {t u : Store} → PlanSteps sha s t → PlanStep sha t u → PlanSteps sha s u

HasGrave-of_tombstones :
    (task_id plan_id : String) (s t : Store)
    → t.tombstones ≡ s.tombstones
    → HasGrave task_id plan_id s
    → HasGrave task_id plan_id t
HasGrave-of_tombstones task_id plan_id s t e g = record {
  grave = g.grave;
  found = rw e g.found;
  owner = g.owner;
}

tombstones-finish_recovery :
    (id status : String) (s t : Store)
    → finish_recovery id status s ≡ ok tt t
    → t.tombstones ≡ s.tombstones
unfolding finish_recovery settle_incident
tombstones-finish_recovery id status s t h = ground arith

tombstones-claim_recovery :
    (id : String) (s : Store) → (claim_recovery id s).1.tombstones ≡ s.tombstones
unfolding claim_recovery claim_plan
tombstones-claim_recovery id s = ground arith

tombstones-purge_deleted_task :
    (now : String) (stamp : ℕ) (task_id id : String) (c : Bool) (s t : Store)
    → purge_deleted_task now stamp task_id id c s ≡ ok tt t
    → t.tombstones ≡ modify task_id (buried now) s.tombstones
unfolding purge_deleted_task
tombstones-purge_deleted_task now stamp task_id id c s t h = ground arith

HasGrave-purge_deleted_task :
    (now : String) (stamp : ℕ) (j id task_id plan_id : String) (c : Bool) (s t : Store)
    → purge_deleted_task now stamp j id c s ≡ ok tt t
    → HasGrave task_id plan_id s
    → HasGrave task_id plan_id t
HasGrave-purge_deleted_task now stamp j id task_id plan_id c s t h g = record {
  grave = if j == task_id then buried now g.grave else g.grave;
  found =
      rw (tombstones-purge_deleted_task now stamp j id c s t h)
        (ground (arith, find-modify j task_id (buried now) s.tombstones, g.found));
  owner = ground (arith, g.owner);
}

insert_fresh :
    (j : String) (v : Tombstone) (s : Store) {u : Table String Tombstone}
    → insert j v s.tombstones ≡ some u
    → find j s.tombstones ≡ none
unfolding insert
insert_fresh j v s h = ground arith

tombstones-write_claim :
    (id j : String) (s t : Store) (b : Bool) (task_id : String) (g : Tombstone)
    → write_claim id j s ≡ ok b t
    → find task_id s.tombstones ≡ some g
    → find task_id t.tombstones ≡ some g
unfolding write_claim
tombstones-write_claim id j s t b task_id g h f =
    let new : Tombstone = record {
      deletion_plan_id = id;
      status = "deleting";
      deleted_at = none;
    } in
    elim (Option-cases (insert j new s.tombstones)) [
      | inl taken ↦ absurd (ground arith)
      | inr (u, there) ↦ ground (
        arith,
        find-insert j task_id new s.tombstones there,
        insert_fresh j new s there,
        eq_iff j task_id,
      )
    ]

HasGrave-claim_deletion :
    (sha : Items → String) (id j task_id plan_id : String) (b : Bool) (s t : Store)
    → claim_deletion sha id j s ≡ ok b t
    → HasGrave task_id plan_id s
    → HasGrave task_id plan_id t
unfolding claim_deletion claim_checked
HasGrave-claim_deletion sha id j task_id plan_id b s t h g = record {
  grave = g.grave;
  found = ground (arith, g.found, tombstones-write_claim id j s t b task_id g.grave);
  owner = g.owner;
}

PlanStep-HasGrave :
    (sha : Items → String) (task_id plan_id : String) {s t : Store}
    → PlanStep sha s t
    → HasGrave task_id plan_id s
    → HasGrave task_id plan_id t
unfolding save_deletion update_deletion_detail reserve_deletion_execution advance_deletion
    reserve_directory_reconciliation resume_deletion save_recovery
PlanStep-HasGrave sha k p {s} {t} (saved id r h) g = HasGrave-of_tombstones k p s t (ground arith) g
PlanStep-HasGrave sha k p {s} {t} (detailed id d h) g =
    HasGrave-of_tombstones k p s t (ground arith) g
PlanStep-HasGrave sha k p {s} {t} (reserved id h) g =
    HasGrave-of_tombstones k p s t (ground arith) g
PlanStep-HasGrave sha k p {s} {t} (claimed id j b h) g =
    HasGrave-claim_deletion sha id j k p b s t h g
PlanStep-HasGrave sha k p {s} {t} (advanced id ph st h) g =
    HasGrave-of_tombstones k p s t (ground arith) g
PlanStep-HasGrave sha k p {s} {t} (reconciled id j a d h) g =
    HasGrave-of_tombstones k p s t (ground arith) g
PlanStep-HasGrave sha k p {s} {t} (resumed id h) g = HasGrave-of_tombstones k p s t (ground arith) g
PlanStep-HasGrave sha k p {s} {t} (purged now stamp j id c h) g =
    HasGrave-purge_deleted_task now stamp j id k p c s t h g
PlanStep-HasGrave sha k p {s} {t} (recovery_saved id d h) g =
    HasGrave-of_tombstones k p s t (ground arith) g
PlanStep-HasGrave sha k p {s} {t} (recovery_claimed id h) g =
    HasGrave-of_tombstones k p s t (ground (arith, tombstones-claim_recovery id s)) g
PlanStep-HasGrave sha k p {s} {t} (recovery_ended id status h) g =
    HasGrave-of_tombstones k p s t (tombstones-finish_recovery id status s t h) g

PlanSteps-HasGrave :
    (sha : Items → String) (task_id plan_id : String) {s t : Store}
    → PlanSteps sha s t
    → HasGrave task_id plan_id s
    → HasGrave task_id plan_id t
PlanSteps-HasGrave sha k p start g = g
PlanSteps-HasGrave sha k p (next r st) g =
    PlanStep-HasGrave sha k p st (PlanSteps-HasGrave sha k p r g)

-- A task that a deletion has claimed stays claimed by that plan through any calls on deletion and
-- recovery plans: no later claim of its deletion and no claim of one of its recovery plans succeeds.
pub PlanSteps-claimed_for_good :
    (sha : Items → String) (task_id plan_id : String) (s t : Store)
    → task_id ≢ ""
    → claim_deletion sha plan_id task_id s ≡ ok true t
    → (u : Store) → PlanSteps sha t u
    → HasGrave task_id plan_id u
      × ((other : String) → claim_deletion sha other task_id u ≡ ok false u)
      × ((id : String)
          → ((r : RecoveryPlan)
              → recovery id u ≡ some r
              → get "task_id" r.details ≡ some (str task_id))
          → claim_recovery id u ≡ (false, u))
PlanSteps-claimed_for_good sha task_id plan_id s t n h u steps =
    let c = claim_deletion-DeletionClaimed sha plan_id task_id s t h in
    let g = PlanSteps-HasGrave sha task_id plan_id steps c.now_grave in
    (
      g,
      λ other.
          claim_deletion_blocked sha other task_id u
            (HasGrave-deletion_blocked task_id plan_id u g),
      λ id own. claim_recovery_blocked id task_id plan_id u n g own,
    )
