-- ===== src/Store/Interrupted/Settled.antt =====
-- database.py: what the tables hold after `recover_interrupted_operations`, and which of them a second
-- call leaves alone.
use backend_wrf.Base.{
  ℕ, ◌≡◌, refl, sym, ◌∙◌, String, ◌==◌, string_eq, Bool-cases, inl, inr, false, ◌||◌, Option, none,
  some, arith,
}
use backend_wrf.Json.{num, get}
use backend_wrf.Json.Laws.{get-set}
use backend_wrf.Table.{find, map_rows}
use backend_wrf.Table.Laws.{
  find-map_rows, map_rows-map_rows, map_rows_kept, any_row-map_rows, on_some,
}
use mathlib.Core.Path.{subst}
use mathlib.Core.Option.{some-injective}
use backend_wrf.Store.{Store, DeletionPlan, Operation, CleanupPlan}
use backend_wrf.Store.Operations.{
  holds_reference, protects, cycle_held, reference_count, count_rows-map_rows,
}
use backend_wrf.Store.Interrupted.{
  recover_interrupted_operations, stop_cleanup, stop_deletion, forget_submission, forget_cancel,
  doubt_cleanup, block_cleanup, doubt_deletion, block_deletion, requested, lost_check, is_given,
  is_one,
}

abbrev pub settle_operation : Operation → Operation
settle_operation o = forget_cancel (forget_submission o)

abbrev pub settle_deletion : ℕ → DeletionPlan → DeletionPlan
settle_deletion stamp d = block_deletion (doubt_deletion (stop_deletion stamp d))

abbrev pub settle_cleanup : ℕ → CleanupPlan → CleanupPlan
settle_cleanup stamp c = block_cleanup (doubt_cleanup (stop_cleanup stamp c))

-- No operation waits for a reply that will not come.
abbrev pub IsSettledOperation : Operation → Type 0
IsSettledOperation o = (o.status == "submitting" || o.status == "cancel_pending") ≡ false

-- No deletion is being checked or executed, and none is about to be.
abbrev pub IsSettledDeletion : DeletionPlan → Type 0
IsSettledDeletion d = (d.status == "checking" || d.status == "executing" || requested d) ≡ false

-- No cleanup is executed, and none of a cycle is being checked.
abbrev pub IsSettledCleanup : CleanupPlan → Type 0
IsSettledCleanup c = (c.status == "executing" || lost_check c) ≡ false

settle_operation-IsSettledOperation : (o : Operation) → IsSettledOperation (settle_operation o)
unfolding forget_submission forget_cancel
settle_operation-IsSettledOperation o = elim (Bool-cases (o.status == "submitting")) [
  | inl a ↦ simp a
  | inr a ↦ elim (Bool-cases (o.status == "cancel_pending")) [
    | inl b ↦ simp (a, b)
    | inr b ↦ simp (a, b)
  ]
]

-- A stopped row asks for execution as before.
requested-stop_deletion :
    (stamp : ℕ) (d : DeletionPlan) → requested (stop_deletion stamp d) ≡ requested d
unfolding requested stop_deletion
requested-stop_deletion stamp d =
    ground (arith, get-set "finished_at" "execution_requested" (num stamp) d.details)

status-stop_deletion : (stamp : ℕ) (d : DeletionPlan) → (stop_deletion stamp d).status ≡ d.status
unfolding stop_deletion
status-stop_deletion stamp d = refl

block-doubt-IsSettledDeletion :
    (d : DeletionPlan) → IsSettledDeletion (block_deletion (doubt_deletion d))
unfolding doubt_deletion block_deletion requested
block-doubt-IsSettledDeletion d = elim (Bool-cases (d.status == "executing")) [
  | inl a ↦ simp a
  | inr a ↦ elim (Bool-cases (d.status == "checking")) [
    | inl b ↦ simp (a, b)
    | inr b ↦ elim (Bool-cases (d.status == "pending")) [
      | inl c ↦ elim (Bool-cases (is_one (get "execution_requested" d.details))) [
        | inl e ↦ simp (a, b, c, e)
        | inr e ↦ simp (a, b, c, e)
      ]
      | inr c ↦ simp (a, b, c)
    ]
  ]
]

block-doubt-IsSettledCleanup :
    (c : CleanupPlan) → IsSettledCleanup (block_cleanup (doubt_cleanup c))
unfolding doubt_cleanup block_cleanup lost_check
block-doubt-IsSettledCleanup c = elim (Bool-cases (c.status == "executing")) [
  | inl a ↦ simp a
  | inr a ↦ elim (Bool-cases (c.status == "checking")) [
    | inl b ↦ elim (Bool-cases (is_given (get "cycle" c.details))) [
      | inl e ↦ simp (a, b, e)
      | inr e ↦ simp (a, b, e)
    ]
    | inr b ↦ simp (a, b)
  ]
]

on_some_all {ℓ κ} :
    {A : Type ℓ} (P : A → Type κ) (f : A → A)
    → ((a : A) → P (f a))
    → (o : Option A) (b : A) → on_some f o ≡ some b
    → P b
on_some_all P f h none b e = absurd (cc)
on_some_all P f h (some a) b e = subst P (some-injective (f a) b e) (h a)

-- A settled row is left as it is.
settle_operation_settled : (o : Operation) → IsSettledOperation o → settle_operation o ≡ o
unfolding forget_submission forget_cancel
settle_operation_settled o h = ground arith

settle_deletion_settled :
    (stamp : ℕ) (d : DeletionPlan) → IsSettledDeletion d → settle_deletion stamp d ≡ d
unfolding stop_deletion doubt_deletion block_deletion requested
settle_deletion_settled stamp d h = ground arith

operations-recover :
    (stamp : ℕ) (s : Store)
    → (recover_interrupted_operations stamp s).operations ≡ map_rows settle_operation s.operations
unfolding recover_interrupted_operations
operations-recover stamp s = map_rows-map_rows forget_cancel forget_submission s.operations

deletion_plans-recover :
    (stamp : ℕ) (s : Store)
    → (recover_interrupted_operations stamp s).deletion_plans
      ≡ map_rows (settle_deletion stamp) s.deletion_plans
unfolding recover_interrupted_operations
deletion_plans-recover stamp s = rw (map_rows-map_rows, map_rows-map_rows)

cleanup_plans-recover :
    (stamp : ℕ) (s : Store)
    → (recover_interrupted_operations stamp s).cleanup_plans
      ≡ map_rows (settle_cleanup stamp) s.cleanup_plans
unfolding recover_interrupted_operations
cleanup_plans-recover stamp s = rw (map_rows-map_rows, map_rows-map_rows)

-- Every row of the three tables is settled.
pub record AllSettled (s : Store) : Type 0 where
  pub operations :
      (id : String) (o : Operation) → find id s.operations ≡ some o → IsSettledOperation o
  pub deletions :
      (id : String) (d : DeletionPlan) → find id s.deletion_plans ≡ some d → IsSettledDeletion d
  pub cleanups :
      (id : String) (c : CleanupPlan) → find id s.cleanup_plans ≡ some c → IsSettledCleanup c

-- Whatever was under way when the process stopped, after the recovery no forcing operation is
-- submitting or cancel_pending, no deletion is checking, executing or pending with execution
-- requested, and no cleanup is executing, or checking with a cycle.
pub recover-AllSettled :
    (stamp : ℕ) (s : Store) → AllSettled (recover_interrupted_operations stamp s)
recover-AllSettled stamp s = record {
  operations = λ id o h.
      on_some_all IsSettledOperation settle_operation settle_operation-IsSettledOperation
        (find id s.operations) o
        (sym (find-map_rows id settle_operation s.operations)
          ∙ (rw (operations-recover stamp s) at h));
  deletions = λ id d h.
      on_some_all IsSettledDeletion (settle_deletion stamp)
        (λ x. block-doubt-IsSettledDeletion (stop_deletion stamp x)) (find id s.deletion_plans) d
        (sym (find-map_rows id (settle_deletion stamp) s.deletion_plans)
          ∙ (rw (deletion_plans-recover stamp s) at h));
  cleanups = λ id c h.
      on_some_all IsSettledCleanup (settle_cleanup stamp)
        (λ x. block-doubt-IsSettledCleanup (stop_cleanup stamp x)) (find id s.cleanup_plans) c
        (sym (find-map_rows id (settle_cleanup stamp) s.cleanup_plans)
          ∙ (rw (cleanup_plans-recover stamp s) at h));
}

-- A second recovery, at any time, leaves the operations and the deletion plans as the first did.
pub recover_twice :
    (stamp stamp' : ℕ) (s : Store)
    → let t = recover_interrupted_operations stamp s in
      ((recover_interrupted_operations stamp' t).operations ≡ t.operations)
      × ((recover_interrupted_operations stamp' t).deletion_plans ≡ t.deletion_plans)
recover_twice stamp stamp' s = (
  operations-recover stamp' (recover_interrupted_operations stamp s)
      ∙ rw (operations-recover stamp s) (
          map_rows_kept settle_operation settle_operation s.operations (λ o.
            settle_operation_settled (settle_operation o) (settle_operation-IsSettledOperation o))),
  deletion_plans-recover stamp' (recover_interrupted_operations stamp s)
      ∙ rw (deletion_plans-recover stamp s) (
          map_rows_kept (settle_deletion stamp') (settle_deletion stamp) s.deletion_plans (λ d.
            settle_deletion_settled stamp' (settle_deletion stamp d)
              (block-doubt-IsSettledDeletion (stop_deletion stamp d)))),
)

protects-settle_operation :
    (source cycle : String) (o : Operation)
    → protects source cycle (settle_operation o) ≡ protects source cycle o
unfolding protects holds_reference forget_submission forget_cancel
protects-settle_operation source cycle o = elim (Bool-cases (o.status == "submitting")) [
  | inl a ↦ simp a
  | inr a ↦ elim (Bool-cases (o.status == "cancel_pending")) [
    | inl b ↦ simp (a, b) (ground arith)
    | inr b ↦ simp (a, b)
  ]
]

-- A restart releases no reference: every cycle of either source is held after the recovery
-- exactly if it was held before, and by as many operations.
pub recover-cycle_held :
    (stamp : ℕ) (s : Store) (source cycle : String)
    → let t = recover_interrupted_operations stamp s in
      (cycle_held source cycle t ≡ cycle_held source cycle s)
      × (reference_count source cycle t ≡ reference_count source cycle s)
unfolding cycle_held reference_count
recover-cycle_held stamp s source cycle = (
  rw (operations-recover stamp s) (
      any_row-map_rows (protects source cycle) settle_operation s.operations
        (protects-settle_operation source cycle)),
  rw (operations-recover stamp s) (
      count_rows-map_rows (protects source cycle) settle_operation s.operations
        (protects-settle_operation source cycle)),
)
