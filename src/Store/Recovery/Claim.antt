-- ===== src/Store/Recovery/Claim.antt =====
-- database.py: what a claim of a recovery plan needs, and what it changes.
use backend_wrf.Base.{
  ◌≡◌, ◌≢◌, ◌⊎◌, ◌↔◌, refl, ap, String, string_eq, eq_iff, ◌==◌, ◌&&◌, Bool, true, false, [], ◌∷◌,
  Bool-cases, Option, Option-cases, inl, inr, none, some, arith,
}
use mathlib.Core.List.{Mem, mem-cons_self, mem-cons_of_mem, not-mem-nil, eq-or-mem_of_mem-cons}
use mathlib.Core.Logic.Or
use backend_wrf.Json.{Json, null, bool, num, arr, obj, Dict, str, get, truthy?, same?}
use backend_wrf.Table.{Table, find, any_row}
use backend_wrf.Table.Laws.{find-modify}
use backend_wrf.Store.{Store, RecoveryPlan, text_of, deletion_blocked}
use backend_wrf.Store.Recovery.{
  claim_recovery, claim_plan, recovery, competes, is_claimed, same_event, same_state, task_blocked,
  executing,
}

-- What holds before and after a claim that returned `True`.
pub record Claimed (id : String) (s t : Store) : Type 0 where
  pub row : RecoveryPlan
  pub found : recovery id s ≡ some row
  pub was_pending : row.status ≡ "pending"
  pub task_alive : task_blocked row.details s ≡ false
  pub no_rival : any_row (competes row.details) s.recovery_plans ≡ false
  pub now_executing : recovery id t ≡ some (executing row)
  pub others_kept : (j : String) → id ≢ j → recovery j t ≡ recovery j s

claim_of_absent : (id : String) (s : Store) → recovery id s ≡ none → (claim_recovery id s).0 ≢ true
unfolding claim_recovery
claim_of_absent id s e h = ground arith

claim_plan-Claimed :
    (id : String) (r : RecoveryPlan) (s : Store)
    → recovery id s ≡ some r
    → (claim_plan id r s).0 ≡ true
    → Claimed id s (claim_plan id r s).1
unfolding claim_plan recovery
claim_plan-Claimed id r s e h = record {
  row = r;
  found = e;
  was_pending = ground (arith, eq_iff r.status "pending");
  task_alive = ground arith;
  no_rival = ground arith;
  now_executing = ground (arith, find-modify id id executing s.recovery_plans, eq_iff id id);
  others_kept = λ j n. ground (arith, find-modify id j executing s.recovery_plans, eq_iff id j);
}

-- A claim that returns True found the plan pending, its task not deleted and no claimed plan of
-- the same event or state; it sets that plan to executing and leaves every other plan as it was.
pub claim_recovery-Claimed :
    (id : String) (s : Store)
    → (claim_recovery id s).0 ≡ true
    → Claimed id s (claim_recovery id s).1
unfolding claim_recovery
claim_recovery-Claimed id s h = elim (Option-cases (recovery id s)) [
  | inl absent ↦ absurd (claim_of_absent id s absent h)
  | inr (r, there) ↦
      rw (there, claim_recovery) (claim_plan-Claimed id r s there (rw (there, claim_recovery) at h))
]

unclaimed :
    (id : String) (s : Store) (row : RecoveryPlan)
    → recovery id s ≡ some row
    → row.status ≡ "pending"
    → task_blocked row.details s ≡ false
    → any_row (competes row.details) s.recovery_plans ≡ false
    → (claim_recovery id s).0 ≡ true
unfolding claim_recovery claim_plan
unclaimed id s row found pending alive free =
    rw (found, claim_recovery) (ground (arith, eq_iff row.status "pending", alive, free, pending))

-- The status of a plan that has been claimed and has not failed.
abbrev pub IsClaimed : String → Type 0
IsClaimed status = (status ≡ "executing") ⊎ (status ≡ "accepted") ⊎ (status ≡ "unknown")

-- Another plan stands in the way: it has been claimed, and it was made for the same event, or from the
-- same fingerprint of the same attempt of the same task. Values are compared as Python does.
pub data Rivals (plan : Dict) (other : RecoveryPlan) : Type 0 where
  on_event :
      IsClaimed other.status
      → truthy? (get "event_id" plan) ≡ true
      → same? (get "event_id" other.details) (get "event_id" plan) ≡ true
      → Rivals plan other
  on_state :
      IsClaimed other.status
      → truthy? (get "fingerprint" plan) ≡ true
      → same? (get "task_id" other.details) (get "task_id" plan) ≡ true
      → same? (get "attempt_no" other.details) (get "attempt_no" plan) ≡ true
      → same? (get "fingerprint" other.details) (get "fingerprint" plan) ≡ true
      → Rivals plan other

-- A plan can be claimed: it is pending, its task has no tombstone and no row of the plans rivals it.
pub record CanClaim (id : String) (s : Store) : Type 0 where
  pub row : RecoveryPlan
  pub found : recovery id s ≡ some row
  pub is_pending : row.status ≡ "pending"
  pub task_alive :
      (t : String) → get "task_id" row.details ≡ some (str t) → t ≢ "" → find t s.tombstones ≡ none
  pub no_rival :
      (other : String × RecoveryPlan)
      → Mem other s.recovery_plans
      → ¬ (Rivals row.details (other.1))

competes_elim :
    (plan : Dict) (other : RecoveryPlan) → competes plan other ≡ true → Rivals plan other
unfolding competes is_claimed same_event same_state
competes_elim plan other h =
    elim (Bool-cases (
      truthy? (get "event_id" plan)
      && same? (get "event_id" other.details) (get "event_id" plan))) [
        | inl e ↦ on_event claimed (ground arith) (ground arith)
        | inr e ↦ on_state claimed (ground arith) (ground arith) (ground arith) (ground arith)
      ]
  where
    claimed : IsClaimed other.status
    claimed = ground (
      arith,
      eq_iff other.status "executing",
      eq_iff other.status "accepted",
      eq_iff other.status "unknown",
    )

competes_intro :
    (plan : Dict) (other : RecoveryPlan) → Rivals plan other → competes plan other ≡ true
unfolding competes is_claimed same_event same_state
competes_intro plan other (on_event c e f) = ground (
  arith,
  eq_iff other.status "executing",
  eq_iff other.status "accepted",
  eq_iff other.status "unknown",
)
competes_intro plan other (on_state c e f g k) = ground (
  arith,
  eq_iff other.status "executing",
  eq_iff other.status "accepted",
  eq_iff other.status "unknown",
)

module _ {K V : Type 0} (p : V → Bool) where
  any_row-none :
      (t : Table K V) → ((x : K × V) → Mem x t → ¬ (p (x.1) ≡ true)) → any_row p t ≡ false
  unfolding any_row
  any_row-none [] h = refl
  any_row-none ((k, v) ∷ t) h =
      ground (arith, h (k, v) mem-cons_self, any_row-none t (λ x m. h x (mem-cons_of_mem (k, v) m)))

  any_row-Mem : (t : Table K V) → any_row p t ≡ false → (x : K × V) → Mem x t → ¬ (p (x.1) ≡ true)
  unfolding any_row
  any_row-Mem [] h x m = absurd (not-mem-nil m)
  any_row-Mem ((k, v) ∷ t) h x m = λ e.
      Or.elim (hlevel) (eq-or-mem_of_mem-cons m)
        (λ q. absurd (ground (arith, ap (λ y. p (y.1)) q, e)))
        (λ r. any_row-Mem t (ground arith) x r e)

task_blocked_elim :
    (plan : Dict) (s : Store)
    → task_blocked plan s ≡ false
    → (t : String) → get "task_id" plan ≡ some (str t)
    → t ≢ ""
    → find t s.tombstones ≡ none
unfolding task_blocked text_of deletion_blocked
task_blocked_elim plan s h t e n = elim (Option-cases (find t s.tombstones)) [
  | inl a ↦ a
  | inr (g, a) ↦ absurd (ground (arith, e, a, eq_iff t ""))
]

text_cases : (o : Option Json) → ((t : String) × (o ≡ some (str t))) ⊎ (text_of o ≡ none)
unfolding text_of
text_cases (some (str t)) = inl (t, refl)
text_cases none = inr refl
text_cases (some null) = inr refl
text_cases (some (bool b)) = inr refl
text_cases (some (num n)) = inr refl
text_cases (some (arr l)) = inr refl
text_cases (some (obj d)) = inr refl

task_blocked_intro :
    (plan : Dict) (s : Store)
    → ((t : String) → get "task_id" plan ≡ some (str t) → t ≢ "" → find t s.tombstones ≡ none)
    → task_blocked plan s ≡ false
unfolding task_blocked text_of deletion_blocked
task_blocked_intro plan s h = elim (text_cases (get "task_id" plan)) [
  | inl (t, e) ↦ elim (Bool-cases (t == "")) [
    | inl n ↦ ground (arith, e, n)
    | inr n ↦ ground (arith, e, n, h t e, eq_iff t "")
  ]
  | inr e ↦ ground (arith, e)
]

-- A plan is claimed exactly if it can be: if it is pending, its task has no tombstone, and no row that
-- is executing, accepted or unknown was made for the same event or for the same state of the same
-- attempt.
pub claim_recovery-CanClaim :
    (id : String) (s : Store) → ((claim_recovery id s).0 ≡ true) ↔ CanClaim id s
claim_recovery-CanClaim id s = (claimed, can)
  where
    claimed : (claim_recovery id s).0 ≡ true → CanClaim id s
    claimed h =
        let c = claim_recovery-Claimed id s h in
        record {
          row = c.row;
          found = c.found;
          is_pending = c.was_pending;
          task_alive = task_blocked_elim c.row.details s c.task_alive;
          no_rival = λ x m r.
              any_row-Mem (competes c.row.details) s.recovery_plans c.no_rival x m
                (competes_intro c.row.details (x.1) r);
        }

    can : CanClaim id s → (claim_recovery id s).0 ≡ true
    can c =
        unclaimed id s c.row c.found c.is_pending (task_blocked_intro c.row.details s c.task_alive)
          (any_row-none (competes c.row.details) s.recovery_plans
            (λ x m e. c.no_rival x m (competes_elim c.row.details (x.1) e)))

-- A claim that returns False changes nothing.
pub claim_recovery_refused :
    (id : String) (s : Store) → (claim_recovery id s).0 ≡ false → (claim_recovery id s).1 ≡ s
unfolding claim_recovery claim_plan
claim_recovery_refused id s h = ground arith
