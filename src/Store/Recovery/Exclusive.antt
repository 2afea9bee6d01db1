-- ===== src/Store/Recovery/Exclusive.antt =====
-- database.py: recovery plans of one event under sequences of save, claim and finish.
use backend_wrf.Base.{
  ◌≡◌, ◌≢◌, refl, sym, ◌∙◌, ◌⊎◌, inl, inr, String, ◌==◌, string_eq, eq_iff, Bool-cases, true, false,
  some, Option-cases, arith, if◌then◌else◌,
}
use backend_wrf.Json.{Dict, str, get, truthy?, same?}
use backend_wrf.Table.{insert, modify}
use backend_wrf.Table.Laws.{find-insert, find-modify, any_row-find, on_some}
use backend_wrf.Store.{Store, RecoveryPlan, ok}
use backend_wrf.Store.Recovery.{
  save_recovery, recovery, claim_recovery, finish_recovery, settle_incident, is_claimed, same_event,
  competes, finished,
}
use backend_wrf.Store.Recovery.Claim.{Claimed, claim_recovery-Claimed, claim_recovery_refused}

-- The plan in row `id` was started, for the event `e`.
pub record StartedFor (e : String) (id : String) (s : Store) : Type 0 where
  pub row : RecoveryPlan
  pub found : recovery id s ≡ some row
  pub started : is_claimed row ≡ true
  pub event : get "event_id" row.details ≡ some (str e)

abbrev pub IsExclusive : Store → Type 0
IsExclusive s = (e i j : String) → e ≢ "" → StartedFor e i s → StartedFor e j s → i ≡ j

-- What `RecoveryService` sends to the store: a new plan, a claim, and the end of a plan that it
-- has claimed.
pub data RecoveryStep (s t : Store) : Type 0 where
  saved : (id : String) (details : Dict) → save_recovery id details s ≡ ok tt t → RecoveryStep s t
  claimed : (id : String) → t ≡ (claim_recovery id s).1 → RecoveryStep s t
  ended :
      (id status : String) (r : RecoveryPlan)
      → recovery id s ≡ some r
      → r.status ≡ "executing"
      → (status ≡ "accepted") ⊎ (status ≡ "unknown")
      → finish_recovery id status s ≡ ok tt t
      → RecoveryStep s t

pub data RecoverySteps (s : Store) : Store → Type 0 where
  start : RecoverySteps s s
  next : {t u : Store} → RecoverySteps s t → RecoveryStep t u → RecoverySteps s u

-- A step that starts no plan keeps the invariant.
IsExclusive-of_started :
    (s t : Store)
    → ((e i : String) → StartedFor e i t → StartedFor e i s)
    → IsExclusive s
    → IsExclusive t
IsExclusive-of_started s t back h e i j n a b = h e i j n (back e i a) (back e j b)

pending_not_claimed : (d : Dict) → is_claimed (record { details = d; status = "pending" }) ≡ false
unfolding is_claimed
pending_not_claimed d = refl

recovery-save_recovery :
    (id : String) (d : Dict) (s t : Store)
    → save_recovery id d s ≡ ok tt t
    → (j : String)
    → recovery j t
      ≡ (if id == j then some (record { details = d; status = "pending" }) else recovery j s)
unfolding save_recovery recovery
recovery-save_recovery id d s t h j =
    elim (Option-cases (insert id (record { details = d; status = "pending" }) s.recovery_plans)) [
      | inl taken ↦ ground arith
      | inr (u, there) ↦ ground (
        arith,
        find-insert id j (record { details = d; status = "pending" }) s.recovery_plans there,
      )
    ]

recovery_plans-settle_incident :
    (d : Dict) (s t : Store) → settle_incident d s ≡ ok tt t → t.recovery_plans ≡ s.recovery_plans
unfolding settle_incident
recovery_plans-settle_incident d s t h = ground arith

recovery_plans-finish_recovery :
    (id status : String) (s t : Store)
    → finish_recovery id status s ≡ ok tt t
    → t.recovery_plans ≡ modify id (finished status) s.recovery_plans
unfolding finish_recovery
recovery_plans-finish_recovery id status s t h =
    let s' : Store = record s { recovery_plans = modify id (finished status) s.recovery_plans } in
    elim (Option-cases (recovery id s')) [
      | inl absent ↦ ground arith
      | inr (r, there) ↦ ground (arith, recovery_plans-settle_incident r.details s' t)
    ]

recovery-finish_recovery :
    (id status : String) (s t : Store)
    → finish_recovery id status s ≡ ok tt t
    → (j : String)
    → recovery j t ≡ (if id == j then on_some (finished status) (recovery j s) else recovery j s)
unfolding recovery
recovery-finish_recovery id status s t h j =
    rw (recovery_plans-finish_recovery id status s t h)
      (find-modify id j (finished status) s.recovery_plans)

saved-StartedFor :
    (id : String) (d : Dict) (s t : Store)
    → save_recovery id d s ≡ ok tt t
    → (e i : String) → StartedFor e i t
    → StartedFor e i s
saved-StartedFor id d s t h e i a = record {
  row = a.row;
  found = ground (arith, recovery-save_recovery id d s t h i, pending_not_claimed d);
  started = a.started;
  event = a.event;
}

executing_claimed : (r : RecoveryPlan) → r.status ≡ "executing" → is_claimed r ≡ true
unfolding is_claimed
executing_claimed r h = ground (arith, eq_iff r.status "executing")

ended-StartedFor :
    (id status : String) (r : RecoveryPlan) (s t : Store)
    → recovery id s ≡ some r
    → r.status ≡ "executing"
    → finish_recovery id status s ≡ ok tt t
    → (e i : String) → StartedFor e i t
    → StartedFor e i s
ended-StartedFor id status r s t there running h e i a = elim (Bool-cases (id == i)) [
  | inl same ↦ record {
    row = r;
    found = ground (arith, eq_iff id i);
    started = executing_claimed r running;
    event = ground (arith, eq_iff id i, recovery-finish_recovery id status s t h i);
  }
  | inr differ ↦ record {
    row = a.row;
    found = ground (arith, recovery-finish_recovery id status s t h i);
    started = a.started;
    event = a.event;
  }
]

-- A claimed row with the plan's event is met by the loop of `claim_recovery`.
rival-competes :
    (e : String) (d : Dict) (r : RecoveryPlan)
    → e ≢ ""
    → get "event_id" d ≡ some (str e)
    → get "event_id" r.details ≡ some (str e)
    → is_claimed r ≡ true
    → competes d r ≡ true
unfolding competes same_event truthy? same?
rival-competes e d r n p q h = ground (arith, eq_iff e e, eq_iff e "")

no_rival_started :
    (e i j : String) (s : Store)
    → e ≢ ""
    → (c : Claimed i s (claim_recovery i s).1) → get "event_id" c.row.details ≡ some (str e)
    → StartedFor e j s
    → ⊥
unfolding recovery
no_rival_started e i j s n c own a = ground (
  arith,
  c.no_rival,
  any_row-find (competes c.row.details) j a.row s.recovery_plans a.found,
  rival-competes e c.row.details a.row n own a.event a.started,
)

-- After a claim, a started plan is the claimed one or was started before.
Claimed-StartedFor :
    (e i j : String) (s t : Store) → Claimed i s t → StartedFor e j t → (j ≡ i) ⊎ StartedFor e j s
Claimed-StartedFor e i j s t c a = elim (Bool-cases (i == j)) [
  | inl same ↦ inl (ground (arith, eq_iff i j))
  | inr differ ↦
      let other : i ≢ j = ground (arith, eq_iff i j) in
      inr (record {
        row = a.row;
        found = sym (c.others_kept j other) ∙ a.found;
        started = a.started;
        event = a.event;
      })
]

Claimed-event :
    (e i j : String) (s t : Store)
    → (c : Claimed i s t) → j ≡ i
    → StartedFor e j t
    → get "event_id" c.row.details ≡ some (str e)
Claimed-event e i j s t c same a = ground (arith, c.now_executing, a.found, a.event)

Claimed-IsExclusive :
    (id : String) (s : Store)
    → Claimed id s (claim_recovery id s).1
    → IsExclusive s
    → IsExclusive (claim_recovery id s).1
Claimed-IsExclusive id s c h e i j n a b =
    split (Claimed-StartedFor e id i s (claim_recovery id s).1 c a)
      (Claimed-StartedFor e id j s (claim_recovery id s).1 c b)
  where
    split : (i ≡ id) ⊎ StartedFor e i s → (j ≡ id) ⊎ StartedFor e j s → i ≡ j
    split (inl p) (inl q) = p ∙ sym q
    split (inl p) (inr b') =
        absurd
          (no_rival_started e id j s n c (Claimed-event e id i s (claim_recovery id s).1 c p a) b')
    split (inr a') (inl q) =
        absurd
          (no_rival_started e id i s n c (Claimed-event e id j s (claim_recovery id s).1 c q b) a')
    split (inr a') (inr b') = h e i j n a' b'

RecoveryStep-IsExclusive : {s t : Store} → RecoveryStep s t → IsExclusive s → IsExclusive t
RecoveryStep-IsExclusive {s} {t} (saved id d h) x =
    IsExclusive-of_started s t (saved-StartedFor id d s t h) x
RecoveryStep-IsExclusive {s} {t} (ended id status r there running _ h) x =
    IsExclusive-of_started s t (ended-StartedFor id status r s t there running h) x
RecoveryStep-IsExclusive {s} {t} (claimed id h) x = elim (Bool-cases (claim_recovery id s).0) [
  | inl won ↦ rw h (Claimed-IsExclusive id s (claim_recovery-Claimed id s won) x)
  | inr lost ↦ rw (h, claim_recovery_refused id s lost) x
]

-- From a store where no event has two started recovery plans, any sequence of saved plans, claims
-- and ends of executing plans reaches only such stores.
pub RecoverySteps-IsExclusive : {s t : Store} → IsExclusive s → RecoverySteps s t → IsExclusive t
RecoverySteps-IsExclusive x start = x
RecoverySteps-IsExclusive x (next r st) =
    RecoveryStep-IsExclusive st (RecoverySteps-IsExclusive x r)
