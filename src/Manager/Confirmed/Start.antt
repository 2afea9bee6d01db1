-- ===== src/Manager/Confirmed/Start.antt =====
-- task_manager.py: `start`, and which tasks are called cancelled.
use backend_wrf.Base.{
  ℕ, ◌≡◌, refl, ap, ◌∙◌, ◌==◌, string_eq, eq_iff, String, Bool, true, false, not, none, some, List,
  [], ◌∷◌, inl, inr, arith, if◌then◌else◌, Bool-cases, Option-cases,
}
use backend_wrf.Json.{Dict, update}
use backend_wrf.Table.{find}
use backend_wrf.Store.{Store, Task}
use backend_wrf.Store.Interrupted.{recover_interrupted_operations}
use backend_wrf.Store.Tasks.{Env, Changes, no_changes, get_task, or_old}
use backend_wrf.Store.Tasks.Laws.{get_task-update_task}
use backend_wrf.Manager.{Manager, add, launched, put, merge_runtime}
use backend_wrf.Manager.Dispatch.{Host, Dispatched, launches, declines, fails, dispatch, dispatched}
use backend_wrf.Manager.Cancel.{cancelled_now}
use backend_wrf.Manager.Cancel.Keeps.{Harmless, dispatch_keeps}
use backend_wrf.Manager.Start.{
  Entry, active, reconciles_again, start_tasks, finish_cancel, finish_cancels, start,
}
use backend_wrf.Manager.Confirmed.{Confirmed, Confirmed-Harmless, launched-update}
use backend_wrf.Manager.Confirmed.Cancel.{
  Confirmed-put_status, Confirmed-put_cancelled, store-start_remote_cancel,
}
use backend_wrf.Manager.Confirmed.Again.{Confirmed-tasks}

-- the task under the id, if there is one, was launched or not
pub HasLaunched : String → Bool → Store → Type 0
HasLaunched id b s = (u : Task) → get_task id s ≡ some u → launched u.runtime ≡ b

HasLaunched-put :
    (id : String) (b : Bool) (env : Env) (i : String) (c : Changes) (m : Manager)
    → ((u : Task)
        → get_task i m.store ≡ some u
        → launched (or_old c.runtime u.runtime) ≡ launched u.runtime)
    → HasLaunched id b m.store
    → HasLaunched id b (put env i c m).store
unfolding HasLaunched put
HasLaunched-put id b env i c m same old u h = elim (Bool-cases (i == id)) [
  | inr e ↦ old u (ground (arith, h, e, get_task-update_task env i id c m.store))
  | inl e ↦ elim (Option-cases (get_task id m.store)) [
    | inl absent ↦ absurd (ground (arith, h, e, absent, get_task-update_task env i id c m.store))
    | inr (t, there) ↦
        let kept : launched (or_old c.runtime t.runtime) ≡ launched t.runtime =
          same t (ap (λ x. get_task x m.store) ((eq_iff i id).0 e) ∙ there) in
        let is : u.runtime ≡ or_old c.runtime t.runtime =
          ground (arith, h, e, there, get_task-update_task env i id c m.store) in
        ap (λ r. launched r) is ∙ (kept ∙ old t there)
  ]
]

HasLaunched-merge_runtime :
    (id : String) (b : Bool) (env : Env) (i : String) (v : Dict) (m : Manager)
    → Harmless v
    → HasLaunched id b m.store
    → HasLaunched id b (merge_runtime env i v m).store
unfolding merge_runtime
HasLaunched-merge_runtime id b env i v m harmless old = elim (Option-cases (get_task i m.store)) [
  | inl absent ↦ rw (absent, merge_runtime) old
  | inr (t, there) ↦
      rw (there, merge_runtime)
        (HasLaunched-put id b env i (record no_changes { runtime = some (update t.runtime v) }) m
          (λ u h. ground (arith, h, there, launched-update t.runtime v harmless)) old)
]

-- The rows have different ids: the task found under the id of a row is the row's.
pub Agrees : List Entry → Store → Type 0
Agrees [] s = Unit {0}
Agrees ((id, t) ∷ items) s = HasLaunched id (launched t.runtime) s × Agrees items s

Agrees-put :
    (items : List Entry) (env : Env) (i : String) (c : Changes) (m : Manager)
    → c.runtime ≡ none
    → Agrees items m.store
    → Agrees items (put env i c m).store
unfolding Agrees
Agrees-put [] env i c m e a = tt
Agrees-put ((id, t) ∷ items) env i c m e (here, later) = (
  HasLaunched-put id (launched t.runtime) env i c m (λ u h. rw e refl) here,
  Agrees-put items env i c m e later,
)

Agrees-merge_runtime :
    (items : List Entry) (env : Env) (i : String) (v : Dict) (m : Manager)
    → Harmless v
    → Agrees items m.store
    → Agrees items (merge_runtime env i v m).store
unfolding Agrees
Agrees-merge_runtime [] env i v m harmless a = tt
Agrees-merge_runtime ((id, t) ∷ items) env i v m harmless (here, later) = (
  HasLaunched-merge_runtime id (launched t.runtime) env i v m harmless here,
  Agrees-merge_runtime items env i v m harmless later,
)

Agrees-tasks :
    (items : List Entry) (s u : Store) → s.tasks ≡ u.tasks → Agrees items s → Agrees items u
unfolding Agrees HasLaunched get_task
Agrees-tasks [] s u e a = tt
Agrees-tasks ((id, t) ∷ items) s u e (here, later) =
    (λ v h. here v (ap (λ x. find id x) e ∙ h), Agrees-tasks items s u e later)

-- what holds during the start
record Ready (items : List Entry) (s : Store) : Type 0 where
  confirmed : Confirmed s
  agrees : Agrees items s

Ready-dispatch :
    (items : List Entry) (env : Env) (h : Host) (clock : ℕ) (id : String) (m : Manager)
    → Ready items m.store
    → Ready items (dispatched (dispatch env h clock id m)).store
Ready-dispatch items env h clock id m r =
    dispatch_keeps (Ready items)
      (λ e i v n k d. record {
        confirmed = Confirmed-Harmless e i v n k d.confirmed;
        agrees = Agrees-merge_runtime items e i v n k d.agrees;
      })
      env h clock id m r

Ready-before :
    (items : List Entry) (env : Env) (id : String) (b : Bool) (m : Manager)
    → Ready items m.store
    → Ready items (if b then m else put env id reconciles_again m).store
Ready-before items env id true m r = r
Ready-before items env id false m r = record {
  confirmed = Confirmed-put_status env id reconciles_again "reconciling" m refl refl r.confirmed;
  agrees = Agrees-put items env id reconciles_again m refl r.agrees;
}

Ready-start_tasks :
    (items : List Entry) (env : Env) (h : Host) (clock : ℕ) (later : List Entry) (m : Manager)
    → Ready items m.store
    → Ready items (start_tasks env h clock later m).1.store
unfolding start_tasks
Ready-start_tasks items env h clock [] m r = r
Ready-start_tasks items env h clock ((id, t) ∷ later) m r =
    elim (Bool-cases (t.status == "cancel_pending")) [
      | inl c ↦
          rw (c, start_tasks)
            (Ready-start_tasks items env h clock later (record m { cancelled = add id m.cancelled })
              r)
      | inr c ↦
          rw (c, start_tasks)
            (go
              (dispatch env h clock id
                (if t.status == "queued" then m else put env id reconciles_again m))
              (Ready-dispatch items env h clock id _
                (Ready-before items env id (t.status == "queued") m r))
              (λ u. Ready-start_tasks items env h clock later u))
    ]
  where
    go :
        (d : Dispatched)
        → Ready items (dispatched d).store
        → ((u : Manager)
            → Ready items u.store
            → Ready items (start_tasks env h clock later u).1.store)
        → Ready items
            (elim d as (λ x. Bool × Manager) [
              | launches u ↦ start_tasks env h clock later u
              | declines u ↦ start_tasks env h clock later u
              | fails u ↦ (false, u)
            ]).1.store
    go (launches u) k more = more u k
    go (declines u) k more = more u k
    go (fails u) k more = k

Ready-finish_cancel :
    (env : Env) (id : String) (t : Task) (later : List Entry) (m : Manager)
    → Ready ((id, t) ∷ later) m.store
    → Ready later (finish_cancel env (id, t) m).store
unfolding finish_cancel Agrees HasLaunched
Ready-finish_cancel env id t later m r = elim (Bool-cases (not (t.status == "cancel_pending"))) [
  | inl other ↦ rw (other, finish_cancel) (record { confirmed = r.confirmed; agrees = r.agrees.1 })
  | inr its ↦ elim (Bool-cases (launched t.runtime)) [
    | inl l ↦
        rw (its, l, finish_cancel, store-start_remote_cancel id m)
          (record { confirmed = r.confirmed; agrees = r.agrees.1 })
    | inr l ↦
        rw (its, l, finish_cancel)
          (record {
            confirmed =
                Confirmed-put_cancelled env id cancelled_now m refl (λ u h. r.agrees.0 u h ∙ l)
                  r.confirmed;
            agrees = Agrees-put later env id cancelled_now m refl (r.agrees.1);
          })
  ]
]

Ready-finish_cancels :
    (env : Env) (later : List Entry) (m : Manager)
    → Ready later m.store
    → Confirmed (finish_cancels env later m).store
unfolding finish_cancels
Ready-finish_cancels env [] m r = r.confirmed
Ready-finish_cancels env ((id, t) ∷ later) m r =
    Ready-finish_cancels env later (finish_cancel env (id, t) m)
      (Ready-finish_cancel env id t later m r)

Ready-started :
    (env : Env) (items : List Entry) (v : Bool × Manager)
    → Ready items v.1.store
    → Confirmed (if v.0 then finish_cancels env items (v.1) else v.1).store
Ready-started env items (true, u) r = Ready-finish_cancels env items u r
Ready-started env items (false, u) r = r.confirmed

Ready-recovered :
    (stamp : ℕ) (items : List Entry) (s : Store)
    → Confirmed s
    → Agrees items s
    → Ready items (recover_interrupted_operations stamp s)
unfolding recover_interrupted_operations
Ready-recovered stamp items s keep a = record {
  confirmed = Confirmed-tasks s (recover_interrupted_operations stamp s) refl keep;
  agrees = Agrees-tasks items s (recover_interrupted_operations stamp s) refl a;
}

pub Confirmed-start :
    (env : Env) (h : Host) (clock stamp : ℕ) (m : Manager)
    → Agrees (active m.store.tasks) m.store
    → Confirmed m.store
    → Confirmed (start env h clock stamp m).store
unfolding start recover_interrupted_operations
Confirmed-start env h clock stamp m a keep =
    let items = active m.store.tasks in
    let u : Manager = record m {
      started = true;
      stopping = false;
      store = recover_interrupted_operations stamp m.store;
    } in
    elim (Bool-cases m.started) [
      | inl s ↦ rw (s, start) keep
      | inr s ↦
          rw (s, start)
            (Ready-started env items (start_tasks env h clock items u) (
              Ready-start_tasks items env h clock items u
                (Ready-recovered stamp items m.store keep a)))
    ]
