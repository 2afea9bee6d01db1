-- ===== src/Manager/Confirmed/Worker.antt =====
-- task_manager.py: the worker of a task, and which tasks are called cancelled.
use backend_wrf.Base.{
  ℕ, refl, String, string_eq, ◌==◌, leb, Bool, true, false, not, ◌||◌, inl, inr, if◌then◌else◌,
  Bool-cases, Option-cases,
}
use backend_wrf.Json.{Dict}
use backend_wrf.Store.Tasks.{Env, get_task}
use backend_wrf.Manager.{Manager, has, discard, is_final, must_confirm}
use backend_wrf.Manager.Dispatch.{Host}
use backend_wrf.Manager.Worker.{
  begin_work, end_work, Trouble, failure_class, defer_external, enqueue_reconcile, Ending, returns,
  stops_cancelled, raises, give_up, after_execute,
}
use backend_wrf.Manager.Confirmed.{Confirmed}
use backend_wrf.Manager.Confirmed.Cancel.{
  Confirmed-dispatch, Confirmed-dispatch_pending, Confirmed-put_status,
  Confirmed-complete_task_cancellation,
}

pub Confirmed-begin_work :
    (id : String) (m : Manager) → Confirmed m.store → Confirmed (begin_work id m).1.store
unfolding begin_work
Confirmed-begin_work id m keep = elim (Option-cases (get_task id m.store)) [
  | inl absent ↦ rw (absent, begin_work) keep
  | inr (t, there) ↦ elim (Bool-cases (is_final t.status || has id m.cancelled)) [
    | inl over ↦ rw (there, over, begin_work) keep
    | inr live ↦ rw (there, live, begin_work) keep
  ]
]

pub Confirmed-end_work :
    (env : Env) (h : Host) (clock : ℕ) (id : String) (m : Manager)
    → Confirmed m.store
    → Confirmed (end_work env h clock id m).store
unfolding end_work
Confirmed-end_work env h clock id m keep = Confirmed-dispatch_pending env h clock _ keep

Confirmed-defer_external :
    (env : Env) (timeout elapsed : ℕ) (since : String) (x : Trouble) (texts : Dict)
    (message id : String) (m : Manager)
    → Confirmed m.store
    → Confirmed (defer_external env timeout elapsed since (x, texts, message) id m).store
unfolding defer_external
Confirmed-defer_external env timeout elapsed since x texts message id m keep =
    elim (Option-cases (get_task id m.store)) [
      | inl absent ↦ rw (absent, defer_external) keep
      | inr (t, there) ↦ elim (Bool-cases (must_confirm t)) [
        | inl c ↦
            rw (there, c, defer_external)
              (Confirmed-put_status env id _ "paused_external" m refl refl keep)
        | inr c ↦ elim (Bool-cases (leb timeout elapsed)) [
          | inl late ↦
              rw (there, c, late, defer_external)
                (Confirmed-put_status env id _ "paused_external" m refl refl keep)
          | inr early ↦
              rw (there, c, early, defer_external)
                (Confirmed-put_status env id _ "reconciling" m refl refl keep)
        ]
      ]
    ]

Confirmed-give_up :
    (env : Env) (x : Trouble) (texts : Dict) (message id : String) (m : Manager)
    → Confirmed m.store
    → Confirmed (give_up env (x, texts, message) id m).store
unfolding give_up
Confirmed-give_up env x texts message id m keep = elim (Option-cases (get_task id m.store)) [
  | inl absent ↦ rw (absent, give_up) keep
  | inr (t, there) ↦ elim (Bool-cases ((failure_class x t).0 == "output")) [
    | inl o ↦ rw (there, o, give_up) (Confirmed-put_status env id _ "failed" m refl refl keep)
    | inr o ↦
        rw (there, o, give_up) (Confirmed-put_status env id _ "waiting_restart" m refl refl keep)
  ]
]

pub Confirmed-if :
    (b : Bool) (u v : Manager)
    → Confirmed u.store
    → Confirmed v.store
    → Confirmed (if b then u else v).store
Confirmed-if true u v p q = p
Confirmed-if false u v p q = q

pub Confirmed-after_execute :
    (env : Env) (timeout elapsed : ℕ) (since : String) (e : Ending) (id : String) (m : Manager)
    → Confirmed m.store
    → Confirmed (after_execute env timeout elapsed since e id m).store
unfolding after_execute
Confirmed-after_execute env timeout elapsed since returns id m keep = keep
Confirmed-after_execute env timeout elapsed since stops_cancelled id m keep =
    Confirmed-complete_task_cancellation env id m keep
Confirmed-after_execute env timeout elapsed since (raises (x, texts, message)) id m keep =
    Confirmed-if (has id m.cancelled) _ _ (Confirmed-complete_task_cancellation env id m keep) (
      Confirmed-if x.external _ _
        (Confirmed-defer_external env timeout elapsed since x texts message id m keep)
        (Confirmed-give_up env x texts message id m keep))

pub Confirmed-enqueue_reconcile :
    (env : Env) (h : Host) (clock : ℕ) (id : String) (m : Manager)
    → Confirmed m.store
    → Confirmed (enqueue_reconcile env h clock id m).store
unfolding enqueue_reconcile
Confirmed-enqueue_reconcile env h clock id m keep =
    Confirmed-if (not (has id m.reconcile_timers)) _ _ keep (
      Confirmed-if _ _ _ keep (
        Confirmed-dispatch env h clock id
          (record m { reconcile_timers = discard id m.reconcile_timers }) keep))
