-- ===== src/Manager/Confirmed/Cancel.antt =====
-- task_manager.py: the cancellation, and which tasks are called cancelled.
use backend_wrf.Base.{
  ℕ, ◌≡◌, refl, String, string_eq, ◌==◌, Bool, true, false, not, ◌&&◌, ◌||◌, Option, none, some,
  inl, inr, arith, Bool-cases, Option-cases,
}
use backend_wrf.Store.{Task}
use backend_wrf.Store.Tasks.{Env, Changes, no_changes, get_task}
use backend_wrf.Manager.{
  Manager, Outcome, did, refused, has, discard, is_final, is_terminal_text, launched, put,
  merge_runtime,
}
use backend_wrf.Manager.Dispatch.{Host, dispatch, dispatched}
use backend_wrf.Manager.Cancel.{
  cancelled_now, cancel_waits, mark_cancelled, start_remote_cancel, cancel_task, cancel, unresolved,
  dispatch_pending, Binding, bound_to, terminal_status, record_cancel_observation,
  schedule_cancel_reconcile, end_remote_cancel, begin_observe, end_observe,
  complete_task_cancellation,
}
use backend_wrf.Manager.Cancel.Keeps.{dispatch_keeps, dispatch_pending_keeps}
use backend_wrf.Manager.Confirmed.{
  Confirmed, others, Confirmed-put, Confirmed-merge_runtime, Confirmed-Harmless, Confirmed-at,
  OthersConfirmed-put, terminal_seen_status,
}

pub Confirmed-dispatch :
    (env : Env) (h : Host) (clock : ℕ) (id : String) (m : Manager)
    → Confirmed m.store
    → Confirmed (dispatched (dispatch env h clock id m)).store
Confirmed-dispatch env h clock id m keep =
    dispatch_keeps Confirmed (λ e i v u k c. Confirmed-Harmless e i v u k c) env h clock id m keep

pub Confirmed-dispatch_pending :
    (env : Env) (h : Host) (clock : ℕ) (m : Manager)
    → Confirmed m.store
    → Confirmed (dispatch_pending env h clock m).store
Confirmed-dispatch_pending env h clock m keep =
    dispatch_pending_keeps Confirmed (λ e i v u k c. Confirmed-Harmless e i v u k c) env h clock m
      keep

-- A status other than `cancelled` is written.
pub Confirmed-put_status :
    (env : Env) (id : String) (c : Changes) (s : String) (m : Manager)
    → c.status ≡ some s
    → (s == "cancelled") ≡ false
    → Confirmed m.store
    → Confirmed (put env id c m).store
Confirmed-put_status env id c s m e n keep =
    Confirmed-put env id c m (others id m.store keep) (λ t there. rw e (rw n refl))

-- A write leaves the status and the runtime.
pub Confirmed-put_progress :
    (env : Env) (id : String) (c : Changes) (m : Manager)
    → c.status ≡ none
    → c.runtime ≡ none
    → Confirmed m.store
    → Confirmed (put env id c m).store
Confirmed-put_progress env id c m e n keep =
    Confirmed-put env id c m (others id m.store keep)
      (λ t there. rw (e, n) (Confirmed-at id t m.store keep there))

pub store-start_remote_cancel :
    (id : String) (m : Manager) → (start_remote_cancel id m).store ≡ m.store
unfolding start_remote_cancel
store-start_remote_cancel id m = ground arith

pub Confirmed-start_remote_cancel :
    (id : String) (m : Manager) → Confirmed m.store → Confirmed (start_remote_cancel id m).store
Confirmed-start_remote_cancel id m keep = rw (store-start_remote_cancel id m) keep

-- A task that was never launched is called cancelled at once.
pub Confirmed-put_cancelled :
    (env : Env) (id : String) (c : Changes) (m : Manager)
    → c.runtime ≡ none
    → ((t : Task) → get_task id m.store ≡ some t → launched t.runtime ≡ false)
    → Confirmed m.store
    → Confirmed (put env id c m).store
Confirmed-put_cancelled env id c m e never keep =
    Confirmed-put env id c m (others id m.store keep)
      (λ t there. rw e (ground (arith, never t there)))

same_task :
    (t : Task) (o : Option Task) (f : Task → Bool) {b : Bool}
    → o ≡ some t
    → f t ≡ b
    → (u : Task) → o ≡ some u
    → f u ≡ b
same_task t o f e h u g = ground (arith, e, h, g)

pub Confirmed-cancel_task :
    (env : Env) (id : String) (t : Task) (m : Manager)
    → get_task id m.store ≡ some t
    → Confirmed m.store
    → Confirmed (cancel_task env id t m).store
unfolding cancel_task
Confirmed-cancel_task env id t m there keep = elim (Bool-cases (launched t.runtime)) [
  | inl l ↦
      rw (l, cancel_task)
        (Confirmed-put_status env id cancel_waits "cancel_pending" (mark_cancelled id m) refl refl
          keep)
  | inr l ↦
      rw (l, cancel_task)
        (Confirmed-put_cancelled env id (record cancelled_now { progress = some t.progress })
          (record (mark_cancelled id m) { pending = discard id m.pending }) refl
          (same_task t (get_task id m.store) (λ x. launched x.runtime) there l) keep)
]

abbrev pub state_after : Manager → Outcome (Option Task) → Manager
state_after m (did t u) = u
state_after m (refused e) = m

pub Confirmed-cancel :
    (env : Env) (h : Host) (clock : ℕ) (id : String) (m : Manager)
    → Confirmed m.store
    → Confirmed (state_after m (cancel env h clock id m)).store
unfolding cancel
Confirmed-cancel env h clock id m keep = elim (Option-cases (get_task id m.store)) [
  | inl absent ↦ rw (absent, cancel) keep
  | inr (t, there) ↦ elim (Bool-cases (is_final t.status && not (unresolved t.runtime))) [
    | inl over ↦ rw (there, over, cancel) keep
    | inr live ↦ elim (Bool-cases (launched t.runtime)) [
      | inl l ↦
          rw (there, live, l, cancel)
            (Confirmed-start_remote_cancel id (cancel_task env id t m)
              (Confirmed-cancel_task env id t m there keep))
      | inr l ↦
          rw (there, live, l, cancel)
            (Confirmed-dispatch_pending env h clock (cancel_task env id t m)
              (Confirmed-cancel_task env id t m there keep))
    ]
  ]
]

Confirmed-terminal :
    (env : Env) (id status : String) (m : Manager)
    → is_terminal_text status ≡ true
    → Confirmed m.store
    → Confirmed (merge_runtime env id (terminal_status status) (put env id cancelled_now m)).store
Confirmed-terminal env id status m e keep =
    Confirmed-merge_runtime env id (terminal_status status) (put env id cancelled_now m)
      (OthersConfirmed-put env id cancelled_now m (others id m.store keep))
      (λ t there. ground (arith, terminal_seen_status t.runtime status e))

pub Confirmed-record_cancel_observation :
    (env : Env) (doubt id status : String) (b : Binding) (m : Manager)
    → Confirmed m.store
    → Confirmed (record_cancel_observation env doubt id status b m).store
unfolding record_cancel_observation
Confirmed-record_cancel_observation env doubt id status b m keep =
    elim (Option-cases (get_task id m.store)) [
      | inl absent ↦ rw (absent, record_cancel_observation) keep
      | inr (t, there) ↦
          elim (Bool-cases (not (t.status == "cancel_pending") || not (bound_to b t))) [
            | inl other ↦ rw (there, other, record_cancel_observation) keep
            | inr its ↦ elim (Bool-cases (is_terminal_text status)) [
              | inl e ↦
                  rw (there, its, e, record_cancel_observation)
                    (Confirmed-terminal env id status m e keep)
              | inr e ↦
                  rw (there, its, e, record_cancel_observation)
                    (Confirmed-put env id (record no_changes { error = some (some doubt) }) m
                      (others id m.store keep) (λ u h. Confirmed-at id u m.store keep h))
            ]
          ]
    ]

store-schedule_cancel_reconcile :
    (id : String) (m : Manager) → (schedule_cancel_reconcile id m).store ≡ m.store
unfolding schedule_cancel_reconcile
store-schedule_cancel_reconcile id m = ground arith

Confirmed-after_observation :
    (env : Env) (h : Host) (clock : ℕ) (id : String) (m : Manager)
    → Confirmed m.store
    → Confirmed (dispatch_pending env h clock (schedule_cancel_reconcile id m)).store
Confirmed-after_observation env h clock id m keep =
    Confirmed-dispatch_pending env h clock (schedule_cancel_reconcile id m)
      (rw (store-schedule_cancel_reconcile id m) keep)

pub Confirmed-end_remote_cancel :
    (env : Env) (h : Host) (clock : ℕ) (doubt id status : String) (b : Binding) (m : Manager)
    → Confirmed m.store
    → Confirmed (end_remote_cancel env h clock doubt id status b m).store
unfolding end_remote_cancel
Confirmed-end_remote_cancel env h clock doubt id status b m keep =
    Confirmed-after_observation env h clock id _
      (Confirmed-record_cancel_observation env doubt id status b m keep)

pub Confirmed-begin_observe :
    (id : String) (m : Manager) → Confirmed m.store → Confirmed (begin_observe id m).1.store
unfolding begin_observe
Confirmed-begin_observe id m keep = elim (Bool-cases (not (has id m.cancel_timers))) [
  | inl e ↦ rw (e, begin_observe) keep
  | inr e ↦ rw (e, begin_observe) keep
]

pub Confirmed-end_observe :
    (env : Env) (h : Host) (clock : ℕ) (doubt id status : String) (b : Binding) (m : Manager)
    → Confirmed m.store
    → Confirmed (end_observe env h clock doubt id status b m).store
unfolding end_observe
Confirmed-end_observe env h clock doubt id status b m keep =
    Confirmed-after_observation env h clock id _
      (Confirmed-record_cancel_observation env doubt id status b m keep)

pub Confirmed-complete_task_cancellation :
    (env : Env) (id : String) (m : Manager)
    → Confirmed m.store
    → Confirmed (complete_task_cancellation env id m).store
unfolding complete_task_cancellation
Confirmed-complete_task_cancellation env id m keep = elim (Option-cases (get_task id m.store)) [
  | inl absent ↦ rw (absent, complete_task_cancellation) keep
  | inr (t, there) ↦ elim (Bool-cases (is_final t.status)) [
    | inl over ↦ rw (there, over, complete_task_cancellation) keep
    | inr live ↦ elim (Bool-cases (launched t.runtime)) [
      | inl l ↦
          rw (there, live, l, complete_task_cancellation)
            (Confirmed-start_remote_cancel id _ (
              Confirmed-put_status env id
                (record no_changes {
                  status = some "cancel_pending";
                  stage = some "cancel_pending";
                })
                "cancel_pending" m refl refl keep))
      | inr l ↦
          rw (there, live, l, complete_task_cancellation)
            (Confirmed-put_cancelled env id cancelled_now m refl
              (same_task t (get_task id m.store) (λ x. launched x.runtime) there l) keep)
    ]
  ]
]
