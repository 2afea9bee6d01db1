-- ===== src/Manager/Confirmed/Again.antt =====
-- task_manager.py: the operations that take up a task again, and which tasks are called cancelled.
use backend_wrf.Base.{
  ℕ, ◌≡◌, refl, ap, ◌∙◌, String, string_eq, attempt_eq, ◌==◌, Bool, true, false, not, ◌&&◌, ◌||◌,
  Option, some, ◌⊎◌, inl, inr, if◌then◌else◌, Bool-cases, Option-cases,
}
use backend_wrf.Json.{Json, get, truthy?}
use backend_wrf.Store.{Store, Task}
use backend_wrf.Table.{find, insert_or_replace}
use backend_wrf.Store.Tasks.{
  Env, Changes, get_task, attempt_of, archived_row, archive_attempt, begin_attempt,
}
use backend_wrf.Manager.{Manager, Refusal, discard, wrf_succeeded, is_busy, failed_outside, put}
use backend_wrf.Manager.Dispatch.{Host}
use backend_wrf.Manager.Attempts.{
  Taken, taken, stopped, state_left, and_dispatch, get_decorated, Remote, restart_plan, Files,
  persist_failure, begin_again, archive_and_begin, is_expired, restart_planned, restart,
}
use backend_wrf.Manager.Attempts.Laws.{state_left-and_dispatch}
use backend_wrf.Manager.Again.{
  resume_body, resume_external, reconciling_now, outputs_again, partial_again, queue_again,
  has_outputs, retry_outputs, has_unreadable, render_partial,
}
use backend_wrf.Manager.Confirmed.{Confirmed, others, Confirmed-at, Confirmed-put}
use backend_wrf.Manager.Confirmed.Cancel.{Confirmed-dispatch, Confirmed-put_status}

-- The state that an operation leaves has no unconfirmed task.
unfoldable pub ConfirmedAfter : Taken → Type 0
ConfirmedAfter a = Confirmed (state_left a).store

pub after_stopped : (e : Refusal) (m : Manager) → Confirmed m.store → ConfirmedAfter (stopped e m)
unfolding ConfirmedAfter
after_stopped e m keep = keep

pub after_taken : (t : Option Task) (m : Manager) → Confirmed m.store → ConfirmedAfter (taken t m)
unfolding ConfirmedAfter
after_taken t m keep = keep

after_if :
    (b : Bool) (u v : Taken)
    → ConfirmedAfter u
    → ConfirmedAfter v
    → ConfirmedAfter (if b then u else v)
after_if true u v p q = p
after_if false u v p q = q

pub after_dispatch :
    (env : Env) (h : Host) (clock : ℕ) (id : String) (answer : Manager → Option Task) (m : Manager)
    → Confirmed m.store
    → ConfirmedAfter (and_dispatch env h clock id answer m)
unfolding ConfirmedAfter
after_dispatch env h clock id answer m keep =
    rw (state_left-and_dispatch env h clock id answer m) (Confirmed-dispatch env h clock id m keep)

Confirmed-begin_again :
    (env : Env) (h : Host) (clock : ℕ) (request : Json) (id : String) (m : Manager)
    → Confirmed m.store
    → ConfirmedAfter (begin_again env h clock request id m)
unfolding begin_again begin_attempt
Confirmed-begin_again env h clock request id m keep = elim (Option-cases (get_task id m.store)) [
  | inl absent ↦
      rw (absent, begin_again)
        (after_stopped _ (record m { cancelled = discard id m.cancelled }) keep)
  | inr (t, there) ↦
      rw (there, begin_again)
        (after_dispatch env h clock id (get_decorated id) _
          (unfold put in Confirmed-put_status env id _ "queued" m refl refl keep))
]

pub Confirmed-tasks : (s u : Store) → s.tasks ≡ u.tasks → Confirmed s → Confirmed u
unfolding Confirmed get_task
Confirmed-tasks s u e keep j t h = keep j t (ap (λ x. find j x) e ∙ h)

after_archive :
    (env : Env) (h : Host) (clock : ℕ) (files : Files) (request : Json) (id : String) (m : Manager)
    → Confirmed m.store
    → ConfirmedAfter (
        if not files.cleaned
        then stopped Refusal.other_error m
        else begin_again env h clock request id m)
after_archive env h clock files request id m keep =
    after_if (not files.cleaned) _ _ (after_stopped _ m keep)
      (Confirmed-begin_again env h clock request id m keep)

Confirmed-archive_and_begin :
    (env : Env) (h : Host) (clock : ℕ) (files : Files) (request : Json) (id : String) (m : Manager)
    → Confirmed m.store
    → ConfirmedAfter (archive_and_begin env h clock files request id m)
unfolding archive_and_begin archive_attempt
Confirmed-archive_and_begin env h clock files request id m keep =
    elim (Option-cases (get_task id m.store)) [
      | inl absent ↦ rw (absent, archive_and_begin) (after_stopped _ m keep)
      | inr (t, there) ↦
          let s : Store = record m.store {
            attempts =
                insert_or_replace (id, attempt_of t) (archived_row env.now files.log_path t)
                  m.store.attempts;
          } in
          rw (there, archive_and_begin)
            (after_archive env h clock files request id (record m { store = s })
              (Confirmed-tasks m.store s refl keep))
    ]

Confirmed-persist_failure :
    (env : Env) (id : String) (t : Task) (m : Manager)
    → Confirmed m.store
    → Confirmed (persist_failure env id t m).store
unfolding persist_failure
Confirmed-persist_failure env id t m keep = elim (Option-cases t.failure) [
  | inl n ↦ rw (n, persist_failure) keep
  | inr (f, e) ↦ elim (Bool-cases (truthy? (get "derived" f))) [
    | inl d ↦
        rw (e, d, persist_failure)
          (Confirmed-put env id _ m (others id m.store keep)
            (λ u there. Confirmed-at id u m.store keep there))
    | inr d ↦ rw (e, d, persist_failure) keep
  ]
]

Confirmed-restart_planned :
    (env : Env) (h : Host) (clock : ℕ) (files : Files) (request : Json) (c : Bool) (id : String)
    (t : Task) (m : Manager)
    → Confirmed m.store
    → ConfirmedAfter (restart_planned env h clock files request c id t m)
unfolding restart_planned
Confirmed-restart_planned env h clock files request c id t m keep =
    let u = Confirmed-persist_failure env id t m keep in
    after_if (c && wrf_succeeded t.runtime && files.is_archived) _ _ (after_stopped _ _ u)
      (Confirmed-archive_and_begin env h clock files request id _ u)

Confirmed-planned :
    (env : Env) (h : Host) (clock : ℕ) (files : Files) (request : Json) (c : Bool) (id : String)
    (t : Task) (m : Manager) (p : Refusal ⊎ Bool)
    → Confirmed m.store
    → ConfirmedAfter (elim p [
      | inl e ↦ stopped e m
      | inr possible ↦
          if not possible
          then stopped Refusal.conflict m
          else restart_planned env h clock files request c id t m
    ])
Confirmed-planned env h clock files request c id t m (inl e) keep = after_stopped e m keep
Confirmed-planned env h clock files request c id t m (inr possible) keep =
    after_if (not possible) _ _ (after_stopped _ m keep)
      (Confirmed-restart_planned env h clock files request c id t m keep)

pub Confirmed-restart :
    (env : Env) (h : Host) (clock : ℕ) (q : Remote) (files : Files) (request : Json)
    (confirmed : String × ℕ) (c : Bool) (id : String) (m : Manager)
    → Confirmed m.store
    → ConfirmedAfter (restart env h clock q files request confirmed c id m)
unfolding restart
Confirmed-restart env h clock q files request confirmed c id m keep =
    elim (Option-cases (get_decorated id m)) [
      | inl absent ↦ rw (absent, restart) (after_stopped _ m keep)
      | inr (t, there) ↦
          rw (there, restart)
            (after_if (is_expired (confirmed.0) (confirmed.1) id t) _ _ (after_stopped _ m keep) (
              after_if (is_busy id m) _ _ (after_stopped _ m keep) (
                Confirmed-planned env h clock files request c id t m (restart_plan q c id m) keep)))
    ]

Confirmed-resume_body :
    (env : Env) (h : Host) (clock : ℕ) (id : String) (t : Task) (m : Manager)
    → Confirmed m.store
    → ConfirmedAfter (resume_body env h clock id t m)
unfolding resume_body
Confirmed-resume_body env h clock id t m keep =
    after_if
      (not (t.status == "paused_external" || t.status == "reconciling" || t.status == "failed")) _ _
      (after_stopped Refusal.conflict m keep)
      (after_if (t.status == "failed" && not (failed_outside t)) _ _
        (after_stopped Refusal.conflict m keep)
        (after_if (t.status == "reconciling") _ _ (after_taken (some t) m keep) (
          after_dispatch env h clock id (get_decorated id) _ (
            Confirmed-put_status env id (reconciling_now env.now t) "reconciling"
              (record m { reconcile_timers = discard id m.reconcile_timers }) refl refl keep))))

pub Confirmed-resume_external :
    (env : Env) (h : Host) (clock : ℕ) (automatic : Bool) (id : String) (m : Manager)
    → Confirmed m.store
    → ConfirmedAfter (resume_external env h clock automatic id m)
unfolding resume_external
Confirmed-resume_external env h clock automatic id m keep =
    elim (Option-cases (get_decorated id m)) [
      | inl absent ↦ rw (absent, resume_external) (after_stopped _ m keep)
      | inr (t, there) ↦
          rw (there, resume_external)
            (after_if _ _ _ (after_taken _ m keep) (
              after_if _ _ _ (after_stopped _ m keep)
                (Confirmed-resume_body env h clock id t m keep)))
    ]

Confirmed-queue_again :
    (env : Env) (h : Host) (clock : ℕ) (id : String) (c : Changes) (m : Manager)
    → c.status ≡ some "queued"
    → Confirmed m.store
    → ConfirmedAfter (queue_again env h clock id c m)
unfolding queue_again
Confirmed-queue_again env h clock id c m e keep =
    after_dispatch env h clock id _ _ (Confirmed-put_status env id c "queued" _ e refl keep)

pub Confirmed-retry_outputs :
    (env : Env) (h : Host) (clock : ℕ) (id : String) (m : Manager)
    → Confirmed m.store
    → ConfirmedAfter (retry_outputs env h clock id m)
unfolding retry_outputs
Confirmed-retry_outputs env h clock id m keep = elim (Option-cases (get_decorated id m)) [
  | inl absent ↦
      rw (absent, retry_outputs)
        (after_if (is_busy id m) _ _ (after_stopped _ m keep) (after_stopped _ m keep))
  | inr (t, there) ↦
      rw (there, retry_outputs)
        (after_if (is_busy id m) _ _ (after_stopped Refusal.conflict m keep) (
          after_if (not (t.status == "failed") || not (has_outputs t)) _ _
            (after_stopped Refusal.conflict m keep)
            (Confirmed-queue_again env h clock id (outputs_again t) m refl keep)))
]

pub Confirmed-render_partial :
    (env : Env) (h : Host) (clock : ℕ) (id : String) (m : Manager)
    → Confirmed m.store
    → ConfirmedAfter (render_partial env h clock id m)
unfolding render_partial
Confirmed-render_partial env h clock id m keep = elim (Option-cases (get_decorated id m)) [
  | inl absent ↦
      rw (absent, render_partial)
        (after_if (is_busy id m) _ _ (after_stopped _ m keep) (after_stopped _ m keep))
  | inr (t, there) ↦
      rw (there, render_partial)
        (after_if (is_busy id m) _ _ (after_stopped Refusal.conflict m keep) (
          after_if (not (t.status == "failed") || not (has_outputs t)) _ _
            (after_stopped Refusal.conflict m keep)
            (after_if (not (has_unreadable t)) _ _ (after_stopped Refusal.conflict m keep)
              (Confirmed-queue_again env h clock id (partial_again t) m refl keep))))
]
