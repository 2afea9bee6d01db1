-- ===== src/Manager/Confirmed/Remote.antt =====
-- task_manager.py: what a worker does with the remote attempt, and which tasks are called cancelled.
use backend_wrf.Base.{
  ℕ, ◌≡◌, refl, String, string_eq, ◌==◌, Bool, true, false, not, ◌&&◌, none, some, ◌⊎◌, inl, inr,
  arith, if◌then◌else◌, Bool-cases, Option-cases,
}
use backend_wrf.Json.{Dict, get, update, truthy, truthy?}
use backend_wrf.Json.Laws.{get-set}
use backend_wrf.Store.{Task}
use backend_wrf.Store.Tasks.{Env, no_changes, get_task, or_old}
use backend_wrf.Manager.{Manager, has, is_terminal_text, launched, put, merge_runtime}
use backend_wrf.Manager.Cancel.{terminal_status}
use backend_wrf.Manager.Cancel.Keeps.{Harmless}
use backend_wrf.Manager.Remote.{
  profile_values, merge_remote_profile, unclear, reconcile, intent, launch_attempt, running_now,
  intend_launch, denied, deny_launch, not_denied, end_launch,
}
use backend_wrf.Manager.Confirmed.{
  Confirmed, others, Confirmed-at, OthersConfirmed, OthersConfirmed-put,
  OthersConfirmed-merge_runtime, Confirmed-put, Confirmed-merge_runtime, Confirmed-Harmless,
  get_task-put, get_task-merge_runtime, terminal_seen-update, launched-update, terminal_seen_status,
}
use backend_wrf.Manager.Confirmed.Cancel.{Confirmed-put_status, Confirmed-start_remote_cancel}
use backend_wrf.Manager.Confirmed.Worker.{Confirmed-if}

profile_values-Harmless : (p : Dict) → Harmless (profile_values p)
unfolding profile_values get
profile_values-Harmless p = record { pid = refl; attempted = refl; terminal = refl }

Confirmed-terminal_status :
    (env : Env) (id status : String) (m : Manager)
    → is_terminal_text status ≡ true
    → Confirmed m.store
    → Confirmed (merge_runtime env id (terminal_status status) m).store
Confirmed-terminal_status env id status m e keep =
    Confirmed-merge_runtime env id (terminal_status status) m (others id m.store keep)
      (λ t there. ground (arith, terminal_seen_status t.runtime status e))

Confirmed-profile :
    (env : Env) (id : String) (p : Dict) (m : Manager)
    → Confirmed m.store
    → Confirmed
        (if truthy? (get "actual" p) then merge_runtime env id (profile_values p) m else m).store
Confirmed-profile env id p m keep = elim (Bool-cases (truthy? (get "actual" p))) [
  | inl a ↦ rw a (Confirmed-Harmless env id (profile_values p) m (profile_values-Harmless p) keep)
  | inr a ↦ rw a keep
]

pub Confirmed-merge_remote_profile :
    (env : Env) (id status : String) (p : Dict) (m : Manager)
    → Confirmed m.store
    → Confirmed (merge_remote_profile env id status p m).store
unfolding merge_remote_profile
Confirmed-merge_remote_profile env id status p m keep =
    elim (Bool-cases (is_terminal_text status)) [
      | inl e ↦
          rw (e, merge_remote_profile)
            (Confirmed-profile env id p _ (Confirmed-terminal_status env id status m e keep))
      | inr e ↦ rw (e, merge_remote_profile) (Confirmed-profile env id p m keep)
    ]

Confirmed-unclear :
    (env : Env) (code id status : String) (m : Manager)
    → Confirmed m.store
    → Confirmed (unclear env code id status m).1.store
unfolding unclear
Confirmed-unclear env code id status m keep = elim (Option-cases (get_task id m.store)) [
  | inl absent ↦ rw (absent, unclear) keep
  | inr (t, there) ↦ elim (Bool-cases (status == "missing" && not (launched t.runtime))) [
    | inl a ↦ rw (there, a, unclear) keep
    | inr a ↦
        rw (there, a, unclear) (Confirmed-put_status env id _ "waiting_restart" m refl refl keep)
  ]
]

pub Confirmed-reconcile :
    (env : Env) (code id status : String) (p : Dict) (m : Manager)
    → Confirmed m.store
    → Confirmed (reconcile env code id status p m).1.store
unfolding reconcile
Confirmed-reconcile env code id status p m keep =
    let u = Confirmed-merge_remote_profile env id status p m keep in
    elim (Bool-cases (status == "running")) [
      | inl a ↦ rw (a, reconcile) (Confirmed-put_status env id _ "running" _ refl refl u)
      | inr a ↦ elim (Bool-cases (status == "succeeded")) [
        | inl b ↦ rw (a, b, reconcile) u
        | inr b ↦ elim (Bool-cases (status == "failed")) [
          | inl c ↦ rw (a, b, c, reconcile) u
          | inr c ↦ rw (a, b, c, reconcile) (Confirmed-unclear env code id status _ u)
        ]
      ]
    ]

Confirmed-merge_intent :
    (env : Env) (id : String) (v : Dict) (m : Manager)
    → OthersConfirmed id m.store
    → ((t : Task) → get_task id m.store ≡ some t → t.status ≡ "running")
    → Confirmed (merge_runtime env id v m).store
Confirmed-merge_intent env id v m keep runs =
    Confirmed-merge_runtime env id v m keep (λ t there. rw (runs t there) refl)

-- where the launch is given up, nothing changes
pub Confirmed-intend_launch :
    (env : Env) (id fresh : String) (m : Manager)
    → Confirmed m.store
    → Confirmed (or_old (intend_launch env id fresh m) m).store
unfolding intend_launch
Confirmed-intend_launch env id fresh m keep = elim (Bool-cases (has id m.cancelled)) [
  | inl c ↦ rw (c, intend_launch) keep
  | inr c ↦
      rw (c, intend_launch)
        (Confirmed-merge_intent env id
          (intent (launch_attempt fresh (get_task id (put env id running_now m).store)))
          (put env id running_now m)
          (OthersConfirmed-put env id running_now m (others id m.store keep))
          (λ t there. started t there (Option-cases (get_task id m.store))))
]
  where
    started :
        (t : Task)
        → get_task id (put env id running_now m).store ≡ some t
        → (get_task id m.store ≡ none) ⊎ ((u : Task) × (get_task id m.store ≡ some u))
        → t.status ≡ "running"
    started t there (inl absent) =
        absurd (ground (arith, there, absent, get_task-put env id running_now m))
    started t there (inr (u, e)) = ground (arith, there, e, get_task-put env id running_now m)

-- Without a process on the host, an attempt that was denied was not launched.
launched-denied :
    (r : Dict) (reason : String) (retry_at : ℕ)
    → truthy? (get "remote_pid" r) ≡ false
    → launched (update r (denied reason retry_at)) ≡ false
unfolding launched update truthy? truthy
launched-denied r reason retry_at h = simp (get-set, h)

deny_merged :
    (env : Env) (id reason : String) (retry_at : ℕ) (m : Manager)
    → ((t : Task) → get_task id m.store ≡ some t → truthy? (get "remote_pid" t.runtime) ≡ false)
    → (u : Task) → get_task id (merge_runtime env id (denied reason retry_at) m).store ≡ some u
    → launched u.runtime ≡ false
deny_merged env id reason retry_at m free u there = elim (Option-cases (get_task id m.store)) [
  | inl absent ↦ absurd (unfold merge_runtime in ground (arith, there, absent))
  | inr (t, e) ↦ ground (
    arith,
    there,
    get_task-merge_runtime env id (denied reason retry_at) m t e,
    launched-denied t.runtime reason retry_at (free t e),
  )
]

pub Confirmed-deny_launch :
    (env : Env) (id reason : String) (retry_at : ℕ) (m : Manager)
    → ((t : Task) → get_task id m.store ≡ some t → truthy? (get "remote_pid" t.runtime) ≡ false)
    → Confirmed m.store
    → Confirmed (deny_launch env id reason retry_at m).store
unfolding deny_launch
Confirmed-deny_launch env id reason retry_at m free keep =
    let u = merge_runtime env id (denied reason retry_at) m in
    let rest =
      OthersConfirmed-merge_runtime env id (denied reason retry_at) m (others id m.store keep) in
    Confirmed-if (has id m.cancelled) _ _
      (Confirmed-put env id
        (record no_changes { status = some "cancelled"; stage = some "cancelled" }) u rest
        (λ t there. ground (arith, deny_merged env id reason retry_at m free t there)))
      (Confirmed-put env id
        (record no_changes { status = some "queued"; stage = some "queued"; progress = some 0 }) u
        rest (λ t there. refl))

-- The reply of a launch says nothing of an end.
Confirmed-merge_reply :
    (env : Env) (id : String) (v : Dict) (m : Manager)
    → get "remote_terminal_status" v ≡ none
    → ((t : Task) → get_task id m.store ≡ some t → launched t.runtime ≡ true)
    → Confirmed m.store
    → Confirmed (merge_runtime env id v m).store
Confirmed-merge_reply env id v m e goes keep =
    Confirmed-merge_runtime env id v m (others id m.store keep) (λ t there. ground (
      arith,
      terminal_seen-update t.runtime v e,
      goes t there,
      Confirmed-at id t m.store keep there,
    ))

not_denied-Harmless : Harmless not_denied
unfolding get
not_denied-Harmless = record { pid = refl; attempted = refl; terminal = refl }

launched-not_denied :
    (env : Env) (id : String) (m : Manager)
    → ((t : Task) → get_task id m.store ≡ some t → launched t.runtime ≡ true)
    → (u : Task) → get_task id (merge_runtime env id not_denied m).store ≡ some u
    → launched u.runtime ≡ true
launched-not_denied env id m goes u there = elim (Option-cases (get_task id m.store)) [
  | inl absent ↦ absurd (unfold merge_runtime in ground (arith, there, absent))
  | inr (t, e) ↦ ground (
    arith,
    there,
    get_task-merge_runtime env id not_denied m t e,
    launched-update t.runtime not_denied not_denied-Harmless,
    goes t e,
  )
]

Confirmed-if_with :
    (b : Bool) (u v : Bool × Manager)
    → Confirmed u.1.store
    → Confirmed v.1.store
    → Confirmed (if b then u else v).1.store
Confirmed-if_with true u v p q = p
Confirmed-if_with false u v p q = q

pub Confirmed-end_launch :
    (env : Env) (id : String) (reply : Dict) (m : Manager)
    → get "remote_terminal_status" reply ≡ none
    → ((t : Task) → get_task id m.store ≡ some t → launched t.runtime ≡ true)
    → Confirmed m.store
    → Confirmed (end_launch env id reply m).1.store
unfolding end_launch
Confirmed-end_launch env id reply m e goes keep =
    let u =
      Confirmed-merge_reply env id reply (merge_runtime env id not_denied m) e
        (launched-not_denied env id m goes)
        (Confirmed-Harmless env id not_denied m not_denied-Harmless keep) in
    Confirmed-if_with (has id m.cancelled) _ _
      (Confirmed-start_remote_cancel id _
        (Confirmed-put_status env id _ "cancel_pending" _ refl refl u))
      u
