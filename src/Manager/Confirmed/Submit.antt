-- ===== src/Manager/Confirmed/Submit.antt =====
-- task_manager.py: a submission, and which tasks are called cancelled.
use backend_wrf.Base.{
  ℕ, ◌≡◌, refl, ◌==◌, string_eq, String, not, ◌&&◌, Option, none, some, inl, inr, arith, Bool-cases,
  Option-cases,
}
use backend_wrf.Json.{Json, get}
use backend_wrf.Table.{Table, insert}
use backend_wrf.Table.Laws.{find-insert}
use backend_wrf.Store.{Store, Task, Submission, Result, ok, err}
use backend_wrf.Store.Submissions.{reserve_submission, accept_submission, compare_request}
use backend_wrf.Store.Tasks.{Env, get_task, create, new_task}
use backend_wrf.Manager.{Manager, has, merge_runtime}
use backend_wrf.Manager.Dispatch.{Host}
use backend_wrf.Manager.Cancel.Keeps.{Harmless}
use backend_wrf.Manager.Attempts.{state_left, and_dispatch}
use backend_wrf.Manager.Submit.{
  birth, accepted_in, submit, submit_again, submit_new, submit_reserved, submit_idempotent,
}
use backend_wrf.Manager.Confirmed.{Confirmed, Confirmed-Harmless}
use backend_wrf.Manager.Confirmed.Again.{
  ConfirmedAfter, Confirmed-tasks, after_stopped, after_taken, after_dispatch,
}

birth-Harmless : (now : String) (release : Json) → Harmless (birth now release)
unfolding get
birth-Harmless now release = record { pid = refl; attempted = refl; terminal = refl }

Confirmed-accepted_in :
    (owner key : String) (m : Manager)
    → Confirmed m.store
    → Confirmed (accepted_in owner key m).store
unfolding accept_submission
Confirmed-accepted_in owner key m keep =
    Confirmed-tasks m.store (accepted_in owner key m).store refl keep

-- A new task is queued.
Confirmed-insert :
    (now owner : String) (q : Json) (id : String) (s : Store) (t : Table String Task)
    → insert id (new_task now q owner) s.tasks ≡ some t
    → Confirmed s
    → Confirmed (record s { tasks = t })
unfolding Confirmed get_task
Confirmed-insert now owner q id s t e keep j u h = elim (Bool-cases (id == j)) [
  | inl i ↦
      let queued : u.status ≡ "queued" =
        ground (arith, h, i, find-insert id j (new_task now q owner) s.tasks e) in
      rw queued refl
  | inr i ↦ keep j u (ground (arith, h, i, find-insert id j (new_task now q owner) s.tasks e))
]

Confirmed-submit_again :
    (env : Env) (h : Host) (clock : ℕ) (owner key id : String) (t : Task) (m : Manager)
    → Confirmed m.store
    → ConfirmedAfter (submit_again env h clock owner key id t m)
unfolding submit_again
Confirmed-submit_again env h clock owner key id t m keep =
    let u = accepted_in owner key m in
    let k = Confirmed-accepted_in owner key m keep in
    elim (Bool-cases (t.status == "queued" && not (has id m.threads))) [
      | inl q ↦ rw (q, submit_again) (after_dispatch env h clock id (λ _. some t) u k)
      | inr q ↦ rw (q, submit_again) (after_taken (some t) u k)
    ]

Confirmed-created :
    (env : Env) (h : Host) (clock : ℕ) (release : Json) (id : String) (m : Manager)
    → Confirmed m.store
    → ConfirmedAfter (
        let u = merge_runtime env id (birth env.now release) m in
        and_dispatch env h clock id (λ _. get_task id u.store) u)
Confirmed-created env h clock release id m keep =
    after_dispatch env h clock id _ (merge_runtime env id (birth env.now release) m)
      (Confirmed-Harmless env id (birth env.now release) m (birth-Harmless env.now release) keep)

Confirmed-submit_one :
    (env : Env) (h : Host) (clock : ℕ) (release q : Json) (owner id : String) (m : Manager)
    → Confirmed m.store
    → ConfirmedAfter (submit env h clock release q owner id m)
unfolding submit create
Confirmed-submit_one env h clock release q owner id m keep =
    elim (Option-cases (insert id (new_task env.now q owner) m.store.tasks)) [
      | inl n ↦ rw (n, submit) (after_stopped _ m keep)
      | inr (t, i) ↦
          rw (i, submit)
            (Confirmed-created env h clock release id
              (record m { store = record m.store { tasks = t } })
              (Confirmed-insert env.now owner q id m.store t i keep))
    ]

pub Confirmed-submit :
    (env : Env) (h : Host) (clock : ℕ) (release q : Json) (owner id : String) (m : Manager)
    → Confirmed m.store
    → Confirmed (state_left (submit env h clock release q owner id m)).store
unfolding ConfirmedAfter
Confirmed-submit env h clock release q owner id m keep =
    Confirmed-submit_one env h clock release q owner id m keep

Confirmed-submit_new :
    (env : Env) (h : Host) (clock : ℕ) (release q : Json) (owner key id : String) (m : Manager)
    → Confirmed m.store
    → ConfirmedAfter (submit_new env h clock release q owner key id m)
unfolding submit_new create
Confirmed-submit_new env h clock release q owner key id m keep =
    elim (Option-cases (insert id (new_task env.now q owner) m.store.tasks)) [
      | inl n ↦ rw (n, submit_new) (after_stopped _ m keep)
      | inr (t, i) ↦
          rw (i, submit_new)
            (Confirmed-created env h clock release id _ (
              Confirmed-accepted_in owner key (record m { store = record m.store { tasks = t } })
                (Confirmed-insert env.now owner q id m.store t i keep)))
    ]

Confirmed-submit_reserved :
    (env : Env) (h : Host) (clock : ℕ) (release q : Json) (owner key id : String) (r : Submission)
    (m : Manager)
    → Confirmed m.store
    → ConfirmedAfter (submit_reserved env h clock release q owner key id r m)
unfolding submit_reserved
Confirmed-submit_reserved env h clock release q owner key id r m keep =
    elim (Option-cases (get_task id m.store)) [
      | inr (t, there) ↦
          rw (there, submit_reserved) (Confirmed-submit_again env h clock owner key id t m keep)
      | inl absent ↦ elim (Bool-cases r.accepted) [
        | inl a ↦ rw (absent, a, submit_reserved) (after_stopped _ m keep)
        | inr a ↦
            rw (absent, a, submit_reserved)
              (Confirmed-submit_new env h clock release q owner key id m keep)
      ]
    ]

tasks-compare_request :
    (text : String) (o : Option Submission) (s t : Store) {r : Submission}
    → compare_request text o s ≡ ok r t
    → s.tasks ≡ t.tasks
unfolding compare_request
tasks-compare_request text none s t e = absurd (ground (arith, e))
tasks-compare_request text (some x) s t e = ground (arith, e)

tasks-reserve_submission :
    (canonical : Json → String) (owner key : String) (q : Json) (id : String) (s t : Store)
    {r : Submission}
    → reserve_submission canonical owner key q id s ≡ ok r t
    → s.tasks ≡ t.tasks
unfolding reserve_submission
tasks-reserve_submission canonical owner key q id s t e =
    tasks-compare_request (canonical q) _ _ t e

Confirmed-reserved :
    (canonical : Json → String) (env : Env) (h : Host) (clock : ℕ) (release q : Json)
    (owner key id : String) (m : Manager) (o : Result Store Submission)
    → reserve_submission canonical owner key q id m.store ≡ o
    → Confirmed m.store
    → ConfirmedAfter (submit_idempotent canonical env h clock release q owner key id m)
unfolding submit_idempotent
Confirmed-reserved canonical env h clock release q owner key id m (err x) e keep =
    rw (e, submit_idempotent) (after_stopped _ m keep)
Confirmed-reserved canonical env h clock release q owner key id m (ok r s) e keep =
    rw (e, submit_idempotent)
      (Confirmed-submit_reserved env h clock release q owner key id r (record m { store = s })
        (Confirmed-tasks m.store s (tasks-reserve_submission canonical owner key q id m.store s e)
          keep))

pub Confirmed-submit_idempotent :
    (canonical : Json → String) (env : Env) (h : Host) (clock : ℕ) (release q : Json)
    (owner key id : String) (m : Manager)
    → Confirmed m.store
    → Confirmed
        (state_left (submit_idempotent canonical env h clock release q owner key id m)).store
unfolding ConfirmedAfter
Confirmed-submit_idempotent canonical env h clock release q owner key id m keep =
    Confirmed-reserved canonical env h clock release q owner key id m _ refl keep
