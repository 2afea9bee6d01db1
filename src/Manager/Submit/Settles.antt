-- ===== src/Manager/Submit/Settles.antt =====
-- task_manager.py: what the first submission under a key leaves.
use backend_wrf.Base.{
  ℕ, ◌≡◌, refl, ◌==◌, string_eq, pair_eq, String, not, ◌&&◌, Option, some, inl, inr, arith,
  Bool-cases, Option-cases,
}
use backend_wrf.Json.{Json}
use backend_wrf.Table.{find, insert}
use backend_wrf.Store.{Store, Task, Submission, Result, ok, err}
use backend_wrf.Store.Submissions.{
  reserve_submission, reserve_submission_row, accept_submission, accept,
}
use backend_wrf.Store.Tasks.{Env, get_task, create, new_task}
use backend_wrf.Manager.{Manager, Refusal, other_error, has, merge_runtime}
use backend_wrf.Manager.Dispatch.{Host, Dispatched, launches, declines, fails, dispatch, dispatched}
use backend_wrf.Manager.Cancel.Keeps.{dispatch_keeps}
use backend_wrf.Manager.Attempts.{Taken, taken, stopped, and_dispatch}
use backend_wrf.Manager.Submit.{
  birth, accepted_in, submit_again, submit_new, submit_reserved, submit_idempotent,
}
use backend_wrf.Manager.Submit.Closed.{Closed, find-accepted, Closed-merge_runtime}

-- An accepted key, the store being its own base.
Closed-here :
    (owner key : String) (r : Submission) (m : Manager)
    → find (owner, key) m.store.submissions ≡ some r
    → Closed owner key (accepted_in owner key m).store (accepted_in owner key m).store
unfolding accept_submission
Closed-here owner key r m e = record {
  row = accept r;
  reserved = find-accepted (owner, key) r m.store.submissions e;
  is_accepted = refl;
  no_new = λ j h. h;
}

rebased : (owner key : String) (base s : Store) → Closed owner key base s → Closed owner key s s
rebased owner key base s c = record {
  row = c.row;
  reserved = c.reserved;
  is_accepted = c.is_accepted;
  no_new = λ j h. h;
}

-- What a submission leaves, if it returns.
pub data Settles (owner key : String) : Taken → Type 0 where
  closes :
      {a : Option Task} {u : Manager}
      → Closed owner key u.store u.store
      → Settles owner key (taken a u)
  refuses : {e : Refusal} {u : Manager} → Settles owner key (stopped e u)

Settles-dispatched :
    (owner key : String) (base : Store) (answer : Manager → Option Task) (d : Dispatched)
    → Closed owner key base (dispatched d).store
    → Settles owner key (elim d [
      | launches u ↦ taken (answer u) u
      | declines u ↦ taken (answer u) u
      | fails u ↦ stopped other_error u
    ])
Settles-dispatched owner key base answer (launches u) c = closes (rebased owner key base u.store c)
Settles-dispatched owner key base answer (declines u) c = closes (rebased owner key base u.store c)
Settles-dispatched owner key base answer (fails u) c = refuses

Settles-and_dispatch :
    (owner key : String) (base : Store) (env : Env) (h : Host) (clock : ℕ) (id : String)
    (answer : Manager → Option Task) (m : Manager)
    → Closed owner key base m.store
    → Settles owner key (and_dispatch env h clock id answer m)
unfolding and_dispatch
Settles-and_dispatch owner key base env h clock id answer m c =
    Settles-dispatched owner key base answer (dispatch env h clock id m) (
      dispatch_keeps (Closed owner key base)
        (λ e i v n k d. Closed-merge_runtime owner key base e i v n d) env h clock id m c)

Settles-submit_again :
    (owner key : String) (env : Env) (h : Host) (clock : ℕ) (id : String) (t : Task)
    (r : Submission) (m : Manager)
    → find (owner, key) m.store.submissions ≡ some r
    → Settles owner key (submit_again env h clock owner key id t m)
unfolding submit_again
Settles-submit_again owner key env h clock id t r m e =
    let w = accepted_in owner key m in
    let c = Closed-here owner key r m e in
    elim (Bool-cases (t.status == "queued" && not (has id m.threads))) [
      | inl q ↦
          rw (q, submit_again)
            (Settles-and_dispatch owner key w.store env h clock id (λ _. some t) w c)
      | inr q ↦ rw (q, submit_again) (closes c)
    ]

Settles-created :
    (owner key : String) (env : Env) (h : Host) (clock : ℕ) (release : Json) (id : String)
    (r : Submission) (m : Manager)
    → find (owner, key) m.store.submissions ≡ some r
    → Settles owner key (
        let u = merge_runtime env id (birth env.now release) (accepted_in owner key m) in
        and_dispatch env h clock id (λ _. get_task id u.store) u)
Settles-created owner key env h clock release id r m e =
    let w = accepted_in owner key m in
    let u = merge_runtime env id (birth env.now release) w in
    Settles-and_dispatch owner key w.store env h clock id (λ _. get_task id u.store) u
      (Closed-merge_runtime owner key w.store env id (birth env.now release) w
        (Closed-here owner key r m e))

Settles-submit_new :
    (owner key : String) (env : Env) (h : Host) (clock : ℕ) (release q : Json) (id : String)
    (r : Submission) (m : Manager)
    → find (owner, key) m.store.submissions ≡ some r
    → Settles owner key (submit_new env h clock release q owner key id m)
unfolding submit_new create
Settles-submit_new owner key env h clock release q id r m e =
    elim (Option-cases (insert id (new_task env.now q owner) m.store.tasks)) [
      | inl n ↦ rw (n, submit_new) refuses
      | inr (t, i) ↦
          rw (i, submit_new)
            (Settles-created owner key env h clock release id r
              (record m { store = record m.store { tasks = t } }) e)
    ]

Settles-submit_reserved :
    (owner key : String) (env : Env) (h : Host) (clock : ℕ) (release q : Json) (id : String)
    (r : Submission) (m : Manager)
    → find (owner, key) m.store.submissions ≡ some r
    → Settles owner key (submit_reserved env h clock release q owner key id r m)
unfolding submit_reserved
Settles-submit_reserved owner key env h clock release q id r m e =
    elim (Option-cases (get_task id m.store)) [
      | inr (t, there) ↦
          rw (there, submit_reserved) (Settles-submit_again owner key env h clock id t r m e)
      | inl absent ↦ elim (Bool-cases r.accepted) [
        | inl a ↦ rw (absent, a, submit_reserved) refuses
        | inr a ↦
            rw (absent, a, submit_reserved)
              (Settles-submit_new owner key env h clock release q id r m e)
      ]
    ]

pub Settles-submit_idempotent :
    (canonical : Json → String) (owner key : String) (env : Env) (h : Host) (clock : ℕ)
    (release q : Json) (id : String) (m : Manager) (o : Result Store Submission)
    → reserve_submission canonical owner key q id m.store ≡ o
    → Settles owner key (submit_idempotent canonical env h clock release q owner key id m)
unfolding submit_idempotent
Settles-submit_idempotent canonical owner key env h clock release q id m (err x) e =
    rw (e, submit_idempotent) refuses
Settles-submit_idempotent canonical owner key env h clock release q id m (ok r s) e =
    rw (e, submit_idempotent)
      (Settles-submit_reserved owner key env h clock release q id r (record m { store = s })
        ((reserve_submission_row canonical owner key q id m.store s e).0))

pub Closed-by :
    (owner key : String) (x : Taken) (a : Option Task) (u : Manager)
    → Settles owner key x
    → x ≡ taken a u
    → Closed owner key u.store u.store
Closed-by owner key _ a u (closes c) e = ground (arith, c, e)
Closed-by owner key _ a u refuses e = absurd (ground (arith, e))
