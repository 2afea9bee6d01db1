-- ===== src/Manager/Submit/Closed.antt =====
-- task_manager.py: `submit_idempotent` under a key that has been accepted.
use backend_wrf.Base.{
  ℕ, ◌≡◌, refl, ap, sym, ◌∙◌, ◌==◌, string_eq, pair_eq, same_refl, String, Bool, true, false, not,
  ◌&&◌, Option, none, some, inl, inr, arith, Bool-cases, Option-cases,
}
use backend_wrf.Json.{Json, Dict, update}
use backend_wrf.Table.{Table, find, modify}
use backend_wrf.Table.Laws.{find-modify}
use backend_wrf.Store.{Store, Task, Submission}
use backend_wrf.Store.Submissions.{
  reserve_submission, accept_submission, accept, offer_there, compare_request,
}
use backend_wrf.Store.Tasks.{Env, Changes, no_changes, get_task, update_task}
use backend_wrf.Store.Tasks.Laws.{get_task-update_task, submissions-update_task}
use backend_wrf.Manager.{Manager, has, put, merge_runtime}
use backend_wrf.Manager.Dispatch.{Host}
use backend_wrf.Manager.Cancel.Keeps.{dispatch_keeps}
use backend_wrf.Manager.Attempts.{state_left, and_dispatch}
use backend_wrf.Manager.Attempts.Laws.{state_left-and_dispatch}
use backend_wrf.Manager.Submit.{accepted_in, submit_again, submit_reserved, submit_idempotent}

abbrev pub has_task : String → Store → Bool
has_task id s = elim (get_task id s) [ none ↦ false | some t ↦ true ]

-- The key is accepted, and there is no task that `base` has not.
pub record Closed (owner key : String) (base s : Store) : Type 0 where
  pub row : Submission
  pub reserved : find (owner, key) s.submissions ≡ some row
  pub is_accepted : row.accepted ≡ true
  pub no_new : (j : String) → has_task j s ≡ true → has_task j base ≡ true

has_task-update_task :
    (env : Env) (i j : String) (c : Changes) (s : Store)
    → has_task j (update_task env i c s) ≡ has_task j s
has_task-update_task env i j c s = ground (arith, get_task-update_task env i j c s)

pub Closed-merge_runtime :
    (owner key : String) (base : Store) (env : Env) (i : String) (v : Dict) (m : Manager)
    → Closed owner key base m.store
    → Closed owner key base (merge_runtime env i v m).store
unfolding merge_runtime put
Closed-merge_runtime owner key base env i v m c = elim (Option-cases (get_task i m.store)) [
  | inl absent ↦ rw (absent, merge_runtime) c
  | inr (t, there) ↦
      let d : Changes = record no_changes { runtime = some (update t.runtime v) } in
      rw (there, merge_runtime)
        (record {
          row = c.row;
          reserved =
              ap (λ x. find (owner, key) x) (submissions-update_task env i d m.store) ∙ c.reserved;
          is_accepted = c.is_accepted;
          no_new = λ j e. c.no_new j (sym (has_task-update_task env i j d m.store) ∙ e);
        })
]

Closed-and_dispatch :
    (owner key : String) (base : Store) (env : Env) (h : Host) (clock : ℕ) (id : String)
    (answer : Manager → Option Task) (m : Manager)
    → Closed owner key base m.store
    → Closed owner key base (state_left (and_dispatch env h clock id answer m)).store
Closed-and_dispatch owner key base env h clock id answer m c =
    rw (state_left-and_dispatch env h clock id answer m) (
      dispatch_keeps (Closed owner key base)
        (λ e i v n k d. Closed-merge_runtime owner key base e i v n d) env h clock id m c)

pub find-accepted :
    (k : String × String) (r : Submission) (t : Table (String × String) Submission)
    → find k t ≡ some r
    → find k (modify k accept t) ≡ some (accept r)
find-accepted k r t e = find-modify k k accept t ∙ rw (same_refl k, e) refl

pub Closed-accepted_in :
    (owner key : String) (base : Store) (m : Manager)
    → Closed owner key base m.store
    → Closed owner key base (accepted_in owner key m).store
unfolding accept_submission get_task
Closed-accepted_in owner key base m c = record {
  row = accept c.row;
  reserved = find-accepted (owner, key) c.row m.store.submissions c.reserved;
  is_accepted = refl;
  no_new = c.no_new;
}

reserve_submission-Closed :
    (canonical : Json → String) (owner key : String) (q : Json) (id : String) (base s : Store)
    (c : Closed owner key base s)
    → reserve_submission canonical owner key q id s ≡ compare_request (canonical q) (some c.row) s
unfolding reserve_submission
reserve_submission-Closed canonical owner key q id base s c =
    let row : Submission = record { request_json = canonical q; task_id = id; accepted = false } in
    rw (offer_there (owner, key) row c.row s.submissions c.reserved) (rw c.reserved refl)

Closed-submit_again :
    (owner key : String) (base : Store) (env : Env) (h : Host) (clock : ℕ) (id : String) (t : Task)
    (m : Manager)
    → Closed owner key base m.store
    → Closed owner key base (state_left (submit_again env h clock owner key id t m)).store
unfolding submit_again
Closed-submit_again owner key base env h clock id t m c =
    let u = accepted_in owner key m in
    let d = Closed-accepted_in owner key base m c in
    elim (Bool-cases (t.status == "queued" && not (has id m.threads))) [
      | inl q ↦
          rw (q, submit_again) (Closed-and_dispatch owner key base env h clock id (λ _. some t) u d)
      | inr q ↦ rw (q, submit_again) d
    ]

Closed-submit_reserved :
    (owner key : String) (base : Store) (env : Env) (h : Host) (clock : ℕ) (release q : Json)
    (id : String) (m : Manager) (c : Closed owner key base m.store)
    → Closed owner key base
        (state_left (submit_reserved env h clock release q owner key id c.row m)).store
unfolding submit_reserved
Closed-submit_reserved owner key base env h clock release q id m c =
    elim (Option-cases (get_task id m.store)) [
      | inl absent ↦ rw (absent, c.is_accepted, submit_reserved) c
      | inr (t, there) ↦
          rw (there, submit_reserved) (Closed-submit_again owner key base env h clock id t m c)
    ]

-- the key is accepted: the request has its text, or nothing happens
pub Closed-submit_idempotent :
    (canonical : Json → String) (owner key : String) (base : Store) (env : Env) (h : Host)
    (clock : ℕ) (release q : Json) (id : String) (m : Manager)
    → Closed owner key base m.store
    → Closed owner key base
        (state_left (submit_idempotent canonical env h clock release q owner key id m)).store
unfolding submit_idempotent compare_request
Closed-submit_idempotent canonical owner key base env h clock release q id m c =
    let reserved = reserve_submission-Closed canonical owner key q id base m.store c in
    elim (Bool-cases (not (c.row.request_json == canonical q))) [
      | inl other ↦ rw (reserved, other, submit_idempotent) c
      | inr its ↦
          rw (reserved, its, submit_idempotent)
            (Closed-submit_reserved owner key base env h clock release q id m c)
    ]
