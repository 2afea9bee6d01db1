-- ===== src/Manager/Attempts/Begun.antt =====
-- task_manager.py: the attempt that `restart` archives and the one that it begins.
use backend_wrf.Base.{
  ℕ, ◌+◌, ◌≡◌, refl, ap, ◌∙◌, String, string_eq, attempt_eq, ℕ_eq, same_refl, eq_iff, ◌==◌, Option,
  some, inl, inr, arith, if◌then◌else◌, Bool-cases, Option-cases,
}
use backend_wrf.Json.{Json, Dict, get, truthy?, update, pop}
use backend_wrf.Table.{Table, find, insert_or_replace}
use backend_wrf.Table.Laws.{find-insert_or_replace}
use backend_wrf.Store.{Store, Task, Attempt}
use backend_wrf.Store.Tasks.{
  Env, Changes, no_changes, get_task, attempt_of, archived_row, fresh_attempt, update_task,
  changed_task,
}
use backend_wrf.Store.Tasks.Laws.{get_task-update_task, attempts-update_task}
use backend_wrf.Manager.{Manager, put, merge_runtime}
use backend_wrf.Manager.Dispatch.{Host, dispatch, dispatched}
use backend_wrf.Manager.Cancel.Keeps.{dispatch_keeps}
use backend_wrf.Manager.Attempts.{persist_failure}

-- The row of the attempt of `old` that has ended.
pub record Archived (id : String) (old : Task) (s : Store) : Type 0 where
  pub row : Attempt
  pub found : find (id, attempt_of old) s.attempts ≡ some row
  pub request : row.request ≡ old.request
  pub status : row.status ≡ old.status
  pub runtime : row.runtime ≡ old.runtime
  pub result : row.result ≡ old.result
  pub error : row.error ≡ old.error

-- The task with its next attempt.
pub record Queued (id : String) (old : Task) (new_request : Json) (s : Store) : Type 0 where
  pub fresh : Task
  pub stored : get_task id s ≡ some fresh
  pub status : fresh.status ≡ "queued"
  pub attempt_no : fresh.attempt_no ≡ attempt_of old + 1
  pub request : fresh.request ≡ new_request

pub record Begun (id : String) (old : Task) (new_request : Json) (s : Store) : Type 0 where
  pub archived : Archived id old s
  pub queued : Queued id old new_request s

-- the row of a task, after a change that leaves its status, its request and its attempt
record Same (id : String) (t : Task) (s : Store) : Type 0 where
  row : Task
  stored : get_task id s ≡ some row
  status : row.status ≡ t.status
  request : row.request ≡ t.request
  attempt_no : row.attempt_no ≡ t.attempt_no

abbrev noted : Dict → Changes
noted r = record no_changes { runtime = some r }

Same-put :
    (id : String) (t : Task) (env : Env) (j : String) (r : Dict) (m : Manager)
    → get_task id m.store ≡ some t
    → Same id t (put env j (noted r) m).store
unfolding put
Same-put id t env j r m there = elim (Bool-cases (j == id)) [
  | inl e ↦ record {
    row = changed_task env.now (noted r) t;
    stored = ground (arith, there, e, get_task-update_task env j id (noted r) m.store);
    status = refl;
    request = refl;
    attempt_no = refl;
  }
  | inr e ↦ record {
    row = t;
    stored = ground (arith, there, e, get_task-update_task env j id (noted r) m.store);
    status = refl;
    request = refl;
    attempt_no = refl;
  }
]

Archived-update_task :
    (id : String) (old : Task) (env : Env) (j : String) (c : Changes) (s : Store)
    → Archived id old s
    → Archived id old (update_task env j c s)
Archived-update_task id old env j c s a = record {
  row = a.row;
  found = ap (λ x. find (id, attempt_of old) x) (attempts-update_task env j c s) ∙ a.found;
  request = a.request;
  status = a.status;
  runtime = a.runtime;
  result = a.result;
  error = a.error;
}

Begun-put :
    (id : String) (old : Task) (request : Json) (env : Env) (j : String) (r : Dict) (m : Manager)
    → Begun id old request m.store
    → Begun id old request (put env j (noted r) m).store
Begun-put id old request env j r m b =
    let t = Same-put id b.queued.fresh env j r m b.queued.stored in
    record {
      archived = unfold put in Archived-update_task id old env j (noted r) m.store b.archived;
      queued = record {
        fresh = t.row;
        stored = t.stored;
        status = t.status ∙ b.queued.status;
        attempt_no = t.attempt_no ∙ b.queued.attempt_no;
        request = t.request ∙ b.queued.request;
      };
    }

Begun-merge_runtime :
    (id : String) (old : Task) (request : Json) (env : Env) (j : String) (v : Dict) (m : Manager)
    → Begun id old request m.store
    → Begun id old request (merge_runtime env j v m).store
unfolding merge_runtime
Begun-merge_runtime id old request env j v m b = elim (Option-cases (get_task j m.store)) [
  | inl absent ↦ rw (absent, merge_runtime) b
  | inr (t, there) ↦
      rw (there, merge_runtime) (Begun-put id old request env j (update t.runtime v) m b)
]

pub Begun-dispatch :
    (id : String) (old : Task) (request : Json) (env : Env) (h : Host) (clock : ℕ) (j : String)
    (m : Manager)
    → Begun id old request m.store
    → Begun id old request (dispatched (dispatch env h clock j m)).store
Begun-dispatch id old request env h clock j m b =
    dispatch_keeps (Begun id old request)
      (λ e i v n k c. Begun-merge_runtime id old request e i v n c) env h clock j m b

-- the task that is stored under the id when the attempt is archived
pub record Current (id : String) (old : Task) (s : Store) : Type 0 where
  pub row : Task
  pub stored : get_task id s ≡ some row
  pub request : row.request ≡ old.request
  pub status : row.status ≡ old.status
  pub runtime : row.runtime ≡ old.runtime
  pub result : row.result ≡ old.result
  pub error : row.error ≡ old.error
  pub attempt_no : row.attempt_no ≡ old.attempt_no

Current-same : (id : String) (old : Task) (s : Store) → get_task id s ≡ some old → Current id old s
Current-same id old s there = record {
  row = old;
  stored = there;
  request = refl;
  status = refl;
  runtime = refl;
  result = refl;
  error = refl;
  attempt_no = refl;
}

Current-put_failure :
    (env : Env) (id : String) (f : Dict) (old : Task) (m : Manager)
    → get_task id m.store ≡ some old
    → Current id old (put env id (record no_changes { failure = some (some f) }) m).store
unfolding put
Current-put_failure env id f old m there =
    let c : Changes = record no_changes { failure = some (some f) } in
    record {
      row = changed_task env.now c old;
      stored = ground (arith, there, eq_iff id id, get_task-update_task env id id c m.store);
      request = refl;
      status = refl;
      runtime = refl;
      result = refl;
      error = refl;
      attempt_no = refl;
    }

pub Current-persist_failure :
    (env : Env) (id : String) (t old : Task) (m : Manager)
    → get_task id m.store ≡ some old
    → Current id old (persist_failure env id t m).store
unfolding persist_failure
Current-persist_failure env id t old m there = elim (Option-cases t.failure) [
  | inl n ↦ rw (n, persist_failure) (Current-same id old m.store there)
  | inr (f, e) ↦ elim (Bool-cases (truthy? (get "derived" f))) [
    | inl d ↦ rw (e, d, persist_failure) (Current-put_failure env id (pop "derived" f) old m there)
    | inr d ↦ rw (e, d, persist_failure) (Current-same id old m.store there)
  ]
]

pub attempt_of_same : (t u : Task) → t.attempt_no ≡ u.attempt_no → attempt_of t ≡ attempt_of u
attempt_of_same t u e = ap (λ n. if n == 0 then 1 else n) e

pub Begun-begin :
    (env : Env) (request : Json) (id : String) (old t : Task) (s : Store)
    → Archived id old s
    → get_task id s ≡ some t
    → t.attempt_no ≡ old.attempt_no
    → Begun id old request (update_task env id (fresh_attempt env.now request t) s)
Begun-begin env request id old t s a there e =
    let c = fresh_attempt env.now request t in
    record {
      archived = Archived-update_task id old env id c s a;
      queued = record {
        fresh = changed_task env.now c t;
        stored = ground (arith, there, eq_iff id id, get_task-update_task env id id c s);
        status = refl;
        attempt_no = ap (λ n. n + 1) (attempt_of_same t old e);
        request = refl;
      };
    }

find_own :
    (k : String × ℕ) (v : Attempt) (t : Table (String × ℕ) Attempt)
    → find k (insert_or_replace k v t) ≡ some v
find_own k v t = find-insert_or_replace k k v t ∙ rw (same_refl k) refl

pub Archived-insert :
    (env : Env) (id : String) (log : Option String) (old : Task) (s : Store) (c : Current id old s)
    → Archived id old (record s {
      attempts =
          insert_or_replace (id, attempt_of c.row) (archived_row env.now log c.row) s.attempts;
    })
Archived-insert env id log old s c =
    let e = attempt_of_same c.row old c.attempt_no in
    record {
      row = archived_row env.now log c.row;
      found = rw e (find_own (id, attempt_of old) (archived_row env.now log c.row) s.attempts);
      request = c.request;
      status = c.status;
      runtime = c.runtime;
      result = c.result;
      error = c.error;
    }
