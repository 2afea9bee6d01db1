-- ===== src/Manager/Attempts/Restart.antt =====
-- task_manager.py: what `restart` makes of a task.
use backend_wrf.Base.{
  ℕ, ◌≡◌, refl, ap, ◌∙◌, sym, String, string_eq, attempt_eq, ℕ_eq, eq_iff, nat_eq_iff, Bool, true,
  false, not, ◌&&◌, Option, some, ◌⊎◌, inl, inr, arith, if◌then◌else◌, Option-cases,
}
use backend_wrf.Json.{Json}
use backend_wrf.Table.{insert_or_replace}
use backend_wrf.Store.{Store, Task}
use backend_wrf.Store.Tasks.{
  Env, get_task, attempt_of, archived_row, archive_attempt, fresh_attempt, begin_attempt,
  update_task,
}
use backend_wrf.Manager.{
  Manager, Refusal, conflict, bad_value, other_error, discard, wrf_succeeded, is_busy,
}
use backend_wrf.Manager.Dispatch.{Host, dispatch, dispatched}
use backend_wrf.Manager.Attempts.{
  Taken, taken, stopped, and_dispatch, decorated, get_decorated, is_stopped, Remote, restart_plan,
  Files, persist_failure, begin_again, archive_and_begin, is_expired, restart_planned, restart,
}
use backend_wrf.Manager.Attempts.Begun.{
  Archived, Begun, Current, Current-persist_failure, attempt_of_same, Begun-begin, Begun-dispatch,
  Archived-insert,
}
use backend_wrf.Manager.Attempts.Ended.{has_ended, planned}

-- A test that an accepted operation has passed.
passed :
    (b : Bool) (e : Refusal) (m u : Manager) (a : Option Task) (y : Taken)
    → (if b then stopped e m else y) ≡ taken a u
    → (b ≡ false) × (y ≡ taken a u)
passed true e m u a y h = absurd (ground (arith, h))
passed false e m u a y h = (refl, h)

and_dispatch_state :
    (env : Env) (h : Host) (clock : ℕ) (id : String) (answer : Manager → Option Task)
    (m u : Manager) (a : Option Task)
    → and_dispatch env h clock id answer m ≡ taken a u
    → u ≡ dispatched (dispatch env h clock id m)
unfolding and_dispatch
and_dispatch_state env h clock id answer m u a e = ground (arith, e)

begin_again_state :
    (env : Env) (h : Host) (clock : ℕ) (request : Json) (id : String) (m u : Manager)
    (a : Option Task) (old t : Task)
    → Archived id old m.store
    → get_task id m.store ≡ some t
    → t.attempt_no ≡ old.attempt_no
    → begin_again env h clock request id m ≡ taken a u
    → Begun id old request u.store
unfolding begin_again begin_attempt
begin_again_state env h clock request id m u a old t arch there e done =
    let s = update_task env id (fresh_attempt env.now request t) m.store in
    let w : Manager = record m { cancelled = discard id m.cancelled; store = s } in
    let began : begin_again env h clock request id m
        ≡ and_dispatch env h clock id (get_decorated id) w =
      rw (there, begin_again) refl in
    let last = and_dispatch_state env h clock id (get_decorated id) w u a (sym began ∙ done) in
    rw last (
      Begun-dispatch id old request env h clock id w
        (Begun-begin env request id old t m.store arch there e))

archive_and_begin_state :
    (env : Env) (h : Host) (clock : ℕ) (files : Files) (request : Json) (id : String)
    (m u : Manager) (a : Option Task) (old : Task)
    → Current id old m.store
    → archive_and_begin env h clock files request id m ≡ taken a u
    → Begun id old request u.store
unfolding archive_and_begin archive_attempt
archive_and_begin_state env h clock files request id m u a old c done =
    let s : Store = record m.store {
      attempts =
          insert_or_replace (id, attempt_of c.row) (archived_row env.now files.log_path c.row)
            m.store.attempts;
    } in
    let w : Manager = record m { store = s } in
    let begins : archive_and_begin env h clock files request id m ≡ (
        if not files.cleaned then stopped other_error w else begin_again env h clock request id w) =
      rw (c.stored, archive_and_begin) refl in
    let (clean, last) = passed (not files.cleaned) other_error w u a _ (sym begins ∙ done) in
    begin_again_state env h clock request id w u a old c.row
      (Archived-insert env id files.log_path old m.store c) (unfold get_task in c.stored)
      c.attempt_no last

restart_planned_state :
    (env : Env) (h : Host) (clock : ℕ) (files : Files) (request : Json) (c : Bool) (id : String)
    (t : Task) (m u : Manager) (a : Option Task) (old : Task)
    → get_task id m.store ≡ some old
    → restart_planned env h clock files request c id t m ≡ taken a u
    → Begun id old request u.store
unfolding restart_planned
restart_planned_state env h clock files request c id t m u a old there done =
    let (free, last) =
      passed (c && wrf_succeeded t.runtime && files.is_archived) conflict
        (persist_failure env id t m) u a _ done in
    archive_and_begin_state env h clock files request id (persist_failure env id t m) u a old
      (Current-persist_failure env id t old m there) last

-- what `decorated` does not touch
record Stored (id : String) (t : Task) (m : Manager) : Type 0 where
  old : Task
  stored : get_task id m.store ≡ some old
  status : t.status ≡ old.status
  runtime : t.runtime ≡ old.runtime
  attempt_no : t.attempt_no ≡ old.attempt_no

Stored-decorated :
    (id : String) (t : Task) (m : Manager) → get_decorated id m ≡ some t → Stored id t m
unfolding get_decorated decorated
Stored-decorated id t m e = elim (Option-cases (get_task id m.store)) [
  | inl absent ↦ absurd (ground (arith, e, absent))
  | inr (old, there) ↦ record {
    old = old;
    stored = there;
    status = ground (arith, e, there);
    runtime = ground (arith, e, there);
    attempt_no = ground (arith, e, there);
  }
]

-- What an accepted `restart` has checked, and what it leaves.
pub record Restarted (q : Remote) (request : Json) (confirmed : String × ℕ) (completed : Bool)
    (id : String) (m u : Manager) : Type 0 where
  pub old : Task
  pub stored : get_task id m.store ≡ some old
  pub confirmed_task : confirmed.0 ≡ id
  pub Confirmed-attempt : confirmed.1 ≡ attempt_of old
  pub idle : is_busy id m ≡ false
  pub over : is_stopped old.status ≡ true
  pub ended : has_ended q completed old ≡ true
  pub begun : Begun id old request u.store

not_expired :
    (confirmed : String × ℕ) (id : String) (t : Task)
    → is_expired (confirmed.0) (confirmed.1) id t ≡ false
    → (confirmed.0 ≡ id) × (confirmed.1 ≡ attempt_of t)
unfolding is_expired
not_expired confirmed id t e = (
  (eq_iff (confirmed.0) id).0 (ground (arith, e)),
  (nat_eq_iff (confirmed.1) (attempt_of t)).0 (ground (arith, e)),
)

-- an accepted plan
accepted :
    (p : Refusal ⊎ Bool) (m u : Manager) (a : Option Task) (y : Taken)
    → elim p as (λ _. Taken) [
      | inl e ↦ stopped e m
      | inr possible ↦ if not possible then stopped conflict m else y
    ]
      ≡ taken a u
    → (p ≡ inr true) × (y ≡ taken a u)
accepted (inl e) m u a y h = absurd (ground (arith, h))
accepted (inr true) m u a y h = (refl, h)
accepted (inr false) m u a y h = absurd (ground (arith, h))

has_ended_same :
    (q : Remote) (completed : Bool) (t old : Task)
    → t.runtime ≡ old.runtime
    → has_ended q completed t ≡ has_ended q completed old
unfolding has_ended
has_ended_same q completed t old e = rw e refl

-- When `restart` returns, the caller had named the task and its current attempt, no worker and no
-- deletion was under way, the task had stopped, and its remote attempt was known to be over or to
-- have never begun. The attempt is archived under its number, with its request, status, runtime,
-- result and error, and the task is queued with the next number and the new request.
pub restart-Restarted :
    (env : Env) (h : Host) (clock : ℕ) (q : Remote) (files : Files) (request : Json)
    (confirmed : String × ℕ) (completed : Bool) (id : String) (m u : Manager) (a : Option Task)
    → restart env h clock q files request confirmed completed id m ≡ taken a u
    → Restarted q request confirmed completed id m u
unfolding restart
restart-Restarted env h clock q files request confirmed completed id m u a done =
    elim (Option-cases (get_decorated id m)) [
      | inl absent ↦ absurd (ground (arith, done, absent))
      | inr (t, there) ↦
          let s = Stored-decorated id t m there in
          let go = sym (rw (there, restart) refl) ∙ done in
          let (named, go) =
            passed (is_expired (confirmed.0) (confirmed.1) id t) bad_value m u a _ go in
          let (idle, go) = passed (is_busy id m) conflict m u a _ go in
          let (plan, go) = accepted (restart_plan q completed id m) m u a _ go in
          let p = planned q completed id t m there plan in
          let named = not_expired confirmed id t named in
          record {
            old = s.old;
            stored = s.stored;
            confirmed_task = named.0;
            Confirmed-attempt = named.1 ∙ attempt_of_same t s.old s.attempt_no;
            idle = idle;
            over = ap (λ x. is_stopped x) (sym s.status) ∙ p.over;
            ended = sym (has_ended_same q completed t s.old s.runtime) ∙ p.ended;
            begun =
                restart_planned_state env h clock files request completed id t m u a s.old s.stored
                  go;
          }
    ]
