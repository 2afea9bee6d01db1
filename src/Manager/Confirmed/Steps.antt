-- ===== src/Manager/Confirmed/Steps.antt =====
-- task_manager.py: what the threads of the service do to the tasks, as steps.
use backend_wrf.Base.{ℕ, ◌≡◌, String, string_eq, ◌==◌, Bool, true, false, none, some}
use backend_wrf.Json.{Json, Dict, get, truthy?}
use backend_wrf.Store.{Task}
use backend_wrf.Store.Tasks.{Env, Changes, get_task, or_old}
use backend_wrf.Manager.{Manager, launched, put, merge_runtime}
use backend_wrf.Manager.Dispatch.{Host, dispatch, dispatched}
use backend_wrf.Manager.Cancel.{cancel, Binding, end_remote_cancel, begin_observe, end_observe}
use backend_wrf.Manager.Cancel.Keeps.{Harmless}
use backend_wrf.Manager.Worker.{begin_work, end_work, Ending, enqueue_reconcile, after_execute}
use backend_wrf.Manager.Remote.{
  merge_remote_profile, reconcile, intend_launch, deny_launch, end_launch,
}
use backend_wrf.Manager.Attempts.{Remote, Files, state_left, restart}
use backend_wrf.Manager.Again.{resume_external, retry_outputs, render_partial}
use backend_wrf.Manager.Confirmed.{Confirmed, Confirmed-Harmless}
use backend_wrf.Manager.Submit.{submit, submit_idempotent}
use backend_wrf.Manager.Start.{active, start}
use backend_wrf.Manager.Confirmed.Submit.{Confirmed-submit, Confirmed-submit_idempotent}
use backend_wrf.Manager.Confirmed.Start.{Agrees, Confirmed-start}
use backend_wrf.Manager.Confirmed.Cancel.{
  state_after, Confirmed-cancel, Confirmed-dispatch, Confirmed-end_remote_cancel,
  Confirmed-begin_observe, Confirmed-end_observe, Confirmed-put_status, Confirmed-put_progress,
}
use backend_wrf.Manager.Confirmed.Worker.{
  Confirmed-begin_work, Confirmed-end_work, Confirmed-after_execute, Confirmed-enqueue_reconcile,
}
use backend_wrf.Manager.Confirmed.Remote.{
  Confirmed-merge_remote_profile, Confirmed-reconcile, Confirmed-intend_launch,
  Confirmed-deny_launch, Confirmed-end_launch,
}
use backend_wrf.Manager.Confirmed.Again.{
  ConfirmedAfter, Confirmed-restart, Confirmed-resume_external, Confirmed-retry_outputs,
  Confirmed-render_partial,
}

-- The start of the service, requests of users, the worker of a task, and the threads that cancel.
-- At a start the rows of active tasks have different ids. `writes` and `progresses` stand for the
-- progress of a worker, whose status is never `cancelled`, `notes` for what it notes of its work.
-- A worker launches an attempt only for a task without `remote_pid`; the reply comes for an attempt
-- that it launched, and says nothing of an end.
pub data ManagerStep : Manager → Manager → Type 0 where
  starts :
      (env : Env) (h : Host) (clock stamp : ℕ) (m : Manager)
      → Agrees (active m.store.tasks) m.store
      → ManagerStep m (start env h clock stamp m)
  submits_new :
      (env : Env) (h : Host) (clock : ℕ) (release q : Json) (owner id : String) (m : Manager)
      → ManagerStep m (state_left (submit env h clock release q owner id m))
  submits :
      (canonical : Json → String) (env : Env) (h : Host) (clock : ℕ) (release q : Json)
      (owner key id : String) (m : Manager)
      → ManagerStep m
          (state_left (submit_idempotent canonical env h clock release q owner key id m))
  dispatches :
      (env : Env) (h : Host) (clock : ℕ) (id : String) (m : Manager)
      → ManagerStep m (dispatched (dispatch env h clock id m))
  cancels :
      (env : Env) (h : Host) (clock : ℕ) (id : String) (m : Manager)
      → ManagerStep m (state_after m (cancel env h clock id m))
  ends_cancel :
      (env : Env) (h : Host) (clock : ℕ) (doubt id status : String) (b : Binding) (m : Manager)
      → ManagerStep m (end_remote_cancel env h clock doubt id status b m)
  begins_observe : (id : String) (m : Manager) → ManagerStep m ((begin_observe id m).1)
  observes :
      (env : Env) (h : Host) (clock : ℕ) (doubt id status : String) (b : Binding) (m : Manager)
      → ManagerStep m (end_observe env h clock doubt id status b m)
  begins : (id : String) (m : Manager) → ManagerStep m ((begin_work id m).1)
  reconciles :
      (env : Env) (code id status : String) (p : Dict) (m : Manager)
      → ManagerStep m ((reconcile env code id status p m).1)
  profiles :
      (env : Env) (id status : String) (p : Dict) (m : Manager)
      → ManagerStep m (merge_remote_profile env id status p m)
  writes :
      (env : Env) (id : String) (c : Changes) (s : String) (m : Manager)
      → c.status ≡ some s
      → (s == "cancelled") ≡ false
      → ManagerStep m (put env id c m)
  progresses :
      (env : Env) (id : String) (c : Changes) (m : Manager)
      → c.status ≡ none
      → c.runtime ≡ none
      → ManagerStep m (put env id c m)
  notes :
      (env : Env) (id : String) (v : Dict) (m : Manager)
      → Harmless v
      → ManagerStep m (merge_runtime env id v m)
  intends :
      (env : Env) (id : String) (fresh : String) (m : Manager)
      → ManagerStep m (or_old (intend_launch env id fresh m) m)
  is_denied :
      (env : Env) (id reason : String) (retry_at : ℕ) (m : Manager)
      → ((t : Task) → get_task id m.store ≡ some t → truthy? (get "remote_pid" t.runtime) ≡ false)
      → ManagerStep m (deny_launch env id reason retry_at m)
  has_launched :
      (env : Env) (id : String) (reply : Dict) (m : Manager)
      → get "remote_terminal_status" reply ≡ none
      → ((t : Task) → get_task id m.store ≡ some t → launched t.runtime ≡ true)
      → ManagerStep m ((end_launch env id reply m).1)
  stops_work :
      (env : Env) (timeout elapsed : ℕ) (since : String) (e : Ending) (id : String) (m : Manager)
      → ManagerStep m (after_execute env timeout elapsed since e id m)
  enqueues :
      (env : Env) (h : Host) (clock : ℕ) (id : String) (m : Manager)
      → ManagerStep m (enqueue_reconcile env h clock id m)
  ends_work :
      (env : Env) (h : Host) (clock : ℕ) (id : String) (m : Manager)
      → ManagerStep m (end_work env h clock id m)
  restarts :
      (env : Env) (h : Host) (clock : ℕ) (q : Remote) (files : Files) (request : Json)
      (confirmed : String × ℕ) (completed : Bool) (id : String) (m : Manager)
      → ManagerStep m (state_left (restart env h clock q files request confirmed completed id m))
  resumes :
      (env : Env) (h : Host) (clock : ℕ) (automatic : Bool) (id : String) (m : Manager)
      → ManagerStep m (state_left (resume_external env h clock automatic id m))
  retries :
      (env : Env) (h : Host) (clock : ℕ) (id : String) (m : Manager)
      → ManagerStep m (state_left (retry_outputs env h clock id m))
  renders :
      (env : Env) (h : Host) (clock : ℕ) (id : String) (m : Manager)
      → ManagerStep m (state_left (render_partial env h clock id m))

pub data ManagerSteps : Manager → Manager → Type 0 where
  stays : (m : Manager) → ManagerSteps m m
  and_then : {m u v : Manager} → ManagerSteps m u → ManagerStep u v → ManagerSteps m v

ManagerStep-Confirmed : {m u : Manager} → ManagerStep m u → Confirmed m.store → Confirmed u.store
unfolding ConfirmedAfter
ManagerStep-Confirmed (starts env h clock stamp m a) k = Confirmed-start env h clock stamp m a k
ManagerStep-Confirmed (submits_new env h clock release q owner id m) k =
    Confirmed-submit env h clock release q owner id m k
ManagerStep-Confirmed (submits canonical env h clock release q owner key id m) k =
    Confirmed-submit_idempotent canonical env h clock release q owner key id m k
ManagerStep-Confirmed (dispatches env h clock id m) k = Confirmed-dispatch env h clock id m k
ManagerStep-Confirmed (cancels env h clock id m) k = Confirmed-cancel env h clock id m k
ManagerStep-Confirmed (ends_cancel env h clock doubt id status b m) k =
    Confirmed-end_remote_cancel env h clock doubt id status b m k
ManagerStep-Confirmed (begins_observe id m) k = Confirmed-begin_observe id m k
ManagerStep-Confirmed (observes env h clock doubt id status b m) k =
    Confirmed-end_observe env h clock doubt id status b m k
ManagerStep-Confirmed (begins id m) k = Confirmed-begin_work id m k
ManagerStep-Confirmed (reconciles env code id status p m) k =
    Confirmed-reconcile env code id status p m k
ManagerStep-Confirmed (profiles env id status p m) k =
    Confirmed-merge_remote_profile env id status p m k
ManagerStep-Confirmed (writes env id c s m e n) k = Confirmed-put_status env id c s m e n k
ManagerStep-Confirmed (progresses env id c m e n) k = Confirmed-put_progress env id c m e n k
ManagerStep-Confirmed (notes env id v m h) k = Confirmed-Harmless env id v m h k
ManagerStep-Confirmed (intends env id fresh m) k = Confirmed-intend_launch env id fresh m k
ManagerStep-Confirmed (is_denied env id reason retry_at m free) k =
    Confirmed-deny_launch env id reason retry_at m free k
ManagerStep-Confirmed (has_launched env id reply m e goes) k =
    Confirmed-end_launch env id reply m e goes k
ManagerStep-Confirmed (stops_work env timeout elapsed since e id m) k =
    Confirmed-after_execute env timeout elapsed since e id m k
ManagerStep-Confirmed (enqueues env h clock id m) k = Confirmed-enqueue_reconcile env h clock id m k
ManagerStep-Confirmed (ends_work env h clock id m) k = Confirmed-end_work env h clock id m k
ManagerStep-Confirmed (restarts env h clock q files request confirmed completed id m) k =
    Confirmed-restart env h clock q files request confirmed completed id m k
ManagerStep-Confirmed (resumes env h clock automatic id m) k =
    Confirmed-resume_external env h clock automatic id m k
ManagerStep-Confirmed (retries env h clock id m) k = Confirmed-retry_outputs env h clock id m k
ManagerStep-Confirmed (renders env h clock id m) k = Confirmed-render_partial env h clock id m k

-- From a store in which every task with the status `cancelled` was never launched, or has the
-- terminal status of its remote attempt recorded, any sequence of the steps of `ManagerStep` leads to such a
-- store.
pub ManagerSteps-Confirmed :
    {m u : Manager} → ManagerSteps m u → Confirmed m.store → Confirmed u.store
ManagerSteps-Confirmed (stays m) k = k
ManagerSteps-Confirmed (and_then steps a) k =
    ManagerStep-Confirmed a (ManagerSteps-Confirmed steps k)
