-- ===== src/Manager/Submit/Once.antt =====
-- task_manager.py: `submit_idempotent` when it is called again for the same owner and key.
use backend_wrf.Base.{ℕ, ◌≡◌, refl, ap, ◌∙◌, string_eq, pair_eq, String, Bool, true, Option, arith}
use backend_wrf.Json.{Json}
use backend_wrf.Table.{find}
use backend_wrf.Store.{Store, Task}
use backend_wrf.Store.Tasks.{Env, get_task}
use backend_wrf.Manager.{Manager}
use backend_wrf.Manager.Dispatch.{Host}
use backend_wrf.Manager.Attempts.{taken, state_left}
use backend_wrf.Manager.Submit.{submit_idempotent}
use backend_wrf.Table.Laws.{find-delete}
use backend_wrf.Store.Tasks.{delete_task}
use backend_wrf.Store.{ok}
use backend_wrf.Table.{delete}
use backend_wrf.Store.Deletion.Purge.{purge_deleted_task, purge_deleted_task-Written}
use backend_wrf.Manager.Submit.Closed.{Closed, has_task, Closed-submit_idempotent}
use backend_wrf.Manager.Submit.Settles.{Settles-submit_idempotent, Closed-by}

module _ (canonical : Json → String) (owner key : String) where
  -- Submissions under one owner and key, with any requests, and what deletes tasks: the purge at the
  -- end of a deletion plan, and `delete`.
  pub data Later : Manager → Manager → Type 0 where
    nothing : (m : Manager) → Later m m
    submits :
        {m u : Manager}
        → Later m u
        → (env : Env) (h : Host) (clock : ℕ) (release q : Json) (id : String)
        → Later m (state_left (submit_idempotent canonical env h clock release q owner key id u))
    deletes :
        {m u : Manager}
        → Later m u
        → (id : String) → Later m (record u { store = (delete_task id u.store).1 })
    purges :
        {m u : Manager}
        → Later m u
        → (now : String) (stamp : ℕ) (id plan : String) (cleanup : Bool) (t : Store)
        → purge_deleted_task now stamp id plan cleanup u.store ≡ ok tt t
        → Later m (record u { store = t })

  deleted :
      (id j : String) (s : Store) → has_task j (delete_task id s).1 ≡ true → has_task j s ≡ true
  unfolding delete_task get_task
  deleted id j s h = ground (arith, h, find-delete id j s.tasks)

  submissions-delete_task :
      (id : String) (s : Store) → (delete_task id s).1.submissions ≡ s.submissions
  unfolding delete_task
  submissions-delete_task id s = ground arith

  purged :
      (id j : String) (s t : Store)
      → t.tasks ≡ delete id s.tasks
      → has_task j t ≡ true
      → has_task j s ≡ true
  unfolding get_task
  purged id j s t e h = ground (arith, h, e, find-delete id j s.tasks)

  Later-Closed :
      (base : Store) {m u : Manager}
      → Later m u
      → Closed owner key base m.store
      → Closed owner key base u.store
  Later-Closed base (nothing m) c = c
  Later-Closed base (submits {u = w} later env h clock release q id) c =
      Closed-submit_idempotent canonical owner key base env h clock release q id w
        (Later-Closed base later c)
  Later-Closed base (deletes {u = w} later id) c =
      let d = Later-Closed base later c in
      record {
        row = d.row;
        reserved = ap (λ x. find (owner, key) x) (submissions-delete_task id w.store) ∙ d.reserved;
        is_accepted = d.is_accepted;
        no_new = λ j h. d.no_new j (deleted id j w.store h);
      }
  Later-Closed base (purges {u = w} later now stamp id plan cleanup t done) c =
      let d = Later-Closed base later c in
      let p = purge_deleted_task-Written now stamp id plan cleanup w.store t done in
      record {
        row = d.row;
        reserved = ap (λ x. find (owner, key) x) p.submissions ∙ d.reserved;
        is_accepted = d.is_accepted;
        no_new = λ j h. d.no_new j (purged id j w.store t p.tasks h);
      }

  -- Once `submit_idempotent` has returned for an owner and a key, no later submission under them
  -- creates a task, whatever its request and the id made of it, and also not after tasks have been
  -- deleted by `purge_deleted_task` or `delete`: every id that has a task after a sequence of such
  -- calls had one before it.
  pub submit_idempotent-once :
      (env : Env) (h : Host) (clock : ℕ) (release q : Json) (id : String) (m u v : Manager)
      (a : Option Task)
      → submit_idempotent canonical env h clock release q owner key id m ≡ taken a u
      → Later u v
      → (j : String) → has_task j v.store ≡ true
      → has_task j u.store ≡ true
  submit_idempotent-once env h clock release q id m u v a done later j there =
      let settled =
        Settles-submit_idempotent canonical owner key env h clock release q id m _ refl in
      let first = Closed-by owner key _ a u settled done in
      (Later-Closed u.store later first).no_new j there
