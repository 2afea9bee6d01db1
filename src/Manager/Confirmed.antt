-- ===== src/Manager/Confirmed.antt =====
-- task_manager.py: which tasks may be called cancelled.
pub mod Cancel
pub mod Worker
pub mod Remote
pub mod Again
pub mod Submit
pub mod Start
pub mod Steps
use backend_wrf.Base.{
  ◌≡◌, refl, sym, ap, ap₂, ◌∙◌, String, string_eq, eq_iff, ◌==◌, Bool, true, false, not, ◌&&◌, ◌||◌,
  Option, none, some, ◌⊎◌, inl, inr, arith, if◌then◌else◌, Bool-cases, Option-cases,
}
use backend_wrf.Json.{Json, Dict, field, empty, get, update, str, truthy?}
use backend_wrf.Json.Laws.{get-set, get-update}
use backend_wrf.Table.Laws.{on_some}
use backend_wrf.Store.{Store, Task, text_of}
use backend_wrf.Store.Tasks.{Env, Changes, no_changes, get_task, update_task, changed_task}
use backend_wrf.Store.Tasks.Laws.{get_task-update_task}
use backend_wrf.Manager.{Manager, launched, terminal_seen, is_terminal_text, put, merge_runtime}
use backend_wrf.Manager.Cancel.{terminal_status}
use backend_wrf.Manager.Cancel.Keeps.{Harmless}

-- An attempt that was launched on the remote host, and that nothing has shown to have ended.
abbrev pub may_live : Dict → Bool
may_live r = launched r && not (terminal_seen r)

abbrev pub is_unconfirmed : String → Dict → Bool
is_unconfirmed status r = status == "cancelled" && may_live r

-- Every task with the status `cancelled` was never launched, or a terminal status of its remote
-- attempt has been recorded.
unfoldable pub Confirmed : Store → Type 0
Confirmed s =
    (id : String) (t : Task) → get_task id s ≡ some t → is_unconfirmed t.status t.runtime ≡ false

get_task-update_task_other :
    (env : Env) (id j : String) (c : Changes) (s : Store)
    → (id == j) ≡ false
    → get_task j (update_task env id c s) ≡ get_task j s
get_task-update_task_other env id j c s e = get_task-update_task env id j c s ∙ rw e refl

-- All tasks but one are as `Confirmed` says.
unfoldable pub OthersConfirmed : String → Store → Type 0
OthersConfirmed id s =
    (j : String) (t : Task)
    → (id == j) ≡ false
    → get_task j s ≡ some t
    → is_unconfirmed t.status t.runtime ≡ false

pub others : (id : String) (s : Store) → Confirmed s → OthersConfirmed id s
unfolding Confirmed OthersConfirmed
others id s keep j t e there = keep j t there

pub Confirmed-at :
    (id : String) (t : Task) (s : Store)
    → Confirmed s
    → get_task id s ≡ some t
    → is_unconfirmed t.status t.runtime ≡ false
unfolding Confirmed
Confirmed-at id t s keep there = keep id t there

pub OthersConfirmed-put :
    (env : Env) (id : String) (c : Changes) (m : Manager)
    → OthersConfirmed id m.store
    → OthersConfirmed id (put env id c m).store
unfolding OthersConfirmed put
OthersConfirmed-put env id c m keep j t e h =
    keep j t e (sym (get_task-update_task_other env id j c m.store e) ∙ h)

pub get_task-put :
    (env : Env) (id : String) (c : Changes) (m : Manager)
    → get_task id (put env id c m).store ≡ on_some (changed_task env.now c) (get_task id m.store)
unfolding put
get_task-put env id c m = ground (arith, get_task-update_task env id id c m.store, eq_iff id id)

-- What `put` has to make of the task it is about.
pub Confirmed-put :
    (env : Env) (id : String) (c : Changes) (m : Manager)
    → OthersConfirmed id m.store
    → ((t : Task)
        → get_task id m.store ≡ some t
        → is_unconfirmed (changed_task env.now c t).status (changed_task env.now c t).runtime
          ≡ false)
    → Confirmed (put env id c m).store
unfolding Confirmed OthersConfirmed
Confirmed-put env id c m keep new j u h = elim (Bool-cases (id == j)) [
  | inr e ↦ unfold OthersConfirmed in OthersConfirmed-put env id c m keep j u e h
  | inl e ↦ elim (Option-cases (get_task id m.store)) [
    | inl absent ↦ absurd (ground (arith, h, e, absent, eq_iff id j, get_task-put env id c m))
    | inr (t, there) ↦
        ground (arith, new t there, h, e, there, eq_iff id j, get_task-put env id c m)
  ]
]

pub get_task-merge_runtime :
    (env : Env) (id : String) (v : Dict) (m : Manager) (t : Task)
    → get_task id m.store ≡ some t
    → get_task id (merge_runtime env id v m).store
      ≡ some (record t { runtime = update t.runtime v; updated_at = env.now })
unfolding merge_runtime
get_task-merge_runtime env id v m t there =
    rw (there, merge_runtime)
      (get_task-put env id (record no_changes { runtime = some (update t.runtime v) }) m
        ∙ rw there refl)

pub OthersConfirmed-merge_runtime :
    (env : Env) (id : String) (v : Dict) (m : Manager)
    → OthersConfirmed id m.store
    → OthersConfirmed id (merge_runtime env id v m).store
unfolding merge_runtime
OthersConfirmed-merge_runtime env id v m keep = elim (Option-cases (get_task id m.store)) [
  | inl absent ↦ rw (absent, merge_runtime) keep
  | inr (t, there) ↦
      rw (there, merge_runtime)
        (OthersConfirmed-put env id (record no_changes { runtime = some (update t.runtime v) }) m
          keep)
]

pub Confirmed-merge_runtime :
    (env : Env) (id : String) (v : Dict) (m : Manager)
    → OthersConfirmed id m.store
    → ((t : Task)
        → get_task id m.store ≡ some t
        → is_unconfirmed t.status (update t.runtime v) ≡ false)
    → Confirmed (merge_runtime env id v m).store
unfolding merge_runtime Confirmed OthersConfirmed
Confirmed-merge_runtime env id v m keep new = elim (Option-cases (get_task id m.store)) [
  | inl absent ↦ rw (absent, merge_runtime) (λ j t h. missing absent j t h (Bool-cases (id == j)))
  | inr (t, there) ↦
      rw (there, merge_runtime)
        (Confirmed-put env id (record no_changes { runtime = some (update t.runtime v) }) m keep
          (λ u h. ground (arith, h, there, new t there)))
]
  where
    missing :
        get_task id m.store ≡ none
        → (j : String) (t : Task) → get_task j m.store ≡ some t
        → ((id == j) ≡ true) ⊎ ((id == j) ≡ false)
        → is_unconfirmed t.status t.runtime ≡ false
    missing absent j t h (inr e) = keep j t e h
    missing absent j t h (inl e) = absurd (ground (arith, absent, h, e, eq_iff id j))

pub terminal_seen-update :
    (r v : Dict)
    → get "remote_terminal_status" v ≡ none
    → terminal_seen (update r v) ≡ terminal_seen r
unfolding terminal_seen
terminal_seen-update r v h = rw (get-update "remote_terminal_status" r v h, terminal_seen) refl

pub launched-update : (r v : Dict) → Harmless v → launched (update r v) ≡ launched r
unfolding launched
launched-update r v h =
    rw
      (
        get-update "remote_pid" r v h.pid,
        get-update "remote_launch_attempted" r v h.attempted,
        launched,
      )
      refl

pub Confirmed-Harmless :
    (env : Env) (id : String) (v : Dict) (m : Manager)
    → Harmless v
    → Confirmed m.store
    → Confirmed (merge_runtime env id v m).store
Confirmed-Harmless env id v m h keep =
    Confirmed-merge_runtime env id v m (others id m.store keep) (λ t there.
      rw (launched-update t.runtime v h, terminal_seen-update t.runtime v h.terminal)
        (Confirmed-at id t m.store keep there))

-- A terminal status is recorded.
pub terminal_seen_status :
    (r : Dict) (s : String)
    → is_terminal_text s ≡ true
    → terminal_seen (update r (terminal_status s)) ≡ true
unfolding terminal_seen update text_of
terminal_seen_status r s h =
    rw (get-set "remote_terminal_status" "remote_terminal_status" (str s) r, terminal_seen) h
