-- ===== src/Manager/Cancel/Keeps.antt =====
-- task_manager.py: predicates on the store and `_dispatch_pending`.
use backend_wrf.Base.{
  ℕ, ◌≡◌, refl, String, string_eq, ◌==◌, not, ◌&&◌, ◌||◌, none, List, [], ◌∷◌, inl, inr,
  if◌then◌else◌, Bool-cases, Option-cases, ltb, leb, length,
}
use backend_wrf.Json.{Dict, get}
use backend_wrf.Store.{Store, Task}
use backend_wrf.Store.Tasks.{Env, get_task}
use backend_wrf.Manager.{Manager, has, add, merge_runtime}
use backend_wrf.Manager.Dispatch.{
  Host, Room, room, no_room, raises, Dispatched, launches, declines, fails, dispatch, dispatched,
  dispatch_queued, start_thread, wait_for, admitted, slot_reason, shared_room, occupied, is_over,
}
use backend_wrf.Manager.Needs.{Need, number, or_zero}
use backend_wrf.Manager.Cancel.{Turn, dispatch_all, dispatch_pending, turns}

-- A merge that says nothing about the remote attempt.
pub record Harmless (v : Dict) : Type 0 where
  pub pid : get "remote_pid" v ≡ none
  pub attempted : get "remote_launch_attempted" v ≡ none
  pub terminal : get "remote_terminal_status" v ≡ none

wait_for-Harmless : (reason : String) → Harmless (wait_for reason)
unfolding get
wait_for-Harmless reason = record { pid = refl; attempted = refl; terminal = refl }

admitted-Harmless : (n : Need) → Harmless (admitted n)
unfolding get
admitted-Harmless n = record { pid = refl; attempted = refl; terminal = refl }

module _ (P : Store → Type 0)
    (keeps : (env : Env) (id : String) (v : Dict) (m : Manager)
      → Harmless v
      → P m.store
      → P (merge_runtime env id v m).store) where
  shared_room_keeps :
      (env : Env) (id : String) (m : Manager) (r : Room)
      → P m.store
      → P
          (dispatched (elim r [
            | raises ↦ fails m
            | no_room reason ↦ declines (merge_runtime env id (wait_for reason) m)
            | room own ↦ launches (start_thread id (merge_runtime env id (admitted own) m))
          ])).store
  unfolding start_thread
  shared_room_keeps env id m (room own) keep =
      keeps env id (admitted own) m (admitted-Harmless own) keep
  shared_room_keeps env id m (no_room reason) keep =
      keeps env id (wait_for reason) m (wait_for-Harmless reason) keep
  shared_room_keeps env id m raises keep = keep

  dispatch_queued_keeps :
      (env : Env) (h : Host) (clock : ℕ) (id : String) (t : Task) (m : Manager)
      → P m.store
      → P (dispatched (dispatch_queued env h clock id t m)).store
  unfolding dispatch_queued start_thread
  dispatch_queued_keeps env h clock id t m keep =
      elim (Bool-cases (ltb clock (or_zero (number (get "resource_retry_at" t.runtime))))) [
        | inl early ↦ rw (early, dispatch_queued) keep
        | inr due ↦ elim (Bool-cases (leb h.max_concurrent (length (occupied id m)))) [
          | inl full ↦
              rw (due, full, dispatch_queued)
                (keeps env id (wait_for (slot_reason h)) m (wait_for-Harmless (slot_reason h)) keep)
          | inr free ↦ elim (Bool-cases (ltb 1 h.max_concurrent && h.is_hpc)) [
            | inl several ↦
                rw (due, free, several, dispatch_queued)
                  (shared_room_keeps env id m (shared_room h t (occupied id m) m.store) keep)
            | inr single ↦ rw (due, free, single, dispatch_queued) keep
          ]
        ]
      ]

  pub dispatch_keeps :
      (env : Env) (h : Host) (clock : ℕ) (id : String) (m : Manager)
      → P m.store
      → P (dispatched (dispatch env h clock id m)).store
  unfolding dispatch start_thread
  dispatch_keeps env h clock id m keep =
      elim (Bool-cases (not m.started || has id m.threads || m.stopping)) [
        | inl off ↦ rw (off, dispatch) keep
        | inr on ↦ elim (Option-cases (get_task id m.store)) [
          | inl absent ↦ rw (on, absent, dispatch) keep
          | inr (t, there) ↦ elim (Bool-cases (is_over t.status)) [
            | inl over ↦ rw (on, there, over, dispatch) keep
            | inr live ↦ rw (on, there, live, dispatch) (live_keeps t)
          ]
        ]
      ]
    where
      p : Manager
      p = record m { pending = add id m.pending }

      live_keeps :
          (t : Task)
          → P
              (dispatched (
                if t.status == "queued"
                then dispatch_queued env h clock id t p
                else if t.status == "reconciling" && has id m.reconcile_timers
                then declines p
                else launches (start_thread id p))).store
      live_keeps t = elim (Bool-cases (t.status == "queued")) [
        | inl q ↦ rw q (dispatch_queued_keeps env h clock id t p keep)
        | inr q ↦ elim (Bool-cases (t.status == "reconciling" && has id m.reconcile_timers)) [
          | inl r ↦ rw (q, r) keep
          | inr r ↦ rw (q, r) keep
        ]
      ]

  dispatch_all_keeps :
      (env : Env) (h : Host) (clock : ℕ) (as_turns : List Turn) (m : Manager)
      → P m.store
      → P (dispatch_all env h clock as_turns m).store
  unfolding dispatch_all
  dispatch_all_keeps env h clock [] m keep = keep
  dispatch_all_keeps env h clock (a ∷ later) m keep =
      go (dispatch env h clock (a.1) m) (dispatch_keeps env h clock (a.1) m keep)
        (λ u. dispatch_all_keeps env h clock later u)
    where
      go :
          (d : Dispatched)
          → P (dispatched d).store
          → ((u : Manager) → P u.store → P (dispatch_all env h clock later u).store)
          → P
              (elim d as (λ x. Manager) [
                | launches u ↦ dispatch_all env h clock later u
                | declines u ↦ dispatch_all env h clock later u
                | fails u ↦ u
              ]).store
      go (launches u) k more = more u k
      go (declines u) k more = more u k
      go (fails u) k more = k

  pub dispatch_pending_keeps :
      (env : Env) (h : Host) (clock : ℕ) (m : Manager)
      → P m.store
      → P (dispatch_pending env h clock m).store
  unfolding dispatch_pending
  dispatch_pending_keeps env h clock m keep =
      dispatch_all_keeps env h clock (turns m.store.tasks) m keep
