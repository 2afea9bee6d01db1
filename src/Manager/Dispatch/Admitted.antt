-- ===== src/Manager/Dispatch/Admitted.antt =====
-- task_manager.py: the tests that `_dispatch` makes before it starts a worker.
use backend_wrf.Base.{
  ℕ, ◌+◌, ◌*◌, ◌≡◌, ◌≤◌, ◌<◌, refl, ◌==◌, string_eq, ℕ_eq, eq_iff, ltb, leb, String, true, false,
  not, ◌&&◌, ◌||◌, length, some, List, ◌∷◌, arith, if◌then◌else◌, Bool-cases, Option-cases, inl,
  inr,
}
use backend_wrf.Json.{Dict, get}
use backend_wrf.Store.{Task}
use backend_wrf.Store.Tasks.{Env, get_task}
use backend_wrf.Manager.{Manager, has, add, merge_runtime, put}
use backend_wrf.Manager.Dispatch.{
  Host, occupied, tasks_of, Room, room, no_room, raises, compare_need, shared_room, Dispatched,
  launches, declines, fails, start_thread, dispatch_queued, dispatch, is_over, wait_for, admitted,
  slot_reason,
}
use backend_wrf.Manager.Needs.{Need, total_need, compute_budget, or_zero, number}

-- The task and the tasks in the other occupied slots fit on the host together.
pub record Fits (h : Host) (id : String) (t : Task) (m : Manager) : Type 0 where
  pub own : Need
  pub total : Need
  pub own_need : compute_budget t.request h.processes ≡ some own
  pub total_needed : total_need h.processes (tasks_of m.store (occupied id m)) ≡ some total
  pub ready : h.is_ready ≡ true
  pub cpu : total.mpi_processes + own.mpi_processes + h.cpu_headroom ≤ h.cpu_count
  pub memory : total.memory + own.memory + h.memory_headroom_bytes ≤ h.memory_available_mb * 1048576

pub record Admitted (h : Host) (id : String) (m u : Manager) : Type 0 where
  pub running : (m.started ≡ true) × (m.stopping ≡ false)
  pub idle : has id m.threads ≡ false
  pub task : Task
  pub found : get_task id m.store ≡ some task
  pub not_over : is_over task.status ≡ false
  pub slot : task.status ≡ "queued" → length (occupied id m) < h.max_concurrent
  pub fits : task.status ≡ "queued" → (ltb 1 h.max_concurrent && h.is_hpc) ≡ true → Fits h id task m
  pub threads : u.threads ≡ id ∷ m.threads

pub data Verdict (h : Host) (id : String) (m : Manager) : Dispatched → Type 0 where
  launched : {u : Manager} → Admitted h id m u → Verdict h id m (launches u)
  declined : {u : Manager} → u.threads ≡ m.threads → Verdict h id m (declines u)
  failed : {u : Manager} → u.threads ≡ m.threads → Verdict h id m (fails u)

threads-merge_runtime :
    (env : Env) (id : String) (d : Dict) (m : Manager)
    → (merge_runtime env id d m).threads ≡ m.threads
unfolding merge_runtime put
threads-merge_runtime env id d m = ground arith

shared_room-Fits :
    (h : Host) (id : String) (t : Task) (m : Manager) (own : Need)
    → shared_room h t (occupied id m) m.store ≡ room own
    → Fits h id t m
unfolding shared_room
shared_room-Fits h id t m own e = elim (Option-cases (compute_budget t.request h.processes)) [
  | inl a ↦ absurd (ground (arith, a, e))
  | inr (n, a) ↦ elim (Option-cases (total_need h.processes (tasks_of m.store (occupied id m)))) [
    | inl b ↦ absurd (ground (arith, a, b, e))
    | inr (total, b) ↦ measured n total a b (ground (arith, a, b, e))
  ]
]
  where
    measured :
        (n total : Need)
        → compute_budget t.request h.processes ≡ some n
        → total_need h.processes (tasks_of m.store (occupied id m)) ≡ some total
        → compare_need h total n ≡ room own
        → Fits h id t m
    measured n total a b c = record {
      own = n;
      total = total;
      own_need = a;
      total_needed = b;
      ready = unfold compare_need in ground (arith, c);
      cpu = unfold compare_need in ground (arith, c);
      memory = unfold compare_need in ground (arith, c);
    }

add_absent : (id : String) (ids : List String) → has id ids ≡ false → add id ids ≡ id ∷ ids
unfolding add
add_absent id ids h = rw h refl

threads-start_thread :
    (id : String) (m : Manager)
    → has id m.threads ≡ false
    → (start_thread id m).threads ≡ id ∷ m.threads
unfolding start_thread
threads-start_thread id m h = add_absent id m.threads h

-- The branch of a queued task, in a state whose threads and store are those before.
record QueuedAdmitted (h : Host) (id : String) (t : Task) (p u : Manager) : Type 0 where
  slot : length (occupied id p) < h.max_concurrent
  fits : (ltb 1 h.max_concurrent && h.is_hpc) ≡ true → Fits h id t p
  threads : u.threads ≡ id ∷ p.threads

data QueuedVerdict (h : Host) (id : String) (t : Task) (p : Manager) : Dispatched → Type 0 where
  launched : {u : Manager} → QueuedAdmitted h id t p u → QueuedVerdict h id t p (launches u)
  declined : {u : Manager} → u.threads ≡ p.threads → QueuedVerdict h id t p (declines u)
  failed : {u : Manager} → u.threads ≡ p.threads → QueuedVerdict h id t p (fails u)

room-QueuedVerdict :
    (env : Env) (h : Host) (id : String) (t : Task) (p : Manager) (r : Room)
    → has id p.threads ≡ false
    → length (occupied id p) < h.max_concurrent
    → shared_room h t (occupied id p) p.store ≡ r
    → QueuedVerdict h id t p (elim r [
      | raises ↦ fails p
      | no_room reason ↦ declines (merge_runtime env id (wait_for reason) p)
      | room own ↦ launches (start_thread id (merge_runtime env id (admitted own) p))
    ])
room-QueuedVerdict env h id t p raises idle slot e = failed refl
room-QueuedVerdict env h id t p (no_room reason) idle slot e =
    declined (threads-merge_runtime env id (wait_for reason) p)
room-QueuedVerdict env h id t p (room own) idle slot e =
    launched (record {
      slot = slot;
      fits = λ _. shared_room-Fits h id t p own e;
      threads = started_threads;
    })
  where
    started_threads :
        (start_thread id (merge_runtime env id (admitted own) p)).threads ≡ id ∷ p.threads
    started_threads = ground (
      arith,
      threads-start_thread id (merge_runtime env id (admitted own) p),
      threads-merge_runtime env id (admitted own) p,
      idle,
    )

dispatch_queued-QueuedVerdict :
    (env : Env) (h : Host) (clock : ℕ) (id : String) (t : Task) (p : Manager)
    → has id p.threads ≡ false
    → QueuedVerdict h id t p (dispatch_queued env h clock id t p)
unfolding dispatch_queued
dispatch_queued-QueuedVerdict env h clock id t p idle =
    elim (Bool-cases (ltb clock (or_zero (number (get "resource_retry_at" t.runtime))))) [
      | inl later ↦ rw later (declined refl)
      | inr due ↦ elim (Bool-cases (leb h.max_concurrent (length (occupied id p)))) [
        | inl full ↦
            rw (due, full) (declined (threads-merge_runtime env id (wait_for (slot_reason h)) p))
        | inr free ↦ elim (Bool-cases (ltb 1 h.max_concurrent && h.is_hpc)) [
          | inl many ↦
              rw (due, free, many)
                (room-QueuedVerdict env h id t p _ idle (ground (arith, free)) refl)
          | inr alone ↦
              rw (due, free, alone)
                (launched (record {
                  slot = ground (arith, free);
                  fits = λ many. absurd (ground (arith, alone, many));
                  threads = threads-start_thread id p idle;
                }))
        ]
      ]
    ]

abbrev pending_with : String → Manager → Manager
pending_with id m = record m { pending = add id m.pending }

unpend-Fits :
    (h : Host) (id : String) (t : Task) (m : Manager)
    → Fits h id t (pending_with id m)
    → Fits h id t m
unfolding occupied
unpend-Fits h id t m f = record {
  own = f.own;
  total = f.total;
  own_need = f.own_need;
  total_needed = f.total_needed;
  ready = f.ready;
  cpu = f.cpu;
  memory = f.memory;
}

Verdict-queued :
    (h : Host) (id : String) (t : Task) (m : Manager) (r : Dispatched)
    → (m.started ≡ true) × (m.stopping ≡ false)
    → has id m.threads ≡ false
    → get_task id m.store ≡ some t
    → is_over t.status ≡ false
    → QueuedVerdict h id t (pending_with id m) r
    → Verdict h id m r
unfolding occupied
Verdict-queued h id t m _ on idle there live (launched q) = launched (record {
  running = on;
  idle = idle;
  task = t;
  found = there;
  not_over = live;
  slot = λ _. q.slot;
  fits = λ _ many. unpend-Fits h id t m (q.fits many);
  threads = q.threads;
})
Verdict-queued h id t m _ on idle there live (declined e) = declined e
Verdict-queued h id t m _ on idle there live (failed e) = failed e

Verdict-task :
    (env : Env) (h : Host) (clock : ℕ) (id : String) (t : Task) (m : Manager)
    → (m.started ≡ true) × (m.stopping ≡ false)
    → has id m.threads ≡ false
    → get_task id m.store ≡ some t
    → is_over t.status ≡ false
    → Verdict h id m (
        if t.status == "queued"
        then dispatch_queued env h clock id t (pending_with id m)
        else if t.status == "reconciling" && has id m.reconcile_timers
        then declines (pending_with id m)
        else launches (start_thread id (pending_with id m)))
Verdict-task env h clock id t m on idle there live = elim (Bool-cases (t.status == "queued")) [
  | inl q ↦ rw q (
      Verdict-queued h id t m _ on idle there live
        (dispatch_queued-QueuedVerdict env h clock id t (pending_with id m) idle))
  | inr q ↦ elim (Bool-cases (t.status == "reconciling" && has id m.reconcile_timers)) [
    | inl timed ↦ rw (q, timed) (declined refl)
    | inr free ↦
        rw (q, free)
          (launched (record {
            running = on;
            idle = idle;
            task = t;
            found = there;
            not_over = live;
            slot = λ e. absurd (ground (arith, e, q, eq_iff t.status "queued"));
            fits = λ e _. absurd (ground (arith, e, q, eq_iff t.status "queued"));
            threads = threads-start_thread id (pending_with id m) idle;
          }))
  ]
]

-- A worker is started only in a running service, for a stored task that is not over and has no
-- worker: a queued one only if fewer slots than allowed are occupied by workers and by unresolved
-- remote attempts of the other tasks, and where tasks share the host, only if the host is ready and
-- its processors and memory, less the headroom, hold what this task and those tasks need together.
-- One thread is added then, and none in any other case.
pub dispatch-Verdict :
    (env : Env) (h : Host) (clock : ℕ) (id : String) (m : Manager)
    → Verdict h id m (dispatch env h clock id m)
unfolding dispatch
dispatch-Verdict env h clock id m =
    elim (Bool-cases (not m.started || has id m.threads || m.stopping)) [
      | inl off ↦ rw off (declined refl)
      | inr on ↦ elim (Option-cases (get_task id m.store)) [
        | inl absent ↦ rw (on, absent) (declined refl)
        | inr (t, there) ↦ elim (Bool-cases (is_over t.status)) [
          | inl over ↦ rw (on, there, over) (declined refl)
          | inr live ↦
              rw (on, there, live)
                (Verdict-task env h clock id t m (ground (arith, on), ground (arith, on))
                  (ground (arith, on)) there live)
        ]
      ]
    ]
