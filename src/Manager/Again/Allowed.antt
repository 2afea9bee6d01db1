-- ===== src/Manager/Again/Allowed.antt =====
-- task_manager.py: `require_operation`, which the routes call first, beside the operations themselves.
use backend_wrf.Base.{
  ℕ, ◌≡◌, refl, ap, ◌∙◌, String, string_eq, eq_iff, ◌==◌, Bool, true, false, not, ◌&&◌, ◌||◌,
  Option, none, some, inl, inr, arith, Option-cases,
}
use backend_wrf.Store.{Task, deletion_blocked}
use backend_wrf.Store.Tasks.{Env, Changes}
use backend_wrf.Manager.{
  Manager, Refusal, not_found, conflict, bad_value, other_error, failed_outside, is_busy, discard,
  put,
}
use backend_wrf.Manager.Dispatch.{Host, Dispatched, launches, declines, fails, dispatch}
use backend_wrf.Manager.Attempts.{Taken, taken, stopped, and_dispatch, get_decorated}
use backend_wrf.Manager.Again.{
  resume_body, resume_external, queue_again, has_outputs, retry_outputs, has_unreadable,
  render_partial, conditions, with_block, operations, is_enabled, require_operation, outputs_again,
  partial_again, reconciling_now,
}

-- `TaskConflictError` or `TaskNotFoundError`
abbrev pub refuses : Taken → Bool
refuses (taken t m) = false
refuses (stopped not_found m) = true
refuses (stopped conflict m) = true
refuses (stopped bad_value m) = false
refuses (stopped other_error m) = false

abbrev pub forbids : Option Refusal → Bool
forbids none = false
forbids (some e) = true

refuses-dispatched :
    (answer : Manager → Option Task) (d : Dispatched)
    → refuses (elim d [
      | launches u ↦ taken (answer u) u
      | declines u ↦ taken (answer u) u
      | fails u ↦ stopped other_error u
    ])
      ≡ false
refuses-dispatched answer (launches u) = refl
refuses-dispatched answer (declines u) = refl
refuses-dispatched answer (fails u) = refl

refuses-and_dispatch :
    (env : Env) (h : Host) (clock : ℕ) (id : String) (answer : Manager → Option Task) (m : Manager)
    → refuses (and_dispatch env h clock id answer m) ≡ false
unfolding and_dispatch
refuses-and_dispatch env h clock id answer m = refuses-dispatched answer (dispatch env h clock id m)

refuses-queue_again :
    (env : Env) (h : Host) (clock : ℕ) (id : String) (c : Changes) (m : Manager)
    → refuses (queue_again env h clock id c m) ≡ false
unfolding queue_again
refuses-queue_again env h clock id c m = refuses-and_dispatch env h clock id _ _

-- what an operation that is known needs
forbids_enabled :
    (id action : String) (m : Manager) (t : Task) (b : Bool)
    → get_decorated id m ≡ some t
    → is_enabled action (with_block (deletion_blocked id m.store) (conditions t)) ≡ b
    → forbids (require_operation id action false m) ≡ not b || is_busy id m
unfolding require_operation operations
forbids_enabled id action m t b there e = ground (arith, there, e)

is_busy_blocked :
    (id : String) (m : Manager) → deletion_blocked id m.store ≡ true → is_busy id m ≡ true
unfolding is_busy
is_busy_blocked id m h = ground (arith, h)

enabled_retry :
    (t : Task) (blocked : Bool)
    → is_enabled "retry_outputs" (with_block blocked (conditions t))
      ≡ (t.status == "failed" && has_outputs t) && not blocked
unfolding is_enabled with_block conditions
enabled_retry t blocked = refl

enabled_render :
    (t : Task) (blocked : Bool)
    → is_enabled "render_partial" (with_block blocked (conditions t))
      ≡ (t.status == "failed" && has_outputs t && has_unreadable t) && not blocked
unfolding is_enabled with_block conditions
enabled_render t blocked = refl

enabled_resume :
    (t : Task) (blocked : Bool)
    → is_enabled "resume" (with_block blocked (conditions t))
      ≡ (t.status == "paused_external"
          || t.status == "reconciling"
          || t.status == "failed" && failed_outside t)
        && not blocked
unfolding is_enabled with_block conditions
enabled_resume t blocked = refl

refuses-retry_outputs :
    (env : Env) (h : Host) (clock : ℕ) (id : String) (m : Manager) (t : Task)
    → get_decorated id m ≡ some t
    → refuses (retry_outputs env h clock id m)
      ≡ not (t.status == "failed" && has_outputs t) || is_busy id m
unfolding retry_outputs
refuses-retry_outputs env h clock id m t there =
    ground (arith, there, refuses-queue_again env h clock id (outputs_again t) m)

refuses-render_partial :
    (env : Env) (h : Host) (clock : ℕ) (id : String) (m : Manager) (t : Task)
    → get_decorated id m ≡ some t
    → refuses (render_partial env h clock id m)
      ≡ not (t.status == "failed" && has_outputs t && has_unreadable t) || is_busy id m
unfolding render_partial
refuses-render_partial env h clock id m t there =
    ground (arith, there, refuses-queue_again env h clock id (partial_again t) m)

not_failed : (s w : String) → (w == "failed") ≡ false → (s == w) ≡ true → (s == "failed") ≡ false
not_failed s w n h = ap (λ x. x == "failed") ((eq_iff s w).0 h) ∙ n

refuses-resume_body :
    (env : Env) (h : Host) (clock : ℕ) (id : String) (m : Manager) (t : Task)
    → (t.status == "paused_external"
        || t.status == "reconciling"
        || t.status == "failed" && failed_outside t)
      ≡ true
    → refuses (resume_body env h clock id t m) ≡ false
unfolding resume_body
refuses-resume_body env h clock id m t may = ground (
  arith,
  may,
  not_failed t.status "reconciling" refl,
  not_failed t.status "paused_external" refl,
  refuses-and_dispatch env h clock id (get_decorated id) (
      put env id (reconciling_now env.now t)
        (record m { reconcile_timers = discard id m.reconcile_timers })),
)

refuses-resume_external :
    (env : Env) (h : Host) (clock : ℕ) (id : String) (m : Manager) (t : Task)
    → get_decorated id m ≡ some t
    → is_busy id m ≡ false
    → (t.status == "paused_external"
        || t.status == "reconciling"
        || t.status == "failed" && failed_outside t)
      ≡ true
    → refuses (resume_external env h clock false id m) ≡ false
unfolding resume_external
refuses-resume_external env h clock id m t there idle may =
    ground (arith, there, idle, may, refuses-resume_body env h clock id m t may)

forbids-absent :
    (id action : String) (m : Manager)
    → get_decorated id m ≡ none
    → forbids (require_operation id action false m) ≡ true
unfolding require_operation operations
forbids-absent id action m absent = ground (arith, absent)

refuses-absent :
    (env : Env) (h : Host) (clock : ℕ) (id : String) (m : Manager)
    → get_decorated id m ≡ none
    → (refuses (retry_outputs env h clock id m) ≡ true)
      × (refuses (render_partial env h clock id m) ≡ true)
unfolding retry_outputs render_partial
refuses-absent env h clock id m absent = (ground (arith, absent), ground (arith, absent))

-- What `require_operation` forbids and what an operation refuses, for the same state.
pub record Agreement (env : Env) (h : Host) (clock : ℕ) (id : String) (m : Manager) : Type 0 where
  pub outputs :
      refuses (retry_outputs env h clock id m)
      ≡ forbids (require_operation id "retry_outputs" false m)
  pub rendering :
      refuses (render_partial env h clock id m)
      ≡ forbids (require_operation id "render_partial" false m)
  pub resuming :
      forbids (require_operation id "resume" false m) ≡ false
      → refuses (resume_external env h clock false id m) ≡ false

Agreement-task :
    (env : Env) (h : Host) (clock : ℕ) (id : String) (m : Manager) (t : Task)
    → get_decorated id m ≡ some t
    → Agreement env h clock id m
Agreement-task env h clock id m t there =
    let blocked = deletion_blocked id m.store in
    record {
      outputs = ground (
        arith,
        refuses-retry_outputs env h clock id m t there,
        forbids_enabled id "retry_outputs" m t _ there (enabled_retry t blocked),
        is_busy_blocked id m,
      );
      rendering = ground (
        arith,
        refuses-render_partial env h clock id m t there,
        forbids_enabled id "render_partial" m t _ there (enabled_render t blocked),
        is_busy_blocked id m,
      );
      resuming = λ e.
          let f = forbids_enabled id "resume" m t _ there (enabled_resume t blocked) in
          refuses-resume_external env h clock id m t there (ground (arith, e, f))
            (ground (arith, e, f));
    }

-- For a user's request, the operations `retry_outputs` and `render_partial` refuse with a conflict or
-- a missing task in exactly the states in which `require_operation` forbids them, and
-- `resume_external` refuses in none of those in which `require_operation` allows it.
pub require_operation-Agreement :
    (env : Env) (h : Host) (clock : ℕ) (id : String) (m : Manager) → Agreement env h clock id m
require_operation-Agreement env h clock id m = elim (Option-cases (get_decorated id m)) [
  | inr (t, there) ↦ Agreement-task env h clock id m t there
  | inl absent ↦ record {
    outputs =
        ground (
          arith,
          refuses-absent env h clock id m absent,
          forbids-absent id "retry_outputs" m absent,
        );
    rendering = ground (
      arith,
      refuses-absent env h clock id m absent,
      forbids-absent id "render_partial" m absent,
    );
    resuming = λ e. absurd (ground (arith, e, forbids-absent id "resume" m absent));
  }
]
