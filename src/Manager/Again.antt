-- ===== src/Manager/Again.antt =====
-- task_manager.py: `resume_external`, `retry_outputs` and `render_partial`, and what `operations`
-- and `require_operation` say of them.
pub mod Allowed
use backend_wrf.Base.{
  ℕ, suc, ◌+◌, ◌==◌, string_eq, ℕ_eq, nat_eq, String, Bool, true, false, not, ◌&&◌, ◌||◌, ◌⊎◌, inl,
  inr, any, Option, none, some, List, [], ◌∷◌, if◌then◌else◌,
}
use backend_wrf.Json.{
  Json, null, bool, num, str, obj, Dict, empty, field, get, set, update, truthy?,
}
use backend_wrf.Store.{Store, Task, text_of, deletion_blocked}
use backend_wrf.Store.Tasks.{Env, Changes, no_changes, get_task}
use backend_wrf.Manager.{
  Manager, Refusal, not_found, conflict, discard, is_final, wrf_succeeded, has_cycle, is_busy,
  must_confirm, failed_outside, put,
}
use backend_wrf.Manager.Dispatch.{Host}
use backend_wrf.Manager.Needs.{entries}
use backend_wrf.Manager.Attempts.{
  get_decorated, decorated, and_dispatch, Taken, taken, stopped, names_marker, reader_markers,
  error_text, is_stopped,
}

-- `{**failure, "failure_class": "external", ...}`
unfoldable pub resumable : Option Dict → Dict
resumable failure = update (elim failure [ none ↦ empty | some f ↦ f ]) marks
  where
    marks : Dict
    marks =
        field "failure_class" (str "external")
          (field "recoverable" (bool true) (field "recommended_action" (str "resume") empty))

abbrev pub reconciling_now : String → Task → Changes
reconciling_now now t = record no_changes {
  status = some "reconciling";
  stage = some "reconciling";
  runtime =
      some
        (set "external_retry_count" (num 0) (set "external_retry_started_at" (str now) t.runtime));
  failure = some (some (resumable t.failure));
  error = some none;
}

-- `resume_external` without its guard
unfoldable pub resume_body : Env → Host → ℕ → String → Task → Manager → Taken
resume_body env h clock id t m =
    if not (t.status == "paused_external" || t.status == "reconciling" || t.status == "failed")
    then stopped conflict m
    else if t.status == "failed" && not (failed_outside t)
    then stopped conflict m
    else if t.status == "reconciling"
    then taken (some t) m
    else and_dispatch env h clock id (get_decorated id) (
        put env id (reconciling_now env.now t)
          (record m { reconcile_timers = discard id m.reconcile_timers }))

-- `resume_external` under `guard_legacy_action`
unfoldable pub resume_external : Env → Host → ℕ → Bool → String → Manager → Taken
resume_external env h clock automatic id m = elim (get_decorated id m) [
  | none ↦ stopped not_found m
  | some t ↦
      if automatic && must_confirm t
      then taken (some t) m
      else if not (t.status == "reconciling") && is_busy id m
      then stopped conflict m
      else resume_body env h clock id t m
]

abbrev pub outputs_again : Task → Changes
outputs_again t = record no_changes {
  status = some "queued";
  stage = some "retrying_outputs";
  progress = some 88;
  runtime = some (set "retry_outputs_only" (bool true) t.runtime);
  error = some none;
}

abbrev pub partial_again : Task → Changes
partial_again t = record no_changes {
  status = some "queued";
  stage = some "retrying_partial_render";
  progress = some 88;
  runtime =
      some
        (set "allow_partial_outputs" (bool true) (set "retry_outputs_only" (bool true) t.runtime));
  error = some none;
}

-- The state before `_dispatch`; the task that is returned was read then.
unfoldable pub queue_again : Env → Host → ℕ → String → Changes → Manager → Taken
queue_again env h clock id c m =
    let u = put env id c (record m { cancelled = discard id m.cancelled }) in
    and_dispatch env h clock id (λ _. get_task id u.store) u

-- the outputs are complete on the host, and their cycle is known
unfoldable pub has_outputs : Task → Bool
has_outputs t = wrf_succeeded t.runtime && has_cycle t.runtime

-- `retry_outputs` under its guard
unfoldable pub retry_outputs : Env → Host → ℕ → String → Manager → Taken
retry_outputs env h clock id m =
    if is_busy id m then stopped conflict m else elim (get_decorated id m) [
      | none ↦ stopped not_found m
      | some t ↦
          if not (t.status == "failed") || not (has_outputs t)
          then stopped conflict m
          else queue_again env h clock id (outputs_again t) m
    ]

-- `known_invalid or legacy_render_error`
unfoldable pub has_unreadable : Task → Bool
has_unreadable t =
    truthy? (get "invalid" (entries (get "output_validation" t.runtime)))
    || names_marker reader_markers (error_text t)

-- `render_partial` under its guard
unfoldable pub render_partial : Env → Host → ℕ → String → Manager → Taken
render_partial env h clock id m =
    if is_busy id m then stopped conflict m else elim (get_decorated id m) [
      | none ↦ stopped not_found m
      | some t ↦
          if not (t.status == "failed") || not (has_outputs t)
          then stopped conflict m
          else if not (has_unreadable t)
          then stopped conflict m
          else queue_again env h clock id (partial_again t) m
    ]

abbrev pub json_is_dict : Option Json → Bool
json_is_dict (some (obj d)) = true
json_is_dict _ = false

abbrev pub is_false : Option Json → Bool
is_false (some (bool false)) = true
is_false _ = false

-- the condition of `publish`
unfoldable pub may_publish : Task → Bool
may_publish t =
    not (is_false (get "publish_to_catalog" (entries (some t.request))))
    && t.status == "succeeded"
    && json_is_dict (get "meta_json" (entries t.result))
    && not (
        is_success
          (text_of (get "status" (entries (get "catalog_publication" (entries t.result))))))
  where
    is_success : Option String → Bool
    is_success none = false
    is_success (some s) = s == "success"

-- `conditions` of `operations`, without the reasons
unfoldable pub conditions : Task → List (String × Bool)
conditions t =
    ("cancel", not (is_final t.status))
    ∷ (
      "resume",
      t.status == "paused_external"
          || t.status == "reconciling"
          || t.status == "failed" && failed_outside t,
    )
    ∷ ("retry_outputs", t.status == "failed" && has_outputs t)
    ∷ ("render_partial", t.status == "failed" && has_outputs t && has_unreadable t)
    ∷ ("restart", is_stopped t.status && not (wrf_succeeded t.runtime))
    ∷ ("publish", may_publish t)
    ∷ []

unfoldable pub with_block : Bool → List (String × Bool) → List (String × Bool)
with_block blocked [] = []
with_block blocked (a ∷ later) = (a.0, a.1 && not blocked) ∷ with_block blocked later

-- `operations`: each action, and whether it is enabled
unfoldable pub operations : String → Manager → Refusal ⊎ List (String × Bool)
operations id m = elim (get_decorated id m) [
  | none ↦ inl not_found
  | some t ↦ inr (with_block (deletion_blocked id m.store) (conditions t))
]

-- `next((item for item in ... if item["action"] == action), None)` is there and is enabled
unfoldable pub is_enabled : String → List (String × Bool) → Bool
is_enabled action [] = false
is_enabled action (a ∷ later) =
    let rest = is_enabled action later in if a.0 == action then a.1 else rest

-- the branch `if allow_completed and action == "restart"`
unfoldable pub may_restart_completed : String → Manager → Bool
may_restart_completed id m = elim (get_decorated id m) [
  | none ↦ false
  | some t ↦ t.status == "failed" && wrf_succeeded t.runtime && not (deletion_blocked id m.store)
]

-- `require_operation`: none if it returns
unfoldable pub require_operation : String → String → Bool → Manager → Option Refusal
require_operation id action allow_completed m = elim (operations id m) [
  | inl e ↦ some e
  | inr items ↦
      if allow_completed && action == "restart" && may_restart_completed id m
      then idle
      else if not (is_enabled action items)
      then some conflict
      else idle
]
  where
    idle : Option Refusal
    idle = if is_busy id m then some conflict else none
