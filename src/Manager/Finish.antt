-- ===== src/Manager/Finish.antt =====
-- task_manager.py: `_finalize` and `_publish_catalog_result`. The client's validation of the outputs, the
-- manifest that the renderer returns and the reply of the catalog publisher are arguments; the
-- download and the rendering come between the three parts of `_finalize`, and what other threads do
-- then as well. `_log` is left out.
pub mod Complete
use backend_wrf.Base.{
  ℕ, ◌==◌, string_eq, String, Bool, true, false, not, ◌&&◌, ◌||◌, ◌⊎◌, inl, inr, Option, none, some,
  if◌then◌else◌,
}
use backend_wrf.Json.{Json, bool, num, str, obj, Dict, empty, field, get, truthy?}
use backend_wrf.Store.{Store, Task, text_of, deletion_blocked}
use backend_wrf.Store.Tasks.{Env, Changes, no_changes, get_task, attempt_of}
use backend_wrf.Manager.{Manager, has, put, merge_runtime}
use backend_wrf.Manager.Needs.{entries}
use backend_wrf.Manager.Again.{is_false}

-- a part of `_finalize`: it goes on, raises `TaskCancelledError`, or raises another error
pub data Finalizing : Type 0 where
  goes_on is_cancelled fails_with : Manager → Finalizing

abbrev pub succeeded_remotely : Dict
succeeded_remotely = field "remote_wrf_succeeded" (bool true) empty

abbrev pub validated : Dict → Dict
validated validation = field "output_validation" (obj validation) empty

abbrev pub downloading : Changes
downloading = record no_changes {
  status = some "rendering";
  stage = some "downloading_outputs";
  progress = some 88;
}

abbrev pub is_complete : Dict → Bool
is_complete validation = truthy? (get "complete" validation)

-- `_finalize` up to the download
unfoldable pub begin_finalize : Env → String → Dict → Bool → Manager → Finalizing
begin_finalize env id validation allow_partial m =
    let u =
      merge_runtime env id (validated validation) (merge_runtime env id succeeded_remotely m) in
    if has id m.cancelled
    then is_cancelled m
    else if not (is_complete validation) && not allow_partial
    then fails_with u
    else goes_on (put env id downloading u)

-- `_finalize` between the download and the rendering
unfoldable pub begin_render : Env → String → Manager → Finalizing
begin_render env id m =
    if has id m.cancelled
    then is_cancelled m
    else goes_on (put env id (record no_changes { stage = some "rendering"; progress = some 94 }) m)

abbrev pub disabled_for_task : Dict
disabled_for_task =
    field "status" (str "disabled") (field "reason" (str "task_publication_disabled") empty)

-- `_publish_catalog_result`: `none` is `TaskConflictError`; `reply` is what the publisher returns, or
-- the dict made of its exception
unfoldable pub publish_catalog_result : Bool → Dict → String → Task → Store → Option Dict
publish_catalog_result enabled reply id t s =
    if is_false (get "publish_to_catalog" (entries (some t.request)))
    then some disabled_for_task
    else if deletion_blocked id s
    then none
    else if not enabled
    then some (field "status" (str "disabled") empty)
    else some reply

abbrev pub is_partial_quality : Dict → Bool
is_partial_quality manifest = elim (text_of (get "status" (entries (get "quality" manifest)))) [
  | none ↦ false
  | some s ↦ s == "partial"
]

-- `partial`
unfoldable pub is_partial : Dict → Dict → Bool
is_partial validation manifest = not (is_complete validation) || is_partial_quality manifest

abbrev pub skipped : Dict
skipped =
    field "status" (str "skipped")
      (field "reason" (str "partial WRF results are not catalogued") empty)

abbrev pub result_of : String → String → Task → Dict → Dict → Dict
result_of url id t manifest publication = field "task_id" (str id) (
    field "attempt_no" (num (attempt_of t)) (
      field "meta_url" (str url)
        (field "meta_json" (obj manifest) (field "catalog_publication" (obj publication) empty))))

abbrev pub partial_failure : Dict
partial_failure = field "failure_class" (str "output") (
    field "message" (str "结果部分可用，请核对缺失域、时次和关键变量")
      (field "recoverable" (bool true) (field "recommended_action" (str "retry_outputs") empty)))

-- `final_status`
abbrev pub final_status : Bool → String
final_status partial = if partial then "partial_success" else "succeeded"

abbrev pub final_changes : Bool → Dict → Changes
final_changes partial result = record no_changes {
  status = some (final_status partial);
  stage = some "done";
  progress = some 100;
  result = some (some (obj result));
  failure = some (if partial then some partial_failure else none);
  error = some none;
}

-- `publication` and the writes at the end of `_finalize`; `t` is the task that it read first, `url`
-- the address of the manifest
unfoldable pub end_finalize :
    Env → Bool → Dict → String → String → Task → Dict → Dict → Manager → Finalizing
end_finalize env enabled reply url id t validation manifest m =
    if has id m.cancelled
    then is_cancelled m
    else if is_partial validation manifest
    then goes_on (finished skipped)
    else elim (publish_catalog_result enabled reply id t m.store) [
      | none ↦ fails_with m
      | some publication ↦ goes_on (finished publication)
    ]
  where
    finished : Dict → Manager
    finished publication =
        put env id
          (final_changes (is_partial validation manifest) (result_of url id t manifest publication))
          (merge_runtime env id (field "catalog_publication" (obj publication) empty) m)
