-- ===== src/Manager/Attempts.antt =====
-- task_manager.py: `restart_plan` and `restart`, and what the operations on a stopped task share. The
-- operation lock keeps two operations on a task from running at once. `_log`, the wakeup of the
-- cleanup and the cached proofs of an end are left out. A reply of the HPC client and what the files
-- are like are arguments.
pub mod Laws
pub mod Begun
pub mod Ended
pub mod Restart
use backend_wrf.Base.{
  ℕ, suc, ◌+◌, ◌==◌, string_eq, ℕ_eq, nat_eq, String, Bool, true, false, not, ◌&&◌, ◌||◌, ◌⊎◌, inl,
  inr, any, Option, none, some, List, [], ◌∷◌, if◌then◌else◌,
}
use backend_wrf.Text.{codes, contains_text}
use backend_wrf.Json.{
  Json, null, bool, num, str, obj, Dict, empty, field, get, set, update, pop, truthy?,
}
use backend_wrf.Pool.Errors.{lower}
use backend_wrf.Store.{Store, Task, Result, ok, err, text_of, deletion_blocked}
use backend_wrf.Store.Tasks.{
  Env, Changes, no_changes, get_task, attempt_of, archive_attempt, begin_attempt, is_some_dict,
}
use backend_wrf.Manager.{
  Manager, Refusal, not_found, conflict, bad_value, other_error, Outcome, did, refused, discard,
  is_final, launched, wrf_succeeded, has_cycle, is_busy, must_confirm, failed_outside, put,
}
use backend_wrf.Manager.Dispatch.{Host, Dispatched, launches, declines, fails, dispatch}
use backend_wrf.Manager.Needs.{entries}

-- EXTERNAL_ERROR_MARKERS
abbrev pub external_error_markers : List String
external_error_markers =
    "堡垒" ∷ "会话" ∷ "连接" ∷ "认证" ∷ "密码" ∷ "shell" ∷ "timeout" ∷ "timed out" ∷ "connection"
    ∷ "disconnect" ∷ "broken pipe" ∷ "eof" ∷ "permission denied" ∷ []

abbrev pub reader_markers : List String
reader_markers = "netcdf" ∷ "hdf" ∷ "wrfout" ∷ "unknown file format" ∷ []

-- `str(task.get("error") or "")`
abbrev pub error_text : Task → String
error_text t = elim t.error [ none ↦ "" | some e ↦ e ]

-- `any(marker in text.lower() for marker in markers)`
unfoldable pub names_marker : List String → String → Bool
names_marker markers message =
    let value = lower (codes message) in any (λ w. contains_text value (codes w)) markers

abbrev pub has_failure : Task → Bool
has_failure t = elim t.failure [ none ↦ false | some f ↦ is_some_dict f ]

-- `failure_class` and `recommended_action` of a failure without details
unfoldable pub legacy_class : Task → String × String
legacy_class t =
    if names_marker external_error_markers (error_text t)
    then ("external", "resume")
    else if wrf_succeeded t.runtime
    then ("output", "retry_outputs")
    else ("model", "edit_and_restart")

unfoldable pub legacy_failure : Task → Dict
legacy_failure t = field "failure_class" (str ((legacy_class t).0)) (
    field "stage" (str (if t.stage == "" then "unknown" else t.stage)) (
      field "code" (str "legacy_error") (
        field "message" (str (error_text t)) (
          field "recoverable" (bool true) (
            field "recommended_action" (str ((legacy_class t).1))
              (field "derived" (bool true) empty))))))

-- `_decorate_legacy_failure`
unfoldable pub decorated : Task → Task
decorated t =
    if has_failure t || not (t.status == "failed") || error_text t == ""
    then t
    else record t { failure = some (legacy_failure t) }

-- `get`, but for the summaries of the attempts
unfoldable pub get_decorated : String → Manager → Option Task
get_decorated id m = elim (get_task id m.store) [ none ↦ none | some t ↦ some (decorated t) ]

-- What an operation leaves: the task that it returns, or the exception, and the state.
pub data Taken : Type 0 where
  taken : Option Task → Manager → Taken
  stopped : Refusal → Manager → Taken

abbrev pub state_left : Taken → Manager
state_left (taken t m) = m
state_left (stopped e m) = m

-- `self._dispatch(task_id)` and then the result; `_dispatch` may raise
unfoldable pub and_dispatch : Env → Host → ℕ → String → (Manager → Option Task) → Manager → Taken
and_dispatch env h clock id answer m = elim (dispatch env h clock id m) [
  | launches u ↦ taken (answer u) u
  | declines u ↦ taken (answer u) u
  | fails u ↦ stopped other_error u
]

-- the statuses that `restart_plan` accepts
unfoldable pub is_stopped : String → Bool
is_stopped s = s == "waiting_restart" || s == "failed" || s == "cancelled"

-- the replies that `restart_plan` may ask for: whether `verify_forcing_terminal` holds, whether the
-- client has `terminal_evidence` and what it says, and the status of the remote attempt
pub record Remote : Type 0 where
  pub verified : Bool
  pub proves : Bool
  pub terminal : Bool
  pub status : String

-- `remote_status`; none if the attempt has no identity of its own
unfoldable pub remote_status : Remote → Bool → Task → Option String
remote_status q allow_completed t =
    if allow_completed && wrf_succeeded t.runtime
    then (if not (truthy? (get "release_id" t.runtime))
        then none
        else some (if q.verified then "succeeded" else "unknown"))
    else if q.proves
    then some (if q.terminal then "failed" else "unknown")
    else some (if q.status == "" then "unknown" else q.status)

-- `can_restart`
unfoldable pub can_restart : String → Bool → Task → Bool
can_restart status allow_completed t =
    status == "failed"
    || status == "missing" && not (launched t.runtime)
    || status == "succeeded" && allow_completed

-- `restart_plan` up to `can_restart`: the rest of the dict is for display
unfoldable pub restart_plan : Remote → Bool → String → Manager → Refusal ⊎ Bool
restart_plan q allow_completed id m = elim (get_decorated id m) [
  | none ↦ inl not_found
  | some t ↦
      if not (is_stopped t.status) || wrf_succeeded t.runtime && not allow_completed
      then inl conflict
      else elim (remote_status q allow_completed t) [
        | none ↦ inl conflict
        | some status ↦ inr (can_restart status allow_completed t)
      ]
]

-- Whether an archive of outputs is in the way, the path of the archived log if there is one, and
-- whether the cleanup on the host and the moves and removals of files succeed.
pub record Files : Type 0 where
  pub is_archived : Bool
  pub log_path : Option String
  pub cleaned : Bool

-- a derived failure is stored
unfoldable pub persist_failure : Env → String → Task → Manager → Manager
persist_failure env id t m = elim t.failure [
  | none ↦ m
  | some f ↦
      if truthy? (get "derived" f)
      then put env id (record no_changes { failure = some (some (pop "derived" f)) }) m
      else m
]

-- `restart` from `begin_attempt` on
unfoldable pub begin_again : Env → Host → ℕ → Json → String → Manager → Taken
begin_again env h clock request id m =
    let u : Manager = record m { cancelled = discard id m.cancelled } in
    elim (begin_attempt env id request u.store) [
      | err e ↦ stopped other_error u
      | ok t s ↦ and_dispatch env h clock id (get_decorated id) (record u { store = s })
    ]

-- `restart` from the archive of the attempt on
unfoldable pub archive_and_begin : Env → Host → ℕ → Files → Json → String → Manager → Taken
archive_and_begin env h clock files request id m =
    elim (archive_attempt env.now id files.log_path m.store) [
      | err e ↦ stopped other_error m
      | ok t s ↦
          if not files.cleaned
          then stopped other_error (record m { store = s })
          else begin_again env h clock request id (record m { store = s })
    ]

-- `int(task.get("attempt_no") or 1)` is the attempt that the caller confirms
unfoldable pub is_expired : String → ℕ → String → Task → Bool
is_expired confirm_task_id confirm_attempt id t =
    not (confirm_task_id == id) || not (nat_eq confirm_attempt (attempt_of t))

unfoldable pub restart_planned :
    Env → Host → ℕ → Files → Json → Bool → String → Task → Manager → Taken
restart_planned env h clock files request allow_completed id t m =
    let u = persist_failure env id t m in
    if allow_completed && wrf_succeeded t.runtime && files.is_archived
    then stopped conflict u
    else archive_and_begin env h clock files request id u

-- `restart` after `normalize_task_request`
unfoldable pub restart :
    Env → Host → ℕ → Remote → Files → Json → String × ℕ → Bool → String → Manager → Taken
restart env h clock q files request confirmed allow_completed id m = elim (get_decorated id m) [
  | none ↦ stopped not_found m
  | some t ↦
      if is_expired (confirmed.0) (confirmed.1) id t
      then stopped bad_value m
      else if is_busy id m
      then stopped conflict m
      else elim (restart_plan q allow_completed id m) [
        | inl e ↦ stopped e m
        | inr possible ↦
            if not possible
            then stopped conflict m
            else restart_planned env h clock files request allow_completed id t m
      ]
]
