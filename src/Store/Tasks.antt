-- ===== src/Store/Tasks.antt =====
-- database.py: the tasks, their attempts and their incidents.
pub mod Laws
use backend_wrf.Base.{
  ℕ, ◌+◌, ◌-◌, List, [], ◌∷◌, String, ◌==◌, string_eq, attempt_eq, ℕ_eq, Bool, true, false, not,
  ◌&&◌, ◌||◌, Option, none, some, if◌then◌else◌,
}
use backend_wrf.Json.{Json, Dict, str, num, get, set, field, empty, update, truthy?}
use backend_wrf.Table.{
  Table, find, delete, delete_where, modify, insert, insert_or_replace, map_rows, any_row,
}
use backend_wrf.Store.{
  Store, Task, Attempt, Incident, Result, ok, err, key_error, type_error, integrity_error, text_of,
}

-- What the store takes from elsewhere: the clock, `recovery.diagnose` of a task and its evidence,
-- and the ids that `recovery.digest` makes, of an incident and of one that occurs again.
pub record Env : Type 0 where
  pub now : String
  pub diagnose : String → Task → String → Dict
  pub incident_id : String → ℕ → Option Json → String → String
  pub again_id : String → String → String

-- `self.get(task_id)`; a column holds what `_decode` makes of it
unfoldable pub get_task : String → Store → Option Task
get_task id s = find id s.tasks

abbrev pub new_task : String → Json → String → Task
new_task now request owner = record {
  owner_sub = owner;
  status = "queued";
  stage = "queued";
  progress = 0;
  request = request;
  runtime = empty;
  result = none;
  failure = none;
  error = none;
  attempt_no = 1;
  created_at = now;
  updated_at = now;
}

-- `create`
unfoldable pub create : String → String → Json → String → Store → Result Store (Option Task)
create now id request owner s = elim (insert id (new_task now request owner) s.tasks) [
  | none ↦ err integrity_error
  | some t ↦ ok (find id t) (record s { tasks = t })
]

-- the arguments of `update`: what is not given is `none`
pub record Changes : Type 0 where
  pub status : Option String
  pub stage : Option String
  pub progress : Option ℕ
  pub request : Option Json
  pub runtime : Option Dict
  pub result : Option (Option Json)
  pub failure : Option (Option Dict)
  pub error : Option (Option String)
  pub attempt_no : Option ℕ

abbrev pub no_changes : Changes
no_changes = record {
  status = none;
  stage = none;
  progress = none;
  request = none;
  runtime = none;
  result = none;
  failure = none;
  error = none;
  attempt_no = none;
}

abbrev pub or_old {ℓ} : {A : Type ℓ} → Option A → A → A
or_old (some a) old = a
or_old none old = old

-- the row after `UPDATE wrf_tasks SET ...`
abbrev pub changed_task : String → Changes → Task → Task
changed_task now c t = record t {
  status = or_old c.status t.status;
  stage = or_old c.stage t.stage;
  progress = or_old c.progress t.progress;
  request = or_old c.request t.request;
  runtime = or_old c.runtime t.runtime;
  result = or_old c.result t.result;
  failure = or_old c.failure t.failure;
  error = or_old c.error t.error;
  attempt_no = or_old c.attempt_no t.attempt_no;
  updated_at = now;
}

-- `int(task.get("attempt_no") or 1)`
abbrev pub attempt_of : Task → ℕ
attempt_of t = if t.attempt_no == 0 then 1 else t.attempt_no

abbrev pub details_of : Option Incident → Dict
details_of none = empty
details_of (some i) = i.details

abbrev pub or_json : Option Json → Json → Json
or_json (some v) default = v
or_json none default = default

abbrev pub has_text : String → Option Json → Bool
has_text w v = elim (text_of v) [ none ↦ false | some t ↦ t == w ]

-- `previous.get("status") in {"recovery_requested", "resolved"} and new_occurrence`
unfoldable pub starts_again : Dict → Bool → Bool
starts_again previous new =
    (has_text "recovery_requested" (get "status" previous)
      || has_text "resolved" (get "status" previous))
    && new

-- the `incident` that `record_incident` stores under `id`
unfoldable pub incident_of : String → String → Dict → Dict → String → String → ℕ → Dict
incident_of now evidence diagnosis previous id task_id attempt =
    let d = set "status" (or_json (get "status" previous) (str "open")) (
      set "last_seen" (str now) (
        set "first_seen" (or_json (get "first_seen" previous) (str now)) (
          set "attempt_no" (num attempt)
            (set "task_id" (str task_id) (set "id" (str id) diagnosis))))) in
    if evidence == "" then set "evidence" (or_json (get "evidence" previous) (str "")) d else d

-- `record_incident`
unfoldable pub record_incident : Env → String → Task → String → Bool → Store → Store
record_incident env task_id t evidence new s =
    let diagnosis = env.diagnose task_id t evidence in
    let id = env.incident_id task_id (attempt_of t) (get "code" diagnosis) t.stage in
    let previous = details_of (find id s.incidents) in
    let again = starts_again previous new in
    let key = if again then env.again_id id env.now else id in
    let known = if again then empty else previous in
    record s {
      incidents =
          insert_or_replace key
            (record {
              task_id = task_id;
              attempt_no = attempt_of t;
              details = incident_of env.now evidence diagnosis known key task_id (attempt_of t);
            })
            s.incidents;
    }

-- `str(failure.get("evidence") or remote.get("message") or "")`; both are texts where they are there
unfoldable pub failure_text : Dict → String
failure_text f = elim (text_of (get "evidence" f)) [
  | some e ↦ if e == "" then remote_message (get "remote" f) else e
  | none ↦ remote_message (get "remote" f)
]
  where
    message_in : Dict → String
    message_in r = elim (text_of (get "message" r)) [ some m ↦ m | none ↦ "" ]

    remote_message : Option Json → String
    remote_message (some (Json.obj r)) = message_in r
    remote_message _ = ""

abbrev pub is_some_dict : Dict → Bool
is_some_dict empty = false
is_some_dict (field k v d) = true

-- the branch `if values.get("failure")`
unfoldable pub note_failure : Env → String → Task → Option (Option Dict) → Store → Store
note_failure env id t (some (some f)) s =
    if is_some_dict f then record_incident env id t (failure_text f) true s else s
note_failure env id t (some none) s = s
note_failure env id t none s = s

-- `event["status"] in {"open", "recovery_requested"}`, for an event of the task
unfoldable pub is_open_event : String → Incident → Bool
is_open_event id i =
    i.task_id == id
    && (has_text "open" (get "status" i.details)
        || has_text "recovery_requested" (get "status" i.details))

unfoldable pub resolved : String → String → Incident → Incident
resolved now id i =
    if is_open_event id i
    then record i {
      details = set "resolved_at" (str now) (set "status" (str "resolved") i.details);
    }
    else i

abbrev pub names_success : Option String → Bool
names_success none = false
names_success (some t) = t == "succeeded"

-- the loop over `self.incidents(task_id)`, the latest 100 of the task, from the last row back: how
-- many of them are left, and the rows
unfoldable pub resolve_latest : String → String → Table String Incident → ℕ × Table String Incident
resolve_latest now id [] = (100, [])
resolve_latest now id ((j, i) ∷ rows) =
    let rest = resolve_latest now id rows in
    if not (i.task_id == id)
    then (rest.0, (j, i) ∷ rest.1)
    else (rest.0 - 1, (j, if rest.0 == 0 then i else resolved now id i) ∷ rest.1)

-- the branch `if values.get("status") == "succeeded"`
unfoldable pub note_success : Env → String → Option String → Store → Store
note_success env id status s =
    if names_success status
    then record s { incidents = (resolve_latest env.now id s.incidents).1 }
    else s

-- after the row is read again
unfoldable pub after_update : Env → String → Changes → Store → Option Task → Store
after_update env id c u none = u
after_update env id c u (some t) = note_success env id c.status (note_failure env id t c.failure u)

-- `update`. Its callers name a task that is there; the error that the code raises for a failure given
-- to a missing task is left out.
unfoldable pub update_task : Env → String → Changes → Store → Store
update_task env id c s =
    let u : Store = record s { tasks = modify id (changed_task env.now c) s.tasks } in
    after_update env id c u (find id u.tasks)

abbrev pub archived_row : String → Option String → Task → Attempt
archived_row now log t = record {
  request = t.request;
  status = t.status;
  stage = t.stage;
  progress = t.progress;
  runtime = t.runtime;
  result = t.result;
  failure = t.failure;
  error = t.error;
  log_path = log;
  started_at = elim (text_of (get "attempt_started_at" t.runtime)) [
    | some x ↦ if x == "" then started t.created_at else x
    | none ↦ started t.created_at
  ];
  finished_at = now;
}
  where
    started : String → String
    started created = if created == "" then now else created

-- `archive_attempt`
unfoldable pub archive_attempt : String → String → Option String → Store → Result Store Task
archive_attempt now id log s = elim (get_task id s) [
  | none ↦ err key_error
  | some t ↦ ok t (record s {
    attempts = insert_or_replace (id, attempt_of t) (archived_row now log t) s.attempts;
  })
]

abbrev pub fresh_attempt : String → Json → Task → Changes
fresh_attempt now request t = record {
  status = some "queued";
  stage = some "queued";
  progress = some 0;
  request = some request;
  runtime = some (field "attempt_started_at" (str now) empty);
  result = some none;
  failure = some none;
  error = some none;
  attempt_no = some (attempt_of t + 1);
}

-- `begin_attempt`
unfoldable pub begin_attempt : Env → String → Json → Store → Result Store (Option Task)
begin_attempt env id request s = elim (get_task id s) [
  | none ↦ err key_error
  | some t ↦ let u = update_task env id (fresh_attempt env.now request t) s in ok (get_task id u) u
]

-- `delete`; the metadata and the attempts of the task go with its row (`ON DELETE CASCADE`)
unfoldable pub delete_task : String → Store → Bool × Store
delete_task id s = elim (get_task id s) [
  | none ↦ (false, s)
  | some t ↦ (
    true,
    record s {
      tasks = delete id s.tasks;
      metadata = delete id s.metadata;
      attempts = delete_where (λ k _. k.0 == id) s.attempts;
    },
  )
]
