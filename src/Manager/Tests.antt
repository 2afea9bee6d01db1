-- ===== src/Manager/Tests.antt =====
-- Runs of the task manager.
use backend_wrf.Base.{
  ◌≡◌, refl, String, string_eq, ℕ_eq, attempt_eq, ◌==◌, true, false, Option, none, some,
  if◌then◌else◌, [], ◌∷◌, arith,
}
use mathlib.Core.List.{Perm}
use backend_wrf.Pool.Pick.{text_lt}
use backend_wrf.Manager.Cancel.{insert_turn, before_turn}
use backend_wrf.Json.{
  Dict, bool, null, Json, str, num, obj, field, empty, get, set, update, truthy?, truthy, same,
  same?,
}
use backend_wrf.Table.{
  Table, find, insert, insert_or_ignore, any_row, insert_or_replace, modify, delete,
}
use backend_wrf.Store.{Store, Task, text_of, deletion_blocked}
use backend_wrf.Store.Tasks.{
  Env, create, get_task, new_task, update_task, after_update, note_failure, note_success,
  begin_attempt, archive_attempt,
}
use backend_wrf.Manager.{
  Manager, has, add, discard, launched, is_final, is_busy, terminal_seen, is_terminal_text,
  wrf_succeeded, put, merge_runtime,
}
use backend_wrf.Manager.Budget.{mpi_budget}
use backend_wrf.Manager.Budget.Split.{Automatic, mpi_budget-Automatic, mpi_budget_eight}
use backend_wrf.Manager.Dispatch.{
  Host, dispatch, dispatch_queued, occupied, slots, start_thread, is_over, holds_slot, may_run,
}
use backend_wrf.Manager.Dispatch.Admitted.{Verdict, dispatch-Verdict}
use backend_wrf.Manager.Cancel.{
  cancel, cancel_task, start_remote_cancel, unresolved, end_remote_cancel,
  record_cancel_observation, bound_to, schedule_cancel_reconcile, dispatch_pending, dispatch_all,
  turns,
}
use backend_wrf.Manager.Attempts.{
  Taken, taken, stopped, state_left, Remote, Files, restart, restart_plan, restart_planned,
  remote_status, can_restart, is_stopped, persist_failure, archive_and_begin, begin_again,
  and_dispatch, is_expired, get_decorated, decorated,
}
use backend_wrf.Manager.Attempts.Restart.{Restarted, restart-Restarted}
use backend_wrf.Manager.Submit.{submit_idempotent, submit_reserved, submit_new}
use backend_wrf.Manager.Submit.Closed.{has_task}
use backend_wrf.Manager.Submit.Once.{nothing, submits, submit_idempotent-once}
use backend_wrf.Store.Submissions.{reserve_submission, accept_submission, offer, compare_request}
use backend_wrf.Manager.Cancel.Turns.{waiting, IsOrdered, turns-IsOrdered}
use backend_wrf.Manager.Finish.{
  Finalizing, goes_on, is_cancelled, fails_with, end_finalize, is_partial, publish_catalog_result,
}
use backend_wrf.Manager.Finish.Complete.{Finished, end_finalize-Finished}
use backend_wrf.Manager.Again.Allowed.{Agreement, require_operation-Agreement}
use backend_wrf.Manager.Confirmed.{Confirmed}
use backend_wrf.Manager.Confirmed.Cancel.{state_after}
use backend_wrf.Manager.Confirmed.Steps.{
  stays, and_then, cancels, ends_cancel, ManagerSteps-Confirmed,
}

abbrev host : Host
host = record {
  max_concurrent = 1;
  processes = 4;
  cpu_headroom = 1;
  memory_headroom_bytes = 0;
  is_hpc = true;
  is_ready = true;
  cpu_count = 16;
  memory_available_mb = 65536;
}

abbrev env : Env
env = record {
  now = "now";
  diagnose = λ id t evidence. empty;
  incident_id = λ id n code stage. "incident";
  again_id = λ id now. "again";
}

abbrev no_tasks : Store
no_tasks = record {
  tasks = [];
  attempts = [];
  incidents = [];
  diagnoses = [];
  recovery_plans = [];
  metadata = [];
  deletion_plans = [];
  tombstones = [];
  submissions = [];
  policy = none;
  operations = [];
  cleanup_plans = [];
}

abbrev request : Json
request = obj empty

abbrev queued_task : Task
queued_task = new_task "then" request "owner"

abbrev with_task : Task → Manager
with_task t = record {
  store = record no_tasks { tasks = ("t1", t) ∷ [] };
  started = true;
  stopping = false;
  threads = [];
  pending = [];
  active = [];
  cancelled = [];
  cancel_threads = [];
  cancel_timers = [];
  reconcile_timers = [];
}

mpi_budget-Automatic_example : Automatic (record { e_we = 100; e_sn = 80 } ∷ []) 6
mpi_budget-Automatic_example =
    mpi_budget-Automatic (record { e_we = 100; e_sn = 80 } ∷ []) 6 (omega arith)

dispatch-Verdict_example :
    Verdict host "t1" (with_task queued_task) (dispatch env host 5 "t1" (with_task queued_task))
dispatch-Verdict_example = dispatch-Verdict env host 5 "t1" (with_task queued_task)

abbrev failed_task : Task
failed_task = record queued_task {
  status = "failed";
  failure = some (field "failure_class" (str "model") empty);
  runtime = field "remote_pid" (num 7) empty;
}

require_operation-Agreement_example : Agreement env host 5 "t1" (with_task failed_task)
require_operation-Agreement_example =
    require_operation-Agreement env host 5 "t1" (with_task failed_task)

abbrev running_task : Task
running_task = record queued_task { status = "running"; runtime = field "remote_pid" (num 7) empty }

-- The user cancels, and the host says that the process has ended.
abbrev after_cancel : Manager
after_cancel =
    state_after (with_task running_task) (cancel env host 5 "t1" (with_task running_task))

abbrev after_reply : Manager
after_reply = end_remote_cancel env host 5 "doubt" "t1" "cancelled" (1, none) after_cancel

cancelled_in_the_end :
    elim (get_task "t1" after_reply.store) as (λ o. String) [ none ↦ "" | some t ↦ t.status ]
    ≡ "cancelled"
unfolding cancel get_task find is_final unresolved launched truthy? truthy get wrf_succeeded
    terminal_seen text_of cancel_task put update_task after_update modify add has
    start_remote_cancel end_remote_cancel record_cancel_observation bound_to same? same
    is_terminal_text merge_runtime update set discard schedule_cancel_reconcile dispatch_pending
    turns dispatch_all note_failure note_success
cancelled_in_the_end = refl

Confirmed-running : Confirmed (with_task running_task).store
unfolding Confirmed get_task find
Confirmed-running j t h =
    let there : (if "t1" == j then some running_task else none) ≡ some t = h in
    let runs : t.status ≡ "running" = ground (arith, there) in rw runs refl

ManagerSteps-Confirmed_example : Confirmed after_reply.store
ManagerSteps-Confirmed_example =
    ManagerSteps-Confirmed
      (and_then
        (and_then (stays (with_task running_task))
          (cancels env host 5 "t1" (with_task running_task)))
        (ends_cancel env host 5 "doubt" "t1" "cancelled" (1, none) after_cancel))
      Confirmed-running

abbrev proved : Remote
proved = record { verified = false; proves = true; terminal = true; status = "" }

abbrev files : Files
files = record { is_archived = false; log_path = none; cleaned = true }

abbrev answer : Taken → Option Task
answer (taken a m) = a
answer (stopped e m) = none

abbrev restarted : Taken
restarted = restart env host 5 proved files request ("t1", 1) false "t1" (with_task failed_task)

restart-Restarted_example :
    Restarted proved request ("t1", 1) false "t1" (with_task failed_task) (state_left restarted)
unfolding restart get_decorated get_task find is_expired decorated is_busy deletion_blocked has
    restart_plan is_stopped wrf_succeeded truthy? truthy get remote_status can_restart
    restart_planned persist_failure archive_and_begin archive_attempt begin_again begin_attempt
    discard update_task after_update note_failure note_success modify insert_or_replace delete
    and_dispatch dispatch dispatch_queued is_over add occupied slots holds_slot may_run start_thread
    text_of launched
restart-Restarted_example =
    restart-Restarted env host 5 proved files request ("t1", 1) false "t1" (with_task failed_task)
      (state_left restarted) (answer restarted) refl

mpi_budget_eight_example : mpi_budget (record { e_we = 40; e_sn = 35 } ∷ []) 8 none none ≡ none
mpi_budget_eight_example =
    mpi_budget_eight (record { e_we = 40; e_sn = 35 }) (omega arith) (omega arith) (omega arith)

abbrev text_of_request : Json → String
text_of_request q = "request"

abbrev idle_manager : Manager
idle_manager = record (with_task queued_task) { store = no_tasks }

abbrev first : Taken
first = submit_idempotent text_of_request env host 5 null request "owner" "key" "t1" idle_manager

abbrev second : Taken
second =
    submit_idempotent text_of_request env host 5 null request "owner" "key" "t2" (state_left first)

-- The second submission, although another id was made for it, is refused after the first.
submit_idempotent-once_example : has_task "t1" (state_left first).store ≡ true
unfolding submit_idempotent reserve_submission find offer insert_or_ignore any_row compare_request
    submit_reserved get_task submit_new create insert accept_submission modify merge_runtime put
    update_task after_update note_failure note_success update set and_dispatch dispatch has add
    is_over dispatch_queued get truthy? truthy occupied slots holds_slot may_run start_thread
    discard text_of
submit_idempotent-once_example =
    submit_idempotent-once text_of_request "owner" "key" env host 5 null request "t1" idle_manager
      (state_left first) (state_left second) (answer first) refl
      (submits (nothing (state_left first)) env host 5 null request "t2") "t1" refl

abbrev three_rows : Table String Task
three_rows =
    ("t2", queued_task)
    ∷ ("t3", running_task)
    ∷ ("t1", record queued_task { status = "reconciling" })
    ∷ []

two_turns : turns three_rows ≡ ("then", "t1") ∷ ("then", "t2") ∷ []
unfolding turns insert_turn before_turn text_lt
two_turns = refl

turns-IsOrdered_example :
    Perm (turns three_rows) (waiting three_rows) × IsOrdered (turns three_rows)
turns-IsOrdered_example = turns-IsOrdered three_rows

abbrev all_there : Dict
all_there = field "complete" (bool true) empty

abbrev published : Dict
published = field "status" (str "success") empty

abbrev finishing : Finalizing
finishing =
    end_finalize env true published "url" "t1" running_task all_there empty (with_task running_task)

abbrev finished_manager : Manager
finished_manager = elim finishing [ goes_on u ↦ u | is_cancelled u ↦ u | fails_with u ↦ u ]

end_finalize-Finished_example :
    Finished true published "url" "t1" running_task all_there empty
      (with_task running_task)
      finished_manager
unfolding end_finalize get_task find has is_partial truthy? truthy get text_of
    publish_catalog_result deletion_blocked merge_runtime put update_task after_update note_failure
    note_success modify update set
end_finalize-Finished_example =
    end_finalize-Finished env true published "url" "t1" running_task all_there empty
      (with_task running_task) finished_manager running_task refl refl
