-- ===== src/Store/Tests/Rows.antt =====
-- Submissions, metadata, the policy and the recovery of a restart.
use backend_wrf.Base.{
  ◌+◌, ◌≡◌, ◌≢◌, refl, String, ◌==◌, string_eq, pair_eq, ℕ_eq, true, false, none, some, List, [],
  ◌∷◌, if◌then◌else◌,
}
use backend_wrf.Json.{Json, str, empty}
use backend_wrf.Table.{modify, find, insert_or_ignore, insert_or_replace, delete, any_row}
use backend_wrf.Store.{
  Store, Submission, Metadata, Policy, Operation, ok, err, value_error, type_error,
}
use backend_wrf.Store.Submissions.{
  reserve_submission, compare_request, offer, conflict, reserve_submission_twice, accept_submission,
  get_submission,
}
use backend_wrf.Store.Submissions.Ledger.{
  Ask, Said, Shows, store_run, store_step, ledger_run, ledger_of,
}
use backend_wrf.Store.Submissions.Refines.{store_run-ledger_run}
use backend_wrf.Store.Patch.{
  Changes, Patched, patch_metadata, metadata, apply_changes, patch_metadata-Patched,
  patch_metadata_stale,
}
use backend_wrf.Store.ForcingPolicy.{
  forcing_policy, save_forcing_policy, save_forcing_policy_cas, stale,
}
use backend_wrf.Store.Operations.{cycle_held, reference_count}
use backend_wrf.Store.Interrupted.{recover_interrupted_operations}
use backend_wrf.Store.Interrupted.Settled.{
  AllSettled, recover-AllSettled, recover_twice, recover-cycle_held,
}
use backend_wrf.Store.Tests.{no_rows, ended_task}

-- A rendering of JSON for the tests.
abbrev text : Json → String
text (str s) = s
text _ = "?"

abbrev reserved_row : Submission
reserved_row = record { request_json = "r"; task_id = "t1"; accepted = false }

abbrev reserved_store : Store
reserved_store = record no_rows { submissions = (("ana", "k"), reserved_row) ∷ [] }

reserves : reserve_submission text "ana" "k" (str "r") "t1" no_rows ≡ ok reserved_row reserved_store
unfolding reserve_submission compare_request offer insert_or_ignore find any_row
reserves = refl

-- A key is reserved, accepted, reserved again and misused, and a task id is given a second time.
abbrev some_asks : List Ask
some_asks =
    Ask.reserves "ana" "k" (str "r") "t1"
    ∷ Ask.accepts "ana" "k"
    ∷ Ask.reserves "ana" "k" (str "r") "t2"
    ∷ Ask.reserves "ana" "k" (str "other") "t3"
    ∷ Ask.reserves "bea" "k" (str "r") "t1"
    ∷ Ask.looks "ana" "k"
    ∷ []

some_answers :
    (store_run text some_asks no_rows).0
    ≡ Said.row reserved_row
      ∷ Said.done
      ∷ Said.row (record reserved_row { accepted = true })
      ∷ Said.raised (value_error conflict)
      ∷ Said.raised type_error
      ∷ Said.seen (some ("t1", true))
      ∷ []
unfolding store_run store_step reserve_submission compare_request offer insert_or_ignore find
    any_row accept_submission get_submission modify
some_answers = refl

store_run-ledger_run_example :
    ((store_run text some_asks no_rows).0 ≡ (ledger_run text some_asks (ledger_of no_rows)).0)
    × Shows (store_run text some_asks no_rows).1 (ledger_run text some_asks (ledger_of no_rows)).1
store_run-ledger_run_example = store_run-ledger_run text some_asks no_rows

reserve_submission_twice_example :
    reserve_submission text "ana" "k" (str "other") "t2" reserved_store ≡ (
      if text (str "r") == text (str "other")
      then ok reserved_row reserved_store
      else err (value_error conflict))
reserve_submission_twice_example =
    reserve_submission_twice text "ana" "k" (str "r") (str "other") "t1" "t2" no_rows reserved_store
      reserves

abbrev one_task : Store
one_task = record no_rows { tasks = ("t1", ended_task) ∷ [] }

abbrev renaming : Changes
renaming = record { name = some "typhoon"; notes = none; archived = none; other_keys = [] }

abbrev renamed : Metadata
renamed = record {
  name = "typhoon";
  notes = "";
  archived = false;
  version = 1;
  updated_at = some "now";
}

abbrev renamed_store : Store
renamed_store = record one_task { metadata = ("t1", renamed) ∷ [] }

renames : patch_metadata "now" "t1" 0 renaming one_task ≡ ok renamed renamed_store
unfolding patch_metadata metadata apply_changes find insert_or_replace delete
renames = refl

patch_metadata-Patched_example : Patched "now" "t1" 0 renaming one_task renamed_store renamed
patch_metadata-Patched_example =
    patch_metadata-Patched "now" "t1" 0 renaming one_task renamed_store renames

patch_metadata_stale_example :
    patch_metadata "later" "t1" 0 renaming renamed_store ≡ err (value_error "任务说明已被其他操作修改，请刷新后重试")
patch_metadata_stale_example =
    patch_metadata_stale "now" "later" "t1" 0 renaming renaming one_task renamed_store renames refl

save_forcing_policy_cas_example :
    ((forcing_policy true no_rows).version ≢ 0
      → save_forcing_policy "now" 0 true false empty true no_rows ≡ err (value_error stale))
    × ((forcing_policy true no_rows).version ≡ 0
        → (p : Policy) × (t : Store) × (save_forcing_policy "now" 0 true false empty true no_rows
            ≡ ok p t)
          × (forcing_policy true t ≡ p)
          × (p.version ≡ 0 + 1)
          × (p.enabled ≡ true)
          × (p.auto_cleanup ≡ false)
          × (p.held_cycles ≡ empty)
          × (p.retained_complete_cycles ≡ 2)
          × (save_forcing_policy "later" 0 false true empty true t ≡ err (value_error stale)))
save_forcing_policy_cas_example =
    save_forcing_policy_cas "now" "later" 0 true false false true empty empty true no_rows

abbrev half_done : Operation
half_done = record {
  owner_sub = "ana";
  source = "gfs";
  cycle = "2026010100";
  start_hour = 0;
  end_hour = 6;
  status = "submitting";
  created_at = "then";
  updated_at = "then";
  detail = empty;
}

abbrev interrupted : Store
interrupted = record no_rows { operations = ("o1", half_done) ∷ [] }

recover-AllSettled_example : AllSettled (recover_interrupted_operations 5 interrupted)
recover-AllSettled_example = recover-AllSettled 5 interrupted

recover_twice_example :
    let t = recover_interrupted_operations 5 interrupted in
    ((recover_interrupted_operations 9 t).operations ≡ t.operations)
    × ((recover_interrupted_operations 9 t).deletion_plans ≡ t.deletion_plans)
recover_twice_example = recover_twice 5 9 interrupted

recover-cycle_held_example :
    let t = recover_interrupted_operations 5 interrupted in
    (cycle_held "gfs" "2026010100" t ≡ cycle_held "gfs" "2026010100" interrupted)
    × (reference_count "gfs" "2026010100" t ≡ reference_count "gfs" "2026010100" interrupted)
recover-cycle_held_example = recover-cycle_held 5 interrupted "gfs" "2026010100"
