-- ===== src/Pool/Tests.antt =====
-- Runs of the download queue.
use backend_wrf.Base.{
  ℕ, ◌≡◌, ◌≢◌, refl, String, string_eq, ℕ_eq, true, none, some, List, [], ◌∷◌, arith,
}
use backend_wrf.Text.{is_digit}
use backend_wrf.Table.{find, modify, insert_or_ignore, map_rows, any_row}
use backend_wrf.Pool.{
  downloading, gfs, Args, Clock, Disk, Pool, Cycle, Entry, cancelled, task, new_entry, new_cycle,
  safe_cycle, is_daily, valid, valid_file,
}
use backend_wrf.Pool.Enqueue.{
  done, enqueue, enqueued_cycle, enqueue_entry, enqueue_files, retire_files, settle, wanted, mark,
  mark_reference, mark_prefetch, given, offered_hours, reference_ok,
}
use backend_wrf.Pool.References.{expire_prefetch, expire_cycles, expire_cycle, expire, is_held}
use backend_wrf.Pool.Download.{entry_at, Reply}
use backend_wrf.Pool.Pick.{
  Choice, to_download, pick_next, pick, choices, probe_cycle, offers, add_offer, needs_probe,
  visit_file, visit, has_task, least, before, is_task,
}
use backend_wrf.Pool.Steps.{start, next, enqueued, expired, PoolSteps-held_not_cancelled}
use backend_wrf.Pool.Due.{first, MayStart}
use backend_wrf.Pool.Next.{Startable, pick_next-Startable, pick_next-task_first}
use backend_wrf.Pool.Outcome.{Schedule, after_failure-Schedule}
use backend_wrf.Pool.Errors.{no_seconds}
use backend_wrf.Pool.Download.{after_failure, recover_interrupted_downloads}
use backend_wrf.Pool.Restart.{Resumes, AllStopped, recover_interrupted_downloads-entries}

abbrev gfs_args : Args
gfs_args = record {
  source = gfs;
  min_bytes = 8;
  retry_max_attempts = 8;
  retry_max_seconds = 900;
  publish_probe_seconds = 300;
}

abbrev noon : Clock
noon = record { utc_now = "2026-01-01T12:00:00Z"; epoch_now = 1000 }

abbrev empty_disk : Disk
empty_disk c h = none

abbrev no_digest : List ℕ → String
no_digest b = ""

abbrev empty_pool : Pool
empty_pool = record { cycles = []; updated_at = "" }

abbrev asked_entry : Entry
asked_entry = record (new_entry task) { legacy_task_reference = true }

abbrev asked_cycle : Cycle
asked_cycle = record new_cycle {
  files = (6, asked_entry) ∷ [];
  updated_at = "2026-01-01T12:00:00Z";
}

abbrev asked_pool : Pool
asked_pool = record {
  cycles = ("2026010100", asked_cycle) ∷ [];
  updated_at = "2026-01-01T12:00:00Z";
}

asked :
    enqueue gfs_args no_digest empty_disk noon "2026010100" (6 ∷ []) task none empty_pool
    ≡ done asked_pool
unfolding enqueue enqueued_cycle enqueue_entry enqueue_files retire_files settle wanted mark
    mark_reference mark_prefetch given offered_hours reference_ok safe_cycle is_daily is_digit valid
    valid_file find modify insert_or_ignore
asked = refl

kept : expire_prefetch noon [] asked_pool ≡ done asked_pool
unfolding expire_prefetch expire_cycles expire_cycle expire is_held map_rows any_row
kept = refl

PoolSteps-held_not_cancelled_example : asked_entry.status ≢ cancelled
unfolding find entry_at is_held any_row
PoolSteps-held_not_cancelled_example =
    PoolSteps-held_not_cancelled gfs_args no_digest empty_pool asked_pool refl
      (next (next start (enqueued empty_disk noon "2026010100" (6 ∷ []) task none asked))
        (expired noon [] kept))
      "2026010100" 6 asked_entry refl refl

abbrev picked_choice : Choice
picked_choice = record { priority = 0; cycle = "2026010100"; hour = 6 }

pick_asked : (pick_next gfs_args empty_disk noon asked_pool).0 ≡ to_download picked_choice
unfolding pick_next pick choices probe_cycle offers add_offer needs_probe visit_file visit has_task
    least before safe_cycle is_daily is_digit valid any_row
pick_asked = refl

pick_next-Startable_example : Startable gfs_args empty_disk noon asked_pool picked_choice
pick_next-Startable_example =
    pick_next-Startable gfs_args empty_disk noon asked_pool picked_choice pick_asked

may_start : MayStart noon (valid gfs_args empty_disk "2026010100" 6) asked_entry
unfolding valid
may_start = record {
  missing = refl;
  not_withdrawn = refl;
  not_failed = refl;
  waited = λ w. ground arith;
  due = λ w. ground arith;
}

safe_asked : safe_cycle "2026010100" ≡ true
unfolding safe_cycle is_daily is_digit
safe_asked = refl

pick_next-task_first_example :
    (c : Choice) × ((pick_next gfs_args empty_disk noon asked_pool).0 ≡ to_download c)
    × (s : Startable gfs_args empty_disk noon asked_pool c) × (is_task s.entry.priority ≡ true)
pick_next-task_first_example =
    pick_next-task_first gfs_args empty_disk noon asked_pool "2026010100" 6 asked_cycle asked_entry
      safe_asked first first may_start refl

abbrev unreachable : Reply
unreachable = record {
  returncode = some 6;
  part = none;
  header_status = 0;
  text = "curl: (6) Could not resolve host";
  speed = 0;
  wait = no_seconds;
}

after_failure-Schedule_example :
    Schedule gfs_args 1000 1 unreachable (after_failure gfs_args 1000 0 1 unreachable asked_entry)
after_failure-Schedule_example = after_failure-Schedule gfs_args 1000 0 1 unreachable asked_entry

-- the pool while the file is downloaded
abbrev begun_pool : Pool
begun_pool = record asked_pool {
  cycles =
      (
        "2026010100",
        record asked_cycle { files = (6, record asked_entry { status = downloading }) ∷ [] },
      )
      ∷ [];
}

recover_interrupted_downloads-entries_example :
    AllStopped (recover_interrupted_downloads noon begun_pool)
    × ((cycle : String) (hour : ℕ) (e : Entry)
        → entry_at cycle hour begun_pool ≡ some e
        → Resumes e (entry_at cycle hour (recover_interrupted_downloads noon begun_pool)))
    × ((cycle : String) (hour : ℕ)
        → entry_at cycle hour begun_pool ≡ none
        → entry_at cycle hour (recover_interrupted_downloads noon begun_pool) ≡ none)
recover_interrupted_downloads-entries_example =
    recover_interrupted_downloads-entries noon begun_pool
