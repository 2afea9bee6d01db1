-- ===== src/Pool/Enqueue.antt =====
-- scripts/forcing_pool_queue.py: `enqueue`.
use backend_wrf.Base.{
  ℕ, ◌==◌, string_eq, ℕ_eq, String, Bool, true, false, not, ◌&&◌, ◌||◌, any, all, leb, length,
  nat_eq, Option, none, some, List, [], ◌∷◌, ◌++◌, if◌then◌else◌,
}
use backend_wrf.Text.{codes, is_hex}
use backend_wrf.Table.{Table, modify, insert_or_ignore}
use backend_wrf.Pool.{
  Source, gfs, ecmwf, Status, queued, ready, failed, retry_wait, cancelled, obsolete, Priority,
  task, prefetch, Entry, Cycle, Pool, Clock, Args, Disk, new_entry, new_cycle, safe_cycle,
  safe_reference, is_expected, valid_file,
}

-- `refs[reference] = True`
unfoldable pub add_reference : String → List String → List String
add_reference r rs = if any (λ q. q == r) rs then rs else rs ++ r ∷ []

-- `if reference`
unfoldable pub given : Option String → Option String
given none = none
given (some r) = if r == "" then none else some r

unfoldable pub mark_reference : Option String → Priority → Entry → Entry
mark_reference (some r) p e = record e { references = add_reference r e.references }
mark_reference none task e = record e { legacy_task_reference = true }
mark_reference none prefetch e = e

unfoldable pub mark_prefetch : Priority → Entry → Entry
mark_prefetch task e = e
mark_prefetch prefetch e = record e { prefetch_reference = true }

abbrev pub revived : Status → Status
revived cancelled = queued
revived s = s

-- `entry.get("status") in {"failed", "retry_wait"}`
abbrev pub has_stopped : Status → Bool
has_stopped failed = true
has_stopped retry_wait = true
has_stopped _ = false

-- the update that starts an entry afresh
abbrev pub requeued : Entry → Entry
requeued e = record e {
  status = queued;
  attempts = 0;
  no_progress_attempts = 0;
  error = none;
  retry_at = 0;
  terminal_retry_at = 0;
  failure_class = "";
  failed_at = 0;
  retryable = false;
}

-- `re.fullmatch(r"[0-9a-f]{64}", ...)`
unfoldable pub is_digest : String → Bool
is_digest s = nat_eq (length (codes s)) 64 && all is_hex (codes s)

-- the file is on the disk with content `b`
unfoldable pub found_ready : (List ℕ → String) → Priority → List ℕ → Entry → Entry
found_ready digest p b e = record e {
  status = ready;
  priority = elim p [ task ↦ task | prefetch ↦ e.priority ];
  bytes = length b;
  sha256 =
      if not (nat_eq e.bytes (length b)) || not (is_digest e.sha256) then digest b else e.sha256;
  terminal_retry_at = 0;
  failure_class = "";
  error = none;
  failed_at = 0;
  retryable = false;
}

-- the file is not there
unfoldable pub wanted : ℕ → Priority → Entry → Entry
wanted now task e =
    let f : Entry = record e { priority = task } in if has_stopped f.status then requeued f else f
wanted now prefetch e =
    if has_stopped e.status
      && (e.retryable || nat_eq e.http_status 0)
      && leb e.terminal_retry_at now
    then requeued e
    else e

unfoldable pub mark : Priority → Option String → Entry → Entry
mark p reference e =
    let f = mark_prefetch p (mark_reference reference p e) in record f { status = revived f.status }

-- by the content of the file, if it is valid
unfoldable pub settle : (List ℕ → String) → ℕ → Priority → Option (List ℕ) → Entry → Entry
settle digest now p (some b) e = found_ready digest p b e
settle digest now p none e = wanted now p e

-- the body of `for hour in hours` on the entry of the hour
unfoldable pub enqueue_entry :
    Args → (List ℕ → String) → Disk → ℕ → String → Priority → Option String → ℕ → Entry → Entry
enqueue_entry args digest disk now cycle p reference hour e =
    settle digest now p (valid_file args disk cycle hour) (mark p reference e)

-- an entry of an hour that ECMWF does not publish
unfoldable pub retire : Source → ℕ → Entry → Entry
retire gfs hour e = e
retire ecmwf hour e = if is_expected ecmwf hour then e else record e {
  status = obsolete;
  ignored_reason = "ECMWF Open Data publishes 3-hour fields only";
  retry_at = 0;
}

unfoldable pub retire_files : Source → Table ℕ Entry → Table ℕ Entry
retire_files source [] = []
retire_files source ((hour, e) ∷ files) = (hour, retire source hour e) ∷ retire_files source files

-- `files.setdefault(key, ...)`, and the change of what it returns
unfoldable pub enqueue_files :
    (ℕ → Entry → Entry) → Priority → List ℕ → Table ℕ Entry → Table ℕ Entry
enqueue_files f p [] files = files
enqueue_files f p (hour ∷ hours) files =
    enqueue_files f p hours (modify hour (f hour) (insert_or_ignore hour (new_entry p) files))

pub data Refusal : Type 0 where
  bad_cycle bad_reference bad_hours : Refusal

pub data Answer : Type 0 where
  done : Pool → Answer
  refused : Refusal → Answer

unfoldable pub enqueued_cycle :
    Args
    → (List ℕ → String)
    → Disk
    → Clock
    → String
    → List ℕ
    → Priority
    → Option String
    → Cycle
    → Cycle
enqueued_cycle args digest disk now cycle hours p reference c = record c {
  files =
      enqueue_files (enqueue_entry args digest disk now.epoch_now cycle p reference) p hours
        (retire_files args.source c.files);
  updated_at = now.utc_now;
}

-- `invalid` is empty
unfoldable pub offered_hours : Source → List ℕ → Bool
offered_hours gfs hours = true
offered_hours ecmwf hours = all (is_expected ecmwf) hours

unfoldable pub reference_ok : Option String → Bool
reference_ok none = true
reference_ok (some r) = safe_reference r

-- `enqueue`
unfoldable pub enqueue :
    Args
    → (List ℕ → String)
    → Disk
    → Clock
    → String
    → List ℕ
    → Priority
    → Option String
    → Pool
    → Answer
enqueue args digest disk now cycle hours p reference q =
    if not (safe_cycle cycle)
    then refused bad_cycle
    else if not (reference_ok (given reference))
    then refused bad_reference
    else if not (offered_hours args.source hours)
    then refused bad_hours
    else done (record q {
      cycles =
          modify cycle (enqueued_cycle args digest disk now cycle hours p (given reference))
            (insert_or_ignore cycle new_cycle q.cycles);
      updated_at = now.utc_now;
    })
