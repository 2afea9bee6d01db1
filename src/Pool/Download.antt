-- ===== src/Pool/Download.antt =====
-- scripts/forcing_pool_queue.py: `_set_entry`, `_mark_publication`, `_set_wait`,
-- `_download_one_locked` and `recover_interrupted_downloads`. The download is two operations, since
-- other processes change the state while curl runs.
use backend_wrf.Base.{
  ℕ, ◌+◌, zero, ◌==◌, string_eq, ℕ_eq, nat_eq, String, Bool, true, false, not, ◌&&◌, ◌||◌, leb,
  length, Option, none, some, List, if◌then◌else◌,
}
use backend_wrf.Text.{codes, contains_text}
use backend_wrf.Table.{find, modify, insert_or_ignore, map_rows, any_row}
use backend_wrf.Pool.{
  queued, downloading, ready, failed, retry_wait, rate_limited, prefetch, Entry, Cycle, Pool, Clock,
  Args, new_entry, new_cycle, grib_bytes,
}
use backend_wrf.Pool.References.{is_downloading}
use backend_wrf.Pool.Errors.{classify_error, RetryAfter, retry_after, lower}

abbrev pub modify_cycle : Clock → String → (Cycle → Cycle) → Pool → Pool
modify_cycle now cycle f q = record q { cycles = modify cycle f q.cycles; updated_at = now.utc_now }

-- `cycle_state.get("active_file") == self.file_name(hour)`
abbrev pub is_active : ℕ → Option ℕ → Bool
is_active hour none = false
is_active hour (some h) = nat_eq h hour

-- `_set_entry`, `starts` telling whether the values set the status `downloading`
unfoldable pub set_entry_cycle : Clock → ℕ → Bool → (Entry → Entry) → Cycle → Cycle
set_entry_cycle now hour starts f c = record c {
  files =
      modify hour (λ e. record (f e) { updated_at = now.utc_now })
        (insert_or_ignore hour (new_entry prefetch) c.files);
  updated_at = now.utc_now;
  active_file =
      if starts then some hour else if is_active hour c.active_file then none else c.active_file;
}

unfoldable pub set_entry : Clock → String → ℕ → Bool → (Entry → Entry) → Pool → Pool
set_entry now cycle hour starts f q =
    modify_cycle now cycle (set_entry_cycle now hour starts f)
      (record q { cycles = insert_or_ignore cycle new_cycle q.cycles })

-- `_mark_publication`
unfoldable pub mark_publication : Clock → String → String → ℕ → Option String → Pool → Pool
mark_publication now cycle status retry_at error q =
    modify_cycle now cycle
      (λ c. record c {
        publication = status;
        publish_retry_at = retry_at;
        publication_error = error;
        updated_at = now.utc_now;
      })
      (record q { cycles = insert_or_ignore cycle new_cycle q.cycles })

-- `_set_wait`
unfoldable pub set_wait : Clock → String → String → Pool → Pool
set_wait now cycle reason q = elim (find cycle q.cycles) [
  | none ↦ q
  | some c ↦
      modify_cycle now cycle
        (λ d. record d { wait_code = reason; wait_observed_at = now.epoch_now }) q
]

-- the entry in `state["cycles"][cycle]["files"][key]`; none is the `KeyError`
unfoldable pub entry_at : String → ℕ → Pool → Option Entry
entry_at cycle hour q = elim (find cycle q.cycles) [ none ↦ none | some c ↦ find hour c.files ]

-- what both critical sections of `_download_one_locked` do to their cycle
unfoldable pub transfer_cycle : Clock → ℕ → Option ℕ → (Entry → Entry) → Cycle → Cycle
transfer_cycle now hour active f c = record c {
  files = modify hour f c.files;
  active_file = active;
  updated_at = now.utc_now;
}

abbrev pub started : Clock → ℕ → ℕ → Entry → Entry
started now hour before e = record e {
  status = downloading;
  attempts = e.attempts + 1;
  bytes = before;
  current_file = some hour;
  retry_at = 0;
  error = none;
  updated_at = now.utc_now;
}

-- up to the call of curl: the number of the attempt, and the new state
unfoldable pub begin_download : Clock → String → ℕ → ℕ → Pool → Option (ℕ × Pool)
begin_download now cycle hour before q = elim (entry_at cycle hour q) [
  | none ↦ none
  | some e ↦ some (
    e.attempts + 1,
    modify_cycle now cycle (transfer_cycle now hour (some hour) (started now hour before)) q,
  )
]

-- What curl leaves behind: its exit code (none if it could not be run), the content of the partial
-- file, the last HTTP status, the text of the OSError or of stderr (`HTTP ...` if that is empty)
-- cut to its last 240 characters, the measured rate, and the `Retry-After` header.
pub record Reply : Type 0 where
  pub returncode : Option ℕ
  pub part : Option (List ℕ)
  pub header_status : ℕ
  pub text : String
  pub speed : ℕ
  pub wait : RetryAfter

abbrev pub exited_well : Option ℕ → Bool
exited_well (some zero) = true
exited_well _ = false

unfoldable pub reply_status : Reply → ℕ
reply_status r = elim r.returncode [ none ↦ 0 | some n ↦ r.header_status ]

unfoldable pub reply_error : Reply → String
reply_error r =
    if exited_well r.returncode then "downloaded file failed GRIB integrity validation" else r.text

abbrev pub part_size : Option (List ℕ) → ℕ
part_size none = 0
part_size (some b) = length b

-- `after`: a partial file that the server cannot append to is set aside
unfoldable pub bytes_after : ℕ → Reply → ℕ
bytes_after before r =
    if not (nat_eq before 0)
      && (nat_eq (reply_status r) 416
          || contains_text (lower (codes (reply_error r))) (codes "range"))
    then 0
    else part_size r.part

unfoldable pub no_progress : ℕ → Reply → Entry → ℕ
no_progress before r e =
    e.no_progress_attempts + (if leb (bytes_after before r) before then 1 else 0)

-- `terminal`
unfoldable pub is_terminal : Args → ℕ → ℕ → Reply → Entry → Bool
is_terminal args before attempts r e =
    let c = classify_error (reply_status r) (reply_error r) in
    not (c.1) && (leb 400 (reply_status r) || not (c.0 == "unknown"))
    || leb args.retry_max_attempts attempts
    || leb args.retry_max_attempts (no_progress before r e)

abbrev pub stopped : Args → ℕ → Bool → Entry → Entry
stopped args now true e = record e {
  status = retry_wait;
  retry_at = 0;
  retryable = true;
  terminal_retry_at = now + args.retry_max_seconds;
}
stopped args now false e = record e {
  status = failed;
  retry_at = 0;
  retryable = false;
  terminal_retry_at = 0;
}

abbrev pub delayed : Args → ℕ → ℕ → Reply → Entry → Entry
delayed args now attempts r e = record e {
  status = if nat_eq (reply_status r) 429 then rate_limited else queued;
  retry_at = now + retry_after r.wait attempts args.retry_max_seconds;
}

-- the `values` of every failure
abbrev pub noted : ℕ → ℕ → Reply → Entry → Entry
noted now before r e = record e {
  bytes = bytes_after before r;
  download_rate_bps = r.speed;
  no_progress_attempts = no_progress before r e;
  error = some (reply_error r);
  http_status = reply_status r;
  failure_class = (classify_error (reply_status r) (reply_error r)).0;
  failed_at = now;
}

-- `entry.update(values)` after a failure
unfoldable pub after_failure : Args → ℕ → ℕ → ℕ → Reply → Entry → Entry
after_failure args now before attempts r e =
    if is_terminal args before attempts r e
    then stopped args now ((classify_error (reply_status r) (reply_error r)).1)
        (noted now before r e)
    else delayed args now attempts r (noted now before r e)

-- the file is on the disk before the download begins
abbrev pub already_there : ℕ → Entry → Entry
already_there size e = record e {
  status = ready;
  bytes = size;
  retry_at = 0;
  failure_class = "";
  failed_at = 0;
  retryable = false;
  terminal_retry_at = 0;
  error = none;
}

abbrev pub completed : (List ℕ → String) → List ℕ → ℕ → Entry → Entry
completed digest b speed e = record e {
  status = ready;
  bytes = length b;
  sha256 = digest b;
  download_rate_bps = speed;
  retry_at = 0;
  no_progress_attempts = 0;
  error = none;
  failure_class = "";
  failed_at = 0;
  retryable = false;
  terminal_retry_at = 0;
}

unfoldable pub fail_download : Args → Clock → String → ℕ → ℕ → ℕ → Reply → Pool → Option Pool
fail_download args now cycle hour before attempts r q = elim (entry_at cycle hour q) [
  | none ↦ none
  | some e ↦ some (
      modify_cycle now cycle
        (transfer_cycle now hour none (after_failure args now.epoch_now before attempts r)) q)
]

-- from the end of curl on
unfoldable pub end_download :
    Args → (List ℕ → String) → Clock → String → ℕ → ℕ → ℕ → Reply → Pool → Option Pool
end_download args digest now cycle hour before attempts r q =
    let failure = fail_download args now cycle hour before attempts r q in
    elim r.part [
      | none ↦ failure
      | some b ↦
          if exited_well r.returncode && grib_bytes args.min_bytes b
          then some (set_entry now cycle hour false (completed digest b r.speed) q)
          else failure
    ]

-- the loop body of `recover_interrupted_downloads`
unfoldable pub interrupted : Clock → Entry → Entry
interrupted now e =
    if is_downloading e.status
    then record e {
      status = queued;
      retry_at = 0;
      current_file = none;
      error = some "worker restarted before download completion";
      failure_class = "worker_interrupted";
      updated_at = now.utc_now;
    }
    else e

unfoldable pub has_download : Cycle → Bool
has_download c = any_row (λ e. is_downloading e.status) c.files

unfoldable pub recover_cycle : Clock → Cycle → Cycle
recover_cycle now c =
    if has_download c
    then record c {
      files = map_rows (interrupted now) c.files;
      active_file = none;
      updated_at = now.utc_now;
    }
    else c

-- `recover_interrupted_downloads`
unfoldable pub recover_interrupted_downloads : Clock → Pool → Pool
recover_interrupted_downloads now q =
    if any_row has_download q.cycles
    then record q { cycles = map_rows (recover_cycle now) q.cycles; updated_at = now.utc_now }
    else q
