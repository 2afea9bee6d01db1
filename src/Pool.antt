-- ===== src/Pool.antt =====
-- scripts/forcing_pool_queue.py: the state of the download queue of one provider. Each constant that
-- the queue writes as a status or a priority is a constructor. A file stands under its forecast
-- hour, where the program has the key `f"{hour:03d}"` and, as `active_file`, `file_name(hour)`,
-- which both differ for different hours. A field that an entry lacks has the value that
-- `entry.get(...)` and `... or 0` give it. `state_lock` is held by every operation from its read of
-- the state to its write, so an operation is one function of the state; a blocking lock is never
-- `None`.
pub mod Enqueue
pub mod References
pub mod Errors
pub mod Download
pub mod Pick
pub mod Held
pub mod Cycles
pub mod Keeps
pub mod Steps
pub mod Outcome
pub mod Restart
pub mod Order
pub mod Due
pub mod Next
pub mod Tests
use backend_wrf.Base.{
  ℕ, suc, zero, ◌+◌, ◌-◌, ◌*◌, String, ◌==◌, string_eq, nat_eq, leb, Bool, true, false, ◌&&◌, any,
  all, Option, none, some, List, [], ◌∷◌, length, if◌then◌else◌,
}
use backend_wrf.Text.{codes, is_digit, is_hex, starts_with}
use backend_wrf.Table.{Table}

pub data Source : Type 0 where
  gfs ecmwf : Source

pub data Status : Type 0 where
  queued downloading ready failed retry_wait rate_limited cancelled obsolete : Status

pub data Priority : Type 0 where
  task prefetch : Priority

pub record Entry : Type 0 where
  pub status : Status
  pub priority : Priority
  pub attempts : ℕ
  pub no_progress_attempts : ℕ
  pub references : List String
  pub legacy_task_reference : Bool
  pub prefetch_reference : Bool
  pub bytes : ℕ
  pub sha256 : String
  pub download_rate_bps : ℕ
  pub http_status : ℕ
  pub retry_at : ℕ
  pub terminal_retry_at : ℕ
  pub failed_at : ℕ
  pub retryable : Bool
  pub failure_class : String
  pub error : Option String
  pub current_file : Option ℕ
  pub ignored_reason : String
  pub updated_at : String

pub record Cycle : Type 0 where
  pub files : Table ℕ Entry
  pub publication : String
  pub publish_retry_at : ℕ
  pub publication_error : Option String
  pub active_file : Option ℕ
  pub wait_code : String
  pub wait_observed_at : ℕ
  pub updated_at : String

pub record Pool : Type 0 where
  pub cycles : Table String Cycle
  pub updated_at : String

-- `utc_now()` and `epoch_now()`, which the caller reads once for an operation
pub record Clock : Type 0 where
  pub utc_now : String
  pub epoch_now : ℕ

-- the arguments of the program that the operations read
pub record Args : Type 0 where
  pub source : Source
  pub min_bytes : ℕ
  pub retry_max_attempts : ℕ
  pub retry_max_seconds : ℕ
  pub publish_probe_seconds : ℕ

-- the bytes of the file of a cycle and an hour, if it can be read
abbrev pub Disk : Type 0
Disk = String → ℕ → Option (List ℕ)

-- `{"status": "queued", "priority": priority, "attempts": 0, "no_progress_attempts": 0}`
abbrev pub new_entry : Priority → Entry
new_entry p = record {
  status = queued;
  priority = p;
  attempts = 0;
  no_progress_attempts = 0;
  references = [];
  legacy_task_reference = false;
  prefetch_reference = false;
  bytes = 0;
  sha256 = "";
  download_rate_bps = 0;
  http_status = 0;
  retry_at = 0;
  terminal_retry_at = 0;
  failed_at = 0;
  retryable = false;
  failure_class = "";
  error = none;
  current_file = none;
  ignored_reason = "";
  updated_at = "";
}

-- `{"files": {}, "publication": "unknown"}`
abbrev pub new_cycle : Cycle
new_cycle = record {
  files = [];
  publication = "unknown";
  publish_retry_at = 0;
  publication_error = none;
  active_file = none;
  wait_code = "";
  wait_observed_at = 0;
  updated_at = "";
}

-- `CYCLE_RE.fullmatch(value)`, its digits those of ASCII
unfoldable pub is_daily : List ℕ → Bool
is_daily (a ∷ b ∷ c ∷ d ∷ e ∷ f ∷ g ∷ h ∷ i ∷ j ∷ []) =
    all is_digit (a ∷ b ∷ c ∷ d ∷ e ∷ f ∷ g ∷ h ∷ []) && nat_eq i b'0' && nat_eq j b'0'
is_daily _ = false

unfoldable pub safe_cycle : String → Bool
safe_cycle c = is_daily (codes c)

-- `re.fullmatch(r"forcing_[a-f0-9]{32}", reference)`
unfoldable pub safe_reference : String → Bool
safe_reference r =
    starts_with (codes r) (codes "forcing_")
    && nat_eq (length (codes r)) 40
    && all is_hex (from 8 (codes r))
  where
    from : ℕ → List ℕ → List ℕ
    from zero s = s
    from (suc n) [] = []
    from (suc n) (c ∷ s) = from n s

-- `range(first, first + step * count, step)`
unfoldable pub hours_from : ℕ → ℕ → ℕ → List ℕ
hours_from step zero first = []
hours_from step (suc n) first = first ∷ hours_from step n (first + step)

unfoldable pub expected_hours : Source → List ℕ
expected_hours gfs = hours_from 1 73 0
expected_hours ecmwf = hours_from 3 25 0

unfoldable pub is_expected : Source → ℕ → Bool
is_expected source hour = any (nat_eq hour) (expected_hours source)

-- `valid` of the bytes of a file: at least `min_bytes`, `GRIB` in front and `7777` at the end
unfoldable pub grib_bytes : ℕ → List ℕ → Bool
grib_bytes min b = leb min (length b) && starts_with b (codes "GRIB") && ends_with b (codes "7777")
  where
    reversed : List ℕ → List ℕ → List ℕ
    reversed [] done = done
    reversed (c ∷ s) done = reversed s (c ∷ done)

    ends_with : List ℕ → List ℕ → Bool
    ends_with s p = starts_with (reversed s []) (reversed p [])

unfoldable pub valid : Args → Disk → String → ℕ → Bool
valid args disk cycle hour = elim (disk cycle hour) [
  | none ↦ false
  | some b ↦ grib_bytes args.min_bytes b
]

-- the content of the file of a cycle and an hour, if the file is valid
unfoldable pub valid_file : Args → Disk → String → ℕ → Option (List ℕ)
valid_file args disk cycle hour = if valid args disk cycle hour then disk cycle hour else none
