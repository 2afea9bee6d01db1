-- ===== src/Store/Tests.antt =====
-- Runs of the store's methods, and the theorems at concrete inputs.
mod Plans
mod Rows
use backend_wrf.Base.{none, some, [], ◌∷◌, false, true, String}
use backend_wrf.Json.{Dict, Json, num, str, null, field, empty}
use backend_wrf.Store.{Store, Task, DeletionPlan}

abbrev pub no_rows : Store
no_rows = record {
  tasks = [];
  attempts = [];
  incidents = [];
  diagnoses = [];
  recovery_plans = [];
  metadata = [];
  deletion_plans = [];
  tombstones = [];
  submissions = [];
  policy = none;
  operations = [];
  cleanup_plans = [];
}

-- A task that has ended.
abbrev pub ended_task : Task
ended_task = record {
  owner_sub = "ana";
  status = "failed";
  stage = "wrf";
  progress = 40;
  request = null;
  runtime = empty;
  result = none;
  failure = none;
  error = none;
  attempt_no = 2;
  created_at = "2026-01-01";
  updated_at = "2026-01-02";
}
