-- ===== src/Lib.antt =====
-- backend_wrf: the service that plans, runs and cleans up WRF weather simulations on an HPC host.
--
-- Its state is the SQLite database of `TaskStore` (database.py). Everything else reads and writes
-- that store: the operations on forcing files (forcing_policy.py), the recovery of failed tasks
-- (recovery.py), the deletion of tasks (task_deletion.py) and the task manager (task_manager.py).
--
-- Base, Base/*: shared names, Boolean tests, lists, equality of keys.
-- Text: the character tests of regular expressions and string methods.
-- Json, Json/Laws: the values of JSON columns and Python's dict operations on them.
-- Table, Table/Laws: a database table and the effects of the SQL statements that the store sends.
-- Store: database.py, one record with a field for each table. Its children follow the methods:
--   Store/Tasks: the tasks, their attempts and incidents (create, update, archive_attempt, ...);
--   Store/Recovery: save_recovery, recovery, claim_recovery, finish_recovery;
--   Store/Deletion, Store/Deletion/Purge: the plans that delete a task, and the purge;
--   Store/Submissions: the idempotency keys, with their abstract view in Ledger and Refines;
--   Store/Patch: metadata and patch_metadata;
--   Store/ForcingPolicy: forcing_policy, save_forcing_policy;
--   Store/Operations: the download operations and the references that they hold;
--   Store/Interrupted: recover_interrupted_operations.
-- Forcing: forcing_policy.py. Request (Range, Kept, Repeat), Cancel, Observe and Admin model request_download,
--   cancel_download, observe_download and policy_update.
--
-- Pool: scripts/forcing_pool_queue.py, the persistent download queue on the HPC host, which the
--   client's calls of forcing_policy.py reach. Pool/Enqueue, Pool/References, Pool/Pick and
--   Pool/Download model its operations, Pool/Errors its classes of errors; Pool/Held, Pool/Cycles,
--   Pool/Keeps and Pool/Steps are about references, Pool/Order, Pool/Due and Pool/Next about the file
--   taken next, Pool/Outcome about failures and Pool/Restart about interrupted downloads.
--
-- Domains: validate_domain_tree of schemas.py. Domains/Tree says what a nested tree is,
--   Domains/Place and Domains/Nested show that the accepted domains are one.
--
-- Manager: task_manager.py, the state in memory beside the store. Its children follow the methods:
--   Manager/Budget: mpi_budget and compute_budget of runtime_release.py;
--   Manager/Needs, Manager/Dispatch: _dispatch, which starts the worker thread of a task;
--   Manager/Cancel: _dispatch_pending, cancel and the threads that cancel and observe;
--   Manager/Worker: _run_task, _failure_info, _defer_external;
--   Manager/Remote: _merge_remote_profile, _reconcile, the launch in _execute;
--   Manager/Attempts: restart_plan, restart; Manager/Again: resume_external, retry_outputs,
--   render_partial, operations, require_operation.
--   Manager/Submit: submit, submit_idempotent; Manager/Start: start; Manager/Finish: _finalize,
--   _publish_catalog_result.
--   Manager/Confirmed: which tasks may be called cancelled, and the steps of the threads.
--
-- Queue: deletion_queue.py, the order of the deletions that task_deletion.py submits.
--
-- A method that runs in one transaction is a function on the store. What it raises rolls the
-- transaction back, so an error carries no store. Times are arguments. Replies of the HPC client are
-- arguments, and where a function waits for one outside the reference lock, a function `world` on
-- the store stands for what the other threads do meanwhile. Digests, UUIDs and the JSON printer are
-- parameters. The names in the theorems are those of the source, in snake case.
--
-- The loops are structural recursions: on rows, on JSON values and on the number of rounds of
-- `range`, which is computed from its bounds. No fuel is used.
--
-- Not modelled: SSH and file transfer (hpc.py, hpc_transport.py), processes, locks and files (the
-- rest of scripts), the prefetch of forcing and the preparation of a run (the rest of task_manager.py),
-- rendering, projections and single precision arithmetic, the HTTP routes, lock timeouts, the tables
-- of cleanup audits and retention approvals. Numbers in JSON are natural numbers.
mod Base
pub mod Json
pub mod Table
pub mod Text
pub mod Pool
pub mod Queue
pub mod Store
pub mod Domains
pub mod Forcing
pub mod Manager
