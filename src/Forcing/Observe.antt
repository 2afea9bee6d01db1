-- ===== src/Forcing/Observe.antt =====
-- forcing_policy.py: `observe_download`.
use backend_wrf.Base.{
  ◌≡◌, ◌≢◌, String, ◌==◌, string_eq, eq_iff, Bool, true, false, not, ◌||◌, Option, Option-cases,
  inl, inr, none, some, arith, if◌then◌else◌,
}
use backend_wrf.Json.{Json, Dict, str, arr, nil, field, empty, get, set, update, truthy?}
use backend_wrf.Table.Laws.{find-modify}
use backend_wrf.Store.{Store, Operation, Result, ok, err, type_error}
use backend_wrf.Store.Operations.{forcing_operation, update_forcing_operation, advanced}

-- `{**operation, "observation": ...}`; none where no observation is added
pub record Observed : Type 0 where
  pub operation : Operation
  pub observation : Option Dict

-- The replies of the client: the files (`HpcError` is none), and then the progress of the queue.
pub record Replies : Type 0 where
  pub files : Option Dict
  pub progress : Option Dict

unfoldable pub items_or_nil : Option Json → Json
items_or_nil none = arr nil
items_or_nil (some v) = v

abbrev pub untracked : String
untracked = "部分时次没有队列记录；请核验后补缺，不会自动重放请求"

abbrev pub unverified : String → Dict
unverified now =
    field "status" (str "unknown")
      (field "message" (str "暂不可核验；不会重新提交下载") (field "checked_at" (str now) empty))

-- `files.get("complete")`, with no files after an `HpcError`
unfoldable pub is_complete : Replies → Bool
is_complete r = elim r.files [ none ↦ false | some f ↦ truthy? (get "complete" f) ]

-- the dict `observed` before the second guard
unfoldable pub observed : String → Replies → Dict
observed now r = elim r.files [
  | none ↦ unverified now
  | some f ↦
      let seen : Dict = field "valid_hours" (items_or_nil (get "valid_hours" f)) (
        field "missing_hours" (items_or_nil (get "missing_hours" f))
          (field "checked_at" (str now) empty)) in
      if truthy? (get "complete" f) then seen else elim r.progress [
        | none ↦ unverified now
        | some p ↦
            let both : Dict = update seen p in
            if truthy? (get "untracked_hours" both)
            then set "message" (str untracked) both
            else both
      ]
]

unfoldable pub is_open : String → Bool
is_open status = status == "accepted" || status == "unknown"

-- the block under the guard, on the store as the other threads left it
unfoldable pub record_observation : String → String → Replies → Store → Result Store Observed
record_observation now id r s = elim (forcing_operation id s) [
  | none ↦ err type_error
  | some o ↦
      if not (is_open o.status)
      then ok (record { operation = o; observation = none }) s
      else if is_complete r
      then (let seen = observed now r in
          let detail : Dict =
            field "valid_hours" (items_or_nil (get "valid_hours" seen))
              (field "missing_hours" (arr nil) empty) in
          elim (update_forcing_operation now id "ready" detail s) [
            | err e ↦ err e
            | ok _ t ↦ elim (forcing_operation id t) [
              | none ↦ err type_error
              | some o' ↦
                  ok
                    (record {
                      operation = o';
                      observation = some (set "status" (str "ready") seen);
                    })
                    t
            ]
          ])
      else ok (record { operation = o; observation = some (observed now r) }) s
]

-- the answer for an operation that is ready
unfoldable pub ready_observation : Operation → Dict
ready_observation o = field "status" (str "ready") (
    field "valid_hours" (items_or_nil (get "valid_hours" o.detail))
      (field "missing_hours" (arr nil) (field "checked_at" (str o.updated_at) empty)))

-- `observe_download` of the operation `o` that the caller has read under `id`
unfoldable pub observe_download :
    String → String → Operation → Replies → (Store → Store) → Store → Result Store Observed
observe_download now id o r world s =
    if o.status == "ready"
    then ok (record { operation = o; observation = some (ready_observation o) }) s
    else if not (is_open o.status)
    then ok (record { operation = o; observation = none }) s
    else record_observation now id r (world s)

-- What an observation of an open operation has done to the store `u` that it finds at the end.
pub record ObservedOn (id : String) (r : Replies) (u t : Store) (x : Observed) : Type 0 where
  pub current : Operation
  pub found : forcing_operation id u ≡ some current
  pub closed_kept : is_open current.status ≡ false → (t ≡ u) × (x.operation ≡ current)
  pub incomplete_kept : is_complete r ≡ false → (t ≡ u) × (x.operation ≡ current)
  pub completed :
      is_open current.status ≡ true
      → is_complete r ≡ true
      → (forcing_operation id t ≡ some x.operation) × (x.operation.status ≡ "ready")
  pub others_kept : (j : String) → id ≢ j → forcing_operation j t ≡ forcing_operation j u

record_observation-ObservedOn :
    (now id : String) (r : Replies) (u t : Store) {x : Observed}
    → record_observation now id r u ≡ ok x t
    → ObservedOn id r u t x
unfolding record_observation forcing_operation update_forcing_operation
record_observation-ObservedOn now id r u t {x} h = elim (Option-cases (forcing_operation id u)) [
  | inl absent ↦ absurd (ground arith)
  | inr (o, there) ↦
      let d : Dict =
        field "valid_hours" (items_or_nil (get "valid_hours" (observed now r)))
          (field "missing_hours" (arr nil) empty) in
      let m = find-modify id id (advanced now "ready" d) u.operations in
      record {
        current = o;
        found = there;
        closed_kept = λ c. (ground arith, ground arith);
        incomplete_kept = λ c. (ground arith, ground arith);
        completed = λ a b. (ground (arith, m, eq_iff id id), ground (arith, m, eq_iff id id));
        others_kept = λ j n.
            ground (arith, find-modify id j (advanced now "ready" d) u.operations, eq_iff id j);
      }
]

open_not_ready :
    (now id : String) (o : Operation) (r : Replies) (world : Store → Store) (s t : Store)
    {x : Observed}
    → is_open o.status ≡ true
    → observe_download now id o r world s ≡ ok x t
    → record_observation now id r (world s) ≡ ok x t
unfolding observe_download is_open
open_not_ready now id o r world s t {x} open_ h = ground (
  arith,
  eq_iff o.status "ready",
  eq_iff o.status "accepted",
  eq_iff o.status "unknown",
  eq_iff "ready" "accepted",
  eq_iff "ready" "unknown",
)

-- An observation of an open operation, whatever other threads do while the client is asked, writes
-- to the store that they leave only if the operation is still open there and the files are
-- complete: the operation is then ready. A cancellation that ran meanwhile is kept and returned,
-- and no other operation changes.
pub observe_download-ObservedOn :
    (now id : String) (o : Operation) (r : Replies) (world : Store → Store) (s t : Store)
    {x : Observed}
    → is_open o.status ≡ true
    → observe_download now id o r world s ≡ ok x t
    → ObservedOn id r (world s) t x
observe_download-ObservedOn now id o r world s t {x} open_ h =
    record_observation-ObservedOn now id r (world s) t (open_not_ready now id o r world s t open_ h)
