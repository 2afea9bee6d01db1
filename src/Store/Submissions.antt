-- ===== src/Store/Submissions.antt =====
-- database.py: the idempotency keys of submissions.
pub mod Ledger
pub mod Refines
use backend_wrf.Base.{
  ◌≡◌, String, ◌==◌, string_eq, pair_eq, eq_iff, Bool, true, false, not, inl, inr, Option,
  Option-cases, none, some, arith, if◌then◌else◌,
}
use backend_wrf.Json.{Json}
use backend_wrf.Table.{Table, find, modify, insert_or_ignore, any_row}
use backend_wrf.Store.{Store, Submission, Result, ok, err, value_error, type_error}

abbrev pub conflict : String
conflict = "同一幂等键不能提交不同配置"

-- `INSERT OR IGNORE`: also ignored when another row has the task id, which is UNIQUE
unfoldable pub offer :
    String × String
    → Submission
    → Table (String × String) Submission
    → Table (String × String) Submission
offer k r t = if any_row (λ x. x.task_id == r.task_id) t then t else insert_or_ignore k r t

-- the read back, and the comparison of the two requests
unfoldable pub compare_request : String → Option Submission → Store → Result Store Submission
compare_request canonical none s = err type_error
compare_request canonical (some r) s =
    if not (r.request_json == canonical) then err (value_error conflict) else ok r s

-- `canonical` is `json.dumps(request, sort_keys=True, ...)`.
module _ (canonical : Json → String) where
  -- `reserve_submission`
  unfoldable pub reserve_submission :
      String → String → Json → String → Store → Result Store Submission
  reserve_submission owner key request task_id s =
      let row : Submission = record {
        request_json = canonical request;
        task_id = task_id;
        accepted = false;
      } in
      let s' : Store = record s { submissions = offer (owner, key) row s.submissions } in
      compare_request (canonical request) (find (owner, key) s'.submissions) s'

abbrev pub accept : Submission → Submission
accept r = record r { accepted = true }

-- `accept_submission`
unfoldable pub accept_submission : String → String → Store → Store
accept_submission owner key s = record s { submissions = modify (owner, key) accept s.submissions }

-- `get_submission`
unfoldable pub get_submission : String → String → Store → Option (String × Bool)
get_submission owner key s = elim (find (owner, key) s.submissions) [
  | none ↦ none
  | some r ↦ some (r.task_id, r.accepted)
]

pub offer_there :
    (k : String × String) (r v : Submission) (t : Table (String × String) Submission)
    → find k t ≡ some v
    → offer k r t ≡ t
unfolding offer insert_or_ignore
offer_there k r v t h = ground arith

-- What a reservation that succeeds returns is the stored row, with the text of the request.
pub reserve_submission_row :
    (canonical : Json → String) (owner key : String) (q : Json) (task_id : String) (s t : Store)
    {r : Submission}
    → reserve_submission canonical owner key q task_id s ≡ ok r t
    → (find (owner, key) t.submissions ≡ some r) × (r.request_json ≡ canonical q)
unfolding reserve_submission
reserve_submission_row canonical owner key q task_id s t {r} h =
    let row : Submission = record {
      request_json = canonical q;
      task_id = task_id;
      accepted = false;
    } in
    let u = offer (owner, key) row s.submissions in
    elim (Option-cases (find (owner, key) u)) [
      | inl absent ↦ absurd (unfold compare_request in ground arith)
      | inr (v, there) ↦
          unfold compare_request in
          (ground arith, ground (arith, eq_iff v.request_json (canonical q)))
    ]

-- A second reservation under a key that is reserved, whatever its task id, returns the first row
-- and changes nothing if its request has the same canonical text, and otherwise raises.
pub reserve_submission_twice :
    (canonical : Json → String) (owner key : String) (q q' : Json) (task_id task_id' : String)
    (s t : Store) {r : Submission}
    → reserve_submission canonical owner key q task_id s ≡ ok r t
    → reserve_submission canonical owner key q' task_id' t
      ≡ (if canonical q == canonical q' then ok r t else err (value_error conflict))
unfolding reserve_submission
reserve_submission_twice canonical owner key q q' task_id task_id' s t {r} h =
    let (there, same_text) = reserve_submission_row canonical owner key q task_id s t h in
    let row : Submission = record {
      request_json = canonical q';
      task_id = task_id';
      accepted = false;
    } in
    rw (offer_there (owner, key) row r t.submissions there)
      (rw there (unfold compare_request in ground (arith, same_text)))
