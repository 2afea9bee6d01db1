-- ===== src/Forcing/Cancel.antt =====
-- forcing_policy.py: `cancel_download`.
use backend_wrf.Base.{
  ◌≡◌, refl, String, ◌==◌, string_eq, eq_iff, Bool, true, false, not, ◌||◌, Option, Option-cases,
  inl, inr, none, some, List, [], ◌∷◌, arith, if◌then◌else◌,
}
use backend_wrf.Json.{Dict, str, field, empty}
use backend_wrf.Table.Laws.{find-modify}
use backend_wrf.Store.{Store, Operation, Result, ok, err, value_error, type_error}
use backend_wrf.Store.Operations.{forcing_operation, update_forcing_operation, advanced}
use backend_wrf.Forcing.{Call, release_reference}

abbrev pub reconciling : String
reconciling = "下载提交仍在对账，暂不能取消；请稍后核验"

-- `{"accepted","unknown","cancel_pending","cancel_unknown"}`
unfoldable pub can_cancel : String → Bool
can_cancel status =
    status == "accepted"
    || status == "unknown"
    || status == "cancel_pending"
    || status == "cancel_unknown"

-- the block under the guard: the operation as it was, and whether it is to be cancelled
unfoldable pub begin_cancel : String → String → Store → Result Store (Operation × Bool)
begin_cancel now id s = elim (forcing_operation id s) [
  | none ↦ err type_error
  | some o ↦
      if o.status == "submitting"
      then err (value_error reconciling)
      else if not (can_cancel o.status)
      then ok (o, false) s
      else elim (update_forcing_operation now id "cancel_pending" empty s) [
        | err e ↦ err e
        | ok _ t ↦ ok (o, true) t
      ]
]

abbrev pub release_doubt : Dict
release_doubt = field "message" (str "引用释放结果待核验，资料继续受保护") empty

abbrev pub released : Dict
released = field "message" (str "已释放本请求引用；其他任务、预取及已在途下载不受影响") empty

-- after the client's reply: true if it returned, false if it raised
unfoldable pub end_cancel : String → String → Bool → Store → Result Store (Unit {0})
end_cancel now id true s = update_forcing_operation now id "cancelled" released s
end_cancel now id false s = update_forcing_operation now id "cancel_unknown" release_doubt s

-- `cancel_download`: the operation that it returns, and its calls of the client
unfoldable pub cancel_download :
    String → String → Bool → (Store → Store) → Store → Result Store (Option Operation × List Call)
cancel_download now id reply world s = elim (begin_cancel now id s) [
  | err e ↦ err e
  | ok (o, false) t ↦ ok (some o, []) t
  | ok (o, true) t ↦ elim (end_cancel now id reply (world t)) [
    | err e ↦ err e
    | ok _ u ↦ ok (forcing_operation id u, release_reference o.source o.cycle id ∷ []) u
  ]
]

-- What a cancellation that did not raise has done, `s` being the store at its start.
pub data CancelOutcome (id : String) (reply : Bool) (s t : Store) (o : Option Operation)
    (calls : List Call) : Type 0 where
  nothing :
      (before : Operation)
      → forcing_operation id s ≡ some before
      → can_cancel before.status ≡ false
      → t ≡ s
      → o ≡ some before
      → calls ≡ []
      → CancelOutcome id reply s t o calls
  sent :
      (before after : Operation)
      → forcing_operation id s ≡ some before
      → can_cancel before.status ≡ true
      → forcing_operation id t ≡ some after
      → after.status ≡ (if reply then "cancelled" else "cancel_unknown")
      → o ≡ some after
      → calls ≡ release_reference before.source before.cycle id ∷ []
      → CancelOutcome id reply s t o calls

end_cancel-status :
    (now id : String) (reply : Bool) (u t : Store)
    → end_cancel now id reply u ≡ ok tt t
    → (after : Operation) × (forcing_operation id t ≡ some after)
      × (after.status ≡ (if reply then "cancelled" else "cancel_unknown"))
unfolding end_cancel update_forcing_operation forcing_operation
end_cancel-status now id true u t h = elim (Option-cases (forcing_operation id u)) [
  | inl absent ↦ absurd (ground arith)
  | inr (o, there) ↦ (
    advanced now "cancelled" released o,
    ground
        (arith, find-modify id id (advanced now "cancelled" released) u.operations, eq_iff id id),
    refl,
  )
]
end_cancel-status now id false u t h = elim (Option-cases (forcing_operation id u)) [
  | inl absent ↦ absurd (ground arith)
  | inr (o, there) ↦ (
    advanced now "cancel_unknown" release_doubt o,
    ground (
      arith,
      find-modify id id (advanced now "cancel_unknown" release_doubt) u.operations,
      eq_iff id id,
    ),
    refl,
  )
]

begin_cancel_lem :
    (now id : String) (s t : Store) {o : Operation} {b : Bool}
    → begin_cancel now id s ≡ ok (o, b) t
    → (forcing_operation id s ≡ some o) × (can_cancel o.status ≡ b) × (b ≡ false → t ≡ s)
unfolding begin_cancel update_forcing_operation
begin_cancel_lem now id s t {o} {b} h = (ground arith, ground arith, λ n. ground arith)

-- A cancellation asks the client to release the reference exactly if the operation was accepted,
-- unknown, cancel_pending or cancel_unknown; otherwise it changes nothing. The operation ends as
-- cancelled only if the client confirmed the release, and otherwise as cancel_unknown.
pub cancel_download-CancelOutcome :
    (now id : String) (reply : Bool) (world : Store → Store) (s t : Store) {o : Option Operation}
    {calls : List Call}
    → cancel_download now id reply world s ≡ ok (o, calls) t
    → CancelOutcome id reply s t o calls
unfolding cancel_download
cancel_download-CancelOutcome now id reply world s t {o} {calls} h =
    start (begin_cancel now id s) refl
  where
    finish :
        (before : Operation) (u : Store)
        → begin_cancel now id s ≡ ok (before, true) u
        → (r : Result Store (Unit {0})) → end_cancel now id reply (world u) ≡ r
        → CancelOutcome id reply s t o calls
    finish before u p (err e) k = absurd (ground arith)
    finish before u p (ok tt v) k =
        let (found, can, _) = begin_cancel_lem now id s u p in
        let (after, there, status) = end_cancel-status now id reply (world u) v k in
        sent before after found can (ground arith) status (ground arith) (ground arith)

    start :
        (r : Result Store (Operation × Bool))
        → begin_cancel now id s ≡ r
        → CancelOutcome id reply s t o calls
    start (err e) p = absurd (ground arith)
    start (ok (before, false) u) p =
        let (found, can, same) = begin_cancel_lem now id s u p in
        let kept : u ≡ s = same refl in
        nothing before found can (ground arith) (ground arith) (ground arith)
    start (ok (before, true) u) p = finish before u p (end_cancel now id reply (world u)) refl
