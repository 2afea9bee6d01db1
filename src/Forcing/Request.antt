-- ===== src/Forcing/Request.antt =====
-- forcing_policy.py: `request_download`.
pub mod Range
pub mod Kept
pub mod Repeat
use backend_wrf.Base.{
  ℕ, suc, zero, ◌+◌, ◌-◌, ◌*◌, ◌/◌, ◌%◌, ◌≤◌, ◌≡◌, ◌≢◌, refl, String, ◌==◌, string_eq, ℕ_eq, eq_iff,
  nat_eq_iff, ltb, Bool, true, false, not, ◌&&◌, ◌||◌, Option, none, some, List, [], ◌∷◌, all,
  length, leb, arith, if◌then◌else◌,
}
use Prim.Native.String.{◌++◌ as ◌<>◌}
use backend_wrf.Json.{Json, Items, Dict, num, str, arr, nil, cons, field, empty}
use backend_wrf.Text.{codes, is_key_char}
use backend_wrf.Store.{Store, Operation, Error, Result, ok, err, value_error}
use backend_wrf.Store.Operations.{
  forcing_operation, record_forcing_operation, update_forcing_operation,
}
use backend_wrf.Forcing.{is_cycle, Call, trigger_download}

-- The arguments. An hour that is no `int`, or a negative one, is `none`: both are refused alike.
pub record Request : Type 0 where
  pub actor : String
  pub source : String
  pub cycle : String
  pub first : Option ℕ
  pub last : Option ℕ
  pub key : Option String

unfoldable pub step_of : String → ℕ
step_of source = if source == "gfs" then 1 else 3

-- `list(range(first, last + 1, step))`, the number of rounds first
unfoldable pub count_up : ℕ → ℕ → ℕ → List ℕ
count_up zero from step = []
count_up (suc n) from step = from ∷ count_up n (from + step) step

unfoldable pub hours_of : ℕ → ℕ → ℕ → List ℕ
hours_of first last step = count_up ((last - first) / step + 1) first step

unfoldable pub json_hours : List ℕ → Items
json_hours [] = nil
json_hours (h ∷ hs) = cons (num h) (json_hours hs)

abbrev pub bad_source : String
bad_source = "仅支持 GFS/ECMWF 的 00 UTC 资料周期"

abbrev pub bad_range : String
bad_range = "时次范围必须位于 f000–f072"

abbrev pub bad_step : String
bad_step = "ECMWF 时次必须按 3 小时间隔对齐"

abbrev pub bad_key : String
bad_key = "下载幂等键格式无效"

abbrev pub other_range : String
other_range = "同一下载幂等键绑定的资料范围不同"

-- `re.fullmatch(r"[A-Za-z0-9._:-]{1,128}", key)`
unfoldable pub is_key : String → Bool
is_key k = leb 1 (length (codes k)) && leb (length (codes k)) 128 && all is_key_char (codes k)

unfoldable pub key_ok : Option String → Bool
key_ok none = true
key_ok (some k) = is_key k

-- the tests at the head of `request_download`: an error message, or the hours to download
unfoldable pub check_request : Request → Option ℕ → Option ℕ → Result (Unit {0}) (ℕ × ℕ)
check_request q (some first) (some last) =
    if not ((q.source == "gfs" || q.source == "ecmwf") && is_cycle q.cycle)
    then err (value_error bad_source)
    else if ltb 72 last || ltb last first
    then err (value_error bad_range)
    else if not (first % step_of q.source == 0) || not (last % step_of q.source == 0)
    then err (value_error bad_step)
    else if not (key_ok q.key)
    then err (value_error bad_key)
    else ok (first, last) tt
check_request q first last =
    if not ((q.source == "gfs" || q.source == "ecmwf") && is_cycle q.cycle)
    then err (value_error bad_source)
    else err (value_error bad_range)

-- `[before[k] for k in (...)] == [actor, source, cycle, first, last]`
unfoldable pub same_range : Request → ℕ → ℕ → Operation → Bool
same_range q first last o =
    o.owner_sub == q.actor
    && o.source == q.source
    && o.cycle == q.cycle
    && o.start_hour == first
    && o.end_hour == last

unfoldable pub new_operation : String → Request → ℕ → ℕ → Operation
new_operation now q first last = record {
  owner_sub = q.actor;
  source = q.source;
  cycle = q.cycle;
  start_hour = first;
  end_hour = last;
  status = "submitting";
  created_at = now;
  updated_at = now;
  detail = field "hours" (arr (json_hours (hours_of first last (step_of q.source)))) empty;
}

-- the block under the guard: the operation of that identity, if it is there, or none once the new
-- one is recorded
unfoldable pub reserve_download :
    String → String → Request → ℕ → ℕ → Store → Result Store (Option Operation)
reserve_download now id q first last s = elim (forcing_operation id s) [
  | some before ↦
      if same_range q first last before then ok (some before) s else err (value_error other_range)
  | none ↦ elim (record_forcing_operation id (new_operation now q first last) s) [
    | err e ↦ err e
    | ok _ t ↦ ok none t
  ]
]

abbrev pub doubt : Dict
doubt = field "message" (str "下载提交结果不明，请只读核验资料池和远端队列") empty

-- after the client's reply
unfoldable pub settle_download : String → String → Option Dict → Store → Result Store (Unit {0})
settle_download now id none s = update_forcing_operation now id "unknown" doubt s
settle_download now id (some reply) s = update_forcing_operation now id "accepted" reply s

-- the call of the client and what follows it
unfoldable pub send_download :
    String
    → String
    → Request
    → ℕ
    → ℕ
    → Option Dict
    → (Store → Store)
    → Store
    → Result Store (Option Operation × List Call)
send_download now id q first last reply world s =
    let call = trigger_download q.source q.cycle last (hours_of first last (step_of q.source)) id in
    elim (settle_download now id reply (world s)) [
      | err e ↦ err e
      | ok _ t ↦ ok (forcing_operation id t, call ∷ []) t
    ]

-- `uuid5 actor key` is the hexadecimal form of the UUID of the JSON text of both, `fresh` that of
-- `uuid4()`.
module _ (uuid5 : String → String → String) where
  unfoldable pub identity : Request → String → String
  identity q fresh = elim q.key [
    | none ↦ "forcing_" <> fresh
    | some k ↦ "forcing_" <> uuid5 q.actor k
  ]

  -- `request_download`: the operation that it returns, and its calls of the client
  unfoldable pub request_download :
      String
      → String
      → Request
      → Option Dict
      → (Store → Store)
      → Store
      → Result Store (Option Operation × List Call)
  request_download now fresh q reply world s = elim (check_request q q.first q.last) [
    | err e ↦ err e
    | ok (first, last) _ ↦ elim (reserve_download now (identity q fresh) q first last s) [
      | err e ↦ err e
      | ok (some before) t ↦ ok (some before, []) t
      | ok none t ↦ send_download now (identity q fresh) q first last reply world t
    ]
  ]
