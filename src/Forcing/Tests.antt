-- ===== src/Forcing/Tests.antt =====
-- Runs of the operations on forcing files, and the theorems at concrete inputs.
use backend_wrf.Base.{
  ℕ, ◌≤◌, ◌%◌, ◌≡◌, ◌↔◌, refl, String, string_eq, ℕ_eq, true, false, none, some, List, [], ◌∷◌,
}
use backend_wrf.Json.{Dict, num, str, arr, bool, nil, cons, field, empty, get, set, update}
use backend_wrf.Table.{find, insert, modify}
use backend_wrf.Text.{is_digit, is_key_char}
use backend_wrf.Store.{Store, Operation, Policy, ok}
use backend_wrf.Store.ForcingPolicy.{save_forcing_policy, forcing_policy}
use backend_wrf.Store.Operations.{
  forcing_operation, record_forcing_operation, update_forcing_operation,
}
use backend_wrf.Forcing.{is_cycle, cycle_codes, Call, trigger_download, release_reference}
use backend_wrf.Forcing.Request.{
  Request, request_download, check_request, reserve_download, send_download, settle_download,
  identity, key_ok, is_key, step_of, count_up, hours_of, json_hours, new_operation,
}
use backend_wrf.Forcing.Request.Range.{Window, listed, request_download_call}
use backend_wrf.Forcing.Request.Kept.{KeepsRange}
use backend_wrf.Forcing.Request.Repeat.{Repeated, request_download_repeat}
use backend_wrf.Forcing.Cancel.{
  cancel_download, begin_cancel, end_cancel, can_cancel, CancelOutcome,
  cancel_download-CancelOutcome,
}
use backend_wrf.Forcing.Observe.{
  Replies, ObservedOn, observe_download, record_observation, is_open, observe_download-ObservedOn,
}
use backend_wrf.Forcing.Admin.{
  Site, SafePolicy, policy_update, check_policy, both_sources, only_sources, is_given, held_list_ok,
  count_items, distinct_cycles, has_text, policy_update-SafePolicy,
}

abbrev no_rows : Store
no_rows = record {
  tasks = [];
  attempts = [];
  incidents = [];
  diagnoses = [];
  recovery_plans = [];
  metadata = [];
  deletion_plans = [];
  tombstones = [];
  submissions = [];
  policy = none;
  operations = [];
  cleanup_plans = [];
}

abbrev uuid : String → String → String
uuid actor key = "u"

abbrev idle : Store → Store
idle s = s

abbrev ask : Request
ask = record {
  actor = "ana";
  source = "ecmwf";
  cycle = "2026010100";
  first = some 3;
  last = some 9;
  key = some "k1";
}

abbrev operation_with : String → String → Dict → Operation
operation_with status now detail = record {
  owner_sub = "ana";
  source = "ecmwf";
  cycle = "2026010100";
  start_hour = 3;
  end_hour = 9;
  status = status;
  created_at = "t0";
  updated_at = now;
  detail = detail;
}

abbrev hours_detail : Dict
hours_detail = field "hours" (arr (cons (num 3) (cons (num 6) (cons (num 9) nil)))) empty

abbrev accepted : Operation
accepted = operation_with "accepted" "t0" hours_detail

abbrev accepted_store : Store
accepted_store = record no_rows { operations = ("forcing_u", accepted) ∷ [] }

abbrev sent_call : Call
sent_call = trigger_download "ecmwf" "2026010100" 9 (3 ∷ 6 ∷ 9 ∷ []) "forcing_u"

request_sent :
    request_download uuid "t0" "x" ask (some empty) idle no_rows
    ≡ ok (some accepted, sent_call ∷ []) accepted_store
unfolding request_download check_request reserve_download send_download settle_download identity
    key_ok is_key is_key_char is_cycle cycle_codes is_digit step_of count_up hours_of json_hours
    new_operation forcing_operation record_forcing_operation update_forcing_operation find insert
    modify update
request_sent = refl

request_download_call_example :
    (first : ℕ) × (last : ℕ) × (hours : List ℕ) × Window ask first last
    × (sent_call ≡ trigger_download "ecmwf" "2026010100" last hours (identity uuid ask "x"))
    × (◌≡◌ {A = List Call} [] [])
    × ((h : ℕ) → (listed h hours ≡ true) ↔ ((first ≤ h) × (h ≤ last) × (h % step_of "ecmwf" ≡ 0)))
request_download_call_example =
    request_download_call uuid "t0" "x" ask (some empty) idle no_rows accepted_store request_sent

-- the same owner and key for fewer hours
abbrev ask_less : Request
ask_less = record ask { last = some 6 }

idle_keeps : KeepsRange (identity uuid ask "x") idle
idle_keeps u b e = (b, e, refl, refl, refl, refl, refl)

request_download_repeat_example :
    (b : Operation) × (forcing_operation (identity uuid ask "x") accepted_store ≡ some b)
    × Repeated ask ask_less b accepted_store
        (request_download uuid "t1" "y" ask_less (some empty) idle accepted_store)
request_download_repeat_example =
    request_download_repeat uuid "t0" "x" "t1" "y" "k1" ask ask_less (some empty) (some empty) idle
      idle no_rows accepted_store refl refl refl idle_keeps request_sent

abbrev doubtful_end : Operation
doubtful_end =
    operation_with "cancel_unknown" "t2" (set "message" (str "引用释放结果待核验，资料继续受保护") hours_detail)

abbrev doubtful_store : Store
doubtful_store = record no_rows { operations = ("forcing_u", doubtful_end) ∷ [] }

cancel_fails :
    cancel_download "t2" "forcing_u" false idle accepted_store
    ≡ ok (some doubtful_end, release_reference "ecmwf" "2026010100" "forcing_u" ∷ []) doubtful_store
unfolding cancel_download begin_cancel end_cancel can_cancel forcing_operation
    update_forcing_operation find modify update set
cancel_fails = refl

cancel_download-CancelOutcome_example :
    CancelOutcome "forcing_u" false accepted_store doubtful_store
      (some doubtful_end)
      (release_reference "ecmwf" "2026010100" "forcing_u" ∷ [])
cancel_download-CancelOutcome_example =
    cancel_download-CancelOutcome "t2" "forcing_u" false idle accepted_store doubtful_store
      cancel_fails

abbrev all_there : Replies
all_there = record {
  files = some (field "complete" (bool true) (field "valid_hours" (arr (cons (num 3) nil)) empty));
  progress = none;
}

-- Another thread cancels while the client is asked.
abbrev cancel_meanwhile : Store → Store
cancel_meanwhile s = doubtful_store

observation_yields :
    observe_download "t3" "forcing_u" accepted all_there cancel_meanwhile accepted_store
    ≡ ok (record { operation = doubtful_end; observation = none }) doubtful_store
unfolding observe_download record_observation is_open forcing_operation find set
observation_yields = refl

accepted_is_open : is_open "accepted" ≡ true
unfolding is_open
accepted_is_open = refl

observe_download-ObservedOn_example :
    ObservedOn "forcing_u" all_there doubtful_store doubtful_store
      (record { operation = doubtful_end; observation = none })
observe_download-ObservedOn_example =
    observe_download-ObservedOn "t3" "forcing_u" accepted all_there cancel_meanwhile accepted_store
      doubtful_store accepted_is_open observation_yields

abbrev site : Site
site = record {
  data_root = b'/' ∷ b'd' ∷ [];
  gfs_dir = [];
  ec_dir = [];
  cron_lines = [];
  prefetch_enabled = true;
}

abbrev held : Dict
held = field "gfs" (arr (cons (str "2026010100") nil)) (field "ecmwf" (arr nil) empty)

abbrev paused : Policy
paused = record {
  version = 1;
  enabled = false;
  auto_cleanup = false;
  retained_complete_cycles = 2;
  held_cycles = held;
  updated_at = some "t4";
}

policy_saved :
    policy_update "t4" site 0 false false held no_rows
    ≡ ok paused (record no_rows { policy = some paused })
unfolding policy_update check_policy both_sources only_sources is_given held_list_ok count_items
    distinct_cycles has_text is_cycle cycle_codes is_digit save_forcing_policy forcing_policy get
policy_saved = refl

policy_update-SafePolicy_example :
    SafePolicy site 0 no_rows (record no_rows { policy = some paused }) paused
policy_update-SafePolicy_example =
    policy_update-SafePolicy "t4" site 0 false false held no_rows
      (record no_rows { policy = some paused }) policy_saved
