-- ===== src/Forcing/Admin.antt =====
-- forcing_policy.py: `policy_update`.
use backend_wrf.Base.{
  ℕ, ◌+◌, ◌≡◌, String, ◌==◌, string_eq, nat_eq_iff, ℕ_eq, Bool, true, false, not, ◌&&◌, ◌||◌, ltb,
  any, Option, none, some, List, [], ◌∷◌, ◌++◌, arith, if◌then◌else◌,
}
use Prim.Native.String.{◌++◌ as ◌<>◌}
use backend_wrf.Json.{Json, Items, Dict, str, arr, nil, cons, field, empty, get}
use backend_wrf.Text.{codes, lstrip, has_content, starts_with, contains_text}
use backend_wrf.Store.{Store, Policy, Result, ok, err, value_error}
use backend_wrf.Store.ForcingPolicy.{save_forcing_policy, forcing_policy}
use backend_wrf.Forcing.{is_cycle}

-- The settings that `policy_update` reads, the data root without its trailing slashes, and the
-- lines of `crontab -l` on the HPC host.
pub record Site : Type 0 where
  pub data_root : List ℕ
  pub gfs_dir : List ℕ
  pub ec_dir : List ℕ
  pub cron_lines : List (List ℕ)
  pub prefetch_enabled : Bool

-- `x in cycles` for the texts after it, which makes `len(set(cycles)) != len(cycles)`
unfoldable pub has_text : String → Items → Bool
has_text t nil = false
has_text t (cons (str u) vs) = t == u || has_text t vs
has_text t (cons v vs) = has_text t vs

unfoldable pub count_items : Items → ℕ
count_items nil = 0
count_items (cons v vs) = 1 + count_items vs

-- every item is a text with the form of a cycle, and none comes twice
unfoldable pub distinct_cycles : Items → Bool
distinct_cycles nil = true
distinct_cycles (cons (str t) vs) = is_cycle t && not (has_text t vs) && distinct_cycles vs
distinct_cycles (cons v vs) = false

unfoldable pub held_list_ok : Option Json → Bool
held_list_ok (some (arr vs)) = not (ltb 100 (count_items vs)) && distinct_cycles vs
held_list_ok _ = false

-- `set(held_cycles) == {"gfs", "ecmwf"}`
unfoldable pub only_sources : Dict → Bool
only_sources empty = true
only_sources (field k v d) = (k == "gfs" || k == "ecmwf") && only_sources d

unfoldable pub is_given : Option Json → Bool
is_given none = false
is_given (some v) = true

unfoldable pub both_sources : Dict → Bool
both_sources d = only_sources d && is_given (get "gfs" d) && is_given (get "ecmwf" d)

-- the first source, in the order of the dict, whose list is refused
unfoldable pub refused_source : Dict → String
refused_source empty = ""
refused_source (field source v d) =
    let rest = refused_source d in if held_list_ok (some v) then rest else source

-- the GFS and ECMWF directories lie in the pool under the data root
unfoldable pub pools_ok : Site → Bool
pools_ok s =
    let pool = s.data_root ++ codes "/forcing/" in
    has_root s.data_root && starts_with s.gfs_dir pool && starts_with s.ec_dir pool
  where
    has_root : List ℕ → Bool
    has_root [] = false
    has_root (c ∷ cs) = true

-- a line of the crontab that is no comment and starts the old scheduler
unfoldable pub starts_old_cron : List ℕ → Bool
starts_old_cron line =
    contains_text line (codes "wrf_server_cron.sh")
    && has_content line
    && not (starts_with (lstrip line) (codes "#"))

abbrev pub cleanup_needs_prefetch : String
cleanup_needs_prefetch = "自动清理只能随自动预取启用"

abbrev pub bad_held : String
bad_held = "必须明确列出 GFS、ECMWF 两源保留周期"

abbrev pub bad_held_list : String
bad_held_list = " 显式保留周期格式无效"

abbrev pub bad_pool : String
bad_pool = "GFS、ECMWF 必须位于独立普通 WRF 资料池"

abbrev pub old_cron : String
old_cron = "旧 WRF cron 仍启用，不能启用双调度入口"

-- the checks at the head of `policy_update`, of which the first to fail gives the message
unfoldable pub check_policy : Site → Bool → Bool → Dict → Option String
check_policy site enabled auto_cleanup held =
    if auto_cleanup && not enabled
    then some cleanup_needs_prefetch
    else if not (both_sources held)
    then some bad_held
    else if not (held_list_ok (get "gfs" held) && held_list_ok (get "ecmwf" held))
    then some (refused_source held <> bad_held_list)
    else if enabled && not (pools_ok site)
    then some bad_pool
    else if enabled && any starts_old_cron site.cron_lines
    then some old_cron
    else none

-- `policy_update`; `manager.set_forcing_policy` is given the policy that it returns
unfoldable pub policy_update : String → Site → ℕ → Bool → Bool → Dict → Store → Result Store Policy
policy_update now site version enabled auto_cleanup held s =
    elim (check_policy site enabled auto_cleanup held) [
      | some message ↦ err (value_error message)
      | none ↦ save_forcing_policy now version enabled auto_cleanup held site.prefetch_enabled s
    ]

-- What a policy that was stored by `policy_update` satisfies.
pub record SafePolicy (site : Site) (version : ℕ) (s t : Store) (p : Policy) : Type 0 where
  pub was_current : (forcing_policy site.prefetch_enabled s).version ≡ version
  pub stored : forcing_policy site.prefetch_enabled t ≡ p
  pub next_version : p.version ≡ version + 1
  pub cleanup_with_prefetch : p.auto_cleanup ≡ true → p.enabled ≡ true
  pub both_held : both_sources p.held_cycles ≡ true
  pub held_gfs : held_list_ok (get "gfs" p.held_cycles) ≡ true
  pub held_ecmwf : held_list_ok (get "ecmwf" p.held_cycles) ≡ true
  pub one_scheduler : p.enabled ≡ true → any starts_old_cron site.cron_lines ≡ false
  pub in_pool : p.enabled ≡ true → pools_ok site ≡ true

-- A policy update that succeeds was made on the current version and stores a policy that cleans up
-- only with prefetching, names distinct well-formed cycles for both sources, and is enabled only
-- with both directories in the pool and no line of the crontab that starts the old scheduler.
pub policy_update-SafePolicy :
    (now : String) (site : Site) (v : ℕ) (enabled auto : Bool) (held : Dict) (s t : Store)
    {p : Policy}
    → policy_update now site v enabled auto held s ≡ ok p t
    → SafePolicy site v s t p
unfolding policy_update check_policy save_forcing_policy forcing_policy
policy_update-SafePolicy now site v enabled auto held s t {p} h = record {
  was_current = ground (arith, nat_eq_iff (forcing_policy site.prefetch_enabled s).version v);
  stored = ground arith;
  next_version = ground arith;
  cleanup_with_prefetch = λ a. ground arith;
  both_held = ground arith;
  held_gfs = ground arith;
  held_ecmwf = ground arith;
  one_scheduler = λ e. ground arith;
  in_pool = λ e. ground arith;
}
