-- ===== src/Store/ForcingPolicy.antt =====
-- database.py: the forcing policy, one row under a version number. The held cycles are kept as a dict in
-- the order they are given; the column has its keys sorted, which no lookup observes.
use backend_wrf.Base.{
  ℕ, ◌+◌, ◌≡◌, ◌≢◌, refl, String, ◌==◌, ℕ_eq, Bool, false, not, none, some, arith, if◌then◌else◌,
}
use backend_wrf.Json.{Dict, arr, nil, field, empty}
use backend_wrf.Store.{Store, Policy, Result, ok, err, value_error}

-- `forcing_policy`
unfoldable pub forcing_policy : Bool → Store → Policy
forcing_policy default_enabled s = elim s.policy [
  | none ↦ record {
    version = 0;
    enabled = default_enabled;
    auto_cleanup = false;
    retained_complete_cycles = 2;
    held_cycles = field "gfs" (arr nil) (field "ecmwf" (arr nil) empty);
    updated_at = none;
  }
  | some p ↦ p
]

abbrev pub stale : String
stale = "资料策略已被其他操作修改，请刷新"

-- `save_forcing_policy`
unfoldable pub save_forcing_policy :
    String → ℕ → Bool → Bool → Dict → Bool → Store → Result Store Policy
save_forcing_policy now version enabled auto_cleanup held_cycles default_enabled s =
    if not ((forcing_policy default_enabled s).version == version)
    then err (value_error stale)
    else let t : Store = record s {
      policy = some (record {
        version = version + 1;
        enabled = enabled;
        auto_cleanup = auto_cleanup;
        retained_complete_cycles = 2;
        held_cycles = held_cycles;
        updated_at = some now;
      });
    } in
      ok (forcing_policy default_enabled t) t

-- A save succeeds exactly at the current version. It then stores what it was given under the next
-- version, always with two retained cycles, and returns it; a second save from the same version
-- raises.
pub save_forcing_policy_cas :
    (now now' : String) (v : ℕ) (enabled auto enabled' auto' : Bool) (held held' : Dict) (d : Bool)
    (s : Store)
    → ((forcing_policy d s).version ≢ v
        → save_forcing_policy now v enabled auto held d s ≡ err (value_error stale))
      × ((forcing_policy d s).version ≡ v
          → (p : Policy) × (t : Store) × (save_forcing_policy now v enabled auto held d s ≡ ok p t)
            × (forcing_policy d t ≡ p)
            × (p.version ≡ v + 1)
            × (p.enabled ≡ enabled)
            × (p.auto_cleanup ≡ auto)
            × (p.held_cycles ≡ held)
            × (p.retained_complete_cycles ≡ 2)
            × (save_forcing_policy now' v enabled' auto' held' d t ≡ err (value_error stale)))
unfolding save_forcing_policy forcing_policy
save_forcing_policy_cas now now' v enabled auto enabled' auto' held held' d s =
    let p : Policy = record {
      version = v + 1;
      enabled = enabled;
      auto_cleanup = auto;
      retained_complete_cycles = 2;
      held_cycles = held;
      updated_at = some now;
    } in
    (
      λ n. ground arith,
      λ current. (
        p,
        record s { policy = some p },
        ground arith,
        refl,
        refl,
        refl,
        refl,
        refl,
        refl,
        ground arith,
      ),
    )
