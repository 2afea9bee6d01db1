-- ===== src/Manager/Needs.antt =====
-- task_manager.py, `_dispatch`: the processes and the memory that a task needs, by `compute_budget` of
-- runtime_release.py.
use backend_wrf.Base.{
  ℕ, ◌+◌, ◌==◌, string_eq, ℕ_eq, not, Option, none, some, List, [], ◌∷◌, if◌then◌else◌,
}
use backend_wrf.Json.{
  Json, num, bool, arr, obj, nil, cons, Items, Dict, empty, field, get, str, truthy?,
}
use backend_wrf.Store.{Task}
use backend_wrf.Manager.Budget.{Grid, Layout, mpi_budget, memory_bytes}

-- `resource_budget`: the two numbers that are compared, and the dict (empty for a sum of budgets)
pub record Need : Type 0 where
  pub mpi_processes : ℕ
  pub memory : ℕ
  pub budget : Dict

abbrev pub number : Option Json → Option ℕ
number (some (num n)) = some n
number _ = none

abbrev pub entries : Option Json → Dict
entries (some (obj d)) = d
entries _ = empty

abbrev pub or_zero : Option ℕ → ℕ
or_zero (some n) = n
or_zero none = 0

unfoldable pub grid_of : Json → Grid
grid_of v = record {
  e_we = or_zero (number (get "e_we" (entries (some v))));
  e_sn = or_zero (number (get "e_sn" (entries (some v))));
}

unfoldable pub grids : Items → List Grid
grids nil = []
grids (cons v vs) = grid_of v ∷ grids vs

abbrev pub items_of : Option Json → Items
items_of (some (arr vs)) = vs
items_of _ = nil

abbrev pub levels_of : Option ℕ → ℕ
levels_of (some n) = n
levels_of none = 88

-- the dict that `compute_budget` returns
unfoldable pub budget_of : ℕ → Layout → ℕ → Dict
budget_of configured l memory = field "mpi_processes" (num l.ranks) (
    field "configured_mpi_processes" (num configured) (
      field "nproc_x" (num l.nx) (
        field "nproc_y" (num l.ny) (
          field "automatic_serial_fallback" (bool (not (l.ranks == configured))) (
            field "memory_bytes" (num memory)
              (field "basis" (str "conservative_admission_budget_v1") empty))))))

-- `compute_budget(request, configured)`; none is `MpiConfigurationError`
unfoldable pub compute_budget : Json → ℕ → Option Need
compute_budget request configured =
    let q = entries (some request) in
    let domains = grids (items_of (get "domains" q)) in
    let fields = entries (get "domains" (entries (get "input" (entries (get "namelist" q))))) in
    elim (mpi_budget domains configured (number (get "nproc_x" fields))
      (number (get "nproc_y" fields))) [
        | none ↦ none
        | some l ↦ some (record {
          mpi_processes = l.ranks;
          memory = memory_bytes domains (levels_of (number (get "vertical_levels" q)));
          budget =
              budget_of configured l
                (memory_bytes domains (levels_of (number (get "vertical_levels" q))));
        })
      ]

-- `runtime.get('resource_budget') or compute_budget(...)`
unfoldable pub need_of : ℕ → Task → Option Need
need_of configured t =
    let b = get "resource_budget" t.runtime in
    if truthy? b
    then some (record {
      mpi_processes = or_zero (number (get "mpi_processes" (entries b)));
      memory = or_zero (number (get "memory_bytes" (entries b)));
      budget = entries b;
    })
    else compute_budget t.request configured

-- the sums over `budgets`; none if one of them raises
unfoldable pub total_need : ℕ → List Task → Option Need
total_need configured [] = some (record { mpi_processes = 0; memory = 0; budget = empty })
total_need configured (t ∷ ts) = elim (need_of configured t) [
  | none ↦ none
  | some n ↦ elim (total_need configured ts) [
    | none ↦ none
    | some rest ↦ some (record {
      mpi_processes = n.mpi_processes + rest.mpi_processes;
      memory = n.memory + rest.memory;
      budget = empty;
    })
  ]
]
