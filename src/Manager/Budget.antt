-- ===== src/Manager/Budget.antt =====
-- runtime_release.py: `mpi_budget` and `compute_budget`. A missing decomposition and `None` are -1 in
-- the code; here they are `none`.
pub mod Split
use backend_wrf.Base.{
  ℕ, zero, suc, ◌+◌, ◌-◌, ◌*◌, ◌/◌, ◌%◌, ◌≡◌, ◌≢◌, ◌≤◌, ◌<◌, refl, Bool, true, false, not, ◌&&◌,
  ◌||◌, leb, ltb, nat_eq, all, List, [], ◌∷◌, Option, none, some, arith, if◌then◌else◌, Bool-cases,
  inl, inr,
}

-- `math.isqrt(n)`: the greatest `r` up to `k` whose square is at most `n`
unfoldable pub isqrt_upto : ℕ → ℕ → ℕ
isqrt_upto zero n = 0
isqrt_upto (suc k) n = let rest = isqrt_upto k n in if leb (suc k * suc k) n then suc k else rest

unfoldable pub isqrt : ℕ → ℕ
isqrt n = isqrt_upto n n

pub record Grid : Type 0 where
  pub e_we : ℕ
  pub e_sn : ℕ

abbrev pub smaller : Grid → ℕ
smaller d = if leb d.e_we d.e_sn then d.e_we else d.e_sn

unfoldable pub side_of : ℕ → ℕ
side_of configured =
    let side = isqrt configured in if ltb (side * side) configured then side + 1 else side

-- `ranks`: all the processes, or one where a domain is too small to be divided
unfoldable pub ranks_of : List Grid → ℕ → ℕ
ranks_of domains configured =
    if all (λ d. leb (10 * side_of configured) (smaller d)) domains then configured else 1

-- `while ranks % nx: nx -= 1`; none if `nx` comes down to 0, where the code would divide by 0
unfoldable pub shrink : ℕ → ℕ → Option ℕ
shrink ranks zero = none
shrink ranks (suc n) =
    let rest = shrink ranks n in if nat_eq (ranks % suc n) 0 then some (suc n) else rest

pub record Layout : Type 0 where
  pub ranks : ℕ
  pub nx : ℕ
  pub ny : ℕ

-- the test of the product; none is `MpiConfigurationError`
unfoldable pub checked_split : ℕ → ℕ → ℕ → Option Layout
checked_split ranks nx ny =
    if nat_eq nx 0 || nat_eq ny 0 || not (nat_eq (nx * ny) ranks)
    then none
    else some (record { ranks = ranks; nx = nx; ny = ny })

unfoldable pub split_by : ℕ → Option ℕ → Option ℕ → Option Layout
split_by ranks none none = elim (shrink ranks (isqrt ranks)) [
  | none ↦ none
  | some nx ↦ checked_split ranks nx (ranks / nx)
]
split_by ranks (some nx) none = if nat_eq nx 0 then none else checked_split ranks nx (ranks / nx)
split_by ranks none (some ny) = if nat_eq ny 0 then none else checked_split ranks (ranks / ny) ny
split_by ranks (some nx) (some ny) = checked_split ranks nx ny

-- every tile has at least 10 points in each direction
unfoldable pub tiles_fit : List Grid → Layout → Bool
tiles_fit domains s = all (λ d. leb 10 (d.e_we / s.nx) && leb 10 (d.e_sn / s.ny)) domains

unfoldable pub with_tiles : List Grid → Option Layout → Option Layout
with_tiles domains none = none
with_tiles domains (some s) = if tiles_fit domains s then some s else none

-- `mpi_budget`: none is `MpiConfigurationError`
unfoldable pub mpi_budget : List Grid → ℕ → Option ℕ → Option ℕ → Option Layout
mpi_budget domains configured nx ny =
    with_tiles domains (split_by (ranks_of domains configured) nx ny)

unfoldable pub cells : List Grid → ℕ
cells [] = 0
cells (d ∷ domains) = d.e_we * d.e_sn + cells domains

-- `memory_bytes` of `compute_budget`
unfoldable pub memory_bytes : List Grid → ℕ → ℕ
memory_bytes domains levels =
    let need = cells domains * levels * 1200 in if leb need 2147483648 then 2147483648 else need
