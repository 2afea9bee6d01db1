-- ===== src/Manager/Budget/Split.antt =====
-- runtime_release.py: the automatic division of the grid among the processes in `mpi_budget`.
use backend_wrf.Base.{
  ℕ, zero, suc, ◌*◌, ◌/◌, ◌%◌, ◌≡◌, ◌⊎◌, ◌≤◌, ◌<◌, refl, false, nat_eq, List, [], ◌∷◌, Option, none,
  some, arith, if◌then◌else◌, Bool-cases, inl, inr,
}
use native.Mathlib.Nat.{div-add-mod}
use backend_wrf.Manager.Budget.{
  isqrt_upto, isqrt, Grid, side_of, ranks_of, shrink, Layout, checked_split, split_by, tiles_fit,
  with_tiles, mpi_budget,
}

isqrt_upto_pos : (k n : ℕ) → 0 < n → 0 < isqrt_upto (suc k) n
unfolding isqrt_upto
isqrt_upto_pos zero n h = ground arith
isqrt_upto_pos (suc k) n h = ground (arith, isqrt_upto_pos k n h)

-- What the loop finds: a divisor that is not 0.
record Divisor (ranks n : ℕ) : Type 0 where
  nx : ℕ
  found : shrink ranks n ≡ some nx
  positive : 0 < nx
  divides : ranks % nx ≡ 0

shrink-Divisor : (ranks n : ℕ) → Divisor ranks (suc n)
unfolding shrink
shrink-Divisor ranks zero = record {
  nx = 1;
  found = ground arith;
  positive = omega arith;
  divides = omega arith;
}
shrink-Divisor ranks (suc n) = elim (Bool-cases (nat_eq (ranks % suc (suc n)) 0)) [
  | inl e ↦ record {
    nx = suc (suc n);
    found = rw e refl;
    positive = omega arith;
    divides = ground (arith, e);
  }
  | inr e ↦ further e (shrink-Divisor ranks n)
]
  where
    further :
        nat_eq (ranks % suc (suc n)) 0 ≡ false → Divisor ranks (suc n) → Divisor ranks (suc (suc n))
    further e d = record {
      nx = d.nx;
      found = rw e d.found;
      positive = d.positive;
      divides = d.divides;
    }

Divisor-of_pos : (ranks n : ℕ) → 0 < n → Divisor ranks n
Divisor-of_pos ranks zero h = absurd (ground arith)
Divisor-of_pos ranks (suc n) h = shrink-Divisor ranks n

isqrt_pos : (n : ℕ) → 0 < n → 0 < isqrt n
unfolding isqrt
isqrt_pos zero h = absurd (ground arith)
isqrt_pos (suc n) h = isqrt_upto_pos n (suc n) h

ranks_of_pos :
    (domains : List Grid) (configured : ℕ) → 0 < configured → 0 < ranks_of domains configured
unfolding ranks_of
ranks_of_pos domains configured h = ground arith

checked_split_ok :
    (ranks nx ny : ℕ)
    → 0 < nx
    → 0 < ny
    → nx * ny ≡ ranks
    → checked_split ranks nx ny ≡ some (record { ranks = ranks; nx = nx; ny = ny })
unfolding checked_split
checked_split_ok ranks nx ny p q e = ground (arith, p, q, e)

other_pos : (a b n : ℕ) → a * b ≡ n → 0 < n → 0 < b
other_pos a zero n e h = absurd (omega (arith, e, h))
other_pos a (suc b) n e h = omega arith

ranks_of_cases :
    (domains : List Grid) (configured : ℕ)
    → (ranks_of domains configured ≡ configured) ⊎ (ranks_of domains configured ≡ 1)
unfolding ranks_of
ranks_of_cases domains configured = ground arith

split_by-none :
    (ranks nx : ℕ) (l : Layout)
    → shrink ranks (isqrt ranks) ≡ some nx
    → checked_split ranks nx (ranks / nx) ≡ some l
    → split_by ranks none none ≡ some l
unfolding split_by
split_by-none ranks nx l found ok = ground (arith, found, ok)

with_tiles-some :
    (domains : List Grid) (o : Option Layout) (l : Layout)
    → o ≡ some l
    → with_tiles domains o ≡ (if tiles_fit domains l then some l else none)
unfolding with_tiles
with_tiles-some domains o l e = rw e refl

answer_of :
    (domains : List Grid) (configured nx : ℕ) (l : Layout)
    → shrink (ranks_of domains configured) (isqrt (ranks_of domains configured)) ≡ some nx
    → checked_split (ranks_of domains configured) nx (ranks_of domains configured / nx) ≡ some l
    → mpi_budget domains configured none none ≡ (if tiles_fit domains l then some l else none)
unfolding mpi_budget
answer_of domains configured nx l found ok =
    with_tiles-some domains _ l (split_by-none (ranks_of domains configured) nx l found ok)

-- A decomposition of all the processes that `mpi_budget` uses if every tile is large enough.
pub record Automatic (domains : List Grid) (configured : ℕ) : Type 0 where
  pub layout : Layout
  pub whole : layout.nx * layout.ny ≡ layout.ranks
  pub processes : (layout.ranks ≡ configured) ⊎ (layout.ranks ≡ 1)
  pub answer :
      mpi_budget domains configured none none
      ≡ (if tiles_fit domains layout then some layout else none)

-- With at least one process configured and no decomposition given, the search for a divisor ends
-- before 0: there is a decomposition into as many tiles as there are processes, all the configured
-- ones or a single one, and `mpi_budget` returns it, or raises if one of its tiles is too small.
pub mpi_budget-Automatic :
    (domains : List Grid) (configured : ℕ) → 0 < configured → Automatic domains configured
mpi_budget-Automatic domains configured h =
    let ranks = ranks_of domains configured in
    let d =
      Divisor-of_pos ranks (isqrt ranks) (isqrt_pos ranks (ranks_of_pos domains configured h)) in
    let split = div-add-mod ranks d.nx in
    let whole : d.nx * (ranks / d.nx) ≡ ranks = omega (arith, split, d.divides) in
    let ok =
      checked_split_ok ranks d.nx (ranks / d.nx) d.positive
        (other_pos d.nx (ranks / d.nx) ranks whole (ranks_of_pos domains configured h)) whole in
    record {
      layout = record { ranks = ranks; nx = d.nx; ny = ranks / d.nx };
      whole = whole;
      processes = ranks_of_cases domains configured;
      answer = answer_of domains configured _ _ d.found ok;
    }

-- One domain of at least 30 points from west to east and 30 to 39 points from south to north, and eight
-- processes: `mpi_budget` raises although no decomposition is given.
pub mpi_budget_eight :
    (d : Grid) → 30 ≤ d.e_we → 30 ≤ d.e_sn → d.e_sn ≤ 39 → mpi_budget (d ∷ []) 8 none none ≡ none
unfolding mpi_budget split_by with_tiles ranks_of side_of isqrt isqrt_upto shrink checked_split
    tiles_fit
mpi_budget_eight d a b c = ground arith
