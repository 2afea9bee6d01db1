-- ===== src/Domains/Tree.antt =====
-- What makes a list of domains a nested tree.
use backend_wrf.Base.{
  ℕ, suc, ◌-◌, ◌/◌, ◌%◌, ◌≡◌, ◌≤◌, ◌<◌, ◌⊎◌, true, false, List, [], ◌∷◌, ◌++◌, some, get_elem?,
}
use backend_wrf.Domains.{Domain, same_text, domain_name, box, Siblings, hits}

-- The first domain.
pub record IsRoot (d : Domain) : Type 0 where
  pub name : same_text d.id (domain_name 1) ≡ true
  pub parent_id : d.parent_id ≡ 0
  pub ratio : d.parent_grid_ratio ≡ 1
  pub corner : (d.i_parent_start ≡ 1) × (d.j_parent_start ≡ 1)

-- A domain fits into its parent, at the ratio `r`.
pub record FitsIn (parent d : Domain) (r : ℕ) : Type 0 where
  pub ratio : (r ≡ 3) ⊎ (r ≡ 5)
  pub same_ratio : parent.dy / d.dy ≡ r
  pub spacing : (parent.dx % d.dx ≡ 0) × (parent.dy % d.dy ≡ 0)
  pub extent : ((d.e_we - 1) % r ≡ 0) × ((d.e_sn - 1) % r ≡ 0)
  pub inside : ((box r d).east ≤ parent.e_we - 1) × ((box r d).north ≤ parent.e_sn - 1)

-- The domain `number`, after the domains `done` with the boxes `s`.
pub record IsNest (number : ℕ) (done : List Domain) (s : Siblings) (d : Domain) : Type 0 where
  pub name : same_text d.id (domain_name number) ≡ true
  pub earlier : (1 ≤ d.parent_id) × (d.parent_id < number)
  pub parent : Domain
  pub found : get_elem? done (d.parent_id - 1) ≡ some parent
  pub ratio : d.parent_grid_ratio ≡ parent.dx / d.dx
  pub fits : FitsIn parent d d.parent_grid_ratio
  pub apart : hits d.parent_id (box d.parent_grid_ratio d) s ≡ false

-- Domains that were placed one after the other, with the boxes of all but the first.
pub data Tree : ℕ → List Domain → Siblings → Type 0 where
  empty : Tree 1 [] []
  root : {d : Domain} → IsRoot d → Tree 2 (d ∷ []) []
  nest :
      {number : ℕ} {done : List Domain} {s : Siblings} {d : Domain}
      → Tree number done s
      → IsNest number done s d
      → Tree (suc number) (done ++ d ∷ []) (s ++ (d.parent_id, box d.parent_grid_ratio d) ∷ [])
