-- ===== src/Table.antt =====
-- A table of the SQLite database: its rows by primary key, in the order of `rowid`.
-- SQLite itself is not part of the program; these are the documented effects of the statements
-- that `TaskStore` in database.py sends to it.
pub mod Laws
pub mod Clear
use backend_wrf.Base.{
  Key, ◌==◌, Bool, true, false, not, ◌||◌, ◌&&◌, Option, none, some, List, [], ◌∷◌, ◌++◌,
  if◌then◌else◌,
}

abbrev pub Table {ℓ κ} : Type ℓ → Type κ → Type (ℓ ⊔ κ)
Table K V = List (K × V)

module _ {ℓ κ} {K : Type ℓ} {V : Type κ} ⦃e : Key K⦄ where
  -- `SELECT * FROM t WHERE id=?`
  unfoldable pub find : K → Table K V → Option V
  find k [] = none
  find k ((j, v) ∷ t) = if j == k then some v else find k t

  -- `DELETE FROM t WHERE id=?`
  unfoldable pub delete : K → Table K V → Table K V
  delete k [] = []
  delete k ((j, v) ∷ t) = let rest = delete k t in if j == k then rest else (j, v) ∷ rest

  -- `UPDATE t SET ... WHERE id=?`
  unfoldable pub modify : K → (V → V) → Table K V → Table K V
  modify k f [] = []
  modify k f ((j, v) ∷ t) = (j, if j == k then f v else v) ∷ modify k f t

  -- `INSERT INTO t`: none on a primary key that is there (`sqlite3.IntegrityError`)
  unfoldable pub insert : K → V → Table K V → Option (Table K V)
  insert k v t = elim (find k t) [ none ↦ some (t ++ (k, v) ∷ []) | some w ↦ none ]

  -- `INSERT OR IGNORE INTO t`
  unfoldable pub insert_or_ignore : K → V → Table K V → Table K V
  insert_or_ignore k v t = elim (find k t) [ none ↦ t ++ (k, v) ∷ [] | some w ↦ t ]

  -- `INSERT OR REPLACE INTO t`: the row of the key goes, and the new one comes last
  unfoldable pub insert_or_replace : K → V → Table K V → Table K V
  insert_or_replace k v t = delete k t ++ (k, v) ∷ []

module _ {ℓ κ} {K : Type ℓ} {V : Type κ} where
  -- `UPDATE t SET ...` with no key in its condition
  unfoldable pub map_rows : (V → V) → Table K V → Table K V
  map_rows f [] = []
  map_rows f ((j, v) ∷ t) = (j, f v) ∷ map_rows f t

  -- `DELETE FROM t WHERE p`
  unfoldable pub delete_where : (K → V → Bool) → Table K V → Table K V
  delete_where p [] = []
  delete_where p ((j, v) ∷ t) = let rest = delete_where p t in if p j v then rest else (j, v) ∷ rest

  -- a loop over the rows with `return` at the first that passes `p`
  unfoldable pub any_row : (V → Bool) → Table K V → Bool
  any_row p [] = false
  any_row p ((j, v) ∷ t) = p v || any_row p t
