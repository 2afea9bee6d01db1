-- ===== src/Table/Clear.antt =====
-- Tables in which no row passes a test, and how updates keep them so.
use backend_wrf.Base.{Key, ◌≡◌, refl, Bool, false, ◌||◌, [], ◌∷◌, ◌++◌, arith}
use backend_wrf.Table.{Table, delete, modify, insert_or_ignore, map_rows, any_row}

module _ {ℓ κ} {K : Type ℓ} {V : Type κ} where
  pub any_row-map_rows_clear :
      (p : V → Bool) (f : V → V)
      → ((v : V) → p v ≡ false → p (f v) ≡ false)
      → (t : Table K V) → any_row p t ≡ false
      → any_row p (map_rows f t) ≡ false
  unfolding any_row map_rows
  any_row-map_rows_clear p f h [] n = refl
  any_row-map_rows_clear p f h ((j, v) ∷ t) n = ground (arith, h v, any_row-map_rows_clear p f h t)

  pub any_row-append :
      (p : V → Bool) (s t : Table K V) → any_row p (s ++ t) ≡ (any_row p s || any_row p t)
  unfolding any_row
  any_row-append p [] t = refl
  any_row-append p ((j, v) ∷ s) t = ground (arith, any_row-append p s t)

module _ {ℓ κ} {K : Type ℓ} {V : Type κ} ⦃e : Key K⦄ where
  pub any_row-modify_clear :
      (p : V → Bool) (f : V → V)
      → ((v : V) → p v ≡ false → p (f v) ≡ false)
      → (k : K) (t : Table K V) → any_row p t ≡ false
      → any_row p (modify k f t) ≡ false
  unfolding any_row modify
  any_row-modify_clear p f h k [] n = refl
  any_row-modify_clear p f h k ((j, v) ∷ t) n = ground (arith, h v, any_row-modify_clear p f h k t)

  pub any_row-insert_or_ignore_clear :
      (p : V → Bool) (k : K) (v : V) (t : Table K V)
      → p v ≡ false
      → any_row p t ≡ false
      → any_row p (insert_or_ignore k v t) ≡ false
  unfolding insert_or_ignore any_row
  any_row-insert_or_ignore_clear p k v t h n = ground (arith, any_row-append p t ((k, v) ∷ []))

  pub any_row-delete_clear :
      (p : V → Bool) (k : K) (t : Table K V) → any_row p t ≡ false → any_row p (delete k t) ≡ false
  unfolding any_row delete
  any_row-delete_clear p k [] n = refl
  any_row-delete_clear p k ((j, v) ∷ t) n = ground (arith, any_row-delete_clear p k t)
