-- ===== src/Table/Laws.antt =====
-- What a lookup finds after each statement.
use backend_wrf.Base.{
  Key, ◌==◌, ◌≡◌, refl, Bool, true, false, Option, none, some, [], ◌∷◌, ◌++◌, arith, if◌then◌else◌,
}
use backend_wrf.Table.{
  Table, find, delete, modify, insert, insert_or_ignore, insert_or_replace, map_rows, delete_where,
  any_row,
}

abbrev pub or_else {ℓ} : {A : Type ℓ} → Option A → Option A → Option A
or_else none o = o
or_else (some a) o = some a

abbrev pub on_some {ℓ} : {A : Type ℓ} → (A → A) → Option A → Option A
on_some f none = none
on_some f (some a) = some (f a)

abbrev pub keep_unless {ℓ} : {A : Type ℓ} → (A → Bool) → Option A → Option A
keep_unless p none = none
keep_unless p (some a) = if p a then none else some a

module _ {ℓ κ} {K : Type ℓ} {V : Type κ} ⦃e : Key K⦄ where
  pub find-append : (j : K) (s t : Table K V) → find j (s ++ t) ≡ or_else (find j s) (find j t)
  unfolding find
  find-append j [] t = refl
  find-append j ((i, w) ∷ s) t = ground (arith, find-append j s t)

  pub find-last :
      (k j : K) (v : V) (t : Table K V)
      → find j (t ++ (k, v) ∷ []) ≡ or_else (find j t) (if k == j then some v else none)
  unfolding find
  find-last k j v [] = refl
  find-last k j v ((i, w) ∷ t) = ground (arith, find-last k j v t)

  pub find-modify :
      (k j : K) (f : V → V) (t : Table K V)
      → find j (modify k f t) ≡ (if k == j then on_some f (find j t) else find j t)
  unfolding find modify
  find-modify k j f [] = ground arith
  find-modify k j f ((i, w) ∷ t) =
      ground (arith, e.same_iff k j, e.same_iff i k, e.same_iff i j, find-modify k j f t)

  pub find-delete :
      (k j : K) (t : Table K V) → find j (delete k t) ≡ (if k == j then none else find j t)
  unfolding find delete
  find-delete k j [] = ground arith
  find-delete k j ((i, w) ∷ t) =
      ground (arith, e.same_iff k j, e.same_iff i k, e.same_iff i j, find-delete k j t)

  pub find-insert_or_replace :
      (k j : K) (v : V) (t : Table K V)
      → find j (insert_or_replace k v t) ≡ (if k == j then some v else find j t)
  unfolding insert_or_replace
  find-insert_or_replace k j v t = ground (arith, find-last k j v (delete k t), find-delete k j t)

  pub find-insert_or_ignore :
      (k j : K) (v : V) (t : Table K V)
      → find j (insert_or_ignore k v t) ≡ or_else (find j t) (if k == j then some v else none)
  unfolding insert_or_ignore
  find-insert_or_ignore k j v t = ground (arith, find-last k j v t, e.same_iff k j)

  -- An insertion that is accepted adds a new row, and nothing else.
  pub find-insert :
      (k j : K) (v : V) (t : Table K V) {u : Table K V}
      → insert k v t ≡ some u
      → find j u ≡ (if k == j then some v else find j t)
  unfolding insert
  find-insert k j v t h = ground (arith, find-last k j v t, e.same_iff k j)

  pub find-map_rows :
      (j : K) (f : V → V) (t : Table K V) → find j (map_rows f t) ≡ on_some f (find j t)
  unfolding find map_rows
  find-map_rows j f [] = refl
  find-map_rows j f ((i, w) ∷ t) = ground (arith, find-map_rows j f t)

  -- A row that passes the test stops the loop.
  pub any_row-find :
      (p : V → Bool) (k : K) (v : V) (t : Table K V)
      → find k t ≡ some v
      → p v ≡ true
      → any_row p t ≡ true
  unfolding find any_row
  any_row-find p k v [] h g = ground arith
  any_row-find p k v ((i, w) ∷ t) h g = ground (arith, any_row-find p k v t)

  pub find-delete_keys :
      (q : K → Bool) (j : K) (t : Table K V)
      → find j (delete_where (λ k _. q k) t) ≡ (if q j then none else find j t)
  unfolding find delete_where
  find-delete_keys q j [] = ground arith
  find-delete_keys q j ((i, w) ∷ t) = ground (arith, e.same_iff i j, find-delete_keys q j t)

  -- What is left does not pass the test.
  pub delete_where_left :
      (p : K → V → Bool) (j : K) (v : V) (t : Table K V)
      → find j (delete_where p t) ≡ some v
      → p j v ≡ false
  unfolding find delete_where
  delete_where_left p j v [] h = ground arith
  delete_where_left p j v ((i, w) ∷ t) h = ground (arith, e.same_iff i j, delete_where_left p j v t)

  -- A row that does not pass the test stays.
  pub delete_where_kept :
      (p : K → V → Bool) (j : K) (v : V) (t : Table K V)
      → find j t ≡ some v
      → p j v ≡ false
      → find j (delete_where p t) ≡ some v
  unfolding find delete_where
  delete_where_kept p j v [] h n = ground arith
  delete_where_kept p j v ((i, w) ∷ t) h n =
      ground (arith, e.same_iff i j, delete_where_kept p j v t)

module _ {ℓ κ} {K : Type ℓ} {V : Type κ} where
  pub map_rows-map_rows :
      (f g : V → V) (t : Table K V) → map_rows f (map_rows g t) ≡ map_rows (λ v. f (g v)) t
  unfolding map_rows
  map_rows-map_rows f g [] = refl
  map_rows-map_rows f g ((j, v) ∷ t) = rw (map_rows-map_rows f g t)

  -- A function that keeps what `g` gives changes no row after `g`.
  pub map_rows_kept :
      (f g : V → V) (t : Table K V)
      → ((v : V) → f (g v) ≡ g v)
      → map_rows f (map_rows g t) ≡ map_rows g t
  unfolding map_rows
  map_rows_kept f g [] h = refl
  map_rows_kept f g ((j, v) ∷ t) h = rw (h v, map_rows_kept f g t h)

  pub any_row-map_rows :
      (p : V → Bool) (f : V → V) (t : Table K V)
      → ((v : V) → p (f v) ≡ p v)
      → any_row p (map_rows f t) ≡ any_row p t
  unfolding map_rows any_row
  any_row-map_rows p f [] h = refl
  any_row-map_rows p f ((j, v) ∷ t) h = rw (h v, any_row-map_rows p f t h)
