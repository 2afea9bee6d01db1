-- ===== src/Domains/Nested.antt =====
-- schemas.py: the tree that `validate_domain_tree` accepts.
use mathlib.Core.Path.{subst}
use backend_wrf.Base.{
  ℕ, suc, ◌+◌, ◌≡◌, ◌≤◌, inl, inr, refl, ap, sym, nat_eq, leb, Bool, true, false, not, ◌&&◌,
  Bool-cases, List, [], ◌∷◌, ◌++◌, length, length-append, arith, if◌then◌else◌,
}
use backend_wrf.Domains.{
  Domain, Checked, accepted, refused, Siblings, Round, placed, fails, bad_count, place, rounds,
  validate_domain_tree,
}
use backend_wrf.Domains.Tree.{Tree, empty, root, nest}
use backend_wrf.Domains.Place.{place-IsNest, place-IsRoot}

Tree-number : (number : ℕ) (done : List Domain) (s : Siblings) → Tree number done s → 1 ≤ number
Tree-number number done s empty = ground arith
Tree-number number done s (root r) = ground arith
Tree-number number done s (nest tree n) = ground arith

Tree-grown :
    (legacy : Bool) (number : ℕ) (done : List Domain) (s t : Siblings) (d e : Domain)
    → nat_eq number 1 ≡ false
    → Tree number done s
    → place legacy number done s d ≡ placed e t
    → Tree (suc number) (done ++ e ∷ []) t
Tree-grown legacy number done s t d e n tree h =
    let (is_nest, same) = place-IsNest legacy number done s t d e n h in
    subst (λ x. Tree (suc number) (done ++ e ∷ []) x) same (nest tree is_nest)

Tree-place :
    (legacy : Bool) (number : ℕ) (done : List Domain) (s t : Siblings) (d e : Domain)
    → Tree number done s
    → place legacy number done s d ≡ placed e t
    → Tree (suc number) (done ++ e ∷ []) t
Tree-place legacy number done s t d e empty h =
    let (is_root, same) = place-IsRoot legacy t d e h in
    subst (λ x. Tree 2 (e ∷ []) x) (sym same) (root is_root)
Tree-place legacy number done s t d e (root r) h = Tree-grown legacy 2 _ _ t d e refl (root r) h
Tree-place legacy number done s t d e (nest {number = m} tree n) h =
    Tree-grown legacy (suc m) _ _ t d e (ground (arith, Tree-number m _ _ tree)) (nest tree n) h

Tree-rounds :
    (legacy : Bool) (ds : List Domain) (number : ℕ) (done out : List Domain) (s : Siblings)
    → Tree number done s
    → rounds legacy number done s ds ≡ accepted out
    → (n : ℕ) × (t : Siblings) × Tree n out t × (length out ≡ length done + length ds)
unfolding rounds
Tree-rounds legacy [] number done out s tree h =
    (number, s, subst (λ x. Tree number x s) (ap list_of h) tree, ground arith)
  where
    list_of : Checked → List Domain
    list_of (accepted x) = x
    list_of (refused f) = done
Tree-rounds legacy (d ∷ ds) number done out s tree h =
    go (λ e t. Tree-rounds legacy ds (suc number) (done ++ e ∷ []) out t)
      (place legacy number done s d) refl h
  where
    go :
        ((e : Domain) (t : Siblings)
          → Tree (suc number) (done ++ e ∷ []) t
          → rounds legacy (suc number) (done ++ e ∷ []) t ds ≡ accepted out
          → (n : ℕ) × (u : Siblings) × Tree n out u
            × (length out ≡ length (done ++ e ∷ []) + length ds))
        → (r : Round) → place legacy number done s d ≡ r
        → (elim r [
          | fails f ↦ refused f
          | placed e t ↦ rounds legacy (suc number) (done ++ e ∷ []) t ds
        ])
          ≡ accepted out
        → (n : ℕ) × (t : Siblings) × Tree n out t × (length out ≡ length done + length (d ∷ ds))
    go later (fails f) p k = absurd (ground arith)
    go later (placed e t) p k =
        let (n, u, grown, l) = later e t (Tree-place legacy number done s t d e tree p) k in
        (n, u, grown, omega (arith, l, length-append done (e ∷ [])))

-- The domains that a call accepts, with the changes that it makes to them, are as many as it was
-- given, from one to four, and form a nested tree: the first is the root at ratio 1 and in the
-- corner, and each later one bears its number, lies in an earlier one at a ratio of 3 or 5 that
-- divides the spacings and the extent, does not leave its parent, and overlaps no earlier sibling.
pub validate_domain_tree-Tree :
    (legacy : Bool) (ds out : List Domain)
    → validate_domain_tree legacy ds ≡ accepted out
    → ((n : ℕ) × (s : Siblings) × Tree n out s)
      × (length out ≡ length ds)
      × (1 ≤ length out)
      × (length out ≤ 4)
unfolding validate_domain_tree
validate_domain_tree-Tree legacy ds out h =
    elim (Bool-cases (leb 1 (length ds) && leb (length ds) 4)) [
      | inl some_domains ↦ of_rounds some_domains (
          Tree-rounds legacy ds 1 [] out [] empty
            (checked (leb 1 (length ds) && leb (length ds) 4) some_domains h))
      | inr none_or_many ↦ absurd (ground (arith, none_or_many))
    ]
  where
    checked :
        (b : Bool)
        → b ≡ true
        → (if not b then refused bad_count else rounds legacy 1 [] [] ds) ≡ accepted out
        → rounds legacy 1 [] [] ds ≡ accepted out
    checked true c k = k
    checked false c k = absurd (ground arith)

    of_rounds :
        (leb 1 (length ds) && leb (length ds) 4) ≡ true
        → ((n : ℕ) × (s : Siblings) × Tree n out s × (length out ≡ 0 + length ds))
        → ((n : ℕ) × (s : Siblings) × Tree n out s)
          × (length out ≡ length ds)
          × (1 ≤ length out)
          × (length out ≤ 4)
    of_rounds b (n, s, tree, l) =
        ((n, s, tree), omega (arith, l), ground (arith, b, l), ground (arith, b, l))
