-- ===== src/Domains/Place.antt =====
-- schemas.py: one round of `validate_domain_tree`.
use mathlib.Core.Path.{subst}
use backend_wrf.Base.{
  ℕ, ◌/◌, ◌≡◌, ◌≤◌, ◌<◌, ◌⊎◌, refl, ap, sym, nat_eq, ltb, leb, Bool, true, false, not, ◌&&◌, ◌||◌,
  List, [], ◌∷◌, ◌++◌, Option, none, some, arith, if◌then◌else◌,
}
use backend_wrf.Domains.{
  Domain, Fault, box, Siblings, hits, fit, as_root, as_nest, Round, placed, fails, overlaps,
  bad_parent, place,
}
use backend_wrf.Domains.Tree.{IsRoot, FitsIn, IsNest}

passes :
    (b : Bool) (f : Fault) (o : Option Fault)
    → (if b then some f else o) ≡ none
    → (b ≡ false) × (o ≡ none)
passes true f o h = absurd (ground arith)
passes false f o h = (refl, h)

goes_on :
    (b : Bool) (f : Fault) (r : Round) (e : Domain) (t : Siblings)
    → (if b then fails f else r) ≡ placed e t
    → (b ≡ false) × (r ≡ placed e t)
goes_on true f r e t h = absurd (ground arith)
goes_on false f r e t h = (refl, h)

fit-FitsIn :
    (legacy : Bool) (number : ℕ) (parent d : Domain)
    → fit legacy number parent d ≡ none
    → FitsIn parent d (parent.dx / d.dx)
unfolding fit
fit-FitsIn legacy number parent d h =
    let (a, h1) = passes _ _ _ h in
    let (b, h2) = passes _ _ _ h1 in
    let (c, h3) = passes _ _ _ h2 in
    let (x, h4) = passes _ _ _ h3 in
    let (y, h5) = passes _ _ _ h4 in
    record {
      ratio = ratio_of _ _ b;
      same_ratio = same_of _ _ b;
      spacing = both_zero _ _ a;
      extent = both_zero _ _ x;
      inside = both_le _ _ _ _ y;
    }
  where
    ratio_of :
        (r q : ℕ) → (not (nat_eq r q) || not (nat_eq r 3 || nat_eq r 5)) ≡ false → (r ≡ 3) ⊎ (r ≡ 5)
    ratio_of r q z = ground arith

    same_of : (r q : ℕ) → (not (nat_eq r q) || not (nat_eq r 3 || nat_eq r 5)) ≡ false → q ≡ r
    same_of r q z = ground arith

    both_zero : (m n : ℕ) → (not (nat_eq m 0) || not (nat_eq n 0)) ≡ false → (m ≡ 0) × (n ≡ 0)
    both_zero m n z = ground arith

    both_le : (m n k l : ℕ) → (ltb m n || ltb k l) ≡ false → (n ≤ m) × (l ≤ k)
    both_le m n k l z = ground arith

set_ratio-FitsIn : (parent d : Domain) (r : ℕ) → FitsIn parent d r → FitsIn parent (as_nest r d) r
unfolding box
set_ratio-FitsIn parent d r f = record {
  ratio = f.ratio;
  same_ratio = f.same_ratio;
  spacing = f.spacing;
  extent = f.extent;
  inside = f.inside;
}

-- the end of a round: the domain has a parent and fits
finish :
    (done : List Domain) (s t : Siblings) (parent d e : Domain) (o : Option Fault)
    → (elim o [
      | some f ↦ fails f
      | none ↦
          if hits d.parent_id (box (parent.dx / d.dx) d) s
          then fails overlaps
          else placed
              (as_nest (parent.dx / d.dx) d)
              (s ++ (d.parent_id, box (parent.dx / d.dx) d) ∷ [])
    ])
      ≡ placed e t
    → (o ≡ none)
      × (hits d.parent_id (box (parent.dx / d.dx) d) s ≡ false)
      × (as_nest (parent.dx / d.dx) d ≡ e)
      × (s ++ (d.parent_id, box (parent.dx / d.dx) d) ∷ [] ≡ t)
finish done s t parent d e (some f) h = absurd (ground arith)
finish done s t parent d e none h =
    let (a, k) = goes_on _ _ _ e t h in (refl, a, ap domain_of k, ap boxes_of k)
  where
    domain_of : Round → Domain
    domain_of (placed x y) = x
    domain_of (fails f) = d

    boxes_of : Round → Siblings
    boxes_of (placed x y) = y
    boxes_of (fails f) = s

not_taken : {A : Type 0} (b : Bool) (x y z : A) → b ≡ false → (if b then x else y) ≡ z → y ≡ z
not_taken true x y z n h = absurd (ground arith)
not_taken false x y z n h = h

with_parent :
    (o : Option Domain) (k : Domain → Round) (e : Domain) (t : Siblings)
    → (elim o [ none ↦ fails bad_parent | some p ↦ k p ]) ≡ placed e t
    → (p : Domain) × (o ≡ some p) × (k p ≡ placed e t)
with_parent none k e t h = absurd (ground arith)
with_parent (some p) k e t h = (p, refl, h)

pub place-IsNest :
    (legacy : Bool) (number : ℕ) (done : List Domain) (s t : Siblings) (d e : Domain)
    → nat_eq number 1 ≡ false
    → place legacy number done s d ≡ placed e t
    → IsNest number done s e × (s ++ (e.parent_id, box e.parent_grid_ratio e) ∷ [] ≡ t)
unfolding place box
place-IsNest legacy number done s t d e n h =
    let (a, h1) = goes_on _ _ _ e t h in
    let h2 = not_taken _ _ _ _ n h1 in
    let (b, h3) = goes_on _ _ _ e t h2 in
    let (c, h4) = goes_on _ _ _ e t h3 in
    let (parent, there, h5) = with_parent _ _ e t h4 in
    let (f, g, same, rest) = finish done s t parent d e _ h5 in
    let r = parent.dx / d.dx in
    let nest_d : IsNest number done s (as_nest r d) = record {
      name = named _ a;
      earlier = earlier_of d.parent_id b;
      parent = parent;
      found = there;
      ratio = refl;
      fits = set_ratio-FitsIn parent d r (fit-FitsIn legacy number parent d f);
      apart = g;
    } in
    (
      subst (λ x. IsNest number done s x) same nest_d,
      subst (λ x. s ++ (x.parent_id, box x.parent_grid_ratio x) ∷ [] ≡ t) same rest,
    )
  where
    named : (x : Bool) → not x ≡ false → x ≡ true
    named x z = ground arith

    earlier_of : (p : ℕ) → not (leb 1 p && ltb p number) ≡ false → (1 ≤ p) × (p < number)
    earlier_of p z = ground arith

pub place-IsRoot :
    (legacy : Bool) (t : Siblings) (d e : Domain)
    → place legacy 1 [] [] d ≡ placed e t
    → IsRoot e × (t ≡ [])
unfolding place
place-IsRoot legacy t d e h =
    let (a, h1) = goes_on _ _ _ e t h in
    let (b, h2) = goes_on _ _ _ e t h1 in
    let same : as_root d ≡ e = ap domain_of h2 in
    let root_d : IsRoot (as_root d) = record {
      name = named _ a;
      parent_id = zero_of _ b;
      ratio = refl;
      corner = (refl, refl);
    } in
    (subst (λ x. IsRoot x) same root_d, ap boxes_of (sym h2))
  where
    named : (x : Bool) → not x ≡ false → x ≡ true
    named x z = ground arith

    zero_of : (p : ℕ) → not (nat_eq p 0) ≡ false → p ≡ 0
    zero_of p z = ground arith

    domain_of : Round → Domain
    domain_of (placed x y) = x
    domain_of (fails f) = d

    boxes_of : Round → Siblings
    boxes_of (placed x y) = y
    boxes_of (fails f) = []
