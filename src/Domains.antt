-- ===== src/Domains.antt =====
-- schemas.py: `validate_domain_tree` and the fields of `DomainConfig`. The edges of a domain are
-- integral, because the code has rejected a domain whose extent its ratio does not divide before it
-- divides, so `/` on floats and on numbers agree. All numbers are natural: the fields are declared
-- as 0 or more, but for `parent_grid_ratio`, of which the code only asks whether it is 1 or the true
-- ratio, so that a negative one is like any other number that is neither.
pub mod Tree
pub mod Place
pub mod Nested
pub mod Tests
use backend_wrf.Base.{
  ℕ, suc, zero, ◌+◌, ◌-◌, ◌/◌, ◌%◌, ◌==◌, nat_eq, ltb, leb, Bool, true, false, not, ◌&&◌, ◌||◌, any,
  List, [], ◌∷◌, ◌++◌, Option, none, some, get_elem?, length, if◌then◌else◌,
}
use backend_wrf.Text.{to_lower}

pub record Domain : Type 0 where
  pub id : List ℕ
  pub dx : ℕ
  pub dy : ℕ
  pub e_we : ℕ
  pub e_sn : ℕ
  pub parent_id : ℕ
  pub parent_grid_ratio : ℕ
  pub i_parent_start : ℕ
  pub j_parent_start : ℕ

pub data Fault : Type 0 where
  bad_count bad_name bad_root bad_parent not_chained bad_spacing bad_ratio other_ratio bad_extent :
      Fault
  outside overlaps : Fault

pub data Checked : Type 0 where
  accepted : List Domain → Checked
  refused : Fault → Checked

-- `domain.id.lower()`
unfoldable pub lowered : List ℕ → List ℕ
lowered [] = []
lowered (c ∷ s) = to_lower c ∷ lowered s

unfoldable pub same_text : List ℕ → List ℕ → Bool
same_text [] [] = true
same_text (c ∷ s) (d ∷ t) = nat_eq c d && same_text s t
same_text _ _ = false

-- `f"d{number:02d}"`, for a number below 10
unfoldable pub domain_name : ℕ → List ℕ
domain_name number = b'd' ∷ b'0' ∷ (b'0' + number) ∷ []

-- `(west, south, east, north)` in the grid of the parent
pub record Box : Type 0 where
  pub west : ℕ
  pub south : ℕ
  pub east : ℕ
  pub north : ℕ

unfoldable pub box : ℕ → Domain → Box
box ratio d = record {
  west = d.i_parent_start - 1;
  south = d.j_parent_start - 1;
  east = (d.i_parent_start - 1) + (d.e_we - 1) / ratio;
  north = (d.j_parent_start - 1) + (d.e_sn - 1) / ratio;
}

abbrev pub min : ℕ → ℕ → ℕ
min a b = if leb a b then a else b

abbrev pub max : ℕ → ℕ → ℕ
max a b = if leb a b then b else a

unfoldable pub overlap : Box → Box → Bool
overlap a b =
    ltb (max a.west b.west) (min a.east b.east) && ltb (max a.south b.south) (min a.north b.north)

-- `siblings`: the parent and the box of each domain that has passed
abbrev pub Siblings : Type 0
Siblings = List (ℕ × Box)

unfoldable pub hits : ℕ → Box → Siblings → Bool
hits parent b s = any (λ p. nat_eq (p.0) parent && overlap b (p.1)) s

-- the checks of a domain below the first against its parent, up to the siblings: the ratio
unfoldable pub fit : Bool → ℕ → Domain → Domain → Option Fault
fit legacy number parent d =
    let rx = parent.dx / d.dx in
    let ry = parent.dy / d.dy in
    let b = box rx d in
    if not (nat_eq (parent.dx % d.dx) 0) || not (nat_eq (parent.dy % d.dy) 0)
    then some bad_spacing
    else if not (nat_eq rx ry) || not (nat_eq rx 3 || nat_eq rx 5)
    then some bad_ratio
    else if not legacy && not (nat_eq d.parent_grid_ratio 1 || nat_eq d.parent_grid_ratio rx)
    then some other_ratio
    else if not (nat_eq ((d.e_we - 1) % rx) 0) || not (nat_eq ((d.e_sn - 1) % rx) 0)
    then some bad_extent
    else if ltb (parent.e_we - 1) b.east || ltb (parent.e_sn - 1) b.north
    then some outside
    else none

abbrev pub as_root : Domain → Domain
as_root d = record d {
  id = lowered d.id;
  parent_grid_ratio = 1;
  i_parent_start = 1;
  j_parent_start = 1;
}

abbrev pub as_nest : ℕ → Domain → Domain
as_nest ratio d = record d { id = lowered d.id; parent_grid_ratio = ratio }

-- one round of the loop, on the domains before it as they were left, and their boxes
pub data Round : Type 0 where
  placed : Domain → Siblings → Round
  fails : Fault → Round

unfoldable pub place : Bool → ℕ → List Domain → Siblings → Domain → Round
place legacy number done s d =
    if not (same_text (lowered d.id) (domain_name number))
    then fails bad_name
    else if nat_eq number 1
    then if not (nat_eq d.parent_id 0) then fails bad_root else placed (as_root d) s
    else if not (leb 1 d.parent_id && ltb d.parent_id number)
    then fails bad_parent
    else if legacy && not (nat_eq d.parent_id (number - 1))
    then fails not_chained
    else elim (get_elem? done (d.parent_id - 1)) [
      | none ↦ fails bad_parent
      | some parent ↦ elim (fit legacy number parent d) [
        | some f ↦ fails f
        | none ↦
            if hits d.parent_id (box (parent.dx / d.dx) d) s
            then fails overlaps
            else placed (as_nest (parent.dx / d.dx) d)
                (s ++ (d.parent_id, box (parent.dx / d.dx) d) ∷ [])
      ]
    ]

unfoldable pub rounds : Bool → ℕ → List Domain → Siblings → List Domain → Checked
rounds legacy number done s [] = accepted done
rounds legacy number done s (d ∷ ds) = elim (place legacy number done s d) [
  | fails f ↦ refused f
  | placed e t ↦ rounds legacy (suc number) (done ++ e ∷ []) t ds
]

-- `validate_domain_tree`, with the domains as it leaves them
unfoldable pub validate_domain_tree : Bool → List Domain → Checked
validate_domain_tree legacy ds =
    if not (leb 1 (length ds) && leb (length ds) 4)
    then refused bad_count
    else rounds legacy 1 [] [] ds
