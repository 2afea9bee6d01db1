-- ===== src/Domains/Tests.antt =====
-- A tree of three domains.
use backend_wrf.Base.{ℕ, ◌≡◌, ◌≤◌, refl, false, [], ◌∷◌, length}
use backend_wrf.Text.{codes, to_lower}
use backend_wrf.Domains.{
  Domain, accepted, Siblings, validate_domain_tree, rounds, place, fit, box, overlap, hits, lowered,
  same_text, domain_name,
}
use backend_wrf.Domains.Tree.{Tree}
use backend_wrf.Domains.Nested.{validate_domain_tree-Tree}

abbrev outer : Domain
outer = record {
  id = codes "D01";
  dx = 9000;
  dy = 9000;
  e_we = 100;
  e_sn = 100;
  parent_id = 0;
  parent_grid_ratio = 1;
  i_parent_start = 7;
  j_parent_start = 1;
}

abbrev inner : Domain
inner = record {
  id = codes "d02";
  dx = 3000;
  dy = 3000;
  e_we = 61;
  e_sn = 61;
  parent_id = 1;
  parent_grid_ratio = 1;
  i_parent_start = 10;
  j_parent_start = 10;
}

abbrev outer_left : Domain
outer_left = record outer { id = codes "d01"; i_parent_start = 1 }

abbrev inner_left : Domain
inner_left = record inner { parent_grid_ratio = 3 }

two_domains :
    validate_domain_tree false (outer ∷ inner ∷ []) ≡ accepted (outer_left ∷ inner_left ∷ [])
unfolding validate_domain_tree rounds place fit box overlap hits lowered same_text domain_name
    to_lower
two_domains = refl

validate_domain_tree-Tree_example :
    ((n : ℕ) × (s : Siblings) × Tree n (outer_left ∷ inner_left ∷ []) s)
    × (length (outer_left ∷ inner_left ∷ []) ≡ 2)
    × (1 ≤ length (outer_left ∷ inner_left ∷ []))
    × (length (outer_left ∷ inner_left ∷ []) ≤ 4)
validate_domain_tree-Tree_example =
    validate_domain_tree-Tree false (outer ∷ inner ∷ []) (outer_left ∷ inner_left ∷ []) two_domains
