-- ===== src/Json/Laws.antt =====
-- Lookups after the updates of a dict.
use backend_wrf.Base.{
  String, eq_iff, ◌==◌, ◌≡◌, refl, ◌∙◌, false, inl, inr, Bool-cases, none, some, arith,
  if◌then◌else◌, string_eq,
}
use backend_wrf.Json.{Json, Dict, empty, field, get, set, pop, update}

pub get-set :
    (k j : String) (v : Json) (d : Dict) → get j (set k v d) ≡ (if k == j then some v else get j d)
unfolding get set
get-set k j v empty = refl
get-set k j v (field i w d) = ground (arith, eq_iff k j, eq_iff i k, eq_iff i j, get-set k j v d)

pub get-pop : (k j : String) (d : Dict) → get j (pop k d) ≡ (if k == j then none else get j d)
unfolding get pop
get-pop k j empty = ground arith
get-pop k j (field i w d) = ground (arith, eq_iff k j, eq_iff i k, eq_iff i j, get-pop k j d)

-- A merge leaves a key that it does not have.
pub get-update : (k : String) (d v : Dict) → get k v ≡ none → get k (update d v) ≡ get k d
unfolding get update
get-update k d empty h = refl
get-update k d (field j w v) h = elim (Bool-cases (j == k)) [
  | inl e ↦ absurd (ground (arith, h, e))
  | inr e ↦ get-update k (set j w d) v (rest e) ∙ (get-set j k w d ∙ rw e refl)
]
  where
    rest : (j == k) ≡ false → get k v ≡ none
    rest e = ground (arith, h, e)
