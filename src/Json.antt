-- ===== src/Json.antt =====
-- The values that the tables keep as JSON text: the columns `data_json`, `request_json` and so on.
-- `json.dumps` followed by `json.loads` gives back the value, so a column holds the value itself.
-- Numbers are natural: attempts, versions and, in the smallest unit of the clock, timestamps.
pub mod Laws
use backend_wrf.Base.{
  ℕ, zero, suc, ◌+◌, String, ◌==◌, string_eq, ℕ_eq, nat_eq, Bool, true, false, not, ◌&&◌, Option,
  none, some, List, [], ◌∷◌, if◌then◌else◌,
}

mutual
  pub data Json : Type 0 where
    null : Json
    bool : Bool → Json
    num : ℕ → Json
    str : String → Json
    arr : Items → Json
    obj : Dict → Json

  pub data Items : Type 0 where
    nil : Items
    cons : Json → Items → Items

  -- A `dict` with string keys, in insertion order.
  pub data Dict : Type 0 where
    empty : Dict
    field : String → Json → Dict → Dict

-- `d.get(k)`
unfoldable pub get : String → Dict → Option Json
get k empty = none
get k (field j v d) = if j == k then some v else get k d

-- `d[k] = v`
unfoldable pub set : String → Json → Dict → Dict
set k v empty = field k v empty
set k v (field j w d) = if j == k then field k v d else field j w (set k v d)

-- `d.pop(k, None)`
unfoldable pub pop : String → Dict → Dict
pop k empty = empty
pop k (field j w d) = let rest = pop k d in if j == k then rest else field j w rest

-- `d.update(changes)`, which is `{**d, **changes}`
unfoldable pub update : Dict → Dict → Dict
update d empty = d
update d (field k v changes) = update (set k v d) changes

-- `bool(v)`
unfoldable pub truthy : Json → Bool
truthy null = false
truthy (bool b) = b
truthy (num n) = not (n == 0)
truthy (str s) = not (s == "")
truthy (arr nil) = false
truthy (arr (cons v vs)) = true
truthy (obj empty) = false
truthy (obj (field k v d)) = true

-- `bool(d.get(k))`, where a missing key gives `None`
unfoldable pub truthy? : Option Json → Bool
unfolding truthy
truthy? none = false
truthy? (some v) = truthy v

-- `v == w` on the scalars. Lists and dicts are never compared by the code modelled here.
unfoldable pub same : Json → Json → Bool
same null null = true
same (bool a) (bool b) = if a then b else not b
same (num a) (num b) = a == b
same (str a) (str b) = a == b
same v w = false

-- `d.get(k) == e.get(k)`
unfoldable pub same? : Option Json → Option Json → Bool
unfolding same
same? none none = true
same? (some v) (some w) = same v w
same? none (some v) = same null v
same? (some v) none = same v null

-- `vs.append(v)`
unfoldable pub append : Items → Json → Items
append nil v = cons v nil
append (cons w vs) v = cons w (append vs v)
