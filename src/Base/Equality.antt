-- ===== src/Base/Equality.antt =====
-- Python's `==` on the types of keys.
use Prim.Native.Nat.{ℕ}
use Prim.Native.String.{String}
use mathlib.Core.Path.{◌≡◌, refl}
use mathlib.Core.Logic.{◌↔◌}
use mathlib.Core.Bool.{Bool, true, ◌&&◌}
use native.Mathlib.Omega.{arith}
use text.Mathlib.Text.{◌==◌ as str_eq}
use text.Mathlib.TextEquality.{eq_iff}
use backend_wrf.Base.Tests.{nat_eq, nat_eq_iff}

-- a type whose values are compared by `==`
pub record Key {ℓ} (K : Type ℓ) : Type ℓ where
  pub same : K → K → Bool
  pub same_iff : (k j : K) → (same k j ≡ true) ↔ (k ≡ j)

instance abbrev pub string_eq : Key String
string_eq = record { same = str_eq; same_iff = eq_iff }

infix 50 ◌==◌
abbrev pub ◌==◌ {ℓ} : {K : Type ℓ} ⦃e : Key K⦄ → K → K → Bool
◌==◌ ⦃e⦄ k j = e.same k j

instance abbrev pub ℕ_eq : Key ℕ
ℕ_eq = record { same = nat_eq; same_iff = nat_eq_iff }

abbrev pub pair_same : String × String → String × String → Bool
pair_same p q = str_eq p.0 q.0 && str_eq p.1 q.1

pub pair_same_iff : (p q : String × String) → (pair_same p q ≡ true) ↔ (p ≡ q)
pair_same_iff (a, b) (c, d) = ground (arith, eq_iff a c, eq_iff b d)

-- The key `(owner_sub, submission_key)`.
instance abbrev pub pair_eq : Key (String × String)
pair_eq = record { same = pair_same; same_iff = pair_same_iff }

abbrev pub attempt_same : String × ℕ → String × ℕ → Bool
attempt_same p q = str_eq p.0 q.0 && nat_eq p.1 q.1

pub attempt_same_iff : (p q : String × ℕ) → (attempt_same p q ≡ true) ↔ (p ≡ q)
attempt_same_iff (a, b) (c, d) = ground (arith, eq_iff a c, nat_eq_iff b d)

-- The key `(task_id, attempt_no)`.
instance abbrev pub attempt_eq : Key (String × ℕ)
attempt_eq = record { same = attempt_same; same_iff = attempt_same_iff }

module _ {ℓ} {A : Type ℓ} ⦃e : Key A⦄ where
  pub same_refl : (a : A) → e.same a a ≡ true
  same_refl a = (e.same_iff a a).1 refl
