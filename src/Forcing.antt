-- ===== src/Forcing.antt =====
-- forcing_policy.py: the operations that download, cancel and observe forcing files.
-- `forcing_reference_guard` is the lock file of forcing_lifecycle.py: what stands under it is one
-- step on the store. Between two such steps other threads run: `world` is what they do to the store.
-- The HPC client is not modelled: its replies are arguments, `none` for an exception.
pub mod Request
pub mod Cancel
pub mod Observe
pub mod Admin
mod Tests
use backend_wrf.Base.{ℕ, ◌==◌, ℕ_eq, String, Bool, false, ◌&&◌, List, [], ◌∷◌, all, length, nat_eq}
use backend_wrf.Text.{codes, is_digit}

-- `CYCLE.fullmatch`: eight digits and `00`
unfoldable pub cycle_codes : List ℕ → Bool
cycle_codes (a ∷ b ∷ c ∷ d ∷ e ∷ f ∷ g ∷ h ∷ i ∷ j ∷ []) =
    all is_digit (a ∷ b ∷ c ∷ d ∷ e ∷ f ∷ g ∷ h ∷ []) && nat_eq i b'0' && nat_eq j b'0'
cycle_codes _ = false

unfoldable pub is_cycle : String → Bool
is_cycle s = cycle_codes (codes s)

-- A call that the service sends to the HPC client.
pub data Call : Type 0 where
  trigger_download : String → String → ℕ → List ℕ → String → Call
  release_reference : String → String → String → Call
