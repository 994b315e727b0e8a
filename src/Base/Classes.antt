-- ===== src/Base/Classes.antt =====
-- Keys with a decidable equality: the comparable types of Go.
use mathlib.Core.Path.{◌≡◌}
use mathlib.Core.Logic.{◌↔◌}
use mathlib.Core.Bool.{Bool, true}
use drt_go_chain_storage.Base.Tests

pub record Eq {ℓ} (A : Type ℓ) : Type ℓ where
  pub beq : A → A → Bool
  pub beq_iff : (a b : A) → (beq a b ≡ true) ↔ (a ≡ b)

instance abbrev pub nat_eq : Eq Prim.Native.Nat.ℕ
nat_eq = record { beq = Tests.◌==◌; beq_iff = Tests.==_iff }
