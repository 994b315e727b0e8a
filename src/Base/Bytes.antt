-- ===== src/Base/Bytes.antt =====
-- Byte strings: Go's `[]byte` and `string` as lists of numbers, with `bytes.Compare`.
use Prim.Native.Nat.{compare, Ordering}
use drt_go_chain_storage.Base.Tests.{◌==◌}
use drt_go_chain_storage.Base.Classes.{Eq}
use Prim.Native.Nat.{ℕ}
use mathlib.Core.Path.{◌≡◌, refl}
use mathlib.Core.Logic.{◌↔◌}
use mathlib.Core.Bool.{Bool, true, false, ◌&&◌}
use mathlib.Core.List.{List, [], ◌∷◌}
use native.Mathlib.Omega.{arith}

abbrev pub Bytes : Type 0
Bytes = List ℕ

unfoldable pub bytes_beq : Bytes → Bytes → Bool
bytes_beq [] [] = true
bytes_beq (a ∷ s) (b ∷ t) = a == b && bytes_beq s t
bytes_beq _ _ = false

pub bytes_beq_iff : (s t : Bytes) → (bytes_beq s t ≡ true) ↔ (s ≡ t)
unfolding bytes_beq
bytes_beq_iff [] [] = (λ _. refl, λ _. refl)
bytes_beq_iff (a ∷ s) (b ∷ t) =
    (λ h. ground (arith, bytes_beq_iff s t), λ h. ground (arith, bytes_beq_iff s t))
bytes_beq_iff [] (b ∷ t) = (λ h. cc, λ h. cc)
bytes_beq_iff (a ∷ s) [] = (λ h. cc, λ h. cc)

instance abbrev pub bytes_eq : Eq Bytes
bytes_eq = record { beq = bytes_beq; beq_iff = bytes_beq_iff }

-- `bytes.Compare`: lexicographic, a prefix first
unfoldable pub bytes_compare : Bytes → Bytes → Ordering
bytes_compare [] [] = Ordering.eq
bytes_compare [] (b ∷ t) = Ordering.lt
bytes_compare (a ∷ s) [] = Ordering.gt
bytes_compare (a ∷ s) (b ∷ t) = elim (compare a b) [
  | Ordering.lt ↦ Ordering.lt
  | Ordering.eq ↦ bytes_compare s t
  | Ordering.gt ↦ Ordering.gt
]

pub bytes_compare-eq : (s t : Bytes) → bytes_compare s t ≡ Ordering.eq → s ≡ t
unfolding bytes_compare
bytes_compare-eq [] [] h = refl
bytes_compare-eq [] (b ∷ t) h = cc
bytes_compare-eq (a ∷ s) [] h = cc
bytes_compare-eq (a ∷ s) (b ∷ t) h = ground (arith, bytes_compare-eq s t)

pub bytes_compare_self : (s : Bytes) → bytes_compare s s ≡ Ordering.eq
unfolding bytes_compare
bytes_compare_self [] = refl
bytes_compare_self (a ∷ s) = ground (arith, bytes_compare_self s)

pub bytes_compare_gt :
    (s t : Bytes) → bytes_compare s t ≡ Ordering.gt → bytes_compare t s ≡ Ordering.lt
unfolding bytes_compare
bytes_compare_gt [] [] h = cc
bytes_compare_gt [] (b ∷ t) h = cc
bytes_compare_gt (a ∷ s) [] h = refl
bytes_compare_gt (a ∷ s) (b ∷ t) h = ground (arith, bytes_compare_gt s t)

pub bytes_compare_trans :
    (s t u : Bytes)
    → bytes_compare s t ≡ Ordering.lt
    → bytes_compare t u ≡ Ordering.lt
    → bytes_compare s u ≡ Ordering.lt
unfolding bytes_compare
bytes_compare_trans [] (b ∷ t) (c ∷ u) h k = refl
bytes_compare_trans (a ∷ s) (b ∷ t) (c ∷ u) h k = ground (arith, bytes_compare_trans s t u)
bytes_compare_trans [] [] u h k = cc
bytes_compare_trans (a ∷ s) [] u h k = cc
bytes_compare_trans [] (b ∷ t) [] h k = cc
bytes_compare_trans (a ∷ s) (b ∷ t) [] h k = cc

abbrev pub flip : Ordering → Ordering
flip Ordering.lt = Ordering.gt
flip Ordering.eq = Ordering.eq
flip Ordering.gt = Ordering.lt

pub bytes_compare-flip : (s t : Bytes) → bytes_compare s t ≡ flip (bytes_compare t s)
unfolding bytes_compare
bytes_compare-flip [] [] = refl
bytes_compare-flip [] (b ∷ t) = refl
bytes_compare-flip (a ∷ s) [] = refl
bytes_compare-flip (a ∷ s) (b ∷ t) = ground (arith, bytes_compare-flip s t)
