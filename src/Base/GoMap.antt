-- ===== src/Base/GoMap.antt =====
-- Go's `map[K]V` as an association list in which each key stands once. The order of the list
-- stands for the iteration order, which Go leaves open.
use Prim.Native.Nat.{suc, ◌+◌}
use mathlib.Core.Path.{◌≡◌, refl}
use mathlib.Core.Bool.{Bool}
use mathlib.Core.Option.{Option, none, some}
use mathlib.Core.List.{List, [], ◌∷◌}
use native.Mathlib.Omega.{arith}
use drt_go_chain_storage.Base.Tests.{if◌then◌else◌, is_some}
use drt_go_chain_storage.Base.Classes.{Eq}
use drt_go_chain_storage.Base.Lists.{length}

abbrev pub GoMap {ℓ κ} : Type ℓ → Type κ → Type (ℓ ⊔ κ)
GoMap K V = List (K × V)

module _ {ℓ κ} {K : Type ℓ} {V : Type κ} ⦃e : Eq K⦄ where
  -- `v, ok := m[k]`
  unfoldable pub lookup : K → GoMap K V → Option V
  lookup k [] = none
  lookup k ((j, v) ∷ m) = if e.beq j k then some v else lookup k m

  -- `m[k] = v`
  unfoldable pub insert : K → V → GoMap K V → GoMap K V
  insert k v [] = (k, v) ∷ []
  insert k v ((j, w) ∷ m) = if e.beq j k then (j, v) ∷ m else (j, w) ∷ insert k v m

  -- `delete(m, k)`
  unfoldable pub delete : K → GoMap K V → GoMap K V
  delete k [] = []
  delete k ((j, w) ∷ m) = if e.beq j k then m else (j, w) ∷ delete k m

  abbrev pub has : K → GoMap K V → Bool
  has k m = is_some (lookup k m)

  -- no key stands twice
  abbrev pub Distinct : GoMap K V → Type κ
  Distinct [] = Unit
  Distinct ((j, _) ∷ m) = (lookup j m ≡ none) × Distinct m

  pub lookup-insert :
      (k q : K) (v : V) (m : GoMap K V)
      → lookup q (insert k v m) ≡ (if e.beq k q then some v else lookup q m)
  unfolding lookup insert
  lookup-insert k q v [] = refl
  lookup-insert k q v ((j, w) ∷ m) =
      ground (arith, e.beq_iff j k, e.beq_iff j q, e.beq_iff k q, lookup-insert k q v m)

  pub lookup-delete :
      (k q : K) (m : GoMap K V)
      → Distinct m
      → lookup q (delete k m) ≡ (if e.beq k q then none else lookup q m)
  unfolding lookup delete
  lookup-delete k q [] d = ground arith
  lookup-delete k q ((j, w) ∷ m) d =
      ground (arith, e.beq_iff j k, e.beq_iff j q, e.beq_iff k q, lookup-delete k q m d.1)

  pub insert-Distinct : (k : K) (v : V) (m : GoMap K V) → Distinct m → Distinct (insert k v m)
  unfolding insert lookup
  insert-Distinct k v [] d = (refl, tt)
  insert-Distinct k v ((j, w) ∷ m) d =
      ground (arith, e.beq_iff k j, e.beq_iff j k, insert-Distinct k v m d.1, lookup-insert k j v m)

  pub delete-Distinct : (k : K) (m : GoMap K V) → Distinct m → Distinct (delete k m)
  unfolding delete lookup
  delete-Distinct k [] d = tt
  delete-Distinct k ((j, w) ∷ m) d =
      ground (arith, e.beq_iff k j, delete-Distinct k m d.1, lookup-delete k j m d.1)

  pub length-insert :
      (k : K) (v : V) (m : GoMap K V)
      → length (insert k v m) ≡ (if has k m then length m else suc (length m))
  unfolding insert lookup
  length-insert k v [] = refl
  length-insert k v ((j, w) ∷ m) = ground (arith, length-insert k v m)

  pub length-delete :
      (k : K) (m : GoMap K V) → length (delete k m) + (if has k m then 1 else 0) ≡ length m
  unfolding delete lookup
  length-delete k [] = refl
  length-delete k ((j, w) ∷ m) = ground (arith, length-delete k m)
