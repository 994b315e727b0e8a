-- ===== src/Base/Heap.antt =====
-- Go's `container/heap` over a slice: `Push` and `Pop` of an `heap.Interface` whose `Less` compares
-- two entries by `before`. The sifting loops take fuel, one round for each entry and one more.
-- `Init` of an empty heap does nothing.
pub mod Order
use Prim.Native.Nat.{ℕ, zero, suc, ◌+◌, ◌-◌, ◌*◌, ◌/◌}
use mathlib.Core.Bool.{Bool, true, false, ◌&&◌}
use mathlib.Core.Option.{Option, none, some}
use mathlib.Core.List.{List, [], ◌∷◌, ◌++◌}
use drt_go_chain_storage.Base.Tests.{if◌then◌else◌, ltb, ◌==◌}
use drt_go_chain_storage.Base.Lists.{length, get_elem?, last?, drop_last}
use drt_go_chain_storage.Base.Slice.{swap}

abbrev pub parent : ℕ → ℕ
parent c = (c - 1) / 2

module _ {ℓ} {A : Type ℓ} (before : A → A → Bool) where
  -- `h.Less(i, j)`
  unfoldable pub less : List A → ℕ → ℕ → Bool
  less a i j = elim (get_elem? a i) [
    | none ↦ false
    | some x ↦ elim (get_elem? a j) [ none ↦ false | some y ↦ before x y ]
  ]

  unfoldable pub up : ℕ → ℕ → List A → List A
  up zero j a = a
  up (suc fuel) j a =
      let rest = up fuel (parent j) (swap (parent j) j a) in
      if parent j == j then a else if less a j (parent j) then rest else a

  -- the child that comes first, among the entries in front of `n`
  unfoldable pub first_child : ℕ → ℕ → List A → ℕ
  first_child n i a =
      if ltb (2 * i + 2) n && less a (2 * i + 2) (2 * i + 1) then 2 * i + 2 else 2 * i + 1

  unfoldable pub down : ℕ → ℕ → ℕ → List A → List A
  down zero n i a = a
  down (suc fuel) n i a =
      let j = first_child n i a in
      let rest = down fuel n j (swap i j a) in
      if ltb (2 * i + 1) n then (if less a j i then rest else a) else a

  -- `heap.Push(h, x)`
  unfoldable pub push : A → List A → List A
  push x a = up (length a + 1) (length a) (a ++ x ∷ [])

  -- `heap.Pop(h)`, the entry and the heap; `none` of an empty heap, which panics
  unfoldable pub pop : List A → Option (A × List A)
  pop a =
      let n = length a - 1 in
      let sifted = down (length a) n 0 (swap 0 n a) in
      elim (last? sifted) [ none ↦ none | some x ↦ some (x, drop_last sifted) ]
