-- ===== src/Base/Heap/Order/Up.antt =====
-- `up` of container/heap restores the order above one entry.
use Prim.Native.Nat.{ℕ, zero, suc, ◌<◌}
use mathlib.Core.Path.{◌≡◌}
use mathlib.Core.Logic.{◌≢◌, inl, inr}
use mathlib.Core.Bool.{Bool, true, false}
use mathlib.Core.List.{List}
use native.Mathlib.Omega.{arith}
use drt_go_chain_storage.Base.Bag.{SameBag, same_refl, same_trans}
use drt_go_chain_storage.Base.Tests.{==_iff, ◌==◌, Bool-cases}
use drt_go_chain_storage.Base.Lists.{length}
use drt_go_chain_storage.Base.Slice.{at, swap, swap-perm, length-swap, at-swap}
use drt_go_chain_storage.Base.Heap.{parent, up}
use drt_go_chain_storage.Base.Heap.Order.{Priority, IsHeap, less-at}

module _ {ℓ} {A : Type ℓ} (before : A → A → Bool) (p : Priority before) (d : A) where
  -- only the edge above `j` may be out of order
  pub record UpInv (a : List A) (j : ℕ) : Type 0 where
    pub inside : j < length a
    pub edges :
        (c : ℕ) → 0 < c → c < length a → c ≢ j → before (at d a c) (at d a (parent c)) ≡ false
    pub bridged :
        (c : ℕ)
        → 0 < c
        → c < length a
        → parent c ≡ j
        → 0 < j
        → before (at d a c) (at d a (parent j)) ≡ false

  swap-UpInv :
      (a : List A) (j : ℕ)
      → UpInv a j
      → 0 < j
      → before (at d a j) (at d a (parent j)) ≡ true
      → UpInv (swap (parent j) j a) (parent j)
  swap-UpInv a j v pos below =
      let above : parent j < length a = omega (arith, v.inside) in
      let read = at-swap d a (parent j) j above v.inside in
      let size = length-swap d a (parent j) j above v.inside in
      let over = p.asym (at d a j) (at d a (parent j)) below in
      record {
        inside = omega (arith, size, above);
        edges = λ c q r s. ground (
          arith,
          read c,
          read (parent c),
          size,
          over,
          v.edges c,
          v.bridged c,
          p.trans (at d a c) (at d a (parent j)) (at d a j),
        );
        bridged = λ c q r s t. ground (
          arith,
          read c,
          read (parent (parent j)),
          size,
          v.edges c,
          v.edges (parent j),
          p.trans (at d a c) (at d a (parent j)) (at d a (parent (parent j))),
        );
      }

  pub up-IsHeap :
      (fuel j : ℕ) (a : List A)
      → j < fuel
      → UpInv a j
      → IsHeap before d (up before fuel j a) × SameBag (up before fuel j a) a
  unfolding up
  up-IsHeap zero j a f v = absurd (omega arith)
  up-IsHeap (suc fuel) j a f v = elim (Bool-cases (parent j == j)) [
    | inl root ↦ rw root (λ c q r. v.edges c q r (ground (arith, root)), same_refl a)
    | inr inner ↦
        let pos : 0 < j = ground (arith, inner) in
        let above : parent j < length a = omega (arith, v.inside) in
        let test = less-at before d a j (parent j) v.inside above in
        elim (Bool-cases (before (at d a j) (at d a (parent j)))) [
          | inl below ↦
              let (heap, perm) =
                up-IsHeap fuel (parent j) (swap (parent j) j a) (omega arith)
                  (swap-UpInv a j v pos below) in
              rw (inner, test, below)
                (heap, same_trans perm (swap-perm d a (parent j) j above v.inside))
          | inr settled ↦
              rw (inner, test, settled)
                (λ c q r. ground (arith, v.edges c, settled, ==_iff c j), same_refl a)
        ]
  ]
