-- ===== src/Base/Heap/Order.antt =====
-- The heap order: an entry comes before none above it. `before` is asymmetric, and what it does not
-- decide is transitive.
pub mod Up
pub mod Down
pub mod Queue
use Prim.Native.Nat.{ℕ, zero, suc, ◌<◌}
use mathlib.Core.Path.{◌≡◌, refl}
use mathlib.Core.Bool.{Bool, true, false}
use mathlib.Core.List.{List}
use native.Mathlib.Omega.{arith}
use drt_go_chain_storage.Base.Tests.{ltb, ==_iff}
use drt_go_chain_storage.Base.Lists.{length}
use drt_go_chain_storage.Base.Slice.{at, get_elem?-at}
use drt_go_chain_storage.Base.Heap.{less, parent}

module _ {ℓ} {A : Type ℓ} (before : A → A → Bool) where
  pub record Priority : Type ℓ where
    pub asym : (x y : A) → before x y ≡ true → before y x ≡ false
    pub trans : (x y z : A) → before x y ≡ false → before y z ≡ false → before x z ≡ false

  module _ (d : A) where
    abbrev pub IsHeap : List A → Type 0
    IsHeap a = (c : ℕ) → 0 < c → c < length a → before (at d a c) (at d a (parent c)) ≡ false

    pub less-at :
        (a : List A) (i j : ℕ)
        → i < length a
        → j < length a
        → less before a i j ≡ before (at d a i) (at d a j)
    unfolding less
    less-at a i j hi hj = rw (get_elem?-at d a i hi, less) (rw (get_elem?-at d a j hj, less) refl)

    root_first_below :
        (p : Priority) (k : ℕ) (a : List A) (i : ℕ)
        → IsHeap a
        → i < k
        → i < length a
        → before (at d a i) (at d a 0) ≡ false
    root_first_below p zero a i h f q = absurd (omega arith)
    root_first_below p (suc k) a zero h f q = irrefl
      where
        irrefl : before (at d a 0) (at d a 0) ≡ false
        irrefl = ground (arith, p.asym (at d a 0) (at d a 0))
    root_first_below p (suc k) a (suc i) h f q =
        p.trans (at d a (suc i)) (at d a (parent (suc i))) (at d a 0) (h (suc i) (omega arith) q)
          (root_first_below p k a (parent (suc i)) h (omega arith) (omega arith))

    -- nothing in a heap comes before its root
    pub root_first :
        (p : Priority) (a : List A) (i : ℕ)
        → IsHeap a
        → i < length a
        → before (at d a i) (at d a 0) ≡ false
    root_first p a i h q = root_first_below p (suc i) a i h (omega arith) q
