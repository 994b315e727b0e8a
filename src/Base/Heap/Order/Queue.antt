-- ===== src/Base/Heap/Order/Queue.antt =====
-- `Push` and `Pop` of container/heap as operations on a bag of entries.
use Prim.Native.Nat.{ℕ, suc, ◌+◌, ◌-◌, ◌<◌}
use mathlib.Core.Path.{◌≡◌, refl, subst, ◌∙◌}
use mathlib.Core.Bool.{Bool, false}
use mathlib.Core.Option.{none, some}
use mathlib.Core.List.{List, [], ◌∷◌, ◌++◌}
use native.Mathlib.Omega.{arith}
use drt_go_chain_storage.Base.Bag.{SameBag, same_trans}
use drt_go_chain_storage.Base.Lists.{length, drop_last, All, length-append, length-drop_last}
use drt_go_chain_storage.Base.Slice.{
  at, swap, swap-perm, length-swap, at-swap, at-append, at-drop_last, last?-at, append-perm,
}
use drt_go_chain_storage.Base.Heap.{parent, down, push, pop}
use drt_go_chain_storage.Base.Heap.Order.{Priority, IsHeap, root_first}
use drt_go_chain_storage.Base.Heap.Order.Up.{UpInv, up-IsHeap}
use drt_go_chain_storage.Base.Heap.Order.Down.{DownInv, down-Sunk}

module _ {ℓ} {A : Type ℓ} (before : A → A → Bool) (p : Priority before) (d : A) where
  pub push-IsHeap :
      (x : A) (a : List A)
      → IsHeap before d a
      → IsHeap before d (push before x a) × SameBag (push before x a) (x ∷ a)
  unfolding push
  push-IsHeap x a h =
      let size = length-append a (x ∷ []) in
      let read = at-append d x a in
      let inv : UpInv before p d (a ++ x ∷ []) (length a) = record {
        inside = omega (arith, size);
        edges = λ c q r s. ground (arith, size, read c, read (parent c), h c);
        bridged = λ c q r s t. absurd (omega (arith, size));
      } in
      let (heap, perm) =
        up-IsHeap before p d (length a + 1) (length a) (a ++ x ∷ []) (omega arith) inv in
      (heap, same_trans perm (append-perm a x))

  -- an entry that nothing comes before, and the others
  pub record Popped (a : List A) (r : A × List A) : Type ℓ where
    pub heap : IsHeap before d r.1
    pub perm : SameBag (r.0 ∷ r.1) a
    pub best : (i : ℕ) → i < length a → before (at d a i) r.0 ≡ false

  pub pop-Popped :
      (a : List A)
      → IsHeap before d a
      → 0 < length a
      → (r : A × List A) × (pop before a ≡ some r) × Popped a r
  unfolding pop
  pop-Popped a h many =
      let n = length a - 1 in
      let b = swap 0 n a in
      let read = at-swap d a 0 n many (omega (arith, many)) in
      let size = length-swap d a 0 n many (omega (arith, many)) in
      let inv : DownInv before p d n b 0 = record {
        inside = omega (arith, size);
        edges = λ c q r s. ground (arith, read c, read (parent c), h c);
        bridged = λ c q r s t. absurd (omega (arith, t));
      } in
      let s = down-Sunk before p d n (length a) 0 b (omega arith) inv in
      let sunk = down before (length a) n 0 b in
      let (last, perm) = last?-at d n sunk (omega (arith, s.size, size, many)) in
      let root : at d sunk n ≡ at d a 0 = s.kept ∙ ground (arith, read n) in
      (
        (at d sunk n, drop_last sunk),
        rw (last, pop) refl,
        record {
          heap = λ c q r. ground (
            arith,
            s.edges c,
            length-drop_last sunk,
            s.size,
            size,
            at-drop_last d sunk c,
            at-drop_last d sunk (parent c),
          );
          perm = same_trans perm (same_trans s.perm (swap-perm d a 0 n many (omega (arith, many))));
          best = λ i q. rw root (root_first before d p a i h q);
        },
      )

module _ {ℓ} {A : Type ℓ} (before : A → A → Bool) (p : Priority before) where
  -- the order of a heap, whatever stands for what is out of range
  abbrev pub IsOrdered : List A → Type ℓ
  IsOrdered a = (d : A) → IsHeap before d a

  pub push-IsOrdered :
      (x : A) (a : List A)
      → IsOrdered a
      → IsOrdered (push before x a) × SameBag (push before x a) (x ∷ a)
  push-IsOrdered x a h =
      ((λ d. (push-IsHeap before p d x a (h d)).0), (push-IsHeap before p x x a (h x)).1)

  pop_empty : pop before [] ≡ none
  unfolding pop down swap
  pop_empty = refl

  pub pop-empty : (a : List A) → pop before a ≡ none → IsOrdered a → a ≡ []
  pop-empty [] e h = refl
  pop-empty (x ∷ a) e h =
      let (r, run, _) = pop-Popped before p x (x ∷ a) (h x) (omega arith) in absurd (cc (e, run))

  All-at : (d : A) (P : A → Type 0) (a : List A) → ((i : ℕ) → i < length a → P (at d a i)) → All P a
  unfolding at
  All-at d P [] h = tt
  All-at d P (x ∷ a) h = (h 0 (omega arith), All-at d P a (λ i q. h (suc i) (omega arith)))

  -- The entry that Pop returns and the heap that it leaves: the same entries, a heap again, and no
  -- entry comes before the returned one.
  pub pop-IsOrdered :
      (a : List A) (r : A × List A)
      → IsOrdered a
      → pop before a ≡ some r
      → IsOrdered r.1 × SameBag (r.0 ∷ r.1) a × All (λ y. before y r.0 ≡ false) a
  pop-IsOrdered [] r h e = absurd (cc (e, pop_empty))
  pop-IsOrdered (x ∷ a) r h e =
      let popped : (d : A) → Popped before p d (x ∷ a) r = λ d.
        (let (q, run, g) = pop-Popped before p d (x ∷ a) (h d) (omega arith) in
          let same : q ≡ r = cc (e, run) in subst (Popped before p d (x ∷ a)) same g) in
      (
        (λ d. (popped d).heap),
        (popped x).perm,
        All-at x (λ y. before y r.0 ≡ false) (x ∷ a) (popped x).best,
      )
