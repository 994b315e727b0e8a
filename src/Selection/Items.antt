-- ===== src/Selection/Items.antt =====
-- The items of txcache/transactionsHeapItem.go: each stands at a transaction of its bunch, and a
-- step to the next one leaves less ahead.
use drt_go_chain_storage.Base.{
  ℕ, zero, suc, ◌+◌, ◌-◌, ◌<◌, ◌≡◌, refl, Bool, true, none, some, List, [], ◌∷◌, arith, length,
  get_elem?, All, Option-cases, Bool-cases, inl, inr,
}
use drt_go_chain_storage.Base.Bag.{same_symm, sum_of, sum_of-SameBag, All-SameBag}
use drt_go_chain_storage.Base.Heap
use drt_go_chain_storage.Base.Heap.Order.{Priority}
use drt_go_chain_storage.Base.Heap.Order.Queue.{IsOrdered, push-IsOrdered}
use drt_go_chain_storage.Core.{TransactionHandler}
use drt_go_chain_storage.Wrapped.{WrappedTransaction, nonce as nonce_of, sender_of}
use drt_go_chain_storage.Selection.{HeapItem, new_transactions_heap_item, goto_next_transaction}
use drt_go_chain_storage.Selection.Loop.{push_bunches, push_next, count_txs}

-- the transactions of the item from the current one on
abbrev pub left : {T : Type 0} → HeapItem T → ℕ
left item = length item.bunch - item.current_transaction_index

get_elem?-lt {ℓ} : {A : Type ℓ} (a : List A) (i : ℕ) (x : A) → get_elem? a i ≡ some x → i < length a
get_elem?-lt [] i x h = cc
get_elem?-lt (y ∷ a) zero x h = omega arith
get_elem?-lt (y ∷ a) (suc i) x h = omega (arith, get_elem?-lt a i x h)

module _ {T : Type 0} ⦃h : TransactionHandler T⦄ where
  -- the item stands at its current transaction
  pub record IsPlaced (item : HeapItem T) : Type 0 where
    pub here : get_elem? item.bunch item.current_transaction_index ≡ some item.current_transaction
    pub nonce : item.current_transaction_nonce ≡ nonce_of item.current_transaction

  pub IsPlaced-left : (item : HeapItem T) → IsPlaced item → 0 < left item
  IsPlaced-left item p = omega (
    arith,
    get_elem?-lt item.bunch item.current_transaction_index item.current_transaction p.here,
  )

  -- the next item, if there is one, is placed and has one transaction less ahead
  pub goto_next_transaction-left :
      (item : HeapItem T)
      → IsPlaced item
      → (goto_next_transaction item).1 ≡ true
      → IsPlaced (goto_next_transaction item).0
        × (suc (left (goto_next_transaction item).0) ≡ left item)
  unfolding goto_next_transaction
  goto_next_transaction-left item p =
      elim (Option-cases (get_elem? item.bunch (item.current_transaction_index + 1))) [
        | inl out ↦ rw (out, goto_next_transaction) (λ e. cc)
        | inr (tx, there) ↦
            let inside = get_elem?-lt item.bunch (item.current_transaction_index + 1) tx there in
            rw (there, goto_next_transaction)
              (λ e. (record { here = there; nonce = refl }, omega (arith, inside)))
      ]

  -- the item of a bunch that is not empty
  abbrev pub new_item : WrappedTransaction T → List (WrappedTransaction T) → HeapItem T
  new_item first rest = record {
    sender = sender_of first;
    bunch = first ∷ rest;
    current_transaction_index = 0;
    current_transaction = first;
    current_transaction_nonce = nonce_of first;
    latest_selected_transaction = none;
    latest_selected_transaction_nonce = 0;
  }

  pub new_item-IsPlaced :
      (first : WrappedTransaction T) (rest : List (WrappedTransaction T))
      → IsPlaced (new_item first rest)
  new_item-IsPlaced first rest = record { here = refl; nonce = refl }

  module _ (less : HeapItem T → HeapItem T → Bool) (laws : Priority less) where
    -- the heap is in order and its items are placed
    pub record IsLive (heap : List (HeapItem T)) : Type 0 where
      pub ordered : IsOrdered less laws heap
      pub placed : All IsPlaced heap

    pub empty_heap-IsLive : IsLive []
    empty_heap-IsLive = record { ordered = λ d c pos lt. absurd (omega arith); placed = tt }

    pub push-IsLive :
        (item : HeapItem T) (heap : List (HeapItem T))
        → IsPlaced item
        → IsLive heap
        → IsLive (Heap.push less item heap)
          × (sum_of left (Heap.push less item heap) ≡ left item + sum_of left heap)
    push-IsLive item heap p v =
        let (ordered, same) = push-IsOrdered less laws item heap v.ordered in
        (
          record {
            ordered = ordered;
            placed = All-SameBag IsPlaced (same_symm same) (p, v.placed);
          },
          sum_of-SameBag left same,
        )

    pub push_next-IsLive :
        (item : HeapItem T) (heap : List (HeapItem T))
        → IsPlaced item
        → IsLive heap
        → IsLive (push_next less (goto_next_transaction item) heap)
          × (sum_of left (push_next less (goto_next_transaction item) heap)
              < left item + sum_of left heap)
    push_next-IsLive item heap p v = elim (Bool-cases (goto_next_transaction item).1) [
      | inr done ↦ rw (done, push_next) (v, omega (arith, IsPlaced-left item p))
      | inl more ↦
          let (placed, less) = goto_next_transaction-left item p more in
          let (live, sum) = push-IsLive (goto_next_transaction item).0 heap placed v in
          rw (more, push_next) (live, omega (arith, sum, less))
    ]

    pub push_bunches-IsLive :
        (bunches : List (List (WrappedTransaction T))) (heap : List (HeapItem T))
        → IsLive heap
        → IsLive (push_bunches less bunches heap)
          × (sum_of left (push_bunches less bunches heap) ≡ count_txs bunches + sum_of left heap)
    unfolding push_bunches new_transactions_heap_item
    push_bunches-IsLive [] heap v = (v, omega arith)
    push_bunches-IsLive ([] ∷ bunches) heap v =
        let (live, sum) = push_bunches-IsLive bunches heap v in (live, omega (arith, sum))
    push_bunches-IsLive ((first ∷ rest) ∷ bunches) heap v =
        let item : HeapItem T = new_item first rest in
        let (pushed, one) = push-IsLive item heap (new_item-IsPlaced first rest) v in
        let (live, sum) = push_bunches-IsLive bunches (Heap.push less item heap) pushed in
        (live, omega (arith, sum, one))

    -- what holds of the next item and of the heap holds of the heap with the next item
    pub push_next-All :
        (Q : HeapItem T → Type 0) (item : HeapItem T) (heap : List (HeapItem T))
        → IsLive heap
        → Q (goto_next_transaction item).0
        → All Q heap
        → All Q (push_next less (goto_next_transaction item) heap)
    push_next-All Q item heap v q all = elim (Bool-cases (goto_next_transaction item).1) [
      | inr done ↦ rw (done, push_next) all
      | inl more ↦
          rw (more, push_next)
            (All-SameBag Q
              (same_symm (push-IsOrdered less laws (goto_next_transaction item).0 heap v.ordered).1)
              (q, all))
    ]

  -- the items of the bunches, in front of those of a heap
  abbrev pub items_of : List (List (WrappedTransaction T)) → List (HeapItem T) → List (HeapItem T)
  items_of [] heap = heap
  items_of (bunch ∷ bunches) heap = elim (new_transactions_heap_item bunch) [
    | none ↦ items_of bunches heap
    | some item ↦ item ∷ items_of bunches heap
  ]
