-- ===== src/Selection/Bunches.antt =====
-- The bunches that the selection takes: each of one sender, by rising nonce; and the items of the
-- heap that stand for them.
use drt_go_chain_storage.Base.{
  ℕ, zero, suc, ◌+◌, ◌≤◌, ◌≡◌, refl, ap, subst, true, false, some, List, [], ◌∷◌, arith, get_elem?,
  All, Option-cases, Bool-cases, inl, inr, if◌then◌else◌, is_some,
}
use drt_go_chain_storage.Base.Bag.{sum_of, sum_of-SameBag, All-SameBag, same_symm}
use drt_go_chain_storage.Base.Bytes.{Bytes, bytes_beq}
use drt_go_chain_storage.Base.Heap
use drt_go_chain_storage.Base.Heap.Order.Queue.{push-IsOrdered}
use drt_go_chain_storage.Core.{TransactionHandler}
use drt_go_chain_storage.Wrapped.{WrappedTransaction, nonce as nonce_of, sender_of}
use drt_go_chain_storage.Selection.{
  HeapItem, new_transactions_heap_item, goto_next_transaction, max_less, detect_initial_gap,
  detect_middle_gap, detect_lower_nonce, detect_nonce_duplicate,
}
use drt_go_chain_storage.Selection.Value.{max_less-Priority}
use drt_go_chain_storage.Selection.Items.{
  IsPlaced, IsLive, push-IsLive, new_item, new_item-IsPlaced,
}
use drt_go_chain_storage.Selection.Loop.{push_bunches, push_next}

module _ {T : Type 0} ⦃h : TransactionHandler T⦄ where
  -- the nonces do not fall
  abbrev pub IsRising : List (WrappedTransaction T) → Type 0
  IsRising [] = Unit
  IsRising (x ∷ []) = Unit
  IsRising (x ∷ y ∷ l) = (nonce_of x ≤ nonce_of y) × IsRising (y ∷ l)

  -- the transactions of one sender, by rising nonce
  abbrev pub IsBunch : List (WrappedTransaction T) → Type 0
  IsBunch [] = Unit
  IsBunch (first ∷ rest) =
      All (λ tx. sender_of tx ≡ sender_of first) (first ∷ rest) × IsRising (first ∷ rest)

  -- how many of the bunches are of a sender
  abbrev pub count_bunches : Bytes → List (List (WrappedTransaction T)) → ℕ
  count_bunches k [] = 0
  count_bunches k ([] ∷ bunches) = count_bunches k bunches
  count_bunches k ((first ∷ rest) ∷ bunches) =
      (if bytes_beq (sender_of first) k then 1 else 0) + count_bunches k bunches

  get_elem?-rising :
      (l : List (WrappedTransaction T)) (i : ℕ) (x y : WrappedTransaction T)
      → IsRising l
      → get_elem? l i ≡ some x
      → get_elem? l (suc i) ≡ some y
      → nonce_of x ≤ nonce_of y
  get_elem?-rising [] i x y r p q = absurd (cc p)
  get_elem?-rising (a ∷ []) zero x y r p q = absurd (cc q)
  get_elem?-rising (a ∷ []) (suc i) x y r p q = absurd (cc p)
  get_elem?-rising (a ∷ b ∷ l) zero x y r p q = ground (arith, r.0, p, q)
  get_elem?-rising (a ∷ b ∷ l) (suc i) x y r p q = get_elem?-rising (b ∷ l) i x y r.1 p q

  -- The item stands for a bunch, and it has selected no later nonce than it stands at.
  pub record IsSteady (item : HeapItem T) : Type 0 where
    pub own : All (λ tx. sender_of tx ≡ item.sender) item.bunch
    pub rising : IsRising item.bunch
    pub past :
        is_some item.latest_selected_transaction ≡ true
        → item.latest_selected_transaction_nonce ≤ item.current_transaction_nonce

  -- whether an item is of a sender
  abbrev pub is_of : Bytes → HeapItem T → ℕ
  is_of k item = if bytes_beq item.sender k then 1 else 0

  -- what the step to the next transaction keeps
  pub goto_next_transaction-IsSteady :
      (item : HeapItem T)
      → IsPlaced item
      → IsSteady item
      → IsSteady (goto_next_transaction item).0
        × ((goto_next_transaction item).0.sender ≡ item.sender)
        × ((goto_next_transaction item).0.latest_selected_transaction
            ≡ item.latest_selected_transaction)
        × ((goto_next_transaction item).0.latest_selected_transaction_nonce
            ≡ item.latest_selected_transaction_nonce)
  unfolding goto_next_transaction
  goto_next_transaction-IsSteady item p s =
      elim (Option-cases (get_elem? item.bunch (item.current_transaction_index + 1))) [
        | inl out ↦ rw (out, goto_next_transaction) (s, refl, refl, refl)
        | inr (tx, there) ↦
            let up =
              get_elem?-rising item.bunch item.current_transaction_index item.current_transaction tx
                s.rising p.here
                (subst (λ j. get_elem? item.bunch j ≡ some tx) (omega arith) there) in
            rw (there, goto_next_transaction)
              (
                record {
                  own = s.own;
                  rising = s.rising;
                  past = λ e. omega (arith, s.past e, up, p.nonce);
                },
                refl,
                refl,
                refl,
              )
      ]

  -- A transaction that passes the tests of the nonces is the next one of its sender.
  pub next_nonce :
      (start : ℕ) (item : HeapItem T)
      → IsSteady item
      → detect_initial_gap start item ≡ false
      → detect_middle_gap item ≡ false
      → detect_lower_nonce start item ≡ false
      → detect_nonce_duplicate item ≡ false
      → item.current_transaction_nonce ≡ (
          if is_some item.latest_selected_transaction
          then suc item.latest_selected_transaction_nonce
          else start)
  unfolding detect_initial_gap detect_middle_gap detect_lower_nonce detect_nonce_duplicate
  next_nonce start item s initial middle lower twice =
      elim (Bool-cases (is_some item.latest_selected_transaction)) [
        | inr fresh ↦ ground (arith, fresh, initial, lower)
        | inl some_before ↦ ground (arith, some_before, middle, twice, s.past some_before)
      ]

  -- the next item is of the same sender
  pub push_next-is_of :
      (k : Bytes) (item : HeapItem T) (heap : List (HeapItem T))
      → IsPlaced item
      → IsSteady item
      → IsLive max_less max_less-Priority heap
      → sum_of (is_of k) (push_next max_less (goto_next_transaction item) heap)
        ≤ is_of k item + sum_of (is_of k) heap
  push_next-is_of k item heap p s v =
      let next = (goto_next_transaction item).0 in
      let (steady, same, _, _) = goto_next_transaction-IsSteady item p s in
      let of_sender : is_of k next ≡ is_of k item = ap (λ q. if bytes_beq q k then 1 else 0) same in
      elim (Bool-cases (goto_next_transaction item).1) [
        | inr done ↦ rw (done, push_next) (omega arith)
        | inl more ↦
            let (live, bag) = push-IsOrdered max_less max_less-Priority next heap v.ordered in
            rw (more, push_next) (omega (arith, sum_of-SameBag (is_of k) bag, of_sender))
      ]

  new_item-IsSteady :
      (first : WrappedTransaction T) (rest : List (WrappedTransaction T))
      → IsBunch (first ∷ rest)
      → IsSteady (new_item first rest)
  new_item-IsSteady first rest b = record { own = b.0; rising = b.1; past = λ e. absurd (cc e) }

  -- the items of the bunches are steady and have selected nothing
  pub push_bunches-IsSteady :
      (k : Bytes) (bunches : List (List (WrappedTransaction T))) (heap : List (HeapItem T))
      → All IsBunch bunches
      → IsLive max_less max_less-Priority heap
      → All (λ item. IsSteady item × (is_some item.latest_selected_transaction ≡ false)) heap
      → All
          (λ item. IsSteady item × (is_some item.latest_selected_transaction ≡ false))
          (push_bunches max_less bunches heap)
        × (sum_of (is_of k) (push_bunches max_less bunches heap)
            ≡ count_bunches k bunches + sum_of (is_of k) heap)
  unfolding push_bunches new_transactions_heap_item
  push_bunches-IsSteady k [] heap b v all = (all, omega arith)
  push_bunches-IsSteady k ([] ∷ bunches) heap b v all =
      push_bunches-IsSteady k bunches heap b.1 v all
  push_bunches-IsSteady k ((first ∷ rest) ∷ bunches) heap b v all =
      let item = new_item first rest in
      let pushed = Heap.push max_less item heap in
      let (live, left) =
        push-IsLive max_less max_less-Priority item heap (new_item-IsPlaced first rest) v in
      let bag = (push-IsOrdered max_less max_less-Priority item heap v.ordered).1 in
      let all' =
        All-SameBag (λ item. IsSteady item × (is_some item.latest_selected_transaction ≡ false))
          (same_symm bag) ((new_item-IsSteady first rest b.0, refl), all) in
      let r = push_bunches-IsSteady k bunches pushed b.1 live all' in
      (r.0, omega (arith, r.1, sum_of-SameBag (is_of k) bag))
