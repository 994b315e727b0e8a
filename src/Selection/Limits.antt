-- ===== src/Selection/Limits.antt =====
-- The bounds of selectTransactionsFromBunches of txcache/selection.go: the gas, the number of
-- transactions, and where they come from.
use drt_go_chain_storage.Base.{
  length-snoc, ℕ, zero, suc, ◌+◌, ◌^◌, ◌<◌, ◌≤◌, ◌≡◌, refl, subst, Bool, false, some, List, [], ◌∷◌,
  ◌++◌, arith, length, get_elem?, All, Bool-cases, Option-cases, inl, inr,
}
use drt_go_chain_storage.Base.Bag.{sum_of, All-SameBag, same_symm}
use drt_go_chain_storage.Base.Heap
use drt_go_chain_storage.Base.Heap.Order.{Priority}
use drt_go_chain_storage.Base.Heap.Order.Queue.{push-IsOrdered}
use drt_go_chain_storage.Core.{TransactionHandler}
use drt_go_chain_storage.Wrapped.{WrappedTransaction}
use drt_go_chain_storage.Selection.{
  HeapItem, SelectionSession, max_less, new_transactions_heap_item, select_current_transaction,
  goto_next_transaction, detect_skippable_sender, detect_skippable_transaction,
}
use drt_go_chain_storage.Selection.Value.{max_less-Priority}
use drt_go_chain_storage.Selection.Items.{
  empty_heap-IsLive, IsPlaced, IsLive, push-IsLive, push_next-All, new_item, new_item-IsPlaced,
}
use drt_go_chain_storage.Selection.Loop.{
  SelectionState, gas_limit, push_bunches, push_next, breaks, process,
  select_transactions_from_bunches,
}
use drt_go_chain_storage.Selection.Ends.{Kept, select_transactions-Kept}

sum_of-append {ℓ} :
    {A : Type ℓ} (f : A → ℕ) (a : List A) (x : A) → sum_of f (a ++ x ∷ []) ≡ sum_of f a + f x
sum_of-append f [] x = omega arith
sum_of-append f (y ∷ a) x = omega (arith, sum_of-append f a x)

pub All-append {ℓ} :
    {A : Type ℓ} (P : A → Type 0) (a : List A) (x : A) → All P a → P x → All P (a ++ x ∷ [])
All-append P [] x h p = (p, tt)
All-append P (y ∷ a) x h p = (h.0, All-append P a x h.1 p)

pub All-get_elem? {ℓ} :
    {A : Type ℓ} (P : A → Type 0) (a : List A) (i : ℕ) (x : A)
    → All P a
    → get_elem? a i ≡ some x
    → P x
All-get_elem? P [] i x h e = cc
All-get_elem? P (y ∷ a) zero x h e = let same : y ≡ x = cc in subst P same h.0
All-get_elem? P (y ∷ a) (suc i) x h e = All-get_elem? P a i x h.1 e

module _ {T : Type 0} ⦃h : TransactionHandler T⦄ where
  abbrev pub Within : (WrappedTransaction T → Type 0) → HeapItem T → Type 0
  Within R item = All R item.bunch

  -- the step to the next transaction stays in the bunch
  goto_next_transaction-Within :
      (R : WrappedTransaction T → Type 0) (item : HeapItem T)
      → Within R item
      → Within R (goto_next_transaction item).0
  unfolding goto_next_transaction
  goto_next_transaction-Within R item w =
      elim (Option-cases (get_elem? item.bunch (item.current_transaction_index + 1))) [
        | inl out ↦ rw (out, goto_next_transaction) w
        | inr (tx, there) ↦ rw (there, goto_next_transaction) w
      ]

  module _ (less : HeapItem T → HeapItem T → Bool) (laws : Priority less) where
    push-Within :
        (R : WrappedTransaction T → Type 0) (item : HeapItem T) (heap : List (HeapItem T))
        → IsLive less laws heap
        → Within R item
        → All (Within R) heap
        → All (Within R) (Heap.push less item heap)
    push-Within R item heap v w all =
        All-SameBag (Within R) (same_symm (push-IsOrdered less laws item heap v.ordered).1) (w, all)

    pub push_next-Within :
        (R : WrappedTransaction T → Type 0) (item : HeapItem T) (heap : List (HeapItem T))
        → IsLive less laws heap
        → Within R item
        → All (Within R) heap
        → All (Within R) (push_next less (goto_next_transaction item) heap)
    push_next-Within R item heap v w all =
        push_next-All less laws (Within R) item heap v (goto_next_transaction-Within R item w) all

    pub push_bunches-Within :
        (R : WrappedTransaction T → Type 0) (bunches : List (List (WrappedTransaction T)))
        (heap : List (HeapItem T))
        → IsLive less laws heap
        → All (All R) bunches
        → All (Within R) heap
        → All (Within R) (push_bunches less bunches heap)
    unfolding push_bunches new_transactions_heap_item
    push_bunches-Within R [] heap v from all = all
    push_bunches-Within R ([] ∷ bunches) heap v from all =
        push_bunches-Within R bunches heap v from.1 all
    push_bunches-Within R ((first ∷ rest) ∷ bunches) heap v from all =
        let item : HeapItem T = new_item first rest in
        let (pushed, one) = push-IsLive less laws item heap (new_item-IsPlaced first rest) v in
        push_bunches-Within R bunches (Heap.push less item heap) pushed from.1
          (push-Within R item heap v from.0 all)

  -- the gas of a transaction does not wrap around next to the gas requested, and R holds of it
  abbrev pub Fits : ℕ → (WrappedTransaction T → Type 0) → WrappedTransaction T → Type 0
  Fits gas_requested R tx = (gas_limit tx + gas_requested < 2 ^ 64) × R tx

  -- the selected transactions are within the limits, and R holds of each
  pub record IsWithinLimits (gas_requested max_num : ℕ) (R : WrappedTransaction T → Type 0)
      (selected : List (WrappedTransaction T)) (gas : ℕ) : Type 0 where
    pub gas_is_sum : gas ≡ sum_of gas_limit selected
    pub gas_bound : gas ≤ gas_requested
    pub num_bound : length selected ≤ max_num
    pub from_bunches : All R selected

  module _ (session : SelectionSession T) (late : ℕ → Bool) (gas_requested max_num : ℕ) where
    abbrev Bounded : (WrappedTransaction T → Type 0) → SelectionState T → Type 0
    Bounded R s =
        IsWithinLimits gas_requested max_num R s.selected_transactions s.accumulated_gas
        × All (Within (Fits gas_requested R)) s.heap

    abbrev BoundedPopped : (WrappedTransaction T → Type 0) → HeapItem T → SelectionState T → Type 0
    BoundedPopped R item s = Within (Fits gas_requested R) item × Bounded R s

    breaks-false :
        (round : ℕ) (item : HeapItem T) (s : SelectionState T)
        → gas_limit item.current_transaction + gas_requested < 2 ^ 64
        → s.accumulated_gas ≤ gas_requested
        → length s.selected_transactions ≤ max_num
        → max_num < 2 ^ 63
        → breaks session late gas_requested max_num round item s ≡ false
        → (s.accumulated_gas + gas_limit item.current_transaction ≤ gas_requested)
          × (length s.selected_transactions < max_num)
    unfolding breaks
    breaks-false round item s fits gas num max go = ground arith

    process-Bounded :
        (R : WrappedTransaction T → Type 0) (round : ℕ) (item : HeapItem T) (s : SelectionState T)
        → max_num < 2 ^ 63
        → IsPlaced item
        → IsLive max_less max_less-Priority s.heap
        → BoundedPopped R item s
        → breaks session late gas_requested max_num round item s ≡ false
        → Bounded R (process session late gas_requested max_num item s)
    unfolding process select_current_transaction
    process-Bounded R round item s max p v (within, (limits, all)) go =
        let sender_check = detect_skippable_sender session item s.records in
        let check = detect_skippable_transaction session item sender_check.0 in
        let chosen = (select_current_transaction item).0 in
        let (fits, r) =
          All-get_elem? (Fits gas_requested R) item.bunch item.current_transaction_index
            item.current_transaction within p.here in
        let (gas, num) = breaks-false round item s fits limits.gas_bound limits.num_bound max go in
        elim (Bool-cases sender_check.1) [
          | inl skip ↦ rw skip (limits, all)
          | inr on ↦ elim (Bool-cases check.1) [
            | inl skip ↦
                rw (on, skip)
                  (
                    limits,
                    push_next-Within max_less max_less-Priority (Fits gas_requested R) item s.heap v
                        within all,
                  )
            | inr take ↦
                rw (on, take)
                  (
                    record {
                      gas_is_sum = omega (
                        arith,
                        sum_of-append gas_limit s.selected_transactions item.current_transaction,
                        limits.gas_is_sum,
                      );
                      gas_bound = omega (arith, gas);
                      num_bound = omega (
                        arith,
                        length-snoc s.selected_transactions item.current_transaction,
                        num,
                      );
                      from_bunches =
                          All-append R s.selected_transactions item.current_transaction
                            limits.from_bunches r;
                    },
                    push_next-Within max_less max_less-Priority (Fits gas_requested R) chosen s.heap
                        v within all,
                  )
          ]
        ]

    -- For at most 2 ^ 63 - 1 transactions requested and gas limits that do not wrap around next to the
    -- gas requested, the loop comes to an end within one round for each transaction and one more,
    -- the gas it reports is the sum of the gas limits of the selected transactions and at most the
    -- gas requested, at most `max_num` transactions are selected, and what holds of every
    -- transaction of the bunches holds of every selected one.
    pub select_transactions_from_bunches-IsWithinLimits :
        (R : WrappedTransaction T → Type 0) (bunches : List (List (WrappedTransaction T)))
        → max_num < 2 ^ 63
        → All (All (Fits gas_requested R)) bunches
        → (r : List (WrappedTransaction T) × ℕ) × (select_transactions_from_bunches session late
              gas_requested max_num bunches
            ≡ some r)
          × IsWithinLimits gas_requested max_num R r.0 r.1
    select_transactions_from_bunches-IsWithinLimits R bunches max fits =
        let kept : Kept session late gas_requested max_num (Bounded R) (BoundedPopped R) = record {
          pops = λ item heap s same q.
              let all = All-SameBag (Within (Fits gas_requested R)) (same_symm same) q.1 in
              (all.0, (q.0, all.1));
          stops = λ item s w. w.1;
          works = λ round item s p v w go. process-Bounded R round item s max p v w go;
        } in
        let (r, run, done) =
          select_transactions-Kept session late gas_requested max_num (Bounded R) (BoundedPopped R)
            kept bunches
            (
              record {
                gas_is_sum = refl;
                gas_bound = omega arith;
                num_bound = omega arith;
                from_bunches = tt;
              },
              push_bunches-Within max_less max_less-Priority (Fits gas_requested R) bunches []
                  (empty_heap-IsLive max_less max_less-Priority) fits tt,
            ) in
        ((r.selected_transactions, r.accumulated_gas), run, done.0)
