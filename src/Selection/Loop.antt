-- ===== src/Selection/Loop.antt =====
-- The loop of selectTransactionsFromBunches of txcache/selection.go.
use drt_go_chain_storage.Base.{
  ℕ, zero, suc, ◌+◌, ◌%◌, Bool, true, ◌&&◌, not, Option, none, some, List, [], ◌∷◌, ◌++◌, ltb, ◌==◌,
  if◌then◌else◌, ◌>>=◌, add64, ltb_int64, length,
}
use drt_go_chain_storage.Base.Heap
use drt_go_chain_storage.Core.{TransactionHandler}
use drt_go_chain_storage.Wrapped.{WrappedTransaction}
use drt_go_chain_storage.Selection.{
  HeapItem, SelectionSession, Records, new_transactions_heap_item, select_current_transaction,
  goto_next_transaction, max_less, accumulate_consumed_balance, detect_skippable_sender,
  detect_skippable_transaction,
}

pub record SelectionState (T : Type 0) : Type 0 where
  pub heap : List (HeapItem T)
  pub records : Records
  pub selected_transactions : List (WrappedTransaction T)
  pub accumulated_gas : ℕ

module _ {T : Type 0} ⦃h : TransactionHandler T⦄ where
  -- the first transaction of each bunch that is not empty, pushed in turn
  unfoldable pub push_bunches :
      (HeapItem T → HeapItem T → Bool)
      → List (List (WrappedTransaction T))
      → List (HeapItem T)
      → List (HeapItem T)
  push_bunches less [] heap = heap
  push_bunches less (bunch ∷ bunches) heap = elim (new_transactions_heap_item bunch) [
    | none ↦ push_bunches less bunches heap
    | some item ↦ push_bunches less bunches (Heap.push less item heap)
  ]

  abbrev pub count_txs : List (List (WrappedTransaction T)) → ℕ
  count_txs [] = 0
  count_txs (bunch ∷ bunches) = length bunch + count_txs bunches

  abbrev pub gas_limit : WrappedTransaction T → ℕ
  gas_limit tx = h.get_gas_limit tx.tx

  abbrev pub push_next :
      (HeapItem T → HeapItem T → Bool) → HeapItem T × Bool → List (HeapItem T) → List (HeapItem T)
  push_next less next heap = if next.1 then Heap.push less next.0 heap else heap

  module _ (session : SelectionSession T) (late : ℕ → Bool) (gas_requested max_num : ℕ) where
    -- the tests ahead of the work on the popped item: whether the loop breaks
    unfoldable pub breaks : ℕ → HeapItem T → SelectionState T → Bool
    breaks round item s =
        if ltb gas_requested (add64 s.accumulated_gas (gas_limit item.current_transaction))
        then true
        else if not (ltb_int64 (length s.selected_transactions) max_num)
        then true
        else (length s.selected_transactions % 10 == 0) && late round

    -- the work on the popped item
    unfoldable pub process : HeapItem T → SelectionState T → SelectionState T
    process item s =
        let sender_check = detect_skippable_sender session item s.records in
        let check = detect_skippable_transaction session item sender_check.0 in
        let chosen = select_current_transaction item in
        if sender_check.1
        then record s { records = sender_check.0 }
        else if check.1
        then record s {
          records = check.0;
          heap = push_next max_less (goto_next_transaction item) s.heap;
        }
        else record {
          heap = push_next max_less (goto_next_transaction chosen.0) s.heap;
          records = accumulate_consumed_balance session chosen.1 check.0;
          selected_transactions = s.selected_transactions ++ chosen.1 ∷ [];
          accumulated_gas = add64 s.accumulated_gas (gas_limit item.current_transaction);
        }

    unfoldable pub select_loop : ℕ → ℕ → SelectionState T → Option (SelectionState T)
    select_loop zero round s = none
    select_loop (suc fuel) round s = elim (Heap.pop max_less s.heap) [
      | none ↦ some s
      | some (item, heap) ↦
          let popped : SelectionState T = record s { heap = heap } in
          let rest = select_loop fuel (suc round) (process item popped) in
          if breaks round item popped then some popped else rest
    ]

    abbrev pub initial_state : List (List (WrappedTransaction T)) → SelectionState T
    initial_state bunches = record {
      heap = push_bunches max_less bunches [];
      records = [];
      selected_transactions = [];
      accumulated_gas = 0;
    }

    -- the selected transactions and their gas
    unfoldable pub select_transactions_from_bunches :
        List (List (WrappedTransaction T)) → Option (List (WrappedTransaction T) × ℕ)
    select_transactions_from_bunches bunches = do
      s ← select_loop (suc (count_txs bunches)) 0 (initial_state bunches)
      some (s.selected_transactions, s.accumulated_gas)
