-- ===== src/Selection.antt =====
-- txcache/selection.go with transactionsHeapItem.go, transactionsHeap.go and
-- selectionSessionWrapper.go: the selection of transactions for a block. The session is a parameter,
-- and so is the clock: `late` says at which rounds of the loop a look at the clock finds the maximum
-- duration over. A balance, a fee and a value are amounts of any size, not negative. The records of
-- the accounts are pointers held once for each address, so they are kept in the map. The loop takes
-- fuel, one round for each transaction and one more, and gives `none` when it runs out.
pub mod Value
pub mod Items
pub mod Loop
pub mod Ends
pub mod Limits
pub mod Records
pub mod Bunches
pub mod Tied
pub mod Nonces
use drt_go_chain_storage.Base.{
  ℕ, zero, suc, ◌+◌, ◌%◌, Bool, true, false, ◌||◌, not, Option, none, some, List, [], ◌∷◌, ◌++◌,
  map, ltb, leb, ◌==◌, if◌then◌else◌, is_some, ◌>>=◌, add64, ltb_int64, length, get_elem?,
}
use drt_go_chain_storage.Base.Bytes.{Bytes, bytes_eq}
use drt_go_chain_storage.Base.GoMap.{GoMap, lookup, insert}
use drt_go_chain_storage.Base.Heap
use drt_go_chain_storage.Core.{TransactionHandler}
use drt_go_chain_storage.Wrapped.{
  WrappedTransaction, is_transaction_more_valuable_for_network, nonce, sender_of,
}

-- transactionsHeapItem
pub record HeapItem (T : Type 0) : Type 0 where
  pub sender : Bytes
  pub bunch : List (WrappedTransaction T)
  pub current_transaction_index : ℕ
  pub current_transaction : WrappedTransaction T
  pub current_transaction_nonce : ℕ
  pub latest_selected_transaction : Option (WrappedTransaction T)
  pub latest_selected_transaction_nonce : ℕ

-- types.AccountState
pub record AccountState : Type 0 where
  pub nonce : ℕ
  pub balance : ℕ

-- SelectionSession of txcache/interface.go; `none` is an error
pub record SelectionSession (T : Type 0) : Type 0 where
  pub get_account_state : Bytes → Option AccountState
  pub is_incorrectly_guarded : T → Bool

pub record AccountRecord : Type 0 where
  pub initial_nonce : ℕ
  pub initial_balance : ℕ
  pub consumed_balance : ℕ

-- the records of a selectionSessionWrapper, by address
abbrev pub Records : Type 0
Records = GoMap Bytes AccountRecord

module _ {T : Type 0} ⦃h : TransactionHandler T⦄ where
  -- `none` is errEmptyBunchOfTransactions
  unfoldable pub new_transactions_heap_item : List (WrappedTransaction T) → Option (HeapItem T)
  new_transactions_heap_item [] = none
  new_transactions_heap_item (first ∷ rest) = some (record {
    sender = sender_of first;
    bunch = first ∷ rest;
    current_transaction_index = 0;
    current_transaction = first;
    current_transaction_nonce = nonce first;
    latest_selected_transaction = none;
    latest_selected_transaction_nonce = 0;
  })

  unfoldable pub select_current_transaction : HeapItem T → HeapItem T × WrappedTransaction T
  select_current_transaction item = (
    record item {
      latest_selected_transaction = some item.current_transaction;
      latest_selected_transaction_nonce = item.current_transaction_nonce;
    },
    item.current_transaction,
  )

  -- the item, and whether there is a next transaction: the read is out of range when there is none
  unfoldable pub goto_next_transaction : HeapItem T → HeapItem T × Bool
  goto_next_transaction item = elim (get_elem? item.bunch (item.current_transaction_index + 1)) [
    | none ↦ (item, false)
    | some tx ↦ (
      record item {
        current_transaction_index = item.current_transaction_index + 1;
        current_transaction = tx;
        current_transaction_nonce = nonce tx;
      },
      true,
    )
  ]

  unfoldable pub detect_initial_gap : ℕ → HeapItem T → Bool
  detect_initial_gap sender_nonce item =
      if is_some item.latest_selected_transaction
      then false
      else ltb sender_nonce item.current_transaction_nonce

  unfoldable pub detect_middle_gap : HeapItem T → Bool
  detect_middle_gap item =
      if is_some item.latest_selected_transaction
      then ltb (add64 item.latest_selected_transaction_nonce 1) item.current_transaction_nonce
      else false

  unfoldable pub detect_lower_nonce : ℕ → HeapItem T → Bool
  detect_lower_nonce sender_nonce item = ltb item.current_transaction_nonce sender_nonce

  unfoldable pub detect_nonce_duplicate : HeapItem T → Bool
  detect_nonce_duplicate item =
      if is_some item.latest_selected_transaction
      then item.current_transaction_nonce == item.latest_selected_transaction_nonce
      else false

  unfoldable pub is_current_transaction_more_valuable_for_network : HeapItem T → HeapItem T → Bool
  is_current_transaction_more_valuable_for_network item other =
      is_transaction_more_valuable_for_network item.current_transaction other.current_transaction

  -- `less` of newMaxTransactionsHeap and of newMinTransactionsHeap, on the two items
  unfoldable pub max_less : HeapItem T → HeapItem T → Bool
  max_less x y = is_current_transaction_more_valuable_for_network x y

  unfoldable pub min_less : HeapItem T → HeapItem T → Bool
  min_less x y = is_current_transaction_more_valuable_for_network y x

  module _ (session : SelectionSession T) where
    unfoldable pub get_account_record : Bytes → Records → Records × AccountRecord
    get_account_record address records = elim (lookup address records) [
      | some r ↦ (records, r)
      | none ↦
          let r : AccountRecord = elim (session.get_account_state address) [
            | none ↦ record { initial_nonce = 0; initial_balance = 0; consumed_balance = 0 }
            | some state ↦ record {
              initial_nonce = state.nonce;
              initial_balance = state.balance;
              consumed_balance = 0;
            }
          ] in
          (insert address r records, r)
    ]

    unfoldable pub get_nonce : Bytes → Records → Records × ℕ
    get_nonce address records =
        let r = get_account_record address records in (r.0, r.1.initial_nonce)

    -- an amount added to the balance consumed by an account whose record is held; nil adds nothing
    unfoldable pub consume : Bytes → Option ℕ → Records → Records
    consume address none records = records
    consume address (some amount) records = elim (lookup address records) [
      | none ↦ records
      | some r ↦
          insert address (record r { consumed_balance = r.consumed_balance + amount }) records
    ]

    -- both records are fetched before an amount is added; they may be the same
    unfoldable pub accumulate_consumed_balance : WrappedTransaction T → Records → Records
    accumulate_consumed_balance tx records =
        let both =
          (get_account_record tx.fee_payer (get_account_record (sender_of tx) records).0).0 in
        consume tx.fee_payer tx.fee (consume (sender_of tx) tx.transferred_value both)

    unfoldable pub detect_will_fee_exceed_balance : WrappedTransaction T → Records → Records × Bool
    detect_will_fee_exceed_balance tx records = elim tx.fee [
      | none ↦ (records, false)
      | some fee ↦
          let r = get_account_record tx.fee_payer records in
          (r.0, ltb r.1.initial_balance (r.1.consumed_balance + fee))
    ]

    unfoldable pub detect_incorrectly_guarded : HeapItem T → Bool
    detect_incorrectly_guarded item = session.is_incorrectly_guarded item.current_transaction.tx

    unfoldable pub detect_skippable_sender : HeapItem T → Records → Records × Bool
    detect_skippable_sender item records =
        let r = get_nonce item.sender records in
        if detect_initial_gap r.1 item
        then (r.0, true)
        else if detect_middle_gap item
        then (r.0, true)
        else detect_will_fee_exceed_balance item.current_transaction r.0

    unfoldable pub detect_skippable_transaction : HeapItem T → Records → Records × Bool
    detect_skippable_transaction item records =
        let r = get_nonce item.sender records in
        (
          r.0,
          detect_lower_nonce r.1 item
              || (detect_incorrectly_guarded item || detect_nonce_duplicate item),
        )
