-- ===== src/Tests/SenderRuns.antt =====
-- Runs of the list of a sender on a state of two transactions.
use drt_go_chain_storage.Base.{ℕ, ◌≤◌, ◌≡◌, refl, true, none, [], ◌∷◌, arith, length}
use drt_go_chain_storage.Base.Linked.{find_id}
use drt_go_chain_storage.Wrapped.{WrappedTransaction}
use drt_go_chain_storage.SenderList.{
  TxListForSender, add_tx, find_insertion_place, is_capacity_exceeded,
  remove_transactions_with_lower_or_equal_nonce_return_hashes,
  remove_transactions_with_higher_or_equal_nonce,
}
use drt_go_chain_storage.SenderList.Order.{insert_sorted, tx_compare}
use drt_go_chain_storage.SenderList.Insert.{Placed, find_insertion_place-Placed}
use drt_go_chain_storage.SenderList.Limits.{txs, IsValid}
use drt_go_chain_storage.SenderList.Adding.{
  AddOutcome, add_tx-TxAdded, add_tx_count, add_tx_still_exceeds,
}
use drt_go_chain_storage.SenderList.Removal.{
  Lowered, Raised, remove_lower-above, remove_higher-below,
}
use drt_go_chain_storage.ConcurrentMap.{new_concurrent_map}
use drt_go_chain_storage.ConcurrentMap.Laws.{new_concurrent_map-IsValid}
use drt_go_chain_storage.TxBySender.{TxListBySenderMap, add_tx_return_evicted}
use drt_go_chain_storage.TxBySender.Lists.{list_or_new, Grown, add_tx_return_evicted-Grown}
use drt_go_chain_storage.Config.{ConfigSourceMe, verify_source, get_sender_constraints}
use drt_go_chain_storage.Config.Checked.{verify_source-get_sender_constraints}
use drt_go_chain_storage.Base.{◌<◌, ◌^◌, some, []}
use drt_go_chain_storage.Tests.{word_counter, word_counter_laws, pair_transaction}

abbrev wrapped : ℕ → ℕ → ℕ → ℕ → WrappedTransaction (ℕ × ℕ)
wrapped nonce gas_price hash size = record {
  tx = (nonce, gas_price);
  tx_hash = hash ∷ [];
  sender_shard_id = 0;
  receiver_shard_id = 0;
  size = size;
  fee = none;
  price_per_unit = 0;
  transferred_value = none;
  fee_payer = [];
}

-- the nonces 5 and 7, of 10 and 20 bytes, in a list of three transactions and 100 bytes
abbrev two_txs : TxListForSender (ℕ × ℕ) ℕ
two_txs = record {
  sender = 1 ∷ 2 ∷ [];
  items = record { next = 2; elems = (0, wrapped 5 100 1 10) ∷ (1, wrapped 7 100 2 20) ∷ [] };
  total_bytes = 30;
  constraints = record { max_num_txs = 3; max_num_bytes = 100 };
}

two_txs-IsValid : IsValid two_txs
unfolding find_id tx_compare
two_txs-IsValid = record {
  ids = (refl, omega arith, (refl, omega arith, tt));
  sorted = ((refl, tt), (tt, tt));
  sizes = (omega arith, (omega arith, tt));
  bytes = refl;
}

add_tx-TxAdded_example :
    AddOutcome word_counter_laws
      (wrapped 6 100 3 30)
      two_txs
      (insert_sorted (wrapped 6 100 3 30) (txs two_txs))
add_tx-TxAdded_example =
    add_tx-TxAdded word_counter_laws (wrapped 6 100 3 30) two_txs two_txs-IsValid (omega arith)

find_insertion_place-Placed_example :
    Placed
      (wrapped 6 100 3 30)
      two_txs.items
      (find_insertion_place (wrapped 6 100 3 30) two_txs.items.elems)
find_insertion_place-Placed_example =
    find_insertion_place-Placed (wrapped 6 100 3 30) two_txs.items two_txs-IsValid.ids
      two_txs-IsValid.sorted

add_tx_count_example : length (txs (add_tx (wrapped 6 100 3 30) two_txs).0) ≤ 3
add_tx_count_example =
    add_tx_count word_counter_laws (wrapped 6 100 3 30) two_txs two_txs-IsValid (omega arith)
      (omega arith)

-- the nonce 6 with 95 bytes: the nonces 5 and 6 alone are too many bytes
add_tx_still_exceeds_example : is_capacity_exceeded (add_tx (wrapped 6 100 3 95) two_txs).0 ≡ true
unfolding insert_sorted tx_compare
add_tx_still_exceeds_example =
    add_tx_still_exceeds word_counter_laws (wrapped 6 100 3 95) two_txs
      (wrapped 5 100 1 10 ∷ wrapped 6 100 3 95 ∷ wrapped 7 100 2 20 ∷ []) two_txs-IsValid
      (omega arith) refl refl refl

remove_lower-above_example :
    Lowered word_counter_laws 5
      (txs two_txs)
      two_txs
      []
      (remove_transactions_with_lower_or_equal_nonce_return_hashes 5 two_txs)
remove_lower-above_example = remove_lower-above word_counter_laws 5 two_txs two_txs-IsValid

remove_higher-below_example :
    Raised word_counter_laws 6
      (txs two_txs)
      two_txs
      (remove_transactions_with_higher_or_equal_nonce 6 two_txs)
remove_higher-below_example = remove_higher-below word_counter_laws 6 two_txs two_txs-IsValid

abbrev no_senders : TxListBySenderMap (ℕ × ℕ) ℕ
no_senders = record {
  backing_map = new_concurrent_map 4;
  sender_constraints = record { max_num_txs = 3; max_num_bytes = 100 };
  counter = 0;
}

add_tx_return_evicted-Grown_example :
    (m' : TxListBySenderMap (ℕ × ℕ) ℕ) × (add_tx_return_evicted (wrapped 6 100 3 30) no_senders
      ≡ some (
        m',
        (add_tx (wrapped 6 100 3 30) (list_or_new (1 ∷ 2 ∷ []) no_senders)).1,
        (add_tx (wrapped 6 100 3 30) (list_or_new (1 ∷ 2 ∷ []) no_senders)).2,
      ))
    × Grown
        (1 ∷ 2 ∷ [])
        (add_tx (wrapped 6 100 3 30) (list_or_new (1 ∷ 2 ∷ []) no_senders)).0
        no_senders
        m'
add_tx_return_evicted-Grown_example =
    add_tx_return_evicted-Grown word_counter_laws (wrapped 6 100 3 30) no_senders
      (new_concurrent_map-IsValid 4).0

abbrev source_config : ConfigSourceMe
source_config = record {
  name = 7 ∷ [];
  num_chunks = 16;
  eviction_enabled = true;
  num_bytes_threshold = 1000;
  num_bytes_per_sender_threshold = 100;
  count_threshold = 10;
  count_per_sender_threshold = 3;
  num_items_to_preemptively_evict = 1;
}

verify_source-get_sender_constraints_example :
    (0 < length source_config.name)
    × (1 ≤ source_config.num_chunks)
    × (source_config.num_chunks ≤ 128)
    × (4 ≤ source_config.num_bytes_threshold)
    × (source_config.num_bytes_threshold ≤ 2 ^ 30)
    × (4 ≤ source_config.count_threshold)
    × (1 ≤ (get_sender_constraints source_config).max_num_txs)
    × (1 ≤ (get_sender_constraints source_config).max_num_bytes)
    × ((get_sender_constraints source_config).max_num_bytes ≤ 2 ^ 25)
    × (1 ≤ source_config.num_items_to_preemptively_evict)
unfolding verify_source
verify_source-get_sender_constraints_example =
    verify_source-get_sender_constraints source_config refl
