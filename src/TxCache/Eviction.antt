-- ===== src/TxCache/Eviction.antt =====
-- txcache/eviction.go: the eviction of the transactions that are least likely to be selected, in
-- passes. The passes share the heap. An inner loop takes one round of fuel for each transaction of
-- the heap and one more, and so does the loop over the passes; `none` is also the end of the fuel.
use drt_go_chain_storage.Base.{
  ℕ, zero, suc, ◌+◌, Bool, ◌||◌, not, Option, none, some, List, [], ◌∷◌, ◌++◌, map, ltb, ltb_int64,
  if◌then◌else◌, ◌>>=◌, length,
}
use drt_go_chain_storage.Base.Bytes.{Bytes, bytes_eq}
use drt_go_chain_storage.Base.GoMap.{GoMap, insert}
use drt_go_chain_storage.Base.Heap
use drt_go_chain_storage.Core.{Counter, Flag, TransactionHandler}
use drt_go_chain_storage.SenderList.{get_txs_reversed}
use drt_go_chain_storage.TxByHash
use drt_go_chain_storage.TxBySender
use drt_go_chain_storage.TxBySender.{TxListBySenderMap}
use drt_go_chain_storage.Wrapped.{WrappedTransaction, sender_of, nonce}
use drt_go_chain_storage.Selection.{HeapItem, goto_next_transaction, min_less}
use drt_go_chain_storage.Selection.Loop.{push_bunches, push_next, count_txs}
use drt_go_chain_storage.TxCache.{TxCache, num_bytes, count_tx, count_senders, get_senders}

pub record EvictionJournal : Type 0 where
  pub num_evicted : ℕ
  pub num_evicted_by_pass : List ℕ

module _ {T : Type 0} ⦃h : TransactionHandler T⦄ where
  -- The loop that picks the transactions of a pass, the worst first. An item that is popped when
  -- there are enough transactions is not pushed back.
  unfoldable pub pick_loop :
      ℕ
      → ℕ
      → List (HeapItem T)
      → List (WrappedTransaction T)
      → Option (List (HeapItem T) × List (WrappedTransaction T))
  pick_loop num_items zero heap to_evict = none
  pick_loop num_items (suc fuel) heap to_evict = elim (Heap.pop min_less heap) [
    | none ↦ some (heap, to_evict)
    | some (item, rest) ↦
        let more =
          pick_loop num_items fuel (push_next min_less (goto_next_transaction item) rest)
            (to_evict ++ item.current_transaction ∷ []) in
        if ltb (length to_evict) num_items then more else some (rest, to_evict)
  ]

  -- the transactions of a heap that are still to come
  abbrev pub num_left : List (HeapItem T) → ℕ
  num_left [] = 0
  num_left (item ∷ heap) = length item.bunch + num_left heap

  -- for each sender, the nonce of its last transaction of the pass
  unfoldable pub lowest_to_evict_by_sender :
      List (WrappedTransaction T) → GoMap Bytes ℕ → GoMap Bytes ℕ
  lowest_to_evict_by_sender [] lowest = lowest
  lowest_to_evict_by_sender (tx ∷ txs) lowest =
      lowest_to_evict_by_sender txs (insert (sender_of tx) (nonce tx) lowest)

  unfoldable pub write_journal : List (WrappedTransaction T) → EvictionJournal → EvictionJournal
  write_journal to_evict journal = record {
    num_evicted = journal.num_evicted + length to_evict;
    num_evicted_by_pass = journal.num_evicted_by_pass ++ length to_evict ∷ [];
  }

  module _ {C : Type 0} ⦃n : Counter C⦄ where
    unfoldable pub remove_by_sender :
        GoMap Bytes ℕ → TxListBySenderMap T C → Option (TxListBySenderMap T C)
    remove_by_sender [] m = some m
    remove_by_sender ((sender, lowest) ∷ rest) m = do
      m' ← TxBySender.remove_higher_or_equal_nonce sender lowest m
      remove_by_sender rest m'

    module _ {F : Type 0} ⦃f : Flag F⦄ where
      unfoldable pub are_there_too_many_bytes : TxCache T F C → Bool
      are_there_too_many_bytes cache = ltb_int64 cache.config.num_bytes_threshold (num_bytes cache)

      unfoldable pub are_there_too_many_senders : TxCache T F C → Bool
      are_there_too_many_senders cache = ltb cache.config.count_threshold (count_senders cache)

      unfoldable pub are_there_too_many_txs : TxCache T F C → Bool
      are_there_too_many_txs cache = ltb cache.config.count_threshold (count_tx cache)

      unfoldable pub is_capacity_exceeded : TxCache T F C → Bool
      is_capacity_exceeded cache =
          are_there_too_many_bytes cache
          || (are_there_too_many_senders cache || are_there_too_many_txs cache)

      -- the transactions of a pass removed from both maps
      unfoldable pub remove_evicted :
          List (WrappedTransaction T) → TxCache T F C → Option (TxCache T F C)
      remove_evicted to_evict cache = do
        by_sender ← remove_by_sender (lowest_to_evict_by_sender to_evict []) cache.tx_list_by_sender
        (by_hash, _) ← TxByHash.remove_txs_bulk (map (λ tx. tx.tx_hash) to_evict) 0 cache.tx_by_hash
        some (record cache { tx_list_by_sender = by_sender; tx_by_hash = by_hash })

      unfoldable pub pass_loop :
          ℕ
          → List (HeapItem T)
          → EvictionJournal
          → TxCache T F C
          → Option (TxCache T F C × EvictionJournal)
      pass_loop zero heap journal cache = none
      pass_loop (suc fuel) heap journal cache =
          let pass : Option (TxCache T F C × EvictionJournal) = (do
            (rest, to_evict) ←
                pick_loop cache.config.num_items_to_preemptively_evict (suc (num_left heap)) heap []
            elim to_evict [
              | [] ↦ some (cache, journal)
              | first ∷ others ↦ do
                cache' ← remove_evicted (first ∷ others) cache
                pass_loop fuel rest (write_journal (first ∷ others) journal) cache'
            ]) in
          if is_capacity_exceeded cache then pass else some (cache, journal)

      unfoldable pub evict_least_likely_to_select_transactions :
          TxCache T F C → Option (TxCache T F C × EvictionJournal)
      evict_least_likely_to_select_transactions cache =
          let bunches = map get_txs_reversed (get_senders cache) in
          pass_loop (suc (count_txs bunches)) (push_bunches min_less bunches [])
            (record { num_evicted = 0; num_evicted_by_pass = [] }) cache

      -- no journal for nil; the second look at the capacity, under the mutex, finds what the first did
      unfoldable pub do_eviction : TxCache T F C → Option (TxCache T F C × Option EvictionJournal)
      do_eviction cache =
          let marked = record cache {
            is_eviction_in_progress = (f.set_returning_previous cache.is_eviction_in_progress).0;
          } in
          let evicted : Option (TxCache T F C × Option EvictionJournal) = (do
            (cache', journal) ← evict_least_likely_to_select_transactions marked
            some (
              record cache' { is_eviction_in_progress = f.reset cache'.is_eviction_in_progress },
              some journal,
            )) in
          if f.is_set cache.is_eviction_in_progress
          then some (cache, none)
          else if not (is_capacity_exceeded cache)
          then some (cache, none)
          else evicted
