-- ===== src/Tests/CacheRuns.antt =====
-- Runs of the cache of transactions, at a capacity of one transaction.
use drt_go_chain_storage.Base.{
  ℕ, ◌^◌, ◌<◌, ◌≡◌, refl, sym, subst, Bool, true, false, ◌||◌, not, Option, none, some, [], ◌∷◌,
  arith, is_some,
}
use drt_go_chain_storage.Base.Bytes.{Bytes}
use drt_go_chain_storage.Config.{ConfigSourceMe, verify_source}
use drt_go_chain_storage.TxByHash.{new_tx_by_hash_map}
use drt_go_chain_storage.TxBySender.{new_tx_list_by_sender_map}
use drt_go_chain_storage.Wrapped.{WrappedTransaction, MempoolHost, precompute_fields}
use drt_go_chain_storage.TxCache.{TxCache, new_tx_cache, count_tx, count_senders, num_bytes}
use drt_go_chain_storage.TxCache.Eviction.{
  EvictionJournal, evict_least_likely_to_select_transactions, do_eviction,
}
use drt_go_chain_storage.TxCache.Operations.{
  clear, get_by_tx_hash, add_to_maps, add_tx, remove_tx_by_hash,
}
use drt_go_chain_storage.TxCache.Steps.{IsValid, found_at, pool_of}
use drt_go_chain_storage.TxCache.Created.{new_maps-IsValid, NewOutcome, new_tx_cache-NewOutcome}
use drt_go_chain_storage.TxCache.Adding.{
  IsPrepared, AddedTo, grown_pool, add_to_maps-AddedTo, add_tx-AddedTo,
}
use drt_go_chain_storage.TxCache.Removing.{RemovedBy, remove_tx_by_hash-RemovedBy, clear-pool_of}
use drt_go_chain_storage.TxCache.Evicting.{
  EvictionDone, evict_least_likely_to_select_transactions-EvictionDone, DoEvictionOutcome,
  do_eviction-DoEvictionOutcome,
}
use drt_go_chain_storage.Tests.{
  word_counter, word_counter_laws, bool_flag, bool_flag_laws, sender_transaction,
}
use drt_go_chain_storage.Tests.SelectionRuns.{wrapped, cheap, dear, middling}

abbrev Cache : Type 0
Cache = TxCache (ℕ × ℕ × ℕ) Bool ℕ

abbrev config : ConfigSourceMe
config = record {
  name = 1 ∷ [];
  num_chunks = 2;
  eviction_enabled = true;
  num_bytes_threshold = 1000;
  num_bytes_per_sender_threshold = 100;
  count_threshold = 1;
  count_per_sender_threshold = 5;
  num_items_to_preemptively_evict = 2;
}

abbrev host : MempoolHost (ℕ × ℕ × ℕ)
host = record { compute_tx_fee = λ t. 500; get_transferred_value = λ t. none }

abbrev empty_cache : Cache
empty_cache = record {
  name = 1 ∷ [];
  tx_list_by_sender = new_tx_list_by_sender_map 2 (record { max_num_txs = 5; max_num_bytes = 100 });
  tx_by_hash = new_tx_by_hash_map 2;
  config = config;
  host = host;
  is_eviction_in_progress = false;
}

empty_cache-IsValid : IsValid empty_cache
empty_cache-IsValid =
    (new_maps-IsValid 2 (record { max_num_txs = 5; max_num_bytes = 100 }) empty_cache refl refl).0

abbrev cache_or : Cache → Option (Cache × Bool) → Cache
cache_or cache none = cache
cache_or cache (some r) = r.0

cache_or-IsValid :
    (tx : WrappedTransaction (ℕ × ℕ × ℕ)) (cache : Cache)
    → IsValid cache
    → tx.size < 2 ^ 64
    → IsValid (cache_or cache (add_to_maps tx cache))
cache_or-IsValid tx cache v fine =
    let (cache', run, added) = add_to_maps-AddedTo word_counter_laws tx cache v fine in
    subst (λ o. IsValid (cache_or cache o)) (sym run) added.valid

-- of the sender 1 the nonces 7 and 8, of the sender 2 the nonce 7
abbrev one_tx : Cache
one_tx = cache_or empty_cache (add_to_maps cheap empty_cache)

abbrev two_txs : Cache
two_txs = cache_or one_tx (add_to_maps dear one_tx)

abbrev three_txs : Cache
three_txs = cache_or two_txs (add_to_maps middling two_txs)

three_txs-IsValid : IsValid three_txs
three_txs-IsValid =
    cache_or-IsValid middling two_txs
      (cache_or-IsValid dear one_tx
        (cache_or-IsValid cheap empty_cache empty_cache-IsValid (omega arith)) (omega arith))
      (omega arith)

add_tx-AddedTo_example :
    (ready : Cache) × (cache' : Cache) × (computed : WrappedTransaction (ℕ × ℕ × ℕ)) × IsPrepared
      word_counter_laws three_txs.config.eviction_enabled three_txs ready
    × (computed ≡ precompute_fields three_txs.host (wrapped 1 9 100 5 0))
    × (add_tx (some (wrapped 1 9 100 5 0)) three_txs
        ≡ some (
          cache',
          true,
          not (is_some (found_at (5 ∷ []) ready))
              || (grown_pool word_counter_laws computed ready).1,
        ))
    × AddedTo word_counter_laws computed ready cache'
add_tx-AddedTo_example =
    add_tx-AddedTo word_counter_laws bool_flag_laws (wrapped 1 9 100 5 0) three_txs
      three_txs-IsValid (omega arith)

-- three transactions, where the capacity is one
evict_least_likely_to_select_transactions-EvictionDone_example :
    (r : Cache × EvictionJournal) × (evict_least_likely_to_select_transactions three_txs ≡ some r)
    × EvictionDone word_counter_laws three_txs r.0 r.1
evict_least_likely_to_select_transactions-EvictionDone_example =
    evict_least_likely_to_select_transactions-EvictionDone word_counter_laws three_txs
      three_txs-IsValid

do_eviction-DoEvictionOutcome_example :
    (r : Cache × Option EvictionJournal) × (do_eviction three_txs ≡ some r)
    × DoEvictionOutcome word_counter_laws three_txs r.0 r.1
    × IsValid r.0
do_eviction-DoEvictionOutcome_example =
    do_eviction-DoEvictionOutcome word_counter_laws bool_flag_laws three_txs three_txs-IsValid

remove_tx_by_hash-RemovedBy_example :
    (cache' : Cache) × (remove_tx_by_hash (2 ∷ []) three_txs
      ≡ some (cache', is_some (found_at (2 ∷ []) three_txs)))
    × IsValid cache'
    × RemovedBy word_counter_laws (found_at (2 ∷ []) three_txs) (2 ∷ []) three_txs cache'
remove_tx_by_hash-RemovedBy_example =
    remove_tx_by_hash-RemovedBy word_counter_laws (2 ∷ []) three_txs three_txs-IsValid

new_tx_cache-NewOutcome_example :
    NewOutcome Bool ℕ config (verify_source config) (some host) (new_tx_cache config (some host))
new_tx_cache-NewOutcome_example = new_tx_cache-NewOutcome Bool ℕ config (some host)

clear-pool_of_example :
    IsValid (clear three_txs)
    × ((q : Bytes) → get_by_tx_hash q (clear three_txs) ≡ some none)
    × ((q : Bytes) → pool_of q (clear three_txs) ≡ [])
    × (count_tx (clear three_txs) ≡ 0)
    × (count_senders (clear three_txs) ≡ 0)
    × (num_bytes (clear three_txs) ≡ num_bytes three_txs)
clear-pool_of_example = clear-pool_of word_counter_laws three_txs three_txs-IsValid
