-- ===== src/TxCache/Operations.antt =====
-- txcache/txCache.go: the operations of the cache of transactions. A transaction that is added is a
-- pointer which no map holds yet, so its computed fields are written before it is stored. What the
-- methods that are not implemented return is written out.
use drt_go_chain_storage.Base.{
  ℕ, Bool, true, false, ◌||◌, Option, none, some, List, [], ◌∷◌, ◌++◌, map, if◌then◌else◌, is_some,
  ◌>>=◌,
}
use drt_go_chain_storage.Base.Bytes.{Bytes}
use drt_go_chain_storage.ConcurrentMap
use drt_go_chain_storage.Core.{Counter, Flag, TransactionHandler}
use drt_go_chain_storage.SenderList.{get_txs}
use drt_go_chain_storage.TxByHash
use drt_go_chain_storage.TxBySender
use drt_go_chain_storage.Wrapped.{WrappedTransaction, precompute_fields}
use drt_go_chain_storage.Selection.{SelectionSession}
use drt_go_chain_storage.Selection.Loop.{select_transactions_from_bunches}
use drt_go_chain_storage.TxCache.{TxCache, get_senders}
use drt_go_chain_storage.TxCache.Eviction.{do_eviction}

unfoldable pub collect_transaction :
    {T : Type 0}
    → Bytes
    → Option (WrappedTransaction T)
    → List (Option (WrappedTransaction T))
    → List (Option (WrappedTransaction T))
collect_transaction key tx transactions = transactions ++ tx ∷ []

module _ {T : Type 0} ⦃h : TransactionHandler T⦄ {F C : Type 0} ⦃f : Flag F⦄ ⦃n : Counter C⦄ where
  -- the part of AddTx under the mutex, and the removal of the evicted transactions after it: the
  -- cache, and whether the transaction was added to one of the maps
  unfoldable pub add_to_maps : WrappedTransaction T → TxCache T F C → Option (TxCache T F C × Bool)
  add_to_maps tx cache = do
    (by_hash, added_in_by_hash) ← TxByHash.add_tx tx cache.tx_by_hash
    (by_sender, added_in_by_sender, evicted) ←
        TxBySender.add_tx_return_evicted tx cache.tx_list_by_sender
    (by_hash', _) ← TxByHash.remove_txs_bulk evicted 0 by_hash
    some (
      record cache { tx_list_by_sender = by_sender; tx_by_hash = by_hash' },
      added_in_by_hash || added_in_by_sender,
    )

  -- the cache, whether the transaction is not nil, and whether it was added
  unfoldable pub add_tx :
      Option (WrappedTransaction T) → TxCache T F C → Option (TxCache T F C × Bool × Bool)
  add_tx none cache = some (cache, false, false)
  add_tx (some tx) cache =
      let evicted : Option (TxCache T F C) = (do (cache', _) ← do_eviction cache; some cache') in
      do
        cache' ← if cache.config.eviction_enabled then evicted else some cache
        (cache'', added) ← add_to_maps (precompute_fields cache.host tx) cache'
        some (cache'', true, added)

  unfoldable pub get_by_tx_hash : Bytes → TxCache T F C → Option (Option (WrappedTransaction T))
  get_by_tx_hash tx_hash cache = TxByHash.get_tx tx_hash cache.tx_by_hash

  unfoldable pub acquire_bunches_of_transactions :
      TxCache T F C → List (List (WrappedTransaction T))
  acquire_bunches_of_transactions cache = map get_txs (get_senders cache)

  -- no session is nil
  unfoldable pub select_transactions :
      Option (SelectionSession T)
      → (ℕ → Bool)
      → ℕ
      → ℕ
      → TxCache T F C
      → Option (List (WrappedTransaction T) × ℕ)
  select_transactions none late gas_requested max_num cache = some ([], 0)
  select_transactions (some session) late gas_requested max_num cache =
      select_transactions_from_bunches session late gas_requested max_num
        (acquire_bunches_of_transactions cache)

  unfoldable pub remove_tx_by_hash : Bytes → TxCache T F C → Option (TxCache T F C × Bool)
  remove_tx_by_hash tx_hash cache = do
    (by_hash, found) ← TxByHash.remove_tx tx_hash cache.tx_by_hash
    elim found [
      | none ↦ some (record cache { tx_by_hash = by_hash }, false)
      | some tx ↦ do
        (by_sender, evicted) ← TxBySender.remove_lower_or_equal_nonce tx cache.tx_list_by_sender
        (by_hash', _) ← TxByHash.remove_txs_bulk evicted 0 by_hash
        some (record cache { tx_list_by_sender = by_sender; tx_by_hash = by_hash' }, true)
    ]

  unfoldable pub for_each_transaction :
      {S : Type 0} → (Bytes → Option (WrappedTransaction T) → S → S) → TxCache T F C → S → S
  for_each_transaction function cache s =
      ConcurrentMap.iter_cb function (ConcurrentMap.all_items cache.tx_by_hash.backing_map.chunks) s

  unfoldable pub get_all_transactions : TxCache T F C → List (Option (WrappedTransaction T))
  get_all_transactions cache = for_each_transaction collect_transaction cache []

  unfoldable pub get_transactions_pool_for_sender :
      Bytes → TxCache T F C → Option (List (WrappedTransaction T))
  get_transactions_pool_for_sender sender cache = do
    found ← TxBySender.get_list_for_sender sender cache.tx_list_by_sender
    some (elim found [ none ↦ [] | some l ↦ get_txs l ])

  unfoldable pub clear : TxCache T F C → TxCache T F C
  clear cache = record cache {
    tx_list_by_sender = TxBySender.clear cache.tx_list_by_sender;
    tx_by_hash = TxByHash.clear cache.tx_by_hash;
  }

  -- Get and Peek
  unfoldable pub get : Bytes → TxCache T F C → Option (Option T)
  get key cache = do
    found ← get_by_tx_hash key cache
    some (elim found [ none ↦ none | some tx ↦ some tx.tx ])

  unfoldable pub has_tx : Bytes → TxCache T F C → Option Bool
  has_tx key cache = do found ← get_by_tx_hash key cache; some (is_some found)

  unfoldable pub remove : Bytes → TxCache T F C → Option (TxCache T F C)
  remove key cache = do (cache', _) ← remove_tx_by_hash key cache; some cache'

  unfoldable pub keys : TxCache T F C → List Bytes
  keys cache = TxByHash.keys cache.tx_by_hash

  unfoldable pub max_size : TxCache T F C → ℕ
  max_size cache = cache.config.count_threshold
