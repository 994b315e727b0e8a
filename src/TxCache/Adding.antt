-- ===== src/TxCache/Adding.antt =====
-- AddTx of txcache/txCache.go: the eviction, then the addition to both maps.
use drt_go_chain_storage.Base.{
  ◌^◌, ◌<◌, ◌≡◌, refl, ◌∙◌, ap, Bool, true, false, ◌||◌, not, Option, none, some, List,
  if◌then◌else◌, is_some, ◌>>=◌,
}
use drt_go_chain_storage.Base.Bytes.{Bytes, bytes_beq}
use drt_go_chain_storage.Core.{Counter, CounterLaws, Flag, FlagLaws, TransactionHandler}
use drt_go_chain_storage.SenderList.Order.{insert_sorted}
use drt_go_chain_storage.TxByHash.Found.{among, add_tx-tx_at, remove_txs_bulk-tx_at}
use drt_go_chain_storage.TxBySender.Added.{added_pool, add_tx_return_evicted-pool}
use drt_go_chain_storage.Wrapped.{WrappedTransaction, sender_of, precompute_fields}
use drt_go_chain_storage.TxCache.{TxCache}
use drt_go_chain_storage.TxCache.Eviction.{EvictionJournal, do_eviction}
use drt_go_chain_storage.TxCache.Operations.{add_to_maps, add_tx}
use drt_go_chain_storage.TxCache.Steps.{IsValid, pool_of, found_at}
use drt_go_chain_storage.TxCache.Evicting.{DoEvictionOutcome, do_eviction-DoEvictionOutcome}

module _ {T : Type 0} ⦃h : TransactionHandler T⦄ {F C : Type 0} ⦃f : Flag F⦄ ⦃n : Counter C⦄
    (laws : CounterLaws n) where
  -- the transactions of the sender with the added one, whether it is added to them, and the hashes
  -- that the limits of the sender evict
  abbrev pub grown_pool :
      WrappedTransaction T → TxCache T F C → List (WrappedTransaction T) × Bool × List Bytes
  grown_pool tx cache =
      let before = pool_of (sender_of tx) cache in
      added_pool laws cache.tx_list_by_sender.sender_constraints before (insert_sorted tx before)

  -- the cache behind the addition of a transaction
  pub record AddedTo (tx : WrappedTransaction T) (cache cache' : TxCache T F C) : Type 0 where
    pub valid : IsValid cache'
    pub config : cache'.config ≡ cache.config
    pub pools :
        (q : Bytes)
        → pool_of q cache'
          ≡ (if bytes_beq (sender_of tx) q then (grown_pool tx cache).0 else pool_of q cache)
    pub found :
        (q : Bytes)
        → found_at q cache' ≡ (
            if among q (grown_pool tx cache).2
            then none
            else if is_some (found_at tx.tx_hash cache)
            then found_at q cache
            else if bytes_beq tx.tx_hash q
            then some tx
            else found_at q cache)

  pub add_to_maps-AddedTo :
      (tx : WrappedTransaction T) (cache : TxCache T F C)
      → IsValid cache
      → tx.size < 2 ^ 64
      → (cache' : TxCache T F C) × (add_to_maps tx cache
          ≡ some (cache', not (is_some (found_at tx.tx_hash cache)) || (grown_pool tx cache).1))
        × AddedTo tx cache cache'
  unfolding add_to_maps
  add_to_maps-AddedTo tx cache v fine =
      let (by_hash, run, valid, at) = add_tx-tx_at tx cache.tx_by_hash v.by_hash in
      let (by_sender, r, is, run', sound, same, pools) =
        add_tx_return_evicted-pool laws tx cache.tx_list_by_sender v.by_sender fine in
      let (k, run'', valid', at') = remove_txs_bulk-tx_at r.2 0 by_hash valid in
      let cache' : TxCache T F C = record cache {
        tx_list_by_sender = by_sender;
        tx_by_hash = k.0;
      } in
      (
        cache',
        rw run (
            rw run' (
              rw run''
                (ap (λ b. some (cache', not (is_some (found_at tx.tx_hash cache)) || b.1)) is))),
        record {
          valid = record { by_hash = valid'; by_sender = sound };
          config = refl;
          pools = λ q.
              pools q ∙ ap (λ b. if bytes_beq (sender_of tx) q then b.0 else pool_of q cache) is;
          found = λ q.
              let out = at' q ∙ ap (λ o. if among q r.2 then none else o) (at q) in
              out
              ∙ ap
                  (λ b.
                    if among q b.2
                    then none
                    else if is_some (found_at tx.tx_hash cache)
                    then found_at q cache
                    else if bytes_beq tx.tx_hash q
                    then some tx
                    else found_at q cache)
                  is;
        },
      )

  -- The cache ahead of the addition: the one that doEviction leaves if eviction is enabled, the cache
  -- itself if not.
  abbrev pub IsPrepared : Bool → TxCache T F C → TxCache T F C → Type 0
  IsPrepared true cache ready =
      (journal : Option EvictionJournal) × (do_eviction cache ≡ some (ready, journal))
      × DoEvictionOutcome laws cache ready journal
  IsPrepared false cache ready = ready ≡ cache

  abbrev evicted_if : Bool → TxCache T F C → Option (TxCache T F C)
  evicted_if enabled cache =
      let evicted : Option (TxCache T F C) = (do (cache', _) ← do_eviction cache; some cache') in
      if enabled then evicted else some cache

  evicted_if-IsPrepared :
      (flag_laws : FlagLaws f) (enabled : Bool) (cache : TxCache T F C)
      → IsValid cache
      → (ready : TxCache T F C) × (evicted_if enabled cache ≡ some ready)
        × IsPrepared enabled cache ready
        × IsValid ready
  evicted_if-IsPrepared flag_laws false cache v = (cache, refl, refl, v)
  evicted_if-IsPrepared flag_laws true cache v =
      let ((ready, journal), run, out, valid) =
        do_eviction-DoEvictionOutcome laws flag_laws cache v in
      (ready, rw run refl, (journal, run, out), valid)

  -- AddTx of a transaction with a size below 2 ^ 64 on a valid cache comes to an end and leaves a valid
  -- cache: first it evicts, if eviction is enabled. Then the transaction with its computed fields is
  -- inserted into the sorted transactions of its sender, which lose the last one if they break the
  -- limits of the sender, no other sender is touched, and its hash finds it, if the hash found nothing
  -- before; the hash that is lost to the limits finds nothing. It reports that the transaction is
  -- not nil, and that it was added if the hash is new or the transactions of the sender do not have it.
  pub add_tx-AddedTo :
      (flag_laws : FlagLaws f) (tx : WrappedTransaction T) (cache : TxCache T F C)
      → IsValid cache
      → tx.size < 2 ^ 64
      → (ready : TxCache T F C) × (cache' : TxCache T F C) × (computed : WrappedTransaction T)
        × IsPrepared cache.config.eviction_enabled cache ready
        × (computed ≡ precompute_fields cache.host tx)
        × (add_tx (some tx) cache
            ≡ some (
              cache',
              true,
              not (is_some (found_at tx.tx_hash ready)) || (grown_pool computed ready).1,
            ))
        × AddedTo computed ready cache'
  unfolding add_tx precompute_fields
  add_tx-AddedTo flag_laws tx cache v fine =
      let computed = precompute_fields cache.host tx in
      let (ready, prepared, is, valid) =
        evicted_if-IsPrepared flag_laws cache.config.eviction_enabled cache v in
      let (cache', run, added) = add_to_maps-AddedTo computed ready valid fine in
      (ready, cache', computed, is, refl, rw prepared (rw run refl), added)
