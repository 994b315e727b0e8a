-- ===== src/TxCache/Removing.antt =====
-- RemoveTxByHash and Clear of txcache/txCache.go, on both maps.
use drt_go_chain_storage.Base.{
  ◌≡◌, refl, ◌∙◌, ap, ◌||◌, Option, none, some, [], map, if◌then◌else◌, is_some, arith,
  Option-cases, inl, inr,
}
use drt_go_chain_storage.Base.Bytes.{Bytes, bytes_beq, bytes_beq_iff}
use drt_go_chain_storage.ConcurrentMap.Laws.{clear-IsValid}
use drt_go_chain_storage.Core.{Counter, CounterLaws, Flag, TransactionHandler}
use drt_go_chain_storage.TxByHash
use drt_go_chain_storage.TxByHash.{TxByHashMap}
use drt_go_chain_storage.TxByHash.Found.{
  among, remove_tx-tx_at, remove_txs_bulk-tx_at, get_tx-tx_at,
}
use drt_go_chain_storage.TxBySender
use drt_go_chain_storage.TxBySender.{TxListBySenderMap}
use drt_go_chain_storage.TxBySender.Pools.{remove_lower_or_equal_nonce-pool}
use drt_go_chain_storage.SenderList.Removal.{above, up_to}
use drt_go_chain_storage.Wrapped.{WrappedTransaction, nonce, sender_of}
use drt_go_chain_storage.TxCache.{TxCache, num_bytes, count_tx, count_senders}
use drt_go_chain_storage.TxCache.Operations.{remove_tx_by_hash, get_by_tx_hash, clear}
use drt_go_chain_storage.TxCache.Created.{empty_by_hash, empty_by_sender}
use drt_go_chain_storage.TxCache.Steps.{IsValid, pool_of, found_at}

zero_count :
    {C : Type 0} → ⦃n : Counter C⦄ → (laws : CounterLaws n) (c : C) → n.get_uint64 (n.set 0 c) ≡ 0
zero_count ⦃n = n⦄ laws c = omega (arith, laws.get-set 0 c, laws.get_uint64-get (n.set 0 c))

module _ {T : Type 0} ⦃h : TransactionHandler T⦄ {F C : Type 0} ⦃f : Flag F⦄ ⦃n : Counter C⦄
    (laws : CounterLaws n) where
  -- The cache behind RemoveTxByHash, by the transaction that the hash found.
  abbrev pub RemovedBy :
      Option (WrappedTransaction T) → Bytes → TxCache T F C → TxCache T F C → Type 0
  RemovedBy none tx_hash cache cache' =
      ((q : Bytes) → pool_of q cache' ≡ pool_of q cache)
      × ((q : Bytes) → found_at q cache' ≡ found_at q cache)
  RemovedBy (some tx) tx_hash cache cache' =
      ((q : Bytes)
        → pool_of q cache' ≡ (
            if bytes_beq (sender_of tx) q
            then above (nonce tx) (pool_of (sender_of tx) cache)
            else pool_of q cache))
      × ((q : Bytes)
          → found_at q cache' ≡ (
              if bytes_beq tx_hash q
                || among q (map (λ x. x.tx_hash) (up_to (nonce tx) (pool_of (sender_of tx) cache)))
              then none
              else found_at q cache))

  -- On a valid cache RemoveTxByHash reports whether the hash finds a transaction. If it does, the
  -- transactions of its sender are left from the nonce above its own on, the hash and the hashes of
  -- the transactions removed with it find nothing any more, and no other sender or hash is touched. If
  -- it does not, no sender and no hash is touched. The cache is valid again.
  pub remove_tx_by_hash-RemovedBy :
      (tx_hash : Bytes) (cache : TxCache T F C)
      → IsValid cache
      → (cache' : TxCache T F C) × (remove_tx_by_hash tx_hash cache
          ≡ some (cache', is_some (found_at tx_hash cache)))
        × IsValid cache'
        × RemovedBy (found_at tx_hash cache) tx_hash cache cache'
  unfolding remove_tx_by_hash
  remove_tx_by_hash-RemovedBy tx_hash cache v =
      let (m, run, valid, at) = remove_tx-tx_at tx_hash cache.tx_by_hash v.by_hash in
      elim (Option-cases (found_at tx_hash cache)) [
        | inl absent ↦ (
          record cache { tx_by_hash = m },
          rw run (rw (absent, found_at) refl),
          record { by_hash = valid; by_sender = v.by_sender },
          rw (absent, found_at)
              ((λ q. refl), λ q. at q ∙ ground (arith, absent, bytes_beq_iff tx_hash q)),
        )
        | inr (tx, there) ↦
            let (by_sender, run1, sound, pools) =
              remove_lower_or_equal_nonce-pool laws tx cache.tx_list_by_sender v.by_sender in
            let (r, run2, valid', at') =
              remove_txs_bulk-tx_at
                (map (λ x. x.tx_hash) (up_to (nonce tx) (pool_of (sender_of tx) cache))) 0 m
                valid in
            (
              record cache { tx_list_by_sender = by_sender; tx_by_hash = r.0 },
              rw run (rw (there, found_at) (rw run1 (rw run2 refl))),
              record { by_hash = valid'; by_sender = sound },
              rw (there, found_at) (pools, λ q. ground (arith, at q, at' q)),
            )
      ]

  -- After Clear of a valid cache, which leaves a valid one, no hash finds a transaction, no sender
  -- has one and the numbers of transactions and of senders are zero, but the number of bytes is
  -- what it was before.
  pub clear-pool_of :
      (cache : TxCache T F C)
      → IsValid cache
      → IsValid (clear cache)
        × ((q : Bytes) → get_by_tx_hash q (clear cache) ≡ some none)
        × ((q : Bytes) → pool_of q (clear cache) ≡ [])
        × (count_tx (clear cache) ≡ 0)
        × (count_senders (clear cache) ≡ 0)
        × (num_bytes (clear cache) ≡ num_bytes cache)
  unfolding clear get_by_tx_hash count_tx count_senders num_bytes TxByHash.clear TxBySender.clear
  clear-pool_of cache v =
      let (valid, empty) = clear-IsValid cache.tx_by_hash.backing_map v.by_hash.map_valid in
      let (valid', empty') =
        clear-IsValid cache.tx_list_by_sender.backing_map v.by_sender.map_valid in
      let hashes = TxByHash.clear cache.tx_by_hash in
      let (by_hash, no_hash) = empty_by_hash hashes valid empty in
      let (by_sender, no_sender) =
        empty_by_sender (TxBySender.clear cache.tx_list_by_sender) valid' empty' in
      (
        record { by_hash = by_hash; by_sender = by_sender },
        (λ q. get_tx-tx_at q hashes valid ∙ ap some (no_hash q)),
        no_sender,
        zero_count laws cache.tx_by_hash.counter,
        zero_count laws cache.tx_list_by_sender.counter,
        refl,
      )
