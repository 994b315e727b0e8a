-- ===== src/TxCache/Created.antt =====
-- NewTxCache of txcache/txCache.go.
use drt_go_chain_storage.Base.{
  ℕ, ◌≡◌, refl, sym, ◌∙◌, ap, subst, Option, none, some, [], WhenSome, is_some,
}
use drt_go_chain_storage.Base.Bytes.{Bytes}
use drt_go_chain_storage.ConcurrentMap.Laws
use drt_go_chain_storage.ConcurrentMap.Laws.{new_concurrent_map-IsValid, view}
use drt_go_chain_storage.Config.{
  ConfigSourceMe, InvalidField, verify_source, get_sender_constraints,
}
use drt_go_chain_storage.Core.{Counter, Flag, TransactionHandler}
use drt_go_chain_storage.SenderList.{SenderConstraints, TxListForSender}
use drt_go_chain_storage.TxByHash.{TxByHashMap, new_tx_by_hash_map}
use drt_go_chain_storage.TxByHash.Found as ByHash
use drt_go_chain_storage.TxByHash.Found.{tx_at}
use drt_go_chain_storage.TxBySender.{TxListBySenderMap, new_tx_list_by_sender_map}
use drt_go_chain_storage.TxBySender.Lists.{list_of}
use drt_go_chain_storage.TxBySender.Pools.{IsSound, IsSlot, pool, txs_in}
use drt_go_chain_storage.Wrapped.{WrappedTransaction, MempoolHost}
use drt_go_chain_storage.TxCache.{
  TxCache, NewTxCache, created, invalid_config, nil_mempool_host, new_tx_cache,
}
use drt_go_chain_storage.TxCache.Steps.{IsValid, pool_of, found_at}

module _ {T C : Type 0} ⦃n : Counter C⦄ where
  -- a map by hash that holds nothing
  pub empty_by_hash :
      (m : TxByHashMap T C)
      → Laws.IsValid m.backing_map
      → ((q : Bytes) → view m.backing_map q ≡ none)
      → ByHash.IsValid m × ((q : Bytes) → tx_at q m ≡ none)
  empty_by_hash m v empty =
      let nothing : (q : Bytes) → tx_at q m ≡ none = λ q. rw (empty q, tx_at) refl in
      (
        record { map_valid = v; no_nil = λ q. ap is_some (empty q) ∙ sym (ap is_some (nothing q)) },
        nothing,
      )

  -- a map by sender that holds nothing
  pub empty_by_sender :
      ⦃h : TransactionHandler T⦄ (m : TxListBySenderMap T C)
      → Laws.IsValid m.backing_map
      → ((q : Bytes) → view m.backing_map q ≡ none)
      → IsSound m × ((q : Bytes) → pool q m ≡ [])
  empty_by_sender m v empty =
      let nothing : (q : Bytes) → list_of q m ≡ none = λ q. rw (empty q, list_of) refl in
      (
        record {
          map_valid = v;
          slots = λ q. subst (WhenSome (IsSlot m.sender_constraints q)) (sym (nothing q)) tt;
        },
        λ q. ap txs_in (nothing q),
      )

module _ {T : Type 0} ⦃h : TransactionHandler T⦄ {F C : Type 0} ⦃f : Flag F⦄ ⦃n : Counter C⦄ where
  -- the maps of a new cache
  pub new_maps-IsValid :
      (num_chunks : ℕ) (c : SenderConstraints) (cache : TxCache T F C)
      → cache.tx_by_hash ≡ new_tx_by_hash_map num_chunks
      → cache.tx_list_by_sender ≡ new_tx_list_by_sender_map num_chunks c
      → IsValid cache
        × ((q : Bytes) → found_at q cache ≡ none)
        × ((q : Bytes) → pool_of q cache ≡ [])
  unfolding new_tx_by_hash_map new_tx_list_by_sender_map
  new_maps-IsValid num_chunks c cache hashes lists =
      let (valid, empty) = new_concurrent_map-IsValid {V = WrappedTransaction T} num_chunks in
      let (valid', empty') = new_concurrent_map-IsValid {V = TxListForSender T C} num_chunks in
      let by_hash = empty_by_hash (new_tx_by_hash_map num_chunks) valid empty in
      let by_sender = empty_by_sender (new_tx_list_by_sender_map num_chunks c) valid' empty' in
      (
        record {
          by_hash = subst ByHash.IsValid (sym hashes) by_hash.0;
          by_sender = subst IsSound (sym lists) by_sender.0;
        },
        (λ q. ap (tx_at q) hashes ∙ by_hash.1 q),
        (λ q. ap (pool q) lists ∙ by_sender.1 q),
      )

module _ {T : Type 0} ⦃h : TransactionHandler T⦄ (F C : Type 0) ⦃f : Flag F⦄ ⦃n : Counter C⦄ where
  -- what NewTxCache returns, by the field that the check of the configuration names and by the host
  abbrev pub NewOutcome :
      ConfigSourceMe → Option InvalidField → Option (MempoolHost T) → NewTxCache T F C → Type 0
  NewOutcome config (some field) host r = r ≡ invalid_config field
  NewOutcome config none none r = r ≡ nil_mempool_host
  NewOutcome config none (some host) r =
      (cache : TxCache T F C) × (r ≡ created cache)
      × IsValid cache
      × (cache.config ≡ config)
      × (cache.is_eviction_in_progress ≡ f.unset)
      × ((q : Bytes) → found_at q cache ≡ none)
      × ((q : Bytes) → pool_of q cache ≡ [])

  -- NewTxCache returns the error of the check of the configuration, or else the error for a host that
  -- is nil, or else a valid cache with the configuration in which no hash and no sender has a
  -- transaction and no eviction is in progress.
  pub new_tx_cache-NewOutcome :
      (config : ConfigSourceMe) (host : Option (MempoolHost T))
      → NewOutcome config (verify_source config) host (new_tx_cache config host)
  unfolding new_tx_cache
  new_tx_cache-NewOutcome config host = go (verify_source config) host refl
    where
      go :
          (checked : Option InvalidField) (host : Option (MempoolHost T))
          → verify_source config ≡ checked
          → NewOutcome config checked host (new_tx_cache config host)
      go (some field) host e = rw (e, new_tx_cache) refl
      go none none e = rw (e, new_tx_cache) refl
      go none (some host) e =
          let cache : TxCache T F C = record {
            name = config.name;
            tx_list_by_sender =
                new_tx_list_by_sender_map config.num_chunks (get_sender_constraints config);
            tx_by_hash = new_tx_by_hash_map config.num_chunks;
            config = config;
            host = host;
            is_eviction_in_progress = f.unset;
          } in
          let (valid, found, pools) =
            new_maps-IsValid config.num_chunks (get_sender_constraints config) cache refl refl in
          (cache, rw (e, new_tx_cache) refl, valid, refl, refl, found, pools)
