-- ===== src/CrossTx.antt =====
-- txcache/crossTxCache.go: the immunity cache of the transactions that end in this shard. Peek is
-- Get; the pool for a sender is empty; logging is left out.
pub mod Built
use drt_go_chain_storage.Base.{ℕ, ◌⊎◌, inl, inr, Bool, Option, none, some, List, ◌>>=◌}
use drt_go_chain_storage.Base.Bytes.{Bytes}
use drt_go_chain_storage.Core.{Counter, Flag, Maxima}
use drt_go_chain_storage.Wrapped.{WrappedTransaction}
use drt_go_chain_storage.Config.{ConfigDestinationMe, InvalidField, verify_destination}
use drt_go_chain_storage.Immunity
use drt_go_chain_storage.Immunity.{ImmunityCache, CacheConfig, ConfigError}

pub record CrossTxCache (T F C : Type 0) : Type 0 where
  pub immunity_cache : ImmunityCache (WrappedTransaction T) F C
  pub config : ConfigDestinationMe

unfoldable pub immunity_cache_config : ConfigDestinationMe → CacheConfig
immunity_cache_config config = record {
  name = config.name;
  num_chunks = config.num_chunks;
  max_num_items = config.max_num_items;
  max_num_bytes = config.max_num_bytes;
  num_items_to_preemptively_evict = config.num_items_to_preemptively_evict;
}

module _ {T F C : Type 0} ⦃f : Flag F⦄ ⦃n : Counter C⦄ where
  -- the cache, or the error of one of the two checks
  unfoldable pub new_cross_tx_cache :
      Maxima → ConfigDestinationMe → CrossTxCache T F C ⊎ (InvalidField ⊎ ConfigError)
  new_cross_tx_cache m config =
      let built : ImmunityCache (WrappedTransaction T) F C ⊎ ConfigError =
        Immunity.new_immunity_cache m (immunity_cache_config config) in
      elim (verify_destination config) [
        | some e ↦ inr (inl e)
        | none ↦ elim built [
          | inr e ↦ inr (inr e)
          | inl cache ↦ inl (record { immunity_cache = cache; config = config })
        ]
      ]

  unfoldable pub immunize_txs_against_eviction :
      List Bytes → CrossTxCache T F C → Option (CrossTxCache T F C)
  immunize_txs_against_eviction all c = do
    (cache, _, _) ← Immunity.immunize_keys all c.immunity_cache
    some (record c { immunity_cache = Immunity.diagnose cache })

  -- the cache, whether it has the transaction, and whether it was added
  unfoldable pub add_tx :
      Maxima → WrappedTransaction T → CrossTxCache T F C → Option (CrossTxCache T F C × Bool × Bool)
  add_tx m tx c = do
    (cache, had, added) ← Immunity.has_or_add m tx.tx_hash tx tx.size c.immunity_cache
    some (record c { immunity_cache = cache }, had, added)

  unfoldable pub get_by_tx_hash :
      Bytes → CrossTxCache T F C → Option (Option (WrappedTransaction T))
  get_by_tx_hash tx_hash c = Immunity.get tx_hash c.immunity_cache

  unfoldable pub get : Bytes → CrossTxCache T F C → Option (Option T)
  get key c = do
    wrapped ← get_by_tx_hash key c
    some (elim wrapped [ none ↦ none | some w ↦ some w.tx ])

  unfoldable pub remove_tx_by_hash :
      Maxima → Bytes → CrossTxCache T F C → Option (CrossTxCache T F C × Bool)
  remove_tx_by_hash m tx_hash c = do
    (cache, removed) ← Immunity.remove_with_result m tx_hash c.immunity_cache
    some (record c { immunity_cache = cache }, removed)
