-- ===== src/TxCache.antt =====
-- txcache/txCache.go: the cache of transactions, by hash and by sender, with its construction and
-- its counts. The operations and the eviction are in the child modules. The flag of the eviction and
-- the counters are those of drt-go-chain-core, parameters. The mutexes make an operation one step.
-- An operation is `none` where a map below panics.
pub mod Eviction
pub mod Operations
pub mod Steps
pub mod Created
pub mod Adding
pub mod Removing
pub mod Passes
pub mod Evicting
use drt_go_chain_storage.Base.{
  ℕ, Bool, ◌||◌, Option, none, some, List, [], ◌∷◌, ltb, ltb_int64, if◌then◌else◌, ◌>>=◌,
}
use drt_go_chain_storage.Base.Bytes.{Bytes}
use drt_go_chain_storage.Core.{Counter, Flag, TransactionHandler}
use drt_go_chain_storage.Config.{
  ConfigSourceMe, InvalidField, verify_source, get_sender_constraints,
}
use drt_go_chain_storage.SenderList.{TxListForSender}
use drt_go_chain_storage.TxByHash
use drt_go_chain_storage.TxByHash.{TxByHashMap}
use drt_go_chain_storage.TxBySender
use drt_go_chain_storage.TxBySender.{TxListBySenderMap}
use drt_go_chain_storage.Wrapped.{WrappedTransaction, MempoolHost}

pub record TxCache (T F C : Type 0) : Type 0 where
  pub name : Bytes
  pub tx_list_by_sender : TxListBySenderMap T C
  pub tx_by_hash : TxByHashMap T C
  pub config : ConfigSourceMe
  pub host : MempoolHost T
  pub is_eviction_in_progress : F

-- what NewTxCache returns
pub data NewTxCache (T F C : Type 0) : Type 0 where
  created : TxCache T F C → NewTxCache T F C
  invalid_config : InvalidField → NewTxCache T F C
  nil_mempool_host : NewTxCache T F C

module _ {T : Type 0} ⦃h : TransactionHandler T⦄ {F C : Type 0} ⦃f : Flag F⦄ ⦃n : Counter C⦄ where
  -- the host is `none` for nil
  unfoldable pub new_tx_cache : ConfigSourceMe → Option (MempoolHost T) → NewTxCache T F C
  new_tx_cache config host = elim (verify_source config) [
    | some field ↦ invalid_config field
    | none ↦ elim host [
      | none ↦ nil_mempool_host
      | some host ↦ created (record {
        name = config.name;
        tx_list_by_sender =
            TxBySender.new_tx_list_by_sender_map config.num_chunks (get_sender_constraints config);
        tx_by_hash = TxByHash.new_tx_by_hash_map config.num_chunks;
        config = config;
        host = host;
        is_eviction_in_progress = f.unset;
      })
    ]
  ]

  unfoldable pub num_bytes : TxCache T F C → ℕ
  num_bytes cache = n.get_uint64 cache.tx_by_hash.num_bytes

  unfoldable pub count_tx : TxCache T F C → ℕ
  count_tx cache = n.get_uint64 cache.tx_by_hash.counter

  unfoldable pub count_senders : TxCache T F C → ℕ
  count_senders cache = n.get_uint64 cache.tx_list_by_sender.counter

  unfoldable pub get_senders : TxCache T F C → List (TxListForSender T C)
  get_senders cache = TxBySender.get_senders cache.tx_list_by_sender
