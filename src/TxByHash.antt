-- ===== src/TxByHash.antt =====
-- txcache/txByHashMap.go: the transactions by hash, with their number and their bytes. The counters
-- are parameters (Core). An operation is `none` where the map below panics.
pub mod Counted
pub mod Found
use drt_go_chain_storage.Base.{
  ℕ, zero, suc, Bool, true, false, Option, none, some, List, [], ◌∷◌, if◌then◌else◌, ◌>>=◌,
}
use drt_go_chain_storage.Base.Bytes.{Bytes}
use drt_go_chain_storage.Core.{Counter}
use drt_go_chain_storage.ConcurrentMap
use drt_go_chain_storage.ConcurrentMap.{ConcurrentMap}
use drt_go_chain_storage.Wrapped.{WrappedTransaction}

pub record TxByHashMap (T C : Type 0) : Type 0 where
  pub backing_map : ConcurrentMap (WrappedTransaction T)
  pub counter : C
  pub num_bytes : C

module _ {T C : Type 0} ⦃n : Counter C⦄ where
  unfoldable pub new_tx_by_hash_map : ℕ → TxByHashMap T C
  new_tx_by_hash_map n_chunks_hint = record {
    backing_map = ConcurrentMap.new_concurrent_map n_chunks_hint;
    counter = n.zero_value;
    num_bytes = n.zero_value;
  }

  unfoldable pub add_tx : WrappedTransaction T → TxByHashMap T C → Option (TxByHashMap T C × Bool)
  add_tx tx m = do
    (backing, added) ← ConcurrentMap.set_if_absent tx.tx_hash (some tx) m.backing_map
    let m' = record m { backing_map = backing }
    some (
      (if added
          then record m' {
            counter = n.increment m'.counter;
            num_bytes = n.add tx.size m'.num_bytes;
          }
          else m'),
      added,
    )

  -- the map, and the transaction removed
  unfoldable pub remove_tx :
      Bytes → TxByHashMap T C → Option (TxByHashMap T C × Option (WrappedTransaction T))
  remove_tx tx_hash m = do
    (backing, item, _) ← ConcurrentMap.remove tx_hash m.backing_map
    let m' = record m { backing_map = backing }
    some (elim item [
      | none ↦ (m', none)
      | some tx ↦ (
        record m' { counter = n.decrement m'.counter; num_bytes = n.subtract tx.size m'.num_bytes },
        some tx,
      )
    ])

  unfoldable pub get_tx : Bytes → TxByHashMap T C → Option (Option (WrappedTransaction T))
  get_tx tx_hash m = do (item, _) ← ConcurrentMap.get tx_hash m.backing_map; some item

  unfoldable pub remove_txs_bulk : List Bytes → ℕ → TxByHashMap T C → Option (TxByHashMap T C × ℕ)
  remove_txs_bulk [] num_removed m = some (m, num_removed)
  remove_txs_bulk (tx_hash ∷ rest) num_removed m = do
    (m', removed) ← remove_tx tx_hash m
    remove_txs_bulk rest (elim removed [ none ↦ num_removed | some _ ↦ suc num_removed ]) m'

  unfoldable pub clear : TxByHashMap T C → TxByHashMap T C
  clear m = record m {
    backing_map = ConcurrentMap.clear m.backing_map;
    counter = n.set 0 m.counter;
  }

  unfoldable pub keys : TxByHashMap T C → List Bytes
  keys m = ConcurrentMap.keys m.backing_map
