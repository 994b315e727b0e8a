-- ===== src/TxBySender.antt =====
-- txcache/txListBySenderMap.go: the lists of the senders, with their number. The map holds a pointer
-- to a list, so a change of the list is written back under its sender; no nil is ever stored. Of the
-- double-checked lock only the check under the lock is left, since an operation is one step. An
-- operation is `none` where the map below panics.
pub mod Lists
pub mod Named
pub mod Trimmed
pub mod Pools
pub mod Added
use drt_go_chain_storage.Base.{
  ℕ, suc, Bool, true, false, Option, none, some, List, [], ◌∷◌, ◌++◌, if◌then◌else◌, ◌>>=◌,
}
use drt_go_chain_storage.Base.Bytes.{Bytes}
use drt_go_chain_storage.Core.{Counter, TransactionHandler}
use drt_go_chain_storage.ConcurrentMap
use drt_go_chain_storage.ConcurrentMap.{ConcurrentMap}
use drt_go_chain_storage.Wrapped.{WrappedTransaction, nonce, sender_of}
use drt_go_chain_storage.SenderList
use drt_go_chain_storage.SenderList.{TxListForSender, SenderConstraints}

pub record TxListBySenderMap (T C : Type 0) : Type 0 where
  pub backing_map : ConcurrentMap (TxListForSender T C)
  pub sender_constraints : SenderConstraints
  pub counter : C

module _ {T : Type 0} ⦃h : TransactionHandler T⦄ {C : Type 0} ⦃n : Counter C⦄ where
  unfoldable pub new_tx_list_by_sender_map : ℕ → SenderConstraints → TxListBySenderMap T C
  new_tx_list_by_sender_map n_chunks_hint sender_constraints = record {
    backing_map = ConcurrentMap.new_concurrent_map n_chunks_hint;
    sender_constraints = sender_constraints;
    counter = n.zero_value;
  }

  unfoldable pub get_list_for_sender :
      Bytes → TxListBySenderMap T C → Option (Option (TxListForSender T C))
  get_list_for_sender sender m = do (item, _) ← ConcurrentMap.get sender m.backing_map; some item

  -- the list of a sender after a change
  unfoldable pub write_list :
      Bytes → TxListForSender T C → TxListBySenderMap T C → Option (TxListBySenderMap T C)
  write_list sender l m = do
    backing ← ConcurrentMap.set_value sender (some l) m.backing_map
    some (record m { backing_map = backing })

  unfoldable pub add_sender :
      Bytes → TxListBySenderMap T C → Option (TxListBySenderMap T C × TxListForSender T C)
  add_sender sender m = do
    let l = SenderList.new_tx_list_for_sender sender m.sender_constraints
    m' ← write_list sender l m
    some (record m' { counter = n.increment m'.counter }, l)

  unfoldable pub get_or_add_list_for_sender :
      Bytes → TxListBySenderMap T C → Option (TxListBySenderMap T C × TxListForSender T C)
  get_or_add_list_for_sender sender m = do
    found ← get_list_for_sender sender m
    elim found [ some l ↦ some (m, l) | none ↦ add_sender sender m ]

  -- the map, whether the transaction was added, and the evicted hashes
  unfoldable pub add_tx_return_evicted :
      WrappedTransaction T
      → TxListBySenderMap T C
      → Option (TxListBySenderMap T C × Bool × List Bytes)
  add_tx_return_evicted tx m = do
    (m', l) ← get_or_add_list_for_sender (sender_of tx) m
    let r = SenderList.add_tx tx l
    m'' ← write_list (sender_of tx) r.0 m'
    some (m'', r.1, r.2)

  unfoldable pub remove_sender :
      Bytes → TxListBySenderMap T C → Option (TxListBySenderMap T C × Bool)
  remove_sender sender m = do
    (backing, _, removed) ← ConcurrentMap.remove sender m.backing_map
    let m' = record m { backing_map = backing }
    some ((if removed then record m' { counter = n.decrement m'.counter } else m'), removed)

  unfoldable pub remove_sender_if_empty :
      TxListForSender T C → TxListBySenderMap T C → Option (TxListBySenderMap T C)
  remove_sender_if_empty l m =
      let removed : Option (TxListBySenderMap T C) = (do
        (m', _) ← remove_sender l.sender m
        some m') in
      if SenderList.is_empty l then removed else some m

  unfoldable pub remove_lower_or_equal_nonce :
      WrappedTransaction T → TxListBySenderMap T C → Option (TxListBySenderMap T C × List Bytes)
  remove_lower_or_equal_nonce tx m = do
    found ← get_list_for_sender (sender_of tx) m
    elim found [
      | none ↦ some (m, [])
      | some l ↦ do
        let r = SenderList.remove_transactions_with_lower_or_equal_nonce_return_hashes (nonce tx) l
        m' ← write_list (sender_of tx) r.0 m
        m'' ← remove_sender_if_empty r.0 m'
        some (m'', r.1)
    ]

  unfoldable pub remove_senders_bulk :
      List Bytes → ℕ → TxListBySenderMap T C → Option (TxListBySenderMap T C × ℕ)
  remove_senders_bulk [] num_removed m = some (m, num_removed)
  remove_senders_bulk (sender ∷ rest) num_removed m = do
    (m', removed) ← remove_sender sender m
    remove_senders_bulk rest (if removed then suc num_removed else num_removed) m'

  unfoldable pub remove_higher_or_equal_nonce :
      Bytes → ℕ → TxListBySenderMap T C → Option (TxListBySenderMap T C)
  remove_higher_or_equal_nonce account_key given m = do
    found ← get_list_for_sender account_key m
    elim found [
      | none ↦ some m
      | some l ↦ do
        let l' = SenderList.remove_transactions_with_higher_or_equal_nonce given l
        m' ← write_list account_key l' m
        remove_sender_if_empty l' m'
    ]

  unfoldable pub collect_sender :
      Bytes → Option (TxListForSender T C) → List (TxListForSender T C) → List (TxListForSender T C)
  collect_sender key none senders = senders
  collect_sender key (some l) senders = senders ++ l ∷ []

  unfoldable pub get_senders : TxListBySenderMap T C → List (TxListForSender T C)
  get_senders m =
      ConcurrentMap.iter_cb collect_sender (ConcurrentMap.all_items m.backing_map.chunks) []

  unfoldable pub clear : TxListBySenderMap T C → TxListBySenderMap T C
  clear m = record m {
    backing_map = ConcurrentMap.clear m.backing_map;
    counter = n.set 0 m.counter;
  }
