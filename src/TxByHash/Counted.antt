-- ===== src/TxByHash/Counted.antt =====
-- addTx, removeTx and clear of txcache/txByHashMap.go, with the counters.
use drt_go_chain_storage.Base.{suc, ◌+◌, ◌^◌, ◌<◌, ◌≡◌, refl, ◌∙◌, true, none, some, arith}
use drt_go_chain_storage.Base.Bytes.{Bytes, bytes_eq, bytes_beq_iff}
use drt_go_chain_storage.Core.{Counter, CounterLaws}
use drt_go_chain_storage.ConcurrentMap
use drt_go_chain_storage.ConcurrentMap.{ConcurrentMap}
use drt_go_chain_storage.ConcurrentMap.Laws
use drt_go_chain_storage.ConcurrentMap.Laws.{
  view, set_if_absent-view, remove-view, get-view, clear-IsValid,
}
use drt_go_chain_storage.Wrapped.{WrappedTransaction}
use drt_go_chain_storage.TxByHash.{TxByHashMap, add_tx, remove_tx, get_tx, clear}

module _ {T C : Type 0} ⦃n : Counter C⦄ (laws : CounterLaws n) where
  -- Adding a transaction whose hash is new and removing it again gives the transaction back and
  -- leaves the map and both counters as they were; in between the transaction is found by its hash,
  -- the number is one more and the bytes are more by its size. The counters do not overflow.
  pub add_tx-remove_tx :
      (tx : WrappedTransaction T) (m : TxByHashMap T C)
      → Laws.IsValid m.backing_map
      → view m.backing_map tx.tx_hash ≡ none
      → n.get m.counter < 2 ^ 63
      → n.get m.num_bytes < 2 ^ 63
      → tx.size < 2 ^ 63
      → (a : TxByHashMap T C) × (b : TxByHashMap T C) × (add_tx tx m ≡ some (a, true))
        × (get_tx tx.tx_hash a ≡ some (some tx))
        × (remove_tx tx.tx_hash a ≡ some (b, some tx))
        × ((q : Bytes) → view b.backing_map q ≡ view m.backing_map q)
        × (n.get a.counter ≡ suc (n.get m.counter))
        × (n.get a.num_bytes ≡ n.get m.num_bytes + tx.size)
        × (n.get b.counter ≡ n.get m.counter)
        × (n.get b.num_bytes ≡ n.get m.num_bytes)
  unfolding add_tx remove_tx get_tx
  add_tx-remove_tx tx m v absent few light small =
      let h = tx.tx_hash in
      let (backing, put, valid, views, _) = set_if_absent-view h (some tx) m.backing_map v in
      let there : view backing h ≡ some (some tx) =
        views h ∙ rw absent (ground (arith, bytes_beq_iff h h)) in
      let (left, item, same, gone, valid', views', _) = remove-view h backing valid in
      let found : item ≡ some tx = same ∙ rw there refl in
      let a : TxByHashMap T C = record {
        backing_map = backing;
        counter = n.increment m.counter;
        num_bytes = n.add tx.size m.num_bytes;
      } in
      let b : TxByHashMap T C = record {
        backing_map = left;
        counter = n.decrement a.counter;
        num_bytes = n.subtract tx.size a.num_bytes;
      } in
      let more = laws.get-increment m.counter in
      let heavier = laws.get-add tx.size m.num_bytes in
      (
        a,
        b,
        rw (put, absent) refl,
        rw ((get-view h backing valid).0, there) refl,
        rw (gone, found) refl,
        (λ q. views' q ∙ ground (arith, views q, absent, bytes_beq_iff h q)),
        omega (arith, more, few),
        omega (arith, heavier, light, small),
        omega (arith, more, few, laws.get-decrement a.counter),
        omega (arith, heavier, light, small, laws.get-subtract tx.size a.num_bytes),
      )

  -- After clear no transaction is found and the number of transactions is zero, but the number of
  -- bytes is what it was before.
  pub clear-num_bytes :
      (m : TxByHashMap T C)
      → Laws.IsValid m.backing_map
      → ((q : Bytes) → get_tx q (clear m) ≡ some none)
        × (n.get (clear m).counter ≡ 0)
        × (n.get (clear m).num_bytes ≡ n.get m.num_bytes)
  unfolding clear get_tx
  clear-num_bytes m v =
      let (valid, empty) = clear-IsValid m.backing_map v in
      (
        (λ q. rw ((get-view q (ConcurrentMap.clear m.backing_map) valid).0, empty q) refl),
        laws.get-set 0 m.counter,
        refl,
      )
