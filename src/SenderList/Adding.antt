-- ===== src/SenderList/Adding.antt =====
-- AddTx of txcache/txListForSender.go: the ordered insertion and the size constraints behind it.
use drt_go_chain_storage.Base.{
  ℕ, ◌^◌, ◌≤◌, ◌<◌, ◌≡◌, refl, ◌∙◌, subst, Option, none, some, List, [], ◌∷◌, if◌then◌else◌, arith,
  true, false, length, drop_last, last?, last?-eq-none, length-drop_last, Option-cases, inl, inr,
  WhenSome,
}
use drt_go_chain_storage.Base.Bytes.{Bytes}
use drt_go_chain_storage.Base.Linked.{values, DistinctIds}
use drt_go_chain_storage.Core.{Counter, CounterLaws, TransactionHandler}
use drt_go_chain_storage.Wrapped.{WrappedTransaction}
use drt_go_chain_storage.SenderList.{
  TxListForSender, Insertion, place, item_already_in_cache, find_insertion_place, insert_at,
  is_capacity_exceeded, on_added_transaction, add_tx,
}
use drt_go_chain_storage.SenderList.Order.{IsSorted, insert_sorted, insert_sorted-IsSorted}
use drt_go_chain_storage.SenderList.Insert.{Placed, find_insertion_place-Placed}
use drt_go_chain_storage.SenderList.Limits.{
  txs, exceeds, hash_of_last, insert_sorted-total, IsValid, is_capacity_exceeded-exceeds,
  apply_size_constraints_once,
}

module _ {T : Type 0} ⦃h : TransactionHandler T⦄ {C : Type 0} ⦃n : Counter C⦄
    (laws : CounterLaws n) where
  -- What AddTx does with a transaction that is not in the list: the ordered insertion `l'`, less
  -- its last transaction if `l'` breaks a constraint.
  pub record TxAdded (l : TxListForSender T C) (inserted : List (WrappedTransaction T))
      (l' : TxListForSender T C) (evicted : List Bytes) : Type 0 where
    pub valid : IsValid l'
    pub constraints : l'.constraints ≡ l.constraints
    pub left : txs l' ≡ (if exceeds l.constraints inserted then drop_last inserted else inserted)
    pub gone : evicted ≡ (if exceeds l.constraints inserted then hash_of_last inserted else [])

  insertion-IsValid :
      (tx : WrappedTransaction T) (p : Option ℕ) (l : TxListForSender T C)
      (inserted : List (WrappedTransaction T))
      → IsValid l
      → tx.size < 2 ^ 64
      → insert_sorted tx (txs l) ≡ some inserted
      → DistinctIds (insert_at tx p l.items).next (insert_at tx p l.items).elems
      → values (insert_at tx p l.items).elems ≡ inserted
      → IsValid (on_added_transaction tx (record l { items = insert_at tx p l.items }))
  unfolding on_added_transaction
  insertion-IsValid tx p l inserted v fine run ids same =
      let sum = subst (WhenSome _) run (insert_sorted-total tx (txs l) fine v.sizes) in
      record {
        ids = ids;
        sorted =
            rw same (subst (WhenSome IsSorted) run (insert_sorted-IsSorted tx (txs l) v.sorted));
        sizes = rw same sum.1;
        bytes = rw same (omega (arith, laws.get-add tx.size l.total_bytes, v.bytes, sum.0));
      }

  -- what AddTx does, by the result of the ordered insertion
  abbrev pub AddOutcome :
      WrappedTransaction T → TxListForSender T C → Option (List (WrappedTransaction T)) → Type 0
  AddOutcome tx l none = add_tx tx l ≡ (l, false, [])
  AddOutcome tx l (some inserted) =
      (l' : TxListForSender T C) × (evicted : List Bytes) × (add_tx tx l ≡ (l', true, evicted))
      × TxAdded l inserted l' evicted

  add_tx-Placed :
      (tx : WrappedTransaction T) (l : TxListForSender T C) (p : Option ℕ)
      → IsValid l
      → tx.size < 2 ^ 64
      → find_insertion_place tx l.items.elems ≡ place p
      → Placed tx l.items (place p)
      → AddOutcome tx l (some (values (insert_at tx p l.items).elems))
  unfolding add_tx on_added_transaction
  add_tx-Placed tx l p v fine e placed =
      let inserted = values (insert_at tx p l.items).elems in
      let l1 = on_added_transaction tx (record l { items = insert_at tx p l.items }) in
      let valid = insertion-IsValid tx p l inserted v fine placed.0 placed.1 refl in
      let sum = subst (WhenSome _) placed.0 (insert_sorted-total tx (txs l) fine v.sizes) in
      elim (Option-cases (last? inserted)) [
        | inl empty ↦ absurd (omega (arith, last?-eq-none inserted empty, sum.2))
        | inr (x, last) ↦
            let (l', valid', kept, run, left) = apply_size_constraints_once laws l1 x valid last in
            let added : add_tx tx l
                ≡ (l', true, (if exceeds l.constraints inserted then x.tx_hash ∷ [] else [])) =
              ground (arith, e, run) in
            (
              l',
              (if exceeds l.constraints inserted then x.tx_hash ∷ [] else []),
              added,
              record {
                valid = valid';
                constraints = kept;
                left = left;
                gone = rw (last, hash_of_last) refl;
              },
            )
      ]

  -- AddTx on a valid list inserts in order and evicts the last transaction at most; of a
  -- transaction with the nonce, gas price and hash of another it changes nothing. The size of the
  -- transaction is below 2 ^ 64.
  pub add_tx-TxAdded :
      (tx : WrappedTransaction T) (l : TxListForSender T C)
      → IsValid l
      → tx.size < 2 ^ 64
      → AddOutcome tx l (insert_sorted tx (txs l))
  unfolding add_tx
  add_tx-TxAdded tx l v fine =
      go (find_insertion_place tx l.items.elems) refl
        (find_insertion_place-Placed tx l.items v.ids v.sorted)
    where
      go :
          (i : Insertion)
          → find_insertion_place tx l.items.elems ≡ i
          → Placed tx l.items i
          → AddOutcome tx l (insert_sorted tx (txs l))
      go item_already_in_cache e p =
          let same : add_tx tx l ≡ (l, false, []) = rw (e, add_tx) refl in rw p same
      go (place p) e placed = rw placed.0 (add_tx-Placed tx l p v fine e placed)

  -- AddTx never leaves more transactions than the constraints allow, if there were no more
  -- before. The list is valid and the size of the transaction below 2 ^ 64.
  pub add_tx_count :
      (tx : WrappedTransaction T) (l : TxListForSender T C)
      → IsValid l
      → tx.size < 2 ^ 64
      → length (txs l) ≤ l.constraints.max_num_txs
      → length (txs (add_tx tx l).0) ≤ l.constraints.max_num_txs
  add_tx_count tx l v fine few = go (insert_sorted tx (txs l)) refl (add_tx-TxAdded tx l v fine)
    where
      go :
          (o : Option (List (WrappedTransaction T)))
          → insert_sorted tx (txs l) ≡ o
          → AddOutcome tx l o
          → length (txs (add_tx tx l).0) ≤ l.constraints.max_num_txs
      go none e same = rw same few
      go (some inserted) e (l', evicted, run, r) =
          let sum = subst (WhenSome _) e (insert_sorted-total tx (txs l) fine v.sizes) in
          rw run (ground (arith, r.left, sum.2, length-drop_last inserted))

  still-exceeds :
      (l : TxListForSender T C) (inserted : List (WrappedTransaction T)) (l' : TxListForSender T C)
      (evicted : List Bytes)
      → TxAdded l inserted l' evicted
      → exceeds l.constraints inserted ≡ true
      → exceeds l.constraints (drop_last inserted) ≡ true
      → exceeds l'.constraints (txs l') ≡ true
  still-exceeds l inserted l' evicted r over still =
      let left : txs l' ≡ drop_last inserted = ground (arith, r.left, over) in
      rw (r.constraints, left) still

  -- One removal is all that AddTx does: when the transactions in front of the last one are
  -- still too many bytes, the list stays over its constraints. The list is valid and the size of
  -- the transaction below 2 ^ 64.
  pub add_tx_still_exceeds :
      (tx : WrappedTransaction T) (l : TxListForSender T C) (inserted : List (WrappedTransaction T))
      → IsValid l
      → tx.size < 2 ^ 64
      → insert_sorted tx (txs l) ≡ some inserted
      → exceeds l.constraints inserted ≡ true
      → exceeds l.constraints (drop_last inserted) ≡ true
      → is_capacity_exceeded (add_tx tx l).0 ≡ true
  add_tx_still_exceeds tx l inserted v fine e over still =
      let (l', evicted, run, r) = subst (AddOutcome tx l) e (add_tx-TxAdded tx l v fine) in
      rw run (
        is_capacity_exceeded-exceeds laws l' r.valid
        ∙ still-exceeds l inserted l' evicted r over still)
