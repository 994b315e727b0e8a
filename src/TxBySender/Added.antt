-- ===== src/TxBySender/Added.antt =====
-- addTxReturnEvicted of txcache/txListBySenderMap.go against the sorted transactions of each sender.
use drt_go_chain_storage.Base.{
  ◌^◌, ◌<◌, ◌≡◌, refl, sym, ◌∙◌, ap, subst, Bool, true, false, Option, none, some, List, [],
  if◌then◌else◌, Option-cases, Bool-cases, inl, inr, WhenSome, drop_last,
}
use drt_go_chain_storage.Base.Bytes.{Bytes, bytes_beq}
use drt_go_chain_storage.Core.{Counter, CounterLaws, TransactionHandler}
use drt_go_chain_storage.Wrapped.{WrappedTransaction, sender_of}
use drt_go_chain_storage.SenderList
use drt_go_chain_storage.SenderList.{
  TxListForSender, SenderConstraints, is_empty, count_tx, new_tx_list_for_sender,
  remove_transactions_with_lower_or_equal_nonce_return_hashes,
  remove_transactions_with_higher_or_equal_nonce,
}
use drt_go_chain_storage.SenderList.Order.{insert_sorted}
use drt_go_chain_storage.SenderList.Limits.{txs, exceeds, hash_of_last}
use drt_go_chain_storage.SenderList.Adding.{AddOutcome, add_tx-TxAdded}
use drt_go_chain_storage.TxBySender.{TxListBySenderMap, add_tx_return_evicted}
use drt_go_chain_storage.TxBySender.Named.{add_tx_sender}
use drt_go_chain_storage.TxBySender.Lists.{list_of, list_or_new, add_tx_return_evicted-Grown}
use drt_go_chain_storage.TxBySender.Pools.{IsSlot, IsSound, pool, change-IsSound}

module _ {T : Type 0} ⦃h : TransactionHandler T⦄ {C : Type 0} ⦃n : Counter C⦄
    (laws : CounterLaws n) where
  -- the list that AddTx works on is sound, and holds the transactions of the sender
  list_or_new-IsSlot :
      (q : Bytes) (m : TxListBySenderMap T C)
      → IsSound m
      → IsSlot m.sender_constraints q (list_or_new q m) × (txs (list_or_new q m) ≡ pool q m)
  unfolding new_tx_list_for_sender
  list_or_new-IsSlot q m v = elim (Option-cases (list_of q m)) [
    | inr (l, there) ↦
        rw (there, list_or_new)
          (subst (WhenSome (IsSlot m.sender_constraints q)) there (v.slots q), refl)
    | inl absent ↦
        rw (absent, list_or_new)
          (
            record {
              valid = record { ids = tt; sorted = tt; sizes = tt; bytes = laws.get-zero_value };
              named = refl;
              constraints = refl;
            },
            refl,
          )
  ]

  -- what AddTx makes of the transactions of a sender, whether it adds, and what it evicts, by the
  -- result of the ordered insertion
  abbrev pub added_pool :
      SenderConstraints
      → List (WrappedTransaction T)
      → Option (List (WrappedTransaction T))
      → List (WrappedTransaction T) × Bool × List Bytes
  added_pool c before none = (before, false, [])
  added_pool c before (some inserted) =
      if exceeds c inserted
      then (drop_last inserted, true, hash_of_last inserted)
      else (inserted, true, [])

  added-txs :
      (c : SenderConstraints) (q : Bytes) (tx : WrappedTransaction T) (l : TxListForSender T C)
      → IsSlot c q l
      → tx.size < 2 ^ 64
      → (o : Option (List (WrappedTransaction T))) → AddOutcome laws tx l o
      → IsSlot c q (SenderList.add_tx tx l).0
        × (txs (SenderList.add_tx tx l).0 ≡ (added_pool c (txs l) o).0)
        × ((SenderList.add_tx tx l).1 ≡ (added_pool c (txs l) o).1)
        × ((SenderList.add_tx tx l).2 ≡ (added_pool c (txs l) o).2)
  added-txs c q tx l s fine none out = rw out (s, refl, refl, refl)
  added-txs c q tx l s fine (some inserted) (l', evicted, run, r) =
      let name : l'.sender ≡ l.sender = ap (λ x. x.0.sender) (sym run) ∙ add_tx_sender tx l in
      let slot : IsSlot c q l' = record {
        valid = r.valid;
        named = name ∙ s.named;
        constraints = r.constraints ∙ s.constraints;
      } in
      let left =
        subst (λ k. txs l' ≡ (if exceeds k inserted then drop_last inserted else inserted))
          s.constraints r.left in
      let gone =
        subst (λ k. evicted ≡ (if exceeds k inserted then hash_of_last inserted else []))
          s.constraints r.gone in
      rw run (elim (Bool-cases (exceeds c inserted)) [
        | inl over ↦ rw over (slot, left ∙ rw over refl, refl, gone ∙ rw over refl)
        | inr fine ↦ rw fine (slot, left ∙ rw fine refl, refl, gone ∙ rw fine refl)
      ])

  -- addTxReturnEvicted inserts into the transactions of the sender and changes no others
  pub add_tx_return_evicted-pool :
      (tx : WrappedTransaction T) (m : TxListBySenderMap T C)
      → IsSound m
      → tx.size < 2 ^ 64
      → (m' : TxListBySenderMap T C) × (r : List (WrappedTransaction T) × Bool × List Bytes) × (r
          ≡ added_pool m.sender_constraints
              (pool (sender_of tx) m)
              (insert_sorted tx (pool (sender_of tx) m)))
        × (add_tx_return_evicted tx m ≡ some (m', r.1, r.2))
        × IsSound m'
        × (m'.sender_constraints ≡ m.sender_constraints)
        × ((q : Bytes) → pool q m' ≡ (if bytes_beq (sender_of tx) q then r.0 else pool q m))
  add_tx_return_evicted-pool tx m v fine =
      let sender = sender_of tx in
      let l = list_or_new sender m in
      let (m', run, g) = add_tx_return_evicted-Grown laws tx m v.map_valid in
      let (slot, same) = list_or_new-IsSlot sender m v in
      let (slot', left, flag, gone) =
        added-txs m.sender_constraints sender tx l slot fine (insert_sorted tx (txs l))
          (add_tx-TxAdded laws tx l slot.valid fine) in
      let r = added_pool m.sender_constraints (txs l) (insert_sorted tx (txs l)) in
      let c =
        change-IsSound laws sender (some (SenderList.add_tx tx l).0) m m' v g.valid g.constraints
          g.lists slot' in
      (
        m',
        r,
        ap (λ b. added_pool m.sender_constraints b (insert_sorted tx b)) same,
        run
            ∙ ap (λ b. some (m', b, (SenderList.add_tx tx l).2)) flag
            ∙ ap (λ e. some (m', r.1, e)) gone,
        c.0,
        g.constraints,
        λ q. c.1 q ∙ rw left refl,
      )
