-- ===== src/TxBySender/Pools.antt =====
-- The operations of txcache/txListBySenderMap.go against the abstract view of the cache: the sorted
-- transactions of each sender.
use drt_go_chain_storage.Base.{
  ℕ, ◌≡◌, refl, sym, ◌∙◌, ap, subst, Option, none, some, List, [], ◌∷◌, map, if◌then◌else◌, arith,
  Bool-cases, inl, inr, WhenSome, length, length-map,
}
use drt_go_chain_storage.Base.Bytes.{Bytes, bytes_beq, bytes_beq_iff}
use drt_go_chain_storage.Core.{Counter, CounterLaws, TransactionHandler}
use drt_go_chain_storage.ConcurrentMap.Laws
use drt_go_chain_storage.Wrapped.{WrappedTransaction, sender_of, nonce}
use drt_go_chain_storage.SenderList.{
  TxListForSender, SenderConstraints, is_empty, count_tx,
  remove_transactions_with_lower_or_equal_nonce_return_hashes,
  remove_transactions_with_higher_or_equal_nonce,
}
use drt_go_chain_storage.SenderList.Limits.{IsValid, txs}
use drt_go_chain_storage.SenderList.Removal.{
  above, up_to, below, remove_lower-above, remove_higher-below,
}
use drt_go_chain_storage.TxBySender.{
  TxListBySenderMap, remove_lower_or_equal_nonce, remove_higher_or_equal_nonce,
}
use drt_go_chain_storage.TxBySender.Named.{remove_lower_sender, remove_higher_sender}
use drt_go_chain_storage.TxBySender.Lists.{list_of}
use drt_go_chain_storage.TxBySender.Trimmed.{
  kept_list, IsNamed, lowered, raised, remove_lower_or_equal_nonce-Trimmed,
  remove_higher_or_equal_nonce-Trimmed,
}

module _ {T : Type 0} ⦃h : TransactionHandler T⦄ {C : Type 0} ⦃n : Counter C⦄ where
  -- a valid list of a sender under the constraints, or none
  pub record IsSlot (c : SenderConstraints) (q : Bytes) (l : TxListForSender T C) : Type 0 where
    pub valid : IsValid l
    pub named : l.sender ≡ q
    pub constraints : l.constraints ≡ c

  abbrev pub txs_in : Option (TxListForSender T C) → List (WrappedTransaction T)
  txs_in none = []
  txs_in (some l) = txs l

  -- the abstract view: the transactions of a sender
  abbrev pub pool : Bytes → TxListBySenderMap T C → List (WrappedTransaction T)
  pool q m = txs_in (list_of q m)

  -- the map below is valid, and so is each list, under its sender and the constraints of the map
  pub record IsSound (m : TxListBySenderMap T C) : Type 0 where
    pub map_valid : Laws.IsValid m.backing_map
    pub slots : (q : Bytes) → WhenSome (IsSlot m.sender_constraints q) (list_of q m)

  IsSound-IsNamed : (m : TxListBySenderMap T C) → IsSound m → IsNamed m
  IsSound-IsNamed m v q = go (list_of q m) (v.slots q)
    where
      go :
          (o : Option (TxListForSender T C))
          → WhenSome (IsSlot m.sender_constraints q) o
          → WhenSome (λ l. l.sender ≡ q) o
      go none s = tt
      go (some l) s = s.named

  -- an empty list has no transactions
  kept_list-txs :
      (c : SenderConstraints) (q : Bytes) (l : TxListForSender T C)
      → IsSlot c q l
      → WhenSome (IsSlot c q) (kept_list l) × (txs_in (kept_list l) ≡ txs l)
  unfolding is_empty count_tx
  kept_list-txs c q l s = elim (Bool-cases (is_empty l)) [
    | inr busy ↦ rw (busy, kept_list) (s, refl)
    | inl empty ↦
        rw (empty, kept_list)
          (tt, sym (no_entries (txs l) (length-map (λ x. x.1) l.items.elems ∙ ground arith)))
  ]
    where
      no_entries : (a : List (WrappedTransaction T)) → length a ≡ 0 → a ≡ []
      no_entries [] e = refl
      no_entries (x ∷ a) e = absurd (omega (arith, e))

  module _ (laws : CounterLaws n) where
    lowered-txs :
        (c : SenderConstraints) (q : Bytes) (target : ℕ) (o : Option (TxListForSender T C))
        → WhenSome (IsSlot c q) o
        → WhenSome (IsSlot c q) (lowered target o).0
          × (txs_in (lowered target o).0 ≡ above target (txs_in o))
          × ((lowered target o).1 ≡ map (λ x. x.tx_hash) (up_to target (txs_in o)))
    unfolding above up_to
    lowered-txs c q target none s = (tt, refl, refl)
    lowered-txs c q target (some l) s =
        let r = remove_lower-above laws target l s.valid in
        let kept =
          kept_list-txs c q (remove_transactions_with_lower_or_equal_nonce_return_hashes target l).0
            (record {
              valid = r.valid;
              named = remove_lower_sender target l ∙ s.named;
              constraints = r.constraints ∙ s.constraints;
            }) in
        (kept.0, kept.1 ∙ r.left, r.gone)

    raised-txs :
        (c : SenderConstraints) (q : Bytes) (given : ℕ) (o : Option (TxListForSender T C))
        → WhenSome (IsSlot c q) o
        → WhenSome (IsSlot c q) (raised given o)
          × (txs_in (raised given o) ≡ below given (txs_in o))
    unfolding below
    raised-txs c q given none s = (tt, refl)
    raised-txs c q given (some l) s =
        let r = remove_higher-below laws given l s.valid in
        let kept =
          kept_list-txs c q (remove_transactions_with_higher_or_equal_nonce given l) (record {
            valid = r.valid;
            named = remove_higher_sender given l ∙ s.named;
            constraints = r.constraints ∙ s.constraints;
          }) in
        (kept.0, kept.1 ∙ r.left)

    -- a changed list under its sender, the others as before
    pub change-IsSound :
        (sender : Bytes) (o : Option (TxListForSender T C)) (m m' : TxListBySenderMap T C)
        → IsSound m
        → Laws.IsValid m'.backing_map
        → m'.sender_constraints ≡ m.sender_constraints
        → ((q : Bytes) → list_of q m' ≡ (if bytes_beq sender q then o else list_of q m))
        → WhenSome (IsSlot m.sender_constraints sender) o
        → IsSound m'
          × ((q : Bytes) → pool q m' ≡ (if bytes_beq sender q then txs_in o else pool q m))
    change-IsSound sender o m m' v valid same lists slot = (
      record {
        map_valid = valid;
        slots = λ q. rw same (elim (Bool-cases (bytes_beq sender q)) [
          | inl here ↦
              let at = (bytes_beq_iff sender q).0 here in
              rw (lists q)
                (rw here (subst (λ k. WhenSome (IsSlot m.sender_constraints k) o) at slot))
          | inr other ↦ rw (lists q) (rw other (v.slots q))
        ]);
      },
      λ q. elim (Bool-cases (bytes_beq sender q)) [
        | inl here ↦ rw (lists q) (rw here refl)
        | inr other ↦ rw (lists q) (rw other refl)
      ],
    )

    -- the removal of the transactions of the sender up to the nonce
    pub remove_lower_or_equal_nonce-pool :
        (tx : WrappedTransaction T) (m : TxListBySenderMap T C)
        → IsSound m
        → (m' : TxListBySenderMap T C) × (remove_lower_or_equal_nonce tx m
            ≡ some (m', map (λ x. x.tx_hash) (up_to (nonce tx) (pool (sender_of tx) m))))
          × IsSound m'
          × ((q : Bytes)
              → pool q m' ≡ (
                  if bytes_beq (sender_of tx) q
                  then above (nonce tx) (pool (sender_of tx) m)
                  else pool q m))
    remove_lower_or_equal_nonce-pool tx m v =
        let sender = sender_of tx in
        let (m', run, t) =
          remove_lower_or_equal_nonce-Trimmed tx m v.map_valid (IsSound-IsNamed m v) in
        let (slot, left, gone) =
          lowered-txs m.sender_constraints sender (nonce tx) (list_of sender m) (v.slots sender) in
        let r =
          change-IsSound sender (lowered (nonce tx) (list_of sender m)).0 m m' v t.valid
            t.constraints t.lists slot in
        (m', run ∙ ap (λ e. some (m', e)) gone, r.0, λ q. r.1 q ∙ rw left refl)

    -- the removal of the transactions of the sender from the nonce on
    pub remove_higher_or_equal_nonce-pool :
        (sender : Bytes) (given : ℕ) (m : TxListBySenderMap T C)
        → IsSound m
        → (m' : TxListBySenderMap T C) × (remove_higher_or_equal_nonce sender given m ≡ some m')
          × IsSound m'
          × ((q : Bytes)
              → pool q m' ≡ (if bytes_beq sender q then below given (pool sender m) else pool q m))
    remove_higher_or_equal_nonce-pool sender given m v =
        let (m', run, t) =
          remove_higher_or_equal_nonce-Trimmed sender given m v.map_valid (IsSound-IsNamed m v) in
        let (slot, left) =
          raised-txs m.sender_constraints sender given (list_of sender m) (v.slots sender) in
        let r =
          change-IsSound sender (raised given (list_of sender m)) m m' v t.valid t.constraints
            t.lists slot in
        (m', run, r.0, λ q. r.1 q ∙ rw left refl)
