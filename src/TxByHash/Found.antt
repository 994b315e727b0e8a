-- ===== src/TxByHash/Found.antt =====
-- The operations of txcache/txByHashMap.go against one abstract map from a hash to a transaction.
use drt_go_chain_storage.Base.{
  ℕ, suc, ◌≡◌, refl, sym, ◌∙◌, ap, Bool, true, false, ◌||◌, not, Option, none, some, List, [], ◌∷◌,
  if◌then◌else◌, is_some, arith, Option-cases, Bool-cases, inl, inr,
}
use drt_go_chain_storage.Base.Bytes.{Bytes, bytes_beq}
use drt_go_chain_storage.Core.{Counter}
use drt_go_chain_storage.ConcurrentMap.Laws
use drt_go_chain_storage.ConcurrentMap.Laws.{view, set_if_absent-view, remove-view, get-view}
use drt_go_chain_storage.Wrapped.{WrappedTransaction}
use drt_go_chain_storage.TxByHash.{TxByHashMap, add_tx, remove_tx, get_tx, remove_txs_bulk}

-- whether a hash stands in a list
abbrev pub among : Bytes → List Bytes → Bool
among q [] = false
among q (x ∷ l) = bytes_beq x q || among q l

module _ {T C : Type 0} ⦃n : Counter C⦄ where
  -- the abstract map: the transaction of a hash
  abbrev pub tx_at : Bytes → TxByHashMap T C → Option (WrappedTransaction T)
  tx_at q m = elim (view m.backing_map q) [ none ↦ none | some item ↦ item ]

  -- the map below is valid and holds no nil
  pub record IsValid (m : TxByHashMap T C) : Type 0 where
    pub map_valid : Laws.IsValid m.backing_map
    pub no_nil : (q : Bytes) → is_some (view m.backing_map q) ≡ is_some (tx_at q m)

  pub get_tx-tx_at :
      (q : Bytes) (m : TxByHashMap T C) → Laws.IsValid m.backing_map → get_tx q m ≡ some (tx_at q m)
  unfolding get_tx
  get_tx-tx_at q m v = elim (Option-cases (view m.backing_map q)) [
    | inl absent ↦ rw ((get-view q m.backing_map v).0, absent, tx_at) refl
    | inr (item, there) ↦ rw ((get-view q m.backing_map v).0, there, tx_at) refl
  ]

  -- what addTx does: a hash that is there keeps its transaction
  pub add_tx-tx_at :
      (tx : WrappedTransaction T) (m : TxByHashMap T C)
      → IsValid m
      → (m' : TxByHashMap T C) × (add_tx tx m ≡ some (m', not (is_some (tx_at tx.tx_hash m))))
        × IsValid m'
        × ((q : Bytes)
            → tx_at q m' ≡ (
                if is_some (tx_at tx.tx_hash m)
                then tx_at q m
                else if bytes_beq tx.tx_hash q
                then some tx
                else tx_at q m))
  unfolding add_tx
  add_tx-tx_at tx m v =
      let h = tx.tx_hash in
      let (backing, put, valid, views, count) =
        set_if_absent-view h (some tx) m.backing_map v.map_valid in
      elim (Bool-cases (is_some (tx_at h m))) [
        | inl old ↦
            let there : is_some (view m.backing_map h) ≡ true = v.no_nil h ∙ old in
            let m' : TxByHashMap T C = record m { backing_map = backing } in
            (
              m',
              rw (put, there, old) refl,
              record {
                map_valid = valid;
                no_nil = λ q. ground (arith, views q, v.no_nil q, there);
              },
              λ q. rw old ground (arith, views q, there),
            )
        | inr new ↦
            let absent : is_some (view m.backing_map h) ≡ false = v.no_nil h ∙ new in
            let m' : TxByHashMap T C = record m {
              backing_map = backing;
              counter = n.increment m.counter;
              num_bytes = n.add tx.size m.num_bytes;
            } in
            (
              m',
              rw (put, absent, new) refl,
              record {
                map_valid = valid;
                no_nil = λ q. ground (arith, views q, v.no_nil q, absent);
              },
              λ q. rw new ground (arith, views q, absent),
            )
      ]

  pub remove_tx-tx_at :
      (q : Bytes) (m : TxByHashMap T C)
      → IsValid m
      → (m' : TxByHashMap T C) × (remove_tx q m ≡ some (m', tx_at q m))
        × IsValid m'
        × ((p : Bytes) → tx_at p m' ≡ (if bytes_beq q p then none else tx_at p m))
  unfolding remove_tx
  remove_tx-tx_at q m v =
      let (backing, item, is, gone, valid, views, count) =
        remove-view q m.backing_map v.map_valid in
      elim (Option-cases item) [
        | inl absent ↦
            let m' : TxByHashMap T C = record m { backing_map = backing } in
            (
              m',
              rw gone (rw absent (ap (λ o. some (m', o)) (sym absent ∙ is))),
              record { map_valid = valid; no_nil = λ p. ground (arith, views p, v.no_nil p) },
              λ p. ground (arith, views p),
            )
        | inr (tx, there) ↦
            let m' : TxByHashMap T C = record m {
              backing_map = backing;
              counter = n.decrement m.counter;
              num_bytes = n.subtract tx.size m.num_bytes;
            } in
            (
              m',
              rw gone (rw there (ap (λ o. some (m', o)) (sym there ∙ is))),
              record { map_valid = valid; no_nil = λ p. ground (arith, views p, v.no_nil p) },
              λ p. ground (arith, views p),
            )
      ]

  -- RemoveTxsBulk takes out the hashes of the list, whether they are there or not
  pub remove_txs_bulk-tx_at :
      (hashes : List Bytes) (num_removed : ℕ) (m : TxByHashMap T C)
      → IsValid m
      → (r : TxByHashMap T C × ℕ) × (remove_txs_bulk hashes num_removed m ≡ some r)
        × IsValid r.0
        × ((p : Bytes) → tx_at p r.0 ≡ (if among p hashes then none else tx_at p m))
  unfolding remove_txs_bulk
  remove_txs_bulk-tx_at [] num_removed m v = ((m, num_removed), refl, v, λ p. refl)
  remove_txs_bulk-tx_at (q ∷ hashes) num_removed m v =
      let (m1, run1, v1, at1) = remove_tx-tx_at q m v in
      let num : ℕ = (elim (tx_at q m) [ none ↦ num_removed | some _ ↦ suc num_removed ]) in
      let (r, run, valid, at) = remove_txs_bulk-tx_at hashes num m1 v1 in
      (r, rw run1 run, valid, λ p. ground (arith, at p, at1 p))
