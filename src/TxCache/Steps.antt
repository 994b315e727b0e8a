-- ===== src/TxCache/Steps.antt =====
-- The state of txcache/txCache.go between operations, and what the removal of the transactions of an
-- eviction pass does to both maps.
use drt_go_chain_storage.Base.{
  ℕ, ◌≡◌, refl, ◌∙◌, subst, Option, none, some, List, [], ◌∷◌, map, if◌then◌else◌, arith,
  Bool-cases, inl, inr,
}
use drt_go_chain_storage.Base.Bytes.{Bytes, bytes_eq, bytes_beq, bytes_beq_iff}
use drt_go_chain_storage.Base.GoMap.{
  GoMap, lookup, insert, Distinct, insert-Distinct, lookup-insert,
}
use drt_go_chain_storage.Core.{Counter, CounterLaws, Flag, TransactionHandler}
use drt_go_chain_storage.TxByHash.Found as ByHash
use drt_go_chain_storage.TxByHash.Found.{tx_at, among, remove_txs_bulk-tx_at}
use drt_go_chain_storage.TxBySender.{TxListBySenderMap}
use drt_go_chain_storage.TxBySender.Pools.{IsSound, pool, remove_higher_or_equal_nonce-pool}
use drt_go_chain_storage.SenderList.Removal.{below}
use drt_go_chain_storage.Wrapped.{WrappedTransaction, nonce}
use drt_go_chain_storage.TxCache.{TxCache}
use drt_go_chain_storage.TxCache.Eviction.{
  lowest_to_evict_by_sender, remove_by_sender, remove_evicted,
}

module _ {T : Type 0} ⦃h : TransactionHandler T⦄ {F C : Type 0} ⦃f : Flag F⦄ ⦃n : Counter C⦄ where
  pub record IsValid (cache : TxCache T F C) : Type 0 where
    pub by_hash : ByHash.IsValid cache.tx_by_hash
    pub by_sender : IsSound cache.tx_list_by_sender

  -- the transactions of a sender, and the transaction of a hash
  abbrev pub pool_of : Bytes → TxCache T F C → List (WrappedTransaction T)
  pool_of q cache = pool q cache.tx_list_by_sender

  abbrev pub found_at : Bytes → TxCache T F C → Option (WrappedTransaction T)
  found_at q cache = tx_at q cache.tx_by_hash

module _ {T : Type 0} ⦃h : TransactionHandler T⦄ where
  -- the nonce of the last transaction of a sender
  abbrev pub last_nonce : Bytes → List (WrappedTransaction T) → Option ℕ
  last_nonce q [] = none
  last_nonce q (tx ∷ txs) = elim (last_nonce q txs) [
    | none ↦ if bytes_beq (h.get_snd_addr tx.tx) q then some (nonce tx) else none
    | some b ↦ some b
  ]

  lookup-lowest_to_evict_by_sender :
      (q : Bytes) (txs : List (WrappedTransaction T)) (lowest : GoMap Bytes ℕ)
      → lookup q (lowest_to_evict_by_sender txs lowest)
        ≡ (elim (last_nonce q txs) [ none ↦ lookup q lowest | some b ↦ some b ])
  unfolding lowest_to_evict_by_sender
  lookup-lowest_to_evict_by_sender q [] lowest = refl
  lookup-lowest_to_evict_by_sender q (tx ∷ txs) lowest =
      let rest =
        lookup-lowest_to_evict_by_sender q txs (insert (h.get_snd_addr tx.tx) (nonce tx) lowest) in
      ground (arith, rest, lookup-insert (h.get_snd_addr tx.tx) q (nonce tx) lowest)

  lowest_to_evict_by_sender-Distinct :
      (txs : List (WrappedTransaction T)) (lowest : GoMap Bytes ℕ)
      → Distinct lowest
      → Distinct (lowest_to_evict_by_sender txs lowest)
  unfolding lowest_to_evict_by_sender
  lowest_to_evict_by_sender-Distinct [] lowest d = d
  lowest_to_evict_by_sender-Distinct (tx ∷ txs) lowest d =
      lowest_to_evict_by_sender-Distinct txs (insert (h.get_snd_addr tx.tx) (nonce tx) lowest)
        (insert-Distinct (h.get_snd_addr tx.tx) (nonce tx) lowest d)

  bound-last_nonce :
      (q : Bytes) (txs : List (WrappedTransaction T))
      → lookup q (lowest_to_evict_by_sender txs []) ≡ last_nonce q txs
  unfolding lookup
  bound-last_nonce q txs = let r = lookup-lowest_to_evict_by_sender q txs [] in ground (arith, r)

  -- the transactions below the bound of the sender, if there is one
  abbrev pub below_lowest : Option ℕ → List (WrappedTransaction T) → List (WrappedTransaction T)
  below_lowest none l = l
  below_lowest (some b) l = below b l

  module _ {C : Type 0} ⦃n : Counter C⦄ (laws : CounterLaws n) where
    remove_by_sender-pool :
        (lowest : GoMap Bytes ℕ) (m : TxListBySenderMap T C)
        → Distinct lowest
        → IsSound m
        → (m' : TxListBySenderMap T C) × (remove_by_sender lowest m ≡ some m')
          × IsSound m'
          × ((q : Bytes) → pool q m' ≡ below_lowest (lookup q lowest) (pool q m))
    unfolding remove_by_sender lookup
    remove_by_sender-pool [] m d v = (m, refl, v, λ q. refl)
    remove_by_sender-pool ((sender, b) ∷ rest) m d v =
        let (m1, run1, v1, pools1) = remove_higher_or_equal_nonce-pool laws sender b m v in
        let (m', run, v', pools) = remove_by_sender-pool rest m1 d.1 v1 in
        (
          m',
          rw run1 run,
          v',
          λ q. elim (Bool-cases (bytes_beq sender q)) [
            | inl here ↦
                let same = (bytes_beq_iff sender q).0 here in
                let absent : lookup q rest ≡ none = subst (λ k. lookup k rest ≡ none) same d.0 in
                pools q ∙ rw absent (rw here (pools1 q ∙ rw (here, same) refl))
            | inr other ↦ pools q ∙ rw other (rw (pools1 q) (rw other refl))
          ],
        )

    module _ {F : Type 0} ⦃f : Flag F⦄ where
      -- A pass takes the picked hashes out of the one map, and out of the other, for each sender of a
      -- picked transaction, every transaction from the nonce of its last picked one on.
      pub remove_evicted-IsValid :
          (to_evict : List (WrappedTransaction T)) (cache : TxCache T F C)
          → IsValid cache
          → (cache' : TxCache T F C) × (remove_evicted to_evict cache ≡ some cache')
            × IsValid cache'
            × (cache'.config ≡ cache.config)
            × ((q : Bytes)
                → pool_of q cache' ≡ below_lowest (last_nonce q to_evict) (pool_of q cache))
            × ((q : Bytes)
                → found_at q cache'
                  ≡ (if among q (map (λ tx. tx.tx_hash) to_evict) then none else found_at q cache))
      unfolding remove_evicted
      remove_evicted-IsValid to_evict cache v =
          let distinct = lowest_to_evict_by_sender-Distinct to_evict [] tt in
          let (m, run, sound, pools) =
            remove_by_sender-pool (lowest_to_evict_by_sender to_evict []) cache.tx_list_by_sender
              distinct v.by_sender in
          let (r, run', valid, at) =
            remove_txs_bulk-tx_at (map (λ tx. tx.tx_hash) to_evict) 0 cache.tx_by_hash v.by_hash in
          let cache' : TxCache T F C = record cache { tx_list_by_sender = m; tx_by_hash = r.0 } in
          (
            cache',
            rw run (rw run' refl),
            record { by_hash = valid; by_sender = sound },
            refl,
            λ q.
                subst (λ b. pool_of q cache' ≡ below_lowest b (pool_of q cache))
                  (bound-last_nonce q to_evict) (pools q),
            at,
          )
