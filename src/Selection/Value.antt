-- ===== src/Selection/Value.antt =====
-- isTransactionMoreValuableForNetwork of txcache/wrappedTransaction.go as the order of the heaps of
-- txcache/transactionsHeap.go.
use Prim.Native.Nat.{Ordering}
use drt_go_chain_storage.Base.{
  Bool-cases, inl, inr, ◌≡◌, ◌≢◌, refl, [], ◌∷◌, true, false, arith, ◌⊎◌,
}
use drt_go_chain_storage.Base.Bytes.{Bytes, bytes_compare, bytes_compare-eq, bytes_compare-flip}
use drt_go_chain_storage.Base.Heap.Order.{Priority}
use drt_go_chain_storage.Core.{TransactionHandler}
use drt_go_chain_storage.Wrapped.{WrappedTransaction, is_transaction_more_valuable_for_network}
use drt_go_chain_storage.Selection.{
  max_less, min_less, is_current_transaction_more_valuable_for_network,
}

not_less_trans :
    (s t u : Bytes)
    → bytes_compare s t ≢ Ordering.lt
    → bytes_compare t u ≢ Ordering.lt
    → bytes_compare s u ≢ Ordering.lt
unfolding bytes_compare
not_less_trans [] [] u h k = k
not_less_trans [] (b ∷ t) u h k = absurd (h refl)
not_less_trans (a ∷ s) [] [] h k = λ e. cc
not_less_trans (a ∷ s) [] (c ∷ u) h k = absurd (k refl)
not_less_trans (a ∷ s) (b ∷ t) [] h k = λ e. cc
not_less_trans (a ∷ s) (b ∷ t) (c ∷ u) h k = λ e. ground (arith, h, k, e, not_less_trans s t u)

module _ {T : Type 0} ⦃h : TransactionHandler T⦄ where
  -- asymmetry, transitivity of what is not more valuable, and comparability
  strict_order :
      (x y z : WrappedTransaction T)
      → (is_transaction_more_valuable_for_network x y ≡ true
          → is_transaction_more_valuable_for_network y x ≡ false)
        × (is_transaction_more_valuable_for_network x y ≡ false
            → is_transaction_more_valuable_for_network y z ≡ false
            → is_transaction_more_valuable_for_network x z ≡ false)
        × ((x.tx_hash ≡ y.tx_hash)
            ⊎ ((is_transaction_more_valuable_for_network x y ≡ true)
                ⊎ (is_transaction_more_valuable_for_network y x ≡ true)))
  unfolding is_transaction_more_valuable_for_network
  strict_order x y z = (
    (λ p. ground (arith, p, bytes_compare-flip x.tx_hash y.tx_hash)),
    (λ p q. ground (arith, p, q, not_less_trans x.tx_hash y.tx_hash z.tx_hash)),
    ground (arith, bytes_compare-flip x.tx_hash y.tx_hash, bytes_compare-eq x.tx_hash y.tx_hash),
  )

  -- Of two transactions one is not more valuable than the other. If neither a first one is more
  -- valuable than a second one nor that one than a third one, the first is not more valuable than the
  -- third. Of two transactions with different hashes one is more valuable than the other.
  pub is_transaction_more_valuable_for_network-total :
      (x y z : WrappedTransaction T)
      → ((is_transaction_more_valuable_for_network x y ≡ false)
          ⊎ (is_transaction_more_valuable_for_network y x ≡ false))
        × ((is_transaction_more_valuable_for_network x y ≡ true)
            ⊎ ((is_transaction_more_valuable_for_network y z ≡ true)
                ⊎ (is_transaction_more_valuable_for_network x z ≡ false)))
        × ((x.tx_hash ≡ y.tx_hash)
            ⊎ ((is_transaction_more_valuable_for_network x y ≡ true)
                ⊎ (is_transaction_more_valuable_for_network y x ≡ true)))
  is_transaction_more_valuable_for_network-total x y z =
      let (asym, trans, total) = strict_order x y z in
      (
        elim (Bool-cases (is_transaction_more_valuable_for_network x y)) [
          | inl more ↦ inr (asym more)
          | inr less ↦ inl less
        ],
        elim (Bool-cases (is_transaction_more_valuable_for_network x y)) [
          | inl more ↦ inl more
          | inr less ↦ elim (Bool-cases (is_transaction_more_valuable_for_network y z)) [
            | inl more ↦ inr (inl more)
            | inr less' ↦ inr (inr (trans less less'))
          ]
        ],
        total,
      )

  pub max_less-Priority : Priority (max_less {T = T})
  unfolding max_less is_current_transaction_more_valuable_for_network
  max_less-Priority = record {
    asym =
        λ x y. (strict_order x.current_transaction y.current_transaction x.current_transaction).0;
    trans =
        λ x y z. (strict_order x.current_transaction y.current_transaction z.current_transaction).1;
  }

  pub min_less-Priority : Priority (min_less {T = T})
  unfolding min_less is_current_transaction_more_valuable_for_network
  min_less-Priority = record {
    asym =
        λ x y. (strict_order y.current_transaction x.current_transaction x.current_transaction).0;
    trans = λ x y z p q.
        (strict_order z.current_transaction y.current_transaction x.current_transaction).1 q p;
  }
