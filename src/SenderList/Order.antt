-- ===== src/SenderList/Order.antt =====
-- The order of a sender's transactions, as the comment on findInsertionPlace of
-- txcache/txListForSender.go states it, and the ordered insertion that it asks for.
use Prim.Native.Nat.{Ordering, compare}
use drt_go_chain_storage.Base.{
  ◌≤◌, ◌≡◌, refl, Option, none, some, List, [], ◌∷◌, All, arith, ◌>>=◌, WhenSome, Ordering-cases,
  Option-cases, subst, inl, inr,
}
use drt_go_chain_storage.Base.Bytes.{
  bytes_compare, bytes_compare-eq, bytes_compare_gt, bytes_compare_trans,
}
use mathlib.Core.List.{Perm}
use mathlib.Core.List.Perm
use drt_go_chain_storage.Core.{TransactionHandler}
use drt_go_chain_storage.Wrapped.{WrappedTransaction, nonce, gas_price}

module _ {T : Type 0} ⦃h : TransactionHandler T⦄ where
  -- nonces ascending, then gas prices descending, then hashes ascending
  unfoldable pub tx_compare : WrappedTransaction T → WrappedTransaction T → Ordering
  tx_compare a b = elim (compare (nonce a) (nonce b)) [
    | Ordering.lt ↦ Ordering.lt
    | Ordering.gt ↦ Ordering.gt
    | Ordering.eq ↦ elim (compare (gas_price b) (gas_price a)) [
      | Ordering.lt ↦ Ordering.lt
      | Ordering.gt ↦ Ordering.gt
      | Ordering.eq ↦ bytes_compare a.tx_hash b.tx_hash
    ]
  ]

  abbrev pub Before : WrappedTransaction T → WrappedTransaction T → Type 0
  Before a b = tx_compare a b ≡ Ordering.lt

  abbrev pub IsSorted : List (WrappedTransaction T) → Type 0
  IsSorted [] = Unit
  IsSorted (x ∷ l) = All (Before x) l × IsSorted l

  -- put a transaction in its place; `none` if an equal one is there
  unfoldable pub insert_sorted :
      WrappedTransaction T → List (WrappedTransaction T) → Option (List (WrappedTransaction T))
  insert_sorted a [] = some (a ∷ [])
  insert_sorted a (x ∷ l) = elim (tx_compare a x) [
    | Ordering.lt ↦ some (a ∷ x ∷ l)
    | Ordering.eq ↦ none
    | Ordering.gt ↦ insert_sorted a l >>= λ l'. some (x ∷ l')
  ]

  module _ (a x : WrappedTransaction T) (l : List (WrappedTransaction T)) where
    pub insert_sorted_lt : tx_compare a x ≡ Ordering.lt → insert_sorted a (x ∷ l) ≡ some (a ∷ x ∷ l)
    unfolding insert_sorted
    insert_sorted_lt c = rw (c, insert_sorted)

    pub insert_sorted_eq : tx_compare a x ≡ Ordering.eq → insert_sorted a (x ∷ l) ≡ none
    unfolding insert_sorted
    insert_sorted_eq c = rw (c, insert_sorted)

    pub insert_sorted_gt :
        tx_compare a x ≡ Ordering.gt
        → insert_sorted a (x ∷ l) ≡ (insert_sorted a l >>= λ l'. some (x ∷ l'))
    unfolding insert_sorted
    insert_sorted_gt c = rw (c, insert_sorted)

  pub Before-trans : (a b c : WrappedTransaction T) → Before a b → Before b c → Before a c
  unfolding tx_compare
  Before-trans a b c p q = ground (arith, bytes_compare_trans a.tx_hash b.tx_hash c.tx_hash)

  pub tx_compare_gt : (a b : WrappedTransaction T) → tx_compare a b ≡ Ordering.gt → Before b a
  unfolding tx_compare
  tx_compare_gt a b p = ground (arith, bytes_compare_gt a.tx_hash b.tx_hash)

  -- equal in the order: the same nonce, gas price and hash
  pub tx_compare_eq :
      (a b : WrappedTransaction T)
      → tx_compare a b ≡ Ordering.eq
      → (nonce a ≡ nonce b) × (gas_price a ≡ gas_price b) × (a.tx_hash ≡ b.tx_hash)
  unfolding tx_compare
  tx_compare_eq a b p = ground (arith, bytes_compare-eq a.tx_hash b.tx_hash)

  pub Before-eq_left :
      (a b c : WrappedTransaction T) → tx_compare a b ≡ Ordering.eq → Before b c → Before a c
  unfolding tx_compare
  Before-eq_left a b c p q = ground (arith, bytes_compare-eq a.tx_hash b.tx_hash)

  pub Before-nonce : (a b : WrappedTransaction T) → Before a b → nonce a ≤ nonce b
  unfolding tx_compare
  Before-nonce a b p = ground arith

  pub All-Before :
      (a x : WrappedTransaction T) (l : List (WrappedTransaction T))
      → Before a x
      → All (Before x) l
      → All (Before a) l
  All-Before a x [] p q = tt
  All-Before a x (y ∷ l) p q = (Before-trans a x y p q.0, All-Before a x l p q.1)

  pub All-Before_eq :
      (a x : WrappedTransaction T) (l : List (WrappedTransaction T))
      → tx_compare a x ≡ Ordering.eq
      → All (Before x) l
      → All (Before a) l
  All-Before_eq a x [] p q = tt
  All-Before_eq a x (y ∷ l) p q = (Before-eq_left a x y p q.0, All-Before_eq a x l p q.1)

  insert_sorted-All :
      (y a : WrappedTransaction T) (l : List (WrappedTransaction T))
      → Before y a
      → All (Before y) l
      → WhenSome (All (Before y)) (insert_sorted a l)
  unfolding insert_sorted
  insert_sorted-All y a [] p q = (p, tt)
  insert_sorted-All y a (x ∷ l) p q = elim (Ordering-cases (tx_compare a x)) [
    | inl lt ↦ rw (insert_sorted_lt a x l lt) (p, q)
    | inr (inl eq) ↦ rw (insert_sorted_eq a x l eq) tt
    | inr (inr gt) ↦ elim (Option-cases (insert_sorted a l)) [
      | inl there ↦ rw (insert_sorted_gt a x l gt, there) tt
      | inr (l', e) ↦
          rw (insert_sorted_gt a x l gt, e)
            (q.0, subst (WhenSome (All (Before y))) e (insert_sorted-All y a l p q.1))
    ]
  ]

  -- an insertion keeps the order
  pub insert_sorted-IsSorted :
      (a : WrappedTransaction T) (l : List (WrappedTransaction T))
      → IsSorted l
      → WhenSome IsSorted (insert_sorted a l)
  unfolding insert_sorted
  insert_sorted-IsSorted a [] s = (tt, tt)
  insert_sorted-IsSorted a (x ∷ l) s = elim (Ordering-cases (tx_compare a x)) [
    | inl lt ↦ rw (insert_sorted_lt a x l lt) ((lt, All-Before a x l lt s.0), s)
    | inr (inl eq) ↦ rw (insert_sorted_eq a x l eq) tt
    | inr (inr gt) ↦ elim (Option-cases (insert_sorted a l)) [
      | inl there ↦ rw (insert_sorted_gt a x l gt, there) tt
      | inr (l', e) ↦
          rw (insert_sorted_gt a x l gt, e)
            (
              subst (WhenSome (All (Before x))) e
                  (insert_sorted-All x a l (tx_compare_gt a x gt) s.0),
              subst (WhenSome IsSorted) e (insert_sorted-IsSorted a l s.1),
            )
    ]
  ]

  -- an insertion adds the transaction and nothing else
  pub insert_sorted-perm :
      (a : WrappedTransaction T) (l : List (WrappedTransaction T))
      → WhenSome (λ l'. Perm l' (a ∷ l)) (insert_sorted a l)
  unfolding insert_sorted
  insert_sorted-perm a [] = Perm.refl (a ∷ [])
  insert_sorted-perm a (x ∷ l) = elim (Ordering-cases (tx_compare a x)) [
    | inl lt ↦ rw (insert_sorted_lt a x l lt) (Perm.refl (a ∷ x ∷ l))
    | inr (inl eq) ↦ rw (insert_sorted_eq a x l eq) tt
    | inr (inr gt) ↦ elim (Option-cases (insert_sorted a l)) [
      | inl there ↦ rw (insert_sorted_gt a x l gt, there) tt
      | inr (l', e) ↦
          rw (insert_sorted_gt a x l gt, e)
            (Perm.trans
              (Perm.cons x (subst (WhenSome (λ m. Perm m (a ∷ l))) e (insert_sorted-perm a l)))
              (Perm.swap a x l))
    ]
  ]

  -- a transaction in front of all others is put at the head
  pub insert_sorted_front :
      (a : WrappedTransaction T) (l : List (WrappedTransaction T))
      → All (Before a) l
      → insert_sorted a l ≡ some (a ∷ l)
  unfolding insert_sorted
  insert_sorted_front a [] p = refl
  insert_sorted_front a (x ∷ l) p = insert_sorted_lt a x l p.0
