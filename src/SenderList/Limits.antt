-- ===== src/SenderList/Limits.antt =====
-- applySizeConstraints of txcache/txListForSender.go, behind the ordered insertion.
-- `applySizeConstraints` reads `element.Prev()` of an element that it has removed, which is nil:
-- its loop makes one round at most.
use drt_go_chain_storage.Base.{
  ℕ, zero, suc, ◌+◌, ◌^◌, ◌%◌, ◌<◌, ◌≡◌, refl, ◌∙◌, subst, none, some, List, [], ◌∷◌, ltb,
  if◌then◌else◌, All, arith, Bool, true, false, ◌||◌, ltb_int64, length, length-map, drop_last,
  last?, Bool-cases, Option-cases, inl, inr, WhenSome, Ordering-cases,
}
use drt_go_chain_storage.Base.Bytes.{Bytes}
use drt_go_chain_storage.Base.Linked.{
  values, DistinctIds, remove_id, remove_id-DistinctIds, prev_id-remove_id, remove_id-last,
  values-drop_last, last?-values, last?-values_none,
}
use drt_go_chain_storage.Core.{Counter, CounterLaws, TransactionHandler}
use drt_go_chain_storage.Wrapped.{WrappedTransaction}
use drt_go_chain_storage.SenderList.{
  TxListForSender, SenderConstraints, is_capacity_exceeded, count_tx, remove_element,
  on_removed_list_element, apply_loop, apply_size_constraints,
}
use drt_go_chain_storage.SenderList.Order.{
  Before, IsSorted, insert_sorted, tx_compare, insert_sorted_lt, insert_sorted_eq, insert_sorted_gt,
}

-- the transactions, in order
abbrev pub txs : {T C : Type 0} → TxListForSender T C → List (WrappedTransaction T)
txs l = values l.items.elems

-- the sum of the sizes, with no bound
abbrev pub total : {T : Type 0} → List (WrappedTransaction T) → ℕ
total [] = 0
total (x ∷ l) = x.size + total l

-- the transactions break a constraint
abbrev pub exceeds : {T : Type 0} → SenderConstraints → List (WrappedTransaction T) → Bool
exceeds c l = ltb_int64 c.max_num_bytes (total l % 2 ^ 64) || ltb c.max_num_txs (length l)

abbrev pub hash_of_last : {T : Type 0} → List (WrappedTransaction T) → List Bytes
hash_of_last l = elim (last? l) [ none ↦ [] | some x ↦ x.tx_hash ∷ [] ]

module _ {T : Type 0} ⦃h : TransactionHandler T⦄ where
  total-last :
      (l : List (WrappedTransaction T)) (x : WrappedTransaction T)
      → last? l ≡ some x
      → total (drop_last l) + x.size ≡ total l
  total-last [] x p = cc
  total-last (y ∷ []) x p = ground arith
  total-last (y ∷ z ∷ l) x p = ground (arith, total-last (z ∷ l) x p)

  All-drop_last :
      (a : WrappedTransaction T) (l : List (WrappedTransaction T))
      → All (Before a) l
      → All (Before a) (drop_last l)
  All-drop_last a [] p = tt
  All-drop_last a (x ∷ []) p = tt
  All-drop_last a (x ∷ y ∷ l) p = (p.0, All-drop_last a (y ∷ l) p.1)

  drop_last-IsSorted : (l : List (WrappedTransaction T)) → IsSorted l → IsSorted (drop_last l)
  drop_last-IsSorted [] s = tt
  drop_last-IsSorted (x ∷ []) s = tt
  drop_last-IsSorted (x ∷ y ∷ l) s = (All-drop_last x (y ∷ l) s.0, drop_last-IsSorted (y ∷ l) s.1)

  sizes-drop_last :
      (l : List (WrappedTransaction T))
      → All (λ x. x.size < 2 ^ 64) l
      → All (λ x. x.size < 2 ^ 64) (drop_last l)
  sizes-drop_last [] p = tt
  sizes-drop_last (x ∷ []) p = tt
  sizes-drop_last (x ∷ y ∷ l) p = (p.0, sizes-drop_last (y ∷ l) p.1)

  size-last :
      (l : List (WrappedTransaction T)) (x : WrappedTransaction T)
      → All (λ x. x.size < 2 ^ 64) l
      → last? l ≡ some x
      → x.size < 2 ^ 64
  size-last [] x p q = cc
  size-last (y ∷ []) x p q = ground arith
  size-last (y ∷ z ∷ l) x p q = size-last (z ∷ l) x p.1 q

  -- the total and the sizes after an insertion
  pub insert_sorted-total :
      (a : WrappedTransaction T) (l : List (WrappedTransaction T))
      → a.size < 2 ^ 64
      → All (λ x. x.size < 2 ^ 64) l
      → WhenSome
          (λ l'.
            (total l' ≡ a.size + total l)
            × All (λ x. x.size < 2 ^ 64) l'
            × (length l' ≡ suc (length l)))
          (insert_sorted a l)
  unfolding insert_sorted
  insert_sorted-total a [] p q = (refl, (p, tt), refl)
  insert_sorted-total a (x ∷ l) p q = elim (Ordering-cases (tx_compare a x)) [
    | inl lt ↦ rw (insert_sorted_lt a x l lt) (refl, (p, q), refl)
    | inr (inl eq) ↦ rw (insert_sorted_eq a x l eq) tt
    | inr (inr gt) ↦ elim (Option-cases (insert_sorted a l)) [
      | inl there ↦ rw (insert_sorted_gt a x l gt, there) tt
      | inr (l', e) ↦
          let r =
            subst
              (WhenSome (λ l'.
                (total l' ≡ a.size + total l)
                × All (λ x. x.size < 2 ^ 64) l'
                × (length l' ≡ suc (length l))))
              e (insert_sorted-total a l p q.1) in
          rw (insert_sorted_gt a x l gt, e) (omega (arith, r.0), (q.0, r.1), omega (arith, r.2))
    ]
  ]

  module _ {C : Type 0} ⦃n : Counter C⦄ where
    pub record IsValid (l : TxListForSender T C) : Type 0 where
      pub ids : DistinctIds l.items.next l.items.elems
      pub sorted : IsSorted (txs l)
      pub sizes : All (λ x. x.size < 2 ^ 64) (txs l)
      pub bytes : n.get l.total_bytes ≡ total (txs l) % 2 ^ 64

    module _ (laws : CounterLaws n) where
      pub is_capacity_exceeded-exceeds :
          (l : TxListForSender T C)
          → IsValid l
          → is_capacity_exceeded l ≡ exceeds l.constraints (txs l)
      unfolding is_capacity_exceeded count_tx
      is_capacity_exceeded-exceeds l v =
          ground (arith, v.bytes, length-map (λ x. x.1) l.items.elems)

      -- what taking out the last element leaves
      pub record Shrunk (l l' : TxListForSender T C) : Type 0 where
        pub valid : IsValid l'
        pub left : txs l' ≡ drop_last (txs l)
        pub constraints : l'.constraints ≡ l.constraints

      pub remove_last-Shrunk :
          (l : TxListForSender T C) (i : ℕ) (x : WrappedTransaction T)
          → IsValid l
          → last? l.items.elems ≡ some (i, x)
          → Shrunk l (remove_element (i, x) l)
      unfolding remove_element on_removed_list_element
      remove_last-Shrunk l i x v last =
          let one = remove_id-last l.items.next i x l.items.elems v.ids last in
          let left : values (remove_id i l.items.elems) ≡ drop_last (txs l) =
            rw one (values-drop_last l.items.elems) in
          let fine = size-last (txs l) x v.sizes (last?-values i x l.items.elems last) in
          let sum = total-last (txs l) x (last?-values i x l.items.elems last) in
          record {
            valid = record {
              ids = remove_id-DistinctIds l.items.next i l.items.elems v.ids;
              sorted = rw left (drop_last-IsSorted (txs l) v.sorted);
              sizes = rw left (sizes-drop_last (txs l) v.sizes);
              bytes = rw left (omega (arith, laws.get-subtract x.size l.total_bytes, v.bytes));
            };
            left = left;
            constraints = refl;
          }

      apply_loop-none :
          (fuel : ℕ) (evicted : List Bytes) (l : TxListForSender T C)
          → apply_loop fuel none evicted l ≡ (l, evicted)
      unfolding apply_loop
      apply_loop-none zero evicted l = refl
      apply_loop-none (suc fuel) evicted l = refl

      apply_over :
          (l : TxListForSender T C) (i : ℕ) (y : WrappedTransaction T)
          → DistinctIds l.items.next l.items.elems
          → last? l.items.elems ≡ some (i, y)
          → is_capacity_exceeded l ≡ true
          → apply_size_constraints l ≡ (remove_element (i, y) l, y.tx_hash ∷ [])
      unfolding apply_size_constraints apply_loop remove_element on_removed_list_element
      apply_over l i y d last over =
          rw (last, over, prev_id-remove_id l.items.next i l.items.elems d)
            (apply_loop-none (count_tx l) (y.tx_hash ∷ []) (remove_element (i, y) l))

      apply_under :
          (l : TxListForSender T C) (i : ℕ) (y : WrappedTransaction T)
          → last? l.items.elems ≡ some (i, y)
          → is_capacity_exceeded l ≡ false
          → apply_size_constraints l ≡ (l, [])
      unfolding apply_size_constraints apply_loop
      apply_under l i y last under = rw (last, under)

      -- The constraints take out the last transaction at most, whether or not the rest fits.
      pub apply_size_constraints_once :
          (l : TxListForSender T C) (x : WrappedTransaction T)
          → IsValid l
          → last? (txs l) ≡ some x
          → (l' : TxListForSender T C) × IsValid l'
            × (l'.constraints ≡ l.constraints)
            × (apply_size_constraints l
                ≡ (l', (if exceeds l.constraints (txs l) then x.tx_hash ∷ [] else [])))
            × (txs l' ≡ (if exceeds l.constraints (txs l) then drop_last (txs l) else txs l))
      apply_size_constraints_once l x v last = elim (Option-cases (last? l.items.elems)) [
        | inl empty ↦ absurd (cc (last?-values_none l.items.elems empty, last))
        | inr ((i, y), back) ↦
            let same : y ≡ x = cc (last?-values i y l.items.elems back, last) in
            let test = is_capacity_exceeded-exceeds l v in
            elim (Bool-cases (exceeds l.constraints (txs l))) [
              | inl over ↦
                  let s = remove_last-Shrunk l i y v back in
                  (
                    remove_element (i, y) l,
                    s.valid,
                    s.constraints,
                    rw (over, ← same) (apply_over l i y v.ids back (test ∙ over)),
                    rw over s.left,
                  )
              | inr under ↦
                  (l, v, refl, rw under (apply_under l i y back (test ∙ under)), rw under refl)
            ]
      ]
