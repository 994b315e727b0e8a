-- ===== src/SenderList/Insert.antt =====
-- findInsertionPlace of txcache/txListForSender.go: the search from the back is the ordered
-- insertion.
use Prim.Native.Nat.{Ordering}
use drt_go_chain_storage.Base.{
  ℕ, suc, subst, ◌≡◌, ◌≢◌, refl, none, some, List, [], ◌∷◌, All, arith, inl, inr, Ordering-cases,
}
use drt_go_chain_storage.Base.Bytes.{bytes_compare-flip}
use drt_go_chain_storage.Base.Linked.{
  LinkedList, values, find_id, find_id-fresh, DistinctIds-mono, DistinctIds, insert_after_id,
  insert_after_id-DistinctIds,
}
use drt_go_chain_storage.Core.{TransactionHandler}
use drt_go_chain_storage.Wrapped.{WrappedTransaction}
use drt_go_chain_storage.SenderList.{
  Insertion, Visit, place, item_already_in_cache, returns, continues, visit, search_backwards,
  find_insertion_place, insert_at,
}
use drt_go_chain_storage.SenderList.Order.{
  tx_compare, Before, IsSorted, insert_sorted, All-Before, All-Before_eq, insert_sorted_lt,
  insert_sorted_eq, insert_sorted_gt,
}

module _ {T : Type 0} ⦃h : TransactionHandler T⦄ where
  -- one round compares the two transactions
  visit-tx_compare :
      (a : WrappedTransaction T) (x : ℕ × WrappedTransaction T)
      → visit a x ≡ (elim (tx_compare a x.1) [
        | Ordering.lt ↦ continues
        | Ordering.eq ↦ returns item_already_in_cache
        | Ordering.gt ↦ returns (place (some x.0))
      ])
  unfolding visit tx_compare
  visit-tx_compare a x =
      ground
        (arith, bytes_compare-flip a.tx_hash x.1.tx_hash, bytes_compare-flip x.1.tx_hash a.tx_hash)

  -- What the search says of a sorted list: the incoming transaction belongs in front of all, or
  -- behind the element that it names, or is there already.
  abbrev Says : WrappedTransaction T → List (ℕ × WrappedTransaction T) → Visit → Type 0
  Says a l continues = insert_sorted a (values l) ≡ some (a ∷ values l)
  Says a l (returns item_already_in_cache) = insert_sorted a (values l) ≡ none
  Says a l (returns (place none)) = ⊥
  Says a l (returns (place (some i))) =
      (find_id i l ≢ none)
      × ((j : ℕ) → insert_sorted a (values l) ≡ some (values (insert_after_id i (j, a) l)))

  search_in_front :
      (a : WrappedTransaction T) (l : List (ℕ × WrappedTransaction T))
      → All (Before a) (values l)
      → search_backwards a l ≡ continues
  unfolding search_backwards
  search_in_front a [] p = refl
  search_in_front a (x ∷ l) p = rw (search_in_front a l p.1, visit-tx_compare a x, p.0) refl

  Says-cons :
      (a : WrappedTransaction T) (x : ℕ × WrappedTransaction T)
      (l : List (ℕ × WrappedTransaction T)) (v : Visit)
      → find_id x.0 l ≡ none
      → search_backwards a l ≡ v
      → tx_compare a x.1 ≡ Ordering.gt
      → Says a l v
      → Says a (x ∷ l) (search_backwards a (x ∷ l))
  unfolding search_backwards find_id insert_after_id
  Says-cons a x l continues fresh run gt s =
      let go : search_backwards a (x ∷ l) ≡ returns (place (some x.0)) =
        rw (run, visit-tx_compare a x, gt) refl in
      rw go (
        λ none_there. absurd (ground arith),
        λ j. rw (insert_sorted_gt a x.1 (values l) gt, s) (ground arith),
      )
  Says-cons a x l (returns item_already_in_cache) fresh run gt s =
      let go : search_backwards a (x ∷ l) ≡ returns item_already_in_cache = rw run refl in
      rw go (rw (insert_sorted_gt a x.1 (values l) gt, s) refl)
  Says-cons a x l (returns (place none)) fresh run gt s = absurd s
  Says-cons a x l (returns (place (some i))) fresh run gt s =
      let go : search_backwards a (x ∷ l) ≡ returns (place (some i)) = rw run refl in
      let other : x.0 ≢ i = λ e. s.0 (subst (λ k. find_id k l ≡ none) e fresh) in
      rw go
        (ground (arith, s.0), λ j. rw (insert_sorted_gt a x.1 (values l) gt, s.1 j) (ground arith))

  search_backwards-Says :
      (n : ℕ) (a : WrappedTransaction T) (l : List (ℕ × WrappedTransaction T))
      → DistinctIds n l
      → IsSorted (values l)
      → Says a l (search_backwards a l)
  unfolding search_backwards insert_sorted
  search_backwards-Says n a [] d s = refl
  search_backwards-Says n a (x ∷ l) d s = elim (Ordering-cases (tx_compare a x.1)) [
    | inl lt ↦
        let front = search_in_front a l (All-Before a x.1 (values l) lt s.0) in
        let go : search_backwards a (x ∷ l) ≡ continues =
          rw (front, visit-tx_compare a x, lt) refl in
        rw go (insert_sorted_lt a x.1 (values l) lt)
    | inr (inl eq) ↦
        let front = search_in_front a l (All-Before_eq a x.1 (values l) eq s.0) in
        let go : search_backwards a (x ∷ l) ≡ returns item_already_in_cache =
          rw (front, visit-tx_compare a x, eq) refl in
        rw go (insert_sorted_eq a x.1 (values l) eq)
    | inr (inr gt) ↦
        Says-cons a x l (search_backwards a l) d.0 refl gt (search_backwards-Says n a l d.2 s.1)
  ]

  -- what findInsertionPlace promises of the list that it searched
  abbrev pub Placed : WrappedTransaction T → LinkedList (WrappedTransaction T) → Insertion → Type 0
  Placed a items item_already_in_cache = insert_sorted a (values items.elems) ≡ none
  Placed a items (place p) =
      (insert_sorted a (values items.elems) ≡ some (values (insert_at a p items).elems))
      × DistinctIds (insert_at a p items).next (insert_at a p items).elems

  -- On a sorted list the search from the back finds the place of the ordered insertion, and finds
  -- a duplicate exactly when that insertion does.
  pub find_insertion_place-Placed :
      (a : WrappedTransaction T) (items : LinkedList (WrappedTransaction T))
      → DistinctIds items.next items.elems
      → IsSorted (values items.elems)
      → Placed a items (find_insertion_place a items.elems)
  unfolding find_insertion_place insert_at
  find_insertion_place-Placed a items d s =
      go (search_backwards a items.elems) (search_backwards-Says items.next a items.elems d s)
    where
      go :
          (v : Visit)
          → Says a items.elems v
          → Placed a items (elim v [ returns r ↦ r | continues ↦ place none ])
      go continues says = (
        says,
        (
          find_id-fresh items.next items.next items.elems d (omega arith),
          omega arith,
          DistinctIds-mono items.next (suc items.next) items.elems (omega arith) d,
        ),
      )
      go (returns item_already_in_cache) says = says
      go (returns (place none)) says = absurd says
      go (returns (place (some i))) says =
          (says.1 items.next, insert_after_id-DistinctIds items.next i a items.elems d)
