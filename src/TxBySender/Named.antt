-- ===== src/TxBySender/Named.antt =====
-- No operation of txcache/txListForSender.go changes the sender of a list.
use drt_go_chain_storage.Base.{
  ℕ, zero, suc, ◌≡◌, refl, Option, none, some, List, [], ◌∷◌, ◌++◌, Bool-cases, inl, inr, ltb,
}
use drt_go_chain_storage.Base.Bytes.{Bytes}
use drt_go_chain_storage.Base.Linked
use drt_go_chain_storage.Core.{Counter, TransactionHandler}
use drt_go_chain_storage.Wrapped.{WrappedTransaction, nonce}
use drt_go_chain_storage.SenderList.{
  TxListForSender, Insertion, place, item_already_in_cache, remove_lower_loop, remove_higher_loop,
  remove_element, on_removed_list_element, on_added_transaction, apply_loop, apply_size_constraints,
  is_capacity_exceeded, add_tx, find_insertion_place, insert_at, count_tx,
  remove_transactions_with_lower_or_equal_nonce_return_hashes,
  remove_transactions_with_higher_or_equal_nonce,
}
use drt_go_chain_storage.Base.Linked.{back}
use mathlib.Core.List.{reverse}

module _ {T : Type 0} ⦃h : TransactionHandler T⦄ {C : Type 0} ⦃n : Counter C⦄ where
  remove_lower_loop_sender :
      (target : ℕ) (rest : List (ℕ × WrappedTransaction T)) (evicted : List Bytes)
      (l : TxListForSender T C)
      → (remove_lower_loop target rest evicted l).0.sender ≡ l.sender
  unfolding remove_lower_loop remove_element on_removed_list_element
  remove_lower_loop_sender target [] evicted l = refl
  remove_lower_loop_sender target (x ∷ rest) evicted l =
      let r =
        remove_lower_loop_sender target rest (evicted ++ x.1.tx_hash ∷ []) (remove_element x l) in
      elim (Bool-cases (ltb target (nonce x.1))) [
        | inl above ↦ rw (above, remove_lower_loop) refl
        | inr below ↦ rw (below, remove_lower_loop) r
      ]

  remove_higher_loop_sender :
      (given : ℕ) (rest : List (ℕ × WrappedTransaction T)) (l : TxListForSender T C)
      → (remove_higher_loop given rest l).sender ≡ l.sender
  unfolding remove_higher_loop remove_element on_removed_list_element
  remove_higher_loop_sender given [] l = refl
  remove_higher_loop_sender given (x ∷ rest) l =
      let r = remove_higher_loop_sender given rest (remove_element x l) in
      elim (Bool-cases (ltb (nonce x.1) given)) [
        | inl below ↦ rw (below, remove_higher_loop) refl
        | inr above ↦ rw (above, remove_higher_loop) r
      ]

  pub remove_lower_sender :
      (target : ℕ) (l : TxListForSender T C)
      → (remove_transactions_with_lower_or_equal_nonce_return_hashes target l).0.sender ≡ l.sender
  unfolding remove_transactions_with_lower_or_equal_nonce_return_hashes
  remove_lower_sender target l = remove_lower_loop_sender target l.items.elems [] l

  pub remove_higher_sender :
      (given : ℕ) (l : TxListForSender T C)
      → (remove_transactions_with_higher_or_equal_nonce given l).sender ≡ l.sender
  unfolding remove_transactions_with_higher_or_equal_nonce
  remove_higher_sender given l = remove_higher_loop_sender given (reverse l.items.elems) l

  apply_loop_sender :
      (fuel : ℕ) (element : Option (ℕ × WrappedTransaction T)) (evicted : List Bytes)
      (l : TxListForSender T C)
      → (apply_loop fuel element evicted l).0.sender ≡ l.sender
  unfolding apply_loop remove_element on_removed_list_element
  apply_loop_sender zero element evicted l = refl
  apply_loop_sender (suc fuel) none evicted l = refl
  apply_loop_sender (suc fuel) (some (i, tx)) evicted l =
      let shrunk = remove_element (i, tx) l in
      let r =
        apply_loop_sender fuel (Linked.prev i shrunk.items) (evicted ++ tx.tx_hash ∷ []) shrunk in
      elim (Bool-cases (is_capacity_exceeded l)) [
        | inl over ↦ rw (over, apply_loop) r
        | inr fine ↦ rw (fine, apply_loop) refl
      ]

  pub add_tx_sender :
      (tx : WrappedTransaction T) (l : TxListForSender T C) → (add_tx tx l).0.sender ≡ l.sender
  unfolding add_tx apply_size_constraints on_added_transaction
  add_tx_sender tx l = go (find_insertion_place tx l.items.elems) refl
    where
      go :
          (i : Insertion)
          → find_insertion_place tx l.items.elems ≡ i
          → (add_tx tx l).0.sender ≡ l.sender
      go item_already_in_cache e = rw (e, add_tx) refl
      go (place p) e =
          let added = on_added_transaction tx (record l { items = insert_at tx p l.items }) in
          rw (e, add_tx) (apply_loop_sender (suc (count_tx added)) (back added.items) [] added)
