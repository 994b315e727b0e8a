-- ===== src/SenderList.antt =====
-- txcache/txListForSender.go: the transactions of one sender, sorted by nonce, then by falling gas
-- price, then by hash. An element is named by its handle (Base/Linked). The mutex serialises the
-- operations. `total_bytes` is a counter of drt-go-chain-core, a parameter.
pub mod Order
pub mod Insert
pub mod Limits
pub mod Adding
pub mod Removal
use Prim.Native.Nat.{Ordering}
use drt_go_chain_storage.Base.{
  ℕ, zero, suc, Bool, true, false, ◌||◌, Option, none, some, List, [], ◌∷◌, ◌++◌, map, ltb, ◌==◌,
  if◌then◌else◌, ltb_int64, length,
}
use drt_go_chain_storage.Base.Bytes.{Bytes, bytes_compare}
use drt_go_chain_storage.Base.Linked
use drt_go_chain_storage.Base.Linked.{LinkedList, values, elem_count, back}
use drt_go_chain_storage.Core.{Counter, TransactionHandler}
use drt_go_chain_storage.Wrapped.{WrappedTransaction, nonce, gas_price}
use mathlib.Core.List.{reverse}

-- senderConstraints of txcache/config.go
pub record SenderConstraints : Type 0 where
  pub max_num_txs : ℕ
  pub max_num_bytes : ℕ

pub record TxListForSender (T C : Type 0) : Type 0 where
  pub sender : Bytes
  pub items : LinkedList (WrappedTransaction T)
  pub total_bytes : C
  pub constraints : SenderConstraints

-- where a new transaction goes: `place none` is the head of the list, and the error is
-- errItemAlreadyInCache
pub data Insertion : Type 0 where
  place : Option ℕ → Insertion
  item_already_in_cache : Insertion

-- what one round of the search does
pub data Visit : Type 0 where
  returns : Insertion → Visit
  continues : Visit

module _ {T : Type 0} ⦃h : TransactionHandler T⦄ where
  -- the body of the search loop, at `element`
  unfoldable pub visit : WrappedTransaction T → ℕ × WrappedTransaction T → Visit
  visit incoming (element, current) =
      if nonce current == nonce incoming
      then if ltb (gas_price incoming) (gas_price current)
        then returns (place (some element))
        else if gas_price current == gas_price incoming
        then elim (bytes_compare current.tx_hash incoming.tx_hash) [
          | Ordering.eq ↦ returns item_already_in_cache
          | Ordering.lt ↦ returns (place (some element))
          | Ordering.gt ↦ continues
        ]
        else continues
      else if ltb (nonce current) (nonce incoming)
      then returns (place (some element))
      else continues

  -- the loop from the back to the front: an element is visited when none behind it returned
  unfoldable pub search_backwards : WrappedTransaction T → List (ℕ × WrappedTransaction T) → Visit
  search_backwards incoming [] = continues
  search_backwards incoming (x ∷ behind) = elim (search_backwards incoming behind) [
    | returns r ↦ returns r
    | continues ↦ visit incoming x
  ]

  unfoldable pub find_insertion_place :
      WrappedTransaction T → List (ℕ × WrappedTransaction T) → Insertion
  find_insertion_place incoming l = elim (search_backwards incoming l) [
    | returns r ↦ r
    | continues ↦ place none
  ]

  unfoldable pub insert_at :
      WrappedTransaction T
      → Option ℕ
      → LinkedList (WrappedTransaction T)
      → LinkedList (WrappedTransaction T)
  insert_at tx none l = (Linked.push_front tx l).1
  insert_at tx (some mark) l = Linked.insert_after tx mark l

  module _ {C : Type 0} ⦃n : Counter C⦄ where
    unfoldable pub new_tx_list_for_sender : Bytes → SenderConstraints → TxListForSender T C
    new_tx_list_for_sender sender constraints = record {
      sender = sender;
      items = Linked.new_list;
      total_bytes = n.zero_value;
      constraints = constraints;
    }

    unfoldable pub count_tx : TxListForSender T C → ℕ
    count_tx l = elem_count l.items

    unfoldable pub is_empty : TxListForSender T C → Bool
    is_empty l = count_tx l == 0

    unfoldable pub is_capacity_exceeded : TxListForSender T C → Bool
    is_capacity_exceeded l =
        ltb_int64 l.constraints.max_num_bytes (n.get l.total_bytes)
        || ltb l.constraints.max_num_txs (count_tx l)

    unfoldable pub on_added_transaction :
        WrappedTransaction T → TxListForSender T C → TxListForSender T C
    on_added_transaction tx l = record l { total_bytes = n.add tx.size l.total_bytes }

    unfoldable pub on_removed_list_element :
        WrappedTransaction T → TxListForSender T C → TxListForSender T C
    on_removed_list_element tx l = record l { total_bytes = n.subtract tx.size l.total_bytes }

    -- `items.Remove(element)` and the call behind it
    unfoldable pub remove_element :
        ℕ × WrappedTransaction T → TxListForSender T C → TxListForSender T C
    remove_element (i, tx) l =
        on_removed_list_element tx (record l { items = Linked.remove i l.items })

    -- The loop of `applySizeConstraints`, from an element on. `element.Prev()` is read after the
    -- element has been removed. One round of fuel for each element is enough.
    unfoldable pub apply_loop :
        ℕ
        → Option (ℕ × WrappedTransaction T)
        → List Bytes
        → TxListForSender T C
        → TxListForSender T C × List Bytes
    apply_loop zero element evicted l = (l, evicted)
    apply_loop (suc fuel) none evicted l = (l, evicted)
    apply_loop (suc fuel) (some (i, tx)) evicted l =
        let shrunk = remove_element (i, tx) l in
        let rest =
          apply_loop fuel (Linked.prev i shrunk.items) (evicted ++ tx.tx_hash ∷ []) shrunk in
        if is_capacity_exceeded l then rest else (l, evicted)

    unfoldable pub apply_size_constraints : TxListForSender T C → TxListForSender T C × List Bytes
    apply_size_constraints l = apply_loop (suc (count_tx l)) (back l.items) [] l

    -- `AddTx`: the new state, whether the transaction was added, and the evicted hashes
    unfoldable pub add_tx :
        WrappedTransaction T → TxListForSender T C → TxListForSender T C × Bool × List Bytes
    add_tx tx l = elim (find_insertion_place tx l.items.elems) [
      | item_already_in_cache ↦ (l, false, [])
      | place p ↦
          let r =
            apply_size_constraints
              (on_added_transaction tx (record l { items = insert_at tx p l.items })) in
          (r.0, true, r.1)
    ]

    -- the loop from the front; `nextElement` is read before the removal
    unfoldable pub remove_lower_loop :
        ℕ
        → List (ℕ × WrappedTransaction T)
        → List Bytes
        → TxListForSender T C
        → TxListForSender T C × List Bytes
    remove_lower_loop target [] evicted l = (l, evicted)
    remove_lower_loop target (x ∷ next) evicted l =
        let rest =
          remove_lower_loop target next (evicted ++ x.1.tx_hash ∷ []) (remove_element x l) in
        if ltb target (nonce x.1) then (l, evicted) else rest

    unfoldable pub remove_transactions_with_lower_or_equal_nonce_return_hashes :
        ℕ → TxListForSender T C → TxListForSender T C × List Bytes
    remove_transactions_with_lower_or_equal_nonce_return_hashes target l =
        remove_lower_loop target l.items.elems [] l

    -- the loop from the back, over the elements back to front; `prevElement` is read before the
    -- removal
    unfoldable pub remove_higher_loop :
        ℕ → List (ℕ × WrappedTransaction T) → TxListForSender T C → TxListForSender T C
    remove_higher_loop given [] l = l
    remove_higher_loop given (x ∷ prev) l =
        let rest = remove_higher_loop given prev (remove_element x l) in
        if ltb (nonce x.1) given then l else rest

    unfoldable pub remove_transactions_with_higher_or_equal_nonce :
        ℕ → TxListForSender T C → TxListForSender T C
    remove_transactions_with_higher_or_equal_nonce given l =
        remove_higher_loop given (reverse l.items.elems) l

    unfoldable pub get_txs : TxListForSender T C → List (WrappedTransaction T)
    get_txs l = values l.items.elems

    unfoldable pub get_txs_reversed : TxListForSender T C → List (WrappedTransaction T)
    get_txs_reversed l = reverse (values l.items.elems)
