-- ===== src/Selection/Ends.antt =====
-- The loop of txcache/selection.go comes to an end, and keeps what each of its rounds keeps.
use drt_go_chain_storage.Base.{
  ℕ, zero, suc, ◌+◌, ◌<◌, ◌≡◌, refl, Bool, false, some, List, [], ◌∷◌, arith, All, Option-cases,
  Bool-cases, inl, inr,
}
use drt_go_chain_storage.Base.Bag.{SameBag, sum_of, sum_of-SameBag, All-SameBag, same_symm}
use drt_go_chain_storage.Base.Heap
use drt_go_chain_storage.Base.Heap.Order.{Priority}
use drt_go_chain_storage.Base.Heap.Order.Queue.{pop-IsOrdered}
use drt_go_chain_storage.Core.{TransactionHandler}
use drt_go_chain_storage.Wrapped.{WrappedTransaction}
use drt_go_chain_storage.Selection.{
  HeapItem, SelectionSession, max_less, select_current_transaction, detect_skippable_sender,
  detect_skippable_transaction,
}
use drt_go_chain_storage.Selection.Value.{max_less-Priority}
use drt_go_chain_storage.Selection.Items.{
  empty_heap-IsLive, left, IsPlaced, IsPlaced-left, IsLive, push_next-IsLive, push_bunches-IsLive,
}
use drt_go_chain_storage.Selection.Loop.{
  SelectionState, count_txs, breaks, process, select_loop, initial_state,
  select_transactions_from_bunches,
}

module _ {T : Type 0} ⦃h : TransactionHandler T⦄ where
  -- what Pop gives of a live heap: a placed item that no item beats, and the others
  pub pop-IsLive :
      (less : HeapItem T → HeapItem T → Bool) (laws : Priority less) (heap rest : List (HeapItem T))
      (item : HeapItem T)
      → IsLive less laws heap
      → Heap.pop less heap ≡ some (item, rest)
      → IsPlaced item
        × IsLive less laws rest
        × SameBag (item ∷ rest) heap
        × All (λ other. less other item ≡ false) heap
  pop-IsLive less laws heap rest item v e =
      let (ordered, same, best) = pop-IsOrdered less laws heap (item, rest) v.ordered e in
      let placed = All-SameBag IsPlaced (same_symm same) v.placed in
      (placed.0, record { ordered = ordered; placed = placed.1 }, same, best)

  module _ (session : SelectionSession T) (late : ℕ → Bool) (gas_requested max_num : ℕ) where
    process-IsLive :
        (item : HeapItem T) (s : SelectionState T)
        → IsPlaced item
        → IsLive max_less max_less-Priority s.heap
        → IsLive max_less max_less-Priority (process session late gas_requested max_num item s).heap
          × (sum_of left (process session late gas_requested max_num item s).heap
              < left item + sum_of left s.heap)
    unfolding process select_current_transaction
    process-IsLive item s p v =
        let sender_check = detect_skippable_sender session item s.records in
        let check = detect_skippable_transaction session item sender_check.0 in
        elim (Bool-cases sender_check.1) [
          | inl skip ↦ rw skip (v, omega (arith, IsPlaced-left item p))
          | inr go ↦ elim (Bool-cases check.1) [
            | inl skip ↦ rw (go, skip) (push_next-IsLive max_less max_less-Priority item s.heap p v)
            | inr take ↦
                rw (go, take)
                  (push_next-IsLive max_less max_less-Priority (select_current_transaction item).0
                    s.heap (record { here = p.here; nonce = p.nonce }) v)
          ]
        ]

    -- What the rounds of the loop keep, of the state between the rounds, and of a popped item with
    -- the state without it.
    pub record Kept (P : SelectionState T → Type 0) (W : HeapItem T → SelectionState T → Type 0)
        : Type 0 where
      pub pops :
          (item : HeapItem T) (heap : List (HeapItem T)) (s : SelectionState T)
          → SameBag (item ∷ heap) s.heap
          → P s
          → W item (record s { heap = heap })
      pub stops : (item : HeapItem T) (s : SelectionState T) → W item s → P s
      pub works :
          (round : ℕ) (item : HeapItem T) (s : SelectionState T)
          → IsPlaced item
          → IsLive max_less max_less-Priority s.heap
          → W item s
          → breaks session late gas_requested max_num round item s ≡ false
          → P (process session late gas_requested max_num item s)

    pub select_loop-Kept :
        (P : SelectionState T → Type 0) (W : HeapItem T → SelectionState T → Type 0)
        → Kept P W
        → (fuel round : ℕ) (s : SelectionState T) → IsLive max_less max_less-Priority s.heap
        → sum_of left s.heap < fuel
        → P s
        → (r : SelectionState T) × (select_loop session late gas_requested max_num fuel round s
            ≡ some r)
          × P r
    unfolding select_loop
    select_loop-Kept P W k zero round s v f q = absurd (omega arith)
    select_loop-Kept P W k (suc fuel) round s v f q =
        elim (Option-cases (Heap.pop max_less s.heap)) [
          | inl empty ↦ (s, rw (empty, select_loop) refl, q)
          | inr ((item, heap), some_item) ↦
              let (placed, live, same, best) =
                pop-IsLive max_less max_less-Priority s.heap heap item v some_item in
              let sum = sum_of-SameBag left same in
              let popped : SelectionState T = record s { heap = heap } in
              let w = k.pops item heap s same q in
              elim (Bool-cases (breaks session late gas_requested max_num round item popped)) [
                | inl stop ↦ (
                  popped,
                  rw (some_item, select_loop) (rw (stop, select_loop) refl),
                  k.stops item popped w,
                )
                | inr go ↦
                    let (live', less) = process-IsLive item popped placed live in
                    let next = process session late gas_requested max_num item popped in
                    let (r, run, done) =
                      select_loop-Kept P W k fuel (suc round) next live'
                        (omega (arith, less, sum, f))
                        (k.works round item popped placed live w go) in
                    (r, rw (some_item, select_loop) (rw (go, select_loop) run), done)
              ]
        ]

    -- the fuel of the selection is enough, and its result has what the rounds keep
    pub select_transactions-Kept :
        (P : SelectionState T → Type 0) (W : HeapItem T → SelectionState T → Type 0)
        → Kept P W
        → (bunches : List (List (WrappedTransaction T)))
        → P (initial_state session late gas_requested max_num bunches)
        → (r : SelectionState T) × (select_transactions_from_bunches session late gas_requested
              max_num bunches
            ≡ some (r.selected_transactions, r.accumulated_gas))
          × P r
    unfolding select_transactions_from_bunches
    select_transactions-Kept P W k bunches q =
        let (live, sum) =
          push_bunches-IsLive max_less max_less-Priority bunches []
            (empty_heap-IsLive max_less max_less-Priority) in
        let (r, run, done) =
          select_loop-Kept P W k (suc (count_txs bunches)) 0
            (initial_state session late gas_requested max_num bunches) live (omega (arith, sum))
            q in
        (r, rw run refl, done)
