-- ===== src/Selection/Nonces.antt =====
-- The nonces that the selection takes of a sender: one after the other, from the nonce of the account.
use drt_go_chain_storage.Base.{
  ℕ, ◌+◌, ◌≤◌, ◌≡◌, refl, Bool, some, List, [], ◌∷◌, ◌++◌, arith, length, All, Bool-cases, inl, inr,
}
use drt_go_chain_storage.Base.Bag.{sum_of, sum_of-SameBag, All-SameBag, same_symm}
use drt_go_chain_storage.Base.Bytes.{Bytes}
use drt_go_chain_storage.Base.GoMap.{lookup}
use drt_go_chain_storage.Core.{TransactionHandler}
use drt_go_chain_storage.Wrapped.{WrappedTransaction}
use drt_go_chain_storage.Selection.{
  HeapItem, SelectionSession, max_less, select_current_transaction, detect_skippable_sender,
  detect_skippable_transaction,
}
use drt_go_chain_storage.Selection.Value.{max_less-Priority}
use drt_go_chain_storage.Selection.Items.{empty_heap-IsLive, IsPlaced, IsLive}
use drt_go_chain_storage.Selection.Loop.{
  SelectionState, push_bunches, process, select_transactions_from_bunches,
}
use drt_go_chain_storage.Selection.Ends.{Kept, select_transactions-Kept}
use drt_go_chain_storage.Selection.Records.{
  account_nonce, IsFaithful, accumulate_consumed_balance-IsFaithful,
  detect_skippable_sender-IsFaithful, detect_skippable_transaction-IsFaithful,
}
use drt_go_chain_storage.Selection.Bunches.{
  IsBunch, count_bunches, is_of, next_nonce, push_next-is_of, push_bunches-IsSteady,
}
use drt_go_chain_storage.Selection.Tied.{
  range, nonces_of, IsTied, Consecutive, step-Consecutive, take-Consecutive, tie_fresh,
  select_current_transaction-IsPlaced,
}

module _ {T : Type 0} ⦃h : TransactionHandler T⦄ (session : SelectionSession T) (k : Bytes)
    (late : ℕ → Bool) (gas_requested max_num : ℕ) where
  -- what the rounds keep, and what they keep beside the popped item
  abbrev State : SelectionState T → Type 0
  State s =
      IsFaithful session s.records
      × (sum_of (is_of k) s.heap ≤ 1)
      × Consecutive session k s.selected_transactions s.heap

  abbrev Popped : HeapItem T → SelectionState T → Type 0
  Popped item s =
      IsFaithful session s.records
      × (is_of k item + sum_of (is_of k) s.heap ≤ 1)
      × IsTied session k (length (nonces_of k s.selected_transactions)) item
      × Consecutive session k s.selected_transactions s.heap

  process-State :
      (item : HeapItem T) (s : SelectionState T)
      → IsPlaced item
      → IsLive max_less max_less-Priority s.heap
      → Popped item s
      → State (process session late gas_requested max_num item s)
  unfolding process select_current_transaction
  process-State item s p v (records, single, tied, c) =
      let sender_check = detect_skippable_sender session item s.records in
      let check = detect_skippable_transaction session item sender_check.0 in
      let chosen = (select_current_transaction item).0 in
      let (records1, gaps) = detect_skippable_sender-IsFaithful session item s.records records in
      let (records2, old) =
        detect_skippable_transaction-IsFaithful session item sender_check.0 records1 in
      elim (Bool-cases sender_check.1) [
        | inl skip ↦ rw skip (records1, omega (arith, single), c)
        | inr go ↦ elim (Bool-cases check.1) [
          | inl skip ↦
              rw (go, skip)
                (
                  records2,
                  omega (arith, push_next-is_of k item s.heap p tied.0 v, single),
                  step-Consecutive session k s.selected_transactions item s.heap p v tied c,
                )
          | inr take ↦
              let (initial, middle) = gaps go in
              let (lower, twice) = old take in
              let next =
                next_nonce (account_nonce session item.sender) item tied.0 initial middle lower
                  twice in
              let (tied', c') =
                take-Consecutive session k s.selected_transactions item s.heap p single tied c
                  next in
              let placed : IsPlaced chosen = select_current_transaction-IsPlaced item p in
              let few = push_next-is_of k chosen s.heap placed tied'.0 v in
              rw (go, take)
                (
                  accumulate_consumed_balance-IsFaithful session item.current_transaction check.0
                      records2,
                  omega (arith, few, single),
                  step-Consecutive session k
                      (s.selected_transactions ++ item.current_transaction ∷ []) chosen s.heap
                      placed v tied' c',
                )
        ]
      ]

  -- For bunches each of one sender and by rising nonce, of which one at most is of the sender `k`,
  -- the loop comes to an end, and the nonces of the selected transactions of `k`, in the order of the
  -- selection, are consecutive numbers from the nonce of its account on: no gap, no nonce twice
  -- and none below.
  pub select_transactions_from_bunches-nonces_of :
      (bunches : List (List (WrappedTransaction T)))
      → All IsBunch bunches
      → count_bunches k bunches ≤ 1
      → (r : List (WrappedTransaction T) × ℕ) × (select_transactions_from_bunches session late
            gas_requested max_num bunches
          ≡ some r)
        × (nonces_of k r.0 ≡ range (account_nonce session k) (length (nonces_of k r.0)))
  unfolding lookup
  select_transactions_from_bunches-nonces_of bunches b one =
      let kept : Kept session late gas_requested max_num State Popped = record {
        pops = λ item heap s same (records, single, c).
            let tied =
              All-SameBag (IsTied session k (length (nonces_of k s.selected_transactions)))
                (same_symm same) c.tied in
            (
              records,
              omega (arith, sum_of-SameBag (is_of k) same, single),
              tied.0,
              record { tied = tied.1; nonces = c.nonces },
            );
        stops = λ item s (records, single, tied, c). (records, omega (arith, single), c);
        works = λ round item s p v w go. process-State item s p v w;
      } in
      let empty : IsLive max_less max_less-Priority [] =
        empty_heap-IsLive max_less max_less-Priority in
      let (fresh, count) = push_bunches-IsSteady k bunches [] b empty tt in
      let (r, run, done) =
        select_transactions-Kept session late gas_requested max_num State Popped kept bunches (
          (λ q. tt),
          omega (arith, count, one),
          record {
            tied = tie_fresh session k (push_bunches max_less bunches []) fresh;
            nonces = refl;
          },
        ) in
      ((r.selected_transactions, r.accumulated_gas), run, done.2.nonces)
