-- ===== src/Tests/SelectionRuns.antt =====
-- Runs of the selection on two bunches.
use drt_go_chain_storage.Base.{
  ℕ, ◌<◌, ◌≡◌, ◌⊎◌, refl, true, false, none, some, List, [], ◌∷◌, arith,
}
use drt_go_chain_storage.Wrapped.{WrappedTransaction, is_transaction_more_valuable_for_network}
use drt_go_chain_storage.Selection.{SelectionSession}
use drt_go_chain_storage.Selection.Value.{is_transaction_more_valuable_for_network-total}
use drt_go_chain_storage.Selection.Loop.{select_transactions_from_bunches}
use drt_go_chain_storage.Selection.Limits.{
  IsWithinLimits, select_transactions_from_bunches-IsWithinLimits,
}
use drt_go_chain_storage.Selection.Records.{account_nonce}
use drt_go_chain_storage.Selection.Tied.{range, nonces_of}
use drt_go_chain_storage.Selection.Nonces.{select_transactions_from_bunches-nonces_of}
use drt_go_chain_storage.Base.{length}
use drt_go_chain_storage.Base.Bytes.{bytes_beq}
use drt_go_chain_storage.Tests.{sender_transaction}

-- of a sender, a nonce and a gas limit
abbrev pub wrapped : ℕ → ℕ → ℕ → ℕ → ℕ → WrappedTransaction (ℕ × ℕ × ℕ)
wrapped sender nonce gas_limit hash price = record {
  tx = (sender, nonce, gas_limit);
  tx_hash = hash ∷ [];
  sender_shard_id = 0;
  receiver_shard_id = 0;
  size = 10;
  fee = some 5;
  price_per_unit = price;
  transferred_value = none;
  fee_payer = sender ∷ [];
}

abbrev bunches : List (List (WrappedTransaction (ℕ × ℕ × ℕ)))
bunches =
    (wrapped 1 7 100 1 3 ∷ wrapped 1 8 100 2 9 ∷ [])
    ∷ (wrapped 2 7 200 3 5 ∷ wrapped 2 9 100 4 9 ∷ [])
    ∷ []

-- every account has the nonce 7 and the balance 100
abbrev session : SelectionSession (ℕ × ℕ × ℕ)
session = record {
  get_account_state = λ q. some (record { nonce = 7; balance = 100 });
  is_incorrectly_guarded = λ t. false;
}

-- a transaction worth 3 per unit of gas, and one worth 9
abbrev pub cheap : WrappedTransaction (ℕ × ℕ × ℕ)
cheap = wrapped 1 7 100 1 3

abbrev pub dear : WrappedTransaction (ℕ × ℕ × ℕ)
dear = wrapped 1 8 100 2 9

abbrev pub middling : WrappedTransaction (ℕ × ℕ × ℕ)
middling = wrapped 2 7 200 3 5

is_transaction_more_valuable_for_network-total_example :
    ((is_transaction_more_valuable_for_network dear middling ≡ false)
      ⊎ (is_transaction_more_valuable_for_network middling dear ≡ false))
    × ((is_transaction_more_valuable_for_network dear middling ≡ true)
        ⊎ ((is_transaction_more_valuable_for_network middling cheap ≡ true)
            ⊎ (is_transaction_more_valuable_for_network dear cheap ≡ false)))
    × ((dear.tx_hash ≡ middling.tx_hash)
        ⊎ ((is_transaction_more_valuable_for_network dear middling ≡ true)
            ⊎ (is_transaction_more_valuable_for_network middling dear ≡ true)))
is_transaction_more_valuable_for_network-total_example =
    is_transaction_more_valuable_for_network-total dear middling cheap

-- at most 350 units of gas and 10 transactions, of the senders 1 and 2
select_transactions_from_bunches-IsWithinLimits_example :
    (r : List (WrappedTransaction (ℕ × ℕ × ℕ)) × ℕ) × (select_transactions_from_bunches session
        (λ i. false)
        350
        10
        bunches
      ≡ some r)
    × IsWithinLimits 350 10 (λ tx. tx.tx.0 < 3) r.0 r.1
select_transactions_from_bunches-IsWithinLimits_example =
    select_transactions_from_bunches-IsWithinLimits session (λ i. false) 350 10 (λ tx. tx.tx.0 < 3)
      bunches (omega arith)
      (
        ((omega arith, omega arith), ((omega arith, omega arith), tt)),
        (((omega arith, omega arith), ((omega arith, omega arith), tt)), tt),
      )

-- of the sender 1
select_transactions_from_bunches-nonces_of_example :
    (r : List (WrappedTransaction (ℕ × ℕ × ℕ)) × ℕ) × (select_transactions_from_bunches session
        (λ i. false)
        350
        10
        bunches
      ≡ some r)
    × (nonces_of (1 ∷ []) r.0
        ≡ range (account_nonce session (1 ∷ [])) (length (nonces_of (1 ∷ []) r.0)))
unfolding bytes_beq
select_transactions_from_bunches-nonces_of_example =
    select_transactions_from_bunches-nonces_of session (1 ∷ []) (λ i. false) 350 10 bunches
      (((refl, (refl, tt)), (omega arith, tt)), (((refl, (refl, tt)), (omega arith, tt)), tt))
      (omega arith)
