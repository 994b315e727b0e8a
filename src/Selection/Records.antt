-- ===== src/Selection/Records.antt =====
-- The records of txcache/selectionSessionWrapper.go keep the nonce that the session gives.
use drt_go_chain_storage.Base.{
  ℕ, ◌+◌, ◌≡◌, refl, sym, ◌∙◌, ap, subst, Bool, true, false, Option, none, some, Option-cases,
  Bool-cases, inl, inr, WhenSome, ◌||◌,
}
use drt_go_chain_storage.Base.Bytes.{Bytes, bytes_eq, bytes_beq, bytes_beq_iff}
use drt_go_chain_storage.Base.GoMap.{lookup, insert, lookup-insert}
use drt_go_chain_storage.Core.{TransactionHandler}
use drt_go_chain_storage.Wrapped.{WrappedTransaction, sender_of}
use drt_go_chain_storage.Selection.{
  HeapItem, SelectionSession, AccountRecord, Records, get_account_record, get_nonce, consume,
  accumulate_consumed_balance, detect_will_fee_exceed_balance, detect_lower_nonce,
  detect_nonce_duplicate, detect_incorrectly_guarded, detect_initial_gap, detect_middle_gap,
  detect_skippable_sender, detect_skippable_transaction,
}

or-false : (a b : Bool) → (a || b) ≡ false → (a ≡ false) × (b ≡ false)
or-false true b e = absurd (cc e)
or-false false b e = (refl, e)

module _ {T : Type 0} ⦃h : TransactionHandler T⦄ (session : SelectionSession T) where
  -- the nonce of an account, zero when the session does not know it
  abbrev pub account_nonce : Bytes → ℕ
  account_nonce q = elim (session.get_account_state q) [ none ↦ 0 | some state ↦ state.nonce ]

  -- each record has the nonce of its account
  abbrev pub IsFaithful : Records → Type 0
  IsFaithful records =
      (q : Bytes) → WhenSome (λ r. r.initial_nonce ≡ account_nonce q) (lookup q records)

  insert-IsFaithful :
      (q : Bytes) (r : AccountRecord) (records : Records)
      → IsFaithful records
      → r.initial_nonce ≡ account_nonce q
      → IsFaithful (insert q r records)
  insert-IsFaithful q r records v e p = elim (Bool-cases (bytes_beq q p)) [
    | inl here ↦
        let same = (bytes_beq_iff q p).0 here in
        rw (lookup-insert q p r records)
          (rw here (subst (λ k. r.initial_nonce ≡ account_nonce k) same e))
    | inr other ↦ rw (lookup-insert q p r records) (rw other (v p))
  ]

  get_account_record-IsFaithful :
      (q : Bytes) (records : Records)
      → IsFaithful records
      → IsFaithful (get_account_record session q records).0
        × ((get_account_record session q records).1.initial_nonce ≡ account_nonce q)
  unfolding get_account_record
  get_account_record-IsFaithful q records v = elim (Option-cases (lookup q records)) [
    | inr (r, there) ↦
        rw (there, get_account_record)
          (v, subst (WhenSome (λ r. r.initial_nonce ≡ account_nonce q)) there (v q))
    | inl absent ↦ elim (Option-cases (session.get_account_state q)) [
      | inl unknown ↦
          let zero_nonce : 0 ≡ account_nonce q = rw (unknown, account_nonce) refl in
          rw (absent, get_account_record)
            (rw (unknown, get_account_record)
              (
                insert-IsFaithful q
                    (record { initial_nonce = 0; initial_balance = 0; consumed_balance = 0 })
                    records v zero_nonce,
                zero_nonce,
              ))
      | inr (state, known) ↦
          let same : state.nonce ≡ account_nonce q = rw (known, account_nonce) refl in
          rw (absent, get_account_record)
            (rw (known, get_account_record)
              (
                insert-IsFaithful q
                    (record {
                      initial_nonce = state.nonce;
                      initial_balance = state.balance;
                      consumed_balance = 0;
                    })
                    records v same,
                same,
              ))
    ]
  ]

  -- getNonce gives the nonce of the account
  pub get_nonce-IsFaithful :
      (q : Bytes) (records : Records)
      → IsFaithful records
      → IsFaithful (get_nonce session q records).0
        × ((get_nonce session q records).1 ≡ account_nonce q)
  unfolding get_nonce
  get_nonce-IsFaithful q records v = get_account_record-IsFaithful q records v

  consume-IsFaithful :
      (q : Bytes) (amount : Option ℕ) (records : Records)
      → IsFaithful records
      → IsFaithful (consume session q amount records)
  unfolding consume
  consume-IsFaithful q none records v = v
  consume-IsFaithful q (some amount) records v = elim (Option-cases (lookup q records)) [
    | inl absent ↦ rw (absent, consume) v
    | inr (r, there) ↦
        let same = subst (WhenSome (λ r. r.initial_nonce ≡ account_nonce q)) there (v q) in
        rw (there, consume)
          (insert-IsFaithful q (record r { consumed_balance = r.consumed_balance + amount }) records
            v same)
  ]

  pub accumulate_consumed_balance-IsFaithful :
      (tx : WrappedTransaction T) (records : Records)
      → IsFaithful records
      → IsFaithful (accumulate_consumed_balance session tx records)
  unfolding accumulate_consumed_balance
  accumulate_consumed_balance-IsFaithful tx records v =
      let one = (get_account_record session (sender_of tx) records).0 in
      let both = (get_account_record session tx.fee_payer one).0 in
      let valid =
        (get_account_record-IsFaithful tx.fee_payer one
          (get_account_record-IsFaithful (sender_of tx) records v).0).0 in
      consume-IsFaithful tx.fee_payer tx.fee
        (consume session (sender_of tx) tx.transferred_value both)
        (consume-IsFaithful (sender_of tx) tx.transferred_value both valid)

  detect_will_fee_exceed_balance-IsFaithful :
      (tx : WrappedTransaction T) (records : Records)
      → IsFaithful records
      → IsFaithful (detect_will_fee_exceed_balance session tx records).0
  unfolding detect_will_fee_exceed_balance
  detect_will_fee_exceed_balance-IsFaithful tx records v = elim (Option-cases tx.fee) [
    | inl absent ↦ rw (absent, detect_will_fee_exceed_balance) v
    | inr (fee, there) ↦
        rw (there, detect_will_fee_exceed_balance)
          (get_account_record-IsFaithful tx.fee_payer records v).0
  ]

  -- a sender that is not skipped has neither gap
  pub detect_skippable_sender-IsFaithful :
      (item : HeapItem T) (records : Records)
      → IsFaithful records
      → IsFaithful (detect_skippable_sender session item records).0
        × ((detect_skippable_sender session item records).1 ≡ false
            → (detect_initial_gap (account_nonce item.sender) item ≡ false)
              × (detect_middle_gap item ≡ false))
  unfolding detect_skippable_sender
  detect_skippable_sender-IsFaithful item records v =
      let (valid, same) = get_nonce-IsFaithful item.sender records v in
      let r = get_nonce session item.sender records in
      let at = ap (λ k. detect_initial_gap k item) same in
      elim (Bool-cases (detect_initial_gap r.1 item)) [
        | inl gap ↦ rw (gap, detect_skippable_sender) (valid, λ e. absurd (cc e))
        | inr fine ↦ elim (Bool-cases (detect_middle_gap item)) [
          | inl gap ↦
              rw (fine, detect_skippable_sender)
                (rw (gap, detect_skippable_sender) (valid, λ e. absurd (cc e)))
          | inr fine' ↦
              rw (fine, detect_skippable_sender)
                (rw (fine', detect_skippable_sender)
                  (
                    detect_will_fee_exceed_balance-IsFaithful item.current_transaction r.0 valid,
                    λ e. (sym at ∙ fine, refl),
                  ))
        ]
      ]

  -- a transaction that is not skipped has no lower nonce and no duplicate one
  pub detect_skippable_transaction-IsFaithful :
      (item : HeapItem T) (records : Records)
      → IsFaithful records
      → IsFaithful (detect_skippable_transaction session item records).0
        × ((detect_skippable_transaction session item records).1 ≡ false
            → (detect_lower_nonce (account_nonce item.sender) item ≡ false)
              × (detect_nonce_duplicate item ≡ false))
  unfolding detect_skippable_transaction
  detect_skippable_transaction-IsFaithful item records v =
      let (valid, same) = get_nonce-IsFaithful item.sender records v in
      let lower = detect_lower_nonce (get_nonce session item.sender records).1 item in
      let guarded = detect_incorrectly_guarded session item in
      let twice = detect_nonce_duplicate item in
      let at = ap (λ k. detect_lower_nonce k item) same in
      (
        valid,
        λ e.
            let r = or-false lower (guarded || twice) e in
            (sym at ∙ r.0, (or-false guarded twice r.1).1),
      )
