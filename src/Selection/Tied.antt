-- ===== src/Selection/Tied.antt =====
-- The items of the heap of txcache/selection.go against the nonces selected of one sender.
use drt_go_chain_storage.Base.{
  length-snoc, ℕ, zero, suc, ◌+◌, ◌≤◌, ◌≡◌, refl, sym, ◌∙◌, ap, true, false, List, [], ◌∷◌, ◌++◌,
  arith, length, All, Bool-cases, inl, inr, if◌then◌else◌, is_some,
}
use drt_go_chain_storage.Base.Bag.{sum_of}
use drt_go_chain_storage.Base.Bytes.{Bytes, bytes_beq, bytes_beq_iff}
use drt_go_chain_storage.Core.{TransactionHandler}
use drt_go_chain_storage.Wrapped.{WrappedTransaction, nonce as nonce_of, sender_of}
use drt_go_chain_storage.Selection.{
  HeapItem, SelectionSession, max_less, select_current_transaction, goto_next_transaction,
}
use drt_go_chain_storage.Selection.Value.{max_less-Priority}
use drt_go_chain_storage.Selection.Items.{IsPlaced, IsLive, push_next-All}
use drt_go_chain_storage.Selection.Loop.{push_next}
use drt_go_chain_storage.Selection.Limits.{All-get_elem?}
use drt_go_chain_storage.Selection.Records.{account_nonce}
use drt_go_chain_storage.Selection.Bunches.{IsSteady, is_of, goto_next_transaction-IsSteady}

-- the numbers from the first one on
abbrev pub range : ℕ → ℕ → List ℕ
range first zero = []
range first (suc n) = first ∷ range (suc first) n

range-snoc : (first n : ℕ) → range first (suc n) ≡ range first n ++ (first + n) ∷ []
range-snoc first zero = ap (◌∷◌ first) refl ∙ ap (λ k. k ∷ []) (omega arith)
range-snoc first (suc n) =
    ap (◌∷◌ first)
      (range-snoc (suc first) n ∙ ap (λ k. range (suc first) n ++ k ∷ []) (omega arith))

module _ {T : Type 0} ⦃h : TransactionHandler T⦄ where
  -- the nonces of the transactions of a sender
  abbrev pub nonces_of : Bytes → List (WrappedTransaction T) → List ℕ
  nonces_of k [] = []
  nonces_of k (tx ∷ txs) =
      if bytes_beq (sender_of tx) k then nonce_of tx ∷ nonces_of k txs else nonces_of k txs

  nonces_of-snoc :
      (k : Bytes) (txs : List (WrappedTransaction T)) (tx : WrappedTransaction T)
      → nonces_of k (txs ++ tx ∷ []) ≡ (
          if bytes_beq (sender_of tx) k
          then nonces_of k txs ++ nonce_of tx ∷ []
          else nonces_of k txs)
  nonces_of-snoc k [] tx = refl
  nonces_of-snoc k (x ∷ txs) tx = ground (arith, nonces_of-snoc k txs tx)

  -- no item of the sender
  none_of :
      (k : Bytes) (heap : List (HeapItem T))
      → sum_of (is_of k) heap ≡ 0
      → All (λ item. bytes_beq item.sender k ≡ false) heap
  none_of k [] e = tt
  none_of k (item ∷ heap) e = (ground (arith, e), none_of k heap (omega (arith, e)))

  pub select_current_transaction-IsPlaced :
      (item : HeapItem T) → IsPlaced item → IsPlaced (select_current_transaction item).0
  unfolding select_current_transaction
  select_current_transaction-IsPlaced item p = record { here = p.here; nonce = p.nonce }

  module _ (session : SelectionSession T) (k : Bytes) where
    -- an item of the sender has selected as many nonces as there are, or none
    abbrev IsLinked : ℕ → HeapItem T → Type 0
    IsLinked n item =
        bytes_beq item.sender k ≡ true
        → (if is_some item.latest_selected_transaction
            then suc item.latest_selected_transaction_nonce
            else account_nonce session k)
          ≡ account_nonce session k + n

    abbrev pub IsTied : ℕ → HeapItem T → Type 0
    IsTied n item = IsSteady item × IsLinked n item

    -- items of other senders are tied to any number
    retie :
        (n m : ℕ) (heap : List (HeapItem T))
        → All (IsTied n) heap
        → All (λ item. bytes_beq item.sender k ≡ false) heap
        → All (IsTied m) heap
    retie n m [] all other = tt
    retie n m (item ∷ heap) all other =
        ((all.0.0, λ e. absurd (cc (e, other.0))), retie n m heap all.1 other.1)

    -- items that have selected nothing are tied to no number of nonces
    pub tie_fresh :
        (heap : List (HeapItem T))
        → All (λ item. IsSteady item × (is_some item.latest_selected_transaction ≡ false)) heap
        → All (IsTied 0) heap
    tie_fresh [] all = tt
    tie_fresh (item ∷ heap) all = ((all.0.0, λ e. rw all.0.1 (omega arith)), tie_fresh heap all.1)

    -- the state between two rounds
    pub record Consecutive (selected : List (WrappedTransaction T)) (heap : List (HeapItem T))
        : Type 0 where
      pub tied : All (IsTied (length (nonces_of k selected))) heap
      pub nonces :
          nonces_of k selected ≡ range (account_nonce session k) (length (nonces_of k selected))

    goto_next_transaction-IsTied :
        (n : ℕ) (item : HeapItem T)
        → IsPlaced item
        → IsTied n item
        → IsTied n (goto_next_transaction item).0
    goto_next_transaction-IsTied n item p (s, link) =
        let (steady, sender, latest, nonce) = goto_next_transaction-IsSteady item p s in
        (steady, λ e. rw (latest, nonce) (link (sym (ap (λ q. bytes_beq q k) sender) ∙ e)))

    -- The step to the next transaction of an item, which may be pushed.
    pub step-Consecutive :
        (selected : List (WrappedTransaction T)) (item : HeapItem T) (heap : List (HeapItem T))
        → IsPlaced item
        → IsLive max_less max_less-Priority heap
        → IsTied (length (nonces_of k selected)) item
        → Consecutive selected heap
        → Consecutive selected (push_next max_less (goto_next_transaction item) heap)
    step-Consecutive selected item heap p v t c = record {
      tied =
          push_next-All max_less max_less-Priority (IsTied (length (nonces_of k selected))) item
            heap v (goto_next_transaction-IsTied (length (nonces_of k selected)) item p t) c.tied;
      nonces = c.nonces;
    }

    -- the selection of the transaction at which the item stands
    pub take-Consecutive :
        (selected : List (WrappedTransaction T)) (item : HeapItem T) (heap : List (HeapItem T))
        → IsPlaced item
        → is_of k item + sum_of (is_of k) heap ≤ 1
        → IsTied (length (nonces_of k selected)) item
        → Consecutive selected heap
        → item.current_transaction_nonce ≡ (
            if is_some item.latest_selected_transaction
            then suc item.latest_selected_transaction_nonce
            else account_nonce session item.sender)
        → IsTied
            (length (nonces_of k (selected ++ item.current_transaction ∷ [])))
            (select_current_transaction item).0
          × Consecutive (selected ++ item.current_transaction ∷ []) heap
    unfolding select_current_transaction
    take-Consecutive selected item heap p single (s, link) c next =
        let tx = item.current_transaction in
        let m = length (nonces_of k selected) in
        let own : sender_of tx ≡ item.sender =
          All-get_elem? (λ tx. sender_of tx ≡ item.sender) item.bunch item.current_transaction_index
            tx s.own p.here in
        let more = nonces_of-snoc k selected tx in
        let same : bytes_beq (sender_of tx) k ≡ bytes_beq item.sender k =
          ap (λ q. bytes_beq q k) own in
        let steady : IsSteady (select_current_transaction item).0 = record {
          own = s.own;
          rising = s.rising;
          past = λ e. omega arith;
        } in
        elim (Bool-cases (bytes_beq item.sender k)) [
          | inr other ↦
              let kept : nonces_of k (selected ++ tx ∷ []) ≡ nonces_of k selected =
                more ∙ rw (same, other) refl in
              (
                (steady, λ e. absurd (cc (e, other))),
                record { tied = rw kept c.tied; nonces = rw kept c.nonces },
              )
          | inl mine ↦
              let at : account_nonce session item.sender ≡ account_nonce session k =
                ap (account_nonce session) ((bytes_beq_iff item.sender k).0 mine) in
              let before =
                ap
                  (λ a.
                    if is_some item.latest_selected_transaction
                    then suc item.latest_selected_transaction_nonce
                    else a)
                  at in
              let here : nonce_of tx ≡ account_nonce session k + m =
                sym p.nonce ∙ next ∙ before ∙ link mine in
              let grown : nonces_of k (selected ++ tx ∷ [])
                  ≡ nonces_of k selected ++ nonce_of tx ∷ [] =
                more ∙ rw (same, mine) refl in
              let longer : length (nonces_of k (selected ++ tx ∷ [])) ≡ suc m =
                ap length grown ∙ length-snoc (nonces_of k selected) (nonce_of tx) in
              (
                (steady, λ e. omega (arith, longer, here, p.nonce)),
                record {
                  tied =
                      retie m (length (nonces_of k (selected ++ tx ∷ []))) heap c.tied
                        (none_of k heap (ground (arith, single, mine)));
                  nonces =
                      grown
                      ∙ ap (λ l. l ++ nonce_of tx ∷ []) c.nonces
                      ∙ ap (λ x. range (account_nonce session k) m ++ x ∷ []) here
                      ∙ sym (range-snoc (account_nonce session k) m)
                      ∙ ap (range (account_nonce session k)) (sym longer);
                },
              )
        ]
