-- ===== src/SenderList/Removal.antt =====
-- The two removals by nonce of txcache/txListForSender.go: on a sorted list, the loop that stops at
-- the first transaction out of range takes out all that are in range.
use drt_go_chain_storage.Base.{
  ℕ, ◌^◌, ◌≤◌, ◌<◌, ◌≡◌, refl, sym, ◌∙◌, ap, subst, List, [], ◌∷◌, ◌++◌, ltb, if◌then◌else◌, All,
  arith, Bool-cases, inl, inr, some, drop_last, last?, map,
}
use drt_go_chain_storage.Base.Bytes.{Bytes}
use drt_go_chain_storage.Base.Linked.{values, DistinctIds, remove_id, remove_id-last}
use drt_go_chain_storage.Core.{Counter, CounterLaws, TransactionHandler}
use drt_go_chain_storage.Wrapped.{WrappedTransaction, nonce}
use drt_go_chain_storage.SenderList.{
  TxListForSender, remove_element, on_removed_list_element, remove_lower_loop,
  remove_transactions_with_lower_or_equal_nonce_return_hashes, remove_higher_loop,
  remove_transactions_with_higher_or_equal_nonce,
}
use drt_go_chain_storage.SenderList.Order.{Before, IsSorted, Before-nonce}
use drt_go_chain_storage.SenderList.Limits.{txs, total, IsValid, remove_last-Shrunk}
use mathlib.Core.List.{
  reverse, append-nil, append_assoc, reverse-append, reverse-reverse, map-append,
}

module _ {T : Type 0} ⦃h : TransactionHandler T⦄ where
  -- the transactions with a nonce above the bound, in order, and the others
  unfoldable pub above : ℕ → List (WrappedTransaction T) → List (WrappedTransaction T)
  above b [] = []
  above b (x ∷ l) = if ltb b (nonce x) then x ∷ above b l else above b l

  unfoldable pub up_to : ℕ → List (WrappedTransaction T) → List (WrappedTransaction T)
  up_to b [] = []
  up_to b (x ∷ l) = if ltb b (nonce x) then up_to b l else x ∷ up_to b l

  unfoldable pub below : ℕ → List (WrappedTransaction T) → List (WrappedTransaction T)
  below b [] = []
  below b (x ∷ l) = if ltb (nonce x) b then x ∷ below b l else below b l

  All-above :
      (b : ℕ) (x : WrappedTransaction T) (l : List (WrappedTransaction T))
      → All (Before x) l
      → b < nonce x
      → (above b l ≡ l) × (up_to b l ≡ [])
  unfolding above up_to
  All-above b x [] p q = (refl, refl)
  All-above b x (y ∷ l) p q = ground (arith, Before-nonce x y p.0, All-above b x l p.1 q)

  module _ {C : Type 0} ⦃n : Counter C⦄ (laws : CounterLaws n) where
    -- taking out the first element
    remove_first-IsValid :
        (l : TxListForSender T C) (x : ℕ × WrappedTransaction T)
        (rest : List (ℕ × WrappedTransaction T))
        → IsValid l
        → l.items.elems ≡ x ∷ rest
        → IsValid (remove_element x l)
          × ((remove_element x l).items.elems ≡ rest)
          × ((remove_element x l).constraints ≡ l.constraints)
    unfolding remove_element on_removed_list_element remove_id
    remove_first-IsValid l x rest v e =
        let gone : remove_id x.0 l.items.elems ≡ rest = rw e (ground arith) in
        let ids = subst (DistinctIds l.items.next) e v.ids in
        let sorted = subst (λ m. IsSorted (values m)) e v.sorted in
        let sizes =
          subst (λ m. All (λ (w : WrappedTransaction T). w.size < 2 ^ 64) (values m)) e v.sizes in
        (
          record {
            ids = rw gone ids.2;
            sorted = rw gone sorted.1;
            sizes = rw gone sizes.1;
            bytes = rw gone (
                omega (
                  arith,
                  laws.get-subtract x.1.size l.total_bytes,
                  v.bytes,
                  ap (λ m. total (values m)) e,
                ));
          },
          gone,
          refl,
        )

    pub record Lowered (target : ℕ) (before : List (WrappedTransaction T)) (l : TxListForSender T C)
        (evicted : List Bytes) (r : TxListForSender T C × List Bytes) : Type 0 where
      pub valid : IsValid r.0
      pub constraints : r.0.constraints ≡ l.constraints
      pub left : txs r.0 ≡ above target before
      pub gone : r.1 ≡ evicted ++ map (λ x. x.tx_hash) (up_to target before)

    remove_lower_loop-Lowered :
        (target : ℕ) (rest : List (ℕ × WrappedTransaction T)) (evicted : List Bytes)
        (l : TxListForSender T C)
        → IsValid l
        → l.items.elems ≡ rest
        → Lowered target (values rest) l evicted (remove_lower_loop target rest evicted l)
    unfolding remove_lower_loop above up_to
    remove_lower_loop-Lowered target [] evicted l v e = record {
      valid = v;
      constraints = refl;
      left = ap values e;
      gone = sym (append-nil evicted);
    }
    remove_lower_loop-Lowered target (x ∷ rest) evicted l v e =
        elim (Bool-cases (ltb target (nonce x.1))) [
          | inl higher ↦
              let sorted = subst (λ m. IsSorted (values m)) e v.sorted in
              let all = All-above target x.1 (values rest) sorted.0 (ground arith) in
              let run : remove_lower_loop target (x ∷ rest) evicted l ≡ (l, evicted) =
                rw higher refl in
              subst (Lowered target (values (x ∷ rest)) l evicted) (sym run) (record {
                valid = v;
                constraints = refl;
                left = rw (higher, all.0) (ap values e);
                gone = rw (higher, all.1) (sym (append-nil evicted));
              })
          | inr lower ↦
              let (v', e', c') = remove_first-IsValid l x rest v e in
              let l' = remove_element x l in
              let r =
                remove_lower_loop-Lowered target rest (evicted ++ x.1.tx_hash ∷ []) l' v' e' in
              let run : remove_lower_loop target (x ∷ rest) evicted l
                  ≡ remove_lower_loop target rest (evicted ++ x.1.tx_hash ∷ []) l' =
                rw lower refl in
              subst (Lowered target (values (x ∷ rest)) l evicted) (sym run) (record {
                valid = r.valid;
                constraints = r.constraints ∙ c';
                left = rw lower r.left;
                gone = rw lower (
                    r.gone
                    ∙ append_assoc evicted (x.1.tx_hash ∷ [])
                        (map (λ y. y.tx_hash) (up_to target (values rest))));
              })
        ]

    -- The removal of lower or equal nonces leaves exactly the transactions with a higher nonce, in
    -- order, and returns the hashes of the others, in order.
    pub remove_lower-above :
        (target : ℕ) (l : TxListForSender T C)
        → IsValid l
        → Lowered target
            (txs l)
            l
            []
            (remove_transactions_with_lower_or_equal_nonce_return_hashes target l)
    unfolding remove_transactions_with_lower_or_equal_nonce_return_hashes
    remove_lower-above target l v = remove_lower_loop-Lowered target l.items.elems [] l v refl

    Before-last :
        (y x : WrappedTransaction T) (l : List (WrappedTransaction T))
        → All (Before y) (l ++ x ∷ [])
        → Before y x
    Before-last y x [] p = p.0
    Before-last y x (z ∷ l) p = Before-last y x l p.1

    below_all :
        (b : ℕ) (x : WrappedTransaction T) (l : List (WrappedTransaction T))
        → IsSorted (l ++ x ∷ [])
        → nonce x < b
        → below b (l ++ x ∷ []) ≡ l ++ x ∷ []
    unfolding below
    below_all b x [] s p = ground arith
    below_all b x (y ∷ l) s p =
        ground (arith, below_all b x l s.1 p, Before-nonce y x (Before-last y x l s.0))

    below_last :
        (b : ℕ) (x : WrappedTransaction T) (l : List (WrappedTransaction T))
        → b ≤ nonce x
        → below b (l ++ x ∷ []) ≡ below b l
    unfolding below
    below_last b x [] p = ground arith
    below_last b x (y ∷ l) p = ground (arith, below_last b x l p)

    pub record Raised (given : ℕ) (before : List (WrappedTransaction T)) (l r : TxListForSender T C)
        : Type 0 where
      pub valid : IsValid r
      pub constraints : r.constraints ≡ l.constraints
      pub left : txs r ≡ below given before

    last-snoc :
        (x : ℕ × WrappedTransaction T) (l : List (ℕ × WrappedTransaction T))
        → (last? (l ++ x ∷ []) ≡ some x) × (drop_last (l ++ x ∷ []) ≡ l)
    last-snoc x [] = (refl, refl)
    last-snoc x (y ∷ []) = (refl, refl)
    last-snoc x (y ∷ z ∷ l) = let r = last-snoc x (z ∷ l) in (r.0, ap (◌∷◌ y) r.1)

    remove_higher_loop-Raised :
        (given : ℕ) (rest : List (ℕ × WrappedTransaction T)) (l : TxListForSender T C)
        → IsValid l
        → l.items.elems ≡ reverse rest
        → Raised given (txs l) l (remove_higher_loop given rest l)
    unfolding remove_higher_loop below remove_element on_removed_list_element
    remove_higher_loop-Raised given [] l v e = record {
      valid = v;
      constraints = refl;
      left = rw (ap values e) refl;
    }
    remove_higher_loop-Raised given (x ∷ rest) l v e =
        let snoc : l.items.elems ≡ reverse rest ++ x ∷ [] = e ∙ reverse-append (x ∷ []) rest in
        let ends = last-snoc x (reverse rest) in
        let all : txs l ≡ values (reverse rest) ++ x.1 ∷ [] =
          ap values snoc ∙ map-append (λ y. y.1) (reverse rest) (x ∷ []) in
        elim (Bool-cases (ltb (nonce x.1) given)) [
          | inl lower ↦
              let run : remove_higher_loop given (x ∷ rest) l ≡ l = rw lower refl in
              let same =
                below_all given x.1 (values (reverse rest)) (subst IsSorted all v.sorted)
                  (ground arith) in
              subst (Raised given (txs l) l) (sym run) (record {
                valid = v;
                constraints = refl;
                left = all ∙ sym same ∙ ap (below given) (sym all);
              })
          | inr higher ↦
              let l' = remove_element x l in
              let s = remove_last-Shrunk laws l x.0 x.1 v (rw snoc ends.0) in
              let gone : l'.items.elems ≡ reverse rest =
                remove_id-last l.items.next x.0 x.1 l.items.elems v.ids (rw snoc ends.0)
                ∙ ap drop_last snoc
                ∙ ends.1 in
              let r = remove_higher_loop-Raised given rest l' s.valid gone in
              let run : remove_higher_loop given (x ∷ rest) l ≡ remove_higher_loop given rest l' =
                rw higher refl in
              let same = below_last given x.1 (values (reverse rest)) (ground arith) in
              subst (Raised given (txs l) l) (sym run) (record {
                valid = r.valid;
                constraints = r.constraints ∙ s.constraints;
                left =
                    r.left
                    ∙ ap (λ m. below given (values m)) gone
                    ∙ sym same
                    ∙ ap (below given) (sym all);
              })
        ]

    -- The removal of higher or equal nonces leaves exactly the transactions with a lower nonce, in
    -- order.
    pub remove_higher-below :
        (given : ℕ) (l : TxListForSender T C)
        → IsValid l
        → Raised given (txs l) l (remove_transactions_with_higher_or_equal_nonce given l)
    unfolding remove_transactions_with_higher_or_equal_nonce
    remove_higher-below given l v =
        remove_higher_loop-Raised given (reverse l.items.elems) l v
          (sym (reverse-reverse l.items.elems))
