-- ===== src/TxBySender/Trimmed.antt =====
-- The removals by nonce of txcache/txListBySenderMap.go: the list of the sender changes, a list that
-- is left empty is taken out, and no other list changes.
use drt_go_chain_storage.Base.{
  ℕ, ◌≡◌, refl, ◌∙◌, subst, true, Option, none, some, List, [], if◌then◌else◌, is_some, arith,
  Option-cases, Bool-cases, inl, inr, WhenSome,
}
use drt_go_chain_storage.Base.Bytes.{Bytes, bytes_beq, bytes_beq_iff}
use drt_go_chain_storage.Core.{Counter, TransactionHandler}
use drt_go_chain_storage.ConcurrentMap.{ConcurrentMap}
use drt_go_chain_storage.ConcurrentMap.Laws
use drt_go_chain_storage.ConcurrentMap.Laws.{remove-view, view}
use drt_go_chain_storage.Wrapped.{WrappedTransaction, sender_of, nonce}
use drt_go_chain_storage.SenderList.{
  TxListForSender, is_empty, remove_transactions_with_lower_or_equal_nonce_return_hashes,
  remove_transactions_with_higher_or_equal_nonce,
}
use drt_go_chain_storage.TxBySender.{
  TxListBySenderMap, write_list, remove_sender, remove_sender_if_empty, remove_lower_or_equal_nonce,
  remove_higher_or_equal_nonce,
}
use drt_go_chain_storage.TxBySender.Named.{remove_lower_sender, remove_higher_sender}
use drt_go_chain_storage.TxBySender.Lists.{
  list_of, get_list_for_sender-list_of, Written, write_list-Written,
}

module _ {T : Type 0} ⦃h : TransactionHandler T⦄ {C : Type 0} ⦃n : Counter C⦄ where
  -- a list in the map, or no list when it is empty
  abbrev pub kept_list : TxListForSender T C → Option (TxListForSender T C)
  kept_list l = if is_empty l then none else some l

  -- each list is stored under the address of its sender
  abbrev pub IsNamed : TxListBySenderMap T C → Type 0
  IsNamed m = (q : Bytes) → WhenSome (λ l. l.sender ≡ q) (list_of q m)

  -- a map in which the list of one sender is `found`
  pub record Trimmed (sender : Bytes) (found : Option (TxListForSender T C))
      (m m' : TxListBySenderMap T C) : Type 0 where
    pub valid : Laws.IsValid m'.backing_map
    pub lists : (q : Bytes) → list_of q m' ≡ (if bytes_beq sender q then found else list_of q m)
    pub constraints : m'.sender_constraints ≡ m.sender_constraints

  removed_view :
      (sender q : Bytes) (l : TxListForSender T C) (m m1 : TxListBySenderMap T C)
      (backing : ConcurrentMap (TxListForSender T C))
      → Written sender l m m1
      → l.sender ≡ sender
      → is_empty l ≡ true
      → ((q : Bytes)
          → view backing q ≡ (if bytes_beq l.sender q then none else view m1.backing_map q))
      → (elim (view backing q) [ none ↦ none | some item ↦ item ])
        ≡ (if bytes_beq sender q then kept_list l else list_of q m)
  removed_view sender q l m m1 backing w same empty views =
      ground (arith, views q, w.lists q, same, empty)

  remove_sender_if_empty-Trimmed :
      (sender : Bytes) (l : TxListForSender T C) (m m1 : TxListBySenderMap T C)
      → l.sender ≡ sender
      → Written sender l m m1
      → (m' : TxListBySenderMap T C) × (remove_sender_if_empty l m1 ≡ some m')
        × Trimmed sender (kept_list l) m m'
  unfolding remove_sender_if_empty remove_sender
  remove_sender_if_empty-Trimmed sender l m m1 same w = elim (Bool-cases (is_empty l)) [
    | inr busy ↦ (
      m1,
      rw (busy, remove_sender_if_empty) refl,
      record {
        valid = w.valid;
        lists = λ q. rw (busy, kept_list) (w.lists q);
        constraints = w.constraints;
      },
    )
    | inl empty ↦
        let (backing, item, is, gone, valid, views, count) =
          remove-view l.sender m1.backing_map w.valid in
        let m2 : TxListBySenderMap T C = record m1 { backing_map = backing } in
        let m3 : TxListBySenderMap T C =
          if is_some item then record m2 { counter = n.decrement m2.counter } else m2 in
        (
          m3,
          rw (empty, remove_sender_if_empty) (rw gone refl),
          record {
            valid = elim (Bool-cases (is_some item)) [
              | inl out ↦ rw out valid
              | inr still ↦ rw still valid
            ];
            lists = λ q.
                let at_backing : list_of q m3
                    ≡ (elim (view backing q) [ none ↦ none | some item ↦ item ]) =
                  elim (Bool-cases (is_some item)) [
                    | inl out ↦ rw (out, list_of) refl
                    | inr still ↦ rw (still, list_of) refl
                  ] in
                at_backing ∙ removed_view sender q l m m1 backing w same empty views;
            constraints = elim (Bool-cases (is_some item)) [
              | inl out ↦ rw out w.constraints
              | inr still ↦ rw still w.constraints
            ];
          },
        )
  ]

  -- the list of a sender after a change that may leave it empty
  rewrite_list-Trimmed :
      (sender : Bytes) (l : TxListForSender T C) (m : TxListBySenderMap T C)
      → l.sender ≡ sender
      → Laws.IsValid m.backing_map
      → (m1 : TxListBySenderMap T C) × (m' : TxListBySenderMap T C) × (write_list sender l m
          ≡ some m1)
        × (remove_sender_if_empty l m1 ≡ some m')
        × Trimmed sender (kept_list l) m m'
  rewrite_list-Trimmed sender l m same v =
      let (m1, run1, w) = write_list-Written sender l m v in
      let (m', run, t) = remove_sender_if_empty-Trimmed sender l m m1 same w in
      (m1, m', run1, run, t)

  -- what is left of the list of a sender, and the evicted hashes
  abbrev pub lowered : ℕ → Option (TxListForSender T C) → Option (TxListForSender T C) × List Bytes
  lowered target none = (none, [])
  lowered target (some l) =
      let r = remove_transactions_with_lower_or_equal_nonce_return_hashes target l in
      (kept_list r.0, r.1)

  abbrev pub raised : ℕ → Option (TxListForSender T C) → Option (TxListForSender T C)
  raised given none = none
  raised given (some l) = kept_list (remove_transactions_with_higher_or_equal_nonce given l)

  untouched-Trimmed :
      (sender : Bytes) (m : TxListBySenderMap T C)
      → Laws.IsValid m.backing_map
      → list_of sender m ≡ none
      → Trimmed sender none m m
  untouched-Trimmed sender m v absent = record {
    valid = v;
    lists = λ q. ground (arith, absent, bytes_beq_iff sender q);
    constraints = refl;
  }

  pub remove_lower_or_equal_nonce-Trimmed :
      (tx : WrappedTransaction T) (m : TxListBySenderMap T C)
      → Laws.IsValid m.backing_map
      → IsNamed m
      → (m' : TxListBySenderMap T C) × (remove_lower_or_equal_nonce tx m
          ≡ some (m', (lowered (nonce tx) (list_of (sender_of tx) m)).1))
        × Trimmed (sender_of tx) (lowered (nonce tx) (list_of (sender_of tx) m)).0 m m'
  unfolding remove_lower_or_equal_nonce remove_transactions_with_lower_or_equal_nonce_return_hashes
  remove_lower_or_equal_nonce-Trimmed tx m v named =
      let sender = sender_of tx in
      let look = get_list_for_sender-list_of sender m v in
      elim (Option-cases (list_of sender m)) [
        | inl absent ↦ (
          m,
          rw (look, remove_lower_or_equal_nonce) (rw (absent, lowered) refl),
          rw (absent, lowered) (untouched-Trimmed sender m v absent),
        )
        | inr (l, there) ↦
            let r = remove_transactions_with_lower_or_equal_nonce_return_hashes (nonce tx) l in
            let same = subst (WhenSome _) there (named sender) in
            let (m1, m', run1, run, t) =
              rewrite_list-Trimmed sender r.0 m (remove_lower_sender (nonce tx) l ∙ same) v in
            (
              m',
              rw (look, remove_lower_or_equal_nonce) (rw (there, lowered) (rw run1 (rw run refl))),
              rw (there, lowered) t,
            )
      ]

  pub remove_higher_or_equal_nonce-Trimmed :
      (sender : Bytes) (given : ℕ) (m : TxListBySenderMap T C)
      → Laws.IsValid m.backing_map
      → IsNamed m
      → (m' : TxListBySenderMap T C) × (remove_higher_or_equal_nonce sender given m ≡ some m')
        × Trimmed sender (raised given (list_of sender m)) m m'
  unfolding remove_higher_or_equal_nonce remove_transactions_with_higher_or_equal_nonce
  remove_higher_or_equal_nonce-Trimmed sender given m v named =
      let look = get_list_for_sender-list_of sender m v in
      elim (Option-cases (list_of sender m)) [
        | inl absent ↦ (
          m,
          rw (look, remove_higher_or_equal_nonce) (rw (absent, raised) refl),
          rw (absent, raised) (untouched-Trimmed sender m v absent),
        )
        | inr (l, there) ↦
            let l' = remove_transactions_with_higher_or_equal_nonce given l in
            let same = subst (WhenSome _) there (named sender) in
            let (m1, m', run1, run, t) =
              rewrite_list-Trimmed sender l' m (remove_higher_sender given l ∙ same) v in
            (
              m',
              rw (look, remove_higher_or_equal_nonce) (rw (there, raised) (rw run1 (rw run refl))),
              rw (there, raised) t,
            )
      ]
