-- ===== src/TxBySender/Lists.antt =====
-- addTxReturnEvicted of txcache/txListBySenderMap.go: the list of the sender changes as AddTx says,
-- and no other list does.
use drt_go_chain_storage.Base.{
  ◌≡◌, refl, sym, ◌∙◌, ap, subst, Option, none, some, if◌then◌else◌, is_some, add64, arith,
  Option-cases, inl, inr,
}
use drt_go_chain_storage.Base.Bytes.{Bytes, bytes_beq, bytes_beq_iff}
use drt_go_chain_storage.Core.{Counter, CounterLaws, TransactionHandler}
use drt_go_chain_storage.ConcurrentMap.Laws
use drt_go_chain_storage.ConcurrentMap.Laws.{view, set_value-view, get-view}
use drt_go_chain_storage.Wrapped.{WrappedTransaction, sender_of}
use drt_go_chain_storage.SenderList
use drt_go_chain_storage.SenderList.{TxListForSender}
use drt_go_chain_storage.TxBySender.{
  TxListBySenderMap, get_list_for_sender, write_list, add_sender, get_or_add_list_for_sender,
  add_tx_return_evicted,
}

module _ {T : Type 0} ⦃h : TransactionHandler T⦄ {C : Type 0} ⦃n : Counter C⦄ where
  -- the abstract map: the list of a sender
  abbrev pub list_of : Bytes → TxListBySenderMap T C → Option (TxListForSender T C)
  list_of q m = elim (view m.backing_map q) [ none ↦ none | some item ↦ item ]

  pub get_list_for_sender-list_of :
      (q : Bytes) (m : TxListBySenderMap T C)
      → Laws.IsValid m.backing_map
      → get_list_for_sender q m ≡ some (list_of q m)
  unfolding get_list_for_sender
  get_list_for_sender-list_of q m v = elim (Option-cases (view m.backing_map q)) [
    | inl absent ↦ rw ((get-view q m.backing_map v).0, absent, list_of) refl
    | inr (item, there) ↦ rw ((get-view q m.backing_map v).0, there, list_of) refl
  ]

  -- a map in which one list has changed
  pub record Written (sender : Bytes) (l : TxListForSender T C) (m m' : TxListBySenderMap T C)
      : Type 0 where
    pub valid : Laws.IsValid m'.backing_map
    pub lists : (q : Bytes) → list_of q m' ≡ (if bytes_beq sender q then some l else list_of q m)
    pub constraints : m'.sender_constraints ≡ m.sender_constraints
    pub counter : m'.counter ≡ m.counter

  pub write_list-Written :
      (sender : Bytes) (l : TxListForSender T C) (m : TxListBySenderMap T C)
      → Laws.IsValid m.backing_map
      → (m' : TxListBySenderMap T C) × (write_list sender l m ≡ some m') × Written sender l m m'
  unfolding write_list
  write_list-Written sender l m v =
      let (backing, run, valid, views) = set_value-view sender (some l) m.backing_map v in
      (
        record m { backing_map = backing },
        rw run refl,
        record {
          valid = valid;
          lists = λ q. ground (arith, views q);
          constraints = refl;
          counter = refl;
        },
      )

  -- the list that AddTx works on: a new one for a new sender
  abbrev pub list_or_new : Bytes → TxListBySenderMap T C → TxListForSender T C
  list_or_new q m = elim (list_of q m) [
    | none ↦ SenderList.new_tx_list_for_sender q m.sender_constraints
    | some l ↦ l
  ]

  -- what addTxReturnEvicted gives: the map, with the list `l` of the sender
  pub record Grown (sender : Bytes) (l : TxListForSender T C) (m m' : TxListBySenderMap T C)
      : Type 0 where
    pub valid : Laws.IsValid m'.backing_map
    pub lists : (q : Bytes) → list_of q m' ≡ (if bytes_beq sender q then some l else list_of q m)
    pub counter :
        n.get m'.counter
        ≡ (if is_some (list_of sender m) then n.get m.counter else add64 (n.get m.counter) 1)
    pub constraints : m'.sender_constraints ≡ m.sender_constraints

  get_or_add_list_for_sender-Grown :
      (laws : CounterLaws n) (sender : Bytes) (m : TxListBySenderMap T C)
      → Laws.IsValid m.backing_map
      → (m' : TxListBySenderMap T C) × (get_or_add_list_for_sender sender m
          ≡ some (m', list_or_new sender m))
        × Grown sender (list_or_new sender m) m m'
  unfolding get_or_add_list_for_sender add_sender
  get_or_add_list_for_sender-Grown laws sender m v =
      let look = get_list_for_sender-list_of sender m v in
      elim (Option-cases (list_of sender m)) [
        | inr (old, there) ↦
            let here : list_of sender m ≡ some (list_or_new sender m) =
              rw (there, list_or_new) refl in
            (
              m,
              rw (look, here) refl,
              record {
                valid = v;
                lists = λ q. ground (arith, here, bytes_beq_iff sender q);
                counter = rw here refl;
                constraints = refl;
              },
            )
        | inl absent ↦
            let new = SenderList.new_tx_list_for_sender sender m.sender_constraints in
            let same : list_or_new sender m ≡ new = rw (absent, list_or_new) refl in
            let (m', run, w) = write_list-Written sender (list_or_new sender m) m v in
            let run' : write_list sender new m ≡ some m' =
              subst (λ l. write_list sender l m ≡ some m') same run in
            let counted : TxListBySenderMap T C = record m' { counter = n.increment m'.counter } in
            let ran : get_or_add_list_for_sender sender m ≡ some (counted, new) =
              rw (look, absent, run') refl in
            (
              counted,
              subst (λ l. get_or_add_list_for_sender sender m ≡ some (counted, l)) (sym same) ran,
              record {
                valid = w.valid;
                lists = w.lists;
                counter =
                    rw absent
                      (laws.get-increment m'.counter ∙ ap (λ c. add64 (n.get c) 1) w.counter);
                constraints = w.constraints;
              },
            )
      ]

  -- addTxReturnEvicted on a valid map does to the list of the sender, a new one for a new sender,
  -- what AddTx does, returns what AddTx returns, changes no other list, and counts a new sender.
  pub add_tx_return_evicted-Grown :
      (laws : CounterLaws n) (tx : WrappedTransaction T) (m : TxListBySenderMap T C)
      → Laws.IsValid m.backing_map
      → (m' : TxListBySenderMap T C) × (add_tx_return_evicted tx m
          ≡ some (
            m',
            (SenderList.add_tx tx (list_or_new (sender_of tx) m)).1,
            (SenderList.add_tx tx (list_or_new (sender_of tx) m)).2,
          ))
        × Grown (sender_of tx) (SenderList.add_tx tx (list_or_new (sender_of tx) m)).0 m m'
  unfolding add_tx_return_evicted
  add_tx_return_evicted-Grown laws tx m v =
      let sender = sender_of tx in
      let r = SenderList.add_tx tx (list_or_new sender m) in
      let (m1, run1, g) = get_or_add_list_for_sender-Grown laws sender m v in
      let (m', run, w) = write_list-Written sender r.0 m1 g.valid in
      (
        m',
        rw (run1, run) refl,
        record {
          valid = w.valid;
          lists = λ q. ground (arith, w.lists q, g.lists q);
          counter = ap n.get w.counter ∙ g.counter;
          constraints = w.constraints ∙ g.constraints;
        },
      )
