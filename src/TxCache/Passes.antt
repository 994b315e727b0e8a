-- ===== src/TxCache/Passes.antt =====
-- The loops of txcache/eviction.go that pick the transactions of a pass, and what passes leave of the
-- cache.
use drt_go_chain_storage.Base.{
  Bool, false, ◌||◌, if◌then◌else◌, length-snoc, ℕ, zero, suc, ◌+◌, ◌<◌, ◌≤◌, ◌≡◌, refl, ◌∙◌, ap,
  true, none, some, List, [], ◌∷◌, ◌++◌, map, arith, Option-cases, Bool-cases, inl, inr, ltb,
  length, All,
}
use drt_go_chain_storage.Base.Bytes.{Bytes, bytes_eq}
use drt_go_chain_storage.Base.Bag.{sum_of, sum_of-SameBag, All-SameBag, same_symm}
use drt_go_chain_storage.Base.Heap
use drt_go_chain_storage.Base.Heap.Order.Queue.{pop-empty}
use drt_go_chain_storage.Core.{Counter, CounterLaws, Flag, TransactionHandler}
use drt_go_chain_storage.Wrapped.{WrappedTransaction}
use drt_go_chain_storage.Selection.{HeapItem, min_less, goto_next_transaction}
use drt_go_chain_storage.Selection.Value.{min_less-Priority}
use drt_go_chain_storage.Selection.Items.{left, IsLive, push_next-IsLive}
use drt_go_chain_storage.Selection.Ends.{pop-IsLive}
use drt_go_chain_storage.Selection.Loop.{push_next}
use drt_go_chain_storage.Selection.Limits.{All-append, All-get_elem?, Within, push_next-Within}
use drt_go_chain_storage.TxByHash.Found.{among}
use drt_go_chain_storage.TxCache.{TxCache}
use drt_go_chain_storage.TxCache.Eviction.{
  EvictionJournal, pick_loop, num_left, remove_evicted, is_capacity_exceeded,
}
use drt_go_chain_storage.TxCache.Steps.{
  IsValid, pool_of, found_at, last_nonce, below_lowest, remove_evicted-IsValid,
}

module _ {T : Type 0} ⦃h : TransactionHandler T⦄ where
  pub left-num_left : (heap : List (HeapItem T)) → sum_of left heap ≤ num_left heap
  left-num_left [] = omega arith
  left-num_left (item ∷ heap) = omega (arith, left-num_left heap)

  -- what the loop that picks gives of a heap and of what it has picked before
  pub record Picked (num_items : ℕ) (heap rest : List (HeapItem T))
      (before to_evict : List (WrappedTransaction T)) : Type 0 where
    pub live : IsLive min_less min_less-Priority rest
    pub fewer : length to_evict + sum_of left rest ≤ length before + sum_of left heap
    pub at_most : length before ≤ num_items → length to_evict ≤ num_items
    pub more : length before ≤ length to_evict
    pub from_heap :
        (R : WrappedTransaction T → Bool)
        → All (Within (λ tx. R tx ≡ true)) heap
        → All (λ tx. R tx ≡ true) before
        → All (Within (λ tx. R tx ≡ true)) rest × All (λ tx. R tx ≡ true) to_evict
    pub picks : length before < num_items → 0 < sum_of left heap → length before < length to_evict

  pub pick_loop-Picked :
      (num_items fuel : ℕ) (heap : List (HeapItem T)) (before : List (WrappedTransaction T))
      → IsLive min_less min_less-Priority heap
      → sum_of left heap < fuel
      → (r : List (HeapItem T) × List (WrappedTransaction T)) × (pick_loop num_items fuel heap
            before
          ≡ some r)
        × Picked num_items heap r.0 before r.1
  unfolding pick_loop
  pick_loop-Picked num_items zero heap before v less = absurd (omega arith)
  pick_loop-Picked num_items (suc fuel) heap before v less =
      elim (Option-cases (Heap.pop min_less heap)) [
        | inl empty ↦ (
          (heap, before),
          rw (empty, pick_loop) refl,
          record {
            live = v;
            fewer = omega arith;
            at_most = λ p. p;
            more = omega arith;
            from_heap = λ R all picked. (all, picked);
            picks = λ p q.
                let none_left : heap ≡ [] =
                  pop-empty min_less min_less-Priority heap empty v.ordered in
                absurd (omega (arith, ap (sum_of left) none_left, q));
          },
        )
        | inr ((item, rest), popped) ↦
            let (placed, live, same, best) =
              pop-IsLive min_less min_less-Priority heap rest item v popped in
            let sum = sum_of-SameBag left same in
            let (live', less') =
              push_next-IsLive min_less min_less-Priority item rest placed live in
            let next = push_next min_less (goto_next_transaction item) rest in
            elim (Bool-cases (ltb (length before) num_items)) [
              | inr full ↦ (
                (rest, before),
                rw (popped, pick_loop) (rw (full, pick_loop) refl),
                record {
                  live = live;
                  fewer = omega (arith, sum);
                  at_most = λ p. p;
                  more = omega arith;
                  from_heap = λ R all picked.
                      ((All-SameBag (Within (λ tx. R tx ≡ true)) (same_symm same) all).1, picked);
                  picks = λ p q. ground (arith, full, p);
                },
              )
              | inl room ↦
                  let (r, run, k) =
                    pick_loop-Picked num_items fuel next (before ++ item.current_transaction ∷ [])
                      live' (omega (arith, less, less', sum)) in
                  let one = length-snoc before item.current_transaction in
                  (
                    r,
                    rw (popped, pick_loop) (rw (room, pick_loop) run),
                    record {
                      live = k.live;
                      fewer = omega (arith, k.fewer, one, less', sum);
                      at_most = λ p. k.at_most (ground (arith, room, one));
                      more = omega (arith, k.more, one);
                      from_heap = λ R all picked.
                          let P : WrappedTransaction T → Type 0 = λ tx. R tx ≡ true in
                          let (w, others) = All-SameBag (Within P) (same_symm same) all in
                          k.from_heap R
                            (push_next-Within min_less min_less-Priority P item rest live w others)
                            (All-append P before item.current_transaction picked (
                              All-get_elem? P item.bunch item.current_transaction_index
                                item.current_transaction w placed.here));
                      picks = λ p q. omega (arith, k.more, one);
                    },
                  )
            ]
      ]

module _ {T : Type 0} ⦃h : TransactionHandler T⦄ where
  -- what passes leave of the list of a sender: each takes out the transactions from the nonce of the
  -- last transaction that it has picked of the sender on
  abbrev pub cut_by :
      Bytes
      → List (List (WrappedTransaction T))
      → List (WrappedTransaction T)
      → List (WrappedTransaction T)
  cut_by q [] l = l
  cut_by q (picked ∷ passes) l = cut_by q passes (below_lowest (last_nonce q picked) l)

  -- whether one of the passes has picked the hash
  abbrev pub is_picked : Bytes → List (List (WrappedTransaction T)) → Bool
  is_picked q [] = false
  is_picked q (picked ∷ passes) = among q (map (λ tx. tx.tx_hash) picked) || is_picked q passes

-- the number of evicted transactions is the sum over the passes, each of which has evicted at least
-- one transaction and at most the number of items to evict at once
pub record IsBalanced (num_items : ℕ) (journal : EvictionJournal) : Type 0 where
  pub sum : journal.num_evicted ≡ sum_of (λ k. k) journal.num_evicted_by_pass
  pub passes : All (λ k. (0 < k) × (k ≤ num_items)) journal.num_evicted_by_pass

pub IsBalanced-snoc :
    (num_items num k : ℕ) (l : List ℕ)
    → IsBalanced num_items (record { num_evicted = num; num_evicted_by_pass = l })
    → 0 < k
    → k ≤ num_items
    → IsBalanced num_items (record { num_evicted = num + k; num_evicted_by_pass = l ++ k ∷ [] })
IsBalanced-snoc num_items num k [] b some_k few = record {
  sum = omega (arith, b.sum);
  passes = ((some_k, few), tt);
}
IsBalanced-snoc num_items num k (x ∷ l) b some_k few =
    let r =
      IsBalanced-snoc num_items (sum_of (λ i. i) l) k l (record { sum = refl; passes = b.passes.1 })
        some_k few in
    record { sum = omega (arith, b.sum, r.sum); passes = (b.passes.0, r.passes) }

module _ {T : Type 0} ⦃h : TransactionHandler T⦄ {F C : Type 0} ⦃f : Flag F⦄ ⦃n : Counter C⦄
    (laws : CounterLaws n) where
  -- The cache behind passes that have picked the given transactions: each pass has taken from each
  -- sender of a picked transaction the transactions from the nonce of its last picked one on, and
  -- nothing else, and exactly the hashes of the picked transactions find nothing any more.
  pub record IsEvicted (passes : List (List (WrappedTransaction T))) (cache cache' : TxCache T F C)
      : Type 0 where
    pub valid : IsValid cache'
    pub config : cache'.config ≡ cache.config
    pub cuts : (q : Bytes) → pool_of q cache' ≡ cut_by q passes (pool_of q cache)
    pub found :
        (q : Bytes) → found_at q cache' ≡ (if is_picked q passes then none else found_at q cache)

  pub same-IsEvicted : (cache : TxCache T F C) → IsValid cache → IsEvicted [] cache cache
  same-IsEvicted cache v = record { valid = v; config = refl; cuts = λ q. refl; found = λ q. refl }

  -- a pass ahead of others
  pub cons-IsEvicted :
      (to_evict : List (WrappedTransaction T)) (passes : List (List (WrappedTransaction T)))
      (a b c : TxCache T F C)
      → IsEvicted (to_evict ∷ []) a b
      → IsEvicted passes b c
      → IsEvicted (to_evict ∷ passes) a c
  cons-IsEvicted to_evict passes a b c x y = record {
    valid = y.valid;
    config = y.config ∙ x.config;
    cuts = λ q. y.cuts q ∙ ap (cut_by q passes) (x.cuts q);
    found = λ q. ground (arith, y.found q, x.found q);
  }

  pub remove_evicted-IsEvicted :
      (to_evict : List (WrappedTransaction T)) (cache : TxCache T F C)
      → IsValid cache
      → (cache' : TxCache T F C) × (remove_evicted to_evict cache ≡ some cache')
        × IsEvicted (to_evict ∷ []) cache cache'
  remove_evicted-IsEvicted to_evict cache v =
      let (cache', run, valid, config, pools, at) = remove_evicted-IsValid laws to_evict cache v in
      (
        cache',
        run,
        record { valid = valid; config = config; cuts = pools; found = λ q. ground (arith, at q) },
      )

  pub record PassesDone (heap : List (HeapItem T)) (journal journal' : EvictionJournal)
      (cache cache' : TxCache T F C) : Type 0 where
    pub passes : List (List (WrappedTransaction T))
    pub evicted : IsEvicted passes cache cache'
    pub written : journal'.num_evicted_by_pass ≡ journal.num_evicted_by_pass ++ map length passes
    pub from_heap :
        (R : WrappedTransaction T → Bool)
        → All (Within (λ tx. R tx ≡ true)) heap
        → All (All (λ tx. R tx ≡ true)) passes
    pub balanced :
        IsBalanced cache.config.num_items_to_preemptively_evict journal
        → IsBalanced cache.config.num_items_to_preemptively_evict journal'
    pub bounded : journal'.num_evicted ≤ journal.num_evicted + sum_of left heap
    pub grows : journal.num_evicted ≤ journal'.num_evicted
    pub progress :
        is_capacity_exceeded cache ≡ true
        → 0 < cache.config.num_items_to_preemptively_evict
        → 0 < sum_of left heap
        → journal.num_evicted < journal'.num_evicted
