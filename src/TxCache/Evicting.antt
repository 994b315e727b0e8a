-- ===== src/TxCache/Evicting.antt =====
-- The loop over the passes and doEviction of txcache/eviction.go.
use drt_go_chain_storage.Base.{
  All, Bool, append_cons, append_nil, ◌∙◌, ℕ, zero, suc, ◌<◌, ◌≤◌, ◌≡◌, refl, sym, subst, true,
  false, Option, none, some, List, [], ◌∷◌, map, arith, Bool-cases, inl, inr, ◌⊎◌, ◌>>=◌, length,
}
use drt_go_chain_storage.Base.Bag.{sum_of}
use drt_go_chain_storage.Core.{Counter, CounterLaws, Flag, FlagLaws, TransactionHandler}
use drt_go_chain_storage.SenderList.{get_txs_reversed}
use drt_go_chain_storage.Wrapped.{WrappedTransaction}
use drt_go_chain_storage.Selection.{HeapItem, min_less}
use drt_go_chain_storage.Selection.Value.{min_less-Priority}
use drt_go_chain_storage.Selection.Items.{empty_heap-IsLive, left, IsLive, push_bunches-IsLive}
use drt_go_chain_storage.Selection.Loop.{push_bunches, count_txs}
use drt_go_chain_storage.Selection.Limits.{push_bunches-Within}
use drt_go_chain_storage.TxCache.{TxCache, get_senders, num_bytes, count_tx, count_senders}
use drt_go_chain_storage.TxCache.Eviction.{
  EvictionJournal, num_left, remove_evicted, write_journal, pass_loop, is_capacity_exceeded,
  are_there_too_many_bytes, are_there_too_many_senders, are_there_too_many_txs,
  evict_least_likely_to_select_transactions, do_eviction,
}
use drt_go_chain_storage.TxCache.Steps.{IsValid}
use drt_go_chain_storage.TxCache.Passes.{
  left-num_left, Picked, pick_loop-Picked, IsBalanced, IsBalanced-snoc, IsEvicted, same-IsEvicted,
  cons-IsEvicted, remove_evicted-IsEvicted, PassesDone,
}

module _ {T : Type 0} ⦃h : TransactionHandler T⦄ {F C : Type 0} ⦃f : Flag F⦄ ⦃n : Counter C⦄
    (laws : CounterLaws n) where
  stopped-PassesDone :
      (heap : List (HeapItem T)) (journal : EvictionJournal) (cache : TxCache T F C)
      → IsValid cache
      → (is_capacity_exceeded cache ≡ true
          → 0 < cache.config.num_items_to_preemptively_evict
          → 0 < sum_of left heap
          → journal.num_evicted < journal.num_evicted)
      → PassesDone laws heap journal journal cache cache
  stopped-PassesDone heap journal cache v p = record {
    passes = [];
    evicted = same-IsEvicted laws cache v;
    from_heap = λ R all. tt;
    written = sym (append_nil journal.num_evicted_by_pass);
    balanced = λ b. b;
    bounded = omega arith;
    grows = omega arith;
    progress = p;
  }

  -- the loop behind a pass that has picked its transactions, given what the next round does
  after_pick :
      (fuel : ℕ) (heap : List (HeapItem T)) (journal : EvictionJournal) (cache : TxCache T F C)
      → IsValid cache
      → sum_of left heap < suc fuel
      → ((rest : List (HeapItem T)) (written : EvictionJournal) (cache1 : TxCache T F C)
          → IsValid cache1
          → IsLive min_less min_less-Priority rest
          → sum_of left rest < fuel
          → (r : TxCache T F C × EvictionJournal) × (pass_loop fuel rest written cache1 ≡ some r)
            × PassesDone laws rest written r.1 cache1 r.0)
      → (rest : List (HeapItem T)) (to_evict : List (WrappedTransaction T))
      → Picked cache.config.num_items_to_preemptively_evict heap rest [] to_evict
      → (r : TxCache T F C × EvictionJournal) × ((elim to_evict [
        | [] ↦ some (cache, journal)
        | first ∷ others ↦ do
          cache' ← remove_evicted (first ∷ others) cache
          pass_loop fuel rest (write_journal (first ∷ others) journal) cache'
      ])
          ≡ some r)
        × PassesDone laws heap journal r.1 cache r.0
  unfolding write_journal
  after_pick fuel heap journal cache v less again rest [] k = (
    (cache, journal),
    refl,
    stopped-PassesDone heap journal cache v (λ p q s. absurd (omega (arith, k.picks q s))),
  )
  after_pick fuel heap journal cache v less again rest (first ∷ others) k =
      let to_evict = first ∷ others in
      let (cache1, run1, e) = remove_evicted-IsEvicted laws to_evict cache v in
      let written = write_journal to_evict journal in
      let (r, run, d) = again rest written cache1 e.valid k.live (omega (arith, k.fewer, less)) in
      (
        r,
        rw run1 run,
        record {
          passes = to_evict ∷ d.passes;
          from_heap =
              λ R all. let (kept, picked) = k.from_heap R all tt in (picked, d.from_heap R kept);
          evicted = cons-IsEvicted laws to_evict d.passes cache cache1 r.0 e d.evicted;
          written =
              d.written
              ∙ append_cons journal.num_evicted_by_pass (length to_evict) (map length d.passes);
          balanced = λ b.
              let step =
                IsBalanced-snoc cache.config.num_items_to_preemptively_evict journal.num_evicted
                  (length to_evict) journal.num_evicted_by_pass b (omega arith)
                  (k.at_most (omega arith)) in
              subst (λ c. IsBalanced c.num_items_to_preemptively_evict r.1) e.config
                (d.balanced (
                  subst (λ c. IsBalanced c.num_items_to_preemptively_evict written) (sym e.config)
                    step));
          bounded = omega (arith, d.bounded, k.fewer);
          grows = omega (arith, d.grows);
          progress = λ p q s. omega (arith, d.grows);
        },
      )

  pass_loop-PassesDone :
      (fuel : ℕ) (heap : List (HeapItem T)) (journal : EvictionJournal) (cache : TxCache T F C)
      → IsValid cache
      → IsLive min_less min_less-Priority heap
      → sum_of left heap < fuel
      → (r : TxCache T F C × EvictionJournal) × (pass_loop fuel heap journal cache ≡ some r)
        × PassesDone laws heap journal r.1 cache r.0
  unfolding pass_loop write_journal
  pass_loop-PassesDone zero heap journal cache v live less = absurd (omega arith)
  pass_loop-PassesDone (suc fuel) heap journal cache v live less =
      elim (Bool-cases (is_capacity_exceeded cache)) [
        | inr fits ↦ (
          (cache, journal),
          rw (fits, pass_loop) refl,
          stopped-PassesDone heap journal cache v (λ p. absurd (cc (p, fits))),
        )
        | inl over ↦
            let num = cache.config.num_items_to_preemptively_evict in
            let ((rest, to_evict), run, k) =
              pick_loop-Picked num (suc (num_left heap)) heap [] live
                (omega (arith, left-num_left heap)) in
            rw (over, pass_loop)
              (rw (run, pass_loop)
                (after_pick fuel heap journal cache v less (pass_loop-PassesDone fuel) rest to_evict
                  k))
      ]

  -- the number of transactions that an eviction can see
  abbrev pub num_candidates : TxCache T F C → ℕ
  num_candidates cache = count_txs (map get_txs_reversed (get_senders cache))

  -- the cache and the journal behind an eviction
  pub record EvictionDone (cache cache' : TxCache T F C) (journal : EvictionJournal) : Type 0 where
    pub passes : List (List (WrappedTransaction T))
    pub evicted : IsEvicted laws passes cache cache'
    pub of_senders :
        (R : WrappedTransaction T → Bool)
        → All (All (λ tx. R tx ≡ true)) (map get_txs_reversed (get_senders cache))
        → All (All (λ tx. R tx ≡ true)) passes
    pub written : journal.num_evicted_by_pass ≡ map length passes
    pub balanced : IsBalanced cache.config.num_items_to_preemptively_evict journal
    pub bounded : journal.num_evicted ≤ num_candidates cache
    pub progress :
        (is_capacity_exceeded cache ≡ false)
        ⊎ ((cache.config.num_items_to_preemptively_evict ≡ 0)
            ⊎ ((num_candidates cache ≡ 0) ⊎ (0 < journal.num_evicted)))

  -- On a valid cache the eviction comes to an end, every loop within one round for each transaction
  -- and one more, and leaves a valid cache with the same configuration. The journal has one number
  -- for each pass, that of the transactions that the pass picked; there is a list of passes with
  -- those numbers, and every Boolean test that holds of all transactions of the senders holds of
  -- the picked ones. Each pass takes from the list of each sender of a picked transaction exactly
  -- the transactions from the nonce of its last picked one on, and the lists of the other senders
  -- are as before. A hash finds nothing if a pass picked it, and what it found before if not. Each
  -- pass picks at least one transaction and at most the number of items to evict at once, the
  -- number of evicted transactions is the sum over the passes and at most the number of
  -- transactions of the senders, and it is not zero if the capacity is exceeded, the senders have a
  -- transaction and the number of items to evict at once is not zero.
  pub evict_least_likely_to_select_transactions-EvictionDone :
      (cache : TxCache T F C)
      → IsValid cache
      → (r : TxCache T F C × EvictionJournal) × (evict_least_likely_to_select_transactions cache
          ≡ some r)
        × EvictionDone cache r.0 r.1
  unfolding evict_least_likely_to_select_transactions
  evict_least_likely_to_select_transactions-EvictionDone cache v =
      let bunches = map get_txs_reversed (get_senders cache) in
      let empty : EvictionJournal = record { num_evicted = 0; num_evicted_by_pass = [] } in
      let (live, sum) =
        push_bunches-IsLive min_less min_less-Priority bunches []
          (empty_heap-IsLive min_less min_less-Priority) in
      let (r, run, d) =
        pass_loop-PassesDone (suc (count_txs bunches)) (push_bunches min_less bunches []) empty
          cache v live (omega (arith, sum)) in
      (
        r,
        run,
        record {
          passes = d.passes;
          evicted = d.evicted;
          of_senders = λ R all. d.from_heap R (
              push_bunches-Within min_less min_less-Priority (λ tx. R tx ≡ true) bunches []
                (empty_heap-IsLive min_less min_less-Priority) all tt);
          written = d.written;
          balanced = d.balanced (record { sum = refl; passes = tt });
          bounded = omega (arith, d.bounded, sum);
          progress = elim (Bool-cases (is_capacity_exceeded cache)) [
            | inr fits ↦ inl fits
            | inl over ↦ inr (ground (arith, d.progress over, sum))
          ];
        },
      )

  -- what doEviction returns: nothing is done while another eviction is in progress or when the
  -- capacity is not exceeded
  abbrev pub DoEvictionOutcome : TxCache T F C → TxCache T F C → Option EvictionJournal → Type 0
  DoEvictionOutcome cache cache' none =
      (cache' ≡ cache)
      × ((f.is_set cache.is_eviction_in_progress ≡ true) ⊎ (is_capacity_exceeded cache ≡ false))
  DoEvictionOutcome cache cache' (some journal) =
      (f.is_set cache.is_eviction_in_progress ≡ false)
      × (is_capacity_exceeded cache ≡ true)
      × (f.is_set cache'.is_eviction_in_progress ≡ false)
      × EvictionDone cache cache' journal

  -- On a valid cache doEviction comes to an end and leaves a valid cache. It changes nothing and
  -- returns no journal exactly when an eviction is in progress or the capacity is not exceeded;
  -- else the passes of the journal have picked transactions of which every Boolean test holds that
  -- holds of all transactions of the senders, taken from the list of each sender of a picked
  -- transaction exactly the transactions from the nonce of its last picked one on, and left nothing
  -- under exactly the picked hashes, and the flag of the eviction is not set at the end. The flag
  -- does what an atomic flag does.
  pub do_eviction-DoEvictionOutcome :
      (flag_laws : FlagLaws f) (cache : TxCache T F C)
      → IsValid cache
      → (r : TxCache T F C × Option EvictionJournal) × (do_eviction cache ≡ some r)
        × DoEvictionOutcome cache r.0 r.1
        × IsValid r.0
  unfolding do_eviction get_senders is_capacity_exceeded are_there_too_many_bytes
      are_there_too_many_senders are_there_too_many_txs num_bytes count_tx count_senders
  do_eviction-DoEvictionOutcome flag_laws cache v =
      elim (Bool-cases (f.is_set cache.is_eviction_in_progress)) [
        | inl busy ↦ ((cache, none), rw (busy, do_eviction) refl, (refl, inl busy), v)
        | inr free ↦ elim (Bool-cases (is_capacity_exceeded cache)) [
          | inr fits ↦ (
            (cache, none),
            rw (free, do_eviction) (rw (fits, do_eviction) refl),
            (refl, inr fits),
            v,
          )
          | inl over ↦
              let marked : TxCache T F C = record cache {
                is_eviction_in_progress =
                    (f.set_returning_previous cache.is_eviction_in_progress).0;
              } in
              let ((evicted, journal), run, d) =
                evict_least_likely_to_select_transactions-EvictionDone marked
                  (record { by_hash = v.by_hash; by_sender = v.by_sender }) in
              let cache' : TxCache T F C = record evicted {
                is_eviction_in_progress = f.reset evicted.is_eviction_in_progress;
              } in
              (
                (cache', some journal),
                rw (free, do_eviction) (rw (over, do_eviction) (rw run refl)),
                (
                  free,
                  over,
                  flag_laws.is_set-reset evicted.is_eviction_in_progress,
                  record {
                    passes = d.passes;
                    evicted = record {
                      valid = record {
                        by_hash = d.evicted.valid.by_hash;
                        by_sender = d.evicted.valid.by_sender;
                      };
                      config = d.evicted.config;
                      cuts = d.evicted.cuts;
                      found = d.evicted.found;
                    };
                    of_senders = d.of_senders;
                    written = d.written;
                    balanced = d.balanced;
                    bounded = d.bounded;
                    progress = d.progress;
                  },
                ),
                record { by_hash = d.evicted.valid.by_hash; by_sender = d.evicted.valid.by_sender },
              )
        ]
      ]
