-- ===== src/Immunity/Chunk/Room.antt =====
-- evictItemsNoLock and evictItemsIfCapacityExceededNoLock of immunitycache/chunk.go: the eviction
-- ahead of an insertion.
pub mod OnLists
use drt_go_chain_storage.Base.{
  subst, sym, ℕ, zero, suc, ◌+◌, ◌≤◌, ◌<◌, ◌≡◌, ◌≢◌, ◌⊎◌, refl, ◌∙◌, ap, Bool, true, false, some,
  ◌==◌, ◌&&◌, length, length-map, arith, inl, inr, Bool-cases, ==_iff,
}
use drt_go_chain_storage.Base.Bytes.{bytes_eq}
use drt_go_chain_storage.Core.{Flag, Maxima, MaximaLaws}
use drt_go_chain_storage.Immunity.Chunk.{
  ImmunityChunk, remove_oldest_no_lock, evict_loop, is_capacity_exceeded_no_lock,
  evict_items_no_lock, evict_items_if_capacity_exceeded_no_lock,
}
use drt_go_chain_storage.Immunity.Chunk.Valid.{stored, IsValid}
use drt_go_chain_storage.Immunity.Chunk.Room.OnLists.{
  AllImmune, is_stuck, Rounds, no-Rounds, one_more-Rounds, without_oldest-AllImmune,
  is_capacity_exceeded-exceeds,
}
use drt_go_chain_storage.Immunity.Chunk.Evict.{
  without_oldest, Evicted, Evicted-refl, Evicted-trans, remove_oldest_no_lock-without_oldest,
}

module _ {P F : Type 0} ⦃f : Flag F⦄ (m : Maxima) (laws : MaximaLaws m) where
  next_round :
      (fuel in_step removed : ℕ) (chunk chunk' : ImmunityChunk P F)
      → length (stored chunk) + 2 ≤ suc fuel
        ⊎ (0 < suc fuel) × (in_step ≢ chunk.config.num_items_to_preemptively_evict)
      → length (stored chunk') + removed ≡ length (stored chunk)
      → chunk'.config ≡ chunk.config
      → 0 < chunk.config.num_items_to_preemptively_evict
      → in_step == chunk.config.num_items_to_preemptively_evict ≡ true
      → length (stored chunk') + 2 ≤ fuel
        ⊎ (0 < fuel) × (removed ≢ chunk'.config.num_items_to_preemptively_evict)
  next_round fuel in_step removed chunk chunk' (inr other) counted same positive go =
      absurd (other.1 ((==_iff in_step chunk.config.num_items_to_preemptively_evict).0 go))
  next_round fuel in_step removed chunk chunk' (inl enough) counted same positive go =
      elim (Bool-cases (removed == chunk.config.num_items_to_preemptively_evict)) [
        | inl full ↦ inl (
            omega (
              arith,
              enough,
              counted,
              positive,
              (==_iff removed chunk.config.num_items_to_preemptively_evict).0 full,
            ))
        | inr short ↦ inr (
          omega (arith, enough),
          rw same (λ e.
              ground
                (arith, short, (==_iff removed chunk.config.num_items_to_preemptively_evict).1 e)),
        )
      ]

  -- a round that takes less than the step has left nothing but immune items
  spent_after :
      (chunk chunk' : ImmunityChunk P F) (removed : ℕ)
      → chunk'.config ≡ chunk.config
      → stored chunk' ≡ without_oldest chunk.config.num_items_to_preemptively_evict (stored chunk)
      → length (stored chunk') + removed ≡ length (stored chunk)
      → (removed ≡ chunk'.config.num_items_to_preemptively_evict) ⊎ AllImmune (stored chunk')
  spent_after chunk chunk' removed same left counted =
      let step = chunk.config.num_items_to_preemptively_evict in
      elim (Bool-cases (removed == step)) [
        | inl full ↦ inl (rw same ((==_iff removed step).0 full))
        | inr short ↦ inr (
            subst AllImmune (sym left) (
              without_oldest-AllImmune step removed (stored chunk)
                (subst (λ l. length l + removed ≡ length (stored chunk)) left counted)
                (λ e. ground (arith, short, (==_iff removed step).1 e))))
      ]

  -- a round ahead of others
  round_before :
      (chunk chunk' last : ImmunityChunk P F)
      → IsValid chunk
      → is_capacity_exceeded_no_lock chunk ≡ true
      → chunk'.config ≡ chunk.config
      → stored chunk' ≡ without_oldest chunk.config.num_items_to_preemptively_evict (stored chunk)
      → Rounds chunk'.config (stored chunk') (stored last)
      → Rounds chunk.config (stored chunk) (stored last)
  round_before chunk chunk' last v over same left rounds =
      one_more-Rounds chunk.config (stored chunk) (stored last)
        (cc (is_capacity_exceeded-exceeds chunk v, over))
        (subst (λ l. Rounds chunk.config l (stored last)) left
          (subst (λ c. Rounds c (stored chunk') (stored last)) same rounds))

  -- with a step of at least one, fuel for one round more than there are items is enough
  evict_loop-Evicted :
      (fuel in_step num_removed : ℕ) (chunk : ImmunityChunk P F)
      → IsValid chunk
      → 0 < chunk.config.num_items_to_preemptively_evict
      → length (stored chunk) + 2 ≤ fuel
        ⊎ (0 < fuel) × (in_step ≢ chunk.config.num_items_to_preemptively_evict)
      → (in_step ≡ chunk.config.num_items_to_preemptively_evict) ⊎ AllImmune (stored chunk)
      → (r : ImmunityChunk P F × ℕ) × (evict_loop m fuel in_step num_removed chunk ≡ some r)
        × Evicted chunk r.0
        × Rounds chunk.config (stored chunk) (stored r.0)
  unfolding evict_loop
  evict_loop-Evicted zero in_step num_removed chunk v positive enough spent =
      absurd (elim enough [ inl e ↦ omega arith | inr e ↦ omega (arith, e.0) ])
  evict_loop-Evicted (suc fuel) in_step num_removed chunk v positive enough spent =
      let step = chunk.config.num_items_to_preemptively_evict in
      elim (Bool-cases (is_capacity_exceeded_no_lock chunk && in_step == step)) [
        | inr stop ↦ (
          (chunk, num_removed),
          rw stop refl,
          Evicted-refl chunk v,
          no-Rounds chunk.config (stored chunk) (elim spent [
            | inr immune ↦ inr (inl immune)
            | inl same ↦ inl (
                ground
                  (arith, stop, (==_iff in_step step).1 same, is_capacity_exceeded-exceeds chunk v))
          ]),
        )
        | inl go ↦
            let r = remove_oldest_no_lock m step chunk in
            let (gone, left, counted) = remove_oldest_no_lock-without_oldest m laws step chunk v in
            let again =
              evict_loop-Evicted fuel r.1 (num_removed + r.1) r.0 gone.valid
                (rw gone.config positive)
                (next_round fuel in_step r.1 chunk r.0 enough counted gone.config positive
                  (ground (arith, go)))
                (spent_after chunk r.0 r.1 gone.config left counted) in
            (
              again.0,
              rw go again.1,
              Evicted-trans chunk r.0 again.0.0 gone again.2,
              round_before chunk r.0 again.0.0 v (ground (arith, go)) gone.config left again.3,
            )
      ]

  step_positive :
      (chunk : ImmunityChunk P F)
      → IsValid chunk
      → (remove_oldest_no_lock m chunk.config.num_items_to_preemptively_evict chunk).1 == 0 ≡ false
      → 0 < chunk.config.num_items_to_preemptively_evict
  unfolding without_oldest
  step_positive chunk v some_gone =
      let step = chunk.config.num_items_to_preemptively_evict in
      let r = remove_oldest_no_lock m step chunk in
      let (gone, left, counted) = remove_oldest_no_lock-without_oldest m laws step chunk v in
      elim (Bool-cases (step == 0)) [
        | inr positive ↦ ground (arith, positive)
        | inl zero_step ↦
            let same : stored r.0 ≡ stored chunk =
              left ∙ ap (λ n. without_oldest n (stored chunk)) ((==_iff step 0).0 zero_step) in
            let equal : length (stored r.0) ≡ length (stored chunk) = ap length same in
            absurd (ground (arith, some_gone, counted, equal))
      ]

  -- what the eviction ahead of an insertion gives: the chunk, and whether it failed
  pub record Made (chunk : ImmunityChunk P F) (r : ImmunityChunk P F × Bool) : Type 0 where
    pub evicted : Evicted chunk r.0
    pub rounds : Rounds chunk.config (stored chunk) (stored r.0)
    pub flag : r.1 ≡ is_stuck chunk.config (stored chunk)

  pub evict_items_if_capacity_exceeded-Made :
      (chunk : ImmunityChunk P F)
      → IsValid chunk
      → (r : ImmunityChunk P F × Bool) × (evict_items_if_capacity_exceeded_no_lock m chunk ≡ some r)
        × Made chunk r
  unfolding evict_items_if_capacity_exceeded_no_lock evict_items_no_lock
  evict_items_if_capacity_exceeded-Made chunk v =
      elim (Bool-cases (is_capacity_exceeded_no_lock chunk)) [
        | inr room ↦ (
          (chunk, false),
          rw room refl,
          record {
            evicted = Evicted-refl chunk v;
            rounds =
                no-Rounds chunk.config (stored chunk)
                  (inl (cc (is_capacity_exceeded-exceeds chunk v, room)));
            flag = ground (arith, room, is_capacity_exceeded-exceeds chunk v);
          },
        )
        | inl full ↦
            let step = chunk.config.num_items_to_preemptively_evict in
            let r = remove_oldest_no_lock m step chunk in
            let (gone, left, counted) = remove_oldest_no_lock-without_oldest m laws step chunk v in
            elim (Bool-cases (r.1 == 0)) [
              | inl stuck ↦ (
                (r.0, true),
                rw (full, stuck) refl,
                record {
                  evicted = gone;
                  rounds = round_before chunk r.0 r.0 v full gone.config left (
                      no-Rounds r.0.config (stored r.0)
                        (elim (spent_after chunk r.0 r.1 gone.config left counted) [
                          | inr immune ↦ inr (inl immune)
                          | inl same ↦ inr (inr (ground (arith, same, stuck)))
                        ]));
                  flag = ground (
                    arith,
                    full,
                    stuck,
                    counted,
                    ap length left,
                    is_capacity_exceeded-exceeds chunk v,
                  );
                },
              )
              | inr some_gone ↦
                  let positive : 0 < r.0.config.num_items_to_preemptively_evict =
                    rw gone.config (step_positive chunk v some_gone) in
                  let again =
                    evict_loop-Evicted (suc (length chunk.items_as_list.elems)) r.1 r.1 r.0
                      gone.valid positive
                      (inl (
                        ground (
                          arith,
                          counted,
                          some_gone,
                          length-map (λ x. x.1) chunk.items_as_list.elems,
                        )))
                      (spent_after chunk r.0 r.1 gone.config left counted) in
                  (
                    (again.0.0, false),
                    rw (full, some_gone, again.1) refl,
                    record {
                      evicted = Evicted-trans chunk r.0 again.0.0 gone again.2;
                      rounds = round_before chunk r.0 again.0.0 v full gone.config left again.3;
                      flag = ground (
                        arith,
                        full,
                        some_gone,
                        counted,
                        ap length left,
                        is_capacity_exceeded-exceeds chunk v,
                      );
                    },
                  )
            ]
      ]
