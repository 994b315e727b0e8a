-- ===== src/Immunity/Chunk/Room/OnLists.antt =====
-- What the eviction ahead of AddItem of immunitycache/chunk.go is to do, on the list of the items:
-- rounds that each take the oldest items that are not immune, for as long as the limits are reached.
use drt_go_chain_storage.Base.{
  ℕ, zero, suc, ◌+◌, ◌-◌, ◌≤◌, ◌<◌, ◌≡◌, ◌≢◌, ◌⊎◌, refl, Bool, true, false, ◌&&◌, ◌||◌, not, List,
  [], ◌∷◌, leb, ltb_int64, ◌==◌, length, length-map, All, arith, inl, inr, Bool-cases,
}
use drt_go_chain_storage.Core.{Flag}
use drt_go_chain_storage.Immunity.Chunk.{
  CacheItem, ChunkConfig, ImmunityChunk, is_immune_to_eviction, is_capacity_exceeded_no_lock,
}
use drt_go_chain_storage.Immunity.Chunk.Valid.{stored, total, IsValid}
use drt_go_chain_storage.Immunity.Chunk.Evict.{without_oldest}

module _ {P F : Type 0} ⦃f : Flag F⦄ where
  -- the items reach a limit of the configuration
  abbrev pub exceeds : ChunkConfig → List (CacheItem P F) → Bool
  exceeds config l =
      leb config.max_num_items (length l) || not (ltb_int64 (total l) config.max_num_bytes)

  -- the items behind a number of rounds, each of which takes the oldest `step` that are not immune
  abbrev pub after_rounds : ℕ → ℕ → List (CacheItem P F) → List (CacheItem P F)
  after_rounds step zero l = l
  after_rounds step (suc k) l = after_rounds step k (without_oldest step l)

  abbrev pub AllImmune : List (CacheItem P F) → Type 0
  AllImmune l = All (λ x. is_immune_to_eviction x ≡ true) l

  -- a limit is reached, and a round takes nothing
  abbrev pub is_stuck : ChunkConfig → List (CacheItem P F) → Bool
  is_stuck config l =
      exceeds config l
      && length (without_oldest config.num_items_to_preemptively_evict l) == length l

  -- Every round was needed, and the last leaves items that are within the limits, or none but immune
  -- ones, unless a round takes nothing anyway.
  pub record Rounds (config : ChunkConfig) (l left : List (CacheItem P F)) : Type 0 where
    pub rounds : ℕ
    pub behind : left ≡ after_rounds config.num_items_to_preemptively_evict rounds l
    pub needed :
        (i : ℕ)
        → i < rounds
        → exceeds config (after_rounds config.num_items_to_preemptively_evict i l) ≡ true
    pub ends :
        (exceeds config left ≡ false)
        ⊎ (AllImmune left ⊎ (config.num_items_to_preemptively_evict ≡ 0))

  pub no-Rounds :
      (config : ChunkConfig) (l : List (CacheItem P F))
      → (exceeds config l ≡ false) ⊎ (AllImmune l ⊎ (config.num_items_to_preemptively_evict ≡ 0))
      → Rounds config l l
  no-Rounds config l ends = record {
    rounds = 0;
    behind = refl;
    needed = λ i less. absurd (omega arith);
    ends = ends;
  }

  pub one_more-Rounds :
      (config : ChunkConfig) (l left : List (CacheItem P F))
      → exceeds config l ≡ true
      → Rounds config (without_oldest config.num_items_to_preemptively_evict l) left
      → Rounds config l left
  one_more-Rounds config l left over r = record {
    rounds = suc r.rounds;
    behind = r.behind;
    needed = λ i. needed i;
    ends = r.ends;
  }
    where
      needed :
          (i : ℕ)
          → i < suc r.rounds
          → exceeds config (after_rounds config.num_items_to_preemptively_evict i l) ≡ true
      needed zero less = over
      needed (suc i) less = r.needed i (omega arith)

  length-without_oldest :
      (n : ℕ) (l : List (CacheItem P F)) → length (without_oldest n l) ≤ length l
  unfolding without_oldest
  length-without_oldest zero l = omega arith
  length-without_oldest (suc n) [] = omega arith
  length-without_oldest (suc n) (x ∷ l) =
      ground (arith, length-without_oldest (suc n) l, length-without_oldest n l)

  -- a round that takes less than it may leaves only immune items
  pub without_oldest-AllImmune :
      (n removed : ℕ) (l : List (CacheItem P F))
      → length (without_oldest n l) + removed ≡ length l
      → removed ≢ n
      → AllImmune (without_oldest n l)
  unfolding without_oldest
  without_oldest-AllImmune zero removed l counted short = absurd (short (omega arith))
  without_oldest-AllImmune (suc n) removed [] counted short = tt
  without_oldest-AllImmune (suc n) removed (x ∷ l) counted short =
      elim (Bool-cases (is_immune_to_eviction x)) [
        | inl immune ↦
            let rest =
              without_oldest-AllImmune (suc n) removed l (ground (arith, immune, counted)) short in
            rw immune (immune, rest)
        | inr mortal ↦
            let fewer = length-without_oldest n l in
            let counted' : length (without_oldest n l) + removed ≡ suc (length l) =
              ground (arith, mortal, counted) in
            let positive : 0 < removed = omega (arith, fewer, counted') in
            rw mortal (
              without_oldest-AllImmune n (removed - 1) l (omega (arith, counted', positive))
                (λ e. short (omega (arith, positive, e))))
      ]

  pub is_capacity_exceeded-exceeds :
      (chunk : ImmunityChunk P F)
      → IsValid chunk
      → is_capacity_exceeded_no_lock chunk ≡ exceeds chunk.config (stored chunk)
  unfolding is_capacity_exceeded_no_lock
  is_capacity_exceeded-exceeds chunk v =
      let count = v.agree.count in
      let same = length-map (λ x. x.1) chunk.items_as_list.elems in rw (v.bytes, count, same) refl
