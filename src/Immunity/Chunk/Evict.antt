-- ===== src/Immunity/Chunk/Evict.antt =====
-- removeOldestNoLock of immunitycache/chunk.go: the oldest items that are not immune go, and no others.
use drt_go_chain_storage.Base.{
  append_cons, ℕ, zero, suc, ◌+◌, ◌-◌, ◌≤◌, ◌<◌, ◌≡◌, ◌≢◌, refl, sym, ◌∙◌, ap, subst, true, false,
  none, some, List, [], ◌∷◌, ◌++◌, ltb, ◌==◌, if◌then◌else◌, length, arith, inl, inr, Bool-cases,
  ==_iff,
}
use drt_go_chain_storage.Base.Bytes.{Bytes, bytes_eq, bytes_beq_iff}
use drt_go_chain_storage.Base.Linked.{values, remove_id, find_id, DistinctIds}
use drt_go_chain_storage.Base.Keyed.{
  DistinctKeys, find_key-middle, find, find_key, length-erase, find-erase,
}
use drt_go_chain_storage.Base.Agree.{Hit-find_key}
use drt_go_chain_storage.Core.{Flag, Maxima, MaximaLaws}
use drt_go_chain_storage.Immunity.Chunk.{
  CacheItem, ImmunityChunk, is_immune_to_eviction, remove_no_lock, remove_oldest_loop,
  remove_oldest_no_lock, evict_loop, is_capacity_exceeded_no_lock, evict_items_no_lock,
}
use drt_go_chain_storage.Immunity.Chunk.Valid.{
  stored, item_key, IsValid, remove_no_lock-Removed, total-erase,
}

values-append : {A : Type 0} (l r : List (ℕ × A)) → values (l ++ r) ≡ values l ++ values r
values-append [] r = refl
values-append (x ∷ l) r = ap (◌∷◌ x.1) (values-append l r)

remove_id-middle :
    {A : Type 0} (n : ℕ) (pre next : List (ℕ × A)) (x : ℕ × A)
    → DistinctIds n (pre ++ x ∷ next)
    → (find_id x.0 (pre ++ x ∷ next) ≢ none) × (remove_id x.0 (pre ++ x ∷ next) ≡ pre ++ next)
unfolding remove_id find_id
remove_id-middle n [] next x d = (ground arith, ground arith)
remove_id-middle n (y ∷ pre) next x d =
    let (there, rest) = remove_id-middle n pre next x d.2 in
    elim (Bool-cases (y.0 == x.0)) [
      | inl same ↦
          absurd
            (there (subst (λ k. find_id k (pre ++ x ∷ next) ≡ none) ((==_iff y.0 x.0).0 same) d.0))
      | inr other ↦ (rw other there, rw other (ap (◌∷◌ y) rest))
    ]

module _ {P F : Type 0} ⦃f : Flag F⦄ where
  -- the items less the first `n` that are not immune
  unfoldable pub without_oldest : ℕ → List (CacheItem P F) → List (CacheItem P F)
  without_oldest zero l = l
  without_oldest (suc n) [] = []
  without_oldest (suc n) (x ∷ l) =
      if is_immune_to_eviction x then x ∷ without_oldest (suc n) l else without_oldest n l

  -- what a series of evictions leaves: a valid chunk of the same keys, in which the immune items
  -- are as they were and nothing is new
  pub record Evicted (chunk chunk' : ImmunityChunk P F) : Type 0 where
    pub valid : IsValid chunk'
    pub config : chunk'.config ≡ chunk.config
    pub immune_keys : chunk'.immune_keys ≡ chunk.immune_keys
    pub spared :
        (k : Bytes) (x : CacheItem P F)
        → find item_key k (stored chunk) ≡ some x
        → is_immune_to_eviction x ≡ true
        → find item_key k (stored chunk') ≡ some x
    pub shrunk :
        (k : Bytes) → find item_key k (stored chunk) ≡ none → find item_key k (stored chunk') ≡ none
    pub bytes_le : chunk'.num_bytes ≤ chunk.num_bytes

  pub Evicted-refl : (chunk : ImmunityChunk P F) → IsValid chunk → Evicted chunk chunk
  Evicted-refl chunk v = record {
    valid = v;
    config = refl;
    immune_keys = refl;
    spared = λ k x p q. p;
    shrunk = λ k p. p;
    bytes_le = omega arith;
  }

  pub Evicted-trans : (a b c : ImmunityChunk P F) → Evicted a b → Evicted b c → Evicted a c
  Evicted-trans a b c p q = record {
    valid = q.valid;
    config = q.config ∙ p.config;
    immune_keys = q.immune_keys ∙ p.immune_keys;
    spared = λ k x h i. q.spared k x (p.spared k x h i) i;
    shrunk = λ k h. q.shrunk k (p.shrunk k h);
    bytes_le = omega (arith, p.bytes_le, q.bytes_le);
  }

  module _ (m : Maxima) (laws : MaximaLaws m) where
    -- one item that is not immune is taken out
    remove-Evicted :
        (chunk : ImmunityChunk P F) (x : ℕ × CacheItem P F)
        → IsValid chunk
        → find_key item_key x.1.key chunk.items_as_list.elems ≡ some x
        → is_immune_to_eviction x.1 ≡ false
        → Evicted chunk (remove_no_lock m x chunk)
          × (suc (length (stored (remove_no_lock m x chunk))) ≡ length (stored chunk))
    remove-Evicted chunk x v there mortal =
        let hit = Hit-find_key item_key x.1.key chunk.items_as_list.elems x.0 x.1 v.agree there in
        let r = remove_no_lock-Removed m laws chunk x.1.key x.0 x.1 v hit in
        let found = λ (k : Bytes). find-erase item_key x.1.key k (stored chunk) v.agree.keys in
        (
          record {
            valid = r.valid;
            config = r.config;
            immune_keys = r.immune_keys;
            spared = λ k y p q.
                ground (arith, r.left, found k, p, q, mortal, hit.found, bytes_beq_iff x.1.key k);
            shrunk = λ k p. ground (arith, r.left, found k, p);
            bytes_le = ground (
              arith,
              r.valid.bytes,
              v.bytes,
              r.left,
              total-erase x.1.key (stored chunk) x.1 hit.found,
            );
          },
          ground (arith, r.left, hit.found, length-erase item_key x.1.key (stored chunk)),
        )

    without_oldest-nil : (n : ℕ) → without_oldest n [] ≡ []
    unfolding without_oldest
    without_oldest-nil zero = refl
    without_oldest-nil (suc n) = refl

    without_oldest_immune :
        (n : ℕ) (x : CacheItem P F) (l : List (CacheItem P F))
        → is_immune_to_eviction x ≡ true
        → without_oldest n (x ∷ l) ≡ x ∷ without_oldest n l
    unfolding without_oldest
    without_oldest_immune zero x l h = refl
    without_oldest_immune (suc n) x l h = rw h refl

    without_oldest_mortal :
        (n r : ℕ) (x : CacheItem P F) (l : List (CacheItem P F))
        → is_immune_to_eviction x ≡ false
        → r < n
        → without_oldest (n - r) (x ∷ l) ≡ without_oldest (n - suc r) l
    unfolding without_oldest
    without_oldest_mortal n r x l h lt =
        let step : n - r ≡ suc (n - suc r) = omega arith in rw (step, h) refl

    without_oldest_enough :
        (n r : ℕ) (l : List (CacheItem P F)) → ltb r n ≡ false → without_oldest (n - r) l ≡ l
    unfolding without_oldest
    without_oldest_enough n r l h = let none_left : n - r ≡ 0 = ground arith in rw none_left refl

    -- what the loop over the elements from `next` on leaves, after the elements `pre`
    record Swept (num num_removed : ℕ) (pre next : List (ℕ × CacheItem P F))
        (chunk : ImmunityChunk P F) (r : ImmunityChunk P F × ℕ) : Type 0 where
      pub evicted : Evicted chunk r.0
      pub left : stored r.0 ≡ values pre ++ without_oldest (num - num_removed) (values next)
      pub counted : length (stored r.0) + r.1 ≡ length (stored chunk) + num_removed

    remove_oldest_loop-Swept :
        (num : ℕ) (pre next : List (ℕ × CacheItem P F)) (num_removed : ℕ)
        (chunk : ImmunityChunk P F)
        → IsValid chunk
        → chunk.items_as_list.elems ≡ pre ++ next
        → Swept num num_removed pre next chunk (remove_oldest_loop m num next num_removed chunk)
    unfolding remove_oldest_loop remove_no_lock
        drt_go_chain_storage.Immunity.Chunk.track_num_bytes_on_remove_no_lock remove_id
    remove_oldest_loop-Swept num pre [] num_removed chunk v split = record {
      evicted = Evicted-refl chunk v;
      left = rw (split, without_oldest-nil (num - num_removed)) (values-append pre []);
      counted = refl;
    }
    remove_oldest_loop-Swept num pre (x ∷ next) num_removed chunk v split =
        elim (Bool-cases (ltb num_removed num)) [
          | inr enough ↦ rw enough (record {
            evicted = Evicted-refl chunk v;
            left =
                rw (split, without_oldest_enough num num_removed (values (x ∷ next)) enough)
                  (values-append pre (x ∷ next));
            counted = refl;
          })
          | inl more ↦ elim (Bool-cases (is_immune_to_eviction x.1)) [
            | inl immune ↦
                let rest =
                  remove_oldest_loop-Swept num (pre ++ x ∷ []) next num_removed chunk v
                    (split ∙ sym (append_cons pre x next)) in
                rw (more, immune)
                  (record {
                    evicted = rest.evicted;
                    left =
                        rest.left
                        ∙ rw
                            (
                              values-append pre (x ∷ []),
                              without_oldest_immune (num - num_removed) x.1 (values next) immune,
                            )
                            (append_cons (values pre) x.1
                              (without_oldest (num - num_removed) (values next)));
                    counted = rest.counted;
                  })
            | inr mortal ↦
                let there : find_key item_key x.1.key chunk.items_as_list.elems ≡ some x =
                  rw split (
                    find_key-middle item_key pre next x
                      (subst (λ l. DistinctKeys item_key (values l)) split v.agree.keys)) in
                let (gone, fewer) = remove-Evicted chunk x v there mortal in
                let split' : remove_id x.0 chunk.items_as_list.elems ≡ pre ++ next =
                  rw split
                    (remove_id-middle chunk.items_as_list.next pre next x
                      (subst (λ l. DistinctIds chunk.items_as_list.next l) split v.agree.ids)).1 in
                let rest =
                  remove_oldest_loop-Swept num pre next (suc num_removed) (remove_no_lock m x chunk)
                    gone.valid split' in
                rw (more, mortal)
                  (record {
                    evicted =
                        Evicted-trans chunk (remove_no_lock m x chunk)
                          (remove_oldest_loop m num next (suc num_removed)
                            (remove_no_lock m x chunk)).0
                          gone rest.evicted;
                    left =
                        rw
                          (without_oldest_mortal num num_removed x.1 (values next) mortal
                            (ground arith))
                          rest.left;
                    counted = omega (arith, rest.counted, fewer);
                  })
          ]
        ]

    -- removeOldestNoLock on a valid chunk takes out exactly the oldest items that are not immune,
    -- up to the number asked for, keeps the chunk valid, and returns how many it took out.
    pub remove_oldest_no_lock-without_oldest :
        (num : ℕ) (chunk : ImmunityChunk P F)
        → IsValid chunk
        → Evicted chunk (remove_oldest_no_lock m num chunk).0
          × (stored (remove_oldest_no_lock m num chunk).0 ≡ without_oldest num (stored chunk))
          × (length (stored (remove_oldest_no_lock m num chunk).0)
                + (remove_oldest_no_lock m num chunk).1
              ≡ length (stored chunk))
    unfolding remove_oldest_no_lock
    remove_oldest_no_lock-without_oldest num chunk v =
        let r = remove_oldest_loop-Swept num [] chunk.items_as_list.elems 0 chunk v refl in
        let less : num - 0 ≡ num = omega arith in
        (
          r.evicted,
          subst
              (λ n. stored (remove_oldest_no_lock m num chunk).0 ≡ without_oldest n (stored chunk))
              less r.left,
          omega (arith, r.counted),
        )
