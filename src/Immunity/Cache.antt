-- ===== src/Immunity/Cache.antt =====
-- NewImmunityCache and HasOrAdd of immunitycache/cache.go: every key has its chunk, and each chunk
-- stays valid.
use drt_go_chain_storage.Base.{
  ℕ, zero, suc, [], All, ◌⊎◌, inl, inr, ◌+◌, ◌%◌, ◌^◌, ◌<◌, ◌≡◌, refl, ◌∙◌, subst, Bool, some, ◌==◌,
  if◌then◌else◌, length, get_elem?, set, replicate, arith, length-replicate, length-set,
  get_elem?-set, get_elem?-ne-none, Option-cases, Bool-cases,
}
use drt_go_chain_storage.Base.Bytes.{Bytes, bytes_eq}
use drt_go_chain_storage.Base.GoMap.{lookup}
use drt_go_chain_storage.Base.Keyed.{find_key}
use drt_go_chain_storage.Core.{Counter, Flag, FlagLaws, Maxima, MaximaLaws}
use drt_go_chain_storage.Immunity.{
  CacheConfig, ConfigError, ImmunityCache, verify, get_chunk_config, initialize_chunks,
  new_immunity_cache, get_chunk_index_by_key, get_chunk_by_key, has_or_add, fnv32_hash,
}
use drt_go_chain_storage.Immunity.Chunk.{
  ChunkConfig, ImmunityChunk, new_immunity_chunk, new_cache_item, add_item, is_immune_to_eviction,
}
use drt_go_chain_storage.Immunity.Chunk.Valid.{stored, item_key, total}
use drt_go_chain_storage.Immunity.Chunk.Valid
use drt_go_chain_storage.Immunity.Chunk.Items.{Added, add_item-Added}

replicate-each :
    {A : Type 0} (num : ℕ) (a : A) (i : ℕ) (c : A) → get_elem? (replicate num a) i ≡ some c → a ≡ c
replicate-each zero a i c h = cc
replicate-each (suc num) a zero c h = ground (arith, h)
replicate-each (suc num) a (suc i) c h = replicate-each num a i c h

replicate-All : {A : Type 0} (P : A → Type 0) (num : ℕ) (a : A) → P a → All P (replicate num a)
replicate-All P zero a p = tt
replicate-All P (suc num) a p = (p, replicate-All P num a p)

abbrev pub hospitality_after : {C : Type 0} → ⦃n : Counter C⦄ → Bool → Bool → C → C
hospitality_after ⦃n⦄ had added h =
    if had then h else if added then n.increment h else n.decrement h

module _ {P F : Type 0} ⦃f : Flag F⦄ where
  new_immunity_chunk-IsValid :
      (config : ChunkConfig) → Valid.IsValid (new_immunity_chunk {P = P} {F = F} config)
  unfolding new_immunity_chunk lookup find_key
  new_immunity_chunk-IsValid config = record {
    agree = record { ids = tt; keys = tt; once = tt; points = λ k. refl; count = refl };
    bytes = refl;
    small = omega arith;
    marked = tt;
    immune_once = tt;
  }

  new_immunity_chunk_lem :
      (config : ChunkConfig)
      → (stored (new_immunity_chunk {P = P} {F = F} config) ≡ [])
        × ((new_immunity_chunk {P = P} {F = F} config).config ≡ config)
  unfolding new_immunity_chunk
  new_immunity_chunk_lem config = (refl, refl)

module _ {P F : Type 0} ⦃f : Flag F⦄ {C : Type 0} ⦃n : Counter C⦄ where
  -- every index that the hash gives has a chunk, and the chunks are valid
  pub record IsValid (ic : ImmunityCache P F C) : Type 0 where
    pub positive : 0 < ic.config.num_chunks
    pub width : length ic.chunks ≡ ic.config.num_chunks
    pub each : (i : ℕ) (c : ImmunityChunk P F) → get_elem? ic.chunks i ≡ some c → Valid.IsValid c

  -- NewImmunityCache gives either the error of the configuration or a valid cache with the given
  -- configuration, all of whose chunks are empty and have the chunk configuration made of it.
  pub new_immunity_cache-IsValid :
      (m : Maxima) (config : CacheConfig)
      → ((e : ConfigError) × (verify config ≡ some e)
          × (new_immunity_cache {P = P} {F = F} {C = C} m config ≡ inr e))
        ⊎ ((ic : ImmunityCache P F C) × (new_immunity_cache m config ≡ inl ic)
            × IsValid ic
            × (ic.config ≡ config)
            × All (λ c. (stored c ≡ []) × (c.config ≡ get_chunk_config m config)) ic.chunks)
  unfolding new_immunity_cache initialize_chunks verify
  new_immunity_cache-IsValid m config = elim (Option-cases (verify config)) [
    | inr (e, bad) ↦ inl (e, bad, rw (bad, new_immunity_cache) refl)
    | inl good ↦
        let chunk = new_immunity_chunk (get_chunk_config m config) in
        let ic : ImmunityCache P F C = record {
          config = config;
          chunks = replicate config.num_chunks chunk;
          hospitality = n.zero_value;
          num_capacity_reached_occurrences = n.zero_value;
        } in
        inr (
          ic,
          rw (good, new_immunity_cache) refl,
          record {
            positive = ground (arith, good);
            width = length-replicate config.num_chunks chunk;
            each = λ i c h.
                subst Valid.IsValid (replicate-each config.num_chunks chunk i c h)
                  (new_immunity_chunk-IsValid (get_chunk_config m config));
          },
          refl,
          replicate-All (λ c. (stored c ≡ []) × (c.config ≡ get_chunk_config m config))
              config.num_chunks chunk (new_immunity_chunk_lem (get_chunk_config m config)),
        )
  ]

  -- the chunk of a key
  chunk_there :
      (key : Bytes) (ic : ImmunityCache P F C)
      → IsValid ic
      → (c : ImmunityChunk P F) × (get_chunk_by_key key ic ≡ some c) × Valid.IsValid c
  unfolding get_chunk_by_key get_chunk_index_by_key
  chunk_there key ic v =
      let i = fnv32_hash key % ic.config.num_chunks in
      elim (Option-cases (get_elem? ic.chunks i)) [
        | inl out ↦ absurd (get_elem?-ne-none ic.chunks i (omega (arith, v.positive, v.width)) out)
        | inr (c, there) ↦ (c, there, v.each i c there)
      ]

  put_chunk-IsValid :
      (i : ℕ) (c : ImmunityChunk P F) (ic : ImmunityCache P F C)
      → IsValid ic
      → Valid.IsValid c
      → i < ic.config.num_chunks
      → (hospitality : C)
      → IsValid (record ic { chunks = set ic.chunks i c; hospitality = hospitality })
  put_chunk-IsValid i c ic v valid lt hospitality = record {
    positive = v.positive;
    width = length-set ic.chunks i c ∙ v.width;
    each = λ j d h. elim (Bool-cases (i == j)) [
      | inl same ↦
          subst Valid.IsValid (ground (arith, h, get_elem?-set ic.chunks i j c, v.width, lt, same))
            valid
      | inr other ↦
          v.each j d (ground (arith, h, other, get_elem?-set ic.chunks i j c, v.width, lt))
    ];
  }

  has_or_add_lem :
      (m : Maxima) (key : Bytes) (value : P) (size : ℕ) (ic : ImmunityCache P F C)
      (c : ImmunityChunk P F) (r : ImmunityChunk P F × Bool × Bool)
      → get_chunk_by_key key ic ≡ some c
      → add_item m (new_cache_item value key size) c ≡ some r
      → has_or_add m key value size ic
        ≡ some (
          record ic {
            chunks = set ic.chunks (get_chunk_index_by_key key ic) r.0;
            hospitality = hospitality_after r.1 r.2 ic.hospitality;
          },
          r.1,
          r.2,
        )
  unfolding has_or_add
  has_or_add_lem m key value size ic c r there run = elim (Bool-cases r.1) [
    | inl had ↦ rw (there, run, had) refl
    | inr new ↦ elim (Bool-cases r.2) [
      | inl put ↦ rw (there, run, new, put) refl
      | inr refused ↦ rw (there, run, new, refused) refl
    ]
  ]

  -- HasOrAdd of a value whose size is not negative, the sizes of the chunk of its key with it
  -- summing to less than 2^63, always returns on a valid cache and keeps it valid, with its
  -- configuration. The chunk of the key becomes what AddItem of the new item makes of it, the
  -- reports are those of AddItem, every other chunk is as before, and the hospitality is unchanged
  -- if the item was there, incremented if it was added and decremented if it was refused.
  pub has_or_add-Added :
      (m : Maxima) (laws : MaximaLaws m) (flags : FlagLaws f) (key : Bytes) (value : P) (size : ℕ)
      (ic : ImmunityCache P F C)
      → IsValid ic
      → ((c : ImmunityChunk P F)
          → get_chunk_by_key key ic ≡ some c
          → total (stored c) + size < 2 ^ 63)
      → (r : ImmunityCache P F C × Bool × Bool) × (has_or_add m key value size ic ≡ some r)
        × IsValid r.0
        × (r.0.config ≡ ic.config)
        × (r.0.hospitality ≡ hospitality_after r.1 r.2 ic.hospitality)
        × (c : ImmunityChunk P F) × (c' : ImmunityChunk P F) × (get_chunk_by_key key ic ≡ some c)
        × (add_item m (new_cache_item value key size) c ≡ some (c', r.1, r.2))
        × Added (new_cache_item value key size) c (c', r.1, r.2)
        × ((i : ℕ)
            → get_elem? r.0.chunks i
              ≡ (if get_chunk_index_by_key key ic == i then some c' else get_elem? ic.chunks i))
  unfolding has_or_add new_cache_item is_immune_to_eviction get_chunk_index_by_key get_chunk_by_key
  has_or_add-Added m laws flags key value size ic v small =
      let (c, there, valid) = chunk_there key ic v in
      let (r, run, added) =
        add_item-Added m laws flags (new_cache_item value key size) c valid flags.is_set-unset
          (small c there) in
      let i = fnv32_hash key % ic.config.num_chunks in
      let lt : i < ic.config.num_chunks = omega (arith, v.positive) in
      let h = hospitality_after r.1 r.2 ic.hospitality in
      (
        (record ic { chunks = set ic.chunks i r.0; hospitality = h }, r.1, r.2),
        has_or_add_lem m key value size ic c r there run,
        put_chunk-IsValid i r.0 ic v added.valid lt h,
        refl,
        refl,
        c,
        r.0,
        there,
        run,
        added,
        λ j. get_elem?-set ic.chunks i j r.0 (omega (arith, lt, v.width)),
      )
