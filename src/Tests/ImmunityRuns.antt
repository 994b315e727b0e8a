-- ===== src/Tests/ImmunityRuns.antt =====
-- Runs of a chunk of two items, of which one is immune, and of a cache of that chunk.
use drt_go_chain_storage.Base.{
  ℕ, zero, suc, ◌+◌, ◌<◌, ◌≡◌, ◌^◌, ◌⊎◌, inl, inr, refl, subst, Bool, true, false, some, List, [],
  ◌∷◌, map, All, get_elem?, arith, length, if◌then◌else◌, ◌==◌,
}
use drt_go_chain_storage.Base.Bytes.{Bytes, bytes_eq, bytes_beq}
use drt_go_chain_storage.Base.GoMap.{lookup, has}
use drt_go_chain_storage.Base.Keyed.{find, find_key}
use drt_go_chain_storage.Base.Linked.{find_id}
use drt_go_chain_storage.Immunity.Chunk.{
  ImmunityChunk, CacheItem, new_cache_item, is_immune_to_eviction, remove_oldest_no_lock, add_item,
  remove_item, immunize_keys,
}
use drt_go_chain_storage.Immunity.Chunk.Valid.{stored, item_key, total}
use drt_go_chain_storage.Immunity.Chunk.Valid
use drt_go_chain_storage.Immunity.Chunk.Evict.{
  Evicted, without_oldest, remove_oldest_no_lock-without_oldest,
}
use drt_go_chain_storage.Immunity.Chunk.Items.{Added, add_item-Added}
use drt_go_chain_storage.Immunity.Chunk.Keys.{
  Forgotten, remove_item-Forgotten, immunize_keys-Immunized,
}
use drt_go_chain_storage.Immunity.{
  CacheConfig, ConfigError, ImmunityCache, verify, new_immunity_cache, get_chunk_by_key,
  get_chunk_config, get_chunk_index_by_key, fnv32_hash, fnv32_hash_loop, has_or_add,
}
use drt_go_chain_storage.Immunity.Cache.{
  hospitality_after, IsValid, has_or_add-Added, new_immunity_cache-IsValid,
}
use drt_go_chain_storage.Config.{ConfigDestinationMe, InvalidField, verify_destination}
use drt_go_chain_storage.CrossTx.{CrossTxCache, new_cross_tx_cache}
use drt_go_chain_storage.CrossTx.Built.{new_cross_tx_cache-IsValid}
use drt_go_chain_storage.Tests.{word_counter, bool_flag, bool_flag_laws, maxima, maxima_laws}

-- the keys 1, immune, and 2, in a chunk of two items
abbrev two_items : ImmunityChunk ℕ Bool
two_items = record {
  config = record {
    cache_name = 9 ∷ [];
    max_num_items = 2;
    max_num_bytes = 100;
    num_items_to_preemptively_evict = 1;
  };
  items = (1 ∷ [], 0) ∷ (2 ∷ [], 1) ∷ [];
  items_as_list = record {
    next = 2;
    elems =
        (0, record { payload = 100; key = 1 ∷ []; size = 10; is_immune = true })
        ∷ (1, record { payload = 200; key = 2 ∷ []; size = 20; is_immune = false })
        ∷ [];
  };
  immune_keys = (1 ∷ [], tt) ∷ [];
  num_bytes = 30;
}

two_items-IsValid : Valid.IsValid two_items
unfolding lookup find find_key find_id is_immune_to_eviction bytes_beq
two_items-IsValid = record {
  agree = record {
    ids = (refl, omega arith, (refl, omega arith, tt));
    keys = (refl, (refl, tt));
    once = (refl, (refl, tt));
    points = λ k. ground arith;
    count = refl;
  };
  bytes = refl;
  small = omega arith;
  marked = (refl, (refl, tt));
  immune_once = (refl, tt);
}

abbrev new_item : CacheItem ℕ Bool
new_item = record { payload = 300; key = 3 ∷ []; size = 30; is_immune = false }

remove_oldest_no_lock-without_oldest_example :
    Evicted two_items (remove_oldest_no_lock maxima 1 two_items).0
    × (stored (remove_oldest_no_lock maxima 1 two_items).0 ≡ without_oldest 1 (stored two_items))
    × (length (stored (remove_oldest_no_lock maxima 1 two_items).0)
          + (remove_oldest_no_lock maxima 1 two_items).1
        ≡ length (stored two_items))
remove_oldest_no_lock-without_oldest_example =
    remove_oldest_no_lock-without_oldest maxima maxima_laws 1 two_items two_items-IsValid

-- the chunk is full: the key 2 goes
add_item-Added_example :
    (r : ImmunityChunk ℕ Bool × Bool × Bool) × (add_item maxima new_item two_items ≡ some r)
    × Added new_item two_items r
unfolding is_immune_to_eviction
add_item-Added_example =
    add_item-Added maxima maxima_laws bool_flag_laws new_item two_items two_items-IsValid refl
      (omega arith)

remove_item-Forgotten_example : Forgotten (1 ∷ []) two_items (remove_item maxima (1 ∷ []) two_items)
remove_item-Forgotten_example =
    remove_item-Forgotten maxima maxima_laws (1 ∷ []) two_items two_items-IsValid

abbrev some_keys : List Bytes
some_keys = (2 ∷ []) ∷ (3 ∷ []) ∷ []

immunize_keys-Immunized_example :
    Valid.IsValid (immunize_keys some_keys 0 0 two_items).0
    × (map item_key (stored (immunize_keys some_keys 0 0 two_items).0)
        ≡ map item_key (stored two_items))
    × ((q : Bytes)
        → has q two_items.immune_keys ≡ true
        → has q (immunize_keys some_keys 0 0 two_items).0.immune_keys ≡ true)
    × All (λ k. has k (immunize_keys some_keys 0 0 two_items).0.immune_keys ≡ true) some_keys
    × ((immunize_keys some_keys 0 0 two_items).1 + (immunize_keys some_keys 0 0 two_items).2
        ≡ 0 + 0 + length some_keys)
immunize_keys-Immunized_example =
    immunize_keys-Immunized bool_flag_laws some_keys 0 0 two_items two_items-IsValid

abbrev config : CacheConfig
config = record {
  name = 9 ∷ [];
  num_chunks = 1;
  max_num_items = 4;
  max_num_bytes = 100;
  num_items_to_preemptively_evict = 1;
}

abbrev one_chunk : ImmunityCache ℕ Bool ℕ
one_chunk = record {
  config = config;
  chunks = two_items ∷ [];
  hospitality = 0;
  num_capacity_reached_occurrences = 0;
}

one_chunk_each :
    (i : ℕ) (c : ImmunityChunk ℕ Bool) → get_elem? (two_items ∷ []) i ≡ some c → Valid.IsValid c
one_chunk_each zero c h = subst Valid.IsValid (ground (arith, h)) two_items-IsValid
one_chunk_each (suc i) c h = cc

one_chunk_small :
    (c : ImmunityChunk ℕ Bool)
    → get_chunk_by_key (3 ∷ []) one_chunk ≡ some c
    → total (stored c) + 30 < 2 ^ 63
unfolding get_chunk_by_key get_chunk_index_by_key fnv32_hash fnv32_hash_loop
one_chunk_small c h =
    let there : two_items ≡ c = ground (arith, h) in
    subst (λ x. total (stored x) + 30 < 2 ^ 63) there (omega arith)

has_or_add-Added_example :
    (r : ImmunityCache ℕ Bool ℕ × Bool × Bool) × (has_or_add maxima (3 ∷ []) 300 30 one_chunk
      ≡ some r)
    × IsValid r.0
    × (r.0.config ≡ config)
    × (r.0.hospitality ≡ hospitality_after r.1 r.2 0)
    × (c : ImmunityChunk ℕ Bool) × (c' : ImmunityChunk ℕ Bool) × (get_chunk_by_key
          (3 ∷ [])
          one_chunk
        ≡ some c)
    × (add_item maxima (new_cache_item 300 (3 ∷ []) 30) c ≡ some (c', r.1, r.2))
    × Added (new_cache_item 300 (3 ∷ []) 30) c (c', r.1, r.2)
    × ((i : ℕ)
        → get_elem? r.0.chunks i ≡ (
            if get_chunk_index_by_key (3 ∷ []) one_chunk == i
            then some c'
            else get_elem? one_chunk.chunks i))
has_or_add-Added_example =
    has_or_add-Added maxima maxima_laws bool_flag_laws (3 ∷ []) 300 30 one_chunk
      (record { positive = omega arith; width = refl; each = one_chunk_each }) one_chunk_small

new_immunity_cache-IsValid_example :
    ((e : ConfigError) × (verify config ≡ some e)
      × (new_immunity_cache {P = ℕ} {F = Bool} {C = ℕ} maxima config ≡ inr e))
    ⊎ ((ic : ImmunityCache ℕ Bool ℕ) × (new_immunity_cache maxima config ≡ inl ic)
        × IsValid ic
        × (ic.config ≡ config)
        × All (λ c. (stored c ≡ []) × (c.config ≡ get_chunk_config maxima config)) ic.chunks)
new_immunity_cache-IsValid_example = new_immunity_cache-IsValid maxima config

abbrev destination_config : ConfigDestinationMe
destination_config = record {
  name = 9 ∷ [];
  num_chunks = 2;
  max_num_items = 8;
  max_num_bytes = 100;
  num_items_to_preemptively_evict = 2;
}

new_cross_tx_cache-IsValid_example :
    ((e : InvalidField) × (verify_destination destination_config ≡ some e)
      × (new_cross_tx_cache {T = ℕ} {F = Bool} {C = ℕ} maxima destination_config ≡ inr (inl e)))
    ⊎ ((c : CrossTxCache ℕ Bool ℕ) × (new_cross_tx_cache maxima destination_config ≡ inl c)
        × IsValid c.immunity_cache
        × (c.config ≡ destination_config))
new_cross_tx_cache-IsValid_example = new_cross_tx_cache-IsValid maxima destination_config
