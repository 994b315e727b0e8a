-- ===== src/Immunity.antt =====
-- immunitycache/cache.go and config.go: the immunity cache, chunks by the FNV-1 hash of the key. An
-- operation is `none` where the index of a chunk is out of range, which panics, or where the
-- eviction loop of a chunk would run out of fuel. The mutexes make each operation on a chunk one
-- step. The groups of ImmunizeKeys are taken in the order of their map; they touch different
-- chunks, so the order does not show. Only the counters of Diagnose are modelled, not its logging.
pub mod Chunk
pub mod Cache
use Prim.Native.Nat.{bit_xor}
use drt_go_chain_storage.Base.{
  ℕ, zero, suc, ◌⊎◌, inl, inr, ◌+◌, ◌*◌, ◌/◌, ◌%◌, ◌^◌, ◌-◌, Bool, true, false, ◌||◌, not, Option,
  none, some, List, [], ◌∷◌, ◌++◌, map, ltb, leb, ◌==◌, if◌then◌else◌, is_some, ◌>>=◌, length,
  get_elem?, set, replicate, ltb_int64, nat_eq,
}
use drt_go_chain_storage.Base.Bytes.{Bytes, bytes_eq}
use drt_go_chain_storage.Base.GoMap.{GoMap, lookup, insert}
use drt_go_chain_storage.Core.{Counter, Flag, Maxima}
use drt_go_chain_storage.Immunity.Chunk
use drt_go_chain_storage.Immunity.Chunk.{ChunkConfig, ImmunityChunk}

pub record CacheConfig : Type 0 where
  pub name : Bytes
  pub num_chunks : ℕ
  pub max_num_items : ℕ
  pub max_num_bytes : ℕ
  pub num_items_to_preemptively_evict : ℕ

-- the messages around common.ErrInvalidConfig
pub data ConfigError : Type 0 where
  name_is_invalid num_chunks_is_invalid max_num_items_is_invalid : ConfigError
  max_num_bytes_is_invalid num_items_to_preemptively_evict_is_invalid : ConfigError

unfoldable pub verify : CacheConfig → Option ConfigError
verify config =
    if length config.name == 0
    then some name_is_invalid
    else if ltb config.num_chunks 1 || ltb 128 config.num_chunks
    then some num_chunks_is_invalid
    else if ltb config.max_num_items 4
    then some max_num_items_is_invalid
    else if ltb config.max_num_bytes 4 || ltb 1073741824 config.max_num_bytes
    then some max_num_bytes_is_invalid
    else if ltb config.num_items_to_preemptively_evict 1
    then some num_items_to_preemptively_evict_is_invalid
    else none

unfoldable pub get_chunk_config : Maxima → CacheConfig → ChunkConfig
get_chunk_config m config =
    let num_chunks = m.max_uint32 config.num_chunks 1 in
    record {
      cache_name = config.name;
      max_num_items = config.max_num_items / num_chunks;
      max_num_bytes = config.max_num_bytes / num_chunks;
      num_items_to_preemptively_evict = config.num_items_to_preemptively_evict / num_chunks;
    }

pub record ImmunityCache (P F C : Type 0) : Type 0 where
  pub config : CacheConfig
  pub chunks : List (ImmunityChunk P F)
  pub hospitality : C
  pub num_capacity_reached_occurrences : C

unfoldable pub fnv32_hash_loop : ℕ → Bytes → ℕ
fnv32_hash_loop hash [] = hash
fnv32_hash_loop hash (b ∷ key) = fnv32_hash_loop (bit_xor ((hash * 16777619) % 2 ^ 32) b) key

unfoldable pub fnv32_hash : Bytes → ℕ
fnv32_hash key = fnv32_hash_loop 2166136261 key

abbrev pub group_of : ℕ → GoMap ℕ (List Bytes) → List Bytes
group_of i groups = elim (lookup i groups) [ none ↦ [] | some l ↦ l ]

module _ {P F : Type 0} ⦃f : Flag F⦄ where
  unfoldable pub count_chunks : (ImmunityChunk P F → ℕ) → List (ImmunityChunk P F) → ℕ
  count_chunks measure [] = 0
  count_chunks measure (c ∷ cs) = measure c + count_chunks measure cs

  unfoldable pub append_chunk_keys : List Bytes → List (ImmunityChunk P F) → List Bytes
  append_chunk_keys acc [] = acc
  append_chunk_keys acc (c ∷ cs) = append_chunk_keys (Chunk.append_keys acc c) cs

module _ {P F : Type 0} ⦃f : Flag F⦄ {C : Type 0} ⦃n : Counter C⦄ where
  unfoldable pub initialize_chunks : Maxima → ImmunityCache P F C → ImmunityCache P F C
  initialize_chunks m ic = record ic {
    chunks =
        replicate ic.config.num_chunks (Chunk.new_immunity_chunk (get_chunk_config m ic.config));
  }

  -- the cache, or the error of the configuration
  unfoldable pub new_immunity_cache : Maxima → CacheConfig → ImmunityCache P F C ⊎ ConfigError
  new_immunity_cache m config = elim (verify config) [
    | some e ↦ inr e
    | none ↦ inl (
        initialize_chunks m (record {
          config = config;
          chunks = [];
          hospitality = n.zero_value;
          num_capacity_reached_occurrences = n.zero_value;
        }))
  ]

  unfoldable pub get_chunk_index_by_key : Bytes → ImmunityCache P F C → ℕ
  get_chunk_index_by_key key ic = fnv32_hash key % ic.config.num_chunks

  unfoldable pub get_chunk_by_key : Bytes → ImmunityCache P F C → Option (ImmunityChunk P F)
  get_chunk_by_key key ic = get_elem? ic.chunks (get_chunk_index_by_key key ic)

  -- a chunk after an operation on it
  abbrev pub put_chunk : ℕ → ImmunityChunk P F → ImmunityCache P F C → ImmunityCache P F C
  put_chunk i chunk ic = record ic { chunks = set ic.chunks i chunk }

  unfoldable pub count : ImmunityCache P F C → ℕ
  count ic = count_chunks Chunk.count ic.chunks

  unfoldable pub count_immune : ImmunityCache P F C → ℕ
  count_immune ic = count_chunks Chunk.count_immune ic.chunks

  unfoldable pub num_bytes : ImmunityCache P F C → ℕ
  num_bytes ic = count_chunks (λ c. c.num_bytes) ic.chunks

  unfoldable pub keys : ImmunityCache P F C → List Bytes
  keys ic = append_chunk_keys [] ic.chunks

  -- whether the level is LogWarning
  unfoldable pub decide_log_level_on_capacity_reached :
      ImmunityCache P F C → ImmunityCache P F C × Bool
  decide_log_level_on_capacity_reached ic = (
    record ic {
      num_capacity_reached_occurrences = n.increment ic.num_capacity_reached_occurrences;
    },
    n.get_uint64 ic.num_capacity_reached_occurrences % 100 == 0,
  )

  unfoldable pub forget_capacity_had_been_reached_in_the_past :
      ImmunityCache P F C → ImmunityCache P F C
  forget_capacity_had_been_reached_in_the_past ic = record ic {
    num_capacity_reached_occurrences = n.reset ic.num_capacity_reached_occurrences;
  }

  unfoldable pub group_keys :
      List Bytes → GoMap ℕ (List Bytes) → ImmunityCache P F C → GoMap ℕ (List Bytes)
  group_keys [] groups ic = groups
  group_keys (key ∷ rest) groups ic =
      let i = get_chunk_index_by_key key ic in
      group_keys rest (insert i (group_of i groups ++ key ∷ []) groups) ic

  unfoldable pub group_keys_by_chunk : List Bytes → ImmunityCache P F C → GoMap ℕ (List Bytes)
  group_keys_by_chunk all ic = group_keys all [] ic

  unfoldable pub immunize_groups :
      GoMap ℕ (List Bytes) → ℕ → ℕ → ImmunityCache P F C → Option (ImmunityCache P F C × ℕ × ℕ)
  immunize_groups [] num_now num_future ic = some (ic, num_now, num_future)
  immunize_groups ((i, chunk_keys) ∷ groups) num_now num_future ic = do
    chunk ← get_elem? ic.chunks i
    let r = Chunk.immunize_keys chunk_keys 0 0 chunk
    immunize_groups groups (num_now + r.1) (num_future + r.2) (put_chunk i r.0 ic)

  unfoldable pub immunize_keys :
      List Bytes → ImmunityCache P F C → Option (ImmunityCache P F C × ℕ × ℕ)
  immunize_keys all ic =
      if ltb ic.config.max_num_items (count_immune ic + length all)
      then some ((decide_log_level_on_capacity_reached ic).0, 0, 0)
      else let forgot = forget_capacity_had_been_reached_in_the_past ic in
        immunize_groups (group_keys_by_chunk all forgot) 0 0 forgot

  -- the payload, if there is one; Peek is the same
  unfoldable pub get : Bytes → ImmunityCache P F C → Option (Option P)
  get key ic = do
    chunk ← get_chunk_by_key key ic
    some (elim (Chunk.get_item key chunk) [ none ↦ none | some item ↦ some item.payload ])

  unfoldable pub has_item : Bytes → ImmunityCache P F C → Option Bool
  has_item key ic = do chunk ← get_chunk_by_key key ic; some (is_some (Chunk.get_item key chunk))

  -- the cache, whether it has the key, and whether the item was added
  unfoldable pub has_or_add :
      Maxima → Bytes → P → ℕ → ImmunityCache P F C → Option (ImmunityCache P F C × Bool × Bool)
  has_or_add m key value size_in_bytes ic = do
    chunk ← get_chunk_by_key key ic
    (chunk', had, added) ← Chunk.add_item m (Chunk.new_cache_item value key size_in_bytes) chunk
    let stored = put_chunk (get_chunk_index_by_key key ic) chunk' ic
    let counted =
        if had
        then stored
        else if added
        then record stored { hospitality = n.increment stored.hospitality }
        else record stored { hospitality = n.decrement stored.hospitality }
    some (counted, had, added)

  unfoldable pub put :
      Maxima → Bytes → P → ℕ → ImmunityCache P F C → Option (ImmunityCache P F C × Bool)
  put m key value size_in_bytes ic = do
    (ic', _, _) ← has_or_add m key value size_in_bytes ic
    some (ic', false)

  unfoldable pub remove_with_result :
      Maxima → Bytes → ImmunityCache P F C → Option (ImmunityCache P F C × Bool)
  remove_with_result m key ic = do
    chunk ← get_chunk_by_key key ic
    let r = Chunk.remove_item m key chunk
    some (put_chunk (get_chunk_index_by_key key ic) r.0 ic, r.1)

  unfoldable pub clear : Maxima → ImmunityCache P F C → ImmunityCache P F C
  clear m ic = initialize_chunks m ic

  -- the counter after Diagnose; -10000 by its bit pattern
  unfoldable pub diagnose : ImmunityCache P F C → ImmunityCache P F C
  diagnose ic =
      let hospitality = n.get ic.hospitality in
      if not (ltb_int64 (2 ^ 64 - 10000) hospitality)
      then record ic { hospitality = n.reset ic.hospitality }
      else if not (ltb_int64 hospitality 10000)
      then record ic { hospitality = n.set 10000 ic.hospitality }
      else ic
