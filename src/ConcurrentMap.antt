-- ===== src/ConcurrentMap.antt =====
-- txcache/maps/concurrentMap.go: a map from strings to anything, in chunks by the FNV-1 hash of the
-- key. A value is an `interface{}`, `none` for nil. An operation is `none` where the index of a
-- chunk is out of range, which panics. The mutexes make each operation one step.
pub mod Chunks
pub mod Laws
use Prim.Native.Nat.{bit_xor}
use drt_go_chain_storage.Base.{
  ℕ, zero, suc, ◌+◌, ◌*◌, ◌%◌, ◌^◌, Bool, true, false, Option, none, some, List, [], ◌∷◌, ◌++◌, map,
  ◌==◌, if◌then◌else◌, is_some, not, ◌>>=◌, length, get_elem?, set, replicate,
}
use drt_go_chain_storage.Base.Bytes.{Bytes, bytes_eq}
use drt_go_chain_storage.Base.GoMap.{GoMap, lookup, insert, delete, has}

abbrev pub Chunk : Type 0 → Type 0
Chunk V = GoMap Bytes (Option V)

pub record ConcurrentMap (V : Type 0) : Type 0 where
  pub n_chunks : ℕ
  pub chunks : List (Chunk V)

unfoldable pub fnv32_loop : ℕ → Bytes → ℕ
fnv32_loop hash [] = hash
fnv32_loop hash (b ∷ key) = fnv32_loop (bit_xor ((hash * 16777619) % 2 ^ 32) b) key

unfoldable pub fnv32 : Bytes → ℕ
fnv32 key = fnv32_loop 2166136261 key

module _ {V : Type 0} where
  unfoldable pub initialize_chunks : ConcurrentMap V → ConcurrentMap V
  initialize_chunks m = record m { chunks = replicate m.n_chunks [] }

  unfoldable pub new_concurrent_map : ℕ → ConcurrentMap V
  new_concurrent_map n_chunks =
      initialize_chunks (record { n_chunks = if n_chunks == 0 then 1 else n_chunks; chunks = [] })

  abbrev pub chunk_index : ConcurrentMap V → Bytes → ℕ
  chunk_index m key = fnv32 key % m.n_chunks

  unfoldable pub get_chunk : ConcurrentMap V → Bytes → Option (Chunk V)
  get_chunk m key = get_elem? m.chunks (chunk_index m key)

  -- the chunk of the key written back
  abbrev pub put_chunk : ConcurrentMap V → Bytes → Chunk V → ConcurrentMap V
  put_chunk m key c = record m { chunks = set m.chunks (chunk_index m key) c }

  unfoldable pub set_value : Bytes → Option V → ConcurrentMap V → Option (ConcurrentMap V)
  set_value key value m = do
    chunk ← get_chunk m key
    some (put_chunk m key (insert key value chunk))

  unfoldable pub set_if_absent :
      Bytes → Option V → ConcurrentMap V → Option (ConcurrentMap V × Bool)
  set_if_absent key value m = do
    chunk ← get_chunk m key
    let present = has key chunk
    some ((if present then m else put_chunk m key (insert key value chunk)), not present)

  -- the value, nil if there is none, and whether there is one
  unfoldable pub get : Bytes → ConcurrentMap V → Option (Option V × Bool)
  get key m = do
    chunk ← get_chunk m key
    some (elim (lookup key chunk) [ none ↦ (none, false) | some value ↦ (value, true) ])

  unfoldable pub has_key : Bytes → ConcurrentMap V → Option Bool
  has_key key m = do chunk ← get_chunk m key; some (has key chunk)

  -- the item, nil if there is none, and whether it is not nil
  unfoldable pub remove : Bytes → ConcurrentMap V → Option (ConcurrentMap V × Option V × Bool)
  remove key m = do
    chunk ← get_chunk m key
    let item : Option V = elim (lookup key chunk) [ none ↦ none | some value ↦ value ]
    some (put_chunk m key (delete key chunk), item, is_some item)

  unfoldable pub clear : ConcurrentMap V → ConcurrentMap V
  clear m = initialize_chunks m

  unfoldable pub count_chunks : List (Chunk V) → ℕ
  count_chunks [] = 0
  count_chunks (c ∷ cs) = length c + count_chunks cs

  unfoldable pub count : ConcurrentMap V → ℕ
  count m = count_chunks m.chunks

  -- what IterCb visits, chunk after chunk
  unfoldable pub all_items : List (Chunk V) → Chunk V
  all_items [] = []
  all_items (c ∷ cs) = c ++ all_items cs

  unfoldable pub iter_cb : {S : Type 0} → (Bytes → Option V → S → S) → Chunk V → S → S
  iter_cb fn [] s = s
  iter_cb fn ((k, v) ∷ items) s = iter_cb fn items (fn k v s)

  unfoldable pub keys : ConcurrentMap V → List Bytes
  keys m = map (λ x. x.0) (all_items m.chunks)
