-- ===== src/Immunity/Chunk.antt =====
-- immunitycache/chunk.go and cacheItem.go: one chunk of the immunity cache. The map holds the
-- list element of a key; the `item` of its wrapper is the object that the element points to, so it
-- is read and written through the element. The eviction loop takes fuel, one round for each
-- element and one for the last test. The flag and `core.MaxInt` are parameters (Core).
pub mod Valid
pub mod Evict
pub mod Room
pub mod Insert
pub mod Items
pub mod Keys
use drt_go_chain_storage.Base.{
  ℕ, zero, suc, ◌+◌, Bool, true, false, ◌&&◌, ◌||◌, not, Option, none, some, List, [], ◌∷◌, ◌++◌,
  map, ltb, leb, ◌==◌, if◌then◌else◌, is_some, ◌>>=◌, add64, sub64, ltb_int64, length,
}
use drt_go_chain_storage.Base.Bytes.{Bytes, bytes_eq}
use drt_go_chain_storage.Base.GoMap.{GoMap, lookup, insert, delete, has}
use drt_go_chain_storage.Base.Linked
use drt_go_chain_storage.Base.Linked.{LinkedList, values, value?, elem_count}
use drt_go_chain_storage.Core.{Flag, Maxima}

pub record CacheItem (P F : Type 0) : Type 0 where
  pub payload : P
  pub key : Bytes
  pub size : ℕ
  pub is_immune : F

-- immunityChunkConfig of immunitycache/config.go
pub record ChunkConfig : Type 0 where
  pub cache_name : Bytes
  pub max_num_items : ℕ
  pub max_num_bytes : ℕ
  pub num_items_to_preemptively_evict : ℕ

pub record ImmunityChunk (P F : Type 0) : Type 0 where
  pub config : ChunkConfig
  pub items : GoMap Bytes ℕ
  pub items_as_list : LinkedList (CacheItem P F)
  pub immune_keys : GoMap Bytes (Unit {0})
  pub num_bytes : ℕ

module _ {P F : Type 0} ⦃f : Flag F⦄ where
  unfoldable pub new_cache_item : P → Bytes → ℕ → CacheItem P F
  new_cache_item payload key size = record {
    payload = payload;
    key = key;
    size = size;
    is_immune = f.unset;
  }

  unfoldable pub is_immune_to_eviction : CacheItem P F → Bool
  is_immune_to_eviction item = f.is_set item.is_immune

  unfoldable pub immunize_against_eviction : CacheItem P F → CacheItem P F
  immunize_against_eviction item = record item {
    is_immune = (f.set_returning_previous item.is_immune).0;
  }

  unfoldable pub new_immunity_chunk : ChunkConfig → ImmunityChunk P F
  new_immunity_chunk config = record {
    config = config;
    items = [];
    items_as_list = Linked.new_list;
    immune_keys = [];
    num_bytes = 0;
  }

  unfoldable pub get_item_no_lock : Bytes → ImmunityChunk P F → Option (CacheItem P F)
  get_item_no_lock key chunk = lookup key chunk.items >>= λ i. value? chunk.items_as_list i

  -- the item of the key made immune, where it lies
  unfoldable pub immunize_item : Bytes → ImmunityChunk P F → ImmunityChunk P F
  immunize_item key chunk = elim (lookup key chunk.items) [
    | none ↦ chunk
    | some i ↦ elim (value? chunk.items_as_list i) [
      | none ↦ chunk
      | some item ↦ record chunk {
        items_as_list = Linked.write i (immunize_against_eviction item) chunk.items_as_list;
      }
    ]
  ]

  -- one round of the loop of ImmunizeKeys
  unfoldable pub immunize_key : Bytes → ImmunityChunk P F → ImmunityChunk P F
  immunize_key key chunk =
      let marked = immunize_item key chunk in
      record marked { immune_keys = insert key tt marked.immune_keys }

  -- the chunk, and how many keys are immune now and in the future
  unfoldable pub immunize_keys : List Bytes → ℕ → ℕ → ImmunityChunk P F → ImmunityChunk P F × ℕ × ℕ
  immunize_keys [] num_now num_future chunk = (chunk, num_now, num_future)
  immunize_keys (key ∷ rest) num_now num_future chunk =
      let there = is_some (get_item_no_lock key chunk) in
      immunize_keys rest (if there then suc num_now else num_now)
        (if there then num_future else suc num_future) (immunize_key key chunk)

  unfoldable pub is_capacity_exceeded_no_lock : ImmunityChunk P F → Bool
  is_capacity_exceeded_no_lock chunk =
      leb chunk.config.max_num_items (length chunk.items)
      || not (ltb_int64 chunk.num_bytes chunk.config.max_num_bytes)

  unfoldable pub get_item : Bytes → ImmunityChunk P F → Option (CacheItem P F)
  get_item key chunk = get_item_no_lock key chunk

  unfoldable pub item_exists_no_lock : CacheItem P F → ImmunityChunk P F → Bool
  item_exists_no_lock item chunk = has item.key chunk.items

  unfoldable pub add_item_no_lock : CacheItem P F → ImmunityChunk P F → ImmunityChunk P F
  add_item_no_lock item chunk =
      let element : ℕ × LinkedList (CacheItem P F) = Linked.push_back item chunk.items_as_list in
      record chunk { items_as_list = element.1; items = insert item.key element.0 chunk.items }

  -- after `addItemNoLock`: the item is in the chunk
  unfoldable pub immunize_item_on_add_no_lock :
      CacheItem P F → ImmunityChunk P F → ImmunityChunk P F
  immunize_item_on_add_no_lock item chunk =
      if has item.key chunk.immune_keys then immunize_item item.key chunk else chunk

  unfoldable pub track_num_bytes_on_add_no_lock :
      CacheItem P F → ImmunityChunk P F → ImmunityChunk P F
  track_num_bytes_on_add_no_lock item chunk = record chunk {
    num_bytes = add64 chunk.num_bytes item.size;
  }

  unfoldable pub count : ImmunityChunk P F → ℕ
  count chunk = length chunk.items

  unfoldable pub count_immune : ImmunityChunk P F → ℕ
  count_immune chunk = length chunk.immune_keys

  unfoldable pub keys_in_order : ImmunityChunk P F → List Bytes
  keys_in_order chunk = map (λ x. x.key) (values chunk.items_as_list.elems)

  unfoldable pub append_keys : List Bytes → ImmunityChunk P F → List Bytes
  append_keys acc chunk = acc ++ map (λ x. x.0) chunk.items

  module _ (m : Maxima) where
    unfoldable pub track_num_bytes_on_remove_no_lock :
        CacheItem P F → ImmunityChunk P F → ImmunityChunk P F
    track_num_bytes_on_remove_no_lock item chunk = record chunk {
      num_bytes = m.max_int (sub64 chunk.num_bytes item.size) 0;
    }

    unfoldable pub remove_no_lock : ℕ × CacheItem P F → ImmunityChunk P F → ImmunityChunk P F
    remove_no_lock (element, item) chunk = track_num_bytes_on_remove_no_lock item (record chunk {
      items = delete item.key chunk.items;
      items_as_list = Linked.remove element chunk.items_as_list;
    })

    -- the loop of removeOldestNoLock, over the elements from one on; the next element is read
    -- before the removal
    unfoldable pub remove_oldest_loop :
        ℕ → List (ℕ × CacheItem P F) → ℕ → ImmunityChunk P F → ImmunityChunk P F × ℕ
    remove_oldest_loop num_to_remove [] num_removed chunk = (chunk, num_removed)
    remove_oldest_loop num_to_remove (x ∷ next) num_removed chunk =
        let immune = is_immune_to_eviction x.1 in
        let rest =
          remove_oldest_loop num_to_remove next (if immune then num_removed else suc num_removed)
            (if immune then chunk else remove_no_lock x chunk) in
        if ltb num_removed num_to_remove then rest else (chunk, num_removed)

    unfoldable pub remove_oldest_no_lock : ℕ → ImmunityChunk P F → ImmunityChunk P F × ℕ
    remove_oldest_no_lock num_to_remove chunk =
        remove_oldest_loop num_to_remove chunk.items_as_list.elems 0 chunk

    unfoldable pub evict_loop : ℕ → ℕ → ℕ → ImmunityChunk P F → Option (ImmunityChunk P F × ℕ)
    evict_loop zero in_step num_removed chunk = none
    evict_loop (suc fuel) in_step num_removed chunk =
        let step = chunk.config.num_items_to_preemptively_evict in
        let again : Option (ImmunityChunk P F × ℕ) =
          (let r = remove_oldest_no_lock step chunk in
            evict_loop fuel r.1 (num_removed + r.1) r.0) in
        if is_capacity_exceeded_no_lock chunk && in_step == step
        then again
        else some (chunk, num_removed)

    -- the chunk, the number of items removed, and whether ErrFailedCacheEviction is returned
    unfoldable pub evict_items_no_lock : ImmunityChunk P F → Option (ImmunityChunk P F × ℕ × Bool)
    evict_items_no_lock chunk =
        let r = remove_oldest_no_lock chunk.config.num_items_to_preemptively_evict chunk in
        if r.1 == 0 then some (r.0, 0, true) else do
          (chunk', num_removed) ← evict_loop (suc (elem_count chunk.items_as_list)) r.1 r.1 r.0
          some (chunk', num_removed, false)

    -- the chunk, and whether there is an error
    unfoldable pub evict_items_if_capacity_exceeded_no_lock :
        ImmunityChunk P F → Option (ImmunityChunk P F × Bool)
    evict_items_if_capacity_exceeded_no_lock chunk =
        if is_capacity_exceeded_no_lock chunk
        then (do (chunk', _, failed) ← evict_items_no_lock chunk; some (chunk', failed))
        else some (chunk, false)

    -- the steps of AddItem that put a new item in
    unfoldable pub insert_item : CacheItem P F → ImmunityChunk P F → ImmunityChunk P F
    insert_item item chunk =
        track_num_bytes_on_add_no_lock item
          (immunize_item_on_add_no_lock item (add_item_no_lock item chunk))

    -- AddItem: the chunk, whether it has the item, and whether the item was added
    unfoldable pub add_item :
        CacheItem P F → ImmunityChunk P F → Option (ImmunityChunk P F × Bool × Bool)
    add_item item chunk = do
      (chunk', failed) ← evict_items_if_capacity_exceeded_no_lock chunk
      some (
          if failed
          then (chunk', false, false)
          else if item_exists_no_lock item chunk'
          then (chunk', true, false)
          else (insert_item item chunk', false, true))

    unfoldable pub remove_item : Bytes → ImmunityChunk P F → ImmunityChunk P F × Bool
    remove_item key chunk =
        let forgotten = record chunk { immune_keys = delete key chunk.immune_keys } in
        elim (lookup key chunk.items) [
          | none ↦ (forgotten, false)
          | some i ↦ elim (value? chunk.items_as_list i) [
            | none ↦ (forgotten, true)
            | some item ↦ (remove_no_lock (i, item) forgotten, true)
          ]
        ]
