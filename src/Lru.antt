-- ===== src/Lru.antt =====
-- lrucache/lrucache.go over the cache of lrucache/capacity, as NewCacheWithSizeInBytes makes it. The
-- caches over hashicorp's golang-lru (NewCache, NewCacheWithEviction and the adapter) are not
-- modelled. A handler for added data is started as a goroutine; an operation returns the handlers
-- that it starts, with their arguments.
pub mod Handlers
use drt_go_chain_storage.Base.{
  ℕ, Bool, true, false, not, Option, none, some, List, [], map, if◌then◌else◌, ◌>>=◌,
}
use drt_go_chain_storage.Base.Linked.{elem_count}
use drt_go_chain_storage.Base.Bytes.{Bytes, bytes_eq}
use drt_go_chain_storage.Base.GoMap.{GoMap, insert, delete}
use drt_go_chain_storage.Capacity
use drt_go_chain_storage.Capacity.{CapacityLru, Result, ok, err}

pub record LruCache (V H : Type 0) : Type 0 where
  pub cache : CapacityLru Bytes V
  pub maxsize : ℕ
  pub map_data_handlers : GoMap Bytes H

unfoldable pub new_cache_with_size_in_bytes : {V H : Type 0} → ℕ → ℕ → Result (LruCache V H)
new_cache_with_size_in_bytes {V} {H} size size_in_bytes =
    elim (Capacity.new_capacity_lru {K = Bytes} {V = V} size size_in_bytes) [
      | ok cache ↦ ok (record { cache = cache; maxsize = size; map_data_handlers = [] })
      | err e ↦ err e
    ]

module _ {V H : Type 0} where
  unfoldable pub clear : LruCache V H → LruCache V H
  clear c = record c { cache = Capacity.purge c.cache }

  -- the goroutines started: each registered handler, with the key and the value
  unfoldable pub call_added_data_handlers : Bytes → V → LruCache V H → List (H × Bytes × V)
  call_added_data_handlers key value c = map (λ x. (x.1, key, value)) c.map_data_handlers

  -- the cache, whether an eviction occurred, and the handlers started
  unfoldable pub put :
      Bytes → V → ℕ → LruCache V H → Option (LruCache V H × Bool × List (H × Bytes × V))
  put key value size_in_bytes c = do
    (cache, evicted) ← Capacity.add_sized key value size_in_bytes c.cache
    let c' = record c { cache = cache }
    some (c', evicted, call_added_data_handlers key value c')

  -- `none` stands for a nil handler
  unfoldable pub register_handler : Option H → Bytes → LruCache V H → LruCache V H
  register_handler none id c = c
  register_handler (some handler) id c = record c {
    map_data_handlers = insert id handler c.map_data_handlers;
  }

  unfoldable pub un_register_handler : Bytes → LruCache V H → LruCache V H
  un_register_handler id c = record c { map_data_handlers = delete id c.map_data_handlers }

  unfoldable pub get : Bytes → LruCache V H → LruCache V H × Option V
  get key c = let r = Capacity.get key c.cache in (record c { cache = r.0 }, r.1)

  unfoldable pub has_item : Bytes → LruCache V H → Bool
  has_item key c = Capacity.contains key c.cache

  unfoldable pub peek : Bytes → LruCache V H → Option V
  peek key c = Capacity.peek key c.cache

  -- the cache, whether it had the key, whether the value counts as added, and the handlers started
  unfoldable pub has_or_add :
      Bytes → V → ℕ → LruCache V H → Option (LruCache V H × Bool × Bool × List (H × Bytes × V))
  has_or_add key value size_in_bytes c = do
    (cache, had, _) ← Capacity.add_sized_if_missing key value size_in_bytes c.cache
    let c' = record c { cache = cache }
    some (c', had, not had, if had then [] else call_added_data_handlers key value c')

  unfoldable pub remove : Bytes → LruCache V H → LruCache V H
  remove key c = record c { cache = (Capacity.remove key c.cache).0 }

  unfoldable pub keys : LruCache V H → List Bytes
  keys c = Capacity.keys c.cache

  unfoldable pub size_in_bytes_contained : LruCache V H → ℕ
  size_in_bytes_contained c = Capacity.size_in_bytes_contained c.cache
