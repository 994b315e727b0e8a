-- ===== src/TimeCache/Cacher.antt =====
-- timecache/timeCacher.go: the time cache with handlers for added data. The goroutine that sweeps is a
-- call of `sweep` between two operations. A handler is started as a goroutine; an operation returns the
-- handlers that it starts, with their arguments.
use drt_go_chain_storage.Base.{
  ℕ, Bool, true, false, Option, none, some, List, [], map, if◌then◌else◌, ltb_int64,
}
use drt_go_chain_storage.Base.Bytes.{Bytes, bytes_eq}
use drt_go_chain_storage.Base.GoMap.{GoMap, lookup, insert, delete}
use drt_go_chain_storage.TimeCache
use drt_go_chain_storage.TimeCache.{TimeCacheCore, Entry}

pub record TimeCacher (V M H : Type 0) : Type 0 where
  pub time_cache : TimeCacheCore V M
  pub cache_expiry : ℕ
  pub map_data_handlers : GoMap Bytes H

pub data ArgError : Type 0 where
  invalid_default_span invalid_cache_expiry : ArgError

-- a second is the least duration
unfoldable pub check_arg : ℕ → ℕ → Option ArgError
check_arg default_span cache_expiry =
    if ltb_int64 default_span 1000000000
    then some invalid_default_span
    else if ltb_int64 cache_expiry 1000000000
    then some invalid_cache_expiry
    else none

pub data NewTimeCacher (V M H : Type 0) : Type 0 where
  created : TimeCacher V M H → NewTimeCacher V M H
  invalid_arg : ArgError → NewTimeCacher V M H

module _ {V M H : Type 0} where
  unfoldable pub new_time_cacher : ℕ → ℕ → NewTimeCacher V M H
  new_time_cacher default_span cache_expiry = elim (check_arg default_span cache_expiry) [
    | some e ↦ invalid_arg e
    | none ↦ created (record {
      time_cache = TimeCache.new_time_cache_core default_span;
      cache_expiry = cache_expiry;
      map_data_handlers = [];
    })
  ]

  unfoldable pub clear : TimeCacher V M H → TimeCacher V M H
  clear tc = record tc { time_cache = TimeCache.clear tc.time_cache }

  unfoldable pub call_added_data_handlers :
      Bytes → Option V → TimeCacher V M H → List (H × Bytes × Option V)
  call_added_data_handlers key value tc = map (λ x. (x.1, key, value)) tc.map_data_handlers

  -- Put, whose result is always false: an error is only logged
  unfoldable pub put :
      M → Bytes → Option V → TimeCacher V M H → TimeCacher V M H × List (H × Bytes × Option V)
  put now key value tc =
      elim (TimeCache.put now key value tc.time_cache.default_span tc.time_cache) [
        | none ↦ (tc, [])
        | some c ↦ (record tc { time_cache = c }, call_added_data_handlers key value tc)
      ]

  -- Get and Peek: the value, and whether the key is there
  unfoldable pub get : Bytes → TimeCacher V M H → Option V × Bool
  get key tc = elim (lookup key tc.time_cache.entries) [
    | none ↦ (none, false)
    | some v ↦ (v.value, true)
  ]

  unfoldable pub has_item : Bytes → TimeCacher V M H → Bool
  has_item key tc = TimeCache.has_key key tc.time_cache

  -- the cache, whether it had the key, whether it was added, and the handlers started
  unfoldable pub has_or_add :
      M
      → Bytes
      → Option V
      → TimeCacher V M H
      → TimeCacher V M H × Bool × Bool × List (H × Bytes × Option V)
  has_or_add now key value tc =
      elim (TimeCache.has_or_add now key value tc.time_cache.default_span tc.time_cache) [
        | none ↦ (tc, false, false, [])
        | some (c, has, added) ↦ (
          record tc { time_cache = c },
          has,
          added,
          if has then [] else call_added_data_handlers key value tc,
        )
      ]

  -- no key is nil
  unfoldable pub remove : Option Bytes → TimeCacher V M H → TimeCacher V M H
  remove none tc = tc
  remove (some key) tc = record tc {
    time_cache = record tc.time_cache { entries = delete key tc.time_cache.entries };
  }

  unfoldable pub keys : TimeCacher V M H → List Bytes
  keys tc = map (λ x. x.0) tc.time_cache.entries

  unfoldable pub count : TimeCacher V M H → ℕ
  count tc = TimeCache.num_entries tc.time_cache

  -- no handler is nil
  unfoldable pub register_handler : Option H → Bytes → TimeCacher V M H → TimeCacher V M H
  register_handler none id tc = tc
  register_handler (some handler) id tc = record tc {
    map_data_handlers = insert id handler tc.map_data_handlers;
  }

  unfoldable pub un_register_handler : Bytes → TimeCacher V M H → TimeCacher V M H
  un_register_handler id tc = record tc { map_data_handlers = delete id tc.map_data_handlers }
