-- ===== src/TimeCache.antt =====
-- timecache/timeCacheCore.go with timeCache.go and, in the child Cacher, timeCacher.go: keys held for a
-- span of time. The time of Go is a parameter: a reading of the clock is an argument, and `since` is
-- time.Since, an `int64` of nanoseconds as its bit pattern. A value is an `interface{}`, `none` for
-- nil. An error is `none`: the only one is ErrEmptyKey. The mutex makes an operation one step.
pub mod Cacher
pub mod Swept
pub mod Kept
pub mod Cached
use drt_go_chain_storage.Base.{
  ℕ, Bool, true, false, Option, none, some, List, [], ◌∷◌, ◌==◌, if◌then◌else◌, is_some, ◌>>=◌,
  ltb_int64, length,
}
use drt_go_chain_storage.Base.Bytes.{Bytes, bytes_eq}
use drt_go_chain_storage.Base.GoMap.{GoMap, lookup, insert, delete}

pub record Entry (V M : Type 0) : Type 0 where
  pub timestamp : M
  pub span : ℕ
  pub value : Option V

pub record TimeCacheCore (V M : Type 0) : Type 0 where
  pub entries : GoMap Bytes (Entry V M)
  pub default_span : ℕ

module _ {V M : Type 0} where
  unfoldable pub new_time_cache_core : ℕ → TimeCacheCore V M
  new_time_cache_core default_span = record { entries = []; default_span = default_span }

  -- an entry of the reading `now`, under its key
  unfoldable pub store : M → Bytes → Option V → ℕ → TimeCacheCore V M → TimeCacheCore V M
  store now key value duration c = record c {
    entries = insert key (record { timestamp = now; span = duration; value = value }) c.entries;
  }

  -- the cache, and whether the key was there
  unfoldable pub upsert :
      M → Bytes → Option V → ℕ → TimeCacheCore V M → Option (TimeCacheCore V M × Bool)
  upsert now key value duration c = if length key == 0 then none else elim (lookup key c.entries) [
    | some existing ↦
        let span = if ltb_int64 existing.span duration then duration else existing.span in
        some (
          record c {
            entries = insert key (record existing { span = span; timestamp = now }) c.entries;
          },
          true,
        )
    | none ↦ some (store now key value duration c, false)
  ]

  unfoldable pub put : M → Bytes → Option V → ℕ → TimeCacheCore V M → Option (TimeCacheCore V M)
  put now key value duration c =
      if length key == 0 then none else some (store now key value duration c)

  -- the cache, whether the key was there, and whether it was added
  unfoldable pub has_or_add :
      M → Bytes → Option V → ℕ → TimeCacheCore V M → Option (TimeCacheCore V M × Bool × Bool)
  has_or_add now key value duration c =
      if length key == 0
      then none
      else if is_some (lookup key c.entries)
      then some (c, true, false)
      else some (store now key value duration c, false, true)

  -- The loop over the entries, each with its own reading of the clock; `readings` gives the reading
  -- for the number of entries that are still to come.
  unfoldable pub sweep_loop :
      (M → M → ℕ)
      → (ℕ → M)
      → GoMap Bytes (Entry V M)
      → GoMap Bytes (Entry V M)
      → GoMap Bytes (Entry V M)
  sweep_loop since readings [] held = held
  sweep_loop since readings ((key, element) ∷ rest) held =
      let is_old_element =
        ltb_int64 element.span (since (readings (length rest)) element.timestamp) in
      sweep_loop since readings rest (if is_old_element then delete key held else held)

  unfoldable pub sweep : (M → M → ℕ) → (ℕ → M) → TimeCacheCore V M → TimeCacheCore V M
  sweep since readings c = record c { entries = sweep_loop since readings c.entries c.entries }

  unfoldable pub has_key : Bytes → TimeCacheCore V M → Bool
  has_key key c = is_some (lookup key c.entries)

  unfoldable pub num_entries : TimeCacheCore V M → ℕ
  num_entries c = length c.entries

  unfoldable pub clear : TimeCacheCore V M → TimeCacheCore V M
  clear c = record c { entries = [] }

  -- TimeCache, which holds keys with no value: Add and AddWithSpan call `add`
  unfoldable pub add : M → Bytes → ℕ → TimeCacheCore V M → Option (TimeCacheCore V M)
  add now key duration c = if length key == 0 then none else some (store now key none duration c)

  unfoldable pub add_default : M → Bytes → TimeCacheCore V M → Option (TimeCacheCore V M)
  add_default now key c = add now key c.default_span c

  unfoldable pub add_with_span : M → Bytes → ℕ → TimeCacheCore V M → Option (TimeCacheCore V M)
  add_with_span now key duration c = add now key duration c

  unfoldable pub upsert_key : M → Bytes → ℕ → TimeCacheCore V M → Option (TimeCacheCore V M)
  upsert_key now key duration c = do (c', _) ← upsert now key none duration c; some c'
