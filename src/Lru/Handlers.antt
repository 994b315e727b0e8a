-- ===== src/Lru/Handlers.antt =====
-- Put and HasOrAdd of lrucache/lrucache.go, and the handlers that they start.
use drt_go_chain_storage.Base.{
  ℕ, ◌≡◌, refl, true, false, some, [], if◌then◌else◌, is_negative, Option-cases, inl, inr,
  Bool-cases,
}
use drt_go_chain_storage.Base.Bytes.{Bytes, bytes_eq}
use drt_go_chain_storage.Base.GoMap.{has}
use mathlib.Core.Option
use drt_go_chain_storage.Capacity
use drt_go_chain_storage.Capacity.Add.{add_sized_if_missing-add_sized}
use drt_go_chain_storage.Lru.{LruCache, put, has_or_add}

module _ {V H : Type 0} (key : Bytes) (value : V) (s : ℕ) (c : LruCache V H) where
  -- HasOrAdd with a size that is not negative leaves a key that it finds alone and starts nothing,
  -- and on a key that it does not find is Put, with the same handlers started, and reports the
  -- value as added.
  pub has_or_add-put :
      is_negative s ≡ false
      → has_or_add key value s c ≡ (
          if has key c.cache.items
          then some (c, true, false, [])
          else Option.map (λ r. (r.0, false, true, r.2)) (put key value s c))
  unfolding has_or_add put
  has_or_add-put h =
      rw (add_sized_if_missing-add_sized key value s c.cache, h)
        (elim (Bool-cases (has key c.cache.items)) [
          | inl there ↦ rw there refl
          | inr absent ↦ elim (Option-cases (Capacity.add_sized key value s c.cache)) [
            | inl out ↦ rw (absent, out) refl
            | inr (r, run) ↦ rw (absent, run) refl
          ]
        ])
