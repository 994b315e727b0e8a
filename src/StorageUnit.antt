-- ===== src/StorageUnit.antt =====
-- storageUnit/storageunit.go: a cache in front of a persister. Both are interfaces of types/interface.go,
-- records of operations on a state. The values are byte slices: nothing else is put into the cache of
-- a unit. The methods with an epoch call the others. The lock makes an operation one step.
pub mod Interfaces
pub mod Coherent
use drt_go_chain_storage.Base.{
  ◌⊎◌, inl, inr, ℕ, Bool, true, false, Option, none, some, List, [], ◌∷◌, ◌++◌, if◌then◌else◌,
  length,
}
use drt_go_chain_storage.Base.Bytes.{Bytes}

-- Cacher of types/interface.go, the methods that a unit calls
pub record Cacher (S : Type 0) : Type 0 where
  pub put : Bytes → Bytes → ℕ → S → S × Bool
  pub get : Bytes → S → S × Option Bytes
  pub has : Bytes → S → Bool
  pub remove : Bytes → S → S
  pub clear : S → S

-- Persister of types/interface.go; an error is `some` or `inr`
pub record Persister (S E : Type 0) : Type 0 where
  pub put : Bytes → Bytes → S → S × Option E
  pub get : Bytes → S → Bytes ⊎ E
  pub has : Bytes → S → Option E
  pub remove : Bytes → S → S × Option E
  pub destroy : S → S × Option E
  pub close : S → S × Option E

pub record StorageUnit (S R : Type 0) : Type 0 where
  pub persister : R
  pub cacher : S

-- what NewStorageUnit returns
pub data NewUnit (S R : Type 0) : Type 0 where
  created : StorageUnit S R → NewUnit S R
  nil_persister nil_cacher : NewUnit S R

-- a cacher or a persister is `none` for nil
unfoldable pub new_storage_unit : {S R : Type 0} → Option S → Option R → NewUnit S R
new_storage_unit c none = nil_persister
new_storage_unit none (some p) = nil_cacher
new_storage_unit (some c) (some p) = created (record { persister = p; cacher = c })

module _ {S R E : Type 0} (c : Cacher S) (p : Persister R E) where
  -- the unit, and the error
  unfoldable pub put : Bytes → Bytes → StorageUnit S R → StorageUnit S R × Option E
  put key value u =
      let cacher = (c.put key value (length value) u.cacher).0 in
      let (persister, err) = p.put key value u.persister in
      elim err [
        | none ↦ (record { persister = persister; cacher = cacher }, none)
        | some e ↦ (record { persister = persister; cacher = c.remove key cacher }, some e)
      ]

  -- the unit, and the value or the error of the persister
  unfoldable pub get : Bytes → StorageUnit S R → StorageUnit S R × (Bytes ⊎ E)
  get key u =
      let (cacher, found) = c.get key u.cacher in
      elim found [
        | some v ↦ (record u { cacher = cacher }, inl v)
        | none ↦ elim (p.get key u.persister) [
          | inr e ↦ (record u { cacher = cacher }, inr e)
          | inl v ↦ (record u { cacher = (c.put key v (length v) cacher).0 }, inl v)
        ]
      ]

  -- the values found for the keys, and the keys; an error is only logged
  unfoldable pub get_bulk_from_epoch :
      List Bytes → List (Bytes × Bytes) → StorageUnit S R → StorageUnit S R × List (Bytes × Bytes)
  get_bulk_from_epoch [] results u = (u, results)
  get_bulk_from_epoch (key ∷ keys) results u =
      let (u', value) = get key u in
      get_bulk_from_epoch keys (elim value [ inr e ↦ results | inl v ↦ results ++ (key, v) ∷ [] ])
        u'

  unfoldable pub has_key : Bytes → StorageUnit S R → Option E
  has_key key u = if c.has key u.cacher then none else p.has key u.persister

  unfoldable pub remove : Bytes → StorageUnit S R → StorageUnit S R × Option E
  remove key u =
      let cacher = c.remove key u.cacher in
      let (persister, err) = p.remove key u.persister in
      (record { persister = persister; cacher = cacher }, err)

  unfoldable pub clear_cache : StorageUnit S R → StorageUnit S R
  clear_cache u = record u { cacher = c.clear u.cacher }

  unfoldable pub destroy_unit : StorageUnit S R → StorageUnit S R × Option E
  destroy_unit u =
      let (persister, err) = p.destroy u.persister in
      (record { persister = persister; cacher = c.clear u.cacher }, err)

  unfoldable pub close : StorageUnit S R → StorageUnit S R × Option E
  close u =
      let (persister, err) = p.close u.persister in
      (record { persister = persister; cacher = c.clear u.cacher }, err)
