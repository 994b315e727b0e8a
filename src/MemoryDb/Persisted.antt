-- ===== src/MemoryDb/Persisted.antt =====
-- memorydb/memorydb.go as a persister of types/interface.go. The state comes with the fact that
-- Go's map gives, that no key stands twice.
use drt_go_chain_storage.Base.{refl, inl, inr, none, Option-cases}
use drt_go_chain_storage.Base.Bytes.{Bytes, bytes_eq}
use drt_go_chain_storage.Base.GoMap.{
  lookup, Distinct, lookup-insert, lookup-delete, insert-Distinct, delete-Distinct,
}
use drt_go_chain_storage.MemoryDb
use drt_go_chain_storage.MemoryDb.{Db, DbError}
use drt_go_chain_storage.StorageUnit.{Persister}
use drt_go_chain_storage.StorageUnit.Interfaces.{PersisterLaws, Reported}

abbrev pub ValidDb : Type 0
ValidDb = (s : Db) × Distinct s.db

abbrev pub put_valid : Bytes → Bytes → ValidDb → ValidDb
unfolding MemoryDb.put
put_valid key value (s, d) = (MemoryDb.put key value s, insert-Distinct key value s.db d)

abbrev pub remove_valid : Bytes → ValidDb → ValidDb
unfolding MemoryDb.remove
remove_valid key (s, d) = (MemoryDb.remove key s, delete-Distinct key s.db d)

abbrev pub destroy_valid : ValidDb → ValidDb
unfolding MemoryDb.destroy
destroy_valid (s, d) = (MemoryDb.destroy s, tt)

abbrev pub memory_persister : Persister ValidDb DbError
memory_persister = record {
  put = λ key value s. (put_valid key value s, none);
  get = λ key s. MemoryDb.get key s.0;
  has = λ key s. MemoryDb.has_key key s.0;
  remove = λ key s. (remove_valid key s, none);
  destroy = λ s. (destroy_valid s, none);
  close = λ s. (s, none);
}

get-Reported-lookup : (key : Bytes) (s : Db) → Reported (MemoryDb.get key s) (lookup key s.db)
unfolding MemoryDb.get
get-Reported-lookup key s = elim (Option-cases (lookup key s.db)) [
  | inl absent ↦ rw (absent, MemoryDb.get) tt
  | inr (v, there) ↦ rw (there, MemoryDb.get) refl
]

-- The database does what a storage unit relies on.
pub memory_persister_laws : PersisterLaws memory_persister
unfolding MemoryDb.put MemoryDb.remove put_valid remove_valid
memory_persister_laws = record {
  stored = λ q s. lookup q s.0.db;
  get-stored = λ key s. get-Reported-lookup key s.0;
  put-stored = λ key value s q. lookup-insert key q value s.0.db;
  remove-stored = λ key s q. lookup-delete key q s.0.db s.1;
}
