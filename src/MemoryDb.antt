-- ===== src/MemoryDb.antt =====
-- memorydb/memorydb.go: the database in memory. Only Get and Has can fail. RangeKeys visits the keys
-- in any order; here in the order of the map.
pub mod Persisted
use drt_go_chain_storage.Base.{
  ◌⊎◌, inl, inr, Bool, true, false, Option, none, some, List, [], ◌∷◌, if◌then◌else◌,
}
use drt_go_chain_storage.Base.Bytes.{Bytes, bytes_eq}
use drt_go_chain_storage.Base.GoMap.{GoMap, lookup, insert, delete}

-- The error of Get names the key, in base64, which is kept as the key here; that of Has does not.
pub data DbError : Type 0 where
  named_key_not_found : Bytes → DbError
  key_not_found : DbError

pub record Db : Type 0 where
  pub db : GoMap Bytes Bytes

unfoldable pub new_db : Db
new_db = record { db = [] }

unfoldable pub put : Bytes → Bytes → Db → Db
put key val s = record { db = insert key val s.db }

unfoldable pub get : Bytes → Db → Bytes ⊎ DbError
get key s = elim (lookup key s.db) [ none ↦ inr (named_key_not_found key) | some val ↦ inl val ]

-- the error, if there is one
unfoldable pub has_key : Bytes → Db → Option DbError
has_key key s = elim (lookup key s.db) [ none ↦ some key_not_found | some val ↦ none ]

unfoldable pub remove : Bytes → Db → Db
remove key s = record { db = delete key s.db }

unfoldable pub destroy : Db → Db
destroy s = record { db = [] }

unfoldable pub destroy_closed : Db → Db
destroy_closed s = destroy s

-- the handler returns whether to continue, and threads a state
unfoldable pub range_loop :
    {S : Type 0} → (Bytes → Bytes → S → S × Bool) → List (Bytes × Bytes) → S → S
range_loop handler [] s = s
range_loop handler ((k, v) ∷ rest) s =
    let r = handler k v s in let next = range_loop handler rest r.0 in if r.1 then next else r.0

-- `none` stands for a nil handler
unfoldable pub range_keys : {S : Type 0} → Option (Bytes → Bytes → S → S × Bool) → Db → S → S
range_keys none db s = s
range_keys (some handler) db s = range_loop handler db.db s
