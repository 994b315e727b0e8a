-- ===== src/StorageUnit/Interfaces.antt =====
-- What storageUnit/storageunit.go relies on of a cacher and of a persister of types/interface.go,
-- against what each holds.
use drt_go_chain_storage.Base.{
  ◌≡◌, ◌⊎◌, inl, inr, false, Option, none, some, ℕ, if◌then◌else◌, is_some,
}
use drt_go_chain_storage.Base.Bytes.{Bytes, bytes_beq}
use drt_go_chain_storage.StorageUnit.{Cacher, Persister}

-- A cacher whose Put replaces the value of a key, as the time cacher of timecache does (TimeCache.Cached
-- fills this record); it may hold nothing under any key afterwards. Put of immunitycache, and of the
-- cache of txcache over it, leaves the old value of a key that is there: they are not such cachers.
pub record CacherLaws {S : Type 0} (c : Cacher S) : Type 0 where
  pub holds : Bytes → S → Option Bytes
  pub get-holds : (k : Bytes) (s : S) → (c.get k s).1 ≡ holds k s
  pub get-keeps : (k q : Bytes) (s : S) → holds q (c.get k s).0 ≡ holds q s
  pub put-holds :
      (k v : Bytes) (n : ℕ) (q : Bytes) (s : S)
      → (holds q (c.put k v n s).0 ≡ none)
        ⊎ (holds q (c.put k v n s).0 ≡ (if bytes_beq k q then some v else holds q s))
  pub has-holds : (k : Bytes) (s : S) → c.has k s ≡ is_some (holds k s)
  pub remove-holds :
      (k q : Bytes) (s : S) → holds q (c.remove k s) ≡ (if bytes_beq k q then none else holds q s)
  pub clear-holds : (q : Bytes) (s : S) → holds q (c.clear s) ≡ none

-- what a key has after an operation on `key`: the new content on success, and on an error what it
-- had, unless it is `key`
abbrev pub Changed :
    {E : Type 0}
    → Option E
    → Option Bytes
    → Bytes
    → (Bytes → Option Bytes)
    → (Bytes → Option Bytes)
    → Type 0
Changed none new key before after =
    (q : Bytes) → after q ≡ (if bytes_beq key q then new else before q)
Changed (some e) new key before after = (q : Bytes) → bytes_beq key q ≡ false → after q ≡ before q

-- what Get reports of a key: the value that is stored, or an error
abbrev pub Reported : {E : Type 0} → Bytes ⊎ E → Option Bytes → Type 0
Reported (inl v) o = o ≡ some v
Reported (inr e) o = Unit

pub record PersisterLaws {S E : Type 0} (p : Persister S E) : Type 0 where
  pub stored : Bytes → S → Option Bytes
  pub get-stored : (k : Bytes) (s : S) → Reported (p.get k s) (stored k s)
  pub put-stored :
      (k v : Bytes) (s : S)
      → Changed (p.put k v s).1 (some v) k (λ q. stored q s) (λ q. stored q (p.put k v s).0)
  pub remove-stored :
      (k : Bytes) (s : S)
      → Changed (p.remove k s).1 none k (λ q. stored q s) (λ q. stored q (p.remove k s).0)
