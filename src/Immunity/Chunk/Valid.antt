-- ===== src/Immunity/Chunk/Valid.antt =====
-- The state of immunitycache/chunk.go: the map and the list agree, the byte counter is the sum of
-- the sizes, which does not overflow, and the immune items are those whose keys are held as immune.
use drt_go_chain_storage.Base.{ℕ, ◌+◌, ◌^◌, ◌<◌, ◌≡◌, refl, some, List, [], ◌∷◌, sub64, arith}
use drt_go_chain_storage.Base.Bytes.{Bytes, bytes_eq}
use drt_go_chain_storage.Base.GoMap.{GoMap, has, Distinct}
use drt_go_chain_storage.Base.Linked.{values, remove_id}
use drt_go_chain_storage.Base.Keyed.{find, erase, values-remove_key}
use drt_go_chain_storage.Base.Agree.{Agree, Hit, remove-Agree}
use drt_go_chain_storage.Core.{Flag, Maxima, MaximaLaws}
use drt_go_chain_storage.Immunity.Chunk.{
  CacheItem, ImmunityChunk, is_immune_to_eviction, remove_no_lock,
  track_num_bytes_on_remove_no_lock,
}

-- the items, oldest first
abbrev pub stored : {P F : Type 0} → ImmunityChunk P F → List (CacheItem P F)
stored chunk = values chunk.items_as_list.elems

abbrev pub total : {P F : Type 0} → List (CacheItem P F) → ℕ
total [] = 0
total (x ∷ l) = x.size + total l

abbrev pub item_key : {P F : Type 0} → CacheItem P F → Bytes
item_key x = x.key

module _ {P F : Type 0} ⦃f : Flag F⦄ where
  -- the flag of each item says whether its key is held as immune
  abbrev pub Marked : GoMap Bytes (Unit {0}) → List (CacheItem P F) → Type 0
  Marked immune [] = Unit
  Marked immune (x ∷ l) = (is_immune_to_eviction x ≡ has x.key immune) × Marked immune l

  pub record IsValid (chunk : ImmunityChunk P F) : Type 0 where
    pub agree : Agree item_key chunk.items chunk.items_as_list.next chunk.items_as_list.elems
    pub bytes : chunk.num_bytes ≡ total (stored chunk)
    pub small : total (stored chunk) < 2 ^ 63
    pub marked : Marked chunk.immune_keys (stored chunk)
    pub immune_once : Distinct chunk.immune_keys

  pub total-erase :
      (k : Bytes) (l : List (CacheItem P F)) (a : CacheItem P F)
      → find item_key k l ≡ some a
      → total (erase item_key k l) + a.size ≡ total l
  unfolding find erase
  total-erase k [] a h = cc
  total-erase k (x ∷ l) a h = ground (arith, total-erase k l a)

  pub erase-Marked :
      (immune : GoMap Bytes (Unit {0})) (k : Bytes) (l : List (CacheItem P F))
      → Marked immune l
      → Marked immune (erase item_key k l)
  unfolding erase
  erase-Marked immune k [] p = tt
  erase-Marked immune k (x ∷ l) p = ground (arith, erase-Marked immune k l p.1)

  -- what is left when the element of one key goes
  pub record Removed (chunk : ImmunityChunk P F) (k : Bytes) (chunk' : ImmunityChunk P F)
      : Type 0 where
    pub valid : IsValid chunk'
    pub left : stored chunk' ≡ erase item_key k (stored chunk)
    pub config : chunk'.config ≡ chunk.config
    pub immune_keys : chunk'.immune_keys ≡ chunk.immune_keys

  pub remove_no_lock-Removed :
      (m : Maxima) (laws : MaximaLaws m) (chunk : ImmunityChunk P F) (k : Bytes) (i : ℕ)
      (a : CacheItem P F)
      → IsValid chunk
      → Hit item_key k i chunk.items_as_list.elems a
      → Removed chunk k (remove_no_lock m (i, a) chunk)
  unfolding remove_no_lock track_num_bytes_on_remove_no_lock
  remove_no_lock-Removed m laws chunk k i a v hit =
      let l = chunk.items_as_list.elems in
      let left : values (remove_id i l) ≡ erase item_key k (stored chunk) =
        rw hit.removed (values-remove_key item_key k l) in
      let sum = total-erase k (stored chunk) a hit.found in
      record {
        valid = record {
          agree = rw hit.keyed (remove-Agree item_key l v.agree k i a hit);
          bytes = rw left (
              ground
                (arith, v.bytes, v.small, sum, laws.max_int-if (sub64 chunk.num_bytes a.size) 0));
          small = rw left (omega (arith, v.small));
          marked = rw left (erase-Marked chunk.immune_keys k (stored chunk) v.marked);
          immune_once = v.immune_once;
        };
        left = left;
        config = refl;
        immune_keys = refl;
      }
