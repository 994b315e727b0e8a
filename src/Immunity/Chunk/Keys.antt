-- ===== src/Immunity/Chunk/Keys.antt =====
-- RemoveItem and ImmunizeKeys of immunitycache/chunk.go.
use drt_go_chain_storage.Base.{
  ℕ, suc, ◌+◌, ◌≡◌, ◌≢◌, refl, sym, ◌∙◌, ap, subst, Bool, true, false, none, some, List, [], ◌∷◌,
  map, ◌==◌, if◌then◌else◌, is_some, All, length, arith, Option-cases, inl, inr, Bool-cases,
}
use drt_go_chain_storage.Base.Bytes.{Bytes, bytes_eq, bytes_beq, bytes_beq_iff}
use drt_go_chain_storage.Base.GoMap.{
  GoMap, lookup, has, insert, delete, lookup-insert, lookup-delete, delete-Distinct,
  insert-Distinct, Distinct,
}
use drt_go_chain_storage.Base.Linked.{values, find_id, write_id}
use drt_go_chain_storage.Base.Keyed.{find, erase, erase_absent, DistinctKeys}
use drt_go_chain_storage.Base.Agree.{Agree-miss, Agree-Hit, write-Agree}
use drt_go_chain_storage.Core.{Flag, FlagLaws, Maxima, MaximaLaws}
use drt_go_chain_storage.Immunity.Chunk.{
  CacheItem, ImmunityChunk, is_immune_to_eviction, immunize_against_eviction, immunize_item,
  immunize_key, immunize_keys, remove_item, remove_no_lock, get_item_no_lock,
  track_num_bytes_on_remove_no_lock,
}
use drt_go_chain_storage.Immunity.Chunk.Valid.{
  stored, item_key, IsValid, total, Marked, remove_no_lock-Removed,
}
use drt_go_chain_storage.Immunity.Chunk.Insert.{immunize_item_found}

module _ {P F : Type 0} ⦃f : Flag F⦄ where
  forgotten_absent :
      (immune : GoMap Bytes (Unit {0})) (k : Bytes) (l : List (CacheItem P F))
      → Distinct immune
      → find item_key k l ≡ none
      → Marked immune l
      → Marked (delete k immune) l
  unfolding find
  forgotten_absent immune k [] once h p = tt
  forgotten_absent immune k (x ∷ l) once h p = ground (
    arith,
    forgotten_absent immune k l once,
    lookup-delete k x.key immune once,
    bytes_beq_iff x.key k,
    bytes_beq_iff k x.key,
  )

  erase-forgotten :
      (immune : GoMap Bytes (Unit {0})) (k : Bytes) (l : List (CacheItem P F))
      → Distinct immune
      → DistinctKeys item_key l
      → Marked immune l
      → Marked (delete k immune) (erase item_key k l)
  unfolding erase find
  erase-forgotten immune k [] once d p = tt
  erase-forgotten immune k (x ∷ l) once d p = elim (Bool-cases (bytes_beq x.key k)) [
    | inl same ↦
        let absent = subst (λ q. find item_key q l ≡ none) ((bytes_beq_iff x.key k).0 same) d.0 in
        rw same (forgotten_absent immune k l once absent p.1)
    | inr other ↦ rw other (
      ground (
        arith,
        p.0,
        lookup-delete k x.key immune once,
        bytes_beq_iff x.key k,
        bytes_beq_iff k x.key,
        other,
      ),
      erase-forgotten immune k l once d.1 p.1,
    )
  ]

  -- what RemoveItem gives: the chunk, and whether the item was there
  pub record Forgotten (k : Bytes) (chunk : ImmunityChunk P F) (r : ImmunityChunk P F × Bool)
      : Type 0 where
    pub valid : IsValid r.0
    pub left : stored r.0 ≡ erase item_key k (stored chunk)
    pub was_there : r.1 ≡ is_some (find item_key k (stored chunk))
    pub mortal : has k r.0.immune_keys ≡ false
    pub config : r.0.config ≡ chunk.config

  -- RemoveItem on a valid chunk takes out the item of the key, immune or not, forgets that the key
  -- is immune, says whether the item was there, and keeps the chunk valid.
  pub remove_item-Forgotten :
      (m : Maxima) (laws : MaximaLaws m) (k : Bytes) (chunk : ImmunityChunk P F)
      → IsValid chunk
      → Forgotten k chunk (remove_item m k chunk)
  unfolding remove_item remove_no_lock track_num_bytes_on_remove_no_lock
  remove_item-Forgotten m laws k chunk v =
      let l = chunk.items_as_list.elems in
      let marked =
        erase-forgotten chunk.immune_keys k (stored chunk) v.immune_once v.agree.keys v.marked in
      let mortal : has k (delete k chunk.immune_keys) ≡ false =
        ground (arith, lookup-delete k k chunk.immune_keys v.immune_once, bytes_beq_iff k k) in
      elim (Option-cases (lookup k chunk.items)) [
        | inl absent ↦
            let (_, miss) = Agree-miss item_key k l v.agree absent in
            let same : erase item_key k (stored chunk) ≡ stored chunk =
              erase_absent item_key k (stored chunk) miss in
            rw (absent, remove_item)
              (record {
                valid = record {
                  agree = v.agree;
                  bytes = v.bytes;
                  small = v.small;
                  marked = subst (Marked (delete k chunk.immune_keys)) same marked;
                  immune_once = delete-Distinct k chunk.immune_keys v.immune_once;
                };
                left = sym same;
                was_there = rw miss refl;
                mortal = mortal;
                config = refl;
              })
        | inr (i, there) ↦
            let (a, hit) = Agree-Hit item_key k l i v.agree there in
            let r = remove_no_lock-Removed m laws chunk k i a v hit in
            rw (there, remove_item)
              (rw (hit.value, remove_item)
                (record {
                  valid = record {
                    agree = r.valid.agree;
                    bytes = r.valid.bytes;
                    small = r.valid.small;
                    marked = subst (Marked (delete k chunk.immune_keys)) (sym r.left) marked;
                    immune_once = delete-Distinct k chunk.immune_keys v.immune_once;
                  };
                  left = r.left;
                  was_there = rw hit.found refl;
                  mortal = mortal;
                  config = refl;
                }))
      ]

  immunized_absent :
      (immune : GoMap Bytes (Unit {0})) (k : Bytes) (l : List (CacheItem P F))
      → find item_key k l ≡ none
      → Marked immune l
      → Marked (insert k tt immune) l
  unfolding find
  immunized_absent immune k [] h p = tt
  immunized_absent immune k (x ∷ l) h p = ground (
    arith,
    immunized_absent immune k l,
    lookup-insert k x.key tt immune,
    bytes_beq_iff x.key k,
    bytes_beq_iff k x.key,
  )

  find-of_find_id :
      (i : ℕ) (a : CacheItem P F) (l : List (ℕ × CacheItem P F))
      → find_id i l ≡ some a
      → find item_key a.key (values l) ≢ none
  unfolding find find_id
  find-of_find_id i a [] h = cc
  find-of_find_id i a (x ∷ l) h = ground (arith, find-of_find_id i a l, bytes_beq_iff x.1.key a.key)

  -- the item of an element replaced by itself made immune
  write-Marked :
      (immune : GoMap Bytes (Unit {0})) (i : ℕ) (a b : CacheItem P F) (l : List (ℕ × CacheItem P F))
      → find_id i l ≡ some a
      → b.key ≡ a.key
      → b.size ≡ a.size
      → is_immune_to_eviction b ≡ true
      → DistinctKeys item_key (values l)
      → Marked immune (values l)
      → Marked (insert a.key tt immune) (values (write_id i b l))
        × (total (values (write_id i b l)) ≡ total (values l))
        × (map item_key (values (write_id i b l)) ≡ map item_key (values l))
  unfolding find_id write_id find
  write-Marked immune i a b [] h key size mark d p = cc
  write-Marked immune i a b (x ∷ l) h key size mark d p = elim (Bool-cases (x.0 == i)) [
    | inl here ↦
        let same : x.1 ≡ a = ground (arith, h, here) in
        let absent : find item_key a.key (values l) ≡ none =
          subst (λ (y : CacheItem P F). find item_key y.key (values l) ≡ none) same d.0 in
        rw here (
          (
            ground
                (arith, mark, key, lookup-insert a.key b.key tt immune, bytes_beq_iff a.key b.key),
            immunized_absent immune a.key (values l) absent p.1,
          ),
          omega (arith, size, ap (λ (y : CacheItem P F). y.size) same),
          ap (λ q. q ∷ map item_key (values l))
              (key ∙ ap (λ (y : CacheItem P F). y.key) (sym same)),
        )
    | inr later ↦
        let (marked, sum, keys) =
          write-Marked immune i a b l (ground (arith, h, later)) key size mark d.1 p.1 in
        rw later (
          (
            ground (
              arith,
              d.0,
              p.0,
              find-of_find_id i a l,
              h,
              later,
              lookup-insert a.key x.1.key tt immune,
              bytes_beq_iff a.key x.1.key,
            ),
            marked,
          ),
          omega (arith, sum),
          ap (◌∷◌ x.1.key) keys,
        )
  ]

  -- what immunizing a key gives: a valid chunk of the same items in the same order
  pub record Immunized (k : Bytes) (chunk chunk' : ImmunityChunk P F) : Type 0 where
    pub valid : IsValid chunk'
    pub order : map item_key (stored chunk') ≡ map item_key (stored chunk)
    pub immune : has k chunk'.immune_keys ≡ true
    pub kept : (q : Bytes) → has q chunk.immune_keys ≡ true → has q chunk'.immune_keys ≡ true

  immunize_key-Immunized :
      (laws : FlagLaws f) (k : Bytes) (chunk : ImmunityChunk P F)
      → IsValid chunk
      → Immunized k chunk (immunize_key k chunk)
  unfolding immunize_key immunize_item immunize_against_eviction is_immune_to_eviction
  immunize_key-Immunized laws k chunk v =
      let l = chunk.items_as_list.elems in
      let once = insert-Distinct k tt chunk.immune_keys v.immune_once in
      let immune : has k (insert k tt chunk.immune_keys) ≡ true =
        ground (arith, lookup-insert k k tt chunk.immune_keys, bytes_beq_iff k k) in
      let kept : (q : Bytes)
          → has q chunk.immune_keys ≡ true
          → has q (insert k tt chunk.immune_keys) ≡ true =
        λ q h. ground (arith, h, lookup-insert k q tt chunk.immune_keys) in
      elim (Option-cases (lookup k chunk.items)) [
        | inl absent ↦
            let (_, miss) = Agree-miss item_key k l v.agree absent in
            rw (absent, immunize_item)
              (record {
                valid = record {
                  agree = v.agree;
                  bytes = v.bytes;
                  small = v.small;
                  marked = immunized_absent chunk.immune_keys k (stored chunk) miss v.marked;
                  immune_once = once;
                };
                order = refl;
                immune = immune;
                kept = kept;
              })
        | inr (i, there) ↦
            let (a, hit) = Agree-Hit item_key k l i v.agree there in
            let b = immunize_against_eviction a in
            let (marked, sum, keys) =
              write-Marked chunk.immune_keys i a b l hit.value refl refl
                (laws.is_set-set a.is_immune) v.agree.keys v.marked in
            subst (λ c. Immunized k chunk (record c { immune_keys = insert k tt c.immune_keys }))
              (sym (immunize_item_found k i a chunk there hit.value))
              (record {
                valid = record {
                  agree = write-Agree item_key l v.agree k i a b hit refl;
                  bytes = v.bytes ∙ sym sum;
                  small = omega (arith, sum, v.small);
                  marked =
                      subst (λ q. Marked (insert q tt chunk.immune_keys) (values (write_id i b l)))
                        hit.keyed marked;
                  immune_once = once;
                };
                order = keys;
                immune = immune;
                kept = kept;
              })
      ]

  -- ImmunizeKeys on a valid chunk keeps it valid and its items in order, holds every given key and
  -- every earlier one as immune, and counts each key as immune now or in the future.
  pub immunize_keys-Immunized :
      (laws : FlagLaws f) (keys : List Bytes) (num_now num_future : ℕ) (chunk : ImmunityChunk P F)
      → IsValid chunk
      → IsValid (immunize_keys keys num_now num_future chunk).0
        × (map item_key (stored (immunize_keys keys num_now num_future chunk).0)
            ≡ map item_key (stored chunk))
        × ((q : Bytes)
            → has q chunk.immune_keys ≡ true
            → has q (immunize_keys keys num_now num_future chunk).0.immune_keys ≡ true)
        × All (λ k. has k (immunize_keys keys num_now num_future chunk).0.immune_keys ≡ true) keys
        × ((immunize_keys keys num_now num_future chunk).1
              + (immunize_keys keys num_now num_future chunk).2
            ≡ num_now + num_future + length keys)
  unfolding immunize_keys
  immunize_keys-Immunized laws [] num_now num_future chunk v =
      (v, refl, (λ q h. h), tt, omega arith)
  immunize_keys-Immunized laws (k ∷ keys) num_now num_future chunk v =
      let there = is_some (get_item_no_lock k chunk) in
      let now = if there then suc num_now else num_now in
      let future = if there then num_future else suc num_future in
      let one = immunize_key-Immunized laws k chunk v in
      let (valid, order, kept, all, counted) =
        immunize_keys-Immunized laws keys now future (immunize_key k chunk) one.valid in
      (
        valid,
        order ∙ one.order,
        (λ q h. kept q (one.kept q h)),
        (kept k one.immune, all),
        ground (arith, counted),
      )
