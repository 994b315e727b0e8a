-- ===== src/Immunity/Chunk/Insert.antt =====
-- addItemNoLock, immunizeItemOnAddNoLock and trackNumBytesOnAddNoLock of immunitycache/chunk.go: a
-- new item goes to the back of the chunk, immune if its key is.
use drt_go_chain_storage.Base.{
  ℕ, suc, ◌+◌, ◌^◌, ◌<◌, ◌≡◌, refl, sym, ◌∙◌, ap, subst, false, none, some, List, [], ◌∷◌, ◌++◌,
  if◌then◌else◌, add64, arith, inl, inr, Bool-cases,
}
use drt_go_chain_storage.Base.Bytes.{Bytes, bytes_eq, bytes_beq_iff}
use drt_go_chain_storage.Base.GoMap.{GoMap, lookup, has, insert, lookup-insert}
use drt_go_chain_storage.Base.Linked
use drt_go_chain_storage.Base.Linked.{values, find_id, write_id, find_id-fresh}
use drt_go_chain_storage.Base.Agree.{push_back-Agree}
use drt_go_chain_storage.Core.{Flag, FlagLaws, Maxima}
use drt_go_chain_storage.Immunity.Chunk.{
  CacheItem, ImmunityChunk, is_immune_to_eviction, immunize_against_eviction, insert_item,
  track_num_bytes_on_add_no_lock, immunize_item_on_add_no_lock, add_item_no_lock, immunize_item,
}
use drt_go_chain_storage.Immunity.Chunk.Valid.{stored, item_key, IsValid, total, Marked}

module _ {P F : Type 0} ⦃f : Flag F⦄ where
  -- the item as it is put into the chunk
  abbrev pub marked_item : CacheItem P F → ImmunityChunk P F → CacheItem P F
  marked_item item chunk =
      if has item.key chunk.immune_keys then immunize_against_eviction item else item

  write_id-append :
      (n : ℕ) (a b : CacheItem P F) (l : List (ℕ × CacheItem P F))
      → find_id n l ≡ none
      → (write_id n b (l ++ (n, a) ∷ []) ≡ l ++ (n, b) ∷ [])
        × (find_id n (l ++ (n, a) ∷ []) ≡ some a)
  unfolding write_id find_id
  write_id-append n a b [] h = (ground arith, ground arith)
  write_id-append n a b (x ∷ l) h =
      let rest = write_id-append n a b l in (ground (arith, rest), ground (arith, rest))

  -- the chunk with one more element at the back
  abbrev appended : CacheItem P F → ImmunityChunk P F → ImmunityChunk P F
  appended item chunk = record chunk {
    items = insert item.key chunk.items_as_list.next chunk.items;
    items_as_list = record {
      next = suc chunk.items_as_list.next;
      elems = chunk.items_as_list.elems ++ (chunk.items_as_list.next, item) ∷ [];
    };
  }

  pub immunize_item_found :
      (k : Bytes) (i : ℕ) (item : CacheItem P F) (chunk : ImmunityChunk P F)
      → lookup k chunk.items ≡ some i
      → find_id i chunk.items_as_list.elems ≡ some item
      → immunize_item k chunk ≡ record chunk {
        items_as_list = Linked.write i (immunize_against_eviction item) chunk.items_as_list;
      }
  unfolding immunize_item
  immunize_item_found k i item chunk p q = rw (p, immunize_item) (rw (q, immunize_item) refl)

  immunize_appended :
      (item : CacheItem P F) (chunk : ImmunityChunk P F)
      → IsValid chunk
      → immunize_item item.key (appended item chunk)
        ≡ appended (immunize_against_eviction item) chunk
  unfolding immunize_item immunize_against_eviction
  immunize_appended item chunk v =
      let n = chunk.items_as_list.next in
      let l = chunk.items_as_list.elems in
      let fresh = find_id-fresh n n l v.agree.ids (omega arith) in
      let (written, there) = write_id-append n item (immunize_against_eviction item) l fresh in
      let pointed : lookup item.key (insert item.key n chunk.items) ≡ some n =
        ground
          (arith, lookup-insert item.key item.key n chunk.items, bytes_beq_iff item.key item.key) in
      immunize_item_found item.key n item (appended item chunk) pointed there
      ∙ ap
          (λ l'. record (appended item chunk) {
            items_as_list = record { next = suc n; elems = l' };
          })
          written

  insert_item_lem :
      (m : Maxima) (item : CacheItem P F) (chunk : ImmunityChunk P F)
      → IsValid chunk
      → insert_item m item chunk ≡ record (appended (marked_item item chunk) chunk) {
        num_bytes = add64 chunk.num_bytes item.size;
      }
  unfolding insert_item track_num_bytes_on_add_no_lock immunize_item_on_add_no_lock add_item_no_lock
      immunize_against_eviction
  insert_item_lem m item chunk v =
      let marked : immunize_item_on_add_no_lock item (add_item_no_lock item chunk)
          ≡ appended (marked_item item chunk) chunk =
        elim (Bool-cases (has item.key chunk.immune_keys)) [
          | inl immune ↦ rw immune (immunize_appended item chunk v)
          | inr mortal ↦ rw mortal refl
        ] in
      ap (track_num_bytes_on_add_no_lock item) marked

  append-Marked :
      (x : CacheItem P F) (immune : GoMap Bytes (Unit {0})) (l : List (CacheItem P F))
      → Marked immune l
      → is_immune_to_eviction x ≡ has x.key immune
      → Marked immune (l ++ x ∷ [])
  append-Marked x immune [] p h = (h, tt)
  append-Marked x immune (y ∷ l) p h = (p.0, append-Marked x immune l p.1 h)

  total-append :
      (x : CacheItem P F) (l : List (CacheItem P F)) → total (l ++ x ∷ []) ≡ total l + x.size
  total-append x [] = omega arith
  total-append x (y ∷ l) = omega (arith, total-append x l)

  pub values-append :
      (x : ℕ × CacheItem P F) (l : List (ℕ × CacheItem P F))
      → values (l ++ x ∷ []) ≡ values l ++ x.1 ∷ []
  values-append x [] = refl
  values-append x (y ∷ l) = ap (◌∷◌ y.1) (values-append x l)

  pub marked_item_lem :
      (laws : FlagLaws f) (item : CacheItem P F) (chunk : ImmunityChunk P F)
      → is_immune_to_eviction item ≡ false
      → ((marked_item item chunk).key ≡ item.key)
        × ((marked_item item chunk).size ≡ item.size)
        × ((marked_item item chunk).payload ≡ item.payload)
        × (is_immune_to_eviction (marked_item item chunk) ≡ has item.key chunk.immune_keys)
  unfolding immunize_against_eviction is_immune_to_eviction
  marked_item_lem laws item chunk fresh = elim (Bool-cases (has item.key chunk.immune_keys)) [
    | inl immune ↦ rw immune (refl, refl, refl, laws.is_set-set item.is_immune)
    | inr mortal ↦ rw mortal (refl, refl, refl, fresh)
  ]

  -- a new item goes to the back, immune if its key is
  pub record Inserted (item : CacheItem P F) (chunk chunk' : ImmunityChunk P F) : Type 0 where
    pub valid : IsValid chunk'
    pub left : stored chunk' ≡ stored chunk ++ marked_item item chunk ∷ []
    pub config : chunk'.config ≡ chunk.config
    pub immune_keys : chunk'.immune_keys ≡ chunk.immune_keys

  pub insert_item-Inserted :
      (m : Maxima) (laws : FlagLaws f) (item : CacheItem P F) (chunk : ImmunityChunk P F)
      → IsValid chunk
      → lookup item.key chunk.items ≡ none
      → is_immune_to_eviction item ≡ false
      → total (stored chunk) + item.size < 2 ^ 63
      → Inserted item chunk (insert_item m item chunk)
  insert_item-Inserted m laws item chunk v absent fresh small =
      let l = chunk.items_as_list.elems in
      let n = chunk.items_as_list.next in
      let x = marked_item item chunk in
      let (key, size, payload, immune) = marked_item_lem laws item chunk fresh in
      let left : values (l ++ (n, x) ∷ []) ≡ values l ++ x ∷ [] = values-append (n, x) l in
      let sum : total (values (l ++ (n, x) ∷ [])) ≡ total (values l) + item.size =
        ap total left ∙ total-append x (values l) ∙ ap (λ k. total (values l) + k) size in
      subst (Inserted item chunk) (sym (insert_item_lem m item chunk v)) (record {
        valid = record {
          agree =
              push_back-Agree item_key l v.agree x (ap (λ k. lookup k chunk.items) key ∙ absent);
          bytes = omega (arith, sum, v.bytes, small);
          small = omega (arith, sum, small);
          marked = subst (Marked chunk.immune_keys) (sym left) (
              append-Marked x chunk.immune_keys (values l) v.marked
                (immune ∙ ap (λ k. has k chunk.immune_keys) (sym key)));
          immune_once = v.immune_once;
        };
        left = left;
        config = refl;
        immune_keys = refl;
      })
