-- ===== src/Immunity/Chunk/Items.antt =====
-- AddItem of immunitycache/chunk.go.
use drt_go_chain_storage.Base.{
  List, [], ◌∷◌, ◌++◌, subst, not, ◌&&◌, ◌+◌, ◌^◌, ◌<◌, ◌≡◌, ◌≢◌, refl, sym, ◌∙◌, ap, Bool, true,
  false, none, some, if◌then◌else◌, is_some, arith, Option-cases, inl, inr, Bool-cases,
}
use drt_go_chain_storage.Base.Bytes.{Bytes, bytes_eq, bytes_beq, bytes_beq_iff}
use drt_go_chain_storage.Base.GoMap.{GoMap, has, lookup}
use drt_go_chain_storage.Base.Keyed.{find}
use drt_go_chain_storage.Base.Agree.{Agree-miss, Agree-Hit, find-append}
use drt_go_chain_storage.Core.{Flag, FlagLaws, Maxima, MaximaLaws}
use drt_go_chain_storage.Immunity.Chunk.{
  CacheItem, ImmunityChunk, is_immune_to_eviction, item_exists_no_lock, add_item, insert_item,
  immunize_against_eviction,
}
use drt_go_chain_storage.Immunity.Chunk.Valid.{stored, item_key, IsValid, total}
use drt_go_chain_storage.Immunity.Chunk.Evict.{Evicted}
use drt_go_chain_storage.Immunity.Chunk.Room.{evict_items_if_capacity_exceeded-Made}
use drt_go_chain_storage.Immunity.Chunk.Room.OnLists.{Rounds, is_stuck}
use drt_go_chain_storage.Immunity.Chunk.Insert.{
  Inserted, insert_item-Inserted, marked_item, marked_item_lem, values-append,
}

module _ {P F : Type 0} ⦃f : Flag F⦄ where
  -- what AddItem gives: the chunk, whether it has the item, and whether the item was added
  pub record Added (item : CacheItem P F) (chunk : ImmunityChunk P F)
      (r : ImmunityChunk P F × Bool × Bool) : Type 0 where
    pub valid : IsValid r.0
    pub config : r.0.config ≡ chunk.config
    pub immune_keys : r.0.immune_keys ≡ chunk.immune_keys
    -- the immune items are there as before
    pub spared :
        (k : Bytes) (x : CacheItem P F)
        → find item_key k (stored chunk) ≡ some x
        → is_immune_to_eviction x ≡ true
        → find item_key k (stored r.0) ≡ some x
    -- nothing but the item is new
    pub nothing_else :
        (k : Bytes)
        → k ≢ item.key
        → find item_key k (stored chunk) ≡ none
        → find item_key k (stored r.0) ≡ none
    pub had : r.1 ≡ true → (is_some (find item_key item.key (stored r.0)) ≡ true) × (r.2 ≡ false)
    pub added : r.2 ≡ true → find item_key item.key (stored r.0) ≡ some (marked_item item chunk)
    -- what the eviction leaves, with the item at the back if it is added
    pub left : List (CacheItem P F)
    pub rounds : Rounds chunk.config (stored chunk) left
    pub items : stored r.0 ≡ (if r.2 then left ++ marked_item item chunk ∷ [] else left)
    -- only an eviction that can take nothing refuses the item
    pub has_report :
        r.1 ≡ (not (is_stuck chunk.config (stored chunk)) && is_some (find item_key item.key left))
    pub added_report : r.2 ≡ (
        not (is_stuck chunk.config (stored chunk)) && not (is_some (find item_key item.key left)))

  -- the items with one more at the back, immune if its key is among those held as immune
  abbrev with_keys :
      CacheItem P F → GoMap Bytes (Unit {0}) → List (CacheItem P F) → List (CacheItem P F)
  with_keys item keys l =
      l ++ (if has item.key keys then immunize_against_eviction item else item) ∷ []

  module _ (m : Maxima) (laws : MaximaLaws m) (flags : FlagLaws f) where
    find-Inserted :
        (item : CacheItem P F) (chunk chunk' : ImmunityChunk P F) (k : Bytes)
        → Inserted item chunk chunk'
        → (marked_item item chunk).key ≡ item.key
        → find item_key k (stored chunk') ≡ (
            if is_some (find item_key k (stored chunk))
            then find item_key k (stored chunk)
            else if bytes_beq item.key k
            then some (marked_item item chunk)
            else none)
    find-Inserted item chunk chunk' k i key =
        let l = chunk.items_as_list.elems in
        let x = marked_item item chunk in
        ap (find item_key k) (i.left ∙ sym (values-append (0, x) l))
        ∙ find-append item_key k l (0, x)
        ∙ rw key refl

    add_item_new :
        (item : CacheItem P F) (chunk made : ImmunityChunk P F)
        → IsValid chunk
        → Evicted chunk made
        → Rounds chunk.config (stored chunk) (stored made)
        → is_stuck chunk.config (stored chunk) ≡ false
        → is_immune_to_eviction item ≡ false
        → lookup item.key made.items ≡ none
        → total (stored chunk) + item.size < 2 ^ 63
        → Added item chunk (insert_item m item made, false, true)
    add_item_new item chunk made v e rounds loose fresh absent small =
        let i =
          insert_item-Inserted m flags item made e.valid absent fresh
            (omega (arith, e.bytes_le, e.valid.bytes, v.bytes, small)) in
        let (key, _, _, _) = marked_item_lem flags item made fresh in
        let found = λ (k : Bytes). find-Inserted item made (insert_item m item made) k i key in
        let (_, missing) =
          Agree-miss item_key item.key made.items_as_list.elems e.valid.agree absent in
        record {
          valid = i.valid;
          config = i.config ∙ e.config;
          immune_keys = i.immune_keys ∙ e.immune_keys;
          spared = λ k x p q. found k ∙ rw (e.spared k x p q) refl;
          nothing_else = λ k other p.
              found k ∙ rw (e.shrunk k p) (ground (arith, bytes_beq_iff item.key k, other));
          had = λ h. cc;
          added = λ h.
              found item.key
              ∙ rw missing (ground (arith, bytes_beq_iff item.key item.key, e.immune_keys));
          left = stored made;
          rounds = rounds;
          items =
              subst (λ keys. stored (insert_item m item made) ≡ with_keys item keys (stored made))
                e.immune_keys i.left;
          has_report = rw (loose, missing) refl;
          added_report = rw (loose, missing) refl;
        }

    -- AddItem of an item that is new, so not immune, and whose size is not negative, the sizes of
    -- the chunk with it summing to less than 2^63, always returns on a valid chunk and keeps it
    -- valid. The items are those that the eviction ahead leaves, in their order, with the item at
    -- the back if it was added, immune if its key is held as immune. The eviction takes rounds of
    -- the oldest items that are not immune, each of them only while a limit is reached, and ends
    -- with items within the limits, or only immune ones, unless the number of items to evict at
    -- once is zero. The chunk refuses the item exactly when a limit is reached and a round takes
    -- nothing; else the item was there or was added. No immune item is lost.
    pub add_item-Added :
        (item : CacheItem P F) (chunk : ImmunityChunk P F)
        → IsValid chunk
        → is_immune_to_eviction item ≡ false
        → total (stored chunk) + item.size < 2 ^ 63
        → (r : ImmunityChunk P F × Bool × Bool) × (add_item m item chunk ≡ some r)
          × Added item chunk r
    unfolding add_item item_exists_no_lock
    add_item-Added item chunk v fresh small =
        let (made, run, e) = evict_items_if_capacity_exceeded-Made m laws chunk v in
        elim (Bool-cases made.1) [
          | inl failed ↦ (
            (made.0, false, false),
            rw (run, failed) refl,
            record {
              valid = e.evicted.valid;
              config = e.evicted.config;
              immune_keys = e.evicted.immune_keys;
              spared = e.evicted.spared;
              nothing_else = λ k o p. e.evicted.shrunk k p;
              had = λ h. cc;
              added = λ h. cc;
              left = stored made.0;
              rounds = e.rounds;
              items = refl;
              has_report = ground (arith, failed, e.flag);
              added_report = ground (arith, failed, e.flag);
            },
          )
          | inr fine ↦ elim (Option-cases (lookup item.key made.0.items)) [
            | inl absent ↦ (
              (insert_item m item made.0, false, true),
              rw (run, fine, absent) refl,
              add_item_new item chunk made.0 v e.evicted e.rounds (cc (fine, e.flag)) fresh absent
                  small,
            )
            | inr (i, there) ↦
                let (a, hit) =
                  Agree-Hit item_key item.key made.0.items_as_list.elems i e.evicted.valid.agree
                    there in
                (
                  (made.0, true, false),
                  rw (run, fine, there) refl,
                  record {
                    valid = e.evicted.valid;
                    config = e.evicted.config;
                    immune_keys = e.evicted.immune_keys;
                    spared = e.evicted.spared;
                    nothing_else = λ k o p. e.evicted.shrunk k p;
                    had = λ h. (rw hit.found refl, refl);
                    added = λ h. cc;
                    left = stored made.0;
                    rounds = e.rounds;
                    items = refl;
                    has_report = rw hit.found (ground (arith, fine, e.flag));
                    added_report = rw hit.found (ground (arith, fine, e.flag));
                  },
                )
          ]
        ]
