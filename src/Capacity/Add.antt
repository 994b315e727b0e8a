-- ===== src/Capacity/Add.antt =====
-- AddSized and AddSizedIfMissing of capacityLRUCache.go against the abstract cache: the new entry
-- goes to the front, in place of the old one of its key, and the list is trimmed.
use drt_go_chain_storage.Base.{
  ℕ, ◌^◌, ◌<◌, Eq, ◌≡◌, refl, sym, ◌∙◌, ap, subst, Bool, true, false, none, some, List, ◌∷◌, ltb,
  if◌then◌else◌, length, arith, is_negative, add64, sub64, Option-cases, inl, inr, not, ◌&&◌,
}
use drt_go_chain_storage.Base.GoMap.{lookup, has}
use drt_go_chain_storage.Base.Linked.{values, remove_id, write_id, find_id}
use drt_go_chain_storage.Base.Keyed.{erase, erase_absent, values-remove_key}
use drt_go_chain_storage.Base.Agree.{
  Agree, Hit, Agree-miss, Agree-Hit, push_front-Agree, move_to_front-Agree, write-Agree,
}
use drt_go_chain_storage.Capacity.{
  Entry, CapacityLru, add_new, update, adjust_size, evict_if_needed, add_sized_no_evict, add_sized,
  add_sized_if_missing,
}
use drt_go_chain_storage.Capacity.Valid.{
  entries, total, entry_key, IsCoherent, IsValid, total-erase, sizes-erase, size-find,
}
use drt_go_chain_storage.Capacity.Evict.{Trimmed, evict_if_needed-Evicted, evict_if_needed_valid}
use mathlib.Core.Option

module _ {ℓ} {K V : Type ℓ} ⦃e : Eq K⦄ (k : K) (v : V) (s : ℕ) where
  -- the abstract write: the entry at the front, in place of the one with the key
  abbrev pub touch : List (Entry K V) → List (Entry K V)
  touch l = record { key = k; value = v; size = s } ∷ erase entry_key k l

  module _ (c : CapacityLru K V) (h : IsCoherent c) (fine : s < 2 ^ 63) where
    -- a key that is not in the cache
    pub add_new-IsCoherent :
        lookup k c.items ≡ none
        → IsCoherent (add_new k v s c) × (entries (add_new k v s c) ≡ touch (entries c))
    unfolding add_new
    add_new-IsCoherent miss =
        let ent : Entry K V = record { key = k; value = v; size = s } in
        let absent = (Agree-miss entry_key k c.evict_list.elems h.agree miss).1 in
        (
          record {
            agree = push_front-Agree entry_key c.evict_list.elems h.agree ent miss;
            bytes = omega (arith, h.bytes);
            sizes = (fine, h.sizes);
            positive = h.positive;
            capacity = h.capacity;
          },
          ap (◌∷◌ ent) (sym (erase_absent entry_key k (entries c) absent)),
        )

    -- the state in which `update` enters the eviction loop
    abbrev updated : ℕ → Entry K V → CapacityLru K V
    updated i a = record c {
      evict_list = record {
        next = c.evict_list.next;
        elems = (i, record { key = a.key; value = v; size = s }) ∷ remove_id i c.evict_list.elems;
      };
      current_capacity_in_bytes =
          add64 (sub64 (add64 c.current_capacity_in_bytes (sub64 s a.size)) s) s;
    }

    update-updated :
        (i : ℕ) (a : Entry K V)
        → lookup k c.items ≡ some i
        → Hit entry_key k i c.evict_list.elems a
        → update k v s i c ≡ Option.map (λ r. r.0) (evict_if_needed (updated i a))
    unfolding update adjust_size write_id find_id
    update-updated i a there hit = ground (arith, there, hit.value)

    updated-Agree :
        (i : ℕ) (a : Entry K V)
        → Hit entry_key k i c.evict_list.elems a
        → Agree entry_key c.items c.evict_list.next (updated i a).evict_list.elems
    unfolding write_id
    updated-Agree i a hit =
        let rest = remove_id i c.evict_list.elems in
        let b : Entry K V = record { key = a.key; value = v; size = s } in
        let front = move_to_front-Agree entry_key c.evict_list.elems h.agree k i a hit in
        let there : lookup k c.items ≡ some i = ground (arith, h.agree.points k, hit.there) in
        let (a', hit') = Agree-Hit entry_key k ((i, a) ∷ rest) i front there in
        let wrote : write_id i b ((i, a) ∷ rest) ≡ (i, b) ∷ rest = ground arith in
        subst (λ l. Agree entry_key c.items c.evict_list.next l) wrote
          (write-Agree entry_key ((i, a) ∷ rest) front k i a' b hit' (hit.keyed ∙ sym hit'.keyed))

    updated-IsCoherent :
        (i : ℕ) (a : Entry K V)
        → Hit entry_key k i c.evict_list.elems a
        → IsCoherent (updated i a) × (entries (updated i a) ≡ touch (entries c))
    updated-IsCoherent i a hit =
        let l = c.evict_list.elems in
        let left : values (remove_id i l) ≡ erase entry_key k (entries c) =
          rw hit.removed (values-remove_key entry_key k l) in
        let sum = total-erase k (entries c) a hit.found in
        let small = size-find k (entries c) a h.sizes hit.found in
        (
          record {
            agree = updated-Agree i a hit;
            bytes = omega (arith, h.bytes, ap total left);
            sizes = (fine, rw left (sizes-erase k (entries c) h.sizes));
            positive = h.positive;
            capacity = h.capacity;
          },
          rw (left, hit.keyed),
        )

  -- What a write of `k`, `v` and `s` gives: a valid state of the same limits, whose entries are the
  -- touched ones, trimmed.
  pub record Added (c : CapacityLru K V) (c' : CapacityLru K V) : Type ℓ where
    pub valid : IsValid c'
    pub size : c'.size ≡ c.size
    pub capacity : c'.max_capacity_in_bytes ≡ c.max_capacity_in_bytes
    pub trimmed : Trimmed c.size c.max_capacity_in_bytes (touch (entries c)) (entries c')

  module _ (c : CapacityLru K V) (valid : IsValid c) (fine : s < 2 ^ 63)
      (small : total (touch (entries c)) < 2 ^ 63) where
    add_new-Added :
        lookup k c.items ≡ none
        → (c' : CapacityLru K V) × (r : Bool) × (evict_if_needed (add_new k v s c) ≡ some (c', r))
          × Added c c'
          × (r ≡ ltb (length (entries c')) (length (touch (entries c))))
    unfolding add_new
    add_new-Added miss =
        let (coherent, left) = add_new-IsCoherent c valid.coherent fine miss in
        let (c', r, run, t) =
          evict_if_needed-Evicted (add_new k v s c) coherent (omega (arith, ap total left)) in
        (
          c',
          r,
          run,
          record {
            valid = t.valid;
            size = t.size;
            capacity = t.capacity;
            trimmed =
                subst (λ l. Trimmed c.size c.max_capacity_in_bytes l (entries c')) left t.trimmed;
          },
          ground (arith, t.flag, ap (length {A = Entry K V}) left),
        )

    -- `update` evicts by itself, so the eviction after it finds nothing to do
    pub update-Added :
        (i : ℕ)
        → lookup k c.items ≡ some i
        → (c' : CapacityLru K V) × (update k v s i c ≡ some c')
          × Added c c'
          × (evict_if_needed c' ≡ some (c', false))
    update-Added i there =
        let (a, hit) = Agree-Hit entry_key k c.evict_list.elems i valid.coherent.agree there in
        let (coherent, left) = updated-IsCoherent c valid.coherent fine i a hit in
        let (c', r, run, t) =
          evict_if_needed-Evicted (updated c valid.coherent fine i a) coherent
            (omega (arith, ap total left)) in
        (
          c',
          rw (update-updated c valid.coherent fine i a there hit, run) refl,
          record {
            valid = t.valid;
            size = t.size;
            capacity = t.capacity;
            trimmed =
                subst (λ l. Trimmed c.size c.max_capacity_in_bytes l (entries c')) left t.trimmed;
          },
          evict_if_needed_valid c' t.valid,
        )

    -- AddSized with a size that is not negative (below 2^63) on a valid cache, the sizes summing to
    -- less than 2^63, returns a valid cache that holds the entry and the most recently used others,
    -- as many as the limits let it, and reports an eviction exactly when the key is new and an
    -- entry goes.
    pub add_sized-Added :
        (c' : CapacityLru K V) × (r : Bool) × (add_sized k v s c ≡ some (c', r))
        × Added c c'
        × (r ≡ (not (has k c.items) && ltb (length (entries c')) (length (touch (entries c)))))
    unfolding add_sized add_sized_no_evict
    add_sized-Added = elim (Option-cases (lookup k c.items)) [
      | inl miss ↦
          let (c', r, run, added, flag) = add_new-Added miss in
          (c', r, ground (arith, run, miss), added, ground (arith, flag, miss))
      | inr (i, there) ↦
          let (c', run, added, again) = update-Added i there in
          (c', false, ground (arith, run, there, again), added, ground (arith, there))
    ]

  -- AddSizedIfMissing is AddSized on a new key, and leaves the cache alone on a key that it holds
  -- and on a negative size.
  pub add_sized_if_missing-add_sized :
      (c : CapacityLru K V)
      → add_sized_if_missing k v s c ≡ (
          if is_negative s
          then some (c, false, false)
          else if has k c.items
          then some (c, true, false)
          else Option.map (λ r. (r.0, false, r.1)) (add_sized k v s c))
  unfolding add_sized_if_missing add_sized add_sized_no_evict
  add_sized_if_missing-add_sized c =
      ground
        (arith, Option-cases (lookup k c.items), Option-cases (evict_if_needed (add_new k v s c)))

  -- AddSized with a negative size changes nothing.
  pub add_sized_negative :
      (c : CapacityLru K V) → IsValid c → is_negative s ≡ true → add_sized k v s c ≡ some (c, false)
  unfolding add_sized add_sized_no_evict
  add_sized_negative c valid h = rw h (evict_if_needed_valid c valid)
