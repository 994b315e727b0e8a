-- ===== src/Capacity/Reads.antt =====
-- Get, Peek, Contains, Remove and Purge of capacityLRUCache.go against the abstract cache.
use drt_go_chain_storage.Base.{
  ℕ, ◌≤◌, Eq, ◌≡◌, refl, sym, false, none, some, List, [], ◌∷◌, length, arith, Option-cases, inl,
  inr, is_some,
}
use drt_go_chain_storage.Base.GoMap.{lookup}
use drt_go_chain_storage.Base.Linked.{values, remove_id, find_id}
use drt_go_chain_storage.Base.Keyed.{
  find, find_key, erase, erase_absent, values-remove_key, length-erase,
}
use drt_go_chain_storage.Base.Agree.{Hit, Agree-miss, Agree-Hit, move_to_front-Agree}
use drt_go_chain_storage.Capacity.{
  Entry, CapacityLru, get, peek, contains, remove, remove_element, purge,
}
use drt_go_chain_storage.Capacity.Valid.{
  entries, total, over, entry_key, IsCoherent, IsValid, total-erase, sizes-erase, size-find,
  remove_element-Removed,
}
use mathlib.Core.Option

over_mono {ℓ} :
    {K V : Type ℓ} (size max : ℕ) (l l' : List (Entry K V))
    → over size max l ≡ false
    → length l' ≤ length l
    → total l' ≤ total l
    → over size max l' ≡ false
over_mono size max l [] h p q = ground arith
over_mono size max l (x ∷ l') h p q = ground arith

module _ {ℓ} {K V : Type ℓ} ⦃e : Eq K⦄ where
  -- the entry of the key moved to the front
  abbrev pub recall : K → List (Entry K V) → List (Entry K V)
  recall k l = elim (find entry_key k l) [ none ↦ l | some a ↦ a ∷ erase entry_key k l ]

  pub record Recalled (k : K) (c c' : CapacityLru K V) : Type ℓ where
    pub valid : IsValid c'
    pub order : entries c' ≡ recall k (entries c)

  -- Peek and Contains read the abstract cache; nothing is moved.
  pub peek-find :
      (k : K) (c : CapacityLru K V)
      → IsCoherent c
      → (peek k c ≡ Option.map (λ x. x.value) (find entry_key k (entries c)))
        × (contains k c ≡ is_some (find entry_key k (entries c)))
  unfolding peek contains
  peek-find k c h = elim (Option-cases (lookup k c.items)) [
    | inl miss ↦
        let absent = Agree-miss entry_key k c.evict_list.elems h.agree miss in
        ground (arith, miss, absent.1)
    | inr (i, there) ↦
        let (a, hit) = Agree-Hit entry_key k c.evict_list.elems i h.agree there in
        ground (arith, there, hit.value, hit.found)
  ]

  -- the state after a hit of Get
  abbrev fronted : ℕ → Entry K V → CapacityLru K V → CapacityLru K V
  fronted i a c = record c {
    evict_list = record {
      next = c.evict_list.next;
      elems = (i, a) ∷ remove_id i c.evict_list.elems;
    };
  }

  get-fronted :
      (k : K) (c : CapacityLru K V) (i : ℕ) (a : Entry K V)
      → lookup k c.items ≡ some i
      → find_id i c.evict_list.elems ≡ some a
      → get k c ≡ (fronted i a c, some a.value)
  unfolding get find_id
  get-fronted k c i a there value = ground (arith, there, value)

  fronted-Recalled :
      (k : K) (c : CapacityLru K V) (i : ℕ) (a : Entry K V)
      → IsValid c
      → Hit entry_key k i c.evict_list.elems a
      → Recalled k c (fronted i a c)
  fronted-Recalled k c i a v hit =
      let l = c.evict_list.elems in
      let h = v.coherent in
      let left : values (remove_id i l) ≡ erase entry_key k (entries c) =
        rw hit.removed (values-remove_key entry_key k l) in
      let sum = total-erase k (entries c) a hit.found in
      let size = length-erase entry_key k (entries c) in
      record {
        valid = record {
          coherent = record {
            agree = move_to_front-Agree entry_key l h.agree k i a hit;
            bytes = rw left (omega (arith, h.bytes));
            sizes = (
              size-find k (entries c) a h.sizes hit.found,
              rw left (sizes-erase k (entries c) h.sizes),
            );
            positive = h.positive;
            capacity = h.capacity;
          };
          within =
              over_mono c.size c.max_capacity_in_bytes (entries c) (a ∷ values (remove_id i l))
                v.within (rw left (ground (arith, size, hit.found))) (rw left (omega arith));
        };
        order = rw (hit.found, recall, left) refl;
      }

  -- Get returns the value of the key, moves its entry to the front and leaves the order of the
  -- others; a miss changes nothing.
  pub get-Recalled :
      (k : K) (c : CapacityLru K V)
      → IsValid c
      → Recalled k c (get k c).0
        × ((get k c).1 ≡ Option.map (λ x. x.value) (find entry_key k (entries c)))
  unfolding get
  get-Recalled k c v = elim (Option-cases (lookup k c.items)) [
    | inl miss ↦
        let absent = (Agree-miss entry_key k c.evict_list.elems v.coherent.agree miss).1 in
        rw (miss, get) (record { valid = v; order = rw (absent, recall) refl }, rw absent)
    | inr (i, there) ↦
        let (a, hit) = Agree-Hit entry_key k c.evict_list.elems i v.coherent.agree there in
        rw (get-fronted k c i a there hit.value) (fronted-Recalled k c i a v hit, rw hit.found)
  ]

  -- Remove takes the entry of the key out, and reports whether there was one.
  pub remove-erase :
      (k : K) (c : CapacityLru K V)
      → IsValid c
      → IsValid (remove k c).0
        × (entries (remove k c).0 ≡ erase entry_key k (entries c))
        × ((remove k c).1 ≡ is_some (find entry_key k (entries c)))
  unfolding remove remove_element
  remove-erase k c v = elim (Option-cases (lookup k c.items)) [
    | inl miss ↦
        let absent = Agree-miss entry_key k c.evict_list.elems v.coherent.agree miss in
        rw (miss, remove) (v, sym (erase_absent entry_key k (entries c) absent.1), rw absent.1)
    | inr (i, there) ↦
        let (a, hit) = Agree-Hit entry_key k c.evict_list.elems i v.coherent.agree there in
        let r = remove_element-Removed c k i a v.coherent hit in
        rw (there, hit.value, remove)
          (
            record {
              coherent = r.coherent;
              within =
                  over_mono c.size c.max_capacity_in_bytes (entries c) _ v.within
                    (rw r.left (omega (arith, length-erase entry_key k (entries c))))
                    (rw r.left (omega (arith, total-erase k (entries c) a hit.found)));
            },
            r.left,
            rw hit.found,
          )
  ]

  -- Purge empties a valid cache.
  pub purge-IsValid :
      (c : CapacityLru K V) → IsValid c → IsValid (purge c) × (entries (purge c) ≡ [])
  unfolding purge lookup find_key
  purge-IsValid c v = (
    record {
      coherent = record {
        agree = record { ids = tt; keys = tt; once = tt; points = λ k. refl; count = refl };
        bytes = refl;
        sizes = tt;
        positive = v.coherent.positive;
        capacity = v.coherent.capacity;
      };
      within = ground arith;
    },
    refl,
  )
