-- ===== src/ConcurrentMap/Laws.antt =====
-- The operations of txcache/maps/concurrentMap.go against one abstract map: no operation panics,
-- and each acts on the key alone.
use drt_go_chain_storage.Base.{
  sym, ◌∷◌, ◌++◌, append_nil, append_cons, ℕ, zero, suc, ◌+◌, ◌<◌, ◌≡◌, ◌≢◌, refl, true, false,
  Option, none, some, [], if◌then◌else◌, is_some, not, ◌>>=◌, length, get_elem?, replicate, arith,
  Option-cases, inl, inr, ◌==◌, length-set, length-replicate, get_elem?-set, get_elem?-ne-none,
  Bool-cases, ap, ◌∙◌,
}
use native.Mathlib.Nat.{mod-lt}
use drt_go_chain_storage.Base.Bytes.{Bytes, bytes_eq, bytes_beq, bytes_beq_iff}
use drt_go_chain_storage.Base.GoMap.{
  lookup, insert, delete, has, Distinct, lookup-insert, lookup-delete, insert-Distinct,
  delete-Distinct, length-insert, length-delete,
}
use drt_go_chain_storage.ConcurrentMap.{
  ConcurrentMap, Chunk, chunk_index, get_chunk, put_chunk, new_concurrent_map, clear,
  initialize_chunks, set_value, set_if_absent, get, has_key, remove, clear, count, all_items,
  iter_cb, fnv32,
}
use drt_go_chain_storage.ConcurrentMap.Chunks.{
  PlacedFrom, replicate-PlacedFrom, get_elem?-Distinct, set-PlacedFrom, lookup-all_items,
  all_items-Distinct, length-all_items, count-set,
}

abbrev empty_chunk : {V : Type 0} → Chunk V
empty_chunk = []

module _ {V : Type 0} where
  pub record IsValid (m : ConcurrentMap V) : Type 0 where
    pub positive : 0 < m.n_chunks
    pub chunked : length m.chunks ≡ m.n_chunks
    pub placed : PlacedFrom (chunk_index m) 0 m.chunks

  -- the abstract map: what the chunk of the key holds
  abbrev pub view : ConcurrentMap V → Bytes → Option (Option V)
  view m k = get_elem? m.chunks (chunk_index m k) >>= λ c. lookup k c

  pub chunk_of :
      (m : ConcurrentMap V) (k : Bytes)
      → IsValid m
      → (c : Chunk V) × (get_chunk m k ≡ some c)
        × (view m k ≡ lookup k c)
        × Distinct c
        × ((q : Bytes) → lookup q c ≢ none → chunk_index m q ≡ chunk_index m k)
  unfolding get_chunk
  chunk_of m k v = elim (Option-cases (get_elem? m.chunks (chunk_index m k))) [
    | inl out ↦ absurd (
        get_elem?-ne-none m.chunks (chunk_index m k) (rw v.chunked (mod-lt (fnv32 k) v.positive))
          out)
    | inr (c, there) ↦
        let d = get_elem?-Distinct (chunk_index m) 0 (chunk_index m k) m.chunks c v.placed there in
        (c, there, rw there refl, d.0, λ q h. omega (arith, d.1 q h))
  ]

  -- a chunk written back in which one key has another value
  put_chunk-view :
      (m : ConcurrentMap V) (k : Bytes) (c c' : Chunk V) (w : Option (Option V))
      → IsValid m
      → get_chunk m k ≡ some c
      → Distinct c'
      → ((q : Bytes) → lookup q c' ≡ (if bytes_beq k q then w else lookup q c))
      → IsValid (put_chunk m k c')
        × ((q : Bytes) → view (put_chunk m k c') q ≡ (if bytes_beq k q then w else view m q))
  unfolding get_chunk
  put_chunk-view m k c c' w v there d new =
      let i = chunk_index m k in
      let old = get_elem?-Distinct (chunk_index m) 0 i m.chunks c v.placed there in
      let inside : i < length m.chunks = rw v.chunked (mod-lt (fnv32 k) v.positive) in
      (
        record {
          positive = v.positive;
          chunked = length-set m.chunks i c' ∙ v.chunked;
          placed = set-PlacedFrom (chunk_index m) 0 i m.chunks c' v.placed d λ q h.
              elim (Bool-cases (bytes_beq k q)) [
                | inl same ↦ omega (arith, ap (chunk_index m) ((bytes_beq_iff k q).0 same))
                | inr other ↦ old.1 q (λ e. h (new q ∙ (rw other e)))
              ];
        },
        λ q. elim (Bool-cases (bytes_beq k q)) [
          | inl same ↦
              let at = ap (chunk_index m) ((bytes_beq_iff k q).0 same) in
              ground (arith, at, same, new q, get_elem?-set m.chunks i (chunk_index m q) c' inside)
          | inr other ↦
              ground
                (arith, there, other, new q, get_elem?-set m.chunks i (chunk_index m q) c' inside)
        ],
      )

  replicate-view :
      (k : Bytes) (n i : ℕ)
      → (get_elem? (replicate n (empty_chunk {V = V})) i >>= λ c. lookup k c) ≡ none
  unfolding lookup
  replicate-view k zero i = refl
  replicate-view k (suc n) zero = refl
  replicate-view k (suc n) (suc i) = replicate-view k n i

  -- A new map is valid and empty, with one chunk at least.
  pub new_concurrent_map-IsValid :
      (n : ℕ)
      → IsValid (new_concurrent_map {V = V} n)
        × ((k : Bytes) → view (new_concurrent_map {V = V} n) k ≡ none)
  unfolding new_concurrent_map initialize_chunks
  new_concurrent_map-IsValid n =
      let size = if n == 0 then 1 else n in
      let m : ConcurrentMap V = record { n_chunks = size; chunks = replicate size [] } in
      (
        record {
          positive = ground arith;
          chunked = length-replicate size [];
          placed = replicate-PlacedFrom V (chunk_index m) size 0;
        },
        λ k. replicate-view k size (chunk_index m k),
      )

  -- Clear leaves a valid map that holds nothing.
  pub clear-IsValid :
      (m : ConcurrentMap V)
      → IsValid m
      → IsValid (clear m) × ((k : Bytes) → view (clear m) k ≡ none)
  unfolding clear initialize_chunks
  clear-IsValid m v = (
    record {
      positive = v.positive;
      chunked = length-replicate m.n_chunks [];
      placed = replicate-PlacedFrom V (chunk_index m) m.n_chunks 0;
    },
    λ k. replicate-view k m.n_chunks (chunk_index m k),
  )

  -- Get and Has read the abstract map and do not panic.
  pub get-view :
      (k : Bytes) (m : ConcurrentMap V)
      → IsValid m
      → (get k m ≡ some (elim (view m k) [ none ↦ (none, false) | some value ↦ (value, true) ]))
        × (has_key k m ≡ some (is_some (view m k)))
  unfolding get has_key
  get-view k m v =
      let (c, there, same, d, p) = chunk_of m k v in (rw (there, same) refl, rw (there, same) refl)

  -- Set writes the key and nothing else.
  pub set_value-view :
      (k : Bytes) (value : Option V) (m : ConcurrentMap V)
      → IsValid m
      → (m' : ConcurrentMap V) × (set_value k value m ≡ some m')
        × IsValid m'
        × ((q : Bytes) → view m' q ≡ (if bytes_beq k q then some value else view m q))
  unfolding set_value
  set_value-view k value m v =
      let (c, there, same, d, p) = chunk_of m k v in
      let r =
        put_chunk-view m k c (insert k value c) (some value) v there (insert-Distinct k value c d)
          (λ q. lookup-insert k q value c) in
      (put_chunk m k (insert k value c), rw there refl, r.0, r.1)

  -- SetIfAbsent writes the key if it is not there, and reports whether it was not.
  pub set_if_absent-view :
      (k : Bytes) (value : Option V) (m : ConcurrentMap V)
      → IsValid m
      → (m' : ConcurrentMap V) × (set_if_absent k value m ≡ some (m', not (is_some (view m k))))
        × IsValid m'
        × ((q : Bytes)
            → view m' q ≡ (
                if is_some (view m k)
                then view m q
                else if bytes_beq k q
                then some value
                else view m q))
        × (count m' ≡ (if is_some (view m k) then count m else suc (count m)))
  unfolding set_if_absent count get_chunk
  set_if_absent-view k value m v =
      let (c, there, same, d, p) = chunk_of m k v in
      let r =
        put_chunk-view m k c (insert k value c) (some value) v there (insert-Distinct k value c d)
          (λ q. lookup-insert k q value c) in
      let sum = count-set (chunk_index m) (chunk_index m k) m.chunks c (insert k value c) there in
      elim (Bool-cases (has k c)) [
        | inl present ↦ (
          m,
          rw (same, there, present) refl,
          v,
          λ q. rw (same, present) refl,
          rw (same, present) refl,
        )
        | inr new ↦ (
          put_chunk m k (insert k value c),
          rw (same, there, new) refl,
          r.0,
          λ q. rw (same, new) (r.1 q),
          rw (same, new) (omega (arith, sum, length-new k value c new)),
        )
      ]
    where
      length-new :
          (k : Bytes) (value : Option V) (c : Chunk V)
          → has k c ≡ false
          → length (insert k value c) ≡ suc (length c)
      length-new k value c new = length-insert k value c ∙ (rw new refl)

  -- Remove takes the key out, returns its value and reports whether that is not nil.
  pub remove-view :
      (k : Bytes) (m : ConcurrentMap V)
      → IsValid m
      → (m' : ConcurrentMap V) × (item : Option V) × (item
          ≡ (elim (view m k) [ none ↦ none | some value ↦ value ]))
        × (remove k m ≡ some (m', item, is_some item))
        × IsValid m'
        × ((q : Bytes) → view m' q ≡ (if bytes_beq k q then none else view m q))
        × (count m' + (if is_some (view m k) then 1 else 0) ≡ count m)
  unfolding remove count get_chunk
  remove-view k m v =
      let (c, there, same, d, p) = chunk_of m k v in
      let r =
        put_chunk-view m k c (delete k c) none v there (delete-Distinct k c d)
          (λ q. lookup-delete k q c d) in
      let sum = count-set (chunk_index m) (chunk_index m k) m.chunks c (delete k c) there in
      let item : Option V = elim (lookup k c) [ none ↦ none | some value ↦ value ] in
      (
        put_chunk m k (delete k c),
        item,
        rw same refl,
        rw there refl,
        r.0,
        r.1,
        rw same (omega (arith, sum, length-delete k c)),
      )

  iter_cb-note :
      (items noted : Chunk V) → iter_cb (λ k v s. s ++ (k, v) ∷ []) items noted ≡ noted ++ items
  unfolding iter_cb
  iter_cb-note [] noted = sym (append_nil noted)
  iter_cb-note ((k, v) ∷ items) noted =
      iter_cb-note items (noted ++ (k, v) ∷ []) ∙ append_cons noted (k, v) items

  -- A callback that IterCb has note down each key and value that it gets notes, on a valid map,
  -- every key once at most, of each key exactly the value that the abstract map has, and as many
  -- keys as Count says.
  pub all_items-view :
      (m : ConcurrentMap V)
      → IsValid m
      → (noted : Chunk V) × (iter_cb (λ k v s. s ++ (k, v) ∷ []) (all_items m.chunks) [] ≡ noted)
        × Distinct noted
        × ((k : Bytes) → lookup k noted ≡ view m k)
        × (length noted ≡ count m)
  unfolding count
  all_items-view m v = (
    all_items m.chunks,
    iter_cb-note (all_items m.chunks) [],
    all_items-Distinct (chunk_index m) 0 m.chunks v.placed,
    λ k. lookup-all_items (chunk_index m) k 0 (chunk_index m k) m.chunks v.placed (omega arith),
    length-all_items (chunk_index m) m.chunks,
  )
