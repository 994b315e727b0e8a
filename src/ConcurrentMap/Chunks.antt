-- ===== src/ConcurrentMap/Chunks.antt =====
-- The chunks of txcache/maps/concurrentMap.go: each key stands in the chunk of its index only, so
-- the chunks together are one map.
use drt_go_chain_storage.Base.{
  length-append, ℕ, zero, suc, ◌+◌, ◌<◌, ◌≡◌, ◌≢◌, refl, Option, none, some, List, [], ◌∷◌, ◌++◌,
  if◌then◌else◌, is_some, ◌>>=◌, length, get_elem?, set, replicate, arith, subst, Option-cases,
  Bool-cases, inl, inr,
}
use drt_go_chain_storage.Base.Bytes.{Bytes, bytes_eq, bytes_beq, bytes_beq_iff}
use drt_go_chain_storage.Base.GoMap.{lookup, Distinct}
use drt_go_chain_storage.ConcurrentMap.{Chunk, count_chunks, all_items}

-- the chunks from number `i` on hold each key once, and only keys of their index
abbrev pub PlacedFrom : {V : Type 0} → (Bytes → ℕ) → ℕ → List (Chunk V) → Type 0
PlacedFrom index i [] = Unit
PlacedFrom index i (c ∷ cs) =
    Distinct c × ((k : Bytes) → lookup k c ≢ none → index k ≡ i) × PlacedFrom index (suc i) cs

pub replicate-PlacedFrom :
    (V : Type 0) (index : Bytes → ℕ) (n i : ℕ) → PlacedFrom {V = V} index i (replicate n [])
unfolding lookup
replicate-PlacedFrom V index zero i = tt
replicate-PlacedFrom V index (suc n) i =
    (tt, λ k h. absurd (h refl), replicate-PlacedFrom V index n (suc i))

module _ {V : Type 0} (index : Bytes → ℕ) where
  pub get_elem?-Distinct :
      (i j : ℕ) (cs : List (Chunk V)) (c : Chunk V)
      → PlacedFrom index i cs
      → get_elem? cs j ≡ some c
      → Distinct c × ((k : Bytes) → lookup k c ≢ none → index k ≡ i + j)
  get_elem?-Distinct i j [] c p e = absurd (cc)
  get_elem?-Distinct i zero (c' ∷ cs) c p e =
      let same : c' ≡ c = ground (arith, e) in
      (subst Distinct same p.0, λ k h. omega (arith, p.1 k (rw same h)))
  get_elem?-Distinct i (suc j) (c' ∷ cs) c p e =
      let r = get_elem?-Distinct (suc i) j cs c p.2 e in (r.0, λ k h. omega (arith, r.1 k h))

  -- a write of a chunk that keeps the placement
  pub set-PlacedFrom :
      (i j : ℕ) (cs : List (Chunk V)) (c : Chunk V)
      → PlacedFrom index i cs
      → Distinct c
      → ((k : Bytes) → lookup k c ≢ none → index k ≡ i + j)
      → PlacedFrom index i (set cs j c)
  set-PlacedFrom i j [] c p d q = tt
  set-PlacedFrom i zero (c' ∷ cs) c p d q = (d, λ k h. omega (arith, q k h), p.2)
  set-PlacedFrom i (suc j) (c' ∷ cs) c p d q =
      (p.0, p.1, set-PlacedFrom (suc i) j cs c p.2 d (λ k h. omega (arith, q k h)))

  lookup-nil : (k : Bytes) → lookup {V = Option V} k [] ≡ none
  unfolding lookup
  lookup-nil k = refl

  lookup-append :
      (k : Bytes) (a b : Chunk V)
      → lookup k (a ++ b) ≡ (if is_some (lookup k a) then lookup k a else lookup k b)
  unfolding lookup
  lookup-append k [] b = refl
  lookup-append k (x ∷ a) b = ground (arith, lookup-append k a b)

  absent :
      (k : Bytes) (i : ℕ) (c : Chunk V)
      → ((q : Bytes) → lookup q c ≢ none → index q ≡ i)
      → index k ≢ i
      → lookup k c ≡ none
  absent k i c p h = elim (Option-cases (lookup k c)) [
    | inl none_there ↦ none_there
    | inr (v, there) ↦ absurd (h (p k (ground (arith, there))))
  ]

  lookup-all_items-none :
      (k : Bytes) (i : ℕ) (cs : List (Chunk V))
      → PlacedFrom index i cs
      → index k < i
      → lookup k (all_items cs) ≡ none
  unfolding all_items
  lookup-all_items-none k i [] p h = lookup-nil k
  lookup-all_items-none k i (c ∷ cs) p h =
      rw (lookup-append k c (all_items cs), absent k i c p.1 (omega arith))
        (lookup-all_items-none k (suc i) cs p.2 (omega arith))

  -- all chunks together answer what the chunk of the key answers
  pub lookup-all_items :
      (k : Bytes) (i j : ℕ) (cs : List (Chunk V))
      → PlacedFrom index i cs
      → index k ≡ i + j
      → lookup k (all_items cs) ≡ (get_elem? cs j >>= λ c. lookup k c)
  unfolding all_items
  lookup-all_items k i j [] p h = lookup-nil k
  lookup-all_items k i zero (c ∷ cs) p h = ground (
    arith,
    lookup-append k c (all_items cs),
    lookup-all_items-none k (suc i) cs p.2 (omega arith),
  )
  lookup-all_items k i (suc j) (c ∷ cs) p h =
      rw (lookup-append k c (all_items cs), absent k i c p.1 (omega arith))
        (lookup-all_items k (suc i) j cs p.2 (omega arith))

  append-Distinct :
      (a b : Chunk V)
      → Distinct a
      → Distinct b
      → ((k : Bytes) → lookup k a ≢ none → lookup k b ≡ none)
      → Distinct (a ++ b)
  unfolding lookup
  append-Distinct [] b d e apart = e
  append-Distinct ((k, v) ∷ a) b d e apart = (
    ground (arith, lookup-append k a b, d.0, apart k, bytes_beq_iff k k),
    append-Distinct a b d.1 e (λ q there. apart q (elim (Bool-cases (bytes_beq k q)) [
      | inl same ↦ ground (arith, same)
      | inr other ↦ ground (arith, other, there)
    ])),
  )

  -- no key stands in two chunks, or twice in one
  pub all_items-Distinct :
      (i : ℕ) (cs : List (Chunk V)) → PlacedFrom index i cs → Distinct (all_items cs)
  unfolding all_items
  all_items-Distinct i [] p = tt
  all_items-Distinct i (c ∷ cs) p =
      append-Distinct c (all_items cs) p.0 (all_items-Distinct (suc i) cs p.2)
        (λ k there. lookup-all_items-none k (suc i) cs p.2 (omega (arith, p.1 k there)))

  pub count-set :
      (j : ℕ) (cs : List (Chunk V)) (c c' : Chunk V)
      → get_elem? cs j ≡ some c
      → count_chunks (set cs j c') + length c ≡ count_chunks cs + length c'
  unfolding count_chunks
  count-set j [] c c' e = cc
  count-set zero (d ∷ cs) c c' e = ground arith
  count-set (suc j) (d ∷ cs) c c' e = omega (arith, count-set j cs c c' e)

  pub length-all_items : (cs : List (Chunk V)) → length (all_items cs) ≡ count_chunks cs
  unfolding all_items count_chunks
  length-all_items [] = refl
  length-all_items (c ∷ cs) = omega (arith, length-append c (all_items cs), length-all_items cs)
