-- ===== src/Base/Agree.antt =====
-- A linked list whose values have keys, beside a map from the keys to the elements: what the LRU
-- cache and the chunks of the immunity cache keep. `Agree` ties the two together, and under it the
-- operations by element are operations by key on the list of values.
use Prim.Native.Nat.{ℕ, suc, ◌+◌, ◌<◌}
use mathlib.Core.Path.{◌≡◌, refl, sym, ◌∙◌}
use mathlib.Core.Logic.{inl, inr}
use mathlib.Core.Option
use mathlib.Core.Option.{Option, none, some}
use mathlib.Core.List.{List, [], ◌∷◌, ◌++◌}
use native.Mathlib.Omega.{arith}
use drt_go_chain_storage.Base.Tests.{if◌then◌else◌, is_some, Option-cases}
use drt_go_chain_storage.Base.Classes.{Eq}
use drt_go_chain_storage.Base.Lists.{length, length-append, last?, drop_last}
use drt_go_chain_storage.Base.GoMap.{
  GoMap, lookup, insert, delete, Distinct, lookup-insert, lookup-delete, insert-Distinct,
  delete-Distinct, length-insert, length-delete,
}
use drt_go_chain_storage.Base.Linked.{
  find_id, remove_id, write_id, values, DistinctIds, DistinctIds-mono, find_id-fresh,
  remove_id-DistinctIds, find_id-remove_id_self, find_id-lt,
}
use drt_go_chain_storage.Base.Keyed.{
  find_key, remove_key, find, erase-last, DistinctKeys, find_key-find, values-remove_key,
  find-erase, erase-DistinctKeys, find-key, find_id-find_key, remove_id-remove_key,
  find_key-eq-none,
}

module _ {ℓ} {K A : Type ℓ} ⦃e : Eq K⦄ (key : A → K) where
  abbrev pub handle? : K → List (ℕ × A) → Option ℕ
  handle? k l = Option.map (λ x. x.0) (find_key key k l)

  -- the map holds, under each key, the element of the list that carries it
  pub record Agree (items : GoMap K ℕ) (n : ℕ) (l : List (ℕ × A)) : Type ℓ where
    pub ids : DistinctIds n l
    pub keys : DistinctKeys key (values l)
    pub once : Distinct items
    pub points : (k : K) → lookup k items ≡ handle? k l
    pub count : length items ≡ length l

  -- what a hit of the map gives
  pub record Hit (k : K) (i : ℕ) (l : List (ℕ × A)) (a : A) : Type ℓ where
    pub there : find_key key k l ≡ some (i, a)
    pub value : find_id i l ≡ some a
    pub found : find key k (values l) ≡ some a
    pub keyed : key a ≡ k
    pub removed : remove_id i l ≡ remove_key key k l

  pub Agree-miss :
      {items : GoMap K ℕ} {n : ℕ} (k : K) (l : List (ℕ × A))
      → Agree items n l
      → lookup k items ≡ none
      → (find_key key k l ≡ none) × (find key k (values l) ≡ none)
  Agree-miss k l g h = ground (arith, g.points k, find_key-find key k l)

  pub Hit-find_key :
      {items : GoMap K ℕ} {n : ℕ} (k : K) (l : List (ℕ × A)) (i : ℕ) (a : A)
      → Agree items n l
      → find_key key k l ≡ some (i, a)
      → Hit k i l a
  Hit-find_key {n} k l i a g h =
      let found : find key k (values l) ≡ some a = ground (arith, find_key-find key k l) in
      record {
        there = h;
        value = find_id-find_key key n k l (i, a) g.ids h;
        found = found;
        keyed = find-key key k (values l) a found;
        removed = remove_id-remove_key key n k l (i, a) g.ids h;
      }

  pub Agree-Hit :
      {items : GoMap K ℕ} {n : ℕ} (k : K) (l : List (ℕ × A)) (i : ℕ)
      → Agree items n l
      → lookup k items ≡ some i
      → (a : A) × Hit k i l a
  Agree-Hit {n} k l i g h = elim (Option-cases (find_key key k l)) [
    | inl miss ↦ absurd (ground (arith, g.points k))
    | inr (x, hit) ↦ (x.1, Hit-find_key k l i x.1 g (ground (arith, g.points k)))
  ]

  pub find_key-last :
      (l : List (ℕ × A)) (x : ℕ × A)
      → DistinctKeys key (values l)
      → last? l ≡ some x
      → (find_key key (key x.1) l ≡ some x) × (last? (values l) ≡ some x.1)
  unfolding find_key find
  find_key-last [] x d h = cc
  find_key-last (y ∷ []) x d h = ground (arith, e.beq_iff (key y.1) (key x.1))
  find_key-last (y ∷ z ∷ l) x d h = ground (
    arith,
    e.beq_iff (key y.1) (key x.1),
    find_key-last (z ∷ l) x d.1,
    find_key-find key (key x.1) (z ∷ l),
  )

  -- the back of the list is a hit under its own key
  pub Hit-last :
      {items : GoMap K ℕ} {n : ℕ} (l : List (ℕ × A)) (x : ℕ × A)
      → Agree items n l
      → last? l ≡ some x
      → Hit (key x.1) x.0 l x.1 × (values (remove_id x.0 l) ≡ drop_last (values l))
  Hit-last l x g h =
      let (there, last) = find_key-last l x g.keys h in
      let hit = Hit-find_key (key x.1) l x.0 x.1 g there in
      (hit, rw (hit.removed, values-remove_key) (erase-last key (values l) x.1 g.keys last))

  find_key-remove_key :
      (k q : K) (l : List (ℕ × A))
      → DistinctKeys key (values l)
      → find_key key q (remove_key key k l) ≡ (if e.beq k q then none else find_key key q l)
  unfolding find_key find remove_key
  find_key-remove_key k q [] d = ground arith
  find_key-remove_key k q (x ∷ l) d = ground (
    arith,
    e.beq_iff (key x.1) k,
    e.beq_iff (key x.1) q,
    e.beq_iff k q,
    find_key-remove_key k q l d.1,
    find_key-eq-none key (key x.1) l,
  )

  find_key-append :
      (k : K) (l : List (ℕ × A)) (x : ℕ × A)
      → find_key key k (l ++ x ∷ []) ≡ (
          if is_some (find_key key k l)
          then find_key key k l
          else if e.beq (key x.1) k
          then some x
          else none)
  unfolding find_key
  find_key-append k [] x = refl
  find_key-append k (y ∷ l) x = ground (arith, find_key-append k l x)

  pub find-append :
      (k : K) (l : List (ℕ × A)) (x : ℕ × A)
      → find key k (values (l ++ x ∷ [])) ≡ (
          if is_some (find key k (values l))
          then find key k (values l)
          else if e.beq (key x.1) k
          then some x.1
          else none)
  unfolding find
  find-append k [] x = refl
  find-append k (y ∷ l) x = ground (arith, find-append k l x)

  append-DistinctKeys :
      (l : List (ℕ × A)) (x : ℕ × A)
      → DistinctKeys key (values l)
      → find key (key x.1) (values l) ≡ none
      → DistinctKeys key (values (l ++ x ∷ []))
  unfolding find
  append-DistinctKeys [] x d h = (refl, tt)
  append-DistinctKeys (y ∷ l) x d h = ground (
    arith,
    append-DistinctKeys l x d.1,
    find-append (key y.1) l x,
    e.beq_iff (key x.1) (key y.1),
    e.beq_iff (key y.1) (key x.1),
  )

  pub find_id-append :
      (n i : ℕ) (a : A) (l : List (ℕ × A))
      → find_id i l ≡ none
      → i < n
      → find_id i (l ++ (n, a) ∷ []) ≡ none
  unfolding find_id
  find_id-append n i a [] h lt = ground arith
  find_id-append n i a ((j, c) ∷ l) h lt = ground (arith, find_id-append n i a l)

  append-DistinctIds :
      (n : ℕ) (l : List (ℕ × A)) (a : A) → DistinctIds n l → DistinctIds (suc n) (l ++ (n, a) ∷ [])
  unfolding find_id
  append-DistinctIds n [] a d = (refl, omega arith, tt)
  append-DistinctIds n ((i, b) ∷ l) a d =
      (find_id-append n i a l d.0 d.1, omega arith, append-DistinctIds n l a d.2)

  find_id-write_none :
      (i j : ℕ) (b : A) (l : List (ℕ × A)) → find_id i l ≡ none → find_id i (write_id j b l) ≡ none
  unfolding find_id write_id
  find_id-write_none i j b [] h = refl
  find_id-write_none i j b (x ∷ l) h = ground (arith, find_id-write_none i j b l)

  write-DistinctIds :
      (n i : ℕ) (b : A) (l : List (ℕ × A)) → DistinctIds n l → DistinctIds n (write_id i b l)
  unfolding find_id write_id
  write-DistinctIds n i b [] d = tt
  write-DistinctIds n i b (x ∷ l) d =
      ground (arith, write-DistinctIds n i b l d.2, find_id-write_none x.0 i b l)

  -- a write that keeps the key moves no handle
  handle?-write :
      (q : K) (i : ℕ) (a b : A) (l : List (ℕ × A))
      → find_id i l ≡ some a
      → key b ≡ key a
      → handle? q (write_id i b l) ≡ handle? q l
  unfolding find_id write_id find_key
  handle?-write q i a b [] h k = cc
  handle?-write q i a b (x ∷ l) h k = ground (arith, handle?-write q i a b l)

  find-write_none :
      (q : K) (i : ℕ) (a b : A) (l : List (ℕ × A))
      → find_id i l ≡ some a
      → key b ≡ key a
      → find key q (values l) ≡ none
      → find key q (values (write_id i b l)) ≡ none
  unfolding find_id write_id find
  find-write_none q i a b [] h k m = cc
  find-write_none q i a b (x ∷ l) h k m = ground (arith, find-write_none q i a b l)

  write-DistinctKeys :
      (i : ℕ) (a b : A) (l : List (ℕ × A))
      → find_id i l ≡ some a
      → key b ≡ key a
      → DistinctKeys key (values l)
      → DistinctKeys key (values (write_id i b l))
  unfolding find_id write_id
  write-DistinctKeys i a b [] h k d = cc
  write-DistinctKeys i a b (x ∷ l) h k d =
      ground (arith, write-DistinctKeys i a b l, find-write_none (key x.1) i a b l)

  length-write : (i : ℕ) (b : A) (l : List (ℕ × A)) → length (write_id i b l) ≡ length l
  unfolding write_id
  length-write i b [] = refl
  length-write i b (x ∷ l) = ground (arith, length-write i b l)

  length-remove_key :
      (k : K) (l : List (ℕ × A))
      → length (remove_key key k l) + (if is_some (find_key key k l) then 1 else 0) ≡ length l
  unfolding find_key remove_key
  length-remove_key k [] = refl
  length-remove_key k (a ∷ l) = ground (arith, length-remove_key k l)

  module _ {items : GoMap K ℕ} {n : ℕ} (l : List (ℕ × A)) (g : Agree items n l) where
    pub push_front-Agree :
        (a : A) → lookup (key a) items ≡ none → Agree (insert (key a) n items) (suc n) ((n, a) ∷ l)
    unfolding find_key
    push_front-Agree a h =
        let (miss, absent) = Agree-miss (key a) l g h in
        record {
          ids = (
            find_id-fresh n n l g.ids (omega arith),
            omega arith,
            DistinctIds-mono n (suc n) l (omega arith) g.ids,
          );
          keys = (absent, g.keys);
          once = insert-Distinct (key a) n items g.once;
          points = λ k. ground (arith, lookup-insert (key a) k n items, g.points k);
          count = ground (arith, length-insert (key a) n items, g.count);
        }

    pub push_back-Agree :
        (a : A)
        → lookup (key a) items ≡ none
        → Agree (insert (key a) n items) (suc n) (l ++ (n, a) ∷ [])
    push_back-Agree a h =
        let (miss, absent) = Agree-miss (key a) l g h in
        record {
          ids = append-DistinctIds n l a g.ids;
          keys = append-DistinctKeys l (n, a) g.keys absent;
          once = insert-Distinct (key a) n items g.once;
          points = λ k. ground (
            arith,
            lookup-insert (key a) k n items,
            g.points k,
            find_key-append k l (n, a),
            e.beq_iff (key a) k,
          );
          count =
              ground (arith, length-insert (key a) n items, g.count, length-append l ((n, a) ∷ []));
        }

    pub remove-Agree :
        (k : K) (i : ℕ) (a : A) → Hit k i l a → Agree (delete k items) n (remove_id i l)
    remove-Agree k i a hit = record {
      ids = remove_id-DistinctIds n i l g.ids;
      keys = rw (hit.removed, values-remove_key) (erase-DistinctKeys key k (values l) g.keys);
      once = delete-Distinct k items g.once;
      points = λ q. ground (
        arith,
        lookup-delete k q items g.once,
        g.points q,
        hit.removed,
        find_key-remove_key k q l g.keys,
      );
      count = ground (
        arith,
        hit.removed,
        hit.there,
        g.points k,
        g.count,
        length-delete k items,
        length-remove_key k l,
      );
    }

    pub move_to_front-Agree :
        (k : K) (i : ℕ) (a : A) → Hit k i l a → Agree items n ((i, a) ∷ remove_id i l)
    unfolding find_key
    move_to_front-Agree k i a hit = record {
      ids = (
        find_id-remove_id_self n i l g.ids,
        find_id-lt n i l a g.ids hit.value,
        remove_id-DistinctIds n i l g.ids,
      );
      keys =
          rw (hit.removed, values-remove_key)
            (
              ground (
                arith,
                find-erase key k (key a) (values l) g.keys,
                e.beq_iff k (key a),
                hit.keyed,
              ),
              erase-DistinctKeys key k (values l) g.keys,
            );
      once = g.once;
      points = λ q. ground (
        arith,
        g.points q,
        hit.there,
        hit.keyed,
        hit.removed,
        find_key-remove_key k q l g.keys,
        e.beq_iff k q,
      );
      count = ground (arith, g.count, hit.removed, hit.there, length-remove_key k l);
    }

    pub write-Agree :
        (k : K) (i : ℕ) (a b : A) → Hit k i l a → key b ≡ key a → Agree items n (write_id i b l)
    write-Agree k i a b hit same = record {
      ids = write-DistinctIds n i b l g.ids;
      keys = write-DistinctKeys i a b l hit.value same g.keys;
      once = g.once;
      points = λ q. g.points q ∙ sym (handle?-write q i a b l hit.value same);
      count = omega (arith, g.count, length-write i b l);
    }
