-- ===== src/Base/Linked.antt =====
-- Go's `container/list`: a doubly linked list whose elements have an identity. An element is the
-- pair of a handle and its value; a pointer to an element is the handle. `Remove` detaches an
-- element, so its handle is no longer found.
use Prim.Native.Nat.{ℕ, suc, ◌≤◌, ◌<◌}
use mathlib.Core.Path.{◌≡◌, refl, ap, subst}
use mathlib.Core.Logic.{◌≢◌, inl, inr}
use mathlib.Core.Option.{Option, none, some}
use mathlib.Core.List.{List, [], ◌∷◌, ◌++◌, map}
use native.Mathlib.Omega.{arith}
use drt_go_chain_storage.Base.Tests.{if◌then◌else◌, ◌==◌, ==_iff, Bool-cases}
use drt_go_chain_storage.Base.Lists.{length, last?, drop_last}

pub record LinkedList {ℓ} (A : Type ℓ) : Type ℓ where
  -- the next handle to give out
  pub next : ℕ
  -- front to back
  pub elems : List (ℕ × A)

module _ {ℓ} {A : Type ℓ} where
  -- the value behind a pointer, while its element is in the list
  unfoldable pub find_id : ℕ → List (ℕ × A) → Option A
  find_id i [] = none
  find_id i ((j, a) ∷ l) = if j == i then some a else find_id i l

  unfoldable pub remove_id : ℕ → List (ℕ × A) → List (ℕ × A)
  remove_id i [] = []
  remove_id i ((j, a) ∷ l) = if j == i then l else (j, a) ∷ remove_id i l

  unfoldable pub write_id : ℕ → A → List (ℕ × A) → List (ℕ × A)
  write_id i v [] = []
  write_id i v ((j, a) ∷ l) = if j == i then (j, v) ∷ l else (j, a) ∷ write_id i v l

  -- `list.New()`
  abbrev pub new_list : LinkedList A
  new_list = record { next = 0; elems = [] }

  -- `l.Len()`
  abbrev pub elem_count : LinkedList A → ℕ
  elem_count l = length l.elems

  -- `element.Value`
  abbrev pub value? : LinkedList A → ℕ → Option A
  value? l i = find_id i l.elems

  -- `l.PushFront(v)`, with the new element
  abbrev pub push_front : A → LinkedList A → ℕ × LinkedList A
  push_front a l = (l.next, record { next = suc l.next; elems = (l.next, a) ∷ l.elems })

  -- `l.PushBack(v)`, with the new element
  abbrev pub push_back : A → LinkedList A → ℕ × LinkedList A
  push_back a l = (l.next, record { next = suc l.next; elems = l.elems ++ (l.next, a) ∷ [] })

  -- `l.Back()`
  abbrev pub back : LinkedList A → Option (ℕ × A)
  back l = last? l.elems

  -- `l.Remove(element)`
  abbrev pub remove : ℕ → LinkedList A → LinkedList A
  remove i l = record { next = l.next; elems = remove_id i l.elems }

  -- `l.MoveToFront(element)`
  abbrev pub move_to_front : ℕ → LinkedList A → LinkedList A
  move_to_front i l = elim (find_id i l.elems) [
    | none ↦ l
    | some a ↦ record { next = l.next; elems = (i, a) ∷ remove_id i l.elems }
  ]

  -- `element.Value = v`, or a write to the fields of the value that it points to
  abbrev pub write : ℕ → A → LinkedList A → LinkedList A
  write i a l = record { next = l.next; elems = write_id i a l.elems }

  -- the values, front to back
  abbrev pub values : List (ℕ × A) → List A
  values = map (λ x. x.1)

  -- no handle stands twice, and all have been given out
  abbrev pub DistinctIds : ℕ → List (ℕ × A) → Type ℓ
  DistinctIds n [] = Unit
  DistinctIds n ((i, _) ∷ l) = (find_id i l ≡ none) × (i < n) × DistinctIds n l

  pub DistinctIds-mono : (n m : ℕ) (l : List (ℕ × A)) → n ≤ m → DistinctIds n l → DistinctIds m l
  DistinctIds-mono n m [] h d = tt
  DistinctIds-mono n m (x ∷ l) h d = (d.0, omega arith, DistinctIds-mono n m l h d.2)

  pub find_id-fresh : (n i : ℕ) (l : List (ℕ × A)) → DistinctIds n l → n ≤ i → find_id i l ≡ none
  unfolding find_id
  find_id-fresh n i [] d h = refl
  find_id-fresh n i (x ∷ l) d h = ground (arith, find_id-fresh n i l d.2)

  find_id-remove_id-none :
      (i j : ℕ) (l : List (ℕ × A)) → find_id i l ≡ none → find_id i (remove_id j l) ≡ none
  unfolding find_id remove_id
  find_id-remove_id-none i j [] h = refl
  find_id-remove_id-none i j (x ∷ l) h = ground (arith, find_id-remove_id-none i j l)

  pub remove_id-DistinctIds :
      (n i : ℕ) (l : List (ℕ × A)) → DistinctIds n l → DistinctIds n (remove_id i l)
  unfolding find_id remove_id
  remove_id-DistinctIds n i [] d = tt
  remove_id-DistinctIds n i (x ∷ l) d =
      ground (arith, remove_id-DistinctIds n i l d.2, find_id-remove_id-none x.0 i l)

  pub find_id-remove_id_self :
      (n i : ℕ) (l : List (ℕ × A)) → DistinctIds n l → find_id i (remove_id i l) ≡ none
  unfolding find_id remove_id
  find_id-remove_id_self n i [] d = refl
  find_id-remove_id_self n i (x ∷ l) d = ground (arith, find_id-remove_id_self n i l d.2)

  pub find_id-lt :
      (n i : ℕ) (l : List (ℕ × A)) (a : A) → DistinctIds n l → find_id i l ≡ some a → i < n
  unfolding find_id
  find_id-lt n i [] a d h = cc
  find_id-lt n i (x ∷ l) a d h = ground (arith, find_id-lt n i l a d.2)

module _ {ℓ} {A : Type ℓ} where
  unfoldable pub insert_after_id : ℕ → ℕ × A → List (ℕ × A) → List (ℕ × A)
  insert_after_id mark x [] = []
  insert_after_id mark x ((j, a) ∷ l) =
      if j == mark then (j, a) ∷ x ∷ l else (j, a) ∷ insert_after_id mark x l

  -- `l.InsertAfter(v, mark)`
  abbrev pub insert_after : A → ℕ → LinkedList A → LinkedList A
  insert_after a mark l = record {
    next = suc l.next;
    elems = insert_after_id mark (l.next, a) l.elems;
  }

  -- the element in front of one, if both are in the list
  unfoldable pub prev_id : ℕ → List (ℕ × A) → Option (ℕ × A)
  prev_id i [] = none
  prev_id i (x ∷ []) = none
  prev_id i (x ∷ y ∷ l) = if y.0 == i then some x else prev_id i (y ∷ l)

  -- `element.Prev()`, nil at the front and for an element that `Remove` has detached
  abbrev pub prev : ℕ → LinkedList A → Option (ℕ × A)
  prev i l = prev_id i l.elems

  prev_id-eq-none : (i : ℕ) (l : List (ℕ × A)) → find_id i l ≡ none → prev_id i l ≡ none
  unfolding find_id prev_id
  prev_id-eq-none i [] h = refl
  prev_id-eq-none i (x ∷ []) h = refl
  prev_id-eq-none i (x ∷ y ∷ l) h = ground (arith, prev_id-eq-none i (y ∷ l))

  -- an element that has been removed has no predecessor
  pub prev_id-remove_id :
      (n i : ℕ) (l : List (ℕ × A)) → DistinctIds n l → prev_id i (remove_id i l) ≡ none
  prev_id-remove_id n i l d = prev_id-eq-none i (remove_id i l) (find_id-remove_id_self n i l d)

  find_id-insert_after_id :
      (n i mark : ℕ) (a : A) (l : List (ℕ × A))
      → i < n
      → find_id i l ≡ none
      → find_id i (insert_after_id mark (n, a) l) ≡ none
  unfolding find_id insert_after_id
  find_id-insert_after_id n i mark a [] lt h = refl
  find_id-insert_after_id n i mark a (x ∷ l) lt h =
      ground (arith, find_id-insert_after_id n i mark a l lt)

  pub insert_after_id-DistinctIds :
      (n mark : ℕ) (a : A) (l : List (ℕ × A))
      → DistinctIds n l
      → DistinctIds (suc n) (insert_after_id mark (n, a) l)
  unfolding insert_after_id find_id
  insert_after_id-DistinctIds n mark a [] d = tt
  insert_after_id-DistinctIds n mark a (x ∷ l) d = ground (
    arith,
    insert_after_id-DistinctIds n mark a l d.2,
    find_id-insert_after_id n x.0 mark a l d.1 d.0,
    find_id-fresh n n l d.2,
    DistinctIds-mono n (suc n) l,
  )

  find_id-last : (i : ℕ) (a : A) (l : List (ℕ × A)) → last? l ≡ some (i, a) → find_id i l ≢ none
  unfolding find_id
  find_id-last i a [] h = cc
  find_id-last i a (x ∷ []) h = ground arith
  find_id-last i a (x ∷ y ∷ l) h = ground (arith, find_id-last i a (y ∷ l))

  -- removing the last element by its handle
  pub remove_id-last :
      (n i : ℕ) (a : A) (l : List (ℕ × A))
      → DistinctIds n l
      → last? l ≡ some (i, a)
      → remove_id i l ≡ drop_last l
  unfolding remove_id find_id
  remove_id-last n i a [] d h = cc
  remove_id-last n i a (x ∷ []) d h = ground arith
  remove_id-last n i a (x ∷ y ∷ l) d h = elim (Bool-cases (x.0 == i)) [
    | inl same ↦
        let fresh = subst (λ k. find_id k (y ∷ l) ≡ none) ((==_iff x.0 i).0 same) d.0 in
        absurd (find_id-last i a (y ∷ l) h fresh)
    | inr other ↦ rw other (ap (◌∷◌ x) (remove_id-last n i a (y ∷ l) d.2 h))
  ]

  pub values-drop_last : (l : List (ℕ × A)) → values (drop_last l) ≡ drop_last (values l)
  values-drop_last [] = refl
  values-drop_last (x ∷ []) = refl
  values-drop_last (x ∷ y ∷ l) = ap (◌∷◌ x.1) (values-drop_last (y ∷ l))

  pub last?-values :
      (i : ℕ) (a : A) (l : List (ℕ × A)) → last? l ≡ some (i, a) → last? (values l) ≡ some a
  last?-values i a [] h = cc
  last?-values i a (x ∷ []) h = ground arith
  last?-values i a (x ∷ y ∷ l) h = last?-values i a (y ∷ l) h

  pub last?-values_none : (l : List (ℕ × A)) → last? l ≡ none → last? (values l) ≡ none
  last?-values_none [] h = refl
  last?-values_none (x ∷ []) h = cc
  last?-values_none (x ∷ y ∷ l) h = last?-values_none (y ∷ l) h
