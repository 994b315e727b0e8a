-- ===== src/Base/Keyed.antt =====
-- A linked list whose values have keys: operations by element and operations by key.
use Prim.Native.Nat.{ℕ, ◌+◌}
use mathlib.Core.Path.{◌≡◌, refl}
use mathlib.Core.Option
use mathlib.Core.Option.{Option, none, some}
use mathlib.Core.List.{List, [], ◌∷◌, ◌++◌}
use native.Mathlib.Omega.{arith}
use drt_go_chain_storage.Base.Tests.{if◌then◌else◌, is_some}
use drt_go_chain_storage.Base.Classes.{Eq}
use drt_go_chain_storage.Base.Lists.{length, last?, drop_last}
use drt_go_chain_storage.Base.Linked.{find_id, remove_id, values, DistinctIds}

module _ {ℓ} {K A : Type ℓ} ⦃e : Eq K⦄ (key : A → K) where
  -- the first element with the key
  unfoldable pub find_key : K → List (ℕ × A) → Option (ℕ × A)
  find_key k [] = none
  find_key k ((i, a) ∷ l) = if e.beq (key a) k then some (i, a) else find_key k l

  unfoldable pub remove_key : K → List (ℕ × A) → List (ℕ × A)
  remove_key k [] = []
  remove_key k ((i, a) ∷ l) = if e.beq (key a) k then l else (i, a) ∷ remove_key k l

  -- the same on values alone
  unfoldable pub find : K → List A → Option A
  find k [] = none
  find k (a ∷ l) = if e.beq (key a) k then some a else find k l

  unfoldable pub erase : K → List A → List A
  erase k [] = []
  erase k (a ∷ l) = if e.beq (key a) k then l else a ∷ erase k l

  abbrev pub DistinctKeys : List A → Type ℓ
  DistinctKeys [] = Unit
  DistinctKeys (a ∷ l) = (find (key a) l ≡ none) × DistinctKeys l

  pub find_key-find :
      (k : K) (l : List (ℕ × A)) → Option.map (λ x. x.1) (find_key k l) ≡ find k (values l)
  unfolding find_key find
  find_key-find k [] = refl
  find_key-find k (x ∷ l) = ground (arith, find_key-find k l)

  pub values-remove_key : (k : K) (l : List (ℕ × A)) → values (remove_key k l) ≡ erase k (values l)
  unfolding remove_key erase
  values-remove_key k [] = refl
  values-remove_key k (x ∷ l) = ground (arith, values-remove_key k l)

  pub find-erase :
      (k q : K) (l : List A)
      → DistinctKeys l
      → find q (erase k l) ≡ (if e.beq k q then none else find q l)
  unfolding find erase
  find-erase k q [] d = ground arith
  find-erase k q (a ∷ l) d =
      ground (arith, e.beq_iff (key a) k, e.beq_iff (key a) q, e.beq_iff k q, find-erase k q l d.1)

  pub erase-DistinctKeys : (k : K) (l : List A) → DistinctKeys l → DistinctKeys (erase k l)
  unfolding find erase
  erase-DistinctKeys k [] d = tt
  erase-DistinctKeys k (a ∷ l) d =
      ground (arith, e.beq_iff k (key a), erase-DistinctKeys k l d.1, find-erase k (key a) l d.1)

  pub erase_absent : (k : K) (l : List A) → find k l ≡ none → erase k l ≡ l
  unfolding find erase
  erase_absent k [] h = refl
  erase_absent k (a ∷ l) h = ground (arith, erase_absent k l)

  pub find-key : (k : K) (l : List A) (a : A) → find k l ≡ some a → key a ≡ k
  unfolding find
  find-key k [] a h = cc
  find-key k (b ∷ l) a h = ground (arith, e.beq_iff (key b) k, find-key k l a)

  pub length-erase :
      (k : K) (l : List A) → length (erase k l) + (if is_some (find k l) then 1 else 0) ≡ length l
  unfolding find erase
  length-erase k [] = refl
  length-erase k (a ∷ l) = ground (arith, length-erase k l)

  find_id-of_find_key :
      (k : K) (l : List (ℕ × A)) (x : ℕ × A) → find_key k l ≡ some x → find_id x.0 l ≡ none → ⊥
  unfolding find_key find_id
  find_id-of_find_key k [] x h n = cc
  find_id-of_find_key k (y ∷ l) x h n = ground (arith, find_id-of_find_key k l x)

  -- the element that carries the key is the one that its handle names
  pub find_id-find_key :
      (n : ℕ) (k : K) (l : List (ℕ × A)) (x : ℕ × A)
      → DistinctIds n l
      → find_key k l ≡ some x
      → find_id x.0 l ≡ some x.1
  unfolding find_key find_id
  find_id-find_key n k [] x d h = cc
  find_id-find_key n k (y ∷ l) x d h =
      ground (arith, find_id-find_key n k l x d.2, find_id-of_find_key k l x)

  pub remove_id-remove_key :
      (n : ℕ) (k : K) (l : List (ℕ × A)) (x : ℕ × A)
      → DistinctIds n l
      → find_key k l ≡ some x
      → remove_id x.0 l ≡ remove_key k l
  unfolding find_key find_id remove_id remove_key
  remove_id-remove_key n k [] x d h = cc
  remove_id-remove_key n k (y ∷ l) x d h =
      ground (arith, remove_id-remove_key n k l x d.2, find_id-of_find_key k l x)

  -- the last value has a key of its own, so removing by key drops the last value
  pub find-last : (l : List A) (a : A) → DistinctKeys l → last? l ≡ some a → find (key a) l ≡ some a
  unfolding find
  find-last [] a d h = cc
  find-last (b ∷ []) a d h = ground (arith, e.beq_iff (key b) (key a))
  find-last (b ∷ c ∷ l) a d h = ground (arith, e.beq_iff (key b) (key a), find-last (c ∷ l) a d.1)

  pub erase-last :
      (l : List A) (a : A) → DistinctKeys l → last? l ≡ some a → erase (key a) l ≡ drop_last l
  unfolding find erase
  erase-last [] a d h = cc
  erase-last (b ∷ []) a d h = ground (arith, e.beq_iff (key b) (key a))
  erase-last (b ∷ c ∷ l) a d h =
      ground (arith, e.beq_iff (key b) (key a), erase-last (c ∷ l) a d.1, find-last (c ∷ l) a d.1)

  pub find_key-eq-none : (k : K) (l : List (ℕ × A)) → find k (values l) ≡ none → find_key k l ≡ none
  unfolding find_key find
  find_key-eq-none k [] h = refl
  find_key-eq-none k (x ∷ l) h = ground (arith, find_key-eq-none k l)

  -- an element between two parts of the list is found and removed by its handle
  pub find_key-middle :
      (pre next : List (ℕ × A)) (x : ℕ × A)
      → DistinctKeys (values (pre ++ x ∷ next))
      → find_key (key x.1) (pre ++ x ∷ next) ≡ some x
  unfolding find_key
  find_key-middle [] next x d = ground (arith, e.beq_iff (key x.1) (key x.1))
  find_key-middle (y ∷ pre) next x d = ground (
    arith,
    e.beq_iff (key y.1) (key x.1),
    find_key-middle pre next x d.1,
    find_key-find (key x.1) (pre ++ x ∷ next),
  )
