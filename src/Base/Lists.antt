-- ===== src/Base/Lists.antt =====
-- Lists measured by native numbers, under the library's names, and predicates by recursion.
use Prim.Native.Nat.{ℕ, zero, suc, ◌+◌, ◌≤◌, ◌<◌}
use mathlib.Core.Path.{◌≡◌, refl, ap}
use mathlib.Core.List.{List, [], ◌∷◌, ◌++◌, map}
use mathlib.Core.Option.{Option, none, some}
use mathlib.Core.Logic.{◌≢◌}
use drt_go_chain_storage.Base.Tests.{if◌then◌else◌, ◌==◌}
use native.Mathlib.Omega.{arith}

module _ {ℓ} {A : Type ℓ} where
  abbrev pub length : List A → ℕ
  length [] = 0
  length (x ∷ xs) = suc (length xs)

  abbrev pub get_elem? : List A → ℕ → Option A
  get_elem? [] i = none
  get_elem? (x ∷ xs) zero = some x
  get_elem? (x ∷ xs) (suc i) = get_elem? xs i

  -- A write out of bounds changes nothing.
  abbrev pub set : List A → ℕ → A → List A
  set [] i v = []
  set (x ∷ xs) zero v = v ∷ xs
  set (x ∷ xs) (suc i) v = x ∷ set xs i v

  abbrev pub take : ℕ → List A → List A
  take zero xs = []
  take (suc n) [] = []
  take (suc n) (x ∷ xs) = x ∷ take n xs

  abbrev pub replicate : ℕ → A → List A
  replicate zero a = []
  replicate (suc n) a = a ∷ replicate n a

  -- the list without its last item
  abbrev pub drop_last : List A → List A
  drop_last [] = []
  drop_last (x ∷ []) = []
  drop_last (x ∷ y ∷ xs) = x ∷ drop_last (y ∷ xs)

  abbrev pub last? : List A → Option A
  last? [] = none
  last? (x ∷ []) = some x
  last? (x ∷ y ∷ xs) = last? (y ∷ xs)

  abbrev pub All {κ} : (A → Type κ) → List A → Type κ
  All P [] = Unit
  All P (x ∷ xs) = P x × All P xs

  pub length-append : (xs ys : List A) → length (xs ++ ys) ≡ length xs + length ys
  length-append [] ys = omega arith
  length-append (x ∷ xs) ys = omega (arith, length-append xs ys)

  pub length-snoc : (xs : List A) (x : A) → length (xs ++ x ∷ []) ≡ suc (length xs)
  length-snoc xs x = omega (arith, length-append xs (x ∷ []))

  pub length-drop_last : (xs : List A) → 0 < length xs → suc (length (drop_last xs)) ≡ length xs
  length-drop_last [] h = absurd (omega arith)
  length-drop_last (x ∷ []) h = refl
  length-drop_last (x ∷ y ∷ xs) h = ap suc (length-drop_last (y ∷ xs) (omega arith))

  pub take_all : (xs : List A) → take (length xs) xs ≡ xs
  take_all [] = refl
  take_all (x ∷ xs) = ap (◌∷◌ x) (take_all xs)

  pub drop_last-take :
      (n : ℕ) (xs : List A) → suc n ≤ length xs → drop_last (take (suc n) xs) ≡ take n xs
  drop_last-take zero (x ∷ xs) h = refl
  drop_last-take (suc n) (x ∷ y ∷ xs) h = ap (◌∷◌ x) (drop_last-take n (y ∷ xs) (omega arith))
  drop_last-take n [] h = absurd (omega arith)
  drop_last-take (suc n) (x ∷ []) h = absurd (omega arith)

  pub take-drop_last : (n : ℕ) (xs : List A) → suc n ≤ length xs → take n (drop_last xs) ≡ take n xs
  take-drop_last zero xs h = refl
  take-drop_last (suc n) (x ∷ y ∷ xs) h = ap (◌∷◌ x) (take-drop_last n (y ∷ xs) (omega arith))
  take-drop_last (suc n) [] h = absurd (omega arith)
  take-drop_last (suc n) (x ∷ []) h = absurd (omega arith)

  pub length-take_le : (n : ℕ) (xs : List A) → n ≤ length xs → length (take n xs) ≡ n
  length-take_le zero xs h = refl
  length-take_le (suc n) [] h = absurd (omega arith)
  length-take_le (suc n) (x ∷ xs) h = ap suc (length-take_le n xs (omega arith))

  pub last?-eq-none : (xs : List A) → last? xs ≡ none → length xs ≡ 0
  last?-eq-none [] h = refl
  last?-eq-none (x ∷ []) h = cc
  last?-eq-none (x ∷ y ∷ xs) h = absurd (omega (arith, last?-eq-none (y ∷ xs) h))

  pub append_nil : (l : List A) → l ++ [] ≡ l
  append_nil [] = refl
  append_nil (x ∷ l) = ap (◌∷◌ x) (append_nil l)

  pub append_cons : (l : List A) (x : A) (r : List A) → (l ++ x ∷ []) ++ r ≡ l ++ x ∷ r
  append_cons [] x r = refl
  append_cons (y ∷ l) x r = ap (◌∷◌ y) (append_cons l x r)

  pub append_last : (xs : List A) (a : A) → last? (xs ++ a ∷ []) ≡ some a
  append_last [] a = refl
  append_last (x ∷ []) a = refl
  append_last (x ∷ y ∷ xs) a = append_last (y ∷ xs) a

pub length-map {ℓ κ} :
    {A : Type ℓ} {B : Type κ} (f : A → B) (xs : List A) → length (map f xs) ≡ length xs
length-map f [] = refl
length-map f (x ∷ xs) = ap suc (length-map f xs)

module _ {ℓ} {A : Type ℓ} where
  pub length-set : (xs : List A) (i : ℕ) (v : A) → length (set xs i v) ≡ length xs
  length-set [] i v = refl
  length-set (x ∷ xs) zero v = refl
  length-set (x ∷ xs) (suc i) v = ap suc (length-set xs i v)

  pub length-replicate : (n : ℕ) (a : A) → length (replicate n a) ≡ n
  length-replicate zero a = refl
  length-replicate (suc n) a = ap suc (length-replicate n a)

  pub get_elem?-set :
      (xs : List A) (i j : ℕ) (v : A)
      → i < length xs
      → get_elem? (set xs i v) j ≡ (if i == j then some v else get_elem? xs j)
  get_elem?-set [] i j v h = absurd (omega arith)
  get_elem?-set (x ∷ xs) zero zero v h = refl
  get_elem?-set (x ∷ xs) (suc i) (suc j) v h = ground (arith, get_elem?-set xs i j v)
  get_elem?-set (x ∷ xs) i j v h = ground arith

  pub get_elem?-ne-none : (xs : List A) (i : ℕ) → i < length xs → get_elem? xs i ≢ none
  get_elem?-ne-none [] i h = absurd (omega arith)
  get_elem?-ne-none (x ∷ xs) zero h = λ e. cc
  get_elem?-ne-none (x ∷ xs) (suc i) h = get_elem?-ne-none xs i (omega arith)
