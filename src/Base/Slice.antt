-- ===== src/Base/Slice.antt =====
-- A slice as a list under native indices: reads with a default, and swaps.
use Prim.Native.Nat.{ℕ, zero, suc, ◌<◌}
use mathlib.Core.Path.{◌≡◌, refl, ◌∙◌}
use mathlib.Core.Option.{none, some}
use mathlib.Core.List.{List, [], ◌∷◌, ◌++◌}
use native.Mathlib.Omega.{arith}
use drt_go_chain_storage.Base.Bag.{SameBag, same_refl, same_swap, same_cons, same_trans}
use drt_go_chain_storage.Base.Tests.{if◌then◌else◌, ◌==◌, ltb}
use drt_go_chain_storage.Base.Lists.{length, get_elem?, set, length-set, last?, drop_last}

module _ {ℓ} {A : Type ℓ} where
  -- `a[i], a[j] = a[j], a[i]`
  unfoldable pub swap : ℕ → ℕ → List A → List A
  swap i j a = elim (get_elem? a i) [
    | none ↦ a
    | some x ↦ elim (get_elem? a j) [ none ↦ a | some y ↦ set (set a i y) j x ]
  ]

  -- `a[i]`, where `d` stands for what is out of range
  unfoldable pub at : A → List A → ℕ → A
  at d [] i = d
  at d (x ∷ a) zero = x
  at d (x ∷ a) (suc i) = at d a i

  pub get_elem?-at : (d : A) (a : List A) (i : ℕ) → i < length a → get_elem? a i ≡ some (at d a i)
  unfolding at
  get_elem?-at d [] i h = absurd (omega arith)
  get_elem?-at d (x ∷ a) zero h = refl
  get_elem?-at d (x ∷ a) (suc i) h = get_elem?-at d a i (omega arith)

  at-set :
      (d : A) (a : List A) (i j : ℕ) (v : A)
      → i < length a
      → at d (set a i v) j ≡ (if i == j then v else at d a j)
  unfolding at
  at-set d [] i j v h = absurd (omega arith)
  at-set d (x ∷ a) zero zero v h = refl
  at-set d (x ∷ a) (suc i) (suc j) v h = ground (arith, at-set d a i j v)
  at-set d (x ∷ a) i j v h = ground arith

  -- a write at a place trades its entry for the new one
  trade-perm :
      (d : A) (a : List A) (i : ℕ) (v : A) → i < length a → SameBag (at d a i ∷ set a i v) (v ∷ a)
  unfolding at
  trade-perm d [] i v h = absurd (omega arith)
  trade-perm d (x ∷ a) zero v h = same_swap v x a
  trade-perm d (x ∷ a) (suc i) v h =
      same_trans (same_swap x (at d a i) (set a i v))
        (same_trans (same_cons x (trade-perm d a i v (omega arith))) (same_swap v x a))

  two_writes-perm :
      (d : A) (a : List A) (i j : ℕ)
      → i < length a
      → j < length a
      → SameBag (set (set a i (at d a j)) j (at d a i)) a
  unfolding at
  two_writes-perm d [] i j hi hj = absurd (omega arith)
  two_writes-perm d (x ∷ a) zero zero hi hj = same_refl (x ∷ a)
  two_writes-perm d (x ∷ a) zero (suc j) hi hj = trade-perm d a j x (omega arith)
  two_writes-perm d (x ∷ a) (suc i) zero hi hj = trade-perm d a i x (omega arith)
  two_writes-perm d (x ∷ a) (suc i) (suc j) hi hj =
      same_cons x (two_writes-perm d a i j (omega arith) (omega arith))

  module _ (d : A) (a : List A) (i j : ℕ) (hi : i < length a) (hj : j < length a) where
    swap_lem : swap i j a ≡ set (set a i (at d a j)) j (at d a i)
    unfolding swap
    swap_lem = rw (get_elem?-at d a i hi, swap) (rw (get_elem?-at d a j hj, swap) refl)

    pub swap-perm : SameBag (swap i j a) a
    swap-perm = rw swap_lem (two_writes-perm d a i j hi hj)

    pub length-swap : length (swap i j a) ≡ length a
    length-swap =
        rw swap_lem (length-set (set a i (at d a j)) j (at d a i) ∙ length-set a i (at d a j))

    pub at-swap :
        (c : ℕ)
        → at d (swap i j a) c ≡ (if j == c then at d a i else if i == c then at d a j else at d a c)
    at-swap c = ground (
      arith,
      swap_lem,
      at-set d (set a i (at d a j)) j c (at d a i),
      at-set d a i c (at d a j),
      length-set a i (at d a j),
    )

module _ {ℓ} {A : Type ℓ} where
  pub at-append :
      (d x : A) (a : List A) (i : ℕ)
      → at d (a ++ x ∷ []) i
        ≡ (if ltb i (length a) then at d a i else if i == length a then x else d)
  unfolding at
  at-append d x [] zero = refl
  at-append d x [] (suc i) = ground arith
  at-append d x (y ∷ a) zero = ground arith
  at-append d x (y ∷ a) (suc i) = ground (arith, at-append d x a i)

  pub at-drop_last :
      (d : A) (a : List A) (i : ℕ) → suc i < length a → at d (drop_last a) i ≡ at d a i
  unfolding at
  at-drop_last d [] i h = absurd (omega arith)
  at-drop_last d (x ∷ []) i h = absurd (omega arith)
  at-drop_last d (x ∷ y ∷ a) zero h = refl
  at-drop_last d (x ∷ y ∷ a) (suc i) h = at-drop_last d (y ∷ a) i (omega arith)

  pub last?-at :
      (d : A) (n : ℕ) (a : List A)
      → length a ≡ suc n
      → (last? a ≡ some (at d a n)) × SameBag (at d a n ∷ drop_last a) a
  unfolding at
  last?-at d n [] h = absurd (omega arith)
  last?-at d zero (x ∷ []) h = (refl, same_refl (x ∷ []))
  last?-at d (suc n) (x ∷ []) h = absurd (omega arith)
  last?-at d zero (x ∷ y ∷ a) h = absurd (omega arith)
  last?-at d (suc n) (x ∷ y ∷ a) h =
      let (last, perm) = last?-at d n (y ∷ a) (omega arith) in
      (last, same_trans (same_swap x (at d (y ∷ a) n) (drop_last (y ∷ a))) (same_cons x perm))

  pub append-perm : (a : List A) (x : A) → SameBag (a ++ x ∷ []) (x ∷ a)
  append-perm [] x = same_refl (x ∷ [])
  append-perm (y ∷ a) x = same_trans (same_cons y (append-perm a x)) (same_swap x y a)
