-- ===== src/Base/Bag.antt =====
-- Lists up to order, by the library's derivations of a permutation: what holds of every entry and
-- what is summed over the entries does not depend on the order.
use Prim.Native.Nat.{ℕ, ◌+◌}
use mathlib.Core.Path.{◌≡◌, refl, sym, ap, subst}
use mathlib.Core.List.{List, [], ◌∷◌}
use mathlib.Core.List.{Permᴰ}
use native.Mathlib.Omega.{arith}
use drt_go_chain_storage.Base.Lists.{All}

module _ {ℓ} {A : Type ℓ} where
  abbrev pub SameBag : List A → List A → Type ℓ
  SameBag = Permᴰ

  pub same_refl : (a : List A) → SameBag a a
  same_refl [] = Permᴰ.nil
  same_refl (x ∷ a) = Permᴰ.cons refl (same_refl a)

  pub same_swap : (x y : A) (a : List A) → SameBag (y ∷ x ∷ a) (x ∷ y ∷ a)
  same_swap x y a = Permᴰ.swap refl refl

  pub same_cons : (x : A) {a b : List A} → SameBag a b → SameBag (x ∷ a) (x ∷ b)
  same_cons x p = Permᴰ.cons refl p

  pub same_trans : {a b c : List A} → SameBag a b → SameBag b c → SameBag a c
  same_trans p q = Permᴰ.trans p q

  -- the sum of a measure of the entries
  abbrev pub sum_of : (A → ℕ) → List A → ℕ
  sum_of f [] = 0
  sum_of f (x ∷ a) = f x + sum_of f a

  pub sum_of-SameBag : (f : A → ℕ) {a b : List A} → SameBag a b → sum_of f a ≡ sum_of f b
  sum_of-SameBag f Permᴰ.nil = refl
  sum_of-SameBag f (Permᴰ.cons e p) = omega (arith, sum_of-SameBag f p, ap f e)
  sum_of-SameBag f (Permᴰ.swap e g) = omega (arith, ap f e, ap f g)
  sum_of-SameBag f (Permᴰ.trans p q) = omega (arith, sum_of-SameBag f p, sum_of-SameBag f q)

  pub All-SameBag {κ} : (P : A → Type κ) {a b : List A} → SameBag a b → All P a → All P b
  All-SameBag P Permᴰ.nil h = h
  All-SameBag P (Permᴰ.cons e p) h = (subst P e h.0, All-SameBag P p h.1)
  All-SameBag P (Permᴰ.swap e g) h = (subst P g h.1.0, (subst P e h.0, h.1.1))
  All-SameBag P (Permᴰ.trans p q) h = All-SameBag P q (All-SameBag P p h)

  pub same_symm : {a b : List A} → SameBag a b → SameBag b a
  same_symm Permᴰ.nil = Permᴰ.nil
  same_symm (Permᴰ.cons e p) = Permᴰ.cons (sym e) (same_symm p)
  same_symm (Permᴰ.swap e g) = Permᴰ.swap (sym g) (sym e)
  same_symm (Permᴰ.trans p q) = Permᴰ.trans (same_symm q) (same_symm p)
