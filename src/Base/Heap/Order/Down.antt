-- ===== src/Base/Heap/Order/Down.antt =====
-- `down` of container/heap restores the order below one entry, among the entries in front of `n`.
use Prim.Native.Nat.{ℕ, zero, suc, ◌+◌, ◌*◌, ◌<◌, ◌≤◌}
use mathlib.Core.Path.{◌≡◌, refl, ◌∙◌}
use mathlib.Core.Logic.{◌≢◌, inl, inr}
use mathlib.Core.Bool.{Bool, true, false}
use mathlib.Core.List.{List}
use native.Mathlib.Omega.{arith}
use drt_go_chain_storage.Base.Bag.{SameBag, same_refl, same_trans}
use drt_go_chain_storage.Base.Tests.{ltb, Bool-cases}
use drt_go_chain_storage.Base.Lists.{length}
use drt_go_chain_storage.Base.Slice.{at, swap, swap-perm, length-swap, at-swap}
use drt_go_chain_storage.Base.Heap.{parent, first_child, down}
use drt_go_chain_storage.Base.Heap.Order.{Priority, less-at}

module _ {ℓ} {A : Type ℓ} (before : A → A → Bool) (p : Priority before) (d : A) (n : ℕ) where
  -- only the edges below `i` may be out of order
  pub record DownInv (a : List A) (i : ℕ) : Type 0 where
    pub inside : n ≤ length a
    pub edges :
        (c : ℕ) → 0 < c → c < n → parent c ≢ i → before (at d a c) (at d a (parent c)) ≡ false
    pub bridged :
        (c : ℕ)
        → 0 < c
        → c < n
        → parent c ≡ i
        → 0 < i
        → before (at d a c) (at d a (parent i)) ≡ false

  record IsFirstChild (a : List A) (i j : ℕ) : Type 0 where
    pub inside : j < n
    pub pos : 0 < j
    pub child : parent j ≡ i
    pub first : (c : ℕ) → 0 < c → c < n → parent c ≡ i → before (at d a c) (at d a j) ≡ false

  first_child-IsFirstChild :
      (a : List A) (i : ℕ)
      → n ≤ length a
      → 2 * i + 1 < n
      → IsFirstChild a i (first_child before n i a)
  unfolding first_child
  first_child-IsFirstChild a i le h =
      let left = 2 * i + 1 in
      let right = 2 * i + 2 in
      let same = p.asym (at d a left) (at d a left) in
      elim (Bool-cases (ltb right n)) [
        | inr only ↦ rw only (record {
          inside = h;
          pos = omega arith;
          child = omega arith;
          first = λ c q r s. let e : c ≡ left = ground (arith, only) in rw e (ground (arith, same));
        })
        | inl both ↦
            let test =
              less-at before d a right left (ground (arith, both, le)) (omega (arith, le, h)) in
            elim (Bool-cases (before (at d a right) (at d a left))) [
              | inl second ↦
                  rw (both, test, second)
                    (record {
                      inside = ground (arith, both);
                      pos = omega arith;
                      child = omega arith;
                      first = λ c q r s. elim (Bool-cases (ltb c right)) [
                        | inl is_left ↦
                            let e : c ≡ left = ground (arith, is_left) in
                            rw e (p.asym (at d a right) (at d a left) second)
                        | inr is_right ↦
                            let e : c ≡ right = ground (arith, is_right) in
                            rw e (ground (arith, p.asym (at d a right) (at d a right)))
                      ];
                    })
              | inr first ↦
                  rw (both, test, first)
                    (record {
                      inside = h;
                      pos = omega arith;
                      child = omega arith;
                      first = λ c q r s. elim (Bool-cases (ltb c right)) [
                        | inl is_left ↦
                            let e : c ≡ left = ground (arith, is_left) in
                            rw e (ground (arith, same))
                        | inr is_right ↦ let e : c ≡ right = ground (arith, is_right) in rw e first
                      ];
                    })
            ]
      ]

  swap-DownInv :
      (a : List A) (i j : ℕ)
      → DownInv a i
      → IsFirstChild a i j
      → before (at d a j) (at d a i) ≡ true
      → DownInv (swap i j a) j
  swap-DownInv a i j v s below =
      let hj : j < length a = omega (arith, s.inside, v.inside) in
      let hi : i < length a = omega (arith, s.child, s.pos, hj) in
      let read = at-swap d a i j hi hj in
      let size = length-swap d a i j hi hj in
      let over = p.asym (at d a j) (at d a i) below in
      record {
        inside = omega (arith, size, v.inside);
        edges = λ c q r t. ground (
          arith,
          read c,
          read (parent c),
          over,
          v.edges c,
          v.bridged c,
          v.bridged j,
          s.first c,
          s.child,
          s.pos,
          s.inside,
        );
        bridged = λ c q r t u.
            ground (arith, read c, read (parent j), v.edges c, s.child, s.pos, s.inside);
      }

  -- what `down` leaves
  pub record Sunk (a b : List A) : Type ℓ where
    pub edges : (c : ℕ) → 0 < c → c < n → before (at d b c) (at d b (parent c)) ≡ false
    pub perm : SameBag b a
    pub size : length b ≡ length a
    pub kept : at d b n ≡ at d a n

  pub down-Sunk :
      (fuel i : ℕ) (a : List A) → n ≤ fuel + i → DownInv a i → Sunk a (down before fuel n i a)
  unfolding down
  down-Sunk zero i a f v = record {
    edges = λ c q r. v.edges c q r (omega (arith, f));
    perm = same_refl a;
    size = refl;
    kept = refl;
  }
  down-Sunk (suc fuel) i a f v = elim (Bool-cases (ltb (2 * i + 1) n)) [
    | inr leaf ↦ rw leaf (record {
      edges = λ c q r. v.edges c q r (ground (arith, leaf));
      perm = same_refl a;
      size = refl;
      kept = refl;
    })
    | inl inner ↦
        let j = first_child before n i a in
        let s = first_child-IsFirstChild a i v.inside (ground (arith, inner)) in
        let hj : j < length a = omega (arith, s.inside, v.inside) in
        let hi : i < length a = omega (arith, s.child, s.pos, hj) in
        let test = less-at before d a j i hj hi in
        elim (Bool-cases (before (at d a j) (at d a i))) [
          | inr settled ↦
              rw (inner, test, settled)
                (record {
                  edges = λ c q r. ground (
                    arith,
                    v.edges c,
                    s.first c,
                    p.trans (at d a c) (at d a j) (at d a i),
                    settled,
                  );
                  perm = same_refl a;
                  size = refl;
                  kept = refl;
                })
          | inl below ↦
              let r =
                down-Sunk fuel j (swap i j a) (omega (arith, f, s.child, s.pos))
                  (swap-DownInv a i j v s below) in
              rw (inner, test, below)
                (record {
                  edges = r.edges;
                  perm = same_trans r.perm (swap-perm d a i j hi hj);
                  size = r.size ∙ length-swap d a i j hi hj;
                  kept = r.kept ∙ ground (arith, at-swap d a i j hi hj n, s.inside, s.child, s.pos);
                })
        ]
  ]
