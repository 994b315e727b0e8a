-- ===== src/Capacity/Evict.antt =====
-- The eviction loops of capacityLRUCache.go: they end, and keep the longest run of most recently
-- used entries that is within the limits.
use drt_go_chain_storage.Base.{
  ℕ, zero, suc, ◌^◌, ◌≤◌, ◌<◌, Eq, ◌≡◌, refl, Bool, true, false, ◌||◌, some, List, [], ◌∷◌, ltb,
  length, arith, drop_last, length-drop_last, last?, last?-eq-none, sym, ◌∙◌, take, take_all,
  length-take_le, ap, subst, dec_lt, take-drop_last, Bool-cases, inl, inr, Option-cases,
}
use drt_go_chain_storage.Base.Keyed.{erase-last}
use drt_go_chain_storage.Base.Agree.{Hit-last, find_key-last}
use drt_go_chain_storage.Capacity.{
  Entry, CapacityLru, should_evict, remove_element, remove_oldest, evict_loop, evict_if_needed,
}
use drt_go_chain_storage.Capacity.Valid.{
  entries, total, over, entry_key, IsCoherent, IsValid, length-entries, should_evict-over,
  within-small, remove_element-Removed,
}

-- `l'` is the longest prefix of `l` that `over` lets pass: no longer prefix passes.
pub record Trimmed {ℓ} {K V : Type ℓ} (size max : ℕ) (l l' : List (Entry K V)) : Type ℓ where
  pub kept : ℕ
  pub kept_le : kept ≤ length l
  pub prefix : l' ≡ take kept l
  pub fits : over size max l' ≡ false
  pub longest : (m : ℕ) → kept < m → m ≤ length l → over size max (take m l) ≡ true

module _ {ℓ} {K V : Type ℓ} where
  pub total-drop_last : (l : List (Entry K V)) → total (drop_last l) ≤ total l
  total-drop_last [] = omega arith
  total-drop_last (x ∷ []) = omega arith
  total-drop_last (x ∷ y ∷ l) = omega (arith, total-drop_last (y ∷ l))

  pub over-nonempty : (size max : ℕ) (l : List (Entry K V)) → over size max l ≡ true → 1 < length l
  over-nonempty size max [] h = ground arith
  over-nonempty size max (x ∷ l) h = ground arith

  length-Trimmed :
      {size max : ℕ} {l l' : List (Entry K V)} → Trimmed size max l l' → length l' ≤ length l
  length-Trimmed {l = l} t = rw (t.prefix, length-take_le t.kept l t.kept_le) t.kept_le

  Trimmed-cong :
      {size size' max max' : ℕ} {l k l' : List (Entry K V)}
      → size' ≡ size
      → max' ≡ max
      → k ≡ l
      → Trimmed size' max' k l'
      → Trimmed size max l l'
  Trimmed-cong {size} {size'} {max} {max'} {l} {k} {l'} p q r t =
      subst (λ n. Trimmed n max l l') p
        (subst (λ n. Trimmed size' n l l') q (subst (λ m. Trimmed size' max' m l') r t))

  Trimmed-drop_last :
      (size max : ℕ) (l l' : List (Entry K V))
      → over size max l ≡ true
      → Trimmed size max (drop_last l) l'
      → Trimmed size max l l'
  Trimmed-drop_last size max l l' broken t =
      let many = over-nonempty size max l broken in
      let shorter = length-drop_last l (omega arith) in
      record {
        kept = t.kept;
        kept_le = omega (arith, t.kept_le);
        prefix = t.prefix ∙ take-drop_last t.kept l (omega (arith, t.kept_le));
        fits = t.fits;
        longest = λ m p q. elim (dec_lt m (length l)) [
          | yes lt ↦ rw (take-drop_last m l lt) at (t.longest m p (omega arith))
          | no ge ↦
              let all : m ≡ length l = omega arith in
              subst (λ n. over size max (take n l) ≡ true) (sym all) (rw (take_all l) broken)
        ];
      }

module _ {ℓ} {K V : Type ℓ} ⦃e : Eq K⦄ where
  -- what one eviction leaves
  pub record Dropped (c c' : CapacityLru K V) : Type ℓ where
    pub coherent : IsCoherent c'
    pub left : entries c' ≡ drop_last (entries c)
    pub size : c'.size ≡ c.size
    pub capacity : c'.max_capacity_in_bytes ≡ c.max_capacity_in_bytes

  pub remove_oldest-Dropped :
      (c : CapacityLru K V) → IsCoherent c → 1 < length (entries c) → Dropped c (remove_oldest c)
  unfolding remove_oldest
  remove_oldest-Dropped c h more = elim (Option-cases (last? c.evict_list.elems)) [
    | inl empty ↦ absurd (omega (arith, last?-eq-none c.evict_list.elems empty, length-entries c))
    | inr (x, last) ↦
        let hit = (Hit-last entry_key c.evict_list.elems x h.agree last).0 in
        let r = remove_element-Removed c x.1.key x.0 x.1 h hit in
        let d : Dropped c (remove_element x c) = record {
          coherent = r.coherent;
          left =
              r.left
              ∙ erase-last entry_key (entries c) x.1 h.agree.keys
                  (find_key-last entry_key c.evict_list.elems x h.agree.keys last).1;
          size = r.size;
          capacity = r.capacity;
        } in
        rw (last, remove_oldest) d
  ]

  -- What a run of the loop gives: a valid state of the same limits with the entries trimmed, and
  -- the flag set if it was, or if an entry went.
  pub record Evicted (c : CapacityLru K V) (before : Bool) (c' : CapacityLru K V) (evicted : Bool)
      : Type ℓ where
    pub valid : IsValid c'
    pub size : c'.size ≡ c.size
    pub capacity : c'.max_capacity_in_bytes ≡ c.max_capacity_in_bytes
    pub trimmed : Trimmed c.size c.max_capacity_in_bytes (entries c) (entries c')
    pub flag : evicted ≡ (before || ltb (length (entries c')) (length (entries c)))

  evict_loop-Evicted :
      (fuel : ℕ) (before : Bool) (c : CapacityLru K V)
      → IsCoherent c
      → total (entries c) < 2 ^ 63
      → length (entries c) < fuel
      → (c' : CapacityLru K V) × (evicted : Bool) × (evict_loop fuel before c ≡ some (c', evicted))
        × Evicted c before c' evicted
  unfolding evict_loop
  evict_loop-Evicted zero before c h small f = absurd (omega arith)
  evict_loop-Evicted (suc fuel) before c h small f = elim (Bool-cases (should_evict c)) [
    | inl more ↦
        let broken = sym (should_evict-over c h small) ∙ more in
        let many = over-nonempty c.size c.max_capacity_in_bytes (entries c) broken in
        let d = remove_oldest-Dropped c h many in
        let less = total-drop_last (entries c) in
        let size = length-drop_last (entries c) (omega arith) in
        let (c', evicted, run, r) =
          evict_loop-Evicted fuel true (remove_oldest c) d.coherent (omega (arith, ap total d.left))
            (omega (arith, ap (length {A = Entry K V}) d.left)) in
        let t = Trimmed-cong d.size d.capacity d.left r.trimmed in
        let trimmed =
          Trimmed-drop_last c.size c.max_capacity_in_bytes (entries c) (entries c') broken t in
        (
          c',
          evicted,
          rw more run,
          record {
            valid = r.valid;
            size = r.size ∙ d.size;
            capacity = r.capacity ∙ d.capacity;
            trimmed = trimmed;
            flag = ground (arith, r.flag, ap (length {A = Entry K V}) d.left, length-Trimmed t);
          },
        )
    | inr done ↦
        let t : Trimmed c.size c.max_capacity_in_bytes (entries c) (entries c) = record {
          kept = length (entries c);
          kept_le = omega arith;
          prefix = sym (take_all (entries c));
          fits = sym (should_evict-over c h small) ∙ done;
          longest = λ m p q. absurd (omega arith);
        } in
        (
          c,
          before,
          rw done,
          record {
            valid = record { coherent = h; within = t.fits };
            size = refl;
            capacity = refl;
            trimmed = t;
            flag = ground arith;
          },
        )
  ]

  -- The loop ends on every coherent state whose sizes add up to an `int64`.
  pub evict_if_needed-Evicted :
      (c : CapacityLru K V)
      → IsCoherent c
      → total (entries c) < 2 ^ 63
      → (c' : CapacityLru K V) × (evicted : Bool) × (evict_if_needed c ≡ some (c', evicted))
        × Evicted c false c' evicted
  unfolding evict_if_needed
  evict_if_needed-Evicted c h small =
      evict_loop-Evicted (suc (length c.evict_list.elems)) false c h small
        (omega (arith, length-entries c))

  pub evict_if_needed_valid :
      (c : CapacityLru K V) → IsValid c → evict_if_needed c ≡ some (c, false)
  unfolding evict_if_needed evict_loop
  evict_if_needed_valid c v = rw (should_evict-over c v.coherent (within-small c v) ∙ v.within) refl
