-- ===== src/TimeCache/Swept.antt =====
-- What a sweep of timecache/timeCacheCore.go leaves.
use drt_go_chain_storage.Base.{
  ℕ, suc, ◌<◌, ◌≡◌, refl, sym, ◌∙◌, ap, subst, Bool, Option, none, some, [], ◌∷◌, if◌then◌else◌,
  arith, ltb_int64, length, Bool-cases, inl, inr,
}
use drt_go_chain_storage.Base.Bytes.{Bytes, bytes_eq, bytes_beq, bytes_beq_iff}
use drt_go_chain_storage.Base.GoMap.{
  GoMap, lookup, delete, Distinct, lookup-delete, delete-Distinct,
}
use drt_go_chain_storage.TimeCache.{Entry, TimeCacheCore, sweep_loop, sweep}

module _ {V M : Type 0} (since : M → M → ℕ) (readings : ℕ → M) where
  -- the entry is over its span at a reading of the clock
  abbrev pub is_old : ℕ → Entry V M → Bool
  is_old i e = ltb_int64 e.span (since (readings i) e.timestamp)

  -- what a loop over `n` entries makes of what a key has, by the entry of the loop under the key
  abbrev pub Fate : ℕ → Option (Entry V M) → Option (Entry V M) → Option (Entry V M) → Type 0
  Fate n none before after = after ≡ before
  Fate n (some e) before after = (i : ℕ) × (i < n) × (after ≡ (if is_old i e then none else before))

  later-Fate :
      (n : ℕ) (o before after : Option (Entry V M))
      → Fate n o before after
      → Fate (suc n) o before after
  later-Fate n none before after e = e
  later-Fate n (some x) before after (i, less, e) = (i, omega (arith, less), e)

  sweep_loop-Fate :
      (q : Bytes) (l held : GoMap Bytes (Entry V M))
      → Distinct l
      → Distinct held
      → Fate (length l) (lookup q l) (lookup q held) (lookup q (sweep_loop since readings l held))
        × Distinct (sweep_loop since readings l held)
  unfolding sweep_loop lookup
  sweep_loop-Fate q [] held d d' = (refl, d')
  sweep_loop-Fate q ((key, e) ∷ rest) held d d' =
      let left = if is_old (length rest) e then delete key held else held in
      let distinct : Distinct left = elim (Bool-cases (is_old (length rest) e)) [
        | inl old ↦ rw old (delete-Distinct key held d')
        | inr young ↦ rw young d'
      ] in
      let (fate, kept) = sweep_loop-Fate q rest left d.1 distinct in
      let gone = lookup-delete key q held d' in
      elim (Bool-cases (bytes_beq key q)) [
        | inl here ↦
            let same = (bytes_beq_iff key q).0 here in
            let absent : lookup q rest ≡ none = ap (λ k. lookup k rest) (sym same) ∙ d.0 in
            let dropped : lookup q left ≡ (if is_old (length rest) e then none else lookup q held) =
              elim (Bool-cases (is_old (length rest) e)) [
                | inl old ↦ rw old (gone ∙ rw here refl)
                | inr young ↦ rw young refl
              ] in
            let out : lookup q (sweep_loop since readings rest left) ≡ lookup q left =
              subst
                (λ o.
                  Fate (length rest) o (lookup q left)
                    (lookup q (sweep_loop since readings rest left)))
                absent fate in
            (rw here (length rest, omega arith, out ∙ dropped), kept)
        | inr other ↦
            let same : lookup q left ≡ lookup q held = elim (Bool-cases (is_old (length rest) e)) [
              | inl old ↦ rw old (gone ∙ rw other refl)
              | inr young ↦ rw young refl
            ] in
            (
              rw other (
                  later-Fate (length rest) (lookup q rest) (lookup q held)
                    (lookup q (sweep_loop since readings rest left))
                    (subst
                      (λ b.
                        Fate (length rest) (lookup q rest) b
                          (lookup q (sweep_loop since readings rest left)))
                      same fate)),
              kept,
            )
      ]

  -- A sweep of a cache in which no key stands twice deals with each key on its own: a key that was not
  -- there is not there, and a key that was there is gone if its span was over at the reading of the
  -- clock that the sweep took for it, and has the same entry if it was not. No key stands twice
  -- afterwards.
  pub sweep-Fate :
      (q : Bytes) (c : TimeCacheCore V M)
      → Distinct c.entries
      → Fate
          (length c.entries)
          (lookup q c.entries)
          (lookup q c.entries)
          (lookup q (sweep since readings c).entries)
        × Distinct (sweep since readings c).entries
  unfolding sweep
  sweep-Fate q c d = sweep_loop-Fate q c.entries c.entries d d
