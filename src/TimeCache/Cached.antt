-- ===== src/TimeCache/Cached.antt =====
-- timecache/timeCacher.go as the cacher of a storage unit. The reading of the clock with a number
-- is `clock` of it, and each Put takes the next one. The state comes with the facts that the
-- operations give: no key stands twice, the empty key is not held, and no value is nil, since a
-- unit puts none.
use drt_go_chain_storage.Base.{
  ℕ, suc, ◌≡◌, refl, sym, ◌∷◌, ◌⊎◌, inl, inr, ◌∙◌, ap, true, false, Option, none, some, [], ◌==◌,
  ◌>>=◌, if◌then◌else◌, is_some, length, arith, Option-cases, Bool-cases,
}
use drt_go_chain_storage.Base.Bytes.{Bytes, bytes_eq, bytes_beq, bytes_beq_iff}
use drt_go_chain_storage.Base.GoMap.{
  lookup, Distinct, lookup-insert, lookup-delete, insert-Distinct, delete-Distinct,
}
use drt_go_chain_storage.TimeCache
use drt_go_chain_storage.TimeCache.{Entry, store}
use drt_go_chain_storage.TimeCache.Cacher as Timed
use drt_go_chain_storage.TimeCache.Cacher.{TimeCacher}
use drt_go_chain_storage.TimeCache.Swept.{Fate, is_old, sweep-Fate}
use drt_go_chain_storage.StorageUnit.{Cacher}
use drt_go_chain_storage.StorageUnit.Interfaces.{CacherLaws}

length-zero : (k : Bytes) → length k == 0 ≡ true → k ≡ []
length-zero [] h = refl
length-zero (b ∷ k) h = ground (arith, h)

module _ {M H : Type 0} where
  -- the value of a key
  abbrev pub held : Bytes → TimeCacher Bytes M H → Option Bytes
  held k tc = lookup k tc.time_cache.entries >>= λ e. e.value

  pub record IsFit (tc : TimeCacher Bytes M H) : Type 0 where
    pub distinct : Distinct tc.time_cache.entries
    pub no_empty : lookup [] tc.time_cache.entries ≡ none
    pub filled : (k : Bytes) → is_some (held k tc) ≡ is_some (lookup k tc.time_cache.entries)

  pub get-held : (k : Bytes) (tc : TimeCacher Bytes M H) → IsFit tc → (Timed.get k tc).0 ≡ held k tc
  unfolding Timed.get
  get-held k tc v = elim (Option-cases (lookup k tc.time_cache.entries)) [
    | inl absent ↦ rw (absent, Timed.get) refl
    | inr (e, there) ↦ rw (there, Timed.get) refl
  ]

  pub has_item-held :
      (k : Bytes) (tc : TimeCacher Bytes M H) → IsFit tc → Timed.has_item k tc ≡ is_some (held k tc)
  unfolding Timed.has_item TimeCache.has_key
  has_item-held k tc v = cc (v.filled k)

  -- what Put leaves
  pub record Put (k v : Bytes) (tc tc' : TimeCacher Bytes M H) : Type 0 where
    pub fit : IsFit tc'
    pub holds :
        (q : Bytes)
        → (held q tc' ≡ none) ⊎ (held q tc' ≡ (if bytes_beq k q then some v else held q tc))

  pub put-Put :
      (now : M) (k v : Bytes) (tc : TimeCacher Bytes M H)
      → IsFit tc
      → Put k v tc (Timed.put now k (some v) tc).0
  unfolding Timed.put TimeCache.put store
  put-Put now k v tc fit = elim (Bool-cases (length k == 0)) [
    | inl empty ↦
        rw (empty, Timed.put)
          (record {
            fit = fit;
            holds = λ q. elim (Bool-cases (bytes_beq k q)) [
              | inl same ↦
                  let nil : k ≡ [] = length-zero k empty in
                  let at : q ≡ [] = sym ((bytes_beq_iff k q).0 same) ∙ nil in
                  inl (rw at (rw fit.no_empty refl))
              | inr other ↦ inr (rw other refl)
            ];
          })
    | inr some_key ↦
        let e : Entry Bytes M = record {
          timestamp = now;
          span = tc.time_cache.default_span;
          value = some v;
        } in
        let found = λ (q : Bytes). lookup-insert k q e tc.time_cache.entries in
        rw (some_key, Timed.put)
          (record {
            fit = record {
              distinct = insert-Distinct k e tc.time_cache.entries fit.distinct;
              no_empty = elim (Bool-cases (bytes_beq k [])) [
                | inl same ↦
                    absurd (ground (arith, some_key, ap length ((bytes_beq_iff k []).0 same)))
                | inr other ↦ ground (arith, found [], other, fit.no_empty)
              ];
              filled = λ q. ground (arith, found q, fit.filled q);
            };
            holds = λ q. inr (ground (arith, found q));
          })
  ]

  pub remove-IsFit :
      (k : Bytes) (tc : TimeCacher Bytes M H)
      → IsFit tc
      → IsFit (Timed.remove (some k) tc)
        × ((q : Bytes)
            → held q (Timed.remove (some k) tc) ≡ (if bytes_beq k q then none else held q tc))
  unfolding Timed.remove
  remove-IsFit k tc fit =
      let found = λ (q : Bytes). lookup-delete k q tc.time_cache.entries fit.distinct in
      (
        record {
          distinct = delete-Distinct k tc.time_cache.entries fit.distinct;
          no_empty = ground (arith, found [], fit.no_empty);
          filled = λ q. ground (arith, found q, fit.filled q);
        },
        λ q. ground (arith, found q),
      )

  pub clear-IsFit :
      (tc : TimeCacher Bytes M H)
      → IsFit (Timed.clear tc) × ((q : Bytes) → held q (Timed.clear tc) ≡ none)
  unfolding Timed.clear TimeCache.clear lookup
  clear-IsFit tc = (record { distinct = tt; no_empty = refl; filled = λ k. refl }, λ q. refl)

module _ {M : Type 0} (since : M → M → ℕ) (readings : ℕ → M) where
  Fate-left :
      (n : ℕ) (before after : Option (Entry Bytes M))
      → Fate since readings n before before after
      → (after ≡ none) ⊎ (after ≡ before)
  Fate-left n none after same = inr same
  Fate-left n (some e) after (i, less, same) = elim (Bool-cases (is_old since readings i e)) [
    | inl old ↦ inl (same ∙ rw old refl)
    | inr young ↦ inr (same ∙ rw young refl)
  ]

module _ {M H : Type 0} (since : M → M → ℕ) (readings : ℕ → M) where
  -- the time cacher behind a sweep of its goroutine
  abbrev pub swept : TimeCacher Bytes M H → TimeCacher Bytes M H
  swept tc = record tc { time_cache = TimeCache.sweep since readings tc.time_cache }

  -- A sweep between two operations of a unit makes the cacher forget entries, and nothing else.
  pub swept-IsFit :
      (tc : TimeCacher Bytes M H)
      → IsFit tc
      → IsFit (swept tc)
        × ((q : Bytes) → (held q (swept tc) ≡ none) ⊎ (held q (swept tc) ≡ held q tc))
  swept-IsFit tc fit =
      let found = λ (q : Bytes).
        Fate-left since readings (length tc.time_cache.entries) (lookup q tc.time_cache.entries)
          (lookup q (swept tc).time_cache.entries)
          (sweep-Fate since readings q tc.time_cache fit.distinct).0 in
      (
        record {
          distinct = (sweep-Fate since readings [] tc.time_cache fit.distinct).1;
          no_empty = elim (found []) [ inl gone ↦ gone | inr same ↦ same ∙ fit.no_empty ];
          filled =
              λ q. elim (found q) [ inl gone ↦ rw gone refl | inr same ↦ rw same (fit.filled q) ];
        },
        λ q. elim (found q) [ inl gone ↦ inl (rw gone refl) | inr same ↦ inr (rw same refl) ],
      )

-- the cacher: what is held, and the number of the next reading of the clock
abbrev pub TimedState : Type 0 → Type 0 → Type 0
TimedState M H = ((tc : TimeCacher Bytes M H) × IsFit tc) × ℕ

abbrev pub swept_state : {M H : Type 0} → (M → M → ℕ) → (ℕ → M) → TimedState M H → TimedState M H
swept_state since readings s =
    ((swept since readings s.0.0, (swept-IsFit since readings s.0.0 s.0.1).0), s.1)

module _ {M H : Type 0} (clock : ℕ → M) where
  abbrev pub time_cacher : Cacher (TimedState M H)
  time_cacher = record {
    put = λ k v n s. (
      (
        ((Timed.put (clock s.1) k (some v) s.0.0).0, (put-Put (clock s.1) k v s.0.0 s.0.1).fit),
        suc s.1,
      ),
      false,
    );
    get = λ k s. (s, (Timed.get k s.0.0).0);
    has = λ k s. Timed.has_item k s.0.0;
    remove = λ k s. ((Timed.remove (some k) s.0.0, (remove-IsFit k s.0.0 s.0.1).0), s.1);
    clear = λ s. ((Timed.clear s.0.0, (clear-IsFit s.0.0).0), s.1);
  }

  -- The time cacher does what a storage unit relies on, and replaces the value of a key.
  unfoldable pub time_cacher_laws : CacherLaws time_cacher
  time_cacher_laws = record {
    holds = λ q s. held q s.0.0;
    get-holds = λ k s. get-held k s.0.0 s.0.1;
    get-keeps = λ k q s. refl;
    put-holds = λ k v n q s. (put-Put (clock s.1) k v s.0.0 s.0.1).holds q;
    has-holds = λ k s. has_item-held k s.0.0 s.0.1;
    remove-holds = λ k q s. (remove-IsFit k s.0.0 s.0.1).1 q;
    clear-holds = λ q s. (clear-IsFit s.0.0).1 q;
  }
