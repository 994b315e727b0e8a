-- ===== src/StorageUnit/Coherent.antt =====
-- The cache of storageUnit/storageunit.go never holds anything else than the persister, whatever
-- operations run and whichever of them fail.
use drt_go_chain_storage.Base.{
  ◌≡◌, refl, sym, ◌∙◌, ap, subst, ◌⊎◌, inl, inr, true, false, Option, none, some, length,
  Option-cases, Bool-cases,
}
use drt_go_chain_storage.Base.Bytes.{Bytes, bytes_beq, bytes_beq_iff}
use drt_go_chain_storage.StorageUnit.{
  Cacher, Persister, StorageUnit, put, get, remove, clear_cache, destroy_unit, close,
}
use drt_go_chain_storage.StorageUnit.Interfaces.{CacherLaws, PersisterLaws, Changed, Reported}

module _ {S R E : Type 0} (c : Cacher S) (p : Persister R E) (cl : CacherLaws c)
    (pl : PersisterLaws p) where
  -- each key that the cache holds, it holds as the persister does
  abbrev pub IsCoherent : S → R → Type 0
  IsCoherent s r = (q : Bytes) → (cl.holds q s ≡ none) ⊎ (cl.holds q s ≡ pl.stored q r)

  -- an operation of a unit, or entries that the cacher forgets between two operations, as a sweep does
  pub data Step : StorageUnit S R → StorageUnit S R → Type 0 where
    puts : (key value : Bytes) (u : StorageUnit S R) → Step u (put c p key value u).0
    gets : (key : Bytes) (u : StorageUnit S R) → Step u (get c p key u).0
    removes : (key : Bytes) (u : StorageUnit S R) → Step u (remove c p key u).0
    clears : (u : StorageUnit S R) → Step u (clear_cache c p u)
    destroys : (u : StorageUnit S R) → Step u (destroy_unit c p u).0
    closes : (u : StorageUnit S R) → Step u (close c p u).0
    forgets :
        (s : S) (u : StorageUnit S R)
        → ((q : Bytes) → (cl.holds q s ≡ none) ⊎ (cl.holds q s ≡ cl.holds q u.cacher))
        → Step u (record u { cacher = s })

  -- operations one after the other
  pub data Run : StorageUnit S R → StorageUnit S R → Type 0 where
    stays : (u : StorageUnit S R) → Run u u
    steps : {u v w : StorageUnit S R} → Run u v → Step v w → Run u w

  -- a change of the persister against a cache that has forgotten the key, or has the new content
  Changed-IsCoherent :
      (s s' : S) (r r' : R) (err : Option E) (new : Option Bytes) (key : Bytes)
      → IsCoherent s r
      → Changed err new key (λ q. pl.stored q r) (λ q. pl.stored q r')
      → ((q : Bytes)
          → bytes_beq key q ≡ false
          → (cl.holds q s' ≡ none) ⊎ (cl.holds q s' ≡ cl.holds q s))
      → ((q : Bytes)
          → bytes_beq key q ≡ true
          → (cl.holds q s' ≡ none) ⊎ ((err ≡ none) × (cl.holds q s' ≡ new)))
      → IsCoherent s' r'
  Changed-IsCoherent s s' r r' none new key v change other here q =
      elim (Bool-cases (bytes_beq key q)) [
        | inl mine ↦ elim (here q mine) [
          | inl gone ↦ inl gone
          | inr (ok, same) ↦ inr (same ∙ sym (change q ∙ rw mine refl))
        ]
        | inr not_mine ↦ elim (other q not_mine) [
          | inl gone ↦ inl gone
          | inr same ↦ elim (v q) [
            | inl gone ↦ inl (same ∙ gone)
            | inr held ↦ inr (same ∙ held ∙ sym (change q ∙ rw not_mine refl))
          ]
        ]
      ]
  Changed-IsCoherent s s' r r' (some e) new key v change other here q =
      elim (Bool-cases (bytes_beq key q)) [
        | inl mine ↦ elim (here q mine) [
          | inl gone ↦ inl gone
          | inr (failed, same) ↦ absurd (cc failed)
        ]
        | inr not_mine ↦ elim (other q not_mine) [
          | inl gone ↦ inl gone
          | inr same ↦ elim (v q) [
            | inl gone ↦ inl (same ∙ gone)
            | inr held ↦ inr (same ∙ held ∙ sym (change q not_mine))
          ]
        ]
      ]

  empty-IsCoherent : (s : S) (r : R) → IsCoherent (c.clear s) r
  empty-IsCoherent s r q = inl (cl.clear-holds q s)

  put-IsCoherent :
      (key value : Bytes) (u : StorageUnit S R)
      → IsCoherent u.cacher u.persister
      → IsCoherent (put c p key value u).0.cacher (put c p key value u).0.persister
  unfolding put
  put-IsCoherent key value u v =
      let s = (c.put key value (length value) u.cacher).0 in
      let r = (p.put key value u.persister).0 in
      let change = pl.put-stored key value u.persister in
      let held = λ (q : Bytes). cl.put-holds key value (length value) q u.cacher in
      elim (Option-cases (p.put key value u.persister).1) [
        | inl ok ↦
            rw (ok, put)
              (Changed-IsCoherent u.cacher s u.persister r none (some value) key v
                (subst
                  (λ e.
                    Changed e (some value) key (λ q. pl.stored q u.persister) (λ q. pl.stored q r))
                  ok change)
                (λ q other. elim (held q) [
                  | inl gone ↦ inl gone
                  | inr is ↦ inr (is ∙ rw other refl)
                ])
                (λ q mine. elim (held q) [
                  | inl gone ↦ inl gone
                  | inr is ↦ inr (refl, is ∙ rw mine refl)
                ]))
        | inr (e, failed) ↦
            let dropped = λ (q : Bytes). cl.remove-holds key q s in
            rw (failed, put)
              (Changed-IsCoherent u.cacher (c.remove key s) u.persister r (some e) (some value) key
                v
                (subst
                  (λ e.
                    Changed e (some value) key (λ q. pl.stored q u.persister) (λ q. pl.stored q r))
                  failed change)
                (λ q other. elim (held q) [
                  | inl gone ↦ inl (dropped q ∙ rw other gone)
                  | inr is ↦ inr (dropped q ∙ rw other (is ∙ rw other refl))
                ])
                (λ q mine. inl (dropped q ∙ rw mine refl)))
      ]

  remove-IsCoherent :
      (key : Bytes) (u : StorageUnit S R)
      → IsCoherent u.cacher u.persister
      → IsCoherent (remove c p key u).0.cacher (remove c p key u).0.persister
  unfolding remove
  remove-IsCoherent key u v =
      Changed-IsCoherent u.cacher (c.remove key u.cacher) u.persister (p.remove key u.persister).0
        (p.remove key u.persister).1 none key v (pl.remove-stored key u.persister)
        (λ q other. inr (cl.remove-holds key q u.cacher ∙ rw other refl))
        (λ q mine. inl (cl.remove-holds key q u.cacher ∙ rw mine refl))

  get-IsCoherent :
      (key : Bytes) (u : StorageUnit S R)
      → IsCoherent u.cacher u.persister
      → IsCoherent (get c p key u).0.cacher (get c p key u).0.persister
  unfolding get
  get-IsCoherent key u v =
      let s = (c.get key u.cacher).0 in
      let same : IsCoherent s u.persister = λ q. elim (v q) [
        | inl gone ↦ inl (cl.get-keeps key q u.cacher ∙ gone)
        | inr held ↦ inr (cl.get-keeps key q u.cacher ∙ held)
      ] in
      elim (Option-cases (c.get key u.cacher).1) [
        | inr (value, found) ↦ rw (found, get) same
        | inl absent ↦ go same absent (p.get key u.persister) refl
      ]
    where
      go :
          IsCoherent (c.get key u.cacher).0 u.persister
          → (c.get key u.cacher).1 ≡ none
          → (o : Bytes ⊎ E) → p.get key u.persister ≡ o
          → IsCoherent (get c p key u).0.cacher (get c p key u).0.persister
      go same absent (inr e) err = rw (absent, get) (rw (err, get) same)
      go same absent (inl value) read =
          let found : pl.stored key u.persister ≡ some value =
            subst (λ o. Reported o (pl.stored key u.persister)) read
              (pl.get-stored key u.persister) in
          rw (absent, get)
            (rw (read, get)
              (λ q. elim (cl.put-holds key value (length value) q (c.get key u.cacher).0) [
                | inl gone ↦ inl gone
                | inr is ↦ elim (Bool-cases (bytes_beq key q)) [
                  | inl mine ↦ inr (
                      is
                      ∙ rw mine (
                          sym found
                          ∙ ap (λ k. pl.stored k u.persister) ((bytes_beq_iff key q).0 mine)))
                  | inr other ↦ elim (same q) [
                    | inl gone ↦ inl (is ∙ rw other gone)
                    | inr held ↦ inr (is ∙ rw other held)
                  ]
                ]
              ]))

  Step-IsCoherent :
      {u v : StorageUnit S R}
      → Step u v
      → IsCoherent u.cacher u.persister
      → IsCoherent v.cacher v.persister
  unfolding clear_cache destroy_unit close
  Step-IsCoherent (Step.puts key value u) coherent = put-IsCoherent key value u coherent
  Step-IsCoherent (Step.gets key u) coherent = get-IsCoherent key u coherent
  Step-IsCoherent (Step.removes key u) coherent = remove-IsCoherent key u coherent
  Step-IsCoherent (Step.clears u) coherent = empty-IsCoherent u.cacher u.persister
  Step-IsCoherent (Step.destroys u) coherent = empty-IsCoherent u.cacher (p.destroy u.persister).0
  Step-IsCoherent (Step.forgets s u less) coherent = λ q. elim (less q) [
    | inl gone ↦ inl gone
    | inr same ↦ elim (coherent q) [ inl gone ↦ inl (same ∙ gone) | inr held ↦ inr (same ∙ held) ]
  ]
  Step-IsCoherent (Step.closes u) coherent = empty-IsCoherent u.cacher (p.close u.persister).0

  -- Whatever operations of a storage unit run one after the other, whichever calls of the persister
  -- fail and whatever entries the cacher forgets between them: if the cache held nothing else than
  -- the persister before, each key that it holds afterwards it holds as the persister does. The
  -- cacher is one whose Put replaces the value of a key or holds nothing under it, as the time
  -- cacher, and it and the persister do what their interfaces promise.
  pub Run-IsCoherent :
      {u v : StorageUnit S R}
      → Run u v
      → IsCoherent u.cacher u.persister
      → IsCoherent v.cacher v.persister
  Run-IsCoherent (Run.stays u) coherent = coherent
  Run-IsCoherent (Run.steps run step) coherent = Step-IsCoherent step (Run-IsCoherent run coherent)

  -- Get of a coherent unit whose persister stores a value under the key
  get-Reported :
      (key value : Bytes) (u : StorageUnit S R)
      → IsCoherent u.cacher u.persister
      → pl.stored key u.persister ≡ some value
      → ((get c p key u).1 ≡ inl value)
        ⊎ ((e : E) × (p.get key u.persister ≡ inr e) × ((get c p key u).1 ≡ inr e))
  unfolding get
  get-Reported key value u v there = elim (Option-cases (c.get key u.cacher).1) [
    | inr (x, found) ↦ elim (v key) [
      | inl gone ↦ absurd (cc (cl.get-holds key u.cacher, gone, found))
      | inr held ↦
          let same : x ≡ value = cc (cl.get-holds key u.cacher, held, found, there) in
          inl (rw (found, get) (ap inl same))
    ]
    | inl absent ↦ go absent (p.get key u.persister) refl
  ]
    where
      go :
          (c.get key u.cacher).1 ≡ none
          → (o : Bytes ⊎ E) → p.get key u.persister ≡ o
          → ((get c p key u).1 ≡ inl value)
            ⊎ ((e : E) × (p.get key u.persister ≡ inr e) × ((get c p key u).1 ≡ inr e))
      go absent (inr e) err = inr (e, err, rw (absent, get) (rw (err, get) refl))
      go absent (inl x) read =
          let found =
            subst (λ o. Reported o (pl.stored key u.persister)) read
              (pl.get-stored key u.persister) in
          let same : x ≡ value = cc (found, there) in
          inl (rw (absent, get) (rw (read, get) (ap inl same)))

  put_persister :
      (key value : Bytes) (u : StorageUnit S R)
      → ((put c p key value u).1 ≡ (p.put key value u.persister).1)
        × ((put c p key value u).0.persister ≡ (p.put key value u.persister).0)
  unfolding put
  put_persister key value u = elim (Option-cases (p.put key value u.persister).1) [
    | inl ok ↦ rw (ok, put) (refl, refl)
    | inr (e, failed) ↦ rw (failed, put) (refl, refl)
  ]

  -- After a Put that does not fail on a unit whose cache holds nothing else than the persister, Get
  -- gives the value, or else the error that the Get of the persister gives. The cacher is one whose
  -- Put replaces the value of a key or holds nothing under it, as the time cacher, and it and the
  -- persister do what their interfaces promise.
  pub get-put :
      (key value : Bytes) (u : StorageUnit S R)
      → IsCoherent u.cacher u.persister
      → (put c p key value u).1 ≡ none
      → ((get c p key (put c p key value u).0).1 ≡ inl value)
        ⊎ ((e : E) × (p.get key (put c p key value u).0.persister ≡ inr e)
            × ((get c p key (put c p key value u).0).1 ≡ inr e))
  get-put key value u v ok =
      let (err, same) = put_persister key value u in
      let u' = (put c p key value u).0 in
      let r = (p.put key value u.persister).0 in
      let change =
        subst (λ e. Changed e (some value) key (λ q. pl.stored q u.persister) (λ q. pl.stored q r))
          (sym err ∙ ok) (pl.put-stored key value u.persister) in
      let there : pl.stored key u'.persister ≡ some value =
        ap (pl.stored key) same ∙ change key ∙ rw ((bytes_beq_iff key key).1 refl) refl in
      get-Reported key value u' (put-IsCoherent key value u v) there
