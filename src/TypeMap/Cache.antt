-- ===== src/TypeMap/Cache.antt =====
-- The cache of a TypeMapByOid (ext/pg_type_map_by_oid.c) gives what its Hashes hold, as long as one
-- object writes both.
use ruby_pg.Common.{
  ℕ, ◌%◌, true, false, ◌==◌, Bool-cases, if◌then◌else◌, if_intro, Option, none, some, List, [], ◌∷◌,
  Call, given_state, ℤ, num2int, ◌≡◌, ◌≢◌, inl, inr, refl, ◌∙◌, ap, subst, arith,
}
use ruby_pg.Common.Hash.{aref, aset}
use ruby_pg.TypeMap.ByOid.{
  Format, format_of, oids, delete, Entry, OidMap, Coder, is_hit, put_entry, lookup_oid, put_hash,
  enter, remove, add_to, add_coder, rm_from, rm_coder,
}

module _ {C : Type 0} where
  aref-aset :
      (j k : ℕ) (c : C) (h : List (ℕ × C))
      → aref oids j (aset oids k c h) ≡ (if k == j then some c else aref oids j h)
  aref-aset j k c [] = refl
  aref-aset j k c ((i, d) ∷ h) = ground (arith, aref-aset j k c h)

  pub aref-delete :
      (j k : ℕ) (h : List (ℕ × C))
      → aref oids j (delete k h) ≡ (if k == j then none else aref oids j h)
  aref-delete j k [] = ground arith
  aref-delete j k ((i, d) ∷ h) = ground (arith, aref-delete j k h)

  -- An entry that a lookup would take holds what the Hash holds.
  abbrev Right : List (ℕ × C) → Entry C → ℕ → Type 0
  Right h ce oid = is_hit ce oid ≡ true → ce.1 ≡ aref oids oid h

  abbrev pub Coherent : OidMap C → Type 0
  Coherent this =
      (f : Format) (oid : ℕ) → Right (this.oid_to_coder f) (this.cache_row f (oid % 256)) oid

  pub lookup_oid-aref :
      (this : OidMap C)
      → Coherent this
      → (f : Format) (oid : ℕ) → (lookup_oid f oid this).0 ≡ aref oids oid (this.oid_to_coder f)
  unfolding lookup_oid
  lookup_oid-aref this h f oid =
      if_intro (λ (r : Option C × OidMap C). r.0 ≡ aref oids oid (this.oid_to_coder f))
        (is_hit (this.cache_row f (oid % 256)) oid) (λ hit. h f oid hit) (λ miss. refl)

  Right-looked_up : (h : List (ℕ × C)) (oid j : ℕ) → Right h (oid, aref oids oid h) j
  Right-looked_up h oid j hit = elim (Bool-cases (oid == j)) [
    | inl y ↦ let q : oid ≡ j = ground arith in ap (λ k. aref oids k h) q
    | inr n ↦ ground arith
  ]

  -- A Hash changes at one OID, and the entry of that OID is written.
  changed :
      (this : OidMap C) (f : Format) (oid : ℕ) (h : List (ℕ × C)) (ce : Entry C)
      → Coherent this
      → ((j : ℕ) → Right h ce j)
      → ((j : ℕ) → oid ≢ j → aref oids j (this.oid_to_coder f) ≡ aref oids j h)
      → (g : Format) (j : ℕ)
      → Right (put_hash f h this.oid_to_coder g) (put_entry f oid ce this.cache_row g (j % 256)) j
  changed this Format.text oid h ce co right same Format.text j =
      if_intro (λ e. Right h e j) (j % 256 == oid % 256) (λ _. right j)
        (λ n hit. co Format.text j hit ∙ same j (λ q. rows q n))
    where
      rows : oid ≡ j → (j % 256 == oid % 256) ≡ false → ⊥
      rows q n = ground arith
  changed this Format.binary oid h ce co right same Format.binary j =
      if_intro (λ e. Right h e j) (j % 256 == oid % 256) (λ _. right j)
        (λ n hit. co Format.binary j hit ∙ same j (λ q. rows q n))
    where
      rows : oid ≡ j → (j % 256 == oid % 256) ≡ false → ⊥
      rows q n = ground arith
  changed this Format.text oid h ce co right same Format.binary j = co Format.binary j
  changed this Format.binary oid h ce co right same Format.text j = co Format.text j

  put_hash_self :
      (f g : Format) (hashes : Format → List (ℕ × C)) → put_hash f (hashes f) hashes g ≡ hashes g
  put_hash_self Format.text Format.text hashes = refl
  put_hash_self Format.binary Format.binary hashes = refl
  put_hash_self Format.text Format.binary hashes = refl
  put_hash_self Format.binary Format.text hashes = refl

  pub Coherent-lookup_oid :
      (this : OidMap C) (f : Format) (oid : ℕ) → Coherent this → Coherent (lookup_oid f oid this).1
  unfolding lookup_oid
  Coherent-lookup_oid this f oid h =
      if_intro (λ (r : Option C × OidMap C). Coherent r.1)
        (is_hit (this.cache_row f (oid % 256)) oid) (λ hit. h)
        (λ miss g j.
          subst
            (λ l.
              Right l
                (put_entry f oid (oid, aref oids oid (this.oid_to_coder f)) this.cache_row g
                  (j % 256))
                j)
            (put_hash_self f g this.oid_to_coder)
            (changed this f oid (this.oid_to_coder f) (oid, aref oids oid (this.oid_to_coder f)) h
              (Right-looked_up (this.oid_to_coder f) oid) (λ j n. refl) g j))

  Coherent-enter :
      (this : OidMap C) (f : Format) (oid : ℕ) (c : C)
      → Coherent this
      → Coherent (enter f oid c this)
  unfolding enter
  Coherent-enter this f oid c h =
      changed this f oid (aset oids oid c (this.oid_to_coder f)) (oid, some c) h
        (λ j hit. ground (arith, aref-aset j oid c (this.oid_to_coder f)))
        (λ j n. ground (arith, aref-aset j oid c (this.oid_to_coder f)))

  Coherent-remove :
      (this : OidMap C) (f : Format) (oid : ℕ) → Coherent this → Coherent (remove f oid this)
  unfolding remove
  Coherent-remove this f oid h =
      changed this f oid (delete oid (this.oid_to_coder f)) (0, none) h (λ j hit. ground arith)
        (λ j n. ground (arith, aref-delete j oid (this.oid_to_coder f)))

-- The calls on a type map.
pub data Request (C : Type 0) : Type 0 where
  look : Format → ℕ → Request C
  add : C → Request C
  rm : ℤ → ℕ → Request C

module _ {C : Type 0} (props : Coder C) where
  -- The type map after a call, and after calls in a row; those that raise are rescued.
  unfoldable pub after_one : Request C → OidMap C → OidMap C
  after_one (look f oid) this = (lookup_oid f oid this).1
  after_one (add c) this = (add_coder props c this).1
  after_one (rm format oid) this = (rm_coder format oid this).1

  unfoldable pub after : List (Request C) → OidMap C → OidMap C
  unfolding after_one
  after [] this = this
  after (r ∷ rs) this = after rs (after_one r this)

  Coherent-after_one :
      (r : Request C) (this : OidMap C) → Coherent this → Coherent (after_one r this)
  unfolding after_one add_coder rm_coder
  Coherent-after_one (look f oid) this h = Coherent-lookup_oid this f oid h
  Coherent-after_one (add c) this h =
      if_intro (λ (r : Call (OidMap C) (Unit {0})). Coherent r.1) this.frozen (λ _. h)
        (λ _. go (format_of (props.format c)))
    where
      go : (f : Option Format) → Coherent (add_to f (props.oid c) c this).1
      go none = h
      go (some f) = Coherent-enter this f (props.oid c) c h
  Coherent-after_one (rm format oid) this h = given_state Coherent (num2int format) this _ h (λ i.
      if_intro (λ (r : Call (OidMap C) (Option C)). Coherent r.1) this.frozen (λ _. h)
        (λ _. go (format_of i)))
    where
      go : (f : Option Format) → Coherent (rm_from f oid this).1
      go none = h
      go (some f) = Coherent-remove this f oid h

  Coherent-after :
      (rs : List (Request C)) (this : OidMap C) → Coherent this → Coherent (after rs this)
  unfolding after
  Coherent-after [] this h = h
  Coherent-after (r ∷ rs) this h =
      Coherent-after rs (after_one r this) (Coherent-after_one r this h)

  -- After any lookups, additions and removals on a type map whose cache agrees with its Hashes, as
  -- that of a new type map does, a lookup gives what the Hash of the format holds for the OID, for
  -- an OID of 0 too.
  pub lookup_oid-after :
      (rs : List (Request C)) (this : OidMap C)
      → Coherent this
      → (f : Format) (oid : ℕ)
      → (lookup_oid f oid (after rs this)).0 ≡ aref oids oid ((after rs this).oid_to_coder f)
  lookup_oid-after rs this h f oid =
      lookup_oid-aref (after rs this) (Coherent-after rs this h) f oid
