-- ===== src/TypeMap/Copies.antt =====
-- A copy of a TypeMapByOid that shares the Hashes of the original (`pg_tmbo_fit_to_result` of
-- ext/pg_type_map_by_oid.c).
use ruby_pg.Common.{
  ℕ, ◌%◌, true, false, ◌==◌, if_intro, Option, none, some, List, ◌≡◌, refl, ◌∙◌, ap, arith,
}
use ruby_pg.Common.Hash.{aref}
use ruby_pg.TypeMap.ByOid.{
  Format, oids, delete, Entry, OidMap, is_hit, put_entry, lookup_oid, put_hash, remove,
}
use ruby_pg.TypeMap.Cache.{Coherent, aref-delete}

module _ {C : Type 0} where
  -- `fit_to_result` copies the struct where the default type map built a new object: the copy has
  -- the Hashes of the original and a cache of its own.
  abbrev pub sees_hashes : OidMap C → OidMap C → OidMap C
  sees_hashes original copy = record copy { oid_to_coder = original.oid_to_coder }

  lookup_oid-hit :
      (this : OidMap C) (f : Format) (oid : ℕ) (c : C)
      → (this.cache_row f (oid % 256)).0 ≡ oid
      → (this.cache_row f (oid % 256)).1 ≡ some c
      → (lookup_oid f oid this).0 ≡ some c
  unfolding lookup_oid
  lookup_oid-hit this f oid c p q =
      if_intro (λ (r : Option C × OidMap C). r.0 ≡ some c)
        (is_hit (this.cache_row f (oid % 256)) oid) (λ _. q)
        (λ miss. absurd (present (this.cache_row f (oid % 256)) p q miss))
    where
      present : (ce : Entry C) → ce.0 ≡ oid → ce.1 ≡ some c → is_hit ce oid ≡ false → ⊥
      present (o, none) p q miss = cc
      present (o, some d) p q miss = ground arith

  lookup_oid-filled :
      (this : OidMap C) (f : Format) (oid : ℕ) (c : C)
      → Coherent this
      → aref oids oid (this.oid_to_coder f) ≡ some c
      → (((lookup_oid f oid this).1.cache_row f (oid % 256)).0 ≡ oid)
        × (((lookup_oid f oid this).1.cache_row f (oid % 256)).1 ≡ some c)
  unfolding lookup_oid
  lookup_oid-filled this f oid c h a =
      if_intro
        (λ (r : Option C × OidMap C).
          ((r.1.cache_row f (oid % 256)).0 ≡ oid) × ((r.1.cache_row f (oid % 256)).1 ≡ some c))
        (is_hit (this.cache_row f (oid % 256)) oid)
        (λ hit. (same (this.cache_row f (oid % 256)) hit, h f oid hit ∙ a)) (λ miss. there f)
    where
      same : (ce : Entry C) → is_hit ce oid ≡ true → ce.0 ≡ oid
      same ce hit = ground arith

      self : (oid % 256 == oid % 256) ≡ true
      self = ground arith

      there :
          (g : Format)
          → ((put_entry g oid
                (oid, aref oids oid (this.oid_to_coder f))
                this.cache_row
                g
                (oid % 256)).0
              ≡ oid)
            × ((put_entry g oid
                  (oid, aref oids oid (this.oid_to_coder f))
                  this.cache_row
                  g
                  (oid % 256)).1
                ≡ some c)
      there Format.text = rw self (refl, a)
      there Format.binary = rw self (refl, a)

  put_hash_at :
      (f : Format) (h : List (ℕ × C)) (hashes : Format → List (ℕ × C)) → put_hash f h hashes f ≡ h
  put_hash_at Format.text h hashes = refl
  put_hash_at Format.binary h hashes = refl

  -- A copy that has looked an OID up gives the coder also when the original has removed it, and
  -- neither Hash has it any more.
  pub lookup_oid_stale :
      (this : OidMap C) (f : Format) (oid : ℕ) (c : C)
      → Coherent this
      → aref oids oid (this.oid_to_coder f) ≡ some c
      → ((lookup_oid f oid (sees_hashes (remove f oid this) (lookup_oid f oid this).1)).0 ≡ some c)
        × (aref oids oid ((remove f oid this).oid_to_coder f) ≡ none)
  unfolding remove
  lookup_oid_stale this f oid c h a =
      let (p, q) = lookup_oid-filled this f oid c h a in
      (
        lookup_oid-hit (sees_hashes (remove f oid this) (lookup_oid f oid this).1) f oid c p q,
        ap (aref oids oid) (put_hash_at f (delete oid (this.oid_to_coder f)) this.oid_to_coder)
            ∙ (ground (arith, aref-delete oid oid (this.oid_to_coder f))),
      )
