-- ===== src/TypeMap/Columns.antt =====
-- The converters of the columns that `pg_tmbo_build_type_map_for_result2` of
-- ext/pg_type_map_by_oid.c finds, against the Hashes.
use ruby_pg.Common.{
  [], ◌≤◌, ℕ, zero, suc, ◌+◌, ◌<◌, if_intro, Option, none, some, List, ◌∷◌, get_elem?, Outcome, ok,
  raises, RubyError, Call, then_do, then_do-eq-ok, ◌≡◌, refl, ◌∙◌, ap, sym, subst, arith,
}
use ruby_pg.Common.Hash.{aref}
use ruby_pg.TypeMap.ByOid.{
  Format, format_of, oids, OidMap, lookup_oid, Columns, coder_in, column_coder, build_column_map,
}
use ruby_pg.TypeMap.Cache.{Coherent, lookup_oid-aref, Coherent-lookup_oid}

module _ {C : Type 0} where
  lookup_oid-hashes :
      (f : Format) (oid : ℕ) (this : OidMap C)
      → (lookup_oid f oid this).1.oid_to_coder ≡ this.oid_to_coder
  unfolding lookup_oid
  lookup_oid-hashes f oid this =
      if_intro (λ (r : Option C × OidMap C). r.1.oid_to_coder ≡ this.oid_to_coder) _ (λ _. refl)
        (λ _. refl)

  -- What the Hashes hold for a column.
  abbrev pub coder_of : (Format → List (ℕ × C)) → Option Format → ℕ → Outcome (Option C)
  coder_of hashes none oid = raises RubyError.arg_error
  coder_of hashes (some f) oid = ok (aref oids oid (hashes f))

  -- The same Hashes, and a cache that agrees with them.
  abbrev pub Follows : OidMap C → OidMap C → Type 0
  Follows this s = Coherent s × (s.oid_to_coder ≡ this.oid_to_coder)

  coder_in-lem :
      (f : Option Format) (oid : ℕ) (this s : OidMap C)
      → Follows this s
      → ((coder_in f oid s).0 ≡ coder_of this.oid_to_coder f oid)
        × Follows this (coder_in f oid s).1
  unfolding coder_in
  coder_in-lem none oid this s h = (refl, h)
  coder_in-lem (some f) oid this s (co, same) = (
    ap ok (
        lookup_oid-aref s co f oid
        ∙ ap (λ (hs : Format → List (ℕ × C)). aref oids oid (hs f)) same),
    (Coherent-lookup_oid s f oid co, lookup_oid-hashes f oid s ∙ same),
  )

module _ {C : Type 0} (columns : Columns) where
  abbrev pub expected : OidMap C → ℕ → Outcome (Option C)
  expected this field =
      coder_of this.oid_to_coder (format_of (columns.fformat field)) (columns.ftype field)

  pub column_coder-lem :
      (field : ℕ) (this s : OidMap C)
      → Follows this s
      → ((column_coder columns field s).0 ≡ expected this field)
        × Follows this (column_coder columns field s).1
  unfolding column_coder
  column_coder-lem field this s h =
      coder_in-lem (format_of (columns.fformat field)) (columns.ftype field) this s h

  pub build_column_map-lem :
      (n i : ℕ) (this s : OidMap C) {convs : List (Option C)} {s' : OidMap C}
      → Follows this s
      → build_column_map columns n i s ≡ (ok convs, s')
      → (k : ℕ) → k < n
      → (conv : Option C) × (get_elem? convs k ≡ some conv) × (expected this (i + k) ≡ ok conv)
  unfolding build_column_map
  build_column_map-lem zero i this s h b k lt = absurd (omega arith)
  build_column_map-lem (suc n) i this s {convs} h b k lt =
      let (conv, s1, p, q) = then_do-eq-ok (column_coder columns i s) _ b in
      let (rest, s2, r, t) = then_do-eq-ok (build_column_map columns n (i + 1) s1) _ q in
      let (value, follows) = column_coder-lem i this s h in
      let here : expected this i ≡ ok conv =
        sym value ∙ ap (λ (m : Call (OidMap C) (Option C)). m.0) p in
      let follows1 : Follows this s1 =
        subst (λ (m : Call (OidMap C) (Option C)). Follows this m.1) p follows in
      let whole : conv ∷ rest ≡ convs = cc in
      subst (λ l. (c : Option C) × (get_elem? l k ≡ some c) × (expected this (i + k) ≡ ok c)) whole
        (at k lt conv rest here (build_column_map-lem n (i + 1) this s1 follows1 r))
    where
      at :
          (k : ℕ)
          → k < suc n
          → (conv : Option C) (rest : List (Option C)) → expected this i ≡ ok conv
          → ((k : ℕ)
              → k < n
              → (c : Option C) × (get_elem? rest k ≡ some c) × (expected this (i + 1 + k) ≡ ok c))
          → (c : Option C) × (get_elem? (conv ∷ rest) k ≡ some c) × (expected this (i + k) ≡ ok c)
      at zero lt conv rest here ih = (
        conv,
        refl,
        subst (λ j. expected this j ≡ ok conv) (let z : i ≡ i + 0 = omega arith in z) here,
      )
      at (suc k) lt conv rest here ih =
          let (c, a, e) = ih k (omega arith) in
          (
            c,
            a,
            subst (λ j. expected this j ≡ ok c) (let z : i + 1 + k ≡ i + suc k = omega arith in z)
                e,
          )

-- The columns from i to below i + n are text or binary.
abbrev pub Formatted : Columns → ℕ → ℕ → Type 0
Formatted columns n i =
    (k : ℕ) → i ≤ k → k < i + n → (f : Format) × (format_of (columns.fformat k) ≡ some f)

module _ {C : Type 0} (columns : Columns) where
  pub build_column_map-ok :
      (n i : ℕ) (tmbo : OidMap C)
      → Formatted columns n i
      → (convs : List (Option C)) × (s : OidMap C) × (build_column_map columns n i tmbo
          ≡ (ok convs, s))
  unfolding build_column_map column_coder coder_in
  build_column_map-ok zero i tmbo known = ([], tmbo, refl)
  build_column_map-ok (suc n) i tmbo known =
      let (f, is) = known i (omega arith) (omega arith) in
      let r = lookup_oid f (columns.ftype i) tmbo in
      let (convs, s, run) =
        build_column_map-ok n (i + 1) r.1 (λ k lo hi. known k (omega arith) (omega arith)) in
      (r.0 ∷ convs, s, rw is (ap (λ m. then_do m (λ convs this''. (ok (r.0 ∷ convs), this''))) run))
