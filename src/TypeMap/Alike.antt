-- ===== src/TypeMap/Alike.antt =====
-- Whichever way a TypeMapByOid fits to a result (ext/pg_type_map_by_oid.c and
-- ext/pg_type_map_by_column.c), values are cast alike.
use ruby_pg.Common.{
  if◌then◌else◌, and_then, ℕ, ◌+◌, ◌<◌, Bool-cases, Option, none, some, List, Outcome, ok, raises,
  fault, Call, then_do, then_do-eq-ok, ◌≡◌, inl, inr, refl, ◌∙◌, ap, sym, subst, arith,
}
use ruby_pg.Common.Hash.{Eql}
use ruby_pg.TypeMap.ByOid.{Format, format_of, OidMap, Columns, column_coder, build_column_map}
use ruby_pg.TypeMap.Fit.{
  Casts, ByOid, ByColumn, Fitted, itself, copied, by_column, at_most, is_binary, coder_dec_func,
  cast_by, oid_result_value, conv_value, column_result_value, build_type_map, fit_with,
  fitted_value, fit_to_result,
}
use ruby_pg.TypeMap.Cache.{Coherent}
use ruby_pg.TypeMap.Columns.{
  coder_of, expected, Formatted, column_coder-lem, build_column_map-lem, build_column_map-ok,
}

module _ {D C F V : Type 0} (casts : Casts D C F V) (columns : Columns) where
  -- How a value is to be cast: NULL is nil, the coder that the Hash of the column's format holds for
  -- its OID decodes the value, and where there is none the given type map casts it.
  unfoldable pub cast_value : (Format → List (ℕ × C)) → D → ℕ → ℕ → Outcome V
  cast_value hashes sub_typemap row field =
      if columns.isnull row field
      then ok casts.nil
      else and_then (coder_of hashes (format_of (columns.fformat field)) (columns.ftype field))
          (λ conv. cast_by casts columns conv sub_typemap row field)

  then_do-value :
      (m : Call (OidMap C) (Option C)) (f : Option C → Outcome V)
      → (then_do m (λ conv tmbo. (f conv, tmbo))).0 ≡ and_then m.0 f
  then_do-value (ok conv, tmbo) f = refl
  then_do-value (raises x, tmbo) f = refl
  then_do-value (fault, tmbo) f = refl

  oid_result_value-cast_value :
      (this : ByOid D C) (row field : ℕ)
      → Coherent this.tmbo
      → (oid_result_value casts columns row field this).0
        ≡ cast_value this.tmbo.oid_to_coder this.default_typemap row field
  unfolding oid_result_value cast_value
  oid_result_value-cast_value this row field h = elim (Bool-cases (columns.isnull row field)) [
    | inl y ↦ rw y refl
    | inr there ↦ rw there (
        then_do-value (column_coder columns field this.tmbo)
          (λ conv. cast_by casts columns conv this.default_typemap row field)
        ∙ ap (λ o. and_then o (λ conv. cast_by casts columns conv this.default_typemap row field))
            (column_coder-lem columns field this.tmbo this.tmbo (h, refl)).0)
  ]

  conv_value-cast_by :
      (conv : Option C) (default_tm : D) (row field : ℕ)
      → conv_value casts columns (some conv) default_tm row field
        ≡ cast_by casts columns conv default_tm row field
  unfolding conv_value coder_dec_func
  conv_value-cast_by none default_tm row field = refl
  conv_value-cast_by (some coder) default_tm row field = go (casts.dec_func coder) refl
    where
      direct : Option F → Outcome V
      direct o = elim o [
        | none ↦
            casts.decode (coder_dec_func casts coder (is_binary (columns.fformat field))) coder row
              field
        | some f ↦ casts.decode f coder row field
      ]

      go :
          (o : Option F)
          → casts.dec_func coder ≡ o
          → direct o ≡ cast_by casts columns (some coder) default_tm row field
      go none e = refl
      go (some f) e = ap (λ o. casts.decode (pick o) coder row field) (sym e)
        where
          pick : Option F → F
          pick o = elim o [
            | none ↦ casts.dec_in_ruby (is_binary (columns.fformat field))
            | some f ↦ f
          ]

  column_result_value-cast_value :
      (tmbo : OidMap C) (n : ℕ) (default_tm : D) {convs : List (Option C)} {s : OidMap C}
      → Coherent tmbo
      → build_column_map columns n 0 tmbo ≡ (ok convs, s)
      → (row field : ℕ) → field < n
      → column_result_value casts columns
          (record { convs = convs; default_typemap = default_tm })
          row
          field
        ≡ cast_value tmbo.oid_to_coder default_tm row field
  unfolding column_result_value cast_value
  column_result_value-cast_value tmbo n default_tm h b row field lt =
      elim (Bool-cases (columns.isnull row field)) [
        | inl y ↦ rw y refl
        | inr there ↦
            let (conv, at, e) = build_column_map-lem columns n 0 tmbo tmbo (h, refl) b field lt in
            let here : expected columns tmbo field ≡ ok conv =
              subst (λ j. expected columns tmbo j ≡ ok conv)
                (let z : 0 + field ≡ field = omega arith in z) e in
            rw there (
              ap (λ o. conv_value casts columns o default_tm row field) at
              ∙ conv_value-cast_by conv default_tm row field
              ∙ ap (λ o. and_then o (λ conv. cast_by casts columns conv default_tm row field))
                  (sym here))
      ]

  fitted_value-fit_with :
      (objects : Eql D) (this : ByOid D C) (sub_typemap : D) {fitted : Fitted D C} {s : OidMap C}
      → Coherent this.tmbo
      → fit_with casts columns objects sub_typemap this ≡ (ok fitted, s)
      → (row field : ℕ) → field < columns.nfields
      → fitted_value casts columns fitted this row field
        ≡ cast_value this.tmbo.oid_to_coder sub_typemap row field
  unfolding fit_with fitted_value build_type_map
  fitted_value-fit_with objects this sub_typemap {fitted} {s} h made row field lt =
      elim (Bool-cases (at_most columns.ntuples this.tmbo.max_rows_for_online_lookup)) [
        | inl few ↦ elim (Bool-cases (objects.eql sub_typemap this.default_typemap)) [
          | inl same ↦
              let q : itself ≡ fitted = (let z = rw (few, same) at made in cc) in
              let d : sub_typemap ≡ this.default_typemap =
                (objects.eql_iff sub_typemap this.default_typemap).0 same in
              subst
                (λ m.
                  fitted_value casts columns m this row field
                  ≡ cast_value this.tmbo.oid_to_coder sub_typemap row field)
                q
                (oid_result_value-cast_value this row field h
                  ∙ ap (λ d. cast_value this.tmbo.oid_to_coder d row field) (sym d))
          | inr other ↦
              let copy : ByOid D C = record this { default_typemap = sub_typemap } in
              let q : copied copy ≡ fitted = (let z = rw (few, other) at made in cc) in
              subst
                (λ m.
                  fitted_value casts columns m this row field
                  ≡ cast_value this.tmbo.oid_to_coder sub_typemap row field)
                q (oid_result_value-cast_value copy row field h)
        ]
        | inr many ↦ columns_case (rw many at made)
      ]
    where
      columns_case :
          then_do (build_type_map casts columns this.tmbo) (λ colmap tmbo.
            (ok (by_column (record colmap { default_typemap = sub_typemap })), tmbo))
            ≡ (ok fitted, s)
          → fitted_value casts columns fitted this row field
            ≡ cast_value this.tmbo.oid_to_coder sub_typemap row field
      columns_case built =
          let (colmap, tmbo, p, q) =
            then_do-eq-ok (build_type_map casts columns this.tmbo) _ built in
          let (convs, tmbo', b, r) =
            then_do-eq-ok (build_column_map columns columns.nfields 0 this.tmbo) _ p in
          let m : ByColumn D C = record { convs = convs; default_typemap = sub_typemap } in
          let c : record { convs = convs; default_typemap = casts.all_strings } ≡ colmap = cc in
          let is : by_column m ≡ fitted =
            ap (λ (k : ByColumn D C). by_column (record k { default_typemap = sub_typemap })) c
            ∙ (let z = q in cc) in
          subst
            (λ m.
              fitted_value casts columns m this row field
              ≡ cast_value this.tmbo.oid_to_coder sub_typemap row field)
            is
            (column_result_value-cast_value this.tmbo columns.nfields sub_typemap h b row field lt)

module _ {D C F V : Type 0} (casts : Casts D C F V) (columns : Columns) where
  fit_with-ok :
      (objects : Eql D) (this : ByOid D C) (sub_typemap : D)
      → Formatted columns columns.nfields 0
      → (fitted : Fitted D C) × (s : OidMap C) × (fit_with casts columns objects sub_typemap this
          ≡ (ok fitted, s))
  unfolding fit_with build_type_map
  fit_with-ok objects this sub_typemap known =
      elim (Bool-cases (at_most columns.ntuples this.tmbo.max_rows_for_online_lookup)) [
        | inl few ↦ (
          if objects.eql sub_typemap this.default_typemap
              then itself
              else copied (record this { default_typemap = sub_typemap }),
          this.tmbo,
          rw few refl,
        )
        | inr many ↦
            let (convs, s, run) = build_column_map-ok columns columns.nfields 0 this.tmbo known in
            (
              by_column (record { convs = convs; default_typemap = sub_typemap }),
              s,
              rw many (
                  ap
                    (λ m.
                      then_do
                        (then_do m (λ convs tmbo'. (
                          ok (record { convs = convs; default_typemap = casts.all_strings }),
                          tmbo',
                        )))
                        (λ colmap tmbo.
                          (ok (by_column (record colmap { default_typemap = sub_typemap })), tmbo)))
                    run),
            )
      ]

-- `fit_to_result` on a result of text and binary columns returns a type map, if that of the default
-- type map does and the cache agrees with the Hashes. Whichever way it takes, staying as it is,
-- copying itself or building a type map for the columns, the type map that it returns casts each
-- value alike: by the coder that the Hash holds for the OID of the column, and where there is none
-- by what the default type map's own `fit_to_result` gave.
pub fitted_value-fit_to_result :
    {D C F V : Type 0} (casts : Casts D C F V) (objects : Eql D) (columns : Columns)
    (this : ByOid D C) (sub_typemap : D)
    → Coherent this.tmbo
    → casts.fit_default this.default_typemap ≡ ok sub_typemap
    → Formatted columns columns.nfields 0
    → (row field : ℕ) → field < columns.nfields
    → (fitted : Fitted D C) × (s : OidMap C) × (fit_to_result casts objects (ok columns) this
        ≡ (ok fitted, s))
      × (fitted_value casts columns fitted this row field
          ≡ cast_value casts columns this.tmbo.oid_to_coder sub_typemap row field)
unfolding fit_to_result
fitted_value-fit_to_result casts objects columns this sub_typemap h sub known row field lt =
    let (fitted, s, made) = fit_with-ok casts columns objects this sub_typemap known in
    (
      fitted,
      s,
      rw sub made,
      fitted_value-fit_with casts columns objects this sub_typemap h made row field lt,
    )
