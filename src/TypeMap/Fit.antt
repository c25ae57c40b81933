-- ===== src/TypeMap/Fit.antt =====
-- How a PG::TypeMapByOid fits to a result (`pg_tmbo_fit_to_result` of ext/pg_type_map_by_oid.c):
-- it stays as it is, is copied, or gives a type map for the columns, which casts by
-- ext/pg_type_map_by_column.c. D is the type of the default type maps, C that of coders and F that
-- of decoder functions.
use ruby_pg.Common.{
  ℕ, zero, suc, Bool, true, false, leb, if◌then◌else◌, Option, none, some, List, get_elem?, Outcome,
  ok, fault, Call, then_do, given, ℤ, pos, negsuc,
}
use ruby_pg.Common.Hash.{Eql}
use ruby_pg.TypeMap.ByOid.{OidMap, Columns, column_coder, build_column_map}

-- What the coders and the default type maps do: `conv->dec_func`, which may be NULL, the decoder
-- that calls a coder in Ruby, for binary or text, a call of a decoder for a value, and the two
-- methods of a default type map. `all_strings` is `pg_typemap_all_strings`.
pub record Casts (D C F V : Type 0) : Type 0 where
  pub dec_func : C → Option F
  pub dec_in_ruby : Bool → F
  pub decode : F → C → ℕ → ℕ → Outcome V
  pub typecast_result_value : D → ℕ → ℕ → Outcome V
  pub fit_default : D → Outcome D
  pub all_strings : D
  pub nil : V

-- A PG::TypeMapByOid with the default type map of its `t_typemap`.
pub record ByOid (D C : Type 0) : Type 0 where
  pub tmbo : OidMap C
  pub default_typemap : D

-- `t_tmbc`, the type map for columns.
pub record ByColumn (D C : Type 0) : Type 0 where
  pub convs : List (Option C)
  pub default_typemap : D

-- What `fit_to_result` returns: self, a copy, or a type map for columns.
pub data Fitted (D C : Type 0) : Type 0 where
  itself : Fitted D C
  copied : ByOid D C → Fitted D C
  by_column : ByColumn D C → Fitted D C

abbrev pub is_binary : ℤ → Bool
is_binary (pos zero) = false
is_binary (pos (suc n)) = true
is_binary (negsuc n) = true

-- `PQntuples( pgresult ) <= this->max_rows_for_online_lookup`
abbrev pub at_most : ℕ → ℤ → Bool
at_most n (pos m) = leb n m
at_most n (negsuc m) = false

module _ {D C F V : Type 0} (casts : Casts D C F V) where
  -- `pg_coder_dec_func`, of a coder.
  unfoldable pub coder_dec_func : C → Bool → F
  coder_dec_func coder binary = elim (casts.dec_func coder) [
    | none ↦ casts.dec_in_ruby binary
    | some f ↦ f
  ]

  module _ (columns : Columns) where
    -- The end of `pg_tmbo_result_value`, behind the lookup.
    abbrev pub cast_by : Option C → D → ℕ → ℕ → Outcome V
    cast_by none default_tm row field = casts.typecast_result_value default_tm row field
    cast_by (some coder) default_tm row field =
        casts.decode (coder_dec_func coder (is_binary (columns.fformat field))) coder row field

    -- `pg_tmbo_result_value`
    unfoldable pub oid_result_value : ℕ → ℕ → ByOid D C → Call (OidMap C) V
    oid_result_value row field this =
        if columns.isnull row field
        then (ok casts.nil, this.tmbo)
        else then_do (column_coder columns field this.tmbo)
            (λ conv tmbo. (cast_by conv this.default_typemap row field, tmbo))

    -- The end of `pg_tmbc_result_value`, with the decoder of the coder or else that of
    -- `pg_coder_dec_func`.
    unfoldable pub conv_value : Option (Option C) → D → ℕ → ℕ → Outcome V
    conv_value none default_tm row field = fault
    conv_value (some none) default_tm row field = casts.typecast_result_value default_tm row field
    conv_value (some (some coder)) default_tm row field = elim (casts.dec_func coder) [
      | none ↦
          casts.decode (coder_dec_func coder (is_binary (columns.fformat field))) coder row field
      | some f ↦ casts.decode f coder row field
    ]

    -- `pg_tmbc_result_value`
    unfoldable pub column_result_value : ByColumn D C → ℕ → ℕ → Outcome V
    column_result_value this row field =
        if columns.isnull row field
        then ok casts.nil
        else conv_value (get_elem? this.convs field) this.default_typemap row field

    -- `pg_tmbo_build_type_map_for_result2`
    unfoldable pub build_type_map : OidMap C → Call (OidMap C) (ByColumn D C)
    build_type_map tmbo =
        then_do (build_column_map columns columns.nfields 0 tmbo) (λ convs tmbo'.
          (ok (record { convs = convs; default_typemap = casts.all_strings }), tmbo'))

    module _ (objects : Eql D) where
      -- The part of `pg_tmbo_fit_to_result` behind the default type map's `fit_to_result`.
      unfoldable pub fit_with : D → ByOid D C → Call (OidMap C) (Fitted D C)
      fit_with sub_typemap this =
          if at_most columns.ntuples this.tmbo.max_rows_for_online_lookup
          then (
            ok (
                if objects.eql sub_typemap this.default_typemap
                then itself
                else copied (record this { default_typemap = sub_typemap })),
            this.tmbo,
          )
          else then_do (build_type_map this.tmbo) (λ colmap tmbo.
            (ok (by_column (record colmap { default_typemap = sub_typemap })), tmbo))

    -- The type map that was fitted casts a value, `this` being the original.
    unfoldable pub fitted_value : Fitted D C → ByOid D C → ℕ → ℕ → Outcome V
    fitted_value itself this row field = (oid_result_value row field this).0
    fitted_value (copied copy) this row field = (oid_result_value row field copy).0
    fitted_value (by_column colmap) this row field = column_result_value colmap row field

  -- `pg_tmbo_fit_to_result`, on what `pgresult_get` gives.
  unfoldable pub fit_to_result : Eql D → Outcome Columns → ByOid D C → Call (OidMap C) (Fitted D C)
  unfolding fit_with
  fit_to_result objects pgresult this = given pgresult this.tmbo (λ columns.
      given (casts.fit_default this.default_typemap) this.tmbo
        (λ sub_typemap. fit_with columns objects sub_typemap this))
