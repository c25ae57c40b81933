-- ===== src/TypeMap/ByOid.antt =====
-- PG::TypeMapByOid of ext/pg_type_map_by_oid.c: for each format a Hash from OIDs to coders, and a
-- cache of 256 entries before it. An entry is written by each lookup.
use ruby_pg.Common.{
  ℕ, zero, suc, ◌+◌, ◌%◌, Bool, true, false, not, ◌&&◌, ◌||◌, ◌==◌, ==_iff, if◌then◌else◌, Option,
  none, some, List, [], ◌∷◌, ◌++◌, map, ok, raises, RubyError, Call, then_do, given, ℤ, pos, negsuc,
  num2int,
}
use ruby_pg.Common.Hash.{Eql, aref, aset}

-- Text has format code 0 and binary 1.
pub data Format : Type 0 where
  text binary : Format

abbrev pub format_of : ℤ → Option Format
format_of (pos zero) = some Format.text
format_of (pos (suc zero)) = some Format.binary
format_of (pos (suc (suc n))) = none
format_of (negsuc n) = none

abbrev pub format_eq : Format → Format → Bool
format_eq Format.text Format.text = true
format_eq Format.binary Format.binary = true
format_eq Format.text Format.binary = false
format_eq Format.binary Format.text = false

abbrev pub oids : Eql ℕ
oids = record { eql = ◌==◌; eql_iff = ==_iff }

abbrev pub is_some : {A : Type 0} → Option A → Bool
is_some none = false
is_some (some a) = true

module _ {C : Type 0} where
  -- `rb_hash_delete`, the Hash that it leaves.
  abbrev pub delete : ℕ → List (ℕ × C) → List (ℕ × C)
  delete k [] = []
  delete k ((j, c) ∷ h) = if j == k then delete k h else (j, c) ∷ delete k h

-- What an entry of the cache holds: an OID and a coder, or NULL.
abbrev pub Entry : Type 0 → Type 0
Entry C = ℕ × Option C

-- `t_tmbo`, its Hashes and caches by format.
pub record OidMap (C : Type 0) : Type 0 where
  pub oid_to_coder : Format → List (ℕ × C)
  pub cache_row : Format → ℕ → Entry C
  pub max_rows_for_online_lookup : ℤ
  pub frozen : Bool

-- `t_pg_coder`, as far as it is looked at here.
pub record Coder (C : Type 0) : Type 0 where
  pub oid : C → ℕ
  pub format : C → ℤ

module _ {C : Type 0} where
  -- Has the entry the expected OID and is it a non empty entry?
  abbrev pub is_hit : Entry C → ℕ → Bool
  is_hit ce oid = ce.0 == oid && (not (oid == 0) || is_some ce.1)

  -- A store to the entry that `CACHE_LOOKUP` finds.
  abbrev pub put_entry : Format → ℕ → Entry C → (Format → ℕ → Entry C) → Format → ℕ → Entry C
  put_entry f oid ce cache g row = if format_eq g f && row == oid % 256 then ce else cache g row

  -- `pg_tmbo_lookup_oid`
  unfoldable pub lookup_oid : Format → ℕ → OidMap C → Option C × OidMap C
  lookup_oid f oid this =
      let ce = this.cache_row f (oid % 256) in
      let conv = aref oids oid (this.oid_to_coder f) in
      if is_hit ce oid
      then (ce.1, this)
      else (conv, record this { cache_row = put_entry f oid (oid, conv) this.cache_row })

  -- A Hash of one format is changed.
  abbrev pub put_hash : Format → List (ℕ × C) → (Format → List (ℕ × C)) → Format → List (ℕ × C)
  put_hash f h hashes g = if format_eq g f then h else hashes g

  -- The part of `pg_tmbo_add_coder` behind its checks.
  unfoldable pub enter : Format → ℕ → C → OidMap C → OidMap C
  enter f oid coder this = record this {
    cache_row = put_entry f oid (oid, some coder) this.cache_row;
    oid_to_coder = put_hash f (aset oids oid coder (this.oid_to_coder f)) this.oid_to_coder;
  }

  -- The part of `pg_tmbo_rm_coder` behind its checks.
  unfoldable pub remove : Format → ℕ → OidMap C → OidMap C
  remove f oid this = record this {
    cache_row = put_entry f oid (0, none) this.cache_row;
    oid_to_coder = put_hash f (delete oid (this.oid_to_coder f)) this.oid_to_coder;
  }

  unfoldable pub add_to : Option Format → ℕ → C → OidMap C → Call (OidMap C) (Unit {0})
  add_to none oid coder this = (raises RubyError.arg_error, this)
  add_to (some f) oid coder this = (ok tt, enter f oid coder this)

  -- `pg_tmbo_add_coder`
  unfoldable pub add_coder : Coder C → C → OidMap C → Call (OidMap C) (Unit {0})
  unfolding add_to enter
  add_coder props coder this =
      if this.frozen
      then (raises RubyError.frozen_error, this)
      else add_to (format_of (props.format coder)) (props.oid coder) coder this

  unfoldable pub rm_from : Option Format → ℕ → OidMap C → Call (OidMap C) (Option C)
  rm_from none oid this = (raises RubyError.arg_error, this)
  rm_from (some f) oid this = (ok (aref oids oid (this.oid_to_coder f)), remove f oid this)

  -- `pg_tmbo_rm_coder`, for an OID that is an Integer from 0 to 2^32 - 1.
  unfoldable pub rm_coder : ℤ → ℕ → OidMap C → Call (OidMap C) (Option C)
  unfolding rm_from remove
  rm_coder format oid this = given (num2int format) this (λ i.
      if this.frozen then (raises RubyError.frozen_error, this) else rm_from (format_of i) oid this)

  -- `pg_tmbo_coders`
  abbrev pub coders : OidMap C → List C
  coders this =
      map (λ p. p.1) (this.oid_to_coder Format.text)
      ++ map (λ p. p.1) (this.oid_to_coder Format.binary)

  -- `pg_tmbo_max_rows_for_online_lookup_set`
  unfoldable pub max_rows_set : ℤ → OidMap C → Call (OidMap C) (Unit {0})
  max_rows_set value this =
      if this.frozen
      then (raises RubyError.frozen_error, this)
      else given (num2int value) this (λ n. (ok tt, record this { max_rows_for_online_lookup = n }))

module _ {C : Type 0} where
  -- A format that is neither text nor binary is refused.
  unfoldable pub coder_in : Option Format → ℕ → OidMap C → Call (OidMap C) (Option C)
  coder_in none oid this = (raises RubyError.arg_error, this)
  coder_in (some f) oid this = let r = lookup_oid f oid this in (ok r.0, r.1)

-- A libpq result: `PQntuples`, `PQnfields`, `PQfformat`, `PQftype` and `PQgetisnull`.
pub record Columns : Type 0 where
  pub ntuples : ℕ
  pub nfields : ℕ
  pub fformat : ℕ → ℤ
  pub ftype : ℕ → ℕ
  pub isnull : ℕ → ℕ → Bool

module _ {C : Type 0} (columns : Columns) where
  -- The coder of a column.
  unfoldable pub column_coder : ℕ → OidMap C → Call (OidMap C) (Option C)
  unfolding coder_in
  column_coder field this = coder_in (format_of (columns.fformat field)) (columns.ftype field) this

  -- The loop of `pg_tmbo_build_type_map_for_result2`.
  unfoldable pub build_column_map : ℕ → ℕ → OidMap C → Call (OidMap C) (List (Option C))
  build_column_map zero i this = (ok [], this)
  build_column_map (suc left) i this = then_do (column_coder i this) (λ conv this'.
      then_do (build_column_map left (i + 1) this') (λ convs this''. (ok (conv ∷ convs), this'')))
