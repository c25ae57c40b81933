-- ===== src/Result/Rows.antt =====
-- Reading the rows of a result: `pgresult_getvalue`, `pgresult_values`, `pgresult_tuple_values`,
-- `pgresult_column_values`, `pgresult_field_values` and `pgresult_aref` of ext/pg_result.c.
use ruby_pg.Common.{
  ℕ, ◌+◌, Bool, false, Option, none, some, List, [], ◌∷◌, Bytes, leb, if◌then◌else◌, Outcome, ok,
  raises, RubyError, and_then, Call, then_do, given, ℤ, pos, negsuc, num2int, below?, gather,
}
use ruby_pg.Common.Hash.{aset}
use ruby_pg.Result.{Typecast, Libpq, FieldName, field_names_eql, Result, pgresult_get, init_fnames}

-- `col >= n`
abbrev pub at_or_above : ℤ → ℕ → Bool
at_or_above (pos i) n = leb n i
at_or_above (negsuc k) n = false

module _ {P M V : Type 0} (typecast : Typecast P M V) (this : Result P M) where
  -- `p_typemap->funcs.typecast_result_value(p_typemap, self, row, col)`
  abbrev pub cell : ℤ → ℤ → Outcome V
  cell = typecast this.typemap this

  -- The loop that populates a row.
  unfoldable pub row_values : ℕ → ℕ → Outcome (List V)
  row_values num_fields row = gather (λ field. cell (pos row) (pos field)) num_fields 0

  -- The loop of `pgresult_aref` over the names, with the Hash so far.
  unfoldable pub fill_hash :
      ℕ → List FieldName → ℕ → List (FieldName × V) → Outcome (List (FieldName × V))
  fill_hash row [] field tuple = ok tuple
  fill_hash row (name ∷ names) field tuple =
      and_then (cell (pos row) (pos field))
        (λ v. fill_hash row names (field + 1) (aset field_names_eql name v tuple))

module _ {P M V : Type 0} (pq : Libpq P) (typecast : Typecast P M V) (this : Result P M) where
  -- `pgresult_values`
  unfoldable pub values : Outcome (List (List V))
  values =
      and_then (pgresult_get this)
        (λ p. gather (row_values typecast this (pq.nfields p)) (pq.ntuples p) 0)

  -- `pgresult_tuple_values`
  unfoldable pub tuple_values : ℤ → Outcome (List V)
  tuple_values index = and_then (num2int index) (λ i. and_then (pgresult_get this) (λ p.
      elim (below? (pq.ntuples p) i) [
        | none ↦ raises RubyError.index_error
        | some row ↦ row_values typecast this (pq.nfields p) row
      ]))

  -- `pgresult_getvalue`
  unfoldable pub getvalue : ℤ → ℤ → Outcome V
  getvalue tup_num field_num = and_then (pgresult_get this) (λ p. and_then (num2int tup_num) (λ i.
      and_then (num2int field_num) (λ j. elim (below? (pq.ntuples p) i) [
        | none ↦ raises RubyError.arg_error
        | some row ↦ elim (below? (pq.nfields p) j) [
          | none ↦ raises RubyError.arg_error
          | some col ↦ cell typecast this (pos row) (pos col)
        ]
      ])))

  -- `make_column_result_array`, which has no lower bound for its column.
  unfoldable pub column_array : ℤ → Outcome (List V)
  column_array col = and_then (pgresult_get this) (λ p.
      if at_or_above col (pq.nfields p)
      then raises RubyError.index_error
      else gather (λ row. cell typecast this (pos row) col) (pq.ntuples p) 0)

  -- `pgresult_column_values`
  unfoldable pub column_values : ℤ → Outcome (List V)
  unfolding column_array
  column_values index = and_then (num2int index) column_array

  -- `pgresult_field_values`; `PQfnumber` finds no column where the source has -1.
  unfoldable pub field_values : Bytes → Outcome (List V)
  unfolding column_array
  field_values fieldname = and_then (pgresult_get this) (λ p. elim (pq.fnumber p fieldname) [
    | none ↦ raises RubyError.index_error
    | some fnum ↦ column_array (pos fnum)
  ])

module _ {P M V : Type 0} (typecast : Typecast P M V) where
  -- The Hash of the row that is asked for.
  abbrev pub aref_row : Option ℕ → Result P M → Call (Result P M) (List (FieldName × V))
  aref_row none this = (raises RubyError.index_error, this)
  aref_row (some row) this = (fill_hash typecast this row this.fnames 0 [], this)

module _ {P M V : Type 0} (pq : Libpq P) (typecast : Typecast P M V) where
  -- `pgresult_aref`
  unfoldable pub result_aref : Result P M → ℤ → Call (Result P M) (List (FieldName × V))
  result_aref this index = given (pgresult_get this) this (λ p. given (num2int index) this (λ i.
      then_do (init_fnames pq this) (λ _ this'. aref_row typecast (below? (pq.ntuples p) i) this')))
