-- ===== src/Result/Tests.antt =====
-- Results at a concrete libpq result.
use ruby_pg.Common.{bytes_eq, gather, num2int}
use ruby_pg.Result.Rows.{fill_hash, row_values}
use ruby_pg.Result.{init_fnames, name_columns}
use ruby_pg.Common.{
  ℕ, some, List, [], ◌∷◌, codes, length, get_elem?, Keeps, ok-ne-fault, ok, raises, RubyError, pos,
  negsuc, ◌≡◌, refl, arith,
}
use ruby_pg.Result.{FieldName, string, fname}
use ruby_pg.Result.Rows.{values, tuple_values, getvalue, column_values, result_aref}
use ruby_pg.Result.Agree.{values-tuple_values, column_values-values}
use ruby_pg.Result.Sound.{IsSound}
use ruby_pg.Result.Invariant.{Update, run, run-Keeps}
use ruby_pg.Result.Samples.{sample-IsSound, sample, sample_pq, sample_cast}

abbrev cell_at : ℕ → ℕ → FieldName
cell_at row col = string (row ∷ col ∷ [])

abbrev row_at : ℕ → List FieldName
row_at row = cell_at row 0 ∷ cell_at row 1 ∷ cell_at row 2 ∷ []

values_test : values sample_pq sample_cast sample ≡ ok (row_at 0 ∷ row_at 1 ∷ [])
unfolding values gather row_values
values_test = refl

-- A column that is below 0 is not refused.
column_values_test :
    column_values sample_pq sample_cast sample (negsuc 0) ≡ ok (cell_at 0 0 ∷ cell_at 1 0 ∷ [])
unfolding column_values num2int gather
column_values_test = refl

fname_test : fname sample_pq sample (pos 3) ≡ raises RubyError.arg_error
unfolding fname num2int
fname_test = refl

aref_test :
    (result_aref sample_pq sample_cast sample (pos 1)).0
    ≡ ok ((string (codes "id"), cell_at 1 2) ∷ (string (codes "name"), cell_at 1 1) ∷ [])
unfolding result_aref num2int init_fnames name_columns fill_hash bytes_eq
aref_test = refl

values-tuple_values_example :
    (row : List FieldName) × (v : FieldName) × (length (row_at 0 ∷ row_at 1 ∷ []) ≡ 2)
    × (get_elem? (row_at 0 ∷ row_at 1 ∷ []) 1 ≡ some row)
    × (tuple_values sample_pq sample_cast sample (pos 1) ≡ ok row)
    × (get_elem? row 2 ≡ some v)
    × (getvalue sample_pq sample_cast sample (pos 1) (pos 2) ≡ ok v)
values-tuple_values_example =
    values-tuple_values sample_pq sample_cast sample refl values_test 1 2 (omega arith)
      (omega arith) (omega arith) (omega arith)

column_values-values_example :
    (vs row : List FieldName) × (v : FieldName) × (column_values sample_pq sample_cast sample
        (pos 2)
      ≡ ok vs)
    × (length vs ≡ 2)
    × (get_elem? (row_at 0 ∷ row_at 1 ∷ []) 1 ≡ some row)
    × (get_elem? row 2 ≡ some v)
    × (get_elem? vs 1 ≡ some v)
column_values-values_example =
    column_values-values sample_pq sample_cast sample refl values_test 1 2 (omega arith)
      (omega arith) (omega arith)

run-Keeps_example :
    Keeps (IsSound sample_pq) (run sample_pq sample_cast (Update.row_hash (pos 1)) sample)
run-Keeps_example =
    run-Keeps sample_pq sample_cast (λ tm res r c. ok-ne-fault) (Update.row_hash (pos 1)) sample
      sample-IsSound tt
