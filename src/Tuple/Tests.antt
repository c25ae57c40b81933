-- ===== src/Tuple/Tests.antt =====
-- Tuples of a concrete result.
use ruby_pg.Tuple.{each_column}
use ruby_pg.Common.{bytes_eq, num2int}
use ruby_pg.Tuple.Access.{column_of, present}
use ruby_pg.Tuple.{cast_field, each_field, get_field_names, materialize, materialize_field}
use ruby_pg.Common.{
  ℕ, Bool, true, false, none, some, List, [], ◌∷◌, codes, fault, ◌≢◌, raises-ne-fault, if_intro,
  Call, right_of, ok, raises, ok-ne-fault, if◌then◌else◌, gather, RubyError, Keeps, pos, negsuc,
  ◌≡◌, refl, inl, arith,
}
use ruby_pg.Common.Hash.{index_names}
use ruby_pg.Result.{FieldName, string, field_names_eql, field_name_eql, Result, forget}
use ruby_pg.Result.Rows as Rows
use ruby_pg.Result.Sound as Sound
use ruby_pg.Result.Samples.{sample, sample_pq, sample_cast, sample-IsSound}
use ruby_pg.Tuple.{Tuple, Block, number, other, each, each_value, yield_named}
use ruby_pg.Tuple.View.{view}
use ruby_pg.Tuple.Yield.{visit_world}
use ruby_pg.Result.{CastReturns}
use ruby_pg.Tuple.Sound.{IsSound}
use ruby_pg.Tuple.Access.{
  result_tuple, tuple_values, tuple_aref, fetch, dump, load, Marshaled, Item,
}
use ruby_pg.Tuple.Reads.{each-visit, tuple_values-gather}
use ruby_pg.Tuple.Invariant.{Method, run, run_all, run_all-Keeps}
use ruby_pg.Tuple.Create.{tuple_values-result_tuple}
use ruby_pg.Tuple.Stale.{next_result, result_tuple_stale}
use ruby_pg.Tuple.RoundTrip.{view-tuple_values, load-dump}

abbrev names : List FieldName
names = string (codes "id") ∷ string (codes "name") ∷ string (codes "id") ∷ []

-- The result is open, or it is cleared.
abbrev opened : Bool → Result ℕ ℕ
opened r = sample

abbrev cleared : Bool → Result ℕ ℕ
cleared r = forget sample

abbrev row : Tuple Bool ℕ FieldName FieldName
row = record {
  result = some true;
  typemap = some 0;
  field_map = index_names field_names_eql names 0 [];
  row_num = pos 1;
  num_fields = 3;
  values = none ∷ none ∷ none ∷ [];
  field_names = some names;
}

row-IsSound : IsSound field_names_eql row
unfolding bytes_eq
row-IsSound = record {
  names = names;
  counted = refl;
  slots = refl;
  mapped = refl;
  named = refl;
  backed = inl (true, 0, refl, refl);
}

sample_cast-CastReturns : CastReturns sample_cast
sample_cast-CastReturns tm res r c = ok-ne-fault

abbrev cell_at : ℕ → FieldName
cell_at col = string (1 ∷ col ∷ [])

abbrev read_row : List FieldName
read_row = cell_at 0 ∷ cell_at 1 ∷ cell_at 2 ∷ []

abbrev nil : FieldName
nil = string []

aref_test :
    (tuple_aref sample_cast opened field_names_eql nil (number (negsuc 0)) row).0 ≡ ok (cell_at 2)
unfolding tuple_aref column_of num2int materialize_field cast_field
aref_test = refl

-- Of two columns with one name the Hash has the last.
aref_name_test :
    (tuple_aref sample_cast opened field_names_eql nil (other (string (codes "id"))) row).0
    ≡ ok (cell_at 2)
unfolding tuple_aref column_of bytes_eq materialize_field cast_field
aref_name_test = refl

fetch_test :
    (fetch sample_cast opened field_names_eql (number (pos 3)) [] none row).0
    ≡ raises RubyError.index_error
unfolding fetch column_of num2int
fetch_test = refl

cleared_test : (tuple_values sample_cast cleared row).0 ≡ raises RubyError.pg_error
unfolding tuple_values materialize each_field materialize_field cast_field
cleared_test = refl

-- A block that keeps what it is given, and does not take another name than id.
abbrev Log : Type 0
Log = List (FieldName × FieldName)

abbrev only_ids : Block Log FieldName FieldName
only_ids name v log =
    if field_name_eql name (string (codes "id"))
    then (ok tt, (name, v) ∷ log)
    else (raises RubyError.arg_error, log)

abbrev any_value : FieldName → Log → Call Log (Unit {0})
any_value v log = (ok tt, (nil, v) ∷ log)

-- The block is called for the first column, and raises for the second one.
each_test :
    right_of (each sample_cast opened only_ids (row, []))
    ≡ (raises RubyError.arg_error, (string (codes "id"), cell_at 0) ∷ [])
unfolding each get_field_names bytes_eq each_column materialize_field cast_field
each_test = refl

each-visit_example :
    (right_of (each sample_cast opened only_ids (row, []))
      ≡ visit_world (yield_named only_ids names) (view sample_cast opened row) 3 0 [])
    × (right_of (each_value sample_cast opened any_value (row, []))
        ≡ visit_world (λ k. any_value) (view sample_cast opened row) 3 0 [])
unfolding row-IsSound
each-visit_example =
    each-visit sample_cast opened field_names_eql only_ids any_value row [] row-IsSound

tuple_values-gather_example :
    (tuple_values sample_cast opened row).0 ≡ gather (view sample_cast opened row) 3 0
tuple_values-gather_example = tuple_values-gather sample_cast opened field_names_eql row row-IsSound

only_ids-returns : (name : FieldName) (v : FieldName) (log : Log) → (only_ids name v log).0 ≢ fault
only_ids-returns name v log =
    if_intro (λ (r : Call Log (Unit {0})). r.0 ≢ fault) (field_name_eql name (string (codes "id")))
      (λ _. ok-ne-fault) (λ _. raises-ne-fault)

abbrev calls : List (Method Log FieldName FieldName × (Bool → Result ℕ ℕ))
calls =
    (Method.all_values, cleared)
    ∷ (Method.each_pair only_ids [], opened)
    ∷ (Method.all_values, opened)
    ∷ []

run_all-Keeps_example : Keeps (IsSound field_names_eql) (
    run {W = Log} sample_cast opened field_names_eql
      (Method.read_key nil (number (pos 0)))
      (run_all sample_cast field_names_eql calls row))
run_all-Keeps_example =
    run_all-Keeps {W = Log} sample_cast field_names_eql sample_cast-CastReturns calls row
      (tt, (only_ids-returns, (tt, tt))) row-IsSound (Method.read_key nil (number (pos 0))) opened
      tt

-- The result as `tuple` leaves it.
abbrev then_heap : Bool → Result ℕ ℕ
then_heap r = (result_tuple {V = FieldName} sample_pq true sample (pos 1)).1

tuple_values-result_tuple_example :
    (t : Tuple Bool ℕ FieldName FieldName) × (result_tuple sample_pq true sample (pos 1)
      ≡ (ok t, then_heap true))
    × Sound.IsSound sample_pq (then_heap true)
    × IsSound field_names_eql t
    × ((tuple_values sample_cast then_heap t).0
        ≡ Rows.tuple_values sample_pq sample_cast (then_heap true) (pos 1))
tuple_values-result_tuple_example =
    tuple_values-result_tuple sample_pq true sample_cast sample 7 refl sample-IsSound 1
      (omega arith) (omega arith) then_heap refl

read_all :
    tuple_values sample_cast opened row ≡ (ok read_row, (tuple_values sample_cast opened row).1)
unfolding tuple_values materialize each_field materialize_field cast_field present
read_all = refl

view-tuple_values_example :
    ((tuple_values sample_cast opened row).1.result ≡ none)
    × (view sample_cast cleared (tuple_values sample_cast opened row).1 2
        ≡ view sample_cast opened row 2)
view-tuple_values_example =
    view-tuple_values sample_cast opened field_names_eql row row-IsSound read_all sample_cast
      cleared 2 (omega arith)

abbrev marshaled : Marshaled FieldName
marshaled = Marshaled.array (Item.array names ∷ Item.array read_row ∷ [])

dump_test : dump sample_cast opened row ≡ (ok marshaled, (dump sample_cast opened row).1)
unfolding dump materialize each_field materialize_field cast_field get_field_names bytes_eq present
dump_test = refl

load-dump_example :
    load field_names_eql false marshaled none ≡ (ok tt, some (dump sample_cast opened row).1)
load-dump_example =
    load-dump sample_cast opened field_names_eql row row-IsSound (omega arith) dump_test

result_tuple_stale_example :
    (s : Result ℕ ℕ) × (t : Tuple Bool ℕ FieldName FieldName) × (result_tuple sample_pq true sample
        (pos 1)
      ≡ (ok t, s))
    × (result_tuple {V = FieldName} sample_pq true
          (next_result FieldName sample_pq true 8 s)
          (pos 0)
        ≡ (raises RubyError.arg_error, next_result FieldName sample_pq true 8 s))
result_tuple_stale_example =
    result_tuple_stale FieldName sample_pq true sample 7 refl sample-IsSound 1 (omega arith)
      (omega arith) 8 0 (omega arith) (omega arith)
