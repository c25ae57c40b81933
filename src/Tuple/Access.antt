-- ===== src/Tuple/Access.antt =====
-- The methods of PG::Tuple of ext/pg_tuple.c: creation, lookup by key, the lists of values, and
-- marshalling. An object that is not yet filled has no tuple behind it.
use ruby_pg.Common.{
  ℕ, ◌^◌, Bool, not, Option, none, some, List, [], ◌∷◌, length, ltb, ◌==◌, if◌then◌else◌, Outcome,
  ok, raises, fault, RubyError, and_then, Call, then_do, given, ℤ, pos, negsuc, num2int, below?,
  from_end, replicate, take, map,
}
use ruby_pg.Common.Hash.{Eql, aref, index_names}
use ruby_pg.Result.{Libpq, Result, FieldName, Typecast, pgresult_get, ensure_init_for_tuple}
use ruby_pg.Tuple.{Tuple, Key, number, other, get_field_names, materialize_field, materialize}

-- `pg_tuple_new`. Where `nfields` is -1 it differs from the size of the Hash, and Ruby refuses an
-- array of that length.
module _ {R P M V : Type 0} where
  unfoldable pub tuple_of :
      Option (List (FieldName × ℕ))
      → Option ℕ
      → R
      → Result P M
      → ℕ
      → Outcome (Tuple R M FieldName V)
  tuple_of none nfields result this row_num = fault
  tuple_of (some field_map) none result this row_num = raises RubyError.arg_error
  tuple_of (some field_map) (some num_fields) result this row_num = ok (record {
    result = some result;
    typemap = some this.typemap;
    field_map = field_map;
    row_num = pos row_num;
    num_fields = num_fields;
    values = replicate num_fields none;
    field_names =
        if not (num_fields == length field_map) then some (take num_fields this.fnames) else none;
  })

  unfoldable pub tuple_new : R → Result P M → ℕ → Outcome (Tuple R M FieldName V)
  unfolding tuple_of
  tuple_new result this row_num = tuple_of this.field_map this.nfields result this row_num

module _ {R P M V : Type 0} (pq : Libpq P) where
  -- The row that is asked for, on the result that `result` refers to.
  unfoldable pub tuple_at : R → Option ℕ → Result P M → Call (Result P M) (Tuple R M FieldName V)
  tuple_at result none this = (raises RubyError.index_error, this)
  tuple_at result (some row) this =
      then_do (ensure_init_for_tuple pq this) (λ _ this'. (tuple_new result this' row, this'))

  -- `pgresult_tuple`
  unfoldable pub result_tuple : R → Result P M → ℤ → Call (Result P M) (Tuple R M FieldName V)
  unfolding tuple_at
  result_tuple result this index =
      given (num2int index) this
        (λ i. given (pgresult_get this) this (λ p. tuple_at result (below? (pq.ntuples p) i) this))

-- `pg_tuple_get_this`
abbrev pub get_this : {T : Type 0} → Option T → Outcome T
get_this none = raises RubyError.type_error
get_this (some this) = ok this

-- A method runs on the tuple behind the object.
abbrev pub on_tuple : {T A : Type 0} → (T → Call T A) → Option T → Call (Option T) A
on_tuple f none = (raises RubyError.type_error, none)
on_tuple f (some this) = let r = f this in (r.0, some r.1)

module _ {R M N V : Type 0} (e : Eql N) where
  -- The column that a key stands for, none where there is no such column.
  unfoldable pub column_of : Tuple R M N V → Key N → Outcome (Option ℕ)
  column_of this (number key) =
      and_then (num2int key) (λ i. ok (below? this.num_fields (from_end this.num_fields i)))
  column_of this (other key) = ok (aref e key this.field_map)

  -- `pg_tuple_index`
  abbrev pub index : Tuple R M N V → N → Option ℕ
  index this key = aref e key this.field_map

module _ {N V : Type 0} where
  -- What `pg_tuple_fetch` does where no column has the key: the block comes before the default.
  abbrev pub missing : Key N → List V → Option (Key N → Outcome V) → Outcome V
  missing key rest (some block) = block key
  missing (number i) [] none = raises RubyError.index_error
  missing (other k) [] none = raises RubyError.key_error
  missing key (default ∷ rest) none = ok default

module _ {R P M N V : Type 0} (typecast : Typecast P M V) (heap : R → Result P M) where
  -- The column that was found is read.
  abbrev pub at_column : Outcome V → Tuple R M N V → Option ℕ → Call (Tuple R M N V) V
  at_column otherwise this none = (otherwise, this)
  at_column otherwise this (some col) = materialize_field typecast heap this col

module _ {R P M N V : Type 0} (typecast : Typecast P M V) (heap : R → Result P M) (e : Eql N) where
  -- `pg_tuple_aref`
  unfoldable pub tuple_aref : V → Key N → Tuple R M N V → Call (Tuple R M N V) V
  tuple_aref nil key this =
      given (column_of e this key) this (at_column typecast heap (ok nil) this)

  -- `pg_tuple_fetch`, whose arguments behind the key are `rest`.
  unfoldable pub fetch :
      Key N → List V → Option (Key N → Outcome V) → Tuple R M N V → Call (Tuple R M N V) V
  fetch key rest block this =
      if ltb 1 (length rest)
      then (raises RubyError.arg_error, this)
      else given (column_of e this key) this (at_column typecast heap (missing key rest block) this)

-- `rb_ary_new4(num_fields, &values[0])`: an array that holds Qundef is not defined.
unfoldable pub present : {V : Type 0} → List (Option V) → Outcome (List V)
present [] = ok []
present (none ∷ values) = fault
present (some v ∷ values) = and_then (present values) (λ vs. ok (v ∷ vs))

module _ {R P M N V : Type 0} (typecast : Typecast P M V) (heap : R → Result P M) where
  -- `pg_tuple_values`
  unfoldable pub tuple_values : Tuple R M N V → Call (Tuple R M N V) (List V)
  tuple_values this =
      then_do (materialize typecast heap this) (λ _ this'. (present this'.values, this'))

-- What Marshal hands over: an array has other objects in it.
pub data Item (O : Type 0) : Type 0 where
  array : List O → Item O
  no_array : Item O

pub data Marshaled (O : Type 0) : Type 0 where
  array : List (Item O) → Marshaled O
  no_array : Marshaled O

-- The names, or `field_map.keys` where they are not kept.
abbrev pub names_or_keys : {O : Type 0} → Option (List O) → List (O × ℕ) → List O
names_or_keys none field_map = map (λ p. p.0) field_map
names_or_keys (some names) field_map = names

-- `RARRAY_LENINT`
abbrev pub lenint : {O : Type 0} → List O → Outcome ℕ
lenint xs = if ltb (length xs) (2 ^ 31) then ok (length xs) else raises RubyError.range_error

module _ {R P M O : Type 0} (typecast : Typecast P M O) (heap : R → Result P M) where
  -- `pg_tuple_dump`
  unfoldable pub dump : Tuple R M O O → Call (Tuple R M O O) (Marshaled O)
  dump this = then_do (materialize typecast heap this) (λ _ this'.
      given (get_field_names this') this' (λ field_names.
        given (present this'.values) this' (λ values. (
          ok (
              Marshaled.array
                (Item.array (names_or_keys field_names this'.field_map) ∷ Item.array values ∷ [])),
          this',
        ))))

module _ {R M O : Type 0} (e : Eql O) where
  -- The tuple that `pg_tuple_load` fills, with the Hash of the names.
  abbrev pub detached_tuple : List O → List O → ℕ → Tuple R M O O
  detached_tuple field_names values num_fields =
      let field_map : List (O × ℕ) = index_names e field_names 0 [] in
      record {
        result = none;
        typemap = none;
        field_map = field_map;
        row_num = negsuc 0;
        num_fields = num_fields;
        values = map some values;
        field_names = if not (num_fields == length field_map) then some field_names else none;
      }

  -- The part of `pg_tuple_load` behind the checks of the types.
  unfoldable pub load_arrays : List O → List O → Outcome (Tuple R M O O)
  load_arrays field_names values = and_then (lenint values) (λ num_fields.
      and_then (lenint field_names) (λ len.
        if not (len == num_fields)
        then raises RubyError.type_error
        else ok (detached_tuple field_names values num_fields)))

  unfoldable pub loaded : Marshaled O → Outcome (Tuple R M O O)
  unfolding load_arrays
  loaded Marshaled.no_array = raises RubyError.type_error
  loaded (Marshaled.array (Item.array names ∷ Item.array values ∷ [])) = load_arrays names values
  loaded (Marshaled.array _) = raises RubyError.type_error

  -- `pg_tuple_load`
  unfoldable pub load :
      Bool → Marshaled O → Option (Tuple R M O O) → Call (Option (Tuple R M O O)) (Unit {0})
  unfolding loaded
  load frozen a (some this) =
      (if frozen then raises RubyError.frozen_error else raises RubyError.type_error, some this)
  load frozen a none =
      if frozen
      then (raises RubyError.frozen_error, none)
      else given (loaded a) none (λ this. (ok tt, some this))
