-- ===== src/Tuple.antt =====
-- PG::Tuple: a row of a result whose columns are cast when they are first read, of
-- ext/pg_tuple.c. R is the type of references to PG::Result objects, M that of type maps, N that
-- of the objects that serve as keys and V that of Ruby values; `heap` is the state of the results
-- at the time of the call. A block may raise, and may change
-- everything but the tuple and the results: W is the state of the rest of the world.
pub mod View
pub mod Loop
pub mod Yield
pub mod Sound
pub mod Finish
pub mod Reads
pub mod Keeps
pub mod Invariant
pub mod Create
pub mod RoundTrip
mod Stale
mod Tests
pub mod Access
use ruby_pg.Common.{
  ℕ, zero, suc, ◌+◌, Bool, not, Option, none, some, List, [], ◌∷◌, length, get_elem?, set, ltb,
  ◌==◌, if◌then◌else◌, Outcome, ok, raises, fault, RubyError, and_then, Call, then_do, on_left,
  on_right, given, ℤ, pos, negsuc, num2int, below?, from_end, replicate,
}
use ruby_pg.Common.Hash.{Eql, aref}
use ruby_pg.Result.{Result, Typecast, pgresult_get}

-- `t_pg_tuple`. `result` and `typemap` are none where the source has Qnil, a value is none where it
-- has Qundef, and `field_names` is the slot behind the values, none where it is not allocated.
pub record Tuple (R M N V : Type 0) : Type 0 where
  pub result : Option R
  pub typemap : Option M
  pub field_map : List (N × ℕ)
  pub row_num : ℤ
  pub num_fields : ℕ
  pub values : List (Option V)
  pub field_names : Option (List N)

-- A key: an Integer, or any other object.
pub data Key (N : Type 0) : Type 0 where
  number : ℤ → Key N
  other : N → Key N

module _ {N : Type 0} where
  -- The slot behind the values.
  abbrev pub slot_value : Option (List N) → Outcome (Option (List N))
  slot_value none = fault
  slot_value (some names) = ok (some names)

module _ {R M N V : Type 0} where
  -- `num_fields != (int)RHASH_SIZE(field_map)`
  abbrev pub dup_names : Tuple R M N V → Bool
  dup_names this = not (this.num_fields == length this.field_map)

  -- `pg_tuple_get_field_names`, none where it gives Qfalse. Without the slot it would read behind
  -- the object.
  unfoldable pub get_field_names : Tuple R M N V → Outcome (Option (List N))
  get_field_names this = if dup_names this then slot_value this.field_names else ok none

  -- `pg_tuple_detach`
  abbrev pub detach : Tuple R M N V → Tuple R M N V
  detach this = record this { result = none; typemap = none; row_num = negsuc 0 }

module _ {R M N V : Type 0} where
  -- A value that is there; in place of Qundef, what the cast gives, which is kept.
  unfoldable pub value_or_cast :
      Option (Option V) → Outcome V → Tuple R M N V → ℕ → Call (Tuple R M N V) V
  value_or_cast none cast this col = (fault, this)
  value_or_cast (some (some v)) cast this col = (ok v, this)
  value_or_cast (some none) cast this col =
      given cast this (λ v. (ok v, record this { values = set this.values col (some v) }))

-- A block that is given a name and a value: it returns or raises, and changes the rest of the world.
abbrev pub Block : Type 0 → Type 0 → Type 0 → Type 0
Block W N V = N → V → W → Call W (Unit {0})

module _ {W N V : Type 0} where
  -- The body of the loop of `pg_tuple_each` over the columns, with `RARRAY_AREF(field_names, i)`.
  abbrev pub yield_at : Block W N V → Option N → V → W → Call W (Unit {0})
  yield_at block none v w = (fault, w)
  yield_at block (some name) v w = block name v w

  abbrev pub yield_named : Block W N V → List N → Block W ℕ V
  yield_named block names i v w = yield_at block (get_elem? names i) v w

module _ {R P M N V : Type 0} (typecast : Typecast P M V) (heap : R → Result P M) where
  -- The part of `pg_tuple_materialize_field` for a value that is not there: the type map of a
  -- detached tuple is no object.
  unfoldable pub cast_field : Tuple R M N V → ℕ → Outcome V
  cast_field this col = elim this.typemap [
    | none ↦ fault
    | some tm ↦ elim this.result [
      | none ↦ fault
      | some r ↦ and_then (pgresult_get (heap r)) (λ p. typecast tm (heap r) this.row_num (pos col))
    ]
  ]

  -- `pg_tuple_materialize_field`
  unfoldable pub materialize_field : Tuple R M N V → ℕ → Call (Tuple R M N V) V
  unfolding value_or_cast
  materialize_field this col =
      value_or_cast (get_elem? this.values col) (cast_field this col) this col

  -- The loop of `pg_tuple_materialize`: each column is read, and its value may be checked.
  unfoldable pub each_field :
      (ℕ → V → Outcome (Unit {0})) → ℕ → ℕ → Tuple R M N V → Call (Tuple R M N V) (Unit {0})
  each_field body zero i this = (ok tt, this)
  each_field body (suc left) i this =
      then_do (materialize_field this i)
        (λ v this'. given (body i v) this' (λ _. each_field body left (i + 1) this'))

  -- `pg_tuple_materialize`
  unfoldable pub materialize : Tuple R M N V → Call (Tuple R M N V) (Unit {0})
  materialize this =
      then_do (each_field (λ i v. ok tt) this.num_fields 0 this) (λ _ this'. (ok tt, detach this'))

module _ {W R P M N V : Type 0} (typecast : Typecast P M V) (heap : R → Result P M) where
  -- `for( i = 0; i < num_fields; i++ )`: each column is read, and its value is yielded.
  unfoldable pub each_column :
      Block W ℕ V → ℕ → ℕ → Tuple R M N V × W → Call (Tuple R M N V × W) (Unit {0})
  each_column body zero i s = (ok tt, s)
  each_column body (suc left) i s =
      then_do (on_left (materialize_field typecast heap s.0 i) s.1) (λ v s'.
        then_do (on_right s'.0 (body i v s'.1)) (λ _ s''. each_column body left (i + 1) s''))

  -- `pg_tuple_detach(self); return self;`
  abbrev pub let_go : Tuple R M N V × W → Call (Tuple R M N V × W) (Unit {0})
  let_go s = (ok tt, (detach s.0, s.1))

  -- `pg_tuple_each_value`
  unfoldable pub each_value :
      (V → W → Call W (Unit {0})) → Tuple R M N V × W → Call (Tuple R M N V × W) (Unit {0})
  each_value block s = then_do (each_column (λ i. block) s.0.num_fields 0 s) (λ _ s'. let_go s')

  -- The loop of `pg_tuple_each` over the entries of the field map.
  unfoldable pub each_entry :
      Block W N V → List (N × ℕ) → Tuple R M N V × W → Call (Tuple R M N V × W) (Unit {0})
  each_entry block [] s = (ok tt, s)
  each_entry block ((key, index) ∷ entries) s =
      then_do (on_left (materialize_field typecast heap s.0 index) s.1)
        (λ v s'. then_do (on_right s'.0 (block key v s'.1)) (λ _ s''. each_entry block entries s''))

  -- Its two loops.
  unfoldable pub each_by :
      Block W N V → Option (List N) → Tuple R M N V × W → Call (Tuple R M N V × W) (Unit {0})
  each_by block none s = each_entry block s.0.field_map s
  each_by block (some names) s = each_column (yield_named block names) s.0.num_fields 0 s

  -- `pg_tuple_each`
  unfoldable pub each : Block W N V → Tuple R M N V × W → Call (Tuple R M N V × W) (Unit {0})
  unfolding each_by
  each block s =
      then_do (given (get_field_names s.0) s (λ field_names. each_by block field_names s))
        (λ _ s'. let_go s')
