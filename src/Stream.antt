-- ===== src/Stream.antt =====
-- Results that arrive while they are read: `pgresult_stream_any` of ext/pg_result.c with its three
-- ways to yield rows, and `pg_result_check` as it calls it. The blocks do not use the result itself.
pub mod SameOwner
pub mod Owners
mod Tests
use ruby_pg.Common.{
  ℕ, zero, suc, ◌+◌, Bool, true, false, not, ◌==◌, if◌then◌else◌, Option, none, some, List, [], ◌∷◌,
  ◌++◌, map, flat_map, Outcome, ok, raises, fault, RubyError, Call, then_do, given, ℤ, pos,
}
use ruby_pg.Result.{
  Libpq, Status, tuples_ok, command_ok, single_tuple, tuples_chunk, other_ok, failed, FieldName,
  Result, Typecast, forget, released, copy_result, pgresult_get,
}
use ruby_pg.Result.Rows.{row_values, result_aref}
use ruby_pg.Tuple.{Tuple}
use ruby_pg.Tuple.Access.{result_tuple}

-- The result that streams, the copies that tuples are bound to, the libpq results that `PQclear`
-- has freed, and those that libpq has handed over.
pub record Streaming (P M : Type 0) : Type 0 where
  pub self : Result P M
  pub copies : List (Result P M)
  pub freed : List P
  pub received : List P

-- The three ways to yield, each with its block.
pub data Yielder (R M V : Type 0) : Type 0 where
  hash : (List (FieldName × V) → Outcome (Unit {0})) → Yielder R M V
  array : (List V → Outcome (Unit {0})) → Yielder R M V
  tuple : R → (Tuple R M FieldName V → Outcome (Unit {0})) → Yielder R M V

module _ {P M A : Type 0} where
  -- A method of the result that streams.
  abbrev pub on_self : (Result P M → Call (Result P M) A) → Streaming P M → Call (Streaming P M) A
  on_self f w = ((f w.self).0, record w { self = (f w.self).1 })

module _ {P M : Type 0} where
  -- `pgresult_clear( this )`
  unfoldable pub clear_self : Streaming P M → Streaming P M
  clear_self w = record w {
    self = forget w.self;
    freed = map (λ f. f.0) (released w.self) ++ w.freed;
  }

  -- The copy takes the libpq result over.
  unfoldable pub bind_copy : Libpq P → Streaming P M → Result P M × Streaming P M
  unfolding copy_result
  bind_copy pq w = (
    (copy_result pq w.self).0,
    record w { self = record (copy_result pq w.self).1 { pgresult = none } },
  )

  -- `this->pgresult = pgresult`
  abbrev pub arrive : P → Streaming P M → Streaming P M
  arrive p w = record w { self = record w.self { pgresult = some p }; received = p ∷ w.received }

module _ {P M V : Type 0} (pq : Libpq P) (typecast : Typecast P M V) where
  -- `yield_hash`
  unfoldable pub hash_rows :
      (List (FieldName × V) → Outcome (Unit {0}))
      → ℕ
      → ℕ
      → Streaming P M
      → Call (Streaming P M) (Unit {0})
  hash_rows block zero i w = (ok tt, w)
  hash_rows block (suc left) i w =
      then_do (on_self (λ this. result_aref pq typecast this (pos i)) w)
        (λ row w'. given (block row) w' (λ _. hash_rows block left (i + 1) w'))

module _ {P M V : Type 0} (typecast : Typecast P M V) where
  -- `yield_array`
  unfoldable pub array_rows :
      (List V → Outcome (Unit {0})) → ℕ → ℕ → ℕ → Streaming P M → Call (Streaming P M) (Unit {0})
  array_rows block nfields zero i w = (ok tt, w)
  array_rows block nfields (suc left) i w =
      given (row_values typecast w.self nfields i) w
        (λ row. given (block row) w (λ _. array_rows block nfields left (i + 1) w))

module _ {R P M V : Type 0} (pq : Libpq P) (ref : R) where
  -- The loop of `yield_tuple`, over the copy.
  unfoldable pub tuple_rows :
      (Tuple R M FieldName V → Outcome (Unit {0}))
      → ℕ
      → ℕ
      → Result P M
      → Call (Result P M) (Unit {0})
  tuple_rows block zero i copy = (ok tt, copy)
  tuple_rows block (suc left) i copy =
      then_do (result_tuple pq ref copy (pos i))
        (λ t copy'. given (block t) copy' (λ _. tuple_rows block left (i + 1) copy'))

module _ {R P M V : Type 0} (pq : Libpq P) (typecast : Typecast P M V) where
  -- `yielder( self, ntuples, nfields, data )` and `pgresult_clear( this )` where it says so.
  unfoldable pub yield_rows :
      Yielder R M V → ℕ → ℕ → Streaming P M → Call (Streaming P M) (Unit {0})
  yield_rows (hash block) ntuples nfields w =
      then_do (hash_rows pq typecast block ntuples 0 w) (λ _ w'. (ok tt, clear_self w'))
  yield_rows (array block) ntuples nfields w =
      then_do (array_rows typecast block nfields ntuples 0 w) (λ _ w'. (ok tt, clear_self w'))
  yield_rows (tuple ref block) ntuples nfields w =
      let (copy, w') = bind_copy pq w in
      let r = tuple_rows pq ref block ntuples 0 copy in
      (r.0, record w' { copies = r.1 ∷ w'.copies })

  -- The rows of a libpq result, whose number of fields must be the first one's.
  unfoldable pub same_fields :
      Yielder R M V → ℕ → P → Streaming P M → Call (Streaming P M) (Unit {0})
  unfolding yield_rows clear_self
  same_fields yielder nfields p w =
      if not (nfields == pq.nfields p)
      then (raises RubyError.invalid_change_of_fields, clear_self w)
      else yield_rows yielder (pq.ntuples p) nfields w

  -- One round of the loop; true where it returns. `pg_result_check` returns for the other states
  -- that are no error, and then the loop goes on.
  unfoldable pub round : Status → Yielder R M V → ℕ → P → Streaming P M → Call (Streaming P M) Bool
  unfolding same_fields
  round tuples_ok yielder nfields p w =
      (if pq.ntuples p == 0 then ok true else raises RubyError.invalid_status, w)
  round command_ok yielder nfields p w =
      (if pq.ntuples p == 0 then ok true else raises RubyError.invalid_status, w)
  round failed yielder nfields p w = (raises RubyError.server_error, w)
  round single_tuple yielder nfields p w =
      then_do (same_fields yielder nfields p w) (λ _ w'. (ok false, w'))
  round tuples_chunk yielder nfields p w =
      then_do (same_fields yielder nfields p w) (λ _ w'. (ok false, w'))
  round other_ok yielder nfields p w =
      then_do (same_fields yielder nfields p w) (λ _ w'. (ok false, w'))

  -- `for(;;)`, with the results that libpq has still to give; behind them is NULL.
  unfoldable pub stream :
      Yielder R M V → ℕ → List P → P → Streaming P M → Call (Streaming P M) (Unit {0})
  unfolding round
  stream yielder nfields [] p w =
      then_do (round (pq.status p) yielder nfields p w)
        (λ done w'. (if done then ok tt else raises RubyError.no_result_error, w'))
  stream yielder nfields (next ∷ coming) p w =
      then_do (round (pq.status p) yielder nfields p w) (λ done w'. elim done [
        | true ↦ (ok tt, w')
        | false ↦ stream yielder nfields coming next (arrive next w')
      ])

  -- `pgresult_stream_any`
  unfoldable pub stream_any :
      Yielder R M V → List P → Streaming P M → Call (Streaming P M) (Unit {0})
  unfolding stream
  stream_any yielder coming w =
      if w.self.frozen
      then (raises RubyError.frozen_error, w)
      else given (pgresult_get w.self) w (λ p. stream yielder (pq.nfields p) coming p w)
