-- ===== src/Stream/Owners.antt =====
-- Who frees the libpq results of a stream (ext/pg_result.c): each that was received is held by one
-- object, or was freed once.
use ruby_pg.Common.{
  ℕ, zero, suc, ◌+◌, Bool, true, false, not, ◌==◌, if◌then◌else◌, Option, none, some, List, [], ◌∷◌,
  ◌++◌, map, flat_map, count, count-append, Outcome, ok, raises, fault, RubyError, Call,
  given_state, then_do_state, Settles, Settles-then_do, Settles-given, Settles-state, state-Settles,
  if_intro, then_do, pos, ◌≡◌, refl, ◌∙◌, ap, sym, arith,
}
use ruby_pg.Result.{
  Libpq, Status, tuples_ok, command_ok, single_tuple, tuples_chunk, other_ok, failed, FieldName,
  Result, Typecast, released_of, copy_result, pgresult_get,
}
use ruby_pg.Result.Rows.{row_values, result_aref}
use ruby_pg.Tuple.{Tuple}
use ruby_pg.Tuple.Access.{result_tuple}
use ruby_pg.Stream.{
  Streaming, Yielder, hash, array, tuple, on_self, clear_self, bind_copy, arrive, hash_rows,
  array_rows, tuple_rows, yield_rows, same_fields, round, stream, stream_any,
}
use ruby_pg.Stream.SameOwner.{
  SameOwner, same_owner, SameOwner-trans, result_aref-SameOwner, result_tuple-SameOwner,
}

module _ {P : Type 0} where
  abbrev pub held_of : Option P → List P
  held_of none = []
  held_of (some p) = p ∷ []

  released-held :
      (q : P → Bool) (o : Option P) (autoclear : Bool) (size : ℕ) (freed : List P)
      → autoclear ≡ false
      → count q (map (λ f. f.0) (released_of o autoclear size) ++ freed)
        ≡ count q (held_of o) + count q freed
  released-held q none autoclear size freed a = omega arith
  released-held q (some p) true size freed a = cc
  released-held q (some p) false size freed a = ground arith

module _ {P M : Type 0} where
  -- The libpq result that an object has to free.
  abbrev pub held : Result P M → List P
  held this = held_of this.pgresult

  -- Every libpq result that was received is held or was freed, as often as it was received; the
  -- result that streams is not of those that libpq clears itself.
  abbrev pub Accounted : Streaming P M → Type 0
  Accounted w =
      ((q : P → Bool)
        → count q w.received
          ≡ count q (held w.self) + count q (flat_map held w.copies) + count q w.freed)
      × (w.self.autoclear ≡ false)

  -- And the result that streams holds none.
  abbrev Idle : Streaming P M → Type 0
  Idle w = Accounted w × (w.self.pgresult ≡ none)

  clear_self-Idle : (w : Streaming P M) → Accounted w → Idle (clear_self w)
  unfolding clear_self
  clear_self-Idle w (n, a) = (
    (
      λ q. omega (
        arith,
        n q,
        released-held q w.self.pgresult w.self.autoclear w.self.result_size w.freed a,
      ),
      a,
    ),
    refl,
  )

  -- A change of caches alone changes nothing of this.
  SameOwner-Accounted :
      (w : Streaming P M) (s : Result P M)
      → SameOwner w.self s
      → Accounted w
      → Accounted (record w { self = s })
  SameOwner-Accounted w s (p, a) (n, b) = (
    λ q.
        n q
        ∙ ap (λ o. count q (held_of o) + count q (flat_map held w.copies) + count q w.freed)
            (sym p),
    a ∙ b,
  )

  arrive-Accounted : (p : P) (w : Streaming P M) → Idle w → Accounted (arrive p w)
  arrive-Accounted p w ((n, a), none_held) =
      (λ q. omega (arith, n q, ap (λ o. count q (held_of o)) none_held), a)

module _ {P M V : Type 0} (pq : Libpq P) (typecast : Typecast P M V) where
  hash_rows-Accounted :
      (block : List (FieldName × V) → Outcome (Unit {0})) (left i : ℕ) (w : Streaming P M)
      → Accounted w
      → Settles Accounted (λ _. Accounted) (hash_rows pq typecast block left i w)
  unfolding hash_rows
  hash_rows-Accounted block zero i w h = h
  hash_rows-Accounted block (suc left) i w h =
      Settles-then_do Accounted (λ _. Accounted) (λ _. Accounted)
        (on_self (λ this. result_aref pq typecast this (pos i)) w) _
        (Settles-state Accounted (on_self (λ this. result_aref pq typecast this (pos i)) w) (
          SameOwner-Accounted w (result_aref pq typecast w.self (pos i)).1
            (result_aref-SameOwner pq typecast w.self (pos i)) h))
        (λ row w' h'.
          Settles-given Accounted (λ _. Accounted) (block row) w' _ h'
            (λ _. hash_rows-Accounted block left (i + 1) w' h'))

  array_rows-Accounted :
      (block : List V → Outcome (Unit {0})) (nfields left i : ℕ) (w : Streaming P M)
      → Accounted w
      → Settles Accounted (λ _. Accounted) (array_rows typecast block nfields left i w)
  unfolding array_rows
  array_rows-Accounted block nfields zero i w h = h
  array_rows-Accounted block nfields (suc left) i w h =
      Settles-given Accounted (λ _. Accounted) (row_values typecast w.self nfields i) w _ h
        (λ row.
          Settles-given Accounted (λ _. Accounted) (block row) w _ h
            (λ _. array_rows-Accounted block nfields left (i + 1) w h))

module _ {R P M : Type 0} (V : Type 0) (pq : Libpq P) (ref : R) where
  tuple_rows-SameOwner :
      (block : Tuple R M FieldName V → Outcome (Unit {0})) (left i : ℕ) (this copy : Result P M)
      → SameOwner this copy
      → SameOwner this (tuple_rows pq ref block left i copy).1
  unfolding tuple_rows
  tuple_rows-SameOwner block zero i this copy h = h
  tuple_rows-SameOwner block (suc left) i this copy h =
      then_do_state (SameOwner this) (result_tuple pq ref copy (pos i)) _
        (SameOwner-trans this copy (result_tuple {V = V} pq ref copy (pos i)).1 h
          (result_tuple-SameOwner pq V ref copy (pos i)))
        (λ t copy' h'.
          given_state (SameOwner this) (block t) copy' _ h'
            (λ _. tuple_rows-SameOwner block left (i + 1) this copy' h'))

module _ {P M : Type 0} where
  settled :
      (o : Outcome (Unit {0})) (w : Streaming P M) → Idle w → Settles Accounted (λ _. Idle) (o, w)
  settled (ok u) w h = h
  settled (raises e) w h = h.0
  settled fault w h = h.0

  -- After a round that goes on the result that streams holds none.
  abbrev AfterRound : Bool → Streaming P M → Type 0
  AfterRound true w = Accounted w
  AfterRound false w = Idle w

  ended :
      (b : Bool) (e : RubyError) (w : Streaming P M)
      → Accounted w
      → Settles Accounted AfterRound (if b then ok true else raises e, w)
  ended true e w h = h
  ended false e w h = h

  AfterRound-Accounted : (b : Bool) (w : Streaming P M) → AfterRound b w → Accounted w
  AfterRound-Accounted true w h = h
  AfterRound-Accounted false w h = h.0

module _ {R P M V : Type 0} (pq : Libpq P) (typecast : Typecast P M V) where
  yield_rows-Idle :
      (yielder : Yielder R M V) (ntuples nfields : ℕ) (w : Streaming P M)
      → Accounted w
      → Settles Accounted (λ _. Idle) (yield_rows pq typecast yielder ntuples nfields w)
  unfolding yield_rows bind_copy copy_result
  yield_rows-Idle (hash block) ntuples nfields w h =
      Settles-then_do Accounted (λ _. Accounted) (λ _. Idle)
        (hash_rows pq typecast block ntuples 0 w) _
        (hash_rows-Accounted pq typecast block ntuples 0 w h) (λ _ w' h'. clear_self-Idle w' h')
  yield_rows-Idle (array block) ntuples nfields w h =
      Settles-then_do Accounted (λ _. Accounted) (λ _. Idle)
        (array_rows typecast block nfields ntuples 0 w) _
        (array_rows-Accounted pq typecast block nfields ntuples 0 w h)
        (λ _ w' h'. clear_self-Idle w' h')
  yield_rows-Idle (tuple ref block) ntuples nfields w (n, a) =
      let r = tuple_rows pq ref block ntuples 0 (copy_result pq w.self).0 in
      let kept : r.1.pgresult ≡ w.self.pgresult =
        (tuple_rows-SameOwner V pq ref block ntuples 0 (copy_result pq w.self).0
          (copy_result pq w.self).0 (same_owner (copy_result pq w.self).0)).0 in
      settled r.0 _ (
        (
          λ q. omega (
            arith,
            n q,
            count-append q (held r.1) (flat_map held w.copies),
            ap (λ o. count q (held_of o)) kept,
          ),
          a,
        ),
        refl,
      )

  same_fields-Idle :
      (yielder : Yielder R M V) (nfields : ℕ) (p : P) (w : Streaming P M)
      → Accounted w
      → Settles Accounted (λ _. Idle) (same_fields pq typecast yielder nfields p w)
  unfolding same_fields
  same_fields-Idle yielder nfields p w h =
      if_intro (Settles Accounted (λ _. Idle)) (not (nfields == pq.nfields p))
        (λ _. (clear_self-Idle w h).0) (λ _. yield_rows-Idle yielder (pq.ntuples p) nfields w h)

  goes_on :
      (yielder : Yielder R M V) (nfields : ℕ) (p : P) (w : Streaming P M)
      → Accounted w
      → Settles Accounted AfterRound
          (then_do (same_fields pq typecast yielder nfields p w) (λ _ w'. (ok false, w')))
  goes_on yielder nfields p w h =
      Settles-then_do Accounted (λ _. Idle) AfterRound (same_fields pq typecast yielder nfields p w)
        _ (same_fields-Idle yielder nfields p w h) (λ _ w' h'. h')

  round-Accounted :
      (s : Status) (yielder : Yielder R M V) (nfields : ℕ) (p : P) (w : Streaming P M)
      → Accounted w
      → Settles Accounted AfterRound (round pq typecast s yielder nfields p w)
  unfolding round
  round-Accounted tuples_ok yielder nfields p w h =
      ended (pq.ntuples p == 0) RubyError.invalid_status w h
  round-Accounted command_ok yielder nfields p w h =
      ended (pq.ntuples p == 0) RubyError.invalid_status w h
  round-Accounted failed yielder nfields p w h = h
  round-Accounted single_tuple yielder nfields p w h = goes_on yielder nfields p w h
  round-Accounted tuples_chunk yielder nfields p w h = goes_on yielder nfields p w h
  round-Accounted other_ok yielder nfields p w h = goes_on yielder nfields p w h

  stream-Accounted :
      (yielder : Yielder R M V) (nfields : ℕ) (coming : List P) (p : P) (w : Streaming P M)
      → Accounted w
      → Accounted (stream pq typecast yielder nfields coming p w).1
  unfolding stream
  stream-Accounted yielder nfields [] p w h =
      state-Settles Accounted (λ _. Accounted) (stream pq typecast yielder nfields [] p w)
        (λ _ s h. h)
        (Settles-then_do Accounted AfterRound (λ _. Accounted)
          (round pq typecast (pq.status p) yielder nfields p w) _
          (round-Accounted (pq.status p) yielder nfields p w h)
          (λ b w' h'. last b w' (AfterRound-Accounted b w' h')))
    where
      last :
          (b : Bool) (w' : Streaming P M)
          → Accounted w'
          → Settles Accounted
              (λ _. Accounted)
              (
                let o : Outcome (Unit {0}) =
                      if b then ok tt else raises RubyError.no_result_error in
                    o,
                w',
              )
      last true w' h = h
      last false w' h = h
  stream-Accounted yielder nfields (next ∷ coming) p w h =
      state-Settles Accounted (λ _. Accounted)
        (stream pq typecast yielder nfields (next ∷ coming) p w) (λ _ s h. h)
        (Settles-then_do Accounted AfterRound (λ _. Accounted)
          (round pq typecast (pq.status p) yielder nfields p w) _
          (round-Accounted (pq.status p) yielder nfields p w h)
          (after (stream-Accounted yielder nfields coming next)))
    where
      after :
          ((w' : Streaming P M)
            → Accounted w'
            → Accounted (stream pq typecast yielder nfields coming next w').1)
          → (b : Bool) (w' : Streaming P M) → AfterRound b w'
          → Settles Accounted
              (λ _. Accounted)
              (let c : Call (Streaming P M) (Unit {0}) = elim b [
                | true ↦ (ok tt, w')
                | false ↦ stream pq typecast yielder nfields coming next (arrive next w')
              ] in
                c)
      after ih true w' h' = h'
      after ih false w' h' =
          Settles-state Accounted (stream pq typecast yielder nfields coming next (arrive next w'))
            (ih (arrive next w') (arrive-Accounted next w' h'))

  -- Streaming leaks no libpq result and frees none twice: however it ends, by its last result, by an
  -- error of the server or an exception of a block, each one that was received is held by one
  -- object or was freed once, for each of the three ways to yield, if that was so before.
  pub stream_any-Accounted :
      (yielder : Yielder R M V) (coming : List P) (w : Streaming P M)
      → Accounted w
      → Accounted (stream_any pq typecast yielder coming w).1
  unfolding stream_any
  stream_any-Accounted yielder coming w h =
      if_intro (λ (c : Call (Streaming P M) (Unit {0})). Accounted c.1) w.self.frozen (λ _. h)
        (λ _.
          given_state Accounted (pgresult_get w.self) w _ h
            (λ p. stream-Accounted yielder (pq.nfields p) coming p w h))
