-- ===== src/Tuple/Stale.antt =====
-- `tuple` within `stream_each_row` (ext/pg_result.c): `pgresult_clear` forgets the number of names
-- and keeps the Hash, so `ensure_init_for_tuple` does not fill the names again.
use ruby_pg.Common.{
  ℕ, ◌<◌, ◌^◌, none, some, List, [], ok, raises, RubyError, then_do, given, pos, num2int-pos,
  below?, below?-pos, ◌≡◌, ◌∙◌, ap,
}
use ruby_pg.Common.Hash.{index_names}
use ruby_pg.Result.{
  Libpq, FieldName, field_names_eql, Result, forget, pgresult_get, init_map_of,
  ensure_init_for_tuple,
}
use ruby_pg.Result.Sound as Sound
use ruby_pg.Tuple.{Tuple}
use ruby_pg.Tuple.Access.{tuple_of, tuple_new, tuple_at, result_tuple}
use ruby_pg.Tuple.Create.{fresh, result_tuple-fresh}

module _ {R P M : Type 0} (V : Type 0) (pq : Libpq P) (r : R) where
  -- The libpq result that the stream gives next.
  abbrev pub next_result : P → Result P M → Result P M
  next_result p s = record (forget s) { pgresult = some p }

  stale :
      (s : Result P M) (p : P) (m : List (FieldName × ℕ)) (row : ℕ)
      → s.field_map ≡ some m
      → row < pq.ntuples p
      → row < 2 ^ 31
      → result_tuple {V = V} pq r (next_result p s) (pos row)
        ≡ (raises RubyError.arg_error, next_result p s)
  unfolding result_tuple tuple_new tuple_at ensure_init_for_tuple init_map_of tuple_of
  stale s p m row e lt int =
      let t : Result P M = next_result p s in
      ap
        (λ z.
          given z t (λ i.
            given (pgresult_get t) t (λ p. tuple_at {V = V} pq r (below? (pq.ntuples p) i) t)))
        (num2int-pos row int)
      ∙ ap (λ b. tuple_at pq r b t) (below?-pos (pq.ntuples p) row lt)
      ∙ ap (λ m. then_do (init_map_of pq m t) (λ _ s'. (tuple_new r s' row, s'))) e
      ∙ ap (λ m. (tuple_of m none r t row, t)) e

  -- Of a sound result, `tuple` gives a tuple; when the result is then cleared and given the next
  -- libpq result, as `stream_each_row` does behind its block, `tuple` raises ArgumentError for
  -- every row of that one.
  pub result_tuple_stale :
      (this : Result P M) (p : P)
      → this.pgresult ≡ some p
      → Sound.IsSound pq this
      → (row : ℕ) → row < pq.ntuples p
      → row < 2 ^ 31
      → (p' : P) (row' : ℕ) → row' < pq.ntuples p'
      → row' < 2 ^ 31
      → (s : Result P M) × (t : Tuple R M FieldName V) × (result_tuple pq r this (pos row)
          ≡ (ok t, s))
        × (result_tuple {V = V} pq r (next_result p' s) (pos row')
            ≡ (raises RubyError.arg_error, next_result p' s))
  result_tuple_stale this p o i row lt int p' row' lt' int' =
      let (s, e, j, same, l, m) = result_tuple-fresh {V = V} pq r this p o i row lt int in
      (
        s,
        fresh pq r s (index_names field_names_eql s.fnames 0 []) (pq.nfields p) row,
        e,
        stale s p' (index_names field_names_eql s.fnames 0 []) row' m lt' int',
      )
