-- ===== src/Stream/SameOwner.antt =====
-- Operations on a result (ext/pg_result.c) that leave the owner of its libpq result as it is.
use ruby_pg.Common.{
  ℕ, Option, none, some, List, [], given_state, then_do_state, below?, ℤ, num2int, ◌≡◌, refl, ◌∙◌,
}
use ruby_pg.Result.{
  Libpq, FieldName, Result, Typecast, pgresult_get, name_columns, init_names_of, init_fnames,
  init_map_of, ensure_init_for_tuple,
}
use ruby_pg.Result.Rows.{aref_row, result_aref}
use ruby_pg.Tuple.Access.{tuple_at, result_tuple}

module _ {P M : Type 0} where
  -- The object keeps its libpq result and the duty to free it.
  abbrev pub SameOwner : Result P M → Result P M → Type 0
  SameOwner this s = (s.pgresult ≡ this.pgresult) × (s.autoclear ≡ this.autoclear)

  pub same_owner : (this : Result P M) → SameOwner this this
  same_owner this = (refl, refl)

  pub SameOwner-trans : (a b c : Result P M) → SameOwner a b → SameOwner b c → SameOwner a c
  SameOwner-trans a b c p q = (q.0 ∙ p.0, q.1 ∙ p.1)

module _ {P M : Type 0} (pq : Libpq P) where
  pub init_names_of-SameOwner :
      (n : Option ℕ) (p : P) (this : Result P M) → SameOwner this (init_names_of pq n p this).1
  unfolding init_names_of
  init_names_of-SameOwner (some n) p this = same_owner this
  init_names_of-SameOwner none p this =
      given_state (SameOwner this) (name_columns pq this p (pq.nfields p) 0 []) this _
        (same_owner this) (λ names. (refl, refl))

  pub init_fnames-SameOwner : (this : Result P M) → SameOwner this (init_fnames pq this).1
  unfolding init_fnames
  init_fnames-SameOwner this =
      given_state (SameOwner this) (pgresult_get this) this _ (same_owner this)
        (λ p. init_names_of-SameOwner this.nfields p this)

  pub init_map_of-SameOwner :
      (m : Option (List (FieldName × ℕ))) (this : Result P M)
      → SameOwner this (init_map_of pq m this).1
  unfolding init_map_of
  init_map_of-SameOwner (some m) this = same_owner this
  init_map_of-SameOwner none this =
      then_do_state (SameOwner this) (init_fnames pq this) _ (init_fnames-SameOwner this)
        (λ _ s h. h)

  pub result_aref-SameOwner :
      {V : Type 0} (typecast : Typecast P M V) (this : Result P M) (i : ℤ)
      → SameOwner this (result_aref pq typecast this i).1
  unfolding result_aref
  result_aref-SameOwner typecast this i =
      given_state (SameOwner this) (pgresult_get this) this _ (same_owner this) (λ p.
        given_state (SameOwner this) (num2int i) this _ (same_owner this) (λ i.
          then_do_state (SameOwner this) (init_fnames pq this) _ (init_fnames-SameOwner this)
            (λ _ s h. row_of (below? (pq.ntuples p) i) s h)))
    where
      row_of :
          (b : Option ℕ) (s : Result P M)
          → SameOwner this s
          → SameOwner this (aref_row typecast b s).1
      row_of none s h = h
      row_of (some row) s h = h

  pub result_tuple-SameOwner :
      {R : Type 0} (V : Type 0) (ref : R) (this : Result P M) (i : ℤ)
      → SameOwner this (result_tuple {V = V} pq ref this i).1
  unfolding result_tuple tuple_at ensure_init_for_tuple
  result_tuple-SameOwner V ref this i =
      given_state (SameOwner this) (num2int i) this _ (same_owner this) (λ i.
        given_state (SameOwner this) (pgresult_get this) this _ (same_owner this)
          (λ p. row_of (below? (pq.ntuples p) i)))
    where
      row_of : (b : Option ℕ) → SameOwner this (tuple_at {V = V} pq ref b this).1
      row_of none = same_owner this
      row_of (some row) =
          then_do_state (SameOwner this) (ensure_init_for_tuple pq this) _
            (given_state (SameOwner this) (pgresult_get this) this _ (same_owner this)
              (λ p. init_map_of-SameOwner this.field_map this))
            (λ _ s h. h)
