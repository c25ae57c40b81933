-- ===== src/Result/Invariant.antt =====
-- The methods of ext/pg_result.c that change a result keep its caches in step.
use ruby_pg.Common.{
  ℕ, Option, none, some, List, if_intro, Outcome, raises, fault, ok-ne-fault, RubyError,
  and_then-ne-fault, Call, then_do, given, Keeps, Keeps-ignore, Keeps-intro, Ensures-then_do,
  Ensures-given, true, ignore, ℤ, pos, num2int, num2int-ne-fault, below?, Option-cases, ◌≡◌, ◌≢◌,
  inl, inr, refl, ◌∙◌, ap, sym, subst, [], ◌∷◌, length, ◌+◌,
}
use ruby_pg.Common.Hash.{aset, index_names}
use ruby_pg.Result.{
  Libpq, FieldName, field_names_eql, Result, Typecast, CastReturns, pgresult_get,
  pgresult_get-ne-fault, open_or_raise, forget, result_clear, type_map_set, init_fnames,
  ensure_init_for_tuple, result_freeze, fields,
}
use ruby_pg.Result.Rows.{cell, fill_hash, aref_row, result_aref}
use ruby_pg.Result.Sound.{IsSound, init_fnames-lem, ensure_init_for_tuple-lem}

-- The methods, with their arguments.
pub data Update (P M : Type 0) : Type 0 where
  clear freeze field_list : Update P M
  row_hash : ℤ → Update P M
  set_type_map : (M → Result P M → Outcome M) → M → Update P M

-- The type map fits or raises.
abbrev pub FitReturns : {P M : Type 0} → Update P M → Type 0
FitReturns {P} {M} (Update.set_type_map fit tm) = (this : Result P M) → fit tm this ≢ fault
FitReturns Update.clear = Unit
FitReturns Update.freeze = Unit
FitReturns Update.field_list = Unit
FitReturns (Update.row_hash i) = Unit

module _ {P M V : Type 0} (pq : Libpq P) (typecast : Typecast P M V) where
  unfoldable pub run : Update P M → Result P M → Call (Result P M) (Unit {0})
  run Update.clear this = ignore (result_clear this)
  run Update.freeze this = result_freeze pq this
  run Update.field_list this = ignore (fields pq this)
  run (Update.row_hash index) this = ignore (result_aref pq typecast this index)
  run (Update.set_type_map fit tm) this = ignore (type_map_set fit tm this)

module _ {P M : Type 0} (pq : Libpq P) where
  abbrev Fine : {A : Type 0} → Call (Result P M) A → Type 0
  Fine = Keeps (IsSound pq)

  cleared :
      {A : Type 0} (this : Result P M) (f : P → Call (Result P M) A)
      → this.pgresult ≡ none
      → given (pgresult_get this) this f ≡ (raises RubyError.pg_error, this)
  cleared this f o = ap (λ g. given (open_or_raise g) this f) o

  -- A step that fills caches leaves a sound result, or finds the result cleared.
  init_fnames-Fine : (this : Result P M) → IsSound pq this → Fine (init_fnames pq this)
  unfolding init_fnames
  init_fnames-Fine this i = elim (Option-cases this.pgresult) [
    | inl gone ↦ subst Fine (sym (cleared this _ gone)) i
    | inr (p, o) ↦ let (s, e, j, same, n, f) = init_fnames-lem pq this p o i in subst Fine (sym e) j
  ]

  ensure_init_for_tuple-Fine :
      (this : Result P M) → IsSound pq this → Fine (ensure_init_for_tuple pq this)
  unfolding ensure_init_for_tuple
  ensure_init_for_tuple-Fine this i = elim (Option-cases this.pgresult) [
    | inl gone ↦ subst Fine (sym (cleared this _ gone)) i
    | inr (p, o) ↦
        let (s, e, j, same, n, l, m) = ensure_init_for_tuple-lem pq this p o i in
        subst Fine (sym e) j
  ]

  Fine-then_do :
      {A B : Type 0} (m : Call (Result P M) A) (f : A → Result P M → Call (Result P M) B)
      → Fine m
      → ((a : A) (s : Result P M) → IsSound pq s → Fine (f a s))
      → Fine (then_do m f)
  Fine-then_do m f h g = Ensures-then_do (IsSound pq) (λ _. IsSound pq) (λ _. IsSound pq) m f h g

  Fine-given :
      {A B : Type 0} (m : Outcome A) (this : Result P M) (f : A → Call (Result P M) B)
      → m ≢ fault
      → IsSound pq this
      → ((a : A) → Fine (f a))
      → Fine (given m this f)
  Fine-given m this f h i g = Ensures-given (IsSound pq) (λ _. IsSound pq) m this f h i g

  forget-IsSound : (this : Result P M) → IsSound pq (forget this)
  forget-IsSound this = record { fits = λ p o. cc; named = λ p n o e. cc; mapped = λ p m o e. cc }

  touched :
      (this s : Result P M)
      → s.pgresult ≡ this.pgresult
      → s.nfields ≡ this.nfields
      → s.field_map ≡ this.field_map
      → s.fnames ≡ this.fnames
      → s.room ≡ this.room
      → IsSound pq this
      → IsSound pq s
  touched this s a b c d e i = record {
    fits = λ p o. i.fits p (sym a ∙ o) ∙ sym e;
    named =
        λ p n o q. let (x, y) = i.named p n (sym a ∙ o) (sym b ∙ q) in (x ∙ sym e, ap length d ∙ y);
    mapped = λ p m o q.
        let (x, y) = i.mapped p m (sym a ∙ o) (sym c ∙ q) in
        (b ∙ x ∙ ap some (sym e), y ∙ ap (λ f. index_names field_names_eql f 0 []) (sym d));
  }

module _ {P M V : Type 0} (pq : Libpq P) (typecast : Typecast P M V)
    (returns : CastReturns typecast) where
  fill_hash-ne-fault :
      (this : Result P M) (row : ℕ) (names : List FieldName) (field : ℕ)
      (tuple : List (FieldName × V))
      → fill_hash typecast this row names field tuple ≢ fault
  unfolding fill_hash
  fill_hash-ne-fault this row [] field tuple = ok-ne-fault
  fill_hash-ne-fault this row (name ∷ names) field tuple =
      and_then-ne-fault (cell typecast this (pos row) (pos field)) _
        (returns this.typemap this (pos row) (pos field))
        (λ v. fill_hash-ne-fault this row names (field + 1) (aset field_names_eql name v tuple))

  aref_row-Fine : (b : Option ℕ) (s : Result P M) → IsSound pq s → Fine pq (aref_row typecast b s)
  aref_row-Fine none s i = i
  aref_row-Fine (some row) s i =
      Keeps-intro (IsSound pq) (aref_row typecast (some row) s)
        (fill_hash-ne-fault s row s.fnames 0 []) i

  -- `clear`, `freeze`, `fields`, `[]` and `type_map=` keep the caches of a result in step, write no
  -- name behind the room that was allocated, and make no undefined access, on a cleared result
  -- too, where type maps return or raise.
  pub run-Keeps :
      (u : Update P M) (this : Result P M)
      → IsSound pq this
      → FitReturns u
      → Keeps (IsSound pq) (run pq typecast u this)
  unfolding run result_clear result_freeze fields result_aref type_map_set
  run-Keeps Update.clear this i f =
      Keeps-ignore (IsSound pq) (result_clear this)
        (if_intro (Fine pq) this.frozen (λ _. i) (λ _. forget-IsSound pq this))
  run-Keeps Update.freeze this i f =
      Fine-then_do pq (ensure_init_for_tuple pq this) _ (ensure_init_for_tuple-Fine pq this i)
        (λ _ s j. touched pq s (record s { frozen = true }) refl refl refl refl refl j)
  run-Keeps Update.field_list this i f =
      Keeps-ignore (IsSound pq) (fields pq this)
        (Fine-then_do pq (init_fnames pq this) _ (init_fnames-Fine pq this i) (λ _ s j. j))
  run-Keeps (Update.row_hash index) this i f =
      Keeps-ignore (IsSound pq) (result_aref pq typecast this index) (
        Fine-given pq (pgresult_get this) this _ (pgresult_get-ne-fault this) i (λ p.
          Fine-given pq (num2int index) this _ (num2int-ne-fault index) i (λ n.
            Fine-then_do pq (init_fnames pq this) _ (init_fnames-Fine pq this i)
              (λ _ s j. aref_row-Fine (below? (pq.ntuples p) n) s j))))
  run-Keeps (Update.set_type_map fit tm) this i f =
      Keeps-ignore (IsSound pq) (type_map_set fit tm this) (
        if_intro (Fine pq) this.frozen (λ _. i)
          (λ _.
            Fine-given pq (fit tm this) this _ (f this) i
              (λ t. touched pq this (record this { typemap = t }) refl refl refl refl refl i)))
