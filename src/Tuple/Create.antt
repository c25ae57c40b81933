-- ===== src/Tuple/Create.antt =====
-- A tuple taken from a result: `pgresult_tuple` of ext/pg_result.c with `pg_tuple_new` of
-- ext/pg_tuple.c, read by the methods of the tuple and by those of the result.
use ruby_pg.Common.{
  ℕ, ◌<◌, ◌^◌, not, ◌==◌, none, some, List, [], length, take, take_all, replicate, length-replicate,
  Call, subst, get_elem?-replicate, if◌then◌else◌, ok, and_then, then_do, given, gather_cong, pos,
  num2int-pos, below?, below?-pos, ◌≡◌, inl, refl, ◌∙◌, ap, sym, arith,
}
use ruby_pg.Common.Hash.{index_names}
use ruby_pg.Result.{
  Libpq, FieldName, field_names_eql, Result, Typecast, pgresult_get, open_or_raise,
}
use ruby_pg.Result.Sound.{SameResult, ensure_init_for_tuple-lem}
use ruby_pg.Result.Sound as Sound
use ruby_pg.Result.Rows as Rows
use ruby_pg.Result.Agree.{tuple_values-pos}
use ruby_pg.Tuple.{Tuple, cast_field}
use ruby_pg.Tuple.View.{view, view-read, read}
use ruby_pg.Tuple.Sound.{IsSound}
use ruby_pg.Tuple.Access.{tuple_of, tuple_new, tuple_at, result_tuple, tuple_values}
use ruby_pg.Tuple.Reads.{tuple_values-gather}

module _ {R P M V : Type 0} (pq : Libpq P) (r : R) where
  -- The tuple that is built.
  pub fresh : Result P M → List (FieldName × ℕ) → ℕ → ℕ → Tuple R M FieldName V
  fresh s m n row = record {
    result = some r;
    typemap = some s.typemap;
    field_map = m;
    row_num = pos row;
    num_fields = n;
    values = replicate n none;
    field_names = if not (n == length m) then some (take n s.fnames) else none;
  }

  fresh-IsSound :
      (s : Result P M) (n row : ℕ)
      → length s.fnames ≡ n
      → IsSound field_names_eql (fresh s (index_names field_names_eql s.fnames 0 []) n row)
  unfolding fresh
  fresh-IsSound s n row l = record {
    names = s.fnames;
    counted = l;
    slots = length-replicate n none;
    mapped = refl;
    named =
        ap
          (λ ns.
            if not (n == length (index_names field_names_eql s.fnames 0 [])) then some ns else none)
          (take_all n s.fnames l);
    backed = inl (r, s.typemap, refl, refl);
  }

  pub result_tuple-fresh :
      (this : Result P M) (p : P)
      → this.pgresult ≡ some p
      → Sound.IsSound pq this
      → (row : ℕ) → row < pq.ntuples p
      → row < 2 ^ 31
      → (s : Result P M) × (result_tuple {V = V} pq r this (pos row)
          ≡ (ok (fresh s (index_names field_names_eql s.fnames 0 []) (pq.nfields p) row), s))
        × Sound.IsSound pq s
        × SameResult pq this s
        × (length s.fnames ≡ pq.nfields p)
        × (s.field_map ≡ some (index_names field_names_eql s.fnames 0 []))
  unfolding result_tuple tuple_new fresh
  result_tuple-fresh this p o i row lt int =
      let (s, e, j, same, n, l, m) = ensure_init_for_tuple-lem pq this p o i in
      (
        s,
        ap
              (λ z. given z this (λ i.
                given (pgresult_get this) this (λ p. tuple_at pq r (below? (pq.ntuples p) i) this)))
              (num2int-pos row int)
            ∙ ap
                (λ g.
                  given (open_or_raise g) this
                    (λ p. tuple_at pq r (below? (pq.ntuples p) (pos row)) this))
                o
            ∙ ap (λ b. tuple_at pq r b this) (below?-pos (pq.ntuples p) row lt)
            ∙ ap (λ c. then_do c (λ _ s. (tuple_new r s row, s))) e
            ∙ ap (λ m. (tuple_of m s.nfields r s row, s)) m
            ∙ ap (λ n. (tuple_of (some (index_names field_names_eql s.fnames 0 [])) n r s row, s))
                n,
        j,
        same,
        l,
        m,
      )

  -- What a column of it reads as.
  fresh-view :
      (typecast : Typecast P M V) (heap : R → Result P M) (s : Result P M) (p : P)
      (m : List (FieldName × ℕ)) (n row col : ℕ)
      → heap r ≡ s
      → s.pgresult ≡ some p
      → col < n
      → view typecast heap (fresh s m n row) col ≡ Rows.cell typecast s (pos row) (pos col)
  unfolding fresh cast_field
  fresh-view typecast heap s p m n row col h o lt =
      view-read typecast heap (fresh s m n row) col
      ∙ ap (λ v. read v (cast_field typecast heap (fresh s m n row) col))
          (get_elem?-replicate n none col lt)
      ∙ ap (λ t. and_then (pgresult_get t) (λ p. typecast s.typemap t (pos row) (pos col))) h
      ∙ ap (λ g. and_then (open_or_raise g) (λ p. typecast s.typemap s (pos row) (pos col))) o

  tuple_values_parts :
      (typecast : Typecast P M V) (this : Result P M) (p : P)
      → this.pgresult ≡ some p
      → Sound.IsSound pq this
      → (row : ℕ) → row < pq.ntuples p
      → row < 2 ^ 31
      → (s : Result P M) × (t : Tuple R M FieldName V) × (result_tuple pq r this (pos row)
          ≡ (ok t, s))
        × Sound.IsSound pq s
        × IsSound field_names_eql t
        × ((heap : R → Result P M)
            → heap r ≡ s
            → (tuple_values typecast heap t).0 ≡ Rows.tuple_values pq typecast s (pos row))
  tuple_values_parts typecast this p o i row lt int =
      let (s, e, j, same, l, m) = result_tuple-fresh this p o i row lt int in
      let o' : s.pgresult ≡ some p = same.same_pgresult ∙ o in
      let t : Tuple R M FieldName V =
        fresh s (index_names field_names_eql s.fnames 0 []) (pq.nfields p) row in
      let sound : IsSound field_names_eql t = fresh-IsSound s (pq.nfields p) row l in
      (
        s,
        t,
        e,
        j,
        sound,
        λ heap h.
            tuple_values-gather typecast heap field_names_eql t sound
            ∙ unfold fresh Rows.row_values in
              (gather_cong (view typecast heap t) (λ col. Rows.cell typecast s (pos row) (pos col))
                (pq.nfields p) 0 (pq.nfields p) (omega arith)
                (λ col k.
                  fresh-view typecast heap s p (index_names field_names_eql s.fnames 0 [])
                    (pq.nfields p) row col h o' k))
              ∙ sym (tuple_values-pos pq typecast s o' row int lt),
      )

  -- Of a sound result that is not cleared, `tuple(row)` gives a sound tuple for each row, and fills
  -- the caches of the result; the tuple's `values` are then the result's `tuple_values(row)`, or
  -- the same exception.
  pub tuple_values-result_tuple :
      (typecast : Typecast P M V) (this : Result P M) (p : P)
      → this.pgresult ≡ some p
      → Sound.IsSound pq this
      → (row : ℕ) → row < pq.ntuples p
      → row < 2 ^ 31
      → (heap : R → Result P M) → heap r ≡ (result_tuple {V = V} pq r this (pos row)).1
      → (t : Tuple R M FieldName V) × (result_tuple pq r this (pos row) ≡ (ok t, heap r))
        × Sound.IsSound pq (heap r)
        × IsSound field_names_eql t
        × ((tuple_values typecast heap t).0 ≡ Rows.tuple_values pq typecast (heap r) (pos row))
  tuple_values-result_tuple typecast this p o i row lt int heap h =
      let (s, t, e, j, sound, values) = tuple_values_parts typecast this p o i row lt int in
      let q : heap r ≡ s = h ∙ ap (λ (m : Call (Result P M) (Tuple R M FieldName V)). m.1) e in
      (
        t,
        e ∙ ap (λ s. (ok t, s)) (sym q),
        subst (Sound.IsSound pq) (sym q) j,
        sound,
        values heap q ∙ ap (λ s. Rows.tuple_values pq typecast s (pos row)) (sym q),
      )
