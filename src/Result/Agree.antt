-- ===== src/Result/Agree.antt =====
-- The ways to read a result agree: `values`, `tuple_values`, `getvalue` and `column_values` of
-- ext/pg_result.c give the same cells.
use ruby_pg.Common.{
  ℕ, ◌<◌, ◌^◌, some, List, length, get_elem?, ok, pos, num2int-pos, below?-pos, lt→leb-false,
  gather, length-gather, gather-entry, gather-all, ◌≡◌, ◌∙◌, arith,
}
use ruby_pg.Result.{Typecast, Libpq, Result, pgresult_get}
use ruby_pg.Result.Rows.{cell, row_values, values, tuple_values, getvalue, column_values}

module _ {P M V : Type 0} (pq : Libpq P) (typecast : Typecast P M V) (this : Result P M) {p : P}
    (open_result : this.pgresult ≡ some p) where
  got : pgresult_get this ≡ ok p
  got = rw open_result

  pub tuple_values-pos :
      (i : ℕ)
      → i < 2 ^ 31
      → i < pq.ntuples p
      → tuple_values pq typecast this (pos i) ≡ row_values typecast this (pq.nfields p) i
  unfolding tuple_values
  tuple_values-pos i int lt = ground (arith, num2int-pos i int, got, below?-pos (pq.ntuples p) i lt)

  getvalue-pos :
      (i j : ℕ)
      → i < 2 ^ 31
      → j < 2 ^ 31
      → i < pq.ntuples p
      → j < pq.nfields p
      → getvalue pq typecast this (pos i) (pos j) ≡ cell typecast this (pos i) (pos j)
  unfolding getvalue
  getvalue-pos i j int int' lt lt' = ground (
    arith,
    got,
    num2int-pos i int,
    num2int-pos j int',
    below?-pos (pq.ntuples p) i lt,
    below?-pos (pq.nfields p) j lt',
  )

  -- A row of `values` holds the cells of its row.
  row_values-cell :
      (i : ℕ) {row : List V}
      → row_values typecast this (pq.nfields p) i ≡ ok row
      → (j : ℕ) → j < pq.nfields p
      → (v : V) × (get_elem? row j ≡ some v) × (cell typecast this (pos i) (pos j) ≡ ok v)
  unfolding row_values
  row_values-cell i h j lt =
      gather-entry (λ f. cell typecast this (pos i) (pos f)) (pq.nfields p) h j lt

  values-rows :
      {rows : List (List V)}
      → values pq typecast this ≡ ok rows
      → gather (row_values typecast this (pq.nfields p)) (pq.ntuples p) 0 ≡ ok rows
  unfolding values
  values-rows h = rw got at h

  -- Where `values` reads the whole result, it has a list for each row, `tuple_values` reads that
  -- list for the row, and `getvalue` reads each of its members.
  pub values-tuple_values :
      {rows : List (List V)}
      → values pq typecast this ≡ ok rows
      → (i j : ℕ) → i < pq.ntuples p
      → i < 2 ^ 31
      → j < pq.nfields p
      → j < 2 ^ 31
      → (row : List V) × (v : V) × (length rows ≡ pq.ntuples p)
        × (get_elem? rows i ≡ some row)
        × (tuple_values pq typecast this (pos i) ≡ ok row)
        × (get_elem? row j ≡ some v)
        × (getvalue pq typecast this (pos i) (pos j) ≡ ok v)
  values-tuple_values h i j lt int lt' int' =
      let (row, at, r) = gather-entry _ (pq.ntuples p) (values-rows h) i lt in
      let (v, a, c) = row_values-cell i r j lt' in
      (
        row,
        v,
        length-gather _ (pq.ntuples p) 0 (values-rows h),
        at,
        tuple_values-pos i int lt ∙ r,
        a,
        getvalue-pos i j int int' lt lt' ∙ c,
      )

  column_values-pos :
      (j : ℕ)
      → j < 2 ^ 31
      → j < pq.nfields p
      → column_values pq typecast this (pos j)
        ≡ gather (λ i. cell typecast this (pos i) (pos j)) (pq.ntuples p) 0
  unfolding column_values
  column_values-pos j int lt = rw (num2int-pos j int, got, lt→leb-false j (pq.nfields p) lt)

  -- Where `values` reads the whole result, `column_values` gives for each column a list that has
  -- for each row the member that the row has there.
  pub column_values-values :
      {rows : List (List V)}
      → values pq typecast this ≡ ok rows
      → (i j : ℕ) → i < pq.ntuples p
      → j < pq.nfields p
      → j < 2 ^ 31
      → (vs row : List V) × (v : V) × (column_values pq typecast this (pos j) ≡ ok vs)
        × (length vs ≡ pq.ntuples p)
        × (get_elem? rows i ≡ some row)
        × (get_elem? row j ≡ some v)
        × (get_elem? vs i ≡ some v)
  column_values-values {rows} h i j l lt int =
      let entry = λ (i : ℕ) (l : i < pq.ntuples p).
        gather-entry (row_values typecast this (pq.nfields p)) (pq.ntuples p) (values-rows h) i l in
      let (vs, c) =
        gather-all (λ i. cell typecast this (pos i) (pos j)) (pq.ntuples p)
          (λ i l.
            let (row, at, r) = entry i l in let (v, a, e) = row_values-cell i r j lt in (v, e)) in
      let (row, at, r) = entry i l in
      let (v, a, e) = row_values-cell i r j lt in
      let (w, b, f) = gather-entry _ (pq.ntuples p) c i l in
      (
        vs,
        row,
        v,
        column_values-pos j int lt ∙ c,
        length-gather _ (pq.ntuples p) 0 c,
        at,
        a,
        rw (let q : v ≡ w = cc in q) b,
      )
