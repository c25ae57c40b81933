-- ===== src/Result/Sound.antt =====
-- The caches of a result of ext/pg_result.c: its names fit the room that was allocated for them, and
-- its Hash is made of its names.
use ruby_pg.Common.{
  ℕ, zero, suc, ◌+◌, ◌≤◌, lt→ltb, Option, none, some, List, [], ◌∷◌, ◌++◌, length, length-append,
  ok, Call, then_do, given, ◌≡◌, refl, ◌∙◌, ap, sym, arith,
}
use ruby_pg.Common.Hash.{index_names}
use ruby_pg.Result.{
  Libpq, FieldName, field_names_eql, Result, open_or_raise, pgresult_get, cstr_to_sym, name_columns,
  init_names_of, init_fnames, init_map_of, ensure_init_for_tuple,
}

module _ {P M : Type 0} (pq : Libpq P) where
  -- Of a result that is not cleared.
  pub record IsSound (this : Result P M) : Type 0 where
    pub fits : (p : P) → this.pgresult ≡ some p → pq.nfields p ≡ this.room
    pub named :
        (p : P) (n : ℕ)
        → this.pgresult ≡ some p
        → this.nfields ≡ some n
        → (n ≡ this.room) × (length this.fnames ≡ n)
    pub mapped :
        (p : P) (m : List (FieldName × ℕ))
        → this.pgresult ≡ some p
        → this.field_map ≡ some m
        → (this.nfields ≡ some this.room) × (m ≡ index_names field_names_eql this.fnames 0 [])

  name_columns-ok :
      (this : Result P M) (p : P) (left i : ℕ) (names : List FieldName)
      → i + left ≤ this.room
      → (ns : List FieldName) × (name_columns pq this p left i names ≡ ok ns)
        × (length ns ≡ length names + left)
  unfolding name_columns
  name_columns-ok this p zero i names le = (names, refl, omega arith)
  name_columns-ok this p (suc left) i names le =
      let more = names ++ cstr_to_sym this.symbols (pq.fname p i) ∷ [] in
      let (ns, q, l) = name_columns-ok this p left (i + 1) more (omega arith) in
      (
        ns,
        rw (lt→ltb i this.room (omega arith)) q,
        omega (arith, l, length-append {0} names (cstr_to_sym this.symbols (pq.fname p i) ∷ [])),
      )

  -- What stays the same when caches are filled.
  pub record SameResult (this s : Result P M) : Type 0 where
    pub same_pgresult : s.pgresult ≡ this.pgresult
    pub same_typemap : s.typemap ≡ this.typemap
    pub same_room : s.room ≡ this.room

  opened :
      {A : Type 0} (this : Result P M) (p : P) (f : P → Call (Result P M) A)
      → this.pgresult ≡ some p
      → given (pgresult_get this) this f ≡ f p
  opened this p f o = ap (λ g. given (open_or_raise g) this f) o

  -- The names are filled once, without a store behind their room.
  pub init_fnames-lem :
      (this : Result P M) (p : P)
      → this.pgresult ≡ some p
      → IsSound this
      → (s : Result P M) × (init_fnames pq this ≡ (ok tt, s))
        × IsSound s
        × SameResult this s
        × (s.nfields ≡ some (pq.nfields p))
        × (s.field_map ≡ this.field_map)
  unfolding init_fnames
  init_fnames-lem this p o i = go this.nfields refl
    where
      start : (n : Option ℕ) → this.nfields ≡ n → init_fnames pq this ≡ init_names_of pq n p this
      start n q =
          opened this p (λ p. init_names_of pq this.nfields p this) o
          ∙ ap (λ n. init_names_of pq n p this) q

      go :
          (n : Option ℕ)
          → this.nfields ≡ n
          → (s : Result P M) × (init_fnames pq this ≡ (ok tt, s))
            × IsSound s
            × SameResult this s
            × (s.nfields ≡ some (pq.nfields p))
            × (s.field_map ≡ this.field_map)
      go (some n) q = (
        this,
        start (some n) q,
        i,
        record { same_pgresult = refl; same_typemap = refl; same_room = refl },
        q ∙ ap some ((i.named p n o q).0 ∙ sym (i.fits p o)),
        refl,
      )
      go none q =
          let (ns, r, l) = name_columns-ok this p (pq.nfields p) 0 [] (omega (arith, i.fits p o)) in
          (
            record this { nfields = some (pq.nfields p); fnames = ns },
            start none q
                ∙ ap
                    (λ m. given m this (λ names.
                      (ok tt, record this { nfields = some (pq.nfields p); fnames = names })))
                    r,
            record {
              fits = i.fits;
              named = λ p' n o' e. (
                let z : pq.nfields p ≡ n = cc in sym z ∙ i.fits p o,
                l ∙ (let z : pq.nfields p ≡ n = cc in (omega (arith, z))),
              );
              mapped = λ p' m o' e.
                  let none_some : none ≡ some this.room = sym q ∙ (i.mapped p' m o' e).0 in
                  absurd (differ none_some);
            },
            record { same_pgresult = refl; same_typemap = refl; same_room = refl },
            refl,
            refl,
          )
        where
          differ : none ≡ some this.room → ⊥
          differ q = cc

  -- Creating a tuple finds the names and the Hash in step.
  pub ensure_init_for_tuple-lem :
      (this : Result P M) (p : P)
      → this.pgresult ≡ some p
      → IsSound this
      → (s : Result P M) × (ensure_init_for_tuple pq this ≡ (ok tt, s))
        × IsSound s
        × SameResult this s
        × (s.nfields ≡ some (pq.nfields p))
        × (length s.fnames ≡ pq.nfields p)
        × (s.field_map ≡ some (index_names field_names_eql s.fnames 0 []))
  unfolding ensure_init_for_tuple
  ensure_init_for_tuple-lem this p o i = go this.field_map refl
    where
      start :
          (m : Option (List (FieldName × ℕ)))
          → this.field_map ≡ m
          → ensure_init_for_tuple pq this ≡ init_map_of pq m this
      start m q =
          opened this p (λ p. init_map_of pq this.field_map this) o
          ∙ ap (λ m. init_map_of pq m this) q

      go :
          (m : Option (List (FieldName × ℕ)))
          → this.field_map ≡ m
          → (s : Result P M) × (ensure_init_for_tuple pq this ≡ (ok tt, s))
            × IsSound s
            × SameResult this s
            × (s.nfields ≡ some (pq.nfields p))
            × (length s.fnames ≡ pq.nfields p)
            × (s.field_map ≡ some (index_names field_names_eql s.fnames 0 []))
      go (some m) q =
          let (n, e) = i.mapped p m o q in
          (
            this,
            start (some m) q,
            i,
            record { same_pgresult = refl; same_typemap = refl; same_room = refl },
            n ∙ ap some (sym (i.fits p o)),
            (i.named p this.room o n).1 ∙ sym (i.fits p o),
            q ∙ ap some e,
          )
      go none q =
          let (s, r, j, same, n, f) = init_fnames-lem this p o i in
          let o' : s.pgresult ≡ some p = same.same_pgresult ∙ o in
          (
            record s { field_map = some (index_names field_names_eql s.fnames 0 []) },
            start none q
                ∙ ap
                    (λ c. then_do c (λ _ s. (
                      ok tt,
                      record s { field_map = some (index_names field_names_eql s.fnames 0 []) },
                    )))
                    r,
            record {
              fits = j.fits;
              named = j.named;
              mapped = λ p' m o' e. (
                n ∙ ap some (j.fits p (same.same_pgresult ∙ o)),
                let z : index_names field_names_eql s.fnames 0 [] ≡ m = cc in sym z,
              );
            },
            record {
              same_pgresult = same.same_pgresult;
              same_typemap = same.same_typemap;
              same_room = same.same_room;
            },
            n,
            (j.named p (pq.nfields p) o' n).1,
            refl,
          )
