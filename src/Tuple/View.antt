-- ===== src/Tuple/View.antt =====
-- What a column of a tuple of ext/pg_tuple.c reads as, and that reading one column changes no other.
use ruby_pg.Common.{
  ℕ, Option, none, some, length, get_elem?, set, length-set, get_elem?-set_self,
  get_elem?-set_other, ◌==◌, Bool-cases, Outcome, ok, raises, fault, ◌≡◌, ◌≢◌, ◌⊎◌, inl, inr, refl,
  ◌∙◌, ap, sym, subst, arith,
}
use ruby_pg.Result.{Result, Typecast}
use ruby_pg.Tuple.{Tuple, value_or_cast, cast_field, materialize_field}

-- A value that is there, or one that is cast now.
abbrev pub read : {V : Type 0} → Option (Option V) → Outcome V → Outcome V
read none cast = fault
read (some none) cast = cast
read (some (some v)) cast = ok v

module _ {R P M N V : Type 0} (typecast : Typecast P M V) (heap : R → Result P M) where
  -- What reading a column gives.
  abbrev pub view : Tuple R M N V → ℕ → Outcome V
  view this col = (materialize_field typecast heap this col).0

  pub view-read :
      (this : Tuple R M N V) (col : ℕ)
      → view this col ≡ read (get_elem? this.values col) (cast_field typecast heap this col)
  unfolding materialize_field value_or_cast
  view-read this col = go (get_elem? this.values col) (cast_field typecast heap this col)
    where
      go : (o : Option (Option V)) (c : Outcome V) → (value_or_cast o c this col).0 ≡ read o c
      go none c = refl
      go (some (some v)) c = refl
      go (some none) (ok v) = refl
      go (some none) (raises e) = refl
      go (some none) fault = refl

  -- A value that is there is what the column reads as.
  pub view-there :
      (this : Tuple R M N V) (col : ℕ) {v : V}
      → get_elem? this.values col ≡ some (some v)
      → view this col ≡ ok v
  view-there this col at =
      view-read this col ∙ ap (λ o. read o (cast_field typecast heap this col)) at

  -- The tuple that the read leaves.
  pub materialize_field-cases :
      (this : Tuple R M N V) (col : ℕ)
      → ((materialize_field typecast heap this col).1 ≡ this)
        ⊎ ((v : V) × (get_elem? this.values col ≡ some none)
            × (cast_field typecast heap this col ≡ ok v)
            × ((materialize_field typecast heap this col).1
                ≡ record this { values = set this.values col (some v) }))
  unfolding materialize_field value_or_cast
  materialize_field-cases this col =
      go (get_elem? this.values col) (cast_field typecast heap this col) refl refl
    where
      go :
          (o : Option (Option V)) (c : Outcome V)
          → get_elem? this.values col ≡ o
          → cast_field typecast heap this col ≡ c
          → ((value_or_cast o c this col).1 ≡ this)
            ⊎ ((v : V) × (get_elem? this.values col ≡ some none)
                × (cast_field typecast heap this col ≡ ok v)
                × ((value_or_cast o c this col).1
                    ≡ record this { values = set this.values col (some v) }))
      go none c p q = inl refl
      go (some (some v)) c p q = inl refl
      go (some none) (ok v) p q = inr (v, p, q, refl)
      go (some none) (raises e) p q = inl refl
      go (some none) fault p q = inl refl

  -- A value is there.
  abbrev pub Materialized : Tuple R M N V → ℕ → Type 0
  Materialized this col = (v : V) × (get_elem? this.values col ≡ some (some v))

  -- It stays there when another column is read.
  pub Materialized-materialize_field :
      (this : Tuple R M N V) (c col : ℕ)
      → Materialized this col
      → Materialized (materialize_field typecast heap this c).1 col
  Materialized-materialize_field this c col (w, h) = elim (materialize_field-cases this c) [
    | inl same ↦ subst (λ s. Materialized s col) (sym same) (w, h)
    | inr (v, undef, cast, set_there) ↦
        subst (λ s. Materialized s col) (sym set_there)
          (w, get_elem?-set_other this.values c col (some v) (λ q. apart q undef) ∙ h)
  ]
    where
      apart : c ≡ col → get_elem? this.values c ≡ some none → ⊥
      apart q u = some_none (sym h ∙ subst (λ k. get_elem? this.values k ≡ some none) q u)
        where
          some_none : some (some w) ≡ some none → ⊥
          some_none e = cc

  -- Nothing but values that are read changes, and every column reads as before.
  pub record SameView (this s : Tuple R M N V) : Type 0 where
    pub same_result : s.result ≡ this.result
    pub same_typemap : s.typemap ≡ this.typemap
    pub same_row : s.row_num ≡ this.row_num
    pub same_map : s.field_map ≡ this.field_map
    pub same_count : s.num_fields ≡ this.num_fields
    pub same_names : s.field_names ≡ this.field_names
    pub same_length : length s.values ≡ length this.values
    pub same_view : (col : ℕ) → view s col ≡ view this col
    pub kept : (col : ℕ) → Materialized this col → Materialized s col

  pub SameView-refl : (this : Tuple R M N V) → SameView this this
  SameView-refl this = record {
    same_result = refl;
    same_typemap = refl;
    same_row = refl;
    same_map = refl;
    same_count = refl;
    same_names = refl;
    same_length = refl;
    same_view = λ col. refl;
    kept = λ col m. m;
  }

  pub SameView-trans : {a b c : Tuple R M N V} → SameView a b → SameView b c → SameView a c
  SameView-trans p q = record {
    same_result = q.same_result ∙ p.same_result;
    same_typemap = q.same_typemap ∙ p.same_typemap;
    same_row = q.same_row ∙ p.same_row;
    same_map = q.same_map ∙ p.same_map;
    same_count = q.same_count ∙ p.same_count;
    same_names = q.same_names ∙ p.same_names;
    same_length = q.same_length ∙ p.same_length;
    same_view = λ col. q.same_view col ∙ p.same_view col;
    kept = λ col m. q.kept col (p.kept col m);
  }

  -- A value is put where it was cast.
  view-set :
      (this : Tuple R M N V) (c : ℕ) (v : V)
      → get_elem? this.values c ≡ some none
      → cast_field typecast heap this c ≡ ok v
      → (col : ℕ) → view (record this { values = set this.values c (some v) }) col ≡ view this col
  unfolding cast_field
  view-set this c v undef cast col =
      let s : Tuple R M N V = record this { values = set this.values c (some v) } in
      view-read s col
      ∙ elim (Bool-cases (c == col)) [
        | inl y ↦
            let q : c ≡ col = ground arith in
            subst
              (λ k.
                read (get_elem? s.values k) (cast_field typecast heap s k)
                ≡ read (get_elem? this.values k) (cast_field typecast heap this k))
              q
              (ap (λ o. read o (cast_field typecast heap s c))
                  (get_elem?-set_self this.values c (some v) undef)
                ∙ sym cast
                ∙ ap (λ o. read o (cast_field typecast heap this c)) (sym undef))
        | inr n ↦
            let q : c ≢ col = ground arith in
            ap (λ o. read o (cast_field typecast heap this col))
              (get_elem?-set_other this.values c col (some v) q)
      ]
      ∙ sym (view-read this col)

  pub materialize_field-SameView :
      (this : Tuple R M N V) (c : ℕ) → SameView this (materialize_field typecast heap this c).1
  materialize_field-SameView this c = elim (materialize_field-cases this c) [
    | inl same ↦ subst (SameView this) (sym same) (SameView-refl this)
    | inr (v, undef, cast, set_there) ↦ subst (SameView this) (sym set_there) (record {
      same_result = refl;
      same_typemap = refl;
      same_row = refl;
      same_map = refl;
      same_count = refl;
      same_names = refl;
      same_length = length-set this.values c (some v);
      same_view = view-set this c v undef cast;
      kept = λ col m.
          subst (λ s. Materialized s col) set_there (Materialized-materialize_field this c col m);
    })
  ]

  -- A column that was read is there.
  pub materialize_field-Materialized :
      (this : Tuple R M N V) (c : ℕ) {v : V} {s : Tuple R M N V}
      → materialize_field typecast heap this c ≡ (ok v, s)
      → get_elem? s.values c ≡ some (some v)
  unfolding materialize_field value_or_cast
  materialize_field-Materialized this c {v} {s} h =
      go (get_elem? this.values c) (cast_field typecast heap this c) refl h
    where
      go :
          (o : Option (Option V)) (r : Outcome V)
          → get_elem? this.values c ≡ o
          → value_or_cast o r this c ≡ (ok v, s)
          → get_elem? s.values c ≡ some (some v)
      go none r p q = cc
      go (some (some w)) r p q = cc
      go (some none) (ok w) p q =
          let t : record this { values = set this.values c (some w) } ≡ s = cc in
          let z : w ≡ v = cc in
          subst (λ u. get_elem? u.values c ≡ some (some v)) t
            (get_elem?-set_self this.values c (some w) p ∙ ap (λ x. some (some x)) z)
      go (some none) (raises e) p q = cc
      go (some none) fault p q = cc
