-- ===== src/Tuple/Loop.antt =====
-- The loops over the columns of a tuple of ext/pg_tuple.c, against a loop over what the columns
-- read as.
use ruby_pg.Common.{
  ℕ, zero, suc, ◌+◌, ◌≤◌, ◌<◌, some, Outcome, ok, raises, fault, and_then, get_elem?, Call, then_do,
  given, then_do-eq-ok, given-eq-ok, ◌≡◌, inl, inr, refl, subst, arith, Bool-cases, ◌==◌,
}
use ruby_pg.Result.{Result, Typecast}
use ruby_pg.Tuple.{Tuple, materialize_field, each_field}
use ruby_pg.Tuple.View.{
  view, SameView, SameView-trans, materialize_field-SameView, Materialized,
  Materialized-materialize_field, materialize_field-Materialized,
}

-- The same loop over columns that read as `column` says.
unfoldable pub visit :
    {V : Type 0} → (ℕ → V → Outcome (Unit {0})) → (ℕ → Outcome V) → ℕ → ℕ → Outcome (Unit {0})
visit body column zero i = ok tt
visit body column (suc left) i =
    and_then (column i) (λ v. and_then (body i v) (λ _. visit body column left (i + 1)))

module _ {R P M N V : Type 0} (typecast : Typecast P M V) (heap : R → Result P M)
    (body : ℕ → V → Outcome (Unit {0})) where
  abbrev loop : ℕ → ℕ → Tuple R M N V → Call (Tuple R M N V) (Unit {0})
  loop = each_field typecast heap body

  -- The part of a round behind the read.
  abbrev behind : ℕ → ℕ → V → Tuple R M N V → Call (Tuple R M N V) (Unit {0})
  behind left i v s = given (body i v) s (λ _. loop left (i + 1) s)

  pub each_field-visit :
      (left i : ℕ) (this s : Tuple R M N V)
      → SameView typecast heap this s
      → (loop left i s).0 ≡ visit body (view typecast heap this) left i
  unfolding each_field visit
  each_field-visit zero i this s same = refl
  each_field-visit (suc left) i this s same =
      go (materialize_field typecast heap s i) (same.same_view i)
        (SameView-trans typecast heap same (materialize_field-SameView typecast heap s i))
        (each_field-visit left (i + 1) this)
    where
      go :
          (m : Call (Tuple R M N V) V)
          → m.0 ≡ view typecast heap this i
          → SameView typecast heap this m.1
          → ((s1 : Tuple R M N V)
              → SameView typecast heap this s1
              → (loop left (i + 1) s1).0 ≡ visit body (view typecast heap this) left (i + 1))
          → (then_do m (behind left i)).0
            ≡ and_then
                (view typecast heap this i)
                (λ v. and_then (body i v) (λ _. visit body (view typecast heap this) left (i + 1)))
      go (ok v, s1) e t ih =
          subst
            (λ o.
              (behind left i v s1).0
              ≡ and_then o (λ v.
                and_then (body i v) (λ _. visit body (view typecast heap this) left (i + 1))))
            e (rest (body i v))
        where
          rest :
              (r : Outcome (Unit {0}))
              → (given r s1 (λ _. loop left (i + 1) s1)).0
                ≡ and_then r (λ _. visit body (view typecast heap this) left (i + 1))
          rest (ok u) = ih s1 t
          rest (raises x) = refl
          rest fault = refl
      go (raises x, s1) e t ih = rw (← e) refl
      go (fault, s1) e t ih = rw (← e) refl

  pub each_field-SameView :
      (left i : ℕ) (this s : Tuple R M N V)
      → SameView typecast heap this s
      → SameView typecast heap this (loop left i s).1
  unfolding each_field
  each_field-SameView zero i this s same = same
  each_field-SameView (suc left) i this s same =
      go (materialize_field typecast heap s i)
        (SameView-trans typecast heap same (materialize_field-SameView typecast heap s i))
        (each_field-SameView left (i + 1) this)
    where
      go :
          (m : Call (Tuple R M N V) V)
          → SameView typecast heap this m.1
          → ((s1 : Tuple R M N V)
              → SameView typecast heap this s1
              → SameView typecast heap this (loop left (i + 1) s1).1)
          → SameView typecast heap this (then_do m (behind left i)).1
      go (ok v, s1) t ih = rest (body i v)
        where
          rest :
              (r : Outcome (Unit {0}))
              → SameView typecast heap this (given r s1 (λ _. loop left (i + 1) s1)).1
          rest (ok u) = ih s1 t
          rest (raises x) = t
          rest fault = t
      go (raises x, s1) t ih = t
      go (fault, s1) t ih = t

  -- One round that returns.
  each_field-round :
      (left i : ℕ) (s : Tuple R M N V) {s' : Tuple R M N V}
      → loop (suc left) i s ≡ (ok tt, s')
      → (v : V) × (s1 : Tuple R M N V) × (materialize_field typecast heap s i ≡ (ok v, s1))
        × (loop left (i + 1) s1 ≡ (ok tt, s'))
  unfolding each_field
  each_field-round left i s h =
      let (v, s1, p, q) = then_do-eq-ok (materialize_field typecast heap s i) (behind left i) h in
      let (u, r, t) = given-eq-ok (body i v) s1 (λ _. loop left (i + 1) s1) q in (v, s1, p, t)

  pub Materialized-each_field :
      (left i : ℕ) (s : Tuple R M N V) {s' : Tuple R M N V}
      → loop left i s ≡ (ok tt, s')
      → (col : ℕ) → Materialized typecast heap s col
      → Materialized typecast heap s' col
  Materialized-each_field zero i s {s'} h col m =
      subst (λ t. Materialized typecast heap t col) (let e : s ≡ s' = unfold each_field in cc in e)
        m
  Materialized-each_field (suc left) i s h col m =
      let (v, s1, p, q) = each_field-round left i s h in
      Materialized-each_field left (i + 1) s1 q col (
        subst (λ t. Materialized typecast heap t.1 col) p
          (Materialized-materialize_field typecast heap s i col m))

  -- A loop that returns has read its columns.
  pub each_field-Materialized :
      (left i : ℕ) (s : Tuple R M N V) {s' : Tuple R M N V}
      → loop left i s ≡ (ok tt, s')
      → (col : ℕ) → i ≤ col
      → col < i + left
      → Materialized typecast heap s' col
  each_field-Materialized zero i s h col lo hi = absurd (omega arith)
  each_field-Materialized (suc left) i s {s'} h col lo hi =
      let (v, s1, p, q) = each_field-round left i s h in
      elim (Bool-cases (i == col)) [
        | inl y ↦ Materialized-each_field left (i + 1) s1 q col (
          v,
          subst (λ k. get_elem? s1.values k ≡ some (some v)) (let e : i ≡ col = ground arith in e)
              (materialize_field-Materialized typecast heap s i p),
        )
        | inr n ↦
            let lt : i + 1 ≤ col = ground arith in
            each_field-Materialized left (i + 1) s1 q col lt (omega arith)
      ]
