-- ===== src/Tuple/Reads.antt =====
-- The methods of ext/pg_tuple.c that read all columns give what the columns read as one by one, and
-- a tuple that was read needs its result no more.
use ruby_pg.Common.{
  ℕ, zero, suc, ◌+◌, ◌<◌, Option, none, some, List, [], ◌∷◌, length, get_elem?, Outcome, ok, raises,
  fault, and_then, and_then_assoc, Call, right_of, then_do, then_do-eq-ok, gather, ◌≡◌, refl, ◌∙◌,
  ap, sym, fun_ext, subst, arith,
}
use ruby_pg.Common.Hash.{Eql}
use ruby_pg.Result.{Result, Typecast}
use ruby_pg.Tuple.{
  Tuple, detach, Block, cast_field, each_column, each_field, materialize, let_go, each, each_value,
  yield_named,
}
use ruby_pg.Tuple.View.{view, view-read, read, Materialized, SameView, SameView-refl}
use ruby_pg.Tuple.Loop.{visit, each_field-visit, each_field-SameView, each_field-Materialized}
use ruby_pg.Tuple.Sound.{IsSound}
use ruby_pg.Tuple.Finish.{finish, finish_yield, each-finish}
use ruby_pg.Tuple.Yield.{visit_world, each_column-visit}
use ruby_pg.Tuple.Access.{present, tuple_values}

abbrev done : Outcome (Unit {0})
done = ok tt

-- Reading every column for nothing goes through or stops as reading them for a list does.
visit-gather :
    {V : Type 0} (column : ℕ → Outcome V) (n i : ℕ)
    → visit (λ i v. ok tt) column n i ≡ and_then (gather column n i) (λ _. ok tt)
unfolding visit gather
visit-gather column zero i = refl
visit-gather column (suc n) i =
    ap (and_then (column i)) (
      fun_ext (λ v.
        visit-gather column n (i + 1)
        ∙ sym (and_then_assoc (gather column n (i + 1)) (λ xs. ok (v ∷ xs)) (λ _. done))))
    ∙ sym (
        and_then_assoc (column i) (λ v. and_then (gather column n (i + 1)) (λ xs. ok (v ∷ xs)))
          (λ _. done))

-- A list of values that are there is what they are.
present-gather :
    {V : Type 0} (values : List (Option V)) (column : ℕ → Outcome V) (i : ℕ)
    → ((k : ℕ)
        → k < length values
        → (v : V) × (get_elem? values k ≡ some (some v)) × (column (i + k) ≡ ok v))
    → present values ≡ gather column (length values) i
unfolding present gather
present-gather [] column i h = refl
present-gather (none ∷ values) column i h = let (v, p, q) = h 0 (omega arith) in cc
present-gather (some v ∷ values) column i h =
    let (w, p, q) = h 0 (omega arith) in
    let here : column i ≡ ok v =
      subst (λ k. column k ≡ ok v) (let z : i + 0 ≡ i = omega arith in z)
        (q ∙ ap ok (let z : w ≡ v = cc in z)) in
    let rest = present-gather values column (i + 1) (λ k lt.
      let (u, a, b) = h (suc k) (omega arith) in
      (u, a, subst (λ j. column j ≡ ok u) (let z : i + suc k ≡ i + 1 + k = omega arith in z) b)) in
    rw here (ap (λ m. and_then m (λ vs. ok (v ∷ vs))) rest)

module _ {R P M N V : Type 0} (typecast : Typecast P M V) (heap : R → Result P M) where
  detach-value :
      (m : Call (Tuple R M N V) (Unit {0})) → (then_do m (λ _ s. (ok tt, detach s))).0 ≡ m.0
  detach-value (ok u, s) = refl
  detach-value (raises e, s) = refl
  detach-value (fault, s) = refl

  pub finish-value :
      (body : ℕ → V → Outcome (Unit {0})) (this : Tuple R M N V)
      → (finish typecast heap body this).0 ≡ visit body (view typecast heap this) this.num_fields 0
  unfolding finish
  finish-value body this =
      detach-value (each_field typecast heap body this.num_fields 0 this)
      ∙ each_field-visit typecast heap body this.num_fields 0 this this
          (SameView-refl typecast heap this)

  -- A loop over all columns that returns has read them all.
  pub finish-read :
      (body : ℕ → V → Outcome (Unit {0})) (this : Tuple R M N V) {s : Tuple R M N V}
      → finish typecast heap body this ≡ (ok tt, s)
      → (s0 : Tuple R M N V) × (detach s0 ≡ s)
        × SameView typecast heap this s0
        × ((col : ℕ) → col < this.num_fields → Materialized typecast heap s0 col)
  unfolding finish
  finish-read body this {s} h =
      let (u, s0, p, q) =
        then_do-eq-ok (each_field typecast heap body this.num_fields 0 this)
          (λ _ s. (ok tt, detach s)) h in
      (
        s0,
        cc,
        subst (λ (m : Call (Tuple R M N V) (Unit {0})). SameView typecast heap this m.1) p
            (each_field-SameView typecast heap body this.num_fields 0 this this
              (SameView-refl typecast heap this)),
        λ col lt.
            each_field-Materialized typecast heap body this.num_fields 0 this p col (omega arith)
              (omega arith),
      )

  -- `values`, on the tuple that the loop leaves.
  values_after :
      (this : Tuple R M N V)
      → length this.values ≡ this.num_fields
      → (m : Call (Tuple R M N V) (Unit {0})) → finish typecast heap (λ i v. ok tt) this ≡ m
      → m.0 ≡ and_then (gather (view typecast heap this) this.num_fields 0) (λ _. ok tt)
      → (then_do m (λ _ s. (present s.values, s))).0
        ≡ gather (view typecast heap this) this.num_fields 0
  values_after this n (ok u, s) h e =
      let (s0, d, same, all) = finish-read (λ i v. ok tt) this h in
      let count : length s0.values ≡ this.num_fields = same.same_length ∙ n in
      ap (λ (t : Tuple R M N V). present t.values) (sym d)
      ∙ present-gather s0.values (view typecast heap this) 0 (λ k lt.
        let (v, at) = all k (omega (arith, count)) in
        (
          v,
          at,
          subst (λ j. view typecast heap this j ≡ ok v) (let z : k ≡ 0 + k = omega arith in z)
              (sym (same.same_view k)
                ∙ view-read typecast heap s0 k
                ∙ ap (λ o. read o (cast_field typecast heap s0 k)) at),
        ))
      ∙ ap (λ k. gather (view typecast heap this) k 0) count
  values_after this n (raises x, s) h e = go (gather (view typecast heap this) this.num_fields 0) e
    where
      go : (g : Outcome (List V)) → raises x ≡ and_then g (λ _. done) → raises x ≡ g
      go (ok vs) e = cc
      go (raises y) e = cc
      go fault e = cc
  values_after this n (fault, s) h e = go (gather (view typecast heap this) this.num_fields 0) e
    where
      go : (g : Outcome (List V)) → fault ≡ and_then g (λ _. done) → fault ≡ g
      go (ok vs) e = cc
      go (raises y) e = cc
      go fault e = refl

  -- `pg_tuple_values` gives the list of what the columns read as one by one, or raises what the
  -- first of them raises.
  pub tuple_values-gather :
      (e : Eql N) (this : Tuple R M N V)
      → IsSound e this
      → (tuple_values typecast heap this).0 ≡ gather (view typecast heap this) this.num_fields 0
  unfolding tuple_values materialize finish
  tuple_values-gather e this i =
      values_after this i.slots (materialize typecast heap this) refl (
        finish-value (λ i v. ok tt) this ∙ visit-gather (view typecast heap this) this.num_fields 0)

module _ {W R P M N V : Type 0} (typecast : Typecast P M V) (heap : R → Result P M) where
  let_go-world :
      (m : Call (Tuple R M N V × W) (Unit {0}))
      → right_of (then_do m (λ _ s. let_go typecast heap s)) ≡ right_of m
  let_go-world (ok u, s) = refl
  let_go-world (raises x, s) = refl
  let_go-world (fault, s) = refl

  finish_yield-visit :
      (body : Block W ℕ V) (this : Tuple R M N V) (w : W)
      → right_of (finish_yield typecast heap body (this, w))
        ≡ visit_world body (view typecast heap this) this.num_fields 0 w
  unfolding finish_yield
  finish_yield-visit body this w =
      let_go-world (each_column typecast heap body this.num_fields 0 (this, w))
      ∙ each_column-visit typecast heap body this.num_fields 0 this (this, w)
          (SameView-refl typecast heap this)

  -- `pg_tuple_each` calls its block once for each column, in order, with the name of the column,
  -- duplicated names included, and the value that the column reads as; each call sees what the
  -- calls before have changed, and the first column that cannot be cast or block that raises ends
  -- the row of calls. `pg_tuple_each_value` does the same with the values alone. What the blocks
  -- leave behind, and how the methods end, is that of these calls.
  pub each-visit :
      (e : Eql N) (block : Block W N V) (value_block : V → W → Call W (Unit {0}))
      (this : Tuple R M N V) (w : W) (i : IsSound e this)
      → (right_of (each typecast heap block (this, w))
          ≡ visit_world (yield_named block i.names) (view typecast heap this) this.num_fields 0 w)
        × (right_of (each_value typecast heap value_block (this, w))
            ≡ visit_world (λ k. value_block) (view typecast heap this) this.num_fields 0 w)
  unfolding each_value finish_yield
  each-visit e block value_block this w i = (
    ap right_of (each-finish typecast heap e block this w i)
        ∙ finish_yield-visit (yield_named block i.names) this w,
    finish_yield-visit (λ k. value_block) this w,
  )
