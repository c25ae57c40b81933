-- ===== src/Tuple/Keeps.antt =====
-- The parts of the methods of ext/pg_tuple.c keep a tuple sound.
use ruby_pg.Common.{
  ℕ, ◌<◌, Option, none, some, List, [], Outcome, ok, raises, fault, ok-ne-fault, and_then-eq-ok,
  and_then-ne-fault, Call, then_do, given, Ensures, Keeps, Keeps-intro, gather-ne-fault-below,
  num2int, num2int-ne-fault, below?-lt, from_end, ◌≡◌, ◌≢◌, refl, ◌∙◌, ap, sym, subst, arith, All,
}
use ruby_pg.Common.Hash.{Eql, aref-All, All-index_names, index_names}
use ruby_pg.Result.{Result, Typecast}
use ruby_pg.Tuple.{
  Tuple, Block, Key, number, other, detach, materialize_field, each_field, each_column, let_go,
  materialize,
}
use ruby_pg.Tuple.View.{view, SameView, SameView-refl, materialize_field-SameView}
use ruby_pg.Tuple.Loop.{each_field-visit, each_field-SameView, each_field-Materialized}
use ruby_pg.Result.{CastReturns}
use ruby_pg.Tuple.Sound.{Complete, IsSound, SameView-IsSound, detach-IsSound, view-ne-fault}
use ruby_pg.Tuple.Finish.{finish, finish_yield, visit-ne-fault}
use ruby_pg.Tuple.Yield.{each_column-Ensures, AllRead}
use ruby_pg.Tuple.Reads.{tuple_values-gather}
use ruby_pg.Tuple.Access.{column_of, at_column, present, tuple_values}

module _ {R M N V : Type 0} (e : Eql N) where
  -- A key stands for a column of the tuple, or for none.
  pub column_of-lt :
      (this : Tuple R M N V) (key : Key N) {col : ℕ}
      → IsSound e this
      → column_of e this key ≡ ok (some col)
      → col < this.num_fields
  unfolding column_of
  column_of-lt this (number key) {col} i h =
      let (z, p, q) = and_then-eq-ok (num2int key) _ h in
      below?-lt this.num_fields (from_end this.num_fields z) cc
  column_of-lt this (other key) {col} i h =
      let a : All (λ p. p.1 < this.num_fields) (index_names e i.names 0 []) =
        All-index_names e i.names 0 this.num_fields [] (omega (arith, i.counted)) tt in
      aref-All e (λ j. j < this.num_fields) key this.field_map
        (subst (All (λ p. p.1 < this.num_fields)) (sym i.mapped) a) cc

  pub column_of-ne-fault : (this : Tuple R M N V) (key : Key N) → column_of e this key ≢ fault
  unfolding column_of
  column_of-ne-fault this (number key) =
      and_then-ne-fault (num2int key) _ (num2int-ne-fault key) (λ i. ok-ne-fault)
  column_of-ne-fault this (other key) = ok-ne-fault

module _ {R P M N V : Type 0} (typecast : Typecast P M V) (heap : R → Result P M) (e : Eql N) where
  module _ (returns : CastReturns typecast) where
    materialize_field-Keeps :
        (this : Tuple R M N V) (col : ℕ)
        → IsSound e this
        → col < this.num_fields
        → Keeps (IsSound e) (materialize_field typecast heap this col)
    materialize_field-Keeps this col i lt =
        Keeps-intro (IsSound e) (materialize_field typecast heap this col)
          (view-ne-fault typecast heap returns e this i col lt)
          (SameView-IsSound typecast heap e (materialize_field-SameView typecast heap this col) i)

    finish-Keeps :
        (body : ℕ → V → Outcome (Unit {0})) (this : Tuple R M N V)
        → IsSound e this
        → ((k : ℕ) → k < this.num_fields → (v : V) → body k v ≢ fault)
        → Keeps (IsSound e) (finish typecast heap body this)
    unfolding finish
    finish-Keeps body this i b =
        let same : SameView typecast heap this
            (each_field typecast heap body this.num_fields 0 this).1 =
          each_field-SameView typecast heap body this.num_fields 0 this this
            (SameView-refl typecast heap this) in
        go (each_field typecast heap body this.num_fields 0 this)
          (λ f.
            visit-ne-fault body (view typecast heap this) this.num_fields 0 this.num_fields
              (omega arith) (view-ne-fault typecast heap returns e this i) b
              (sym (
                  each_field-visit typecast heap body this.num_fields 0 this this
                    (SameView-refl typecast heap this))
                ∙ f))
          (SameView-IsSound typecast heap e same i)
          (λ s h col lt.
            each_field-Materialized typecast heap body this.num_fields 0 this h col (omega arith) (
              omega (
                arith,
                same.same_count,
                ap (λ (m : Call (Tuple R M N V) (Unit {0})). m.1.num_fields) h,
              )))
      where
        go :
            (m : Call (Tuple R M N V) (Unit {0}))
            → m.0 ≢ fault
            → IsSound e m.1
            → ((s : Tuple R M N V) → m ≡ (ok tt, s) → Complete s)
            → Keeps (IsSound e) (
                let r : Call (Tuple R M N V) (Unit {0}) = then_do m (λ _ s. (ok tt, detach s)) in r)
        go (ok u, s) f j all = detach-IsSound e j (all s refl)
        go (raises x, s) f j all = j
        go (fault, s) f j all = f refl

    pub finish_yield-Keeps :
        {W : Type 0} (body : Block W ℕ V) (this : Tuple R M N V) (w : W)
        → IsSound e this
        → ((k : ℕ) → k < this.num_fields → (v : V) (w : W) → (body k v w).0 ≢ fault)
        → Keeps (λ s. IsSound e s.0) (finish_yield typecast heap body (this, w))
    unfolding finish_yield
    finish_yield-Keeps {W} body this w i b =
        go (each_column typecast heap body this.num_fields 0 (this, w)) (
          each_column-Ensures typecast heap body returns e this i b this.num_fields 0 (this, w)
            (omega arith) (SameView-refl typecast heap this))
      where
        go :
            (m : Call (Tuple R M N V × W) (Unit {0}))
            → Ensures
                (λ s. SameView typecast heap this s.0)
                (λ _ s.
                  SameView typecast heap this s.0
                  × SameView typecast heap this s.0
                  × AllRead typecast heap body this.num_fields 0 s.0)
                m
            → Keeps
                (λ s. IsSound e s.0)
                (let r : Call (Tuple R M N V × W) (Unit {0}) =
                    then_do m (λ _ s. let_go typecast heap s) in
                  r)
        go (ok u, s) (same, step, all) =
            detach-IsSound e (SameView-IsSound typecast heap e same i)
              (λ col lt. all col (omega arith) (omega (arith, same.same_count)))
        go (raises x, s) same = SameView-IsSound typecast heap e same i
        go (fault, s) h = h

    pub keyed :
        (this : Tuple R M N V) (key : Key N) (otherwise : Outcome V)
        → IsSound e this
        → otherwise ≢ fault
        → (column : Outcome (Option ℕ)) → column_of e this key ≡ column
        → Keeps (IsSound e) (given column this (at_column typecast heap otherwise this))
    keyed this key otherwise i o (ok none) q = Keeps-intro (IsSound e) (otherwise, this) o i
    keyed this key otherwise i o (ok (some col)) q =
        materialize_field-Keeps this col i (column_of-lt e this key i q)
    keyed this key otherwise i o (raises x) q = i
    keyed this key otherwise i o fault q = column_of-ne-fault e this key q

    pub values-Keeps :
        (this : Tuple R M N V)
        → IsSound e this
        → Keeps (IsSound e) (tuple_values typecast heap this)
    unfolding tuple_values materialize finish
    values-Keeps this i =
        Keeps-intro (IsSound e) (tuple_values typecast heap this)
          (λ f.
            gather-ne-fault-below (view typecast heap this) this.num_fields 0 this.num_fields
              (omega arith) (view-ne-fault typecast heap returns e this i)
              (sym (tuple_values-gather typecast heap e this i) ∙ f))
          (state (materialize typecast heap this)
            (finish-Keeps (λ i v. ok tt) this i (λ k lt v. ok-ne-fault)))
      where
        state :
            (m : Call (Tuple R M N V) (Unit {0}))
            → Keeps (IsSound e) m
            → IsSound e
                (let r : Call (Tuple R M N V) (List V) = then_do m (λ _ s. (present s.values, s)) in
                  r).1
        state (ok u, s) h = h
        state (raises x, s) h = h
        state (fault, s) h = absurd h
