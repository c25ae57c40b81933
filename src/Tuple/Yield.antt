-- ===== src/Tuple/Yield.antt =====
-- The loops of ext/pg_tuple.c that yield to a block, against a loop over what the columns read as.
use ruby_pg.Common.{
  ℕ, zero, suc, ◌+◌, ◌≤◌, ◌<◌, ◌==◌, Bool-cases, Outcome, ok, raises, fault, Call, then_do, given,
  on_left, on_right, right_of, Ensures, ◌≡◌, ◌≢◌, inl, inr, refl, ◌∙◌, sym, ap, subst, arith,
}
use ruby_pg.Common.Hash.{Eql}
use ruby_pg.Result.{Result, Typecast, CastReturns}
use ruby_pg.Tuple.{Tuple, Block, materialize_field, each_column}
use ruby_pg.Tuple.View.{
  view, Materialized, SameView, SameView-trans, SameView-refl, materialize_field-SameView,
  materialize_field-Materialized,
}
use ruby_pg.Tuple.Sound.{IsSound, view-ne-fault}

-- The block is called for one column after the other, with what `column` says that it reads as, and
-- in the world that the calls before have left.
unfoldable pub visit_world :
    {W V : Type 0} → Block W ℕ V → (ℕ → Outcome V) → ℕ → ℕ → W → Call W (Unit {0})
visit_world body column zero i w = (ok tt, w)
visit_world body column (suc left) i w =
    given (column i) w (λ v. then_do (body i v w) (λ _ w'. visit_world body column left (i + 1) w'))

module _ {W R P M N V : Type 0} (typecast : Typecast P M V) (heap : R → Result P M)
    (body : Block W ℕ V) where
  -- The part of a round behind the read.
  abbrev behind : ℕ → ℕ → V → Tuple R M N V × W → Call (Tuple R M N V × W) (Unit {0})
  behind left i v s =
      then_do (on_right s.0 (body i v s.1)) (λ _ s'. each_column typecast heap body left (i + 1) s')

  pub each_column-visit :
      (left i : ℕ) (this : Tuple R M N V) (s : Tuple R M N V × W)
      → SameView typecast heap this s.0
      → right_of (each_column typecast heap body left i s)
        ≡ visit_world body (view typecast heap this) left i s.1
  unfolding each_column visit_world
  each_column-visit zero i this s same = refl
  each_column-visit (suc left) i this s same =
      go (materialize_field typecast heap s.0 i) (same.same_view i)
        (SameView-trans typecast heap same (materialize_field-SameView typecast heap s.0 i))
        (λ s'. each_column-visit left (i + 1) this s')
    where
      after : V → W → Call W (Unit {0})
      after v w =
          then_do (body i v w) (λ _ w'. visit_world body (view typecast heap this) left (i + 1) w')

      go :
          (m : Call (Tuple R M N V) V)
          → m.0 ≡ view typecast heap this i
          → SameView typecast heap this m.1
          → ((s' : Tuple R M N V × W)
              → SameView typecast heap this s'.0
              → right_of (each_column typecast heap body left (i + 1) s')
                ≡ visit_world body (view typecast heap this) left (i + 1) s'.1)
          → right_of (then_do (on_left m s.1) (behind left i))
            ≡ given (view typecast heap this i) s.1 (λ v. after v s.1)
      go (ok v, t) e same ih =
          subst (λ o. right_of (behind left i v (t, s.1)) ≡ given o s.1 (λ v. after v s.1)) e
            (rest (body i v s.1))
        where
          rest :
              (r : Call W (Unit {0}))
              → right_of
                  (then_do (on_right t r) (λ _ s'. each_column typecast heap body left (i + 1) s'))
                ≡ then_do r (λ _ w'. visit_world body (view typecast heap this) left (i + 1) w')
          rest (ok u, w') = ih (t, w') same
          rest (raises x, w') = refl
          rest (fault, w') = refl
      go (raises x, t) e same ih = rw (← e) refl
      go (fault, t) e same ih = rw (← e) refl

  -- The columns from i to below i + left are there.
  abbrev pub AllRead : ℕ → ℕ → Tuple R M N V → Type 0
  AllRead left i t = (col : ℕ) → i ≤ col → col < i + left → Materialized typecast heap t col

  module _ (returns : CastReturns typecast) (e : Eql N) (this : Tuple R M N V)
      (sound : IsSound e this)
      (body_returns : (k : ℕ)
        → k < this.num_fields
        → (v : V) (w : W) → (body k v w).0 ≢ fault) where
    -- The loop makes no undefined access; where it raises, the columns read as before, and where it
    -- returns, they are there as well.
    pub each_column-Ensures :
        (left i : ℕ) (s : Tuple R M N V × W)
        → i + left ≤ this.num_fields
        → SameView typecast heap this s.0
        → Ensures
            (λ s'. SameView typecast heap this s'.0)
            (λ _ s'.
              SameView typecast heap this s'.0
              × SameView typecast heap s.0 s'.0
              × AllRead left i s'.0)
            (each_column typecast heap body left i s)
    unfolding each_column
    each_column-Ensures zero i s le same =
        (same, SameView-refl typecast heap s.0, λ col lo hi. absurd (omega arith))
    each_column-Ensures (suc left) i s le same =
        go (materialize_field typecast heap s.0 i) refl (same.same_view i)
          (SameView-trans typecast heap same (materialize_field-SameView typecast heap s.0 i))
          (λ s'. each_column-Ensures left (i + 1) s' (omega arith))
      where
        There : Call (Tuple R M N V × W) (Unit {0}) → Type 0
        There =
            Ensures (λ s'. SameView typecast heap this s'.0)
              (λ _ s'.
                SameView typecast heap this s'.0
                × SameView typecast heap s.0 s'.0
                × AllRead (suc left) i s'.0)

        joined :
            (v : V) (t : Tuple R M N V) (s' : Tuple R M N V × W)
            → materialize_field typecast heap s.0 i ≡ (ok v, t)
            → SameView typecast heap t s'.0
            → AllRead left (i + 1) s'.0
            → SameView typecast heap s.0 s'.0 × AllRead (suc left) i s'.0
        joined v t s' q step all = (
          SameView-trans typecast heap
              (subst (λ (m : Call (Tuple R M N V) V). SameView typecast heap s.0 m.1) q
                (materialize_field-SameView typecast heap s.0 i))
              step,
          λ col lo hi. elim (Bool-cases (i == col)) [
            | inl y ↦
                subst (Materialized typecast heap s'.0) (let z : i ≡ col = ground arith in z)
                  (step.kept i (v, materialize_field-Materialized typecast heap s.0 i q))
            | inr n ↦ all col (ground arith) (omega arith)
          ],
        )

        go :
            (m : Call (Tuple R M N V) V)
            → materialize_field typecast heap s.0 i ≡ m
            → view typecast heap s.0 i ≡ view typecast heap this i
            → SameView typecast heap this m.1
            → ((s' : Tuple R M N V × W)
                → SameView typecast heap this s'.0
                → Ensures
                    (λ s''. SameView typecast heap this s''.0)
                    (λ _ s''.
                      SameView typecast heap this s''.0
                      × SameView typecast heap s'.0 s''.0
                      × AllRead left (i + 1) s''.0)
                    (each_column typecast heap body left (i + 1) s'))
            → There (then_do (on_left m s.1) (behind left i))
        go (raises x, t) q start same ih = same
        go (fault, t) q start same ih =
            view-ne-fault typecast heap returns e this sound i (omega arith)
              (sym start ∙ ap (λ (m : Call (Tuple R M N V) V). m.0) q)
        go (ok v, t) q start same ih = rest (body i v s.1) (body_returns i (omega arith) v s.1)
          where
            last :
                (m : Call (Tuple R M N V × W) (Unit {0}))
                → Ensures
                    (λ s''. SameView typecast heap this s''.0)
                    (λ _ s''.
                      SameView typecast heap this s''.0
                      × SameView typecast heap t s''.0
                      × AllRead left (i + 1) s''.0)
                    m
                → There m
            last (ok u, s'') (a, b, c) = let (d, f) = joined v t s'' q b c in (a, d, f)
            last (raises x, s'') h = h
            last (fault, s'') h = h

            rest :
                (r : Call W (Unit {0}))
                → r.0 ≢ fault
                → There (
                    then_do (on_right t r) (λ _ s'. each_column typecast heap body left (i + 1) s'))
            rest (ok u, w') h = last _ (ih (t, w') same)
            rest (raises x, w') h = same
            rest (fault, w') h = h refl
