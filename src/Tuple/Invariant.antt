-- ===== src/Tuple/Invariant.antt =====
-- The methods of ext/pg_tuple.c keep a tuple sound, in any order.
use ruby_pg.Common.{
  ℕ, ◌<◌, ltb, Option, none, some, List, [], length, if_intro, get_elem?-lt, Outcome, ok, fault,
  ok-ne-fault, raises-ne-fault, Call, left_of, Keeps-left_of, Keeps, Keeps-ignore, Keeps-state,
  ignore, ◌∷◌, ◌≢◌, refl, sym, subst, arith, All,
}
use ruby_pg.Common.Hash.{Eql}
use ruby_pg.Result.{Result, Typecast}
use ruby_pg.Tuple.{Tuple, Block, Key, number, other, each, each_value, yield_at, yield_named}
use ruby_pg.Result.{CastReturns}
use ruby_pg.Tuple.Sound.{IsSound}
use ruby_pg.Tuple.Finish.{finish_yield, each-finish}
use ruby_pg.Tuple.Access.{column_of, tuple_aref, missing, fetch, tuple_values}
use ruby_pg.Tuple.Keeps.{finish_yield-Keeps, keyed, values-Keeps}

-- The methods, with their arguments, and the world that a block begins in.
pub data Method (W N V : Type 0) : Type 0 where
  read_key : V → Key N → Method W N V
  fetch_key : Key N → List V → Option (Key N → Outcome V) → Method W N V
  each_pair : Block W N V → W → Method W N V
  each_only_value : (V → W → Call W (Unit {0})) → W → Method W N V
  all_values : Method W N V

-- Its block returns or raises.
abbrev pub BlockReturns : {W N V : Type 0} → Method W N V → Type 0
BlockReturns (Method.read_key nil key) = Unit
BlockReturns (Method.fetch_key key rest none) = Unit
BlockReturns {N = N} (Method.fetch_key key rest (some block)) = (key : Key N) → block key ≢ fault
BlockReturns {W} {N} {V} (Method.each_pair block w) =
    (name : N) (v : V) (w : W) → (block name v w).0 ≢ fault
BlockReturns {W} {V = V} (Method.each_only_value block w) = (v : V) (w : W) → (block v w).0 ≢ fault
BlockReturns Method.all_values = Unit

missing-ne-fault :
    (W : Type 0) {N V : Type 0} (key : Key N) (rest : List V) (block : Option (Key N → Outcome V))
    → BlockReturns {W = W} (Method.fetch_key key rest block)
    → missing key rest block ≢ fault
missing-ne-fault W key rest (some block) b = b key
missing-ne-fault W (number i) [] none b = raises-ne-fault
missing-ne-fault W (other k) [] none b = raises-ne-fault
missing-ne-fault W key (default ∷ rest) none b = ok-ne-fault

yield_at-ne-fault :
    {W N V : Type 0} (block : Block W N V) (names : List N) (k : ℕ) (v : V) (w : W)
    → ((name : N) (v : V) (w : W) → (block name v w).0 ≢ fault)
    → k < length names
    → (yield_named block names k v w).0 ≢ fault
yield_at-ne-fault block names k v w b lt =
    let (name, at) = get_elem?-lt names k lt in
    subst (λ o. (yield_at block o v w).0 ≢ fault) (sym at) (b name v w)

module _ {W R P M N V : Type 0} (typecast : Typecast P M V) (heap : R → Result P M)
    (e : Eql N) where
  unfoldable pub run : Method W N V → Tuple R M N V → Call (Tuple R M N V) (Unit {0})
  run (Method.read_key nil key) this = ignore (tuple_aref typecast heap e nil key this)
  run (Method.fetch_key key rest block) this = ignore (fetch typecast heap e key rest block this)
  run (Method.each_pair block w) this = left_of (each typecast heap block (this, w))
  run (Method.each_only_value block w) this = left_of (each_value typecast heap block (this, w))
  run Method.all_values this = ignore (tuple_values typecast heap this)

  module _ (returns : CastReturns typecast) where
    -- Every method keeps a tuple sound, whether it returns or raises, and makes no undefined access.
    run-Keeps :
        (m : Method W N V) (this : Tuple R M N V)
        → IsSound e this
        → BlockReturns m
        → Keeps (IsSound e) (run m this)
    unfolding run tuple_aref fetch each_value finish_yield
    run-Keeps (Method.read_key nil key) this i b =
        Keeps-ignore (IsSound e) (tuple_aref typecast heap e nil key this) (
          keyed typecast heap e returns this key (ok nil) i ok-ne-fault (column_of e this key) refl)
    run-Keeps (Method.fetch_key key rest block) this i b =
        Keeps-ignore (IsSound e) (fetch typecast heap e key rest block this) (
          if_intro (Keeps (IsSound e)) (ltb 1 (length rest)) (λ _. i)
            (λ _.
              keyed typecast heap e returns this key (missing key rest block) i
                (missing-ne-fault W key rest block b) (column_of e this key) refl))
    run-Keeps (Method.each_pair block w) this i b =
        Keeps-left_of (IsSound e) (each typecast heap block (this, w)) (
          subst (Keeps (λ s. IsSound e s.0)) (sym (each-finish typecast heap e block this w i)) (
            finish_yield-Keeps typecast heap e returns (yield_named block i.names) this w i
              (λ k lt v w. yield_at-ne-fault block i.names k v w b (omega (arith, i.counted)))))
    run-Keeps (Method.each_only_value block w) this i b =
        Keeps-left_of (IsSound e) (each_value typecast heap block (this, w))
          (finish_yield-Keeps typecast heap e returns (λ k. block) this w i (λ k lt v w. b v w))
    run-Keeps Method.all_values this i b =
        Keeps-ignore (IsSound e) (tuple_values typecast heap this)
          (values-Keeps typecast heap e returns this i)

module _ {W R P M N V : Type 0} (typecast : Typecast P M V) (e : Eql N) where
  -- Calls in a row, each with the state that the results have then; a call that raises is rescued.
  unfoldable pub run_all : List (Method W N V × (R → Result P M)) → Tuple R M N V → Tuple R M N V
  run_all [] this = this
  run_all ((m, heap) ∷ calls) this = run_all calls (run typecast heap e m this).1

  run_all-IsSound :
      (returns : CastReturns typecast) (calls : List (Method W N V × (R → Result P M)))
      (this : Tuple R M N V)
      → All (λ c. BlockReturns c.0) calls
      → IsSound e this
      → IsSound e (run_all calls this)
  unfolding run_all
  run_all-IsSound returns [] this b i = i
  run_all-IsSound returns ((m, heap) ∷ calls) this b i =
      run_all-IsSound returns calls (run typecast heap e m this).1 b.1 (
        Keeps-state (IsSound e) (run typecast heap e m this)
          (run-Keeps typecast heap e returns m this i b.0))

  -- After any calls of `[]`, `fetch`, `each`, `each_value` and `values` on a sound tuple, with any
  -- results cleared between them and any calls that raised, the tuple is sound and the next call
  -- makes no undefined access, where type maps and blocks return or raise.
  pub run_all-Keeps :
      (returns : CastReturns typecast) (calls : List (Method W N V × (R → Result P M)))
      (this : Tuple R M N V)
      → All (λ c. BlockReturns c.0) calls
      → IsSound e this
      → (m : Method W N V) (heap : R → Result P M) → BlockReturns m
      → Keeps (IsSound e) (run typecast heap e m (run_all calls this))
  run_all-Keeps returns calls this b i m heap c =
      run-Keeps typecast heap e returns m (run_all calls this)
        (run_all-IsSound returns calls this b i) c
