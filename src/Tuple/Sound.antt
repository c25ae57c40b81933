-- ===== src/Tuple/Sound.antt =====
-- What holds of every tuple of ext/pg_tuple.c: its slots are there, its names are in step with its
-- Hash, and a detached tuple has all its values.
use ruby_pg.Common.{
  ℕ, ◌<◌, Option, none, some, List, [], length, get_elem?, get_elem?-lt, if◌then◌else◌, ok, fault,
  ok-ne-fault, and_then-ne-fault, pos, ◌≡◌, ◌≢◌, ◌⊎◌, inl, inr, refl, ◌∙◌, ap, sym, arith,
}
use ruby_pg.Common.Hash.{Eql, index_names}
use ruby_pg.Result.{Result, Typecast, CastReturns, pgresult_get, pgresult_get-ne-fault}
use ruby_pg.Tuple.{Tuple, dup_names, detach, cast_field}
use ruby_pg.Tuple.View.{view, view-read, read, SameView}

module _ {R M N V : Type 0} where
  -- The result and its type map are at hand.
  abbrev pub Attached : Tuple R M N V → Type 0
  Attached this = (r : R) × (tm : M) × (this.result ≡ some r) × (this.typemap ≡ some tm)

  -- Every value is there.
  abbrev pub Complete : Tuple R M N V → Type 0
  Complete this =
      (col : ℕ) → col < this.num_fields → (v : V) × (get_elem? this.values col ≡ some (some v))

  pub record IsSound (e : Eql N) (this : Tuple R M N V) : Type 0 where
    pub names : List N
    pub counted : length names ≡ this.num_fields
    pub slots : length this.values ≡ this.num_fields
    pub mapped : this.field_map ≡ index_names e names 0 []
    pub named : this.field_names ≡ (if dup_names this then some names else none)
    pub backed : Attached this ⊎ Complete this

module _ {R P M N V : Type 0} (typecast : Typecast P M V) (heap : R → Result P M) (e : Eql N)
    {this s : Tuple R M N V} where
  pub SameView-IsSound : SameView typecast heap this s → IsSound e this → IsSound e s
  SameView-IsSound v i = record {
    names = i.names;
    counted = i.counted ∙ sym v.same_count;
    slots = v.same_length ∙ i.slots ∙ sym v.same_count;
    mapped = v.same_map ∙ i.mapped;
    named = v.same_names ∙ i.named ∙ (ap (λ d. if d then some i.names else none) dups);
    backed = elim i.backed [
      | inl (r, tm, p, q) ↦ inl (r, tm, v.same_result ∙ p, v.same_typemap ∙ q)
      | inr all ↦ inr (λ col lt. v.kept col (all col (omega (arith, v.same_count))))
    ];
  }
    where
      dups : dup_names this ≡ dup_names s
      dups = rw (v.same_count, v.same_map) refl

module _ {R M N V : Type 0} (e : Eql N) {this : Tuple R M N V} where
  -- With all its values a tuple can let go of its result.
  pub detach-IsSound : IsSound e this → Complete this → IsSound e (detach this)
  detach-IsSound i all = record {
    names = i.names;
    counted = i.counted;
    slots = i.slots;
    mapped = i.mapped;
    named = i.named;
    backed = inr all;
  }

module _ {R P M N V : Type 0} (typecast : Typecast P M V) (heap : R → Result P M)
    (returns : CastReturns typecast) (e : Eql N) where
  cast_field-ne-fault :
      (this : Tuple R M N V) (col : ℕ) → Attached this → cast_field typecast heap this col ≢ fault
  unfolding cast_field
  cast_field-ne-fault this col (r, tm, p, q) =
      rw (p, q)
        (and_then-ne-fault (pgresult_get (heap r)) _ (pgresult_get-ne-fault (heap r))
          (λ _. returns tm (heap r) this.row_num (pos col)))

  -- A column of a sound tuple is read, or raises.
  pub view-ne-fault :
      (this : Tuple R M N V)
      → IsSound e this
      → (col : ℕ) → col < this.num_fields
      → view typecast heap this col ≢ fault
  view-ne-fault this i col lt f =
      let (value, at) = get_elem?-lt this.values col (omega (arith, i.slots)) in
      go value at (sym (view-read typecast heap this col) ∙ f)
    where
      go :
          (value : Option V)
          → get_elem? this.values col ≡ some value
          → read (get_elem? this.values col) (cast_field typecast heap this col) ≡ fault
          → ⊥
      go (some v) at f = let z : ok v ≡ fault = rw at at f in ok-ne-fault z
      go none at f = elim i.backed [
        | inl live ↦ cast_field-ne-fault this col live (rw at at f)
        | inr all ↦ apart (all col lt) at
      ]
        where
          apart :
              (v : V) × (get_elem? this.values col ≡ some (some v))
              → get_elem? this.values col ≡ some none
              → ⊥
          apart (v, p) q = cc
