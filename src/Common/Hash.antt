-- ===== src/Common/Hash.antt =====
-- Ruby's Hash: pairs in the order of insertion, one for each key.
use Prim.Native.Nat.{ℕ, ◌+◌, ◌≤◌, ◌<◌}
use mathlib.Core.Path.{◌≡◌, refl, ap, ◌∙◌}
use mathlib.Core.Logic.{◌↔◌, inl, inr}
use mathlib.Core.Bool.{Bool, true}
use mathlib.Core.Option.{Option, none, some}
use mathlib.Core.List.{List, [], ◌∷◌, ◌++◌, append_assoc, append-nil}
use native.Mathlib.Omega.{arith}
use ruby_pg.Common.Tests.{if◌then◌else◌, Bool-cases, if_intro}
use ruby_pg.Common.Lists.{length, All}

-- `eql?` on the objects that serve as keys.
pub record Eql (K : Type 0) : Type 0 where
  pub eql : K → K → Bool
  pub eql_iff : (a b : K) → (eql a b ≡ true) ↔ (a ≡ b)

module _ {K V : Type 0} (e : Eql K) where
  -- `rb_hash_aref`
  abbrev pub aref : K → List (K × V) → Option V
  aref k [] = none
  aref k ((j, v) ∷ h) = if e.eql j k then some v else aref k h

  -- `rb_hash_aset`: a known key keeps its place.
  abbrev pub aset : K → V → List (K × V) → List (K × V)
  aset k v [] = (k, v) ∷ []
  aset k v ((j, w) ∷ h) = if e.eql j k then (j, v) ∷ h else (j, w) ∷ aset k v h

  pub aset-new :
      (k : K) (v : V) (h : List (K × V))
      → length h + 1 ≤ length (aset k v h)
      → aset k v h ≡ h ++ (k, v) ∷ []
  aset-new k v [] le = refl
  aset-new k v ((j, w) ∷ h) le = ground (arith, aset-new k v h)

  pub length-aset-le : (k : K) (v : V) (h : List (K × V)) → length (aset k v h) ≤ length h + 1
  length-aset-le k v [] = omega arith
  length-aset-le k v ((j, w) ∷ h) = ground (arith, length-aset-le k v h)

  pub length-aset-ge : (k : K) (v : V) (h : List (K × V)) → length h ≤ length (aset k v h)
  length-aset-ge k v [] = omega arith
  length-aset-ge k v ((j, w) ∷ h) = ground (arith, length-aset-ge k v h)

  pub All-aset {κ} :
      (P : V → Type κ) (k : K) (v : V) (h : List (K × V))
      → P v
      → All (λ p. P p.1) h
      → All (λ p. P p.1) (aset k v h)
  All-aset P k v [] pv a = (pv, tt)
  All-aset P k v ((j, w) ∷ h) pv a =
      if_intro (All (λ p. P p.1)) (e.eql j k) (λ _. (pv, a.1)) (λ _. (a.0, All-aset P k v h pv a.1))

  pub aref-All {κ} :
      (P : V → Type κ) (k : K) (h : List (K × V)) {v : V}
      → All (λ p. P p.1) h
      → aref k h ≡ some v
      → P v
  aref-All P k [] a q = cc
  aref-All P k ((j, w) ∷ h) {v} a q = elim (Bool-cases (e.eql j k)) [
    | inl y ↦ let f : some w ≡ some v = rw y at q in let g : w ≡ v = cc in rw (← g) a.0
    | inr n ↦ let f : aref k h ≡ some v = rw n at q in aref-All P k h a.1 f
  ]

-- The positions of names, counted from i.
abbrev pub number : {N : Type 0} → List N → ℕ → List (N × ℕ)
number [] i = []
number (n ∷ ns) i = (n, i) ∷ number ns (i + 1)

module _ {N : Type 0} (e : Eql N) where
  -- `for( i = 0; i < num_fields; i++ ) rb_hash_aset(field_map, names[i], INT2FIX(i))`
  abbrev pub index_names : List N → ℕ → List (N × ℕ) → List (N × ℕ)
  index_names [] i h = h
  index_names (n ∷ ns) i h = index_names ns (i + 1) (aset e n i h)

  pub length-index_names-le :
      (ns : List N) (i : ℕ) (h : List (N × ℕ)) → length (index_names ns i h) ≤ length h + length ns
  length-index_names-le [] i h = omega arith
  length-index_names-le (n ∷ ns) i h =
      omega (arith, length-index_names-le ns (i + 1) (aset e n i h), length-aset-le e n i h)

  -- Only a Hash of names that are all different has one entry for each of them.
  pub index_names-number :
      (ns : List N) (i : ℕ) (h : List (N × ℕ))
      → length (index_names ns i h) ≡ length h + length ns
      → index_names ns i h ≡ h ++ number ns i
  index_names-number [] i h q = rw append-nil
  index_names-number (n ∷ ns) i h q =
      let le : length (index_names ns (i + 1) (aset e n i h)) ≤ length (aset e n i h) + length ns =
        length-index_names-le ns (i + 1) (aset e n i h) in
      let up : length (aset e n i h) ≤ length h + 1 = length-aset-le e n i h in
      let new : aset e n i h ≡ h ++ (n, i) ∷ [] = aset-new e n i h (omega arith) in
      let rest : index_names ns (i + 1) (aset e n i h) ≡ aset e n i h ++ number ns (i + 1) =
        index_names-number ns (i + 1) (aset e n i h) (omega arith) in
      rest ∙ ap (λ t. t ++ number ns (i + 1)) new ∙ append_assoc h ((n, i) ∷ []) (number ns (i + 1))

  -- Each entry is the position of a name.
  pub All-index_names :
      (ns : List N) (i m : ℕ) (h : List (N × ℕ))
      → i + length ns ≤ m
      → All (λ p. p.1 < m) h
      → All (λ p. p.1 < m) (index_names ns i h)
  All-index_names [] i m h le a = a
  All-index_names (n ∷ ns) i m h le a =
      All-index_names ns (i + 1) m (aset e n i h) (omega arith)
        (All-aset e (λ j. j < m) n i h (omega arith) a)

  pub length-index_names-ge :
      (ns : List N) (i : ℕ) (h : List (N × ℕ)) → length h ≤ length (index_names ns i h)
  length-index_names-ge [] i h = omega arith
  length-index_names-ge (n ∷ ns) i h =
      omega (arith, length-index_names-ge ns (i + 1) (aset e n i h), length-aset-ge e n i h)
