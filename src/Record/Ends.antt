-- ===== src/Record/Ends.antt =====
-- The record decoder on every input.
use ruby_pg.Common.{
  ℕ, zero, suc, ◌+◌, ◌≤◌, ◌<◌, Bool, true, false, not, ◌&&◌, Option, List, [], ◌∷◌, ◌++◌, Bytes,
  length, ◌==◌, Outcome, ok, raises, fault, and_then, and_then-ne-fault, ok-ne-fault,
  raises-ne-fault, if-ne-fault, ◌≡◌, ◌≢◌, refl, arith, if_intro,
}
use ruby_pg.Coder.{CopyTypeMap, NeverFaults}
use ruby_pg.Record.{
  quote, peek, behind, ends_column, skip_spaces, read_column, column_value, push_column,
  read_columns, end_record, dec_record,
}

-- A call returns or raises, and leaves `n` bytes at most.
abbrev Leaves : {A : Type 0} → ℕ → Outcome (A × Bytes) → Type 0
Leaves n (ok s) = length s.1 ≤ n
Leaves n (raises e) = Unit
Leaves n fault = ⊥

Leaves-more : {A : Type 0} (n m : ℕ) (r : Outcome (A × Bytes)) → n ≤ m → Leaves n r → Leaves m r
Leaves-more n m (ok s) le h = omega arith
Leaves-more n m (raises e) le h = tt
Leaves-more n m fault le h = absurd h

Leaves-bind :
    {A B : Type 0} (n k : ℕ) (r : Outcome (A × Bytes)) (f : A × Bytes → Outcome (B × Bytes))
    → Leaves n r
    → ((s : A × Bytes) → length s.1 ≤ n → Leaves k (f s))
    → Leaves k (and_then r f)
Leaves-bind n k (ok s) f h g = g s h
Leaves-bind n k (raises e) f h g = tt
Leaves-bind n k fault f h g = absurd h

Leaves-value :
    {A B : Type 0} (k : ℕ) (r : Outcome A) (f : A → Outcome (B × Bytes))
    → r ≢ fault
    → ((v : A) → Leaves k (f v))
    → Leaves k (and_then r f)
Leaves-value k (ok v) f h g = g v
Leaves-value k (raises e) f h g = tt
Leaves-value k fault f h g = h refl

Leaves-ne-fault : {A : Type 0} (n : ℕ) (r : Outcome (A × Bytes)) → Leaves n r → r ≢ fault
Leaves-ne-fault n (ok s) h = ok-ne-fault
Leaves-ne-fault n (raises e) h = raises-ne-fault
Leaves-ne-fault n fault h = absurd h

Leaves-read_column :
    (inquote : Bool) (cur out : Bytes) → Leaves (length cur) (read_column inquote cur out)
unfolding read_column
Leaves-read_column inquote [] out = tt
Leaves-read_column inquote (ch ∷ []) out =
    let more = λ (q : Bool) (o : Bytes).
      Leaves-more 0 1 (read_column q [] o) (omega arith) (Leaves-read_column q [] o) in
    if_intro (Leaves 1) (not inquote && ends_column ch) (λ _. omega arith)
      (λ _.
        if_intro (Leaves 1) (ch == 0) (λ _. tt)
          (λ _.
            if_intro (Leaves 1) (ch == b'\\') (λ _. tt)
              (λ _.
                if_intro (Leaves 1) (ch == quote)
                  (λ _.
                    if_intro (Leaves 1) (not inquote) (λ _. more true out) (λ _. more false out))
                  (λ _. more inquote (out ++ ch ∷ [])))))
Leaves-read_column inquote (ch ∷ d ∷ cur) out =
    let n = suc (suc (length cur)) in
    let one = λ (q : Bool) (o : Bytes).
      Leaves-more (suc (length cur)) n (read_column q (d ∷ cur) o) (omega arith)
        (Leaves-read_column q (d ∷ cur) o) in
    let two = λ (q : Bool) (o : Bytes).
      Leaves-more (length cur) n (read_column q cur o) (omega arith) (Leaves-read_column q cur o) in
    if_intro (Leaves n) (not inquote && ends_column ch) (λ _. omega arith)
      (λ _.
        if_intro (Leaves n) (ch == 0) (λ _. tt)
          (λ _.
            if_intro (Leaves n) (ch == b'\\')
              (λ _. if_intro (Leaves n) (d == 0) (λ _. tt) (λ _. two inquote (out ++ d ∷ [])))
              (λ _.
                if_intro (Leaves n) (ch == quote)
                  (λ _.
                    if_intro (Leaves n) (not inquote) (λ _. one true out)
                      (λ _.
                        if_intro (Leaves n) (d == quote) (λ _. two true (out ++ d ∷ []))
                          (λ _. one false out)))
                  (λ _. one inquote (out ++ ch ∷ [])))))

behind-lt : (cur : Bytes) → (peek cur == b',') ≡ true → length (behind cur) < length cur
behind-lt [] h = absurd (ground arith)
behind-lt (c ∷ cur) h = omega arith

behind-le : (cur : Bytes) → length (behind cur) ≤ length cur
behind-le [] = omega arith
behind-le (c ∷ cur) = omega arith

module _ {V : Type 0} (tm : CopyTypeMap V) (sound : NeverFaults tm) where
  Leaves-column_value : (cur : Bytes) (i : ℕ) → Leaves (length cur) (column_value tm cur i)
  unfolding column_value
  Leaves-column_value cur i =
      if_intro (Leaves (length cur)) (ends_column (peek cur)) (λ _. omega arith)
        (λ _.
          Leaves-bind (length cur) (length cur) (read_column false cur []) _
            (Leaves-read_column false cur [])
            (λ s le.
              Leaves-value (length cur) (tm.typecast_copy_get s.0 i) _
                (sound.typecast_returns s.0 i) (λ v. le)))

  Leaves-read_columns :
      (f : ℕ) (cur : Bytes) (i : ℕ) → length cur < f → Leaves (length cur) (read_columns tm f cur i)
  unfolding read_columns push_column
  Leaves-read_columns zero cur i h = absurd (omega arith)
  Leaves-read_columns (suc f) cur i h =
      Leaves-bind (length cur) (length cur) (column_value tm cur i) _ (Leaves-column_value cur i)
        (λ s le.
          if_intro (Leaves (length cur)) (peek s.1 == b',')
            (λ comma.
              let ih =
                Leaves-read_columns f (behind s.1) (i + 1) (omega (arith, behind-lt s.1 comma)) in
              Leaves-bind (length (behind s.1)) (length cur)
                (read_columns tm f (behind s.1) (i + 1)) _ ih
                (λ r le'. omega (arith, behind-lt s.1 comma)))
            (λ _.
              if_intro (Leaves (length cur)) (peek s.1 == b')') (λ _. omega (arith, behind-le s.1))
                (λ _. tt)))

  end_record-ne-fault : (r : List (Option V) × Bytes) → end_record tm r ≢ fault
  unfolding end_record
  end_record-ne-fault (row, cur) =
      if-ne-fault (peek (skip_spaces cur) == 0) _ _ ok-ne-fault raises-ne-fault

  -- If the type map returns or raises, the record decoder ends on every input with a row or an
  -- exception, and its loop over the fields takes at most one round for each byte.
  pub dec_record-ne-fault : (input_line : Bytes) → dec_record tm input_line ≢ fault
  unfolding dec_record
  dec_record-ne-fault input_line =
      let cur = skip_spaces input_line in
      and_then-ne-fault tm.fit_to_copy_get _ sound.fit_returns (λ _.
        if-ne-fault (peek cur == b'(') _ _
          (and_then-ne-fault (read_columns tm (suc (length cur)) (behind cur) 0) (end_record tm)
            (Leaves-ne-fault _ _ (
              Leaves-read_columns (suc (length cur)) (behind cur) 0 (omega (arith, behind-le cur))))
            end_record-ne-fault)
          raises-ne-fault)
