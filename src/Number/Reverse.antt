-- ===== src/Number/Reverse.antt =====
-- The loop that reverses the digits in place (`pg_text_enc_integer` of ext/pg_text_encoder.c).
use ruby_pg.Common.{
  ℕ, zero, suc, ◌+◌, ◌-◌, ◌≤◌, ◌<◌, true, false, ltb, [], ◌∷◌, ◌++◌, append-nil, append_assoc,
  Bytes, length, length-append, Mem, read, write, read_cong, read-suc, ok, ◌≡◌, ◌⊎◌, inl, inr, refl,
  ◌∙◌, ap, sym, arith,
}
use ruby_pg.Number.{reverse_loop}

abbrev pub rev : Bytes → Bytes
rev [] = []
rev (c ∷ cs) = rev cs ++ c ∷ []

pub rev-append : (xs ys : Bytes) → rev (xs ++ ys) ≡ rev ys ++ rev xs
rev-append [] ys = sym (append-nil (rev ys))
rev-append (c ∷ xs) ys =
    ap (λ t. t ++ c ∷ []) (rev-append xs ys) ∙ append_assoc (rev ys) (rev xs) (c ∷ [])

pub rev-rev : (xs : Bytes) → rev (rev xs) ≡ xs
rev-rev [] = refl
rev-rev (c ∷ xs) = rev-append (rev xs) (c ∷ []) ∙ ap (λ t. c ∷ t) (rev-rev xs)

pub length-rev : (xs : Bytes) → length (rev xs) ≡ length xs
length-rev [] = refl
length-rev (c ∷ xs) = omega (arith, length-append (rev xs) (c ∷ []), length-rev xs)

-- What the loop leaves of a region of n bytes: they are reversed and nothing else is changed.
pub record Reverses (n : ℕ) (m : Mem) (start : ℕ) (m' : Mem) : Type 0 where
  pub reversed : read m' start n ≡ rev (read m start n)
  pub kept : (j : ℕ) → (j < start) ⊎ (start + n ≤ j) → m' j ≡ m j

Reverses-swap :
    (k start out : ℕ) (m m' : Mem)
    → out ≡ start + suc k
    → Reverses k (write (write m start (m out)) out (m start)) (start + 1) m'
    → Reverses (suc (suc k)) m start m'
unfolding read
Reverses-swap k start out m m' e r = record {
  reversed = cc (
    r.kept start (inl (omega arith)),
    first,
    read-suc m' (start + 1) k,
    read-suc m (start + 1) k,
    r.reversed,
    ap rev inside,
    r.kept out (inr (omega arith)),
    last,
    rev-append (read m (start + 1) k) (m out ∷ []),
    place,
  );
  kept = λ j h. r.kept j (omega arith) ∙ outside j h;
}
  where
    swapped : Mem
    swapped = write (write m start (m out)) out (m start)

    place : start + 1 + k ≡ out
    place = omega arith

    first : swapped start ≡ m out
    first = ground arith

    last : swapped out ≡ m start
    last = ground arith

    inside : read swapped (start + 1) k ≡ read m (start + 1) k
    inside = read_cong swapped m (start + 1) k (λ j lo hi. ground arith)

    outside : (j : ℕ) → (j < start) ⊎ (start + suc (suc k) ≤ j) → swapped j ≡ m j
    outside j h = ground arith

pub reverse_loop-lem :
    (fuel n start out : ℕ) (m : Mem)
    → out + 1 ≡ start + n
    → n < fuel
    → (m' : Mem) × (reverse_loop fuel start out m ≡ ok m') × Reverses n m start m'
unfolding reverse_loop read
reverse_loop-lem zero n start out m e lt = absurd (omega arith)
reverse_loop-lem (suc fuel) zero start out m e lt = (
  m,
  let no : ltb start out ≡ false = ground arith in rw no refl,
  record { reversed = refl; kept = λ j h. refl },
)
reverse_loop-lem (suc fuel) (suc zero) start out m e lt = (
  m,
  let no : ltb start out ≡ false = ground arith in rw no refl,
  record { reversed = refl; kept = λ j h. refl },
)
reverse_loop-lem (suc fuel) (suc (suc k)) start out m e lt =
    let (m', run, r) =
      reverse_loop-lem fuel k (start + 1) (out - 1) (write (write m start (m out)) out (m start))
        (omega arith) (omega arith) in
    (
      m',
      let yes : ltb start out ≡ true = ground arith in rw yes run,
      Reverses-swap k start out m m' (omega arith) r,
    )
