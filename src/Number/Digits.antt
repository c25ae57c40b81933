-- ===== src/Number/Digits.antt =====
-- The digits that the integer encoder writes backwards and then reverses in place
-- (`pg_text_enc_integer` of ext/pg_text_encoder.c), against the decimal text.
use ruby_pg.Common.{
  ℕ, zero, suc, ◌+◌, ◌-◌, ◌/◌, ◌%◌, ◌^◌, ◌≤◌, ◌<◌, true, false, ◌==◌, if◌then◌else◌, Bool-cases, [],
  ◌∷◌, ◌++◌, Bytes, length, length-append, Mem, read, write, fill, read_at, read-fill, fill_outside,
  ok, and_then, ℤ, pos, negsuc, ◌≡◌, ◌⊎◌, inl, inr, refl, ◌∙◌, ap, sym, arith,
}
use ruby_pg.Number.{magnitude, put_digits, put_sign, finish, put_integer}
use ruby_pg.Number.Reverse.{rev, rev-append, rev-rev, length-rev, reverse_loop-lem}

-- The decimal digits of a number below 10 ^ k.
unfoldable pub decimal : ℕ → ℕ → Bytes
decimal zero n = []
decimal (suc k) n =
    let d = b'0' + n % 10 in if n / 10 == 0 then d ∷ [] else decimal k (n / 10) ++ d ∷ []

-- The text of an integer.
abbrev pub int_text : ℤ → Bytes
int_text (pos n) = decimal 20 n
int_text (negsuc n) = b'-' ∷ decimal 20 (suc n)

Puts : ℕ → ℕ → Type 0
Puts k n =
    (out : ℕ) (m : Mem)
    → put_digits k n out m ≡ ok (out + length (decimal k n), fill m out (rev (decimal k n)))

Puts-more :
    (k n d out : ℕ) (m : Mem)
    → Puts k n
    → put_digits k n (out + 1) (write m out d)
      ≡ ok (out + length (decimal k n ++ d ∷ []), fill m out (rev (decimal k n ++ d ∷ [])))
unfolding fill Puts
Puts-more k n d out m h =
    h (out + 1) (write m out d) ∙ cc (count, rev-append (decimal k n) (d ∷ []))
  where
    count : out + 1 + length (decimal k n) ≡ out + length (decimal k n ++ d ∷ [])
    count = omega (arith, length-append (decimal k n) (d ∷ []))

put_digits-lem : (k n : ℕ) → n < 10 ^ suc k → Puts (suc k) n
unfolding put_digits decimal fill Puts
put_digits-lem zero n lt out m = rw tens refl
  where
    tens : (n / 10 == 0) ≡ true
    tens = ground arith
put_digits-lem (suc k) n lt out m = elim (Bool-cases (n / 10 == 0)) [
  | inl y ↦ rw y refl
  | inr tens ↦
      rw tens
        (Puts-more (suc k) (n / 10) (b'0' + n % 10) out m (put_digits-lem k (n / 10) (omega arith)))
]

fill-append :
    (xs ys : Bytes) (m : Mem) (p : ℕ) → fill m p (xs ++ ys) ≡ fill (fill m p xs) (p + length xs) ys
unfolding fill
fill-append [] ys m p = ap (λ q. fill m q ys) (let e : p ≡ p + 0 = omega arith in e)
fill-append (c ∷ xs) ys m p =
    fill-append xs ys (write m p c) (p + 1)
    ∙ ap (λ q. fill (fill (write m p c) (p + 1) xs) q ys)
        (let e : p + 1 + length xs ≡ p + suc (length xs) = omega arith in e)

length-decimal_le : (k n : ℕ) → length (decimal k n) ≤ k
unfolding decimal
length-decimal_le zero n = omega arith
length-decimal_le (suc k) n = elim (Bool-cases (n / 10 == 0)) [
  | inl y ↦ rw y (let z : 1 ≤ suc k = omega arith in z)
  | inr tens ↦
      rw (tens, length-append (decimal k (n / 10)) ((b'0' + n % 10) ∷ []))
        (let z : length (decimal k (n / 10)) + 1 ≤ suc k =
            omega (arith, length-decimal_le k (n / 10)) in
          z)
]

pub length-decimal_pos : (k n : ℕ) → 0 < length (decimal (suc k) n)
unfolding decimal
length-decimal_pos k n = elim (Bool-cases (n / 10 == 0)) [
  | inl y ↦ rw y (let z : 0 < 1 = omega arith in z)
  | inr tens ↦
      rw (tens, length-append (decimal k (n / 10)) ((b'0' + n % 10) ∷ []))
        (let z : 0 < length (decimal k (n / 10)) + 1 = omega arith in z)
]

-- The memory holds a text at an offset, and is as before outside it.
pub record Holds (cs : Bytes) (m : Mem) (start : ℕ) (m' : Mem) : Type 0 where
  pub text : read m' start (length cs) ≡ cs
  pub kept : (j : ℕ) → (j < start) ⊎ (start + length cs ≤ j) → m' j ≡ m j

finish-lem :
    (cs : Bytes) (start : ℕ) (m : Mem)
    → 0 < length cs
    → length cs < 22
    → (m' : Mem) × (finish start (start + length cs, fill m start (rev cs)) ≡ ok (length cs, m'))
      × Holds cs m start m'
finish-lem cs start m some_byte lt =
    let (m', run, r) =
      reverse_loop-lem 22 (length cs) start (start + length cs - 1) (fill m start (rev cs))
        (omega arith) lt in
    (
      m',
      ap (λ o. and_then o (λ m'. ok (start + length cs - start, m'))) run
          ∙ ap (λ l. ok (l, m')) (let e : start + length cs - start ≡ length cs = omega arith in e),
      record {
        text =
            r.reversed
            ∙ ap rev (
                read_at (fill m start (rev cs)) start start (length cs) (length (rev cs)) refl
                  (sym (length-rev cs))
                ∙ read-fill (rev cs) m start)
            ∙ rev-rev cs;
        kept =
            λ j h. r.kept j h ∙ fill_outside (rev cs) m start j (omega (arith, length-rev cs, h));
      },
    )

signed-fill :
    (cs : Bytes) (start : ℕ) (m : Mem)
    → put_sign true (start + length cs, fill m start (rev cs))
      ≡ (start + length (b'-' ∷ cs), fill m start (rev (b'-' ∷ cs)))
unfolding fill
signed-fill cs start m = cc (
  (let e : start + length cs + 1 ≡ start + suc (length cs) = omega arith in e),
  fill-append (rev cs) (b'-' ∷ []) m start,
  length-rev cs,
)

-- The second pass writes the text of the integer, and nothing else.
pub put_integer-lem :
    (z : ℤ) (start : ℕ) (m : Mem)
    → magnitude z < 10 ^ 20
    → (m' : Mem) × (put_integer z start m ≡ ok (length (int_text z), m'))
      × Holds (int_text z) m start m'
unfolding put_integer Puts
put_integer-lem (pos n) start m lt =
    let (m', run, h) =
      finish-lem (decimal 20 n) start m (length-decimal_pos 19 n)
        (omega (arith, length-decimal_le 20 n)) in
    (
      m',
      ap (λ s. and_then s (λ s. finish start (put_sign false s))) (put_digits-lem 19 n lt start m)
          ∙ run,
      h,
    )
put_integer-lem (negsuc n) start m lt =
    let (m', run, h) =
      finish-lem (b'-' ∷ decimal 20 (suc n)) start m (omega arith)
        (omega (arith, length-decimal_le 20 (suc n))) in
    (
      m',
      ap (λ s. and_then s (λ s. finish start (put_sign true s)))
            (put_digits-lem 19 (suc n) lt start m)
          ∙ ap (finish start) (signed-fill (decimal 20 (suc n)) start m)
          ∙ run,
      h,
    )
