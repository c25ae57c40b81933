-- ===== src/Number/Size.antt =====
-- The size that the first pass of `pg_text_enc_integer` (ext/pg_text_encoder.c) announces, from the
-- leading zeros of the number, is enough for its text.
use ruby_pg.Common.{
  ℕ, zero, suc, ◌+◌, ◌-◌, ◌/◌, ◌%◌, ◌^◌, ◌≤◌, ◌<◌, false, ltb, ◌==◌, Bool-cases, [], ◌∷◌, ◌++◌,
  Bytes, length, length-append, Mem, ok, and_then, ℤ, pos, negsuc, ◌≡◌, inl, inr, refl, ◌∙◌, ap,
  subst, arith,
}
use ruby_pg.Coder.{buffered}
use ruby_pg.Number.{
  leading_zeros, count_leading_zero_bits, magnitude, int_size, put_integer, fixnum,
  text_enc_integer, written,
}
use ruby_pg.Number.Digits.{decimal, int_text, Holds, put_integer-lem}

-- One digit more, for three bits more.
more_bits :
    (cs : Bytes) (d b n : ℕ)
    → n < 2 ^ b
    → 10 ≤ n
    → ((b : ℕ) → n / 10 < 2 ^ b → length cs ≤ b / 3 + 1)
    → length (cs ++ d ∷ []) ≤ b / 3 + 1
more_bits cs d zero n lt ten ih = absurd (omega arith)
more_bits cs d (suc zero) n lt ten ih = absurd (omega arith)
more_bits cs d (suc (suc zero)) n lt ten ih = absurd (omega arith)
more_bits cs d (suc (suc (suc b))) n lt ten ih =
    omega (arith, length-append cs (d ∷ []), ih b (omega arith))

-- A number of b bits has at most one digit more than b / 3.
length-decimal_bits : (k b n : ℕ) → n < 2 ^ b → length (decimal k n) ≤ b / 3 + 1
unfolding decimal
length-decimal_bits zero b n lt = omega arith
length-decimal_bits (suc k) b n lt = elim (Bool-cases (n / 10 == 0)) [
  | inl y ↦ rw y (let z : 1 ≤ b / 3 + 1 = omega arith in z)
  | inr tens ↦ rw tens (
      more_bits (decimal k (n / 10)) (b'0' + n % 10) b n lt (ground arith)
        (λ b lt. length-decimal_bits k b (n / 10) lt))
]

leading_zeros-bits : (w x : ℕ) → x < 2 ^ w → x < 2 ^ (w - leading_zeros w x)
unfolding leading_zeros
leading_zeros-bits zero x lt = lt
leading_zeros-bits (suc w) x lt = elim (Bool-cases (ltb x (2 ^ w))) [
  | inl y ↦ rw y (
      subst (λ e. x < 2 ^ e)
        (let z : w - leading_zeros w x ≡ suc w - suc (leading_zeros w x) = omega arith in z)
        (leading_zeros-bits w x (ground arith)))
  | inr big ↦ rw big (subst (λ e. x < 2 ^ e) (let z : suc w ≡ suc w - 0 = omega arith in z) lt)
]

leading_zeros_le : (w x : ℕ) → leading_zeros w x ≤ w
unfolding leading_zeros
leading_zeros_le zero x = omega arith
leading_zeros_le (suc w) x = elim (Bool-cases (ltb x (2 ^ w))) [
  | inl y ↦
      rw y (let z : suc (leading_zeros w x) ≤ suc w = omega (arith, leading_zeros_le w x) in z)
  | inr big ↦ rw big (let z : 0 ≤ suc w = omega arith in z)
]

zeros_pos : (u x : ℕ) → count_leading_zero_bits u (suc x) ≡ leading_zeros 64 (suc x)
unfolding count_leading_zero_bits
zeros_pos u x = let nonzero : (suc x == 0) ≡ false = ground arith in rw nonzero refl

-- The digits of a number of 64 bits, and the quotient of its leading zeros.
length-decimal_zeros :
    (u x : ℕ)
    → u ≤ 64
    → x < 2 ^ 64
    → length (decimal 20 x) ≤ (2 ^ 64 + 64 - count_leading_zero_bits u x) % 2 ^ 64 / 3 + 1
unfolding count_leading_zero_bits decimal
length-decimal_zeros u zero le lt = omega arith
length-decimal_zeros u (suc x) le lt = omega (
  arith,
  length-decimal_bits 20 (64 - leading_zeros 64 (suc x)) (suc x) (leading_zeros-bits 64 (suc x) lt),
  leading_zeros_le 64 (suc x),
  zeros_pos u x,
)

length-int_text :
    (u : ℕ) (z : ℤ) → u ≤ 64 → magnitude z < 2 ^ 63 → length (int_text z) ≤ int_size u z
unfolding int_size
length-int_text u (pos n) le lt = length-decimal_zeros u n le (omega arith)
length-int_text u (negsuc n) le lt = omega (arith, length-decimal_zeros u (suc n) le (omega arith))

-- For a Fixnum, and whatever the number of leading zeros of 0 is taken to be, from 0 to 64: the
-- second pass of the integer encoder, which writes the digits backwards and reverses them in
-- place, writes the decimal text of the number at the output pointer and nothing else, and the
-- size that the first pass announces is enough for it.
pub text_enc_integer-int_text :
    (u start : ℕ) (m : Mem) (z : ℤ)
    → u ≤ 64
    → magnitude z < 2 ^ 63
    → (text_enc_integer u start m (fixnum z) ≡ ok (buffered (int_size u z) (int_text z)))
      × (length (int_text z) ≤ int_size u z)
      × ((m' : Mem) × (put_integer z start m ≡ ok (length (int_text z), m'))
          × Holds (int_text z) m start m')
unfolding text_enc_integer
text_enc_integer-int_text u start m z le lt =
    let (m', run, h) = put_integer-lem z start m (omega arith) in
    (
      ap (λ s. and_then s (λ s. ok (written (int_size u z) start s))) run
          ∙ ap (λ cs. ok (buffered (int_size u z) cs)) h.text,
      length-int_text u z le lt,
      (m', run, h),
    )
