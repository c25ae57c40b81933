-- ===== src/Number/RoundTrip.antt =====
-- The conversion by hand of the integer decoder (`pg_text_dec_integer` of ext/pg_text_decoder.c).
use ruby_pg.Common.{
  ℕ, zero, suc, ◌+◌, ◌-◌, ◌*◌, ◌/◌, ◌%◌, ◌^◌, ◌≤◌, ◌<◌, true, false, leb, ◌==◌, Bool-cases, Option,
  none, some, [], ◌∷◌, ◌++◌, Bytes, length, Mem, Outcome, ok, and_then, ℤ, pos, negsuc, ◌≡◌, inl,
  inr, ◌∙◌, ap, subst, All, arith,
}
use ruby_pg.Coder.{bytes_of}
use ruby_pg.Number.{
  magnitude, is_digit, read_digits, positive, negated, fast_integer, or_slow, text_dec_integer,
  fixnum, text_enc_integer,
}
use ruby_pg.Number.Digits.{decimal, int_text, length-decimal_pos}
use ruby_pg.Number.Size.{text_enc_integer-int_text}

abbrev Digit : ℕ → Type 0
Digit c = is_digit c ≡ true

All-snoc : (cs : Bytes) (d : ℕ) → All Digit cs → Digit d → All Digit (cs ++ d ∷ [])
All-snoc [] d h e = (e, tt)
All-snoc (c ∷ cs) d (h, hs) e = (h, All-snoc cs d hs e)

read_digits-snoc :
    (cs : Bytes) (d i j : ℕ)
    → All Digit cs
    → Digit d
    → read_digits cs i ≡ some j
    → read_digits (cs ++ d ∷ []) i ≡ some (j * 10 + (d - b'0'))
unfolding read_digits
read_digits-snoc [] d i j h e r = ground arith
read_digits-snoc (c ∷ cs) d i j (h, hs) e r =
    let nonzero : (c == 0) ≡ false = ground arith in
    let r' : read_digits cs (i * 10 + (c - b'0')) ≡ some j = rw (nonzero, h) at r in
    rw (nonzero, h) (read_digits-snoc cs d (i * 10 + (c - b'0')) j hs e r')

Digit-remainder : (n : ℕ) → Digit (b'0' + n % 10)
Digit-remainder n = ground arith

All-decimal : (k n : ℕ) → All Digit (decimal k n)
unfolding decimal
All-decimal zero n = tt
All-decimal (suc k) n = elim (Bool-cases (n / 10 == 0)) [
  | inl y ↦ rw y (Digit-remainder n, tt)
  | inr tens ↦
      rw tens
        (All-snoc (decimal k (n / 10)) (b'0' + n % 10) (All-decimal k (n / 10)) (Digit-remainder n))
]

-- The loop reads the decimal text.
read_digits-decimal : (k n : ℕ) → n < 10 ^ k → read_digits (decimal k n) 0 ≡ some n
unfolding decimal read_digits
read_digits-decimal zero n lt = ap some (let z : 0 ≡ n = omega arith in z)
read_digits-decimal (suc k) n lt = elim (Bool-cases (n / 10 == 0)) [
  | inl y ↦ rw y (ground arith)
  | inr tens ↦ rw tens (
      read_digits-snoc (decimal k (n / 10)) (b'0' + n % 10) 0 (n / 10) (All-decimal k (n / 10))
        (Digit-remainder n) (read_digits-decimal k (n / 10) (omega arith))
      ∙ ap some (let z : n / 10 * 10 + (b'0' + n % 10 - b'0') ≡ n = omega arith in z))
]

fast_digits :
    (cs : Bytes) {n : ℕ}
    → 0 < length cs
    → All Digit cs
    → read_digits cs 0 ≡ some n
    → fast_integer cs ≡ some (pos n)
unfolding fast_integer read_digits
fast_digits [] lt h r = absurd (omega arith)
fast_digits (c ∷ cs) lt (h, hs) r =
    let no_sign : (c == b'-') ≡ false = ground arith in
    let nonzero : (c == 0) ≡ false = ground arith in
    let first : c - b'0' ≡ 0 * 10 + (c - b'0') = omega arith in
    rw (no_sign, h)
      (ap (λ i. positive (read_digits cs i)) first ∙ ap positive (rw (nonzero, h) at r))

pub fast_integer-int_text : (z : ℤ) → magnitude z < 10 ^ 20 → fast_integer (int_text z) ≡ some z
unfolding fast_integer
fast_integer-int_text (pos n) lt =
    fast_digits (decimal 20 n) (length-decimal_pos 19 n) (All-decimal 20 n)
      (read_digits-decimal 20 n lt)
fast_integer-int_text (negsuc n) lt = ap negated (read_digits-decimal 20 (suc n) lt)

-- A Fixnum comes back from the text coders of integers, if Ruby's conversion, which reads what has
-- more than 18 characters, reads the decimal texts of 63-bit integers.
pub text_dec_integer-text_enc_integer :
    (cstr2inum : Bytes → Outcome ℤ) (u start : ℕ) (m : Mem) (z : ℤ)
    → u ≤ 64
    → magnitude z < 2 ^ 63
    → ((w : ℤ) → 18 < length (int_text w) → magnitude w < 2 ^ 63 → cstr2inum (int_text w) ≡ ok w)
    → and_then
        (text_enc_integer u start m (fixnum z))
        (λ e. text_dec_integer cstr2inum (bytes_of e))
      ≡ ok z
unfolding text_dec_integer
text_dec_integer-text_enc_integer cstr2inum u start m z le lt slow =
    ap (λ o. and_then o (λ e. text_dec_integer cstr2inum (bytes_of e)))
      (text_enc_integer-int_text u start m z le lt).0
    ∙ elim (Bool-cases (leb (length (int_text z)) 18)) [
      | inl y ↦
          rw y
            (ap (λ o. or_slow o (cstr2inum (int_text z))) (fast_integer-int_text z (omega arith)))
      | inr long ↦ rw long (slow z (ground arith) lt)
    ]

pow_le : (a b : ℕ) → 10 ^ a ≤ 10 ^ (a + b)
pow_le a zero = subst (λ k. 10 ^ a ≤ 10 ^ k) (let z : a ≡ a + 0 = omega arith in z) (omega arith)
pow_le a (suc b) =
    subst (λ k. 10 ^ a ≤ 10 ^ k) (let z : suc (a + b) ≡ a + suc b = omega arith in z)
      (omega (arith, pow_le a b))

step : (i c a : ℕ) → i < 10 ^ a → Digit c → i * 10 + (c - b'0') < 10 ^ suc a
step i c a lt d = let z : c ≤ b'9' = ground arith in omega arith

read_digits_lt :
    (cs : Bytes) (a b i : ℕ) {j : ℕ}
    → i < 10 ^ a
    → length cs ≤ b
    → read_digits cs i ≡ some j
    → j < 10 ^ (a + b)
unfolding read_digits
read_digits_lt [] a b i lt le r = ground (arith, pow_le a b)
read_digits_lt (c ∷ cs) a zero i lt le r = absurd (omega arith)
read_digits_lt (c ∷ cs) a (suc b) i {j} lt le r = elim (Bool-cases (c == 0)) [
  | inl y ↦ let e : some i ≡ some j = rw y at r in ground (arith, pow_le a (suc b))
  | inr more ↦ elim (Bool-cases (is_digit c)) [
    | inl d ↦
        let e : read_digits cs (i * 10 + (c - b'0')) ≡ some j = rw (more, d) at r in
        subst (λ k. j < 10 ^ k) (let z : suc a + b ≡ a + suc b = omega arith in z)
          (read_digits_lt cs (suc a) b (i * 10 + (c - b'0')) (step i c a lt d) (omega arith) e)
    | inr bad ↦ let e : none ≡ some j = rw (more, bad) at r in cc
  ]
]

positive-magnitude : (o : Option ℕ) {z : ℤ} → positive o ≡ some z → o ≡ some (magnitude z)
positive-magnitude none {z} h = cc
positive-magnitude (some n) {z} h = let e : pos n ≡ z = cc in ap (λ z. some (magnitude z)) e

negated-magnitude : (o : Option ℕ) {z : ℤ} → negated o ≡ some z → o ≡ some (magnitude z)
negated-magnitude none {z} h = cc
negated-magnitude (some zero) {z} h = let e : pos 0 ≡ z = cc in ap (λ z. some (magnitude z)) e
negated-magnitude (some (suc n)) {z} h = let e : negsuc n ≡ z = cc in ap (λ z. some (magnitude z)) e

-- Of at most 18 characters, whatever they are, the conversion by hand reads an integer below 10^18
-- in magnitude, if any: neither the long nor the Fixnum overflows.
pub fast_integer_lt :
    (val : Bytes) {z : ℤ} → length val ≤ 18 → fast_integer val ≡ some z → magnitude z < 10 ^ 18
unfolding fast_integer
fast_integer_lt [] le h = cc
fast_integer_lt (c ∷ val) {z} le h = elim (Bool-cases (c == b'-')) [
  | inl sign ↦
      let e : negated (read_digits val 0) ≡ some z = rw sign at h in
      read_digits_lt val 0 18 0 (omega arith) (omega arith)
        (negated-magnitude (read_digits val 0) e)
  | inr unsigned ↦ elim (Bool-cases (is_digit c)) [
    | inl d ↦
        let e : positive (read_digits val (c - b'0')) ≡ some z = rw (unsigned, d) at h in
        read_digits_lt val 1 17 (c - b'0') (ground arith) (omega arith)
          (positive-magnitude (read_digits val (c - b'0')) e)
    | inr bad ↦ let e : none ≡ some z = rw (unsigned, bad) at h in cc
  ]
]
