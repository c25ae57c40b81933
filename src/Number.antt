-- ===== src/Number.antt =====
-- The text coders of integers and booleans: `pg_text_enc_integer`, `pg_text_enc_boolean` and
-- `count_leading_zero_bits` of ext/pg_text_encoder.c, `pg_text_dec_integer` and
-- `pg_text_dec_boolean` of ext/pg_text_decoder.c. A long has 64 bits and a Fixnum 63.
pub mod Reverse
pub mod Digits
pub mod Size
pub mod RoundTrip
mod Tests
use ruby_pg.Coder.{Encoded, direct, buffered}
use ruby_pg.Common.{
  ℕ, zero, suc, ◌+◌, ◌-◌, ◌*◌, ◌/◌, ◌%◌, ◌^◌, Bool, true, false, not, ltb, leb, ◌==◌, ◌&&◌,
  if◌then◌else◌, Option, none, some, [], ◌∷◌, Bytes, length, Mem, read, write, Outcome, ok, fault,
  raises, RubyError, and_then, ℤ, pos, negsuc,
}

-- The leading zeros of a number of w bits.
unfoldable pub leading_zeros : ℕ → ℕ → ℕ
leading_zeros zero x = 0
leading_zeros (suc w) x = if ltb x (2 ^ w) then suc (leading_zeros w x) else 0

-- `__builtin_clzll`, which does not define a result for 0: it is a parameter.
unfoldable pub count_leading_zero_bits : ℕ → ℕ → ℕ
count_leading_zero_bits undefined x = if x == 0 then undefined else leading_zeros 64 x

-- `ll = -sll` in unsigned arithmetic, or `ll = sll`.
abbrev pub magnitude : ℤ → ℕ
magnitude (pos n) = n
magnitude (negsuc n) = suc n

abbrev pub is_negative : ℤ → Bool
is_negative (pos n) = false
is_negative (negsuc n) = true

-- The first pass for a Fixnum. The difference is unsigned.
unfoldable pub int_size : ℕ → ℤ → ℕ
int_size undefined sll =
    let len = (2 ^ 64 + 64 - count_leading_zero_bits undefined (magnitude sll)) % 2 ^ 64 / 3 in
    if is_negative sll then len + 2 else len + 1

-- Compute the result string backwards.
unfoldable pub put_digits : ℕ → ℕ → ℕ → Mem → Outcome (ℕ × Mem)
put_digits zero ll out m = fault
put_digits (suc fuel) ll out m =
    if ll / 10 == 0
    then ok (out + 1, write m out (b'0' + ll % 10))
    else put_digits fuel (ll / 10) (out + 1) (write m out (b'0' + ll % 10))

-- `if (neg) *out++ = '-'`
abbrev pub put_sign : Bool → ℕ × Mem → ℕ × Mem
put_sign true (out, m) = (out + 1, write m out b'-')
put_sign false (out, m) = (out, m)

-- Reverse string.
unfoldable pub reverse_loop : ℕ → ℕ → ℕ → Mem → Outcome Mem
reverse_loop zero start out m = fault
reverse_loop (suc fuel) start out m =
    if ltb start out
    then reverse_loop fuel (start + 1) (out - 1) (write (write m start (m out)) out (m start))
    else ok m

-- The length and the memory from behind the last digit on.
abbrev pub finish : ℕ → ℕ × Mem → Outcome (ℕ × Mem)
finish start (out, m) = and_then (reverse_loop 22 start (out - 1) m) (λ m'. ok (out - start, m'))

-- The second pass, which writes at `start`.
unfoldable pub put_integer : ℤ → ℕ → Mem → Outcome (ℕ × Mem)
put_integer sll start m =
    and_then (put_digits 20 (magnitude sll) start m)
      (λ s. finish start (put_sign (is_negative sll) s))

abbrev pub is_digit : ℕ → Bool
is_digit c = leb b'0' c && leb c b'9'

-- The loop of the decoder, to the terminator; `none` is the error.
unfoldable pub read_digits : Bytes → ℕ → Option ℕ
read_digits [] i = some i
read_digits (digit ∷ val) i =
    if digit == 0
    then some i
    else if is_digit digit
    then read_digits val (i * 10 + (digit - b'0'))
    else none

abbrev pub positive : Option ℕ → Option ℤ
positive none = none
positive (some i) = some (pos i)

abbrev pub negated : Option ℕ → Option ℤ
negated none = none
negated (some zero) = some (pos 0)
negated (some (suc i)) = some (negsuc i)

-- The conversion by hand.
unfoldable pub fast_integer : Bytes → Option ℤ
fast_integer [] = none
fast_integer (digit ∷ val) =
    if digit == b'-'
    then negated (read_digits val 0)
    else if is_digit digit
    then positive (read_digits val (digit - b'0'))
    else none

-- `return LONG2FIX(...)`, or else the fallback.
abbrev pub or_slow : Option ℤ → Outcome ℤ → Outcome ℤ
or_slow none slow = slow
or_slow (some z) slow = ok z

-- `pg_text_dec_integer`, where Ruby's conversion is a parameter.
unfoldable pub text_dec_integer : (Bytes → Outcome ℤ) → Bytes → Outcome ℤ
text_dec_integer cstr2inum val =
    if leb (length val) 18 then or_slow (fast_integer val) (cstr2inum val) else cstr2inum val

-- What `pg_obj_to_i` gives: a Fixnum, or another number with its `to_s`.
pub data Integer : Type 0 where
  fixnum : ℤ → Integer
  other : Bytes → Integer

-- What was written at `start`.
abbrev pub written : ℕ → ℕ → ℕ × Mem → Encoded
written size start (len, m) = buffered size (read m start len)

-- `pg_text_enc_integer`, both passes.
unfoldable pub text_enc_integer : ℕ → ℕ → Mem → Integer → Outcome Encoded
text_enc_integer undefined start m (other to_s) = ok (direct to_s)
text_enc_integer undefined start m (fixnum sll) =
    and_then (put_integer sll start m) (λ s. ok (written (int_size undefined sll) start s))

-- A Ruby value as far as the boolean encoder tells values apart; any other has a `to_s`.
pub data Value : Type 0 where
  boolean : Bool → Value
  integer : ℤ → Value
  other_value : Bytes → Value

-- `pg_text_enc_boolean`, for Integers that are Fixnums.
unfoldable pub text_enc_boolean : ℕ → ℕ → Mem → Value → Outcome Encoded
text_enc_boolean undefined start m (boolean false) = ok (buffered 1 (b'f' ∷ []))
text_enc_boolean undefined start m (boolean true) = ok (buffered 1 (b't' ∷ []))
text_enc_boolean undefined start m (integer (pos zero)) = ok (buffered 1 (b'0' ∷ []))
text_enc_boolean undefined start m (integer (pos (suc zero))) = ok (buffered 1 (b'1' ∷ []))
text_enc_boolean undefined start m (integer (pos (suc (suc n)))) =
    text_enc_integer undefined start m (fixnum (pos (suc (suc n))))
text_enc_boolean undefined start m (integer (negsuc n)) =
    text_enc_integer undefined start m (fixnum (negsuc n))
text_enc_boolean undefined start m (other_value to_s) = ok (direct to_s)

-- `pg_text_dec_boolean`
unfoldable pub text_dec_boolean : Bytes → Outcome Bool
text_dec_boolean [] = raises RubyError.type_error
text_dec_boolean (c ∷ val) = ok (c == b't')
