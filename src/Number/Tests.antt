-- ===== src/Number/Tests.antt =====
-- The text coders of numbers at concrete values.
use ruby_pg.Number.{count_leading_zero_bits, leading_zeros, put_digits, read_digits, reverse_loop}
use ruby_pg.Common.{read}
use ruby_pg.Common.{
  ◌≤◌, ◌<◌, ◌^◌, true, some, Bytes, length, codes, Mem, Outcome, ok, raises, RubyError, and_then, ℤ,
  pos, negsuc, ◌≡◌, refl, arith,
}
use ruby_pg.Coder.{buffered, bytes_of}
use ruby_pg.Number.{
  magnitude, int_size, fast_integer, or_slow, put_integer, fixnum, text_enc_integer,
  text_dec_integer, integer, text_enc_boolean, text_dec_boolean,
}
use ruby_pg.Number.Digits.{int_text, Holds}
use ruby_pg.Number.Size.{text_enc_integer-int_text}
use ruby_pg.Number.RoundTrip.{
  fast_integer-int_text, text_dec_integer-text_enc_integer, fast_integer_lt,
}

abbrev cleared : Mem
cleared j = 0

enc_test : text_enc_integer 63 5 cleared (fixnum (negsuc 1023)) ≡ ok (buffered 5 (codes "-1024"))
unfolding text_enc_integer put_integer put_digits reverse_loop int_size read count_leading_zero_bits
    leading_zeros
enc_test = refl

enc_zero_test : text_enc_integer 63 5 cleared (fixnum (pos 0)) ≡ ok (buffered 1 (codes "0"))
unfolding text_enc_integer put_integer put_digits reverse_loop int_size read count_leading_zero_bits
enc_zero_test = refl

-- The conversion by hand takes a sign alone for 0, and leaves a plus sign to Ruby.
sign_test : text_dec_integer (λ val. raises RubyError.arg_error) (codes "-") ≡ ok (pos 0)
unfolding text_dec_integer fast_integer read_digits
sign_test = refl

plus_test :
    text_dec_integer (λ val. raises RubyError.arg_error) (codes "+1") ≡ raises RubyError.arg_error
unfolding text_dec_integer fast_integer
plus_test = refl

boolean_test : text_enc_boolean 63 5 cleared (integer (pos 12)) ≡ ok (buffered 2 (codes "12"))
unfolding text_enc_boolean text_enc_integer put_integer put_digits reverse_loop int_size read
    count_leading_zero_bits leading_zeros
boolean_test = refl

dec_boolean_test : text_dec_boolean (codes "t") ≡ ok true
unfolding text_dec_boolean
dec_boolean_test = refl

-- A conversion that reads numbers of any length.
abbrev convert : Bytes → Outcome ℤ
convert val = or_slow (fast_integer val) (raises RubyError.arg_error)

convert-int_text :
    (w : ℤ) → 18 < length (int_text w) → magnitude w < 2 ^ 63 → convert (int_text w) ≡ ok w
convert-int_text w long lt = rw (fast_integer-int_text w (omega arith)) refl

text_enc_integer-int_text_example :
    (text_enc_integer 63 5 cleared (fixnum (negsuc 1023))
      ≡ ok (buffered (int_size 63 (negsuc 1023)) (int_text (negsuc 1023))))
    × (length (int_text (negsuc 1023)) ≤ int_size 63 (negsuc 1023))
    × ((m' : Mem) × (put_integer (negsuc 1023) 5 cleared ≡ ok (length (int_text (negsuc 1023)), m'))
        × Holds (int_text (negsuc 1023)) cleared 5 m')
text_enc_integer-int_text_example =
    text_enc_integer-int_text 63 5 cleared (negsuc 1023) (omega arith) (omega arith)

text_dec_integer-text_enc_integer_example :
    and_then
      (text_enc_integer 63 5 cleared (fixnum (negsuc 1023)))
      (λ e. text_dec_integer convert (bytes_of e))
    ≡ ok (negsuc 1023)
text_dec_integer-text_enc_integer_example =
    text_dec_integer-text_enc_integer convert 63 5 cleared (negsuc 1023) (omega arith) (omega arith)
      convert-int_text

nines : fast_integer (codes "-99999999999999999") ≡ some (negsuc 99999999999999998)
unfolding fast_integer read_digits
nines = refl

fast_integer_lt_example : magnitude (negsuc 99999999999999998) < 10 ^ 18
fast_integer_lt_example = fast_integer_lt (codes "-99999999999999999") (omega arith) nines
