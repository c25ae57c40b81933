-- ===== src/Binary.antt =====
-- The binary coders of booleans and integers: `pg_bin_enc_boolean`, `pg_bin_enc_int2`,
-- `pg_bin_enc_int4` and `pg_bin_enc_int8` of ext/pg_binary_encoder.c, `pg_bin_dec_boolean` and
-- `pg_bin_dec_integer` of ext/pg_binary_decoder.c. A long has 64 bits.
pub mod Integers
pub mod Wrap
mod Tests
use ruby_pg.Common.{
  ℕ, suc, ◌+◌, ◌-◌, ◌%◌, ◌^◌, Bool, true, false, ltb, leb, ◌==◌, if◌then◌else◌, Option, none, some,
  List, [], ◌∷◌, Bytes, length, Outcome, ok, raises, fault, RubyError, and_then, ℤ, pos, negsuc,
  num2int,
}
use ruby_pg.Nbo.{write_nbo16, write_nbo32, write_nbo64, read_nbo16, read_nbo32, read_nbo64}
use ruby_pg.Coder.{Encoded, direct, buffered}

-- `NUM2LONG` and `NUM2LL`: Ruby raises RangeError for an Integer that is no 64-bit integer.
unfoldable pub num2ll : ℤ → Outcome ℤ
num2ll (pos n) = if ltb n (2 ^ 63) then ok (pos n) else raises RubyError.range_error
num2ll (negsuc n) = if ltb n (2 ^ 63) then ok (negsuc n) else raises RubyError.range_error

-- The low bits of an integer, m being 2 ^ w.
abbrev pub low_bits : ℕ → ℤ → ℕ
low_bits m (pos n) = n % m
low_bits m (negsuc n) = m - 1 - n % m

-- The signed integer of a bit pattern below 2 * h, h being 2 ^ (w - 1).
abbrev pub signed : ℕ → ℕ → ℤ
signed h l = if ltb l h then pos l else negsuc (h + h - 1 - l)

-- A Ruby value as far as the boolean encoder tells values apart.
pub data Value : Type 0 where
  boolean : Bool → Value
  other : Value

unfoldable pub bin_enc_boolean : Value → Outcome Encoded
bin_enc_boolean (boolean true) = ok (buffered 1 (1 ∷ []))
bin_enc_boolean (boolean false) = ok (buffered 1 (0 ∷ []))
bin_enc_boolean other = raises RubyError.type_error

-- The encoders of integers, behind `pg_obj_to_i`.
unfoldable pub bin_enc_int2 : ℤ → Outcome Encoded
bin_enc_int2 z = and_then (num2int z) (λ i. ok (buffered 2 (write_nbo16 (low_bits (2 ^ 16) i))))

unfoldable pub bin_enc_int4 : ℤ → Outcome Encoded
bin_enc_int4 z = and_then (num2ll z) (λ i. ok (buffered 4 (write_nbo32 (low_bits (2 ^ 32) i))))

unfoldable pub bin_enc_int8 : ℤ → Outcome Encoded
bin_enc_int8 z = and_then (num2ll z) (λ i. ok (buffered 8 (write_nbo64 (low_bits (2 ^ 64) i))))

unfoldable pub bin_dec_boolean : Bytes → Outcome Bool
bin_dec_boolean [] = raises RubyError.type_error
bin_dec_boolean (c ∷ val) = ok (if c == 0 then false else true)

-- A load of as many bytes as the value has.
abbrev pub loaded : ℕ → Option (ℕ × Bytes) → Outcome ℤ
loaded h none = fault
loaded h (some (l, rest)) = ok (signed h l)

-- `switch( len )`
unfoldable pub bin_dec_integer : Bytes → Outcome ℤ
bin_dec_integer val =
    if length val == 2
    then loaded (2 ^ 15) (read_nbo16 val)
    else if length val == 4
    then loaded (2 ^ 31) (read_nbo32 val)
    else if length val == 8
    then loaded (2 ^ 63) (read_nbo64 val)
    else raises RubyError.type_error
