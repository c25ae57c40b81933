-- ===== src/Binary/Wrap.antt =====
-- What becomes of each integer in the binary coders of ext/pg_binary_encoder.c and
-- ext/pg_binary_decoder.c.
use ruby_pg.Common.{
  ℕ, ◌+◌, ◌-◌, ◌%◌, ◌^◌, ltb, if◌then◌else◌, Bool-cases, inl, inr, Outcome, ok, raises, RubyError,
  ℤ, pos, negsuc, num2int, ◌↔◌, ◌≡◌, refl, ◌∙◌, ap, arith,
}
use ruby_pg.Binary.{num2ll, low_bits, signed, bin_enc_int2, bin_enc_int4, bin_enc_int8}
use ruby_pg.Binary.Integers.{
  InRange, comes_back, dec_written16, dec_written32, dec_written64, comes_back16, comes_back32,
  comes_back64,
}

-- The integer of w bits that an integer wraps around to, h being 2 ^ (w - 1).
abbrev pub wrap : ℕ → ℤ → ℤ
wrap h (pos n) = let r = n % (h + h) in if ltb r h then pos r else negsuc (h + h - 1 - r)
wrap h (negsuc n) = let r = n % (h + h) in if ltb r h then negsuc r else pos (h + h - 1 - r)

-- The conversion to a C integer of the given range refuses what lies outside; the rest wraps around.
abbrev pub wraps_within : ℕ → ℕ → ℤ → Outcome ℤ
wraps_within c h (pos n) = if ltb n c then ok (wrap h (pos n)) else raises RubyError.range_error
wraps_within c h (negsuc n) =
    if ltb n c then ok (wrap h (negsuc n)) else raises RubyError.range_error

signed-low_bits16 : (z : ℤ) → signed (2 ^ 15) (low_bits (2 ^ 16) z) ≡ wrap (2 ^ 15) z
signed-low_bits16 (pos n) = ground arith
signed-low_bits16 (negsuc n) = ground arith

wraps16 : (z : ℤ) → comes_back (bin_enc_int2 z) ≡ wraps_within (2 ^ 31) (2 ^ 15) z
unfolding bin_enc_int2 num2int
wraps16 (pos n) = elim (Bool-cases (ltb n (2 ^ 31))) [
  | inl y ↦ rw y (dec_written16 (pos n) ∙ ap ok (signed-low_bits16 (pos n)))
  | inr out ↦ rw out refl
]
wraps16 (negsuc n) = elim (Bool-cases (ltb n (2 ^ 31))) [
  | inl y ↦ rw y (dec_written16 (negsuc n) ∙ ap ok (signed-low_bits16 (negsuc n)))
  | inr out ↦ rw out refl
]

signed-low_bits32 : (z : ℤ) → signed (2 ^ 31) (low_bits (2 ^ 32) z) ≡ wrap (2 ^ 31) z
signed-low_bits32 (pos n) = ground arith
signed-low_bits32 (negsuc n) = ground arith

wraps32 : (z : ℤ) → comes_back (bin_enc_int4 z) ≡ wraps_within (2 ^ 63) (2 ^ 31) z
unfolding bin_enc_int4 num2ll
wraps32 (pos n) = elim (Bool-cases (ltb n (2 ^ 63))) [
  | inl y ↦ rw y (dec_written32 (pos n) ∙ ap ok (signed-low_bits32 (pos n)))
  | inr out ↦ rw out refl
]
wraps32 (negsuc n) = elim (Bool-cases (ltb n (2 ^ 63))) [
  | inl y ↦ rw y (dec_written32 (negsuc n) ∙ ap ok (signed-low_bits32 (negsuc n)))
  | inr out ↦ rw out refl
]

signed-low_bits64 : (z : ℤ) → signed (2 ^ 63) (low_bits (2 ^ 64) z) ≡ wrap (2 ^ 63) z
signed-low_bits64 (pos n) = ground arith
signed-low_bits64 (negsuc n) = ground arith

wraps64 : (z : ℤ) → comes_back (bin_enc_int8 z) ≡ wraps_within (2 ^ 63) (2 ^ 63) z
unfolding bin_enc_int8 num2ll
wraps64 (pos n) = elim (Bool-cases (ltb n (2 ^ 63))) [
  | inl y ↦ rw y (dec_written64 (pos n) ∙ ap ok (signed-low_bits64 (pos n)))
  | inr out ↦ rw out refl
]
wraps64 (negsuc n) = elim (Bool-cases (ltb n (2 ^ 63))) [
  | inl y ↦ rw y (dec_written64 (negsuc n) ∙ ap ok (signed-low_bits64 (negsuc n)))
  | inr out ↦ rw out refl
]

-- `int2` takes the integers of 32 bits, `int4` and `int8` those of 64 bits, and they refuse all
-- others with a RangeError. Of an integer that is taken, what is decoded again is the integer of
-- 16, 32 or 64 bits that it wraps around to; this is the integer itself exactly for those that
-- have as many bits, so the others lose their high bits without an exception.
pub comes_back-wrap :
    (z : ℤ)
    → (comes_back (bin_enc_int2 z) ≡ wraps_within (2 ^ 31) (2 ^ 15) z)
      × (comes_back (bin_enc_int4 z) ≡ wraps_within (2 ^ 63) (2 ^ 31) z)
      × (comes_back (bin_enc_int8 z) ≡ wraps_within (2 ^ 63) (2 ^ 63) z)
      × ((comes_back (bin_enc_int2 z) ≡ ok z) ↔ InRange (2 ^ 15) z)
      × ((comes_back (bin_enc_int4 z) ≡ ok z) ↔ InRange (2 ^ 31) z)
      × ((comes_back (bin_enc_int8 z) ≡ ok z) ↔ InRange (2 ^ 63) z)
comes_back-wrap z =
    (wraps16 z, wraps32 z, wraps64 z, comes_back16 z, comes_back32 z, comes_back64 z)
