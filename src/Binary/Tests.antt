-- ===== src/Binary/Tests.antt =====
-- The binary coders at concrete values.
use ruby_pg.Nbo.{read_nbo16, write_nbo16, write_nbo32}
use ruby_pg.Common.{
  ◌^◌, ◌<◌, true, [], ◌∷◌, ok, raises, RubyError, pos, negsuc, num2int, ◌↔◌, ◌≡◌, refl,
}
use ruby_pg.Coder.{buffered}
use ruby_pg.Binary.{
  boolean, bin_enc_boolean, num2ll, bin_enc_int2, bin_enc_int4, bin_enc_int8, bin_dec_integer,
}
use ruby_pg.Binary.Integers.{comes_back}
use ruby_pg.Binary.Wrap.{comes_back-wrap}

boolean_test : bin_enc_boolean (boolean true) ≡ ok (buffered 1 (1 ∷ []))
unfolding bin_enc_boolean
boolean_test = refl

-- 70000 is encoded as 4464.
truncated_test : comes_back (bin_enc_int2 (pos 70000)) ≡ ok (pos 4464)
unfolding bin_enc_int2 num2int bin_dec_integer write_nbo16 read_nbo16
truncated_test = refl

negative_test : bin_enc_int4 (negsuc 0) ≡ ok (buffered 4 (255 ∷ 255 ∷ 255 ∷ 255 ∷ []))
unfolding bin_enc_int4 num2ll write_nbo32
negative_test = refl

length_test : bin_dec_integer (1 ∷ 2 ∷ 3 ∷ []) ≡ raises RubyError.type_error
unfolding bin_dec_integer
length_test = refl

comes_back-wrap_example :
    (comes_back (bin_enc_int2 (pos 70000)) ≡ ok (pos 4464))
    × (comes_back (bin_enc_int4 (pos 70000)) ≡ ok (pos 70000))
    × (comes_back (bin_enc_int8 (pos 70000)) ≡ ok (pos 70000))
    × ((comes_back (bin_enc_int2 (pos 70000)) ≡ ok (pos 70000)) ↔ (70000 < 2 ^ 15))
    × ((comes_back (bin_enc_int4 (pos 70000)) ≡ ok (pos 70000)) ↔ (70000 < 2 ^ 31))
    × ((comes_back (bin_enc_int8 (pos 70000)) ≡ ok (pos 70000)) ↔ (70000 < 2 ^ 63))
comes_back-wrap_example = comes_back-wrap (pos 70000)
