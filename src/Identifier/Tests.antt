-- ===== src/Identifier/Tests.antt =====
-- The identifier coders at concrete names.
use ruby_pg.Common.{◌+◌, List, [], ◌∷◌, codes, Bytes, ok, raises, RubyError, ◌≡◌, refl, arith}
use ruby_pg.Buffer.{Allocator}
use ruby_pg.Identifier.{array, string, enc_identifier, dec_identifier}
use ruby_pg.Identifier.Encode.{enc_identifier-identifier_text}
use ruby_pg.Identifier.RoundTrip.{dec_identifier-enc_identifier}

-- A String gets room for what is asked and no more.
abbrev tight : Allocator
tight = record {
  expand = λ len capa more. len + more;
  expand_room = λ len capa more. omega arith;
  embedded = 0;
}

abbrev names : List Bytes
names = codes "a\"b" ∷ codes "c.d" ∷ []

dec_identifier_test : dec_identifier (codes "x.\"y\"\"z\".") ≡ codes "x" ∷ codes "y\"z" ∷ [] ∷ []
unfolding dec_identifier
dec_identifier_test = refl

enc_identifier_null_test : enc_identifier tight (string (97 ∷ 0 ∷ [])) ≡ raises RubyError.arg_error
enc_identifier_null_test = enc_identifier-identifier_text tight (string (97 ∷ 0 ∷ []))

enc_identifier-identifier_text_example :
    enc_identifier tight (array names) ≡ ok (codes "\"a\"\"b\".\"c.d\"")
enc_identifier-identifier_text_example = enc_identifier-identifier_text tight (array names)

dec_identifier-enc_identifier_example : dec_identifier (codes "\"a\"\"b\".\"c.d\"") ≡ names
dec_identifier-enc_identifier_example =
    dec_identifier-enc_identifier tight (array names) (λ e. cc)
      enc_identifier-identifier_text_example
