-- ===== src/Literal/Tests.antt =====
-- Literals at concrete texts.
use ruby_pg.Common.{
  some, true, false, [], Bytes, codes, length, ltb, if◌then◌else◌, ok, raises, RubyError, ◌≡◌, refl,
  arith,
}
use ruby_pg.Coder.{buffered}
use ruby_pg.Coder.Samples.{generous}
use ruby_pg.Literal.{LiteralCoder, enc_quoted_literal}
use ruby_pg.Literal.Encode.{IsBounded, literal_text, enc_quoted_literal-literal_text, scan_literal}

abbrev coder : LiteralCoder Bytes
coder = record {
  needs_quotation = true;
  encode_elem =
      λ v. if ltb (length v) 1000 then ok (buffered (length v) v) else raises RubyError.arg_error;
}

coder-IsBounded : IsBounded coder
coder-IsBounded value e h = ground arith

abbrev injection : Bytes
injection = codes "x'; --"

enc_quoted_literal-literal_text_example :
    enc_quoted_literal generous coder injection ≡ literal_text coder injection
enc_quoted_literal-literal_text_example =
    enc_quoted_literal-literal_text generous coder coder-IsBounded injection

-- Where standard_conforming_strings is off, a backslash before an apostrophe leaves the literal.
abbrev backslashed : Bytes
backslashed = codes "\\'; --"

left_test :
    (enc_quoted_literal generous coder backslashed ≡ ok (codes "'\\''; --'"))
    × (scan_literal false (codes "\\''; --'") [] ≡ some (codes "\\'", codes "; --'"))
unfolding scan_literal
left_test = (enc_quoted_literal-literal_text generous coder coder-IsBounded backslashed, refl)
