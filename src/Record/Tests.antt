-- ===== src/Record/Tests.antt =====
-- The record coders at concrete rows.
use ruby_pg.Common.{
  Option, none, some, List, [], ◌∷◌, Bytes, codes, ok, raises, RubyError, fault, ◌≡◌, ◌≢◌, refl,
}
use ruby_pg.Coder.Samples.{
  generous, texts, texts-IsHonest, texts_inverts, plain_strings, plain_strings_sound,
}
use ruby_pg.Record.{enc_record, dec_record}
use ruby_pg.Record.Encode.{record_text, enc_record-record_text}
use ruby_pg.Record.Ends.{dec_record-ne-fault}
use ruby_pg.Record.RoundTrip.{dec_record-enc_record}

abbrev row : List (Option Bytes)
row = some (codes "a\"b") ∷ none ∷ some [] ∷ some (codes "c\\,") ∷ []

abbrev composite : Bytes
composite = codes "(\"a\"\"b\",,\"\",\"c\\\\,\")"

enc_record_test : enc_record generous texts row ≡ ok composite
enc_record_test = enc_record-record_text generous texts texts-IsHonest row

dec_record_test :
    dec_record plain_strings (codes " (a \"b,\"\\,, )\n")
    ≡ ok (some (codes "a b,,") ∷ some (codes " ") ∷ [])
unfolding dec_record
dec_record_test = refl

dec_record_junk_test : dec_record plain_strings (codes "(a)b") ≡ raises RubyError.arg_error
unfolding dec_record
dec_record_junk_test = refl

enc_record-record_text_example : enc_record generous texts row ≡ record_text texts row
enc_record-record_text_example = enc_record-record_text generous texts texts-IsHonest row

dec_record-ne-fault_example : dec_record plain_strings (codes "(a,\"") ≢ fault
dec_record-ne-fault_example = dec_record-ne-fault plain_strings plain_strings_sound (codes "(a,\"")

dec_record-enc_record_example : dec_record plain_strings composite ≡ ok row
dec_record-enc_record_example =
    dec_record-enc_record plain_strings texts generous texts-IsHonest texts_inverts refl row
      (λ e. cc) enc_record_test
