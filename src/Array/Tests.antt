-- ===== src/Array/Tests.antt =====
-- The array coders at concrete values.
use ruby_pg.Common.{
  ℕ, Bool, ok-ne-fault, fault, ◌≢◌, ◌+◌, ◌*◌, ◌^◌, ◌≤◌, ◌<◌, Option, none, some, true, false, [],
  ◌∷◌, Bytes, codes, length, ltb, ltb→lt, ◌==◌, if◌then◌else◌, Outcome, ok, raises, RubyError, ◌≡◌,
  refl, arith, Bool-cases, inl, inr,
}
use ruby_pg.Coder.{Encoded, direct, buffered}
use ruby_pg.Coder.Samples.{generous}
use ruby_pg.Array.{Entry, Entries, nil, value, array, stop, and, ArrayCoder, enc_array}
use ruby_pg.Array.Decode.{ArrayDecoder, dec_array}
use ruby_pg.Array.Decode.Ends.{dec_array-ne-fault}
use ruby_pg.Array.Encode.{IsBounded, array_text, enc_array-array_text}

-- Short texts; a nested Array is no element.
abbrev encode_text : Entry Bytes → Outcome Encoded
encode_text (value v) =
    if ltb (length v) 1000
    then ok (if length v == 3 then direct v else buffered (length v) v)
    else raises RubyError.arg_error
encode_text nil = raises RubyError.type_error
encode_text (array entries) = raises RubyError.type_error

abbrev coder : Option ℕ → ArrayCoder Bytes
coder dimensions = record {
  delimiter = b',';
  needs_quotation = true;
  dimensions = dimensions;
  encode_elem = encode_text;
  to_s = λ v. raises RubyError.type_error;
}

coder-IsBounded : (dimensions : Option ℕ) → IsBounded (coder dimensions)
coder-IsBounded dimensions nil e h = absurd (ground arith)
coder-IsBounded dimensions (array entries) e h = absurd (ground arith)
coder-IsBounded dimensions (value v) e h = ground arith

abbrev item : Bytes → Entries Bytes → Entries Bytes
item v rest = and (value v) rest

abbrev nested : Entry Bytes
nested = array (
    and (array (item (codes "a\"b") (and nil stop)))
      (and (array (item (codes "x") (item (codes "null") stop))) stop))

abbrev nested_text : Bytes
nested_text = codes "{{\"a\\\"b\",NULL},{x,\"null\"}}"

enc_array_test : array_text (coder none) nested ≡ ok nested_text
unfolding array_text ruby_pg.Array.Encode.entries_text ruby_pg.Quote.needquote
enc_array_test = refl

enc_array_dimensions_test :
    array_text (coder (some 2)) (array (item (codes "x") stop)) ≡ raises RubyError.arg_error
unfolding array_text ruby_pg.Array.Encode.entries_text
enc_array_dimensions_test = refl

enc_array-array_text_example :
    enc_array generous (coder (some 2)) nested ≡ array_text (coder (some 2)) nested
enc_array-array_text_example =
    enc_array-array_text generous (coder (some 2)) (coder-IsBounded (some 2)) nested

-- Decoding.
abbrev decoder : Bool → ArrayDecoder Bytes
decoder to_raise = record { delimiter = b','; to_raise = to_raise; decode_elem = λ cs. ok cs }

dec_array_test :
    dec_array (decoder true) nested_text
    ≡ ok (
        and
          (array (item (codes "a\"b") (and nil stop)))
          (and (array (item (codes "x") (item (codes "null") stop))) stop))
unfolding dec_array ruby_pg.Array.Decode.read_array_without_dim ruby_pg.Array.Decode.store_word
    ruby_pg.Array.Decode.end_word ruby_pg.Common.strncmp_eq ruby_pg.Common.read
dec_array_test = refl

dec_array_dims_test :
    dec_array (decoder true) (codes "[1:2]={x,y} ") ≡ ok (item (codes "x") (item (codes "y") stop))
unfolding dec_array ruby_pg.Array.Decode.read_array_without_dim ruby_pg.Array.Decode.store_word
    ruby_pg.Array.Decode.end_word ruby_pg.Common.strncmp_eq ruby_pg.Common.read
dec_array_dims_test = refl

-- What a nested Array leaves in the shared buffer is read as the start of a quoted word behind it.
dec_array_shared_word_test :
    dec_array (decoder true) (codes "{ab{cd}\"xyz\"}")
    ≡ ok (and (array (item (codes "cd") stop)) (item (codes "cdxyz") stop))
unfolding dec_array ruby_pg.Array.Decode.read_array_without_dim ruby_pg.Array.Decode.store_word
    ruby_pg.Array.Decode.end_word ruby_pg.Common.strncmp_eq ruby_pg.Common.read
dec_array_shared_word_test = refl

-- Without exceptions on format errors, the empty String is read behind its null byte.
dec_array_empty_test : dec_array (decoder false) [] ≡ fault
unfolding dec_array ruby_pg.Array.Decode.read_array_without_dim ruby_pg.Array.Decode.store_word
    ruby_pg.Array.Decode.end_word ruby_pg.Common.strncmp_eq ruby_pg.Common.read
dec_array_empty_test = refl

dec_array-ne-fault_example : dec_array (decoder true) (codes "{a,{\"b") ≢ fault
dec_array-ne-fault_example =
    dec_array-ne-fault (decoder true) refl (λ cs. ok-ne-fault) (codes "{a,{\"b")
