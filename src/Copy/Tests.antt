-- ===== src/Copy/Tests.antt =====
-- The COPY coders at concrete rows.
use ruby_pg.Common.{
  ℕ, ◌+◌, ◌*◌, ◌≤◌, Option, none, some, List, [], ◌∷◌, Bytes, codes, get_or, length, ◌==◌,
  if◌then◌else◌, Outcome, ok, raises, RubyError, ◌≡◌, refl, arith, ok-ne-fault, ◌^◌, ◌<◌, ltb,
  ltb→lt, sym, ap, ◌∙◌, append-nil, Bool-cases, inl, inr, ◌≢◌, fault, ◌++◌,
}
use ruby_pg.Buffer.{Allocator}
use ruby_pg.Coder.{
  bytes_of, direct, buffered, QueryTypeMap, CopyTypeMap, IsHonest, Encoded, NeverFaults,
}
use ruby_pg.Nbo.{write_nbo32, read_nbo32, read_nbo32-write_nbo32}
use ruby_pg.Coder.Samples.{
  generous, strings, strings-IsHonest, plain_strings, plain_strings_sound, strings_inverts,
}
use ruby_pg.Copy.{CopyCoder, allocate, delimiter_set, null_string_set}
use ruby_pg.Copy.Text.{enc_copy_row}
use ruby_pg.Copy.Text.Encode.{escaped, line_text, enc_copy_row-line_text}
use ruby_pg.Copy.Decode.{dec_copy_row}
use ruby_pg.Copy.Decode.Passes.{is_literal, IsMarker}
use ruby_pg.Copy.Decode.Scan.{dec_copy_row-ne-fault}
use ruby_pg.Copy.Decode.Default.{dec_copy_row_default}
use ruby_pg.Copy.Decode.RoundTrip.{IsUsable, dec_copy_row-enc_copy_row}
use ruby_pg.Copy.Binary.{enc_binary_row, dec_binary_row, skip_header}
use ruby_pg.Copy.Binary.Encode.{row_bytes, enc_binary_row-row_bytes}
use ruby_pg.Copy.Binary.Decode.{Inverts, dec_binary_row-enc_binary_row}
use ruby_pg.Copy.Binary.Refuse.{header, dec_binary_row-header, dec_binary_row_short}

abbrev row : List (Option Bytes)
row = some (codes "a\tb") ∷ none ∷ some (codes "c\\") ∷ some [] ∷ []

abbrev line : Bytes
line = codes "a\\\tb\t\\N\tc\\\\\t\n"

enc_copy_row_test : enc_copy_row generous allocate strings row ≡ ok line
unfolding enc_copy_row ruby_pg.Coder.length_int ruby_pg.Copy.Text.write_encoded
    ruby_pg.Escape.escape_forward ruby_pg.Copy.Text.needs_escape ruby_pg.Buffer.put
    ruby_pg.Buffer.ensure_capa ruby_pg.Buffer.str_new ruby_pg.Buffer.put_all
    ruby_pg.Escape.place_escaped ruby_pg.Buffer.place ruby_pg.Escape.spread ruby_pg.Common.read
    ruby_pg.Buffer.store_at ruby_pg.Common.fill ruby_pg.Escape.spread_step
enc_copy_row_test = refl

dec_copy_row_test :
    dec_copy_row allocate plain_strings (codes "\\101\\x42\\n\t\\N\n")
    ≡ ok (some (codes "AB\n") ∷ none ∷ [])
unfolding dec_copy_row ruby_pg.Copy.Decode.scan_field ruby_pg.Copy.Decode.read_escape
    ruby_pg.Copy.Decode.get_decimal_from_hex ruby_pg.Common.strncmp_eq
dec_copy_row_test = refl

dec_copy_row_trailing_test :
    dec_copy_row allocate plain_strings (codes "a\nb") ≡ raises RubyError.arg_error
unfolding dec_copy_row ruby_pg.Copy.Decode.scan_field
dec_copy_row_trailing_test = refl

allocate-IsUsable : IsUsable allocate
unfolding is_literal ruby_pg.Copy.Decode.is_octal
allocate-IsUsable = record {
  delimiter_ok = (refl, omega arith, omega arith);
  marker_ok = IsMarker.quoted refl IsMarker.nil;
  no_null_byte = (omega arith, (omega arith, tt));
}

enc_copy_row-line_text_example :
    enc_copy_row generous allocate strings row ≡ line_text allocate strings row
enc_copy_row-line_text_example =
    enc_copy_row-line_text generous allocate strings strings-IsHonest row

dec_copy_row-ne-fault_example : dec_copy_row allocate plain_strings (codes "a\\") ≢ fault
dec_copy_row-ne-fault_example =
    dec_copy_row-ne-fault allocate plain_strings plain_strings_sound (codes "a\\")

not_marker :
    (v : Bytes) (i : ℕ)
    → escaped b'\t' v ≢ codes "\\N"
    → (e : Encoded) → strings.encode_param v i ≡ ok e
    → escaped b'\t' (bytes_of e) ≢ codes "\\N"
not_marker v i ne e h = ground (arith, strings_inverts v i e h)

first_differs : {cs : Bytes} → b'c' ∷ cs ≢ codes "\\N"
first_differs e = let first : b'c' ≡ b'\\' = ap (λ z. get_or z 0 0) e in omega (arith, first)

dec_copy_row-enc_copy_row_example : dec_copy_row allocate plain_strings line ≡ ok row
unfolding ruby_pg.Copy.Text.needs_escape
dec_copy_row-enc_copy_row_example =
    dec_copy_row-enc_copy_row allocate allocate-IsUsable plain_strings strings generous
      strings-IsHonest strings_inverts refl row (λ e. cc)
      (
        not_marker (codes "a\tb") 0 (λ e. cc),
        (not_marker (codes "c\\") 2 (λ e. first_differs e), (not_marker [] 3 (λ e. cc), tt)),
      )
      enc_copy_row_test

-- The binary format.
abbrev binary_line : Bytes
binary_line = 0 ∷ 3 ∷ 0 ∷ 0 ∷ 0 ∷ 2 ∷ b'h' ∷ b'i' ∷ 255 ∷ 255 ∷ 255 ∷ 255 ∷ 0 ∷ 0 ∷ 0 ∷ 0 ∷ []

abbrev binary_row : List (Option Bytes)
binary_row = some (codes "hi") ∷ none ∷ some [] ∷ []

enc_binary_row_test : enc_binary_row generous strings binary_row ≡ ok binary_line
unfolding enc_binary_row ruby_pg.Coder.length_int ruby_pg.Copy.Binary.write_encoded
    ruby_pg.Buffer.put ruby_pg.Buffer.ensure_capa ruby_pg.Buffer.str_new ruby_pg.Buffer.put_all
    ruby_pg.Common.read ruby_pg.Nbo.write_nbo16 ruby_pg.Nbo.write_nbo32
enc_binary_row_test = refl

dec_binary_row_trailer_test : dec_binary_row plain_strings (255 ∷ 255 ∷ []) ≡ ok none
unfolding dec_binary_row ruby_pg.Copy.Binary.skip_header ruby_pg.Nbo.read_nbo16
dec_binary_row_trailer_test = refl

enc_binary_row-row_bytes_example :
    enc_binary_row generous strings binary_row ≡ row_bytes strings binary_row
enc_binary_row-row_bytes_example =
    enc_binary_row-row_bytes generous strings strings-IsHonest binary_row

-- A 32-bit integer in network byte order.
abbrev integers : QueryTypeMap ℕ
integers = record {
  fit_to_query = λ row. ok tt;
  encode_param = λ v i.
      if ltb v (2 ^ 32) then ok (buffered 4 (write_nbo32 v)) else raises RubyError.range_error;
}

abbrev first_int : Option (ℕ × Bytes) → Outcome ℕ
first_int none = raises RubyError.type_error
first_int (some n) = ok n.0

abbrev int4 : CopyTypeMap ℕ
int4 = record { fit_to_copy_get = ok tt; typecast_copy_get = λ cs i. first_int (read_nbo32 cs) }

length-write_nbo32 : (l : ℕ) → length (write_nbo32 l) ≡ 4
unfolding write_nbo32
length-write_nbo32 l = refl

integers-IsHonest : IsHonest integers
integers-IsHonest v i e h = ground (arith, length-write_nbo32 v)

read_back : (v : ℕ) → v < 2 ^ 32 → read_nbo32 (write_nbo32 v) ≡ some (v, [])
read_back v h = ap read_nbo32 (sym (append-nil (write_nbo32 v))) ∙ read_nbo32-write_nbo32 v [] h

integers_inverts : Inverts int4 integers
integers_inverts v i e h = elim (Bool-cases (ltb v (2 ^ 32))) [
  | inl small ↦
      let e_is : buffered 4 (write_nbo32 v) ≡ e = ground arith in
      rw (← e_is) (
        (sym (length-write_nbo32 v), omega (arith, length-write_nbo32 v)),
        ap first_int (read_back v (ltb→lt v _ small)),
      )
  | inr large ↦ absurd (ground arith)
]

dec_binary_row-enc_binary_row_example :
    dec_binary_row int4 (0 ∷ 2 ∷ 0 ∷ 0 ∷ 0 ∷ 4 ∷ 0 ∷ 0 ∷ 1 ∷ 2 ∷ 255 ∷ 255 ∷ 255 ∷ 255 ∷ [])
    ≡ ok (some (some 258 ∷ none ∷ []))
unfolding enc_binary_row ruby_pg.Coder.length_int ruby_pg.Copy.Binary.write_encoded
    ruby_pg.Buffer.put ruby_pg.Buffer.ensure_capa ruby_pg.Buffer.str_new ruby_pg.Buffer.put_all
    ruby_pg.Common.read ruby_pg.Nbo.write_nbo16 ruby_pg.Nbo.write_nbo32
dec_binary_row-enc_binary_row_example =
    dec_binary_row-enc_binary_row int4 integers generous integers-IsHonest integers_inverts refl
      (some 258 ∷ none ∷ []) (omega arith) refl

dec_binary_row-header_example :
    dec_binary_row plain_strings (header (0 ∷ 0 ∷ 0 ∷ 0 ∷ []) (7 ∷ []) ++ binary_line)
    ≡ dec_binary_row plain_strings binary_line
unfolding skip_header
dec_binary_row-header_example =
    dec_binary_row-header plain_strings (0 ∷ 0 ∷ 0 ∷ 0 ∷ []) (7 ∷ []) binary_line refl (omega arith)
      refl

-- Its coder asks for a byte more than it writes.
abbrev wasteful : QueryTypeMap Bytes
wasteful = record {
  fit_to_query = λ row. ok tt;
  encode_param = λ v i. ok (buffered (length v + 1) v);
}

wasteful-IsHonest : IsHonest wasteful
wasteful-IsHonest v i e h = ground arith

dec_binary_row_short_example :
    dec_binary_row plain_strings (0 ∷ 1 ∷ 0 ∷ 0 ∷ 0 ∷ 3 ∷ b'h' ∷ b'i' ∷ [])
    ≡ raises RubyError.arg_error
unfolding enc_binary_row ruby_pg.Coder.length_int ruby_pg.Copy.Binary.write_encoded
    ruby_pg.Buffer.put ruby_pg.Buffer.ensure_capa ruby_pg.Buffer.str_new ruby_pg.Buffer.put_all
    ruby_pg.Common.read ruby_pg.Nbo.write_nbo16 ruby_pg.Nbo.write_nbo32
dec_binary_row_short_example =
    dec_binary_row_short plain_strings generous wasteful wasteful-IsHonest refl (codes "hi") 3
      (codes "hi") refl (omega arith) (omega arith) refl

-- A value that is the null marker itself.
dec_copy_row_default_example :
    dec_copy_row allocate plain_strings (codes "\\\\N\t\\N\n") ≡ ok (some (codes "\\N") ∷ none ∷ [])
unfolding ruby_pg.Coder.length_int ruby_pg.Copy.Text.needs_escape
dec_copy_row_default_example =
    dec_copy_row_default allocate refl allocate-IsUsable.delimiter_ok (omega arith) plain_strings
      strings generous strings-IsHonest strings_inverts refl (some (codes "\\N") ∷ none ∷ [])
      (λ e. cc)
      (enc_copy_row-line_text generous allocate strings strings-IsHonest
        (some (codes "\\N") ∷ none ∷ []))
