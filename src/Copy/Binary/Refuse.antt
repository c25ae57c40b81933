-- ===== src/Copy/Binary/Refuse.antt =====
-- The binary decoder at a file header, and at a field that is shorter than its declared length.
use ruby_pg.Common.{
  ℕ, suc, ◌^◌, ◌<◌, true, false, some, [], ◌∷◌, ◌++◌, Bytes, length, leb, ok, raises, RubyError,
  and_then, and_then-eq-ok, ◌≡◌, refl, arith, ◌∙◌, ap, sym, append_assoc, append-nil,
}
use ruby_pg.Buffer.{Allocator}
use ruby_pg.Nbo.{write_nbo16, write_nbo32, read_nbo16-write_nbo16, read_nbo32-write_nbo32}
use ruby_pg.Coder.{buffered, length_int, CopyTypeMap, QueryTypeMap, IsHonest}
use ruby_pg.Coder.Refines.{join}
use ruby_pg.Copy.Binary.{
  enc_binary_row, signature, skip_header, read_field, read_row, end_row, dec_binary_row,
}
use ruby_pg.Copy.Binary.Encode.{row_text, enc_binary_row-row_bytes}
use ruby_pg.Copy.Binary.Decode.{advance-append, skip_header-none, few_columns}

-- The file header: signature, four bytes of flags, and an extension behind its length.
abbrev pub header : Bytes → Bytes → Bytes
header flags extension = signature ++ (flags ++ (write_nbo32 (length extension) ++ extension))

skip_header-header :
    (flags extension body : Bytes)
    → length flags ≡ 4
    → length extension < 2 ^ 31
    → skip_header (header flags extension ++ body) ≡ ok body
unfolding skip_header
skip_header-header flags extension body f e =
    let size = write_nbo32 (length extension) in
    let rest : (flags ++ (size ++ extension)) ++ body ≡ flags ++ (size ++ (extension ++ body)) =
      append_assoc flags (size ++ extension) body
      ∙ ap (λ z. flags ++ z) (append_assoc size extension body) in
    rw (
      rest,
      advance-append 4 flags (size ++ (extension ++ body)) (sym f),
      read_nbo32-write_nbo32 (length extension) (extension ++ body) (omega arith),
      leb_false (length extension) e,
      advance-append (length extension) extension body refl,
      long (length (flags ++ (size ++ (extension ++ body)))),
    )
  where
    long :
        (n : ℕ) → leb 11 (suc (suc (suc (suc (suc (suc (suc (suc (suc (suc (suc n))))))))))) ≡ true
    long n = ground arith

    leb_false : (n : ℕ) → n < 2 ^ 31 → leb (2 ^ 31) n ≡ false
    leb_false n h = ground arith

module _ {V : Type 0} (tm : CopyTypeMap V) where
  -- A row behind a file header is decoded like the row alone, if it does not begin with a second
  -- signature itself and the extension's length is a positive int.
  pub dec_binary_row-header :
      (flags extension body : Bytes)
      → length flags ≡ 4
      → length extension < 2 ^ 31
      → skip_header body ≡ ok body
      → dec_binary_row tm (header flags extension ++ body) ≡ dec_binary_row tm body
  unfolding dec_binary_row
  dec_binary_row-header flags extension body f e plain =
      ap
        (λ r.
          and_then tm.fit_to_copy_get
            (λ _. and_then r (λ cur. and_then (read_row tm cur) (end_row tm))))
        (skip_header-header flags extension body f e ∙ sym plain)

  -- A single column whose coder announces more bytes than it writes is encoded to a line that the
  -- decoder refuses as truncated.
  pub dec_binary_row_short :
      (a : Allocator) (enc : QueryTypeMap V)
      → IsHonest enc
      → tm.fit_to_copy_get ≡ ok tt
      → (v : V) (n : ℕ) (cs : Bytes) {line : Bytes} → enc.encode_param v 0 ≡ ok (buffered n cs)
      → length cs < n
      → n < 2 ^ 31
      → enc_binary_row a enc (some v ∷ []) ≡ ok line
      → dec_binary_row tm line ≡ raises RubyError.arg_error
  unfolding dec_binary_row
  dec_binary_row_short a enc honest fit v n cs {line} is short small e =
      let (few, described) =
        few_columns enc (some v ∷ []) (sym (enc_binary_row-row_bytes a enc honest _) ∙ e) in
      let (_, fits, body) = and_then-eq-ok (enc.fit_to_query (some v ∷ [])) _ described in
      let line_is = short_line body in
      ap
        (λ r.
          and_then r
            (λ _. and_then (skip_header line) (λ cur. and_then (read_row tm cur) (end_row tm))))
        fit
      ∙ ap (λ l. and_then (skip_header l) (λ cur. and_then (read_row tm cur) (end_row tm))) line_is
      ∙ ap (λ r. and_then r (λ cur. and_then (read_row tm cur) (end_row tm)))
          (skip_header-none 1 (write_nbo32 n ++ cs) (omega arith) (omega arith))
      ∙ ap (λ r. and_then r (end_row tm)) truncated
    where
      short_line :
          join (ok (write_nbo16 1)) (row_text enc (some v ∷ []) 0) ≡ ok line
          → line ≡ write_nbo16 1 ++ (write_nbo32 n ++ cs)
      short_line body =
          let text_is : row_text enc (some v ∷ []) 0 ≡ ok (write_nbo32 n ++ cs) =
            rw is (unfold length_int in ap ok (append-nil (write_nbo32 n ++ cs))) in
          let whole = rw text_is at body in cc

      field_short : read_field tm n cs 0 ≡ raises RubyError.arg_error
      field_short = ground arith

      truncated : read_row tm (write_nbo16 1 ++ (write_nbo32 n ++ cs)) ≡ raises RubyError.arg_error
      truncated = rw (
        read_nbo16-write_nbo16 1 (write_nbo32 n ++ cs) (omega arith),
        read_nbo32-write_nbo32 n cs (omega arith),
        field_short,
      )
