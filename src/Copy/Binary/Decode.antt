-- ===== src/Copy/Binary/Decode.antt =====
-- Decoding what the binary row encoder wrote, and what the decoder refuses.
use ruby_pg.Common.{
  ℕ, zero, suc, ◌+◌, ◌^◌, ◌<◌, false, Option, none, some, List, [], ◌∷◌, ◌++◌, Bytes, length, leb,
  take-append, drop-append, length-append, ok, and_then, and_then-eq-ok, ◌≡◌, ◌≢◌, refl, arith,
  append-nil, Bool-cases, inl, inr, ◌∙◌, ap, sym, append_assoc,
}
use ruby_pg.Buffer.{Allocator}
use ruby_pg.Nbo.{
  write_nbo16, write_nbo32, read_nbo32, read_nbo16-write_nbo16, read_nbo32-write_nbo32, minus_one32,
}
use ruby_pg.Coder.{
  Encoded, bytes_of, length_int, length_int_id, IsHonest, QueryTypeMap, CopyTypeMap,
}
use ruby_pg.Coder.Refines.{join, join-eq-ok}
use ruby_pg.Copy.Binary.{
  enc_binary_row, advance, skip_header, read_field, read_fields, read_row, end_row, dec_binary_row,
}
use ruby_pg.Copy.Binary.Encode.{
  declared, field_text, entry_text, row_text, row_bytes, enc_binary_row-row_bytes,
}

pub advance-append :
    (n : ℕ) (cs rest : Bytes) → n ≡ length cs → advance n (cs ++ rest) ≡ ok (cs, rest)
unfolding advance
advance-append n cs rest e =
    ground (arith, length-append cs rest, take-append n cs rest e, drop-append n cs rest e)

-- A line that does not begin with the signature has no header.
pub skip_header-none :
    (n : ℕ) (t : Bytes)
    → n < 2 ^ 16
    → n ≢ 0x5047
    → skip_header (write_nbo16 n ++ t) ≡ ok (write_nbo16 n ++ t)
unfolding skip_header write_nbo16
skip_header-none n t h ne = ground arith

-- The declared length is the number of bytes that follow, and it is a positive int.
abbrev pub IsExact : Encoded → Type 0
IsExact e = (declared e ≡ length (bytes_of e)) × (length (bytes_of e) < 2 ^ 31)

pub few_columns :
    {V : Type 0} (enc : QueryTypeMap V) (row : List (Option V)) {line : Bytes}
    → row_bytes enc row ≡ ok line
    → (length row < 32768)
      × (and_then
            (enc.fit_to_query row)
            (λ _. join (ok (write_nbo16 (length row))) (row_text enc row 0))
          ≡ ok line)
few_columns enc row h = elim (Bool-cases (leb 32768 (length row))) [
  | inl many ↦ cc (rw (many) at h)
  | inr few ↦ (ground arith, rw (few) at h)
]

module _ {V : Type 0} (dec : CopyTypeMap V) where
  read_field-value :
      (cs rest : Bytes) (i n : ℕ) (v : V)
      → n ≡ length cs
      → n < 2 ^ 31
      → dec.typecast_copy_get cs i ≡ ok v
      → read_field dec n (cs ++ rest) i ≡ ok (some v, rest)
  unfolding read_field
  read_field-value cs rest i n v e small h = ground (arith, advance-append n cs rest e)

  read_field-null : (rest : Bytes) (i : ℕ) → read_field dec minus_one32 rest i ≡ ok (none, rest)
  unfolding read_field
  read_field-null rest i = refl

  read_fields-suc :
      (n i size : ℕ) (cur c1 c2 c3 : Bytes) (v : Option V) (vs : List (Option V))
      → read_nbo32 cur ≡ some (size, c1)
      → read_field dec size c1 i ≡ ok (v, c2)
      → read_fields dec n c2 (i + 1) ≡ ok (vs, c3)
      → read_fields dec (suc n) cur i ≡ ok (v ∷ vs, c3)
  unfolding read_fields
  read_fields-suc n i size cur c1 c2 c3 v vs h1 h2 h3 = rw (h1, h2, h3)

  module _ (enc : QueryTypeMap V) where
    abbrev pub Inverts : Type 0
    Inverts =
        (v : V) (i : ℕ) (e : Encoded)
        → enc.encode_param v i ≡ ok e
        → IsExact e × (dec.typecast_copy_get (bytes_of e) i ≡ ok v)

    read_fields-row :
        (inv : Inverts) (row : List (Option V)) (i n : ℕ) {t : Bytes} (rest : Bytes)
        → n ≡ length row
        → row_text enc row i ≡ ok t
        → read_fields dec n (t ++ rest) i ≡ ok (row, rest)
    read_fields-row inv [] i zero {t} rest l e =
        let empty : [] ≡ t = cc in rw (← empty) (unfold read_fields in refl)
    read_fields-row inv [] i (suc n) rest l e = absurd (omega arith)
    read_fields-row inv (entry ∷ row) i zero rest l e = absurd (omega arith)
    read_fields-row inv (none ∷ row) i (suc n) {t} rest l e =
        let (w, t', ew, et, t_is) = join-eq-ok (entry_text enc none i) _ e in
        let w_is : write_nbo32 minus_one32 ≡ w = cc in
        let split : t ++ rest ≡ write_nbo32 minus_one32 ++ (t' ++ rest) =
          ap (λ z. z ++ rest) (t_is ∙ ap (λ z. z ++ t') (sym w_is))
          ∙ append_assoc (write_nbo32 minus_one32) t' rest in
        ap (λ l. read_fields dec (suc n) l i) split
        ∙ read_fields-suc n i minus_one32 _ (t' ++ rest) (t' ++ rest) rest none row
            (read_nbo32-write_nbo32 minus_one32 (t' ++ rest) (omega arith))
            (read_field-null (t' ++ rest) i)
            (read_fields-row inv row (i + 1) n rest (omega arith) et)
    read_fields-row inv (some v ∷ row) i (suc n) {t} rest l e =
        let (w, t', ew, et, t_is) = join-eq-ok (entry_text enc (some v) i) _ e in
        let (x, encoded, fits) = and_then-eq-ok (enc.encode_param v i) _ ew in
        let (x', same, w_is) = and_then-eq-ok (length_int x) _ fits in
        let x_is = length_int_id x same in
        let (exact, decoded) = inv v i x encoded in
        let w_is' : field_text x ≡ w = cc x_is in
        let split : t ++ rest ≡ write_nbo32 (declared x) ++ (bytes_of x ++ (t' ++ rest)) =
          ap (λ z. z ++ rest) (t_is ∙ ap (λ z. z ++ t') (sym w_is'))
          ∙ append_assoc (field_text x) t' rest
          ∙ append_assoc (write_nbo32 (declared x)) (bytes_of x) (t' ++ rest) in
        ap (λ l. read_fields dec (suc n) l i) split
        ∙ read_fields-suc n i (declared x) _ (bytes_of x ++ (t' ++ rest)) (t' ++ rest) rest (some v)
            row (read_nbo32-write_nbo32 (declared x) (bytes_of x ++ (t' ++ rest)) (omega arith))
            (read_field-value (bytes_of x) (t' ++ rest) i (declared x) v exact.0 (omega arith)
              decoded)
            (read_fields-row inv row (i + 1) n rest (omega arith) et)

    read_row-row :
        (inv : Inverts) (row : List (Option V)) {t : Bytes}
        → length row < 32768
        → row_text enc row 0 ≡ ok t
        → read_row dec (write_nbo16 (length row) ++ t) ≡ ok (some row, [])
    unfolding read_row
    read_row-row inv row {t} few e =
        let read = read_nbo16-write_nbo16 (length row) t (omega arith) in
        let fields = read_fields-row inv row 0 (length row) [] refl e in
        let fields' = rw append-nil at fields in rw (read, leb_false (length row) few, fields')
      where
        leb_false : (n : ℕ) → n < 32768 → leb (2 ^ 15) n ≡ false
        leb_false n h = ground arith

    -- A row that was encoded is decoded to itself, if each coder's declared length is the number of
    -- its bytes and an int, the decoding type map inverts the encoding one, and the row has not the
    -- 20551 columns whose count reads like the start of the file signature.
    pub dec_binary_row-enc_binary_row :
        (a : Allocator)
        → IsHonest enc
        → Inverts
        → dec.fit_to_copy_get ≡ ok tt
        → (row : List (Option V)) {line : Bytes} → length row ≢ 0x5047
        → enc_binary_row a enc row ≡ ok line
        → dec_binary_row dec line ≡ ok (some row)
    unfolding dec_binary_row
    dec_binary_row-enc_binary_row a honest inv fit row {line} ne e =
        let (few, described) =
          few_columns enc row (sym (enc_binary_row-row_bytes a enc honest row) ∙ e) in
        let (_, fits, body) = and_then-eq-ok (enc.fit_to_query row) _ described in
        let (c, t, ec, et, line_is) =
          join-eq-ok (ok (write_nbo16 (length row))) (row_text enc row 0) body in
        let line_is' : line ≡ write_nbo16 (length row) ++ t = cc in
        ap
          (λ r.
            and_then r
              (λ _. and_then (skip_header line) (λ cur. and_then (read_row dec cur) (end_row dec))))
          fit
        ∙ ap (λ l. and_then (skip_header l) (λ cur. and_then (read_row dec cur) (end_row dec)))
            line_is'
        ∙ ap (λ r. and_then r (λ cur. and_then (read_row dec cur) (end_row dec)))
            (skip_header-none (length row) t (omega arith) ne)
        ∙ ap (λ r. and_then r (end_row dec)) (read_row-row inv row few et)
