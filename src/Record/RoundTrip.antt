-- ===== src/Record/RoundTrip.antt =====
-- Decoding what the record encoder wrote.
use ruby_pg.Common.{
  ℕ, zero, suc, ◌+◌, ◌<◌, true, false, Option, none, some, List, [], ◌∷◌, ◌++◌, Bytes, length, All,
  ok, and_then, and_then-eq-ok, ◌≡◌, ◌≢◌, refl, sym, ap, ◌∙◌, arith, append_assoc, append-nil,
  length-append,
}
use ruby_pg.Buffer.{Allocator}
use ruby_pg.Escape.{escape, escape_byte}
use ruby_pg.Coder.{QueryTypeMap, CopyTypeMap, Encoded, bytes_of, IsHonest}
use ruby_pg.Coder.Refines.{join, join-eq-ok}
use ruby_pg.Record.{
  quote, needs_double, itself, ends_column, read_column, column_value, push_column, read_columns,
  enc_record, dec_record,
}
use ruby_pg.Record.Encode.{quoted, column_text, comma_text, columns_text, enc_record-record_text}

-- Inside quotes one round takes back one byte that is not null.
read_escaped_byte :
    (c : ℕ) (cur out : Bytes)
    → c ≢ 0
    → 0 < length cur
    → read_column true (escape_byte needs_double itself c ++ cur) out
      ≡ read_column true cur (out ++ c ∷ [])
unfolding read_column
read_escaped_byte c [] out ne long = absurd (omega arith)
read_escaped_byte c (d ∷ cur) out ne long = ground arith

read_escaped :
    (cs cur out : Bytes)
    → All (λ c. c ≢ 0) cs
    → 0 < length cur
    → read_column true (escape needs_double itself cs ++ cur) out ≡ read_column true cur (out ++ cs)
read_escaped [] cur out h long = ap (read_column true cur) (sym (append-nil out))
read_escaped (c ∷ cs) cur out h long =
    let rest = escape needs_double itself cs in
    ap (λ t. read_column true t out) (append_assoc (escape_byte needs_double itself c) rest cur)
    ∙ read_escaped_byte c (rest ++ cur) out h.0 (omega (arith, length-append rest cur))
    ∙ read_escaped cs cur (out ++ c ∷ []) h.1 long
    ∙ ap (read_column true cur) (append_assoc out (c ∷ []) cs)

-- The quotes around a value are passed over.
read_open :
    (c : ℕ) (cur out : Bytes)
    → read_column false (quote ∷ c ∷ cur) out ≡ read_column true (c ∷ cur) out
unfolding read_column
read_open c cur out = refl

read_close :
    (c : ℕ) (cur out : Bytes)
    → ends_column c ≡ true
    → read_column true (quote ∷ c ∷ cur) out ≡ ok (out, c ∷ cur)
unfolding read_column
read_close c [] out h = ground arith
read_close c (d ∷ cur) out h = ground arith

read_quoted :
    (cs : Bytes) (c : ℕ) (cur : Bytes)
    → All (λ c. c ≢ 0) cs
    → ends_column c ≡ true
    → read_column false (quoted cs ++ c ∷ cur) [] ≡ ok (cs, c ∷ cur)
read_quoted cs c cur h e =
    let text = escape needs_double itself cs in
    ap (λ t. read_column false (quote ∷ t) []) (append_assoc text (quote ∷ []) (c ∷ cur))
    ∙ opened (text ++ (quote ∷ c ∷ cur)) (omega (arith, length-append text (quote ∷ c ∷ cur)))
    ∙ read_escaped cs (quote ∷ c ∷ cur) [] h (omega arith)
    ∙ read_close c cur cs e
  where
    opened : (t : Bytes) → 0 < length t → read_column false (quote ∷ t) [] ≡ read_column true t []
    opened [] long = absurd (omega arith)
    opened (d ∷ t) long = read_open d t []

module _ {V : Type 0} (dec : CopyTypeMap V) (enc : QueryTypeMap V) where
  -- The decoding type map takes back what the encoding one gives, which holds no null byte.
  abbrev pub Inverts : Type 0
  Inverts =
      (v : V) (i : ℕ) (e : Encoded)
      → enc.encode_param v i ≡ ok e
      → All (λ c. c ≢ 0) (bytes_of e) × (dec.typecast_copy_get (bytes_of e) i ≡ ok v)

  module _ (inv : Inverts) where
    column_value-column_text :
        (entry : Option V) (i c : ℕ) (cur : Bytes) {w : Bytes}
        → ends_column c ≡ true
        → column_text enc entry i ≡ ok w
        → column_value dec (w ++ c ∷ cur) i ≡ ok (entry, c ∷ cur)
    unfolding column_value
    column_value-column_text none i c cur {w} h e = let w_is : [] ≡ w = cc in rw (← w_is, h) refl
    column_value-column_text (some v) i c cur {w} h e =
        let (x, encoded, same) = and_then-eq-ok (enc.encode_param v i) _ e in
        let w_is : quoted (bytes_of x) ≡ w = cc in
        let (clean, back) = inv v i x encoded in
        rw (← w_is) (
          ap (λ r. and_then r (λ s. and_then (dec.typecast_copy_get s.0 i) (λ v. ok (some v, s.1))))
            (read_quoted (bytes_of x) c cur clean h)
          ∙ ap (λ r. and_then r (λ v. ok (some v, c ∷ cur))) back)

    read_columns-columns_text :
        (entry : Option V) (row : List (Option V)) (i f : ℕ) {t : Bytes}
        → join (column_text enc entry i) (columns_text enc row (i + 1)) ≡ ok t
        → length t < f
        → read_columns dec f (t ++ b')' ∷ []) i ≡ ok (entry ∷ row, [])
    unfolding read_columns push_column
    read_columns-columns_text entry row i zero e lt = absurd (omega arith)
    read_columns-columns_text entry [] i (suc f) {t} e lt =
        let (w, y, ew, ey, t_is) = join-eq-ok (column_text enc entry i) (ok []) e in
        let t_is_w : t ≡ w = cc (append-nil w) in
        rw (t_is_w, column_value-column_text entry i b')' [] refl ew) refl
    read_columns-columns_text entry (entry' ∷ row) i (suc f) {t} e lt =
        let (w, y, ew, ey, t_is) = join-eq-ok (column_text enc entry i) _ e in
        let (s, t', es, et, y_is) = join-eq-ok (comma_text enc (i + 1)) _ ey in
        let s_is : s ≡ b',' ∷ [] = ground arith in
        let whole : t ≡ w ++ (b',' ∷ t') =
          t_is ∙ ap (λ z. w ++ z) (y_is ∙ ap (λ z. z ++ t') s_is) in
        let shorter : length t' < f = omega (arith, ap length whole, length-append w (b',' ∷ t')) in
        let ih = read_columns-columns_text entry' row (i + 1) f et shorter in
        rw
          (
            whole,
            append_assoc w (b',' ∷ t') (b')' ∷ []),
            column_value-column_text entry i b',' (t' ++ b')' ∷ []) refl ew,
            ih,
          )
          refl

  -- A row that was encoded as a record is decoded to itself, whatever the allocator, if the coders
  -- keep to their sizes, the decoding type map inverts the encoding one, the encoded values hold no
  -- null byte, and the row has a column.
  pub dec_record-enc_record :
      (a : Allocator)
      → IsHonest enc
      → Inverts
      → dec.fit_to_copy_get ≡ ok tt
      → (row : List (Option V)) {t : Bytes} → row ≢ []
      → enc_record a enc row ≡ ok t
      → dec_record dec t ≡ ok row
  unfolding dec_record
  dec_record-enc_record a honest inv fit [] ne e = absurd (ne refl)
  dec_record-enc_record a honest inv fit (entry ∷ row) {t} ne e =
      let described = sym (enc_record-record_text a enc honest (entry ∷ row)) ∙ e in
      let (_, fits, body) = and_then-eq-ok (enc.fit_to_query (entry ∷ row)) _ described in
      let (o, y, eo, ey, t_is) = join-eq-ok (ok (b'(' ∷ [])) _ body in
      let (cols, cl, ec, el, y_is) =
        join-eq-ok (columns_text enc (entry ∷ row) 0) (ok (b')' ∷ [])) ey in
      let (s, cols', es, ec', cols_is) = join-eq-ok (ok []) _ ec in
      let whole : t ≡ b'(' ∷ (cols' ++ b')' ∷ []) = cc in
      let fuel : length cols' < suc (suc (length (cols' ++ b')' ∷ []))) =
        omega (arith, length-append cols' (b')' ∷ [])) in
      rw (fit, whole, read_columns-columns_text inv entry row 0 _ ec' fuel) refl
