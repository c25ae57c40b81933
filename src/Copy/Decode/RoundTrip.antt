-- ===== src/Copy/Decode/RoundTrip.antt =====
-- Decoding what the row encoder wrote.
use ruby_pg.Common.{
  ℕ, zero, suc, ◌+◌, ◌-◌, ◌<◌, Option, none, some, List, [], ◌∷◌, ◌++◌, Bytes, length, ok, and_then,
  and_then-eq-ok, ◌≡◌, ◌≢◌, refl, sym, ◌∙◌, ap, arith, append_assoc, append-nil, All, take,
  take-append, length-append, strncmp_eq_refl, strncmp_eq_sound,
}
use ruby_pg.Coder.{
  CopyTypeMap, QueryTypeMap, bytes_of, Encoded, length_int, length_int_id, IsHonest,
}
use ruby_pg.Coder.Refines.{join, join-eq-ok}
use ruby_pg.Buffer.{Allocator}
use ruby_pg.Copy.{CopyCoder}
use ruby_pg.Copy.Text.{enc_copy_row}
use ruby_pg.Copy.Text.Encode.{escaped, entry_text, separator_text, row_text, enc_copy_row-line_text}
use ruby_pg.Copy.Decode.{scan_field, field_value, push_field, read_fields, dec_copy_row}
use ruby_pg.Copy.Decode.Passes.{
  IsDelimiter, IsMarker, PassesOver, PassesOver-escaped, PassesOver-marker, scan_fuel,
  scan_at_delim, scan_at_end,
}

-- Settings with which every row can be read back.
pub record IsUsable (this : CopyCoder) : Type 0 where
  pub delimiter_ok : IsDelimiter this.delimiter
  pub marker_ok : IsMarker this.delimiter this.null_string
  -- `strncmp` stops at a null byte.
  pub no_null_byte : All (λ c. c ≢ 0) this.null_string

module _ (this : CopyCoder) (u : IsUsable this) {V : Type 0} (dec : CopyTypeMap V) where
  raw_is : (w rest : Bytes) → take (length (w ++ rest) - length rest) (w ++ rest) ≡ w
  raw_is w rest = take-append _ w rest (omega (arith, length-append w rest))

  -- The scan of a field at the front of a line, with enough fuel for the line.
  scan_front :
      {w out : Bytes} (rest : Bytes)
      → PassesOver this.delimiter u.delimiter_ok w out
      → 0 < length rest
      → (g : ℕ) × (scan_field (suc (length (w ++ rest))) this.delimiter (w ++ rest) []
          ≡ scan_field (suc g) this.delimiter rest out)
  scan_front {w} rest p h = (
    length (w ++ rest) - p.rounds,
    scan_fuel _ u.delimiter_ok (w ++ rest) (omega (arith, length-append w rest, p.few)) refl
        ∙ p.passes (suc (length (w ++ rest) - p.rounds)) rest,
  )

  read_last :
      {w out : Bytes} (f i : ℕ)
      → PassesOver this.delimiter u.delimiter_ok w out
      → read_fields this dec (suc f) (w ++ b'\n' ∷ []) i
        ≡ and_then (field_value this dec w out i) (λ v. ok (v ∷ []))
  unfolding read_fields push_field
  read_last {w} {out} f i p =
      let (g, e) = scan_front (b'\n' ∷ []) p (omega arith) in
      rw (e, scan_at_end _ u.delimiter_ok g out, raw_is w (b'\n' ∷ []), read_fields)

  read_next :
      {w out : Bytes} (f i : ℕ) (rest : Bytes)
      → PassesOver this.delimiter u.delimiter_ok w out
      → read_fields this dec (suc f) (w ++ this.delimiter ∷ rest) i
        ≡ and_then
            (field_value this dec w out i)
            (λ v. and_then (read_fields this dec f rest (i + 1)) (λ vs. ok (v ∷ vs)))
  unfolding read_fields push_field
  read_next {w} {out} f i rest p =
      let (g, e) = scan_front (this.delimiter ∷ rest) p (omega arith) in
      rw (
        e,
        scan_at_delim _ u.delimiter_ok g rest out,
        raw_is w (this.delimiter ∷ rest),
        read_fields,
      )

  field_value-null : (out : Bytes) (i : ℕ) → field_value this dec this.null_string out i ≡ ok none
  unfolding field_value
  field_value-null out i =
      ground (arith, strncmp_eq_refl (length this.null_string) this.null_string)

  field_value-some :
      (w out : Bytes) (i : ℕ) (v : V)
      → w ≢ this.null_string
      → dec.typecast_copy_get out i ≡ ok v
      → field_value this dec w out i ≡ ok (some v)
  unfolding field_value
  field_value-some w out i v ne h =
      ground (arith, strncmp_eq_sound w this.null_string u.no_null_byte)

  module _ (enc : QueryTypeMap V) where
    -- The decoding type map takes back what the encoding one gives, column by column.
    abbrev pub Inverts : Type 0
    Inverts =
        (v : V) (i : ℕ) (e : Encoded)
        → enc.encode_param v i ≡ ok e
        → dec.typecast_copy_get (bytes_of e) i ≡ ok v

    -- No value is written like the null marker.
    abbrev pub IsDistinct : List (Option V) → ℕ → Type 0
    IsDistinct [] i = Unit
    IsDistinct (none ∷ row) i = IsDistinct row (i + 1)
    IsDistinct (some v ∷ row) i =
        ((e : Encoded)
          → enc.encode_param v i ≡ ok e
          → escaped this.delimiter (bytes_of e) ≢ this.null_string)
        × IsDistinct row (i + 1)

    module _ (inverts : Inverts) where
      record Reads (entry : Option V) (i : ℕ) (w : Bytes) : Type 0 where
        out : Bytes
        passes : PassesOver this.delimiter u.delimiter_ok w out
        value : field_value this dec w out i ≡ ok entry

      Reads-entry :
          (entry : Option V) (row : List (Option V)) (i : ℕ) {w : Bytes}
          → IsDistinct (entry ∷ row) i
          → entry_text this enc entry i ≡ ok w
          → Reads entry i w
      Reads-entry none row i {w} h e =
          let w_is : this.null_string ≡ w = cc in
          let (out, p) = PassesOver-marker _ u.delimiter_ok u.marker_ok in
          rw (← w_is) (record { out = out; passes = p; value = field_value-null out i })
      Reads-entry (some v) row i {w} h e =
          let (x, encoded, rest) = and_then-eq-ok (enc.encode_param v i) _ e in
          let (x', fits, same) = and_then-eq-ok (length_int x) _ rest in
          let x_is = length_int_id x fits in
          let w_is : escaped this.delimiter (bytes_of x) ≡ w = cc x_is in
          rw (← w_is) (record {
            out = bytes_of x;
            passes = PassesOver-escaped _ u.delimiter_ok (bytes_of x);
            value = field_value-some _ (bytes_of x) i v (h.0 x encoded) (inverts v i x encoded);
          })

      IsDistinct-tail :
          (entry : Option V) (row : List (Option V)) (i : ℕ)
          → IsDistinct (entry ∷ row) i
          → IsDistinct row (i + 1)
      IsDistinct-tail none row i h = h
      IsDistinct-tail (some v) row i h = h.1

      read_fields-row :
          (entry : Option V) (row : List (Option V)) (i f : ℕ) {t : Bytes}
          → IsDistinct (entry ∷ row) i
          → join (entry_text this enc entry i) (row_text this enc row (i + 1)) ≡ ok t
          → length t < f
          → read_fields this dec f (t ++ b'\n' ∷ []) i ≡ ok (entry ∷ row)
      read_fields-row entry row i zero h e lt = absurd (omega arith)
      read_fields-row entry [] i (suc f) {t} h e lt =
          let (w, y, ew, ey, t_is) = join-eq-ok (entry_text this enc entry i) (ok []) e in
          let r = Reads-entry entry [] i h ew in
          let t_is_w : t ≡ w = cc (append-nil w) in rw t_is_w (read_last f i r.passes ∙ rw r.value)
      read_fields-row entry (entry' ∷ row) i (suc f) {t} h e lt =
          let (w, y, ew, ey, t_is) = join-eq-ok (entry_text this enc entry i) _ e in
          let (s, t', es, et, y_is) = join-eq-ok (separator_text this enc (i + 1)) _ ey in
          let r = Reads-entry entry (entry' ∷ row) i h ew in
          let s_is : s ≡ this.delimiter ∷ [] = ground arith in
          let whole : t ≡ w ++ (this.delimiter ∷ t') =
            t_is ∙ ap (λ z. w ++ z) (y_is ∙ ap (λ z. z ++ t') s_is) in
          let shorter : length t' < f =
            omega (arith, ap length whole, length-append w (this.delimiter ∷ t')) in
          let ih =
            read_fields-row entry' row (i + 1) f (IsDistinct-tail entry (entry' ∷ row) i h) et
              shorter in
          rw (whole, append_assoc w (this.delimiter ∷ t') (b'\n' ∷ []))
            (read_next f i (t' ++ b'\n' ∷ []) r.passes ∙ rw (r.value, ih))

    -- A row that was encoded is decoded to itself, whatever the allocator, the type maps and the
    -- bytes, if the decoding type map inverts the encoding one, no value is written like the null
    -- marker, the settings are usable and the row has a column.
    pub dec_copy_row-enc_copy_row :
        (a : Allocator)
        → IsHonest enc
        → Inverts
        → dec.fit_to_copy_get ≡ ok tt
        → (row : List (Option V)) {line : Bytes} → row ≢ []
        → IsDistinct row 0
        → enc_copy_row a this enc row ≡ ok line
        → dec_copy_row this dec line ≡ ok row
    unfolding dec_copy_row
    dec_copy_row-enc_copy_row a honest inv fit [] ne dist e = absurd (ne refl)
    dec_copy_row-enc_copy_row a honest inv fit (entry ∷ row) {line} ne dist e =
        let described = sym (enc_copy_row-line_text a this enc honest (entry ∷ row)) ∙ e in
        let (_, fits, body) = and_then-eq-ok (enc.fit_to_query (entry ∷ row)) _ described in
        let (t, n, et, en, line_is) =
          join-eq-ok (row_text this enc (entry ∷ row) 0) (ok (b'\n' ∷ [])) body in
        let (s, t', es, et', t_is) = join-eq-ok (ok []) _ et in
        let line_is' : line ≡ t' ++ b'\n' ∷ [] = cc in
        let fuel : length t' < suc (length (t' ++ b'\n' ∷ [])) =
          omega (arith, length-append t' (b'\n' ∷ [])) in
        ap (λ r. and_then r (λ _. read_fields this dec (suc (length line)) line 0)) fit
        ∙ ap (λ l. read_fields this dec (suc (length l)) l 0) line_is'
        ∙ read_fields-row inv entry row 0 (suc (length (t' ++ b'\n' ∷ []))) dist et' fuel
