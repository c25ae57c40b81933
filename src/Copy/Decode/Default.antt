-- ===== src/Copy/Decode/Default.antt =====
-- Decoding with the null marker of a new coder, which no value is written like.
use ruby_pg.Common.{
  ℕ, ◌+◌, Option, none, some, List, [], ◌∷◌, Bytes, ok, ◌≡◌, ◌≢◌, refl, ap, arith, get_or,
  Bool-cases, inl, inr,
}
use ruby_pg.Buffer.{Allocator}
use ruby_pg.Coder.{QueryTypeMap, CopyTypeMap, bytes_of, IsHonest}
use ruby_pg.Copy.{CopyCoder}
use ruby_pg.Copy.Text.{needs_escape, enc_copy_row}
use ruby_pg.Copy.Text.Encode.{escaped}
use ruby_pg.Copy.Decode.{is_octal, dec_copy_row}
use ruby_pg.Copy.Decode.Passes.{is_literal, IsDelimiter, IsMarker}
use ruby_pg.Copy.Decode.RoundTrip.{IsUsable, Inverts, IsDistinct, dec_copy_row-enc_copy_row}

-- `\N`
abbrev pub default_marker : Bytes
default_marker = b'\\' ∷ b'N' ∷ []

-- A backslash in escaped text stands before a byte that needs it, and N is none.
escaped-ne-default_marker : (d : ℕ) (cs : Bytes) → d ≢ b'N' → escaped d cs ≢ default_marker
unfolding needs_escape
escaped-ne-default_marker d [] ne e = absurd (ground arith)
escaped-ne-default_marker d (c ∷ cs) ne e = elim (Bool-cases (needs_escape d c)) [
  | inl s ↦
      let e' = rw s at e in
      let second : c ≡ b'N' = ap (λ z. get_or z 1 0) e' in absurd (ground arith)
  | inr s ↦
      let e' = rw s at e in
      let first : c ≡ b'\\' = ap (λ z. get_or z 0 0) e' in absurd (ground arith)
]

module _ (this : CopyCoder) (marker : this.null_string ≡ default_marker)
    (good : IsDelimiter this.delimiter) (ne : this.delimiter ≢ b'N') where
  pub default-IsUsable : IsUsable this
  unfolding is_literal is_octal
  default-IsUsable = record {
    delimiter_ok = good;
    marker_ok = rw marker (IsMarker.quoted refl IsMarker.nil);
    no_null_byte = rw marker (omega arith, (omega arith, tt));
  }

  module _ {V : Type 0} (dec : CopyTypeMap V) (enc : QueryTypeMap V) where
    default-IsDistinct :
        (row : List (Option V)) (i : ℕ) → IsDistinct this default-IsUsable dec enc row i
    default-IsDistinct [] i = tt
    default-IsDistinct (none ∷ row) i = default-IsDistinct row (i + 1)
    default-IsDistinct (some v ∷ row) i = (
      λ e is. rw marker (escaped-ne-default_marker this.delimiter (bytes_of e) ne),
      default-IsDistinct row (i + 1),
    )

    -- With the null marker that a new coder has, and a delimiter that is literal behind a backslash
    -- and is neither a backslash, a line feed nor an N, every row with a column that is encoded is
    -- decoded to itself, whatever the values are, if the coders keep to their sizes and the decoding
    -- type map inverts the encoding one.
    pub dec_copy_row_default :
        (a : Allocator)
        → IsHonest enc
        → Inverts this default-IsUsable dec enc
        → dec.fit_to_copy_get ≡ ok tt
        → (row : List (Option V)) {line : Bytes} → row ≢ []
        → enc_copy_row a this enc row ≡ ok line
        → dec_copy_row this dec line ≡ ok row
    dec_copy_row_default a honest inv fit row nonempty e =
        dec_copy_row-enc_copy_row this default-IsUsable dec enc a honest inv fit row nonempty
          (default-IsDistinct row 0) e
