-- ===== src/Copy/Text.antt =====
-- COPY text format, encoding: `pg_text_enc_copy_row` of ext/pg_copy_coder.c.
pub mod Encode
use ruby_pg.Common.{
  ℕ, ◌+◌, ◌*◌, Bool, ◌||◌, Option, none, some, List, [], ◌∷◌, Bytes, length, ltb, ◌==◌,
  if◌then◌else◌, Outcome, ok, and_then, checked,
}
use ruby_pg.Buffer.{Allocator, Buffer, text, str_new, ensure_capa, put, put_all}
use ruby_pg.Escape.{escape_forward, place_escaped}
use ruby_pg.Coder.{Encoded, direct, buffered, length_int, QueryTypeMap}
use ruby_pg.Copy.{CopyCoder}

-- Escape backslash itself, newline, carriage return, and the current delimiter character.
unfoldable pub needs_escape : ℕ → ℕ → Bool
needs_escape delimiter c = c == b'\\' || c == b'\n' || c == b'\r' || c == delimiter

abbrev pub backslash : ℕ → ℕ
backslash c = b'\\'

module _ (a : Allocator) (this : CopyCoder) where
  -- Both branches on the first pass's result ask for twice its size.
  unfoldable pub write_encoded : Encoded → Buffer → Option Buffer
  write_encoded (direct cs) b =
      escape_forward (needs_escape this.delimiter) backslash cs (ensure_capa a (length cs * 2) b)
  write_encoded (buffered strlen cs) b =
      place_escaped (needs_escape this.delimiter) backslash cs (ensure_capa a (strlen * 2) b)

  module _ {V : Type 0} (tm : QueryTypeMap V) where
    -- One entry: nil, or a value through its coder.
    unfoldable pub write_entry : Option V → ℕ → Buffer → Outcome Buffer
    write_entry none i b =
        checked (put_all this.null_string (ensure_capa a (length this.null_string) b))
    write_entry (some v) i b =
        and_then (tm.encode_param v i)
          (λ e. and_then (length_int e) (λ e'. checked (write_encoded e' b)))

    -- A delimiter stands in front of each entry but the first.
    unfoldable pub write_separator : ℕ → Buffer → Outcome Buffer
    write_separator i b = if ltb 0 i then checked (put this.delimiter (ensure_capa a 1 b)) else ok b

    -- `for( i=0; i<RARRAY_LENINT(value); i++)`
    unfoldable pub write_row : List (Option V) → ℕ → Buffer → Outcome Buffer
    unfolding write_entry write_separator
    write_row [] i b = ok b
    write_row (entry ∷ row) i b =
        and_then (write_separator i b)
          (λ b1. and_then (write_entry entry i b1) (λ b2. write_row row (i + 1) b2))

    unfoldable pub enc_copy_row : List (Option V) → Outcome Bytes
    unfolding write_row
    enc_copy_row row = and_then (tm.fit_to_query row) (λ _.
        and_then (write_row row 0 (str_new a))
          (λ b. and_then (checked (put b'\n' (ensure_capa a 1 b))) (λ b'. ok (text b'))))
