-- ===== src/Copy/Binary.antt =====
-- COPY binary format: `pg_bin_enc_copy_row` and `pg_bin_dec_copy_row` of ext/pg_copy_coder.c.
pub mod Encode
pub mod Decode
pub mod Refuse
use ruby_pg.Common.{
  bytes_eq, ℕ, zero, suc, ◌+◌, ◌^◌, Bool, true, false, ◌&&◌, Option, none, some, List, [], ◌∷◌,
  ◌++◌, Bytes, length, take, drop, ltb, leb, ◌==◌, if◌then◌else◌, Outcome, ok, raises, fault,
  RubyError, and_then, checked, ◌>>=◌,
}
use ruby_pg.Buffer.{Allocator, Buffer, text, str_new, ensure_capa, put_all}
use ruby_pg.Nbo.{
  write_nbo16, write_nbo32, read_nbo16, read_nbo32, minus_one16, minus_one32, is_negative16,
  is_negative32,
}
use ruby_pg.Coder.{Encoded, direct, buffered, length_int, QueryTypeMap, CopyTypeMap}

module _ (a : Allocator) where
  -- The four bytes of the length are those of the first pass's result.
  unfoldable pub write_encoded : Encoded → Buffer → Option Buffer
  write_encoded (direct cs) b =
      put_all (write_nbo32 (length cs)) (ensure_capa a (4 + length cs) b) >>= put_all cs
  write_encoded (buffered strlen cs) b =
      put_all (write_nbo32 strlen) (ensure_capa a (4 + strlen) b) >>= put_all cs

  module _ {V : Type 0} (tm : QueryTypeMap V) where
    -- nil is the length -1.
    unfoldable pub write_entry : Option V → ℕ → Buffer → Outcome Buffer
    write_entry none i b = checked (put_all (write_nbo32 minus_one32) (ensure_capa a 4 b))
    write_entry (some v) i b =
        and_then (tm.encode_param v i)
          (λ e. and_then (length_int e) (λ e'. checked (write_encoded e' b)))

    unfoldable pub write_row : List (Option V) → ℕ → Buffer → Outcome Buffer
    unfolding write_entry
    write_row [] i b = ok b
    write_row (entry ∷ row) i b = and_then (write_entry entry i b) (λ b'. write_row row (i + 1) b')

    unfoldable pub enc_binary_row : List (Option V) → Outcome Bytes
    unfolding write_row
    enc_binary_row row =
        if leb 32768 (length row)
        then raises RubyError.arg_error
        else and_then (tm.fit_to_query row) (λ _.
          and_then (checked (put_all (write_nbo16 (length row)) (ensure_capa a 2 (str_new a))))
            (λ b. and_then (write_row row 0 b) (λ b'. ok (text b'))))

-- `BinarySignature`
abbrev pub signature : Bytes
signature = b'P' ∷ b'G' ∷ b'C' ∷ b'O' ∷ b'P' ∷ b'Y' ∷ b'\n' ∷ 0o377 ∷ b'\r' ∷ b'\n' ∷ 0 ∷ []

-- `goto length_error`
abbrev pub length_error {ℓ} : {A : Type ℓ} → Outcome A
length_error = raises RubyError.arg_error

abbrev pub or_length_error {ℓ} : {A : Type ℓ} → Option A → Outcome A
or_length_error none = length_error
or_length_error (some a) = ok a

-- `if (line_end_ptr - cur_ptr < n ) goto length_error;` and `cur_ptr += n`, with the bytes between.
unfoldable pub advance : ℕ → Bytes → Outcome (Bytes × Bytes)
advance n cur = if ltb (length cur) n then length_error else ok (take n cur, drop n cur)

-- The header that comes before the first row: signature, flags, extension.
unfoldable pub skip_header : Bytes → Outcome Bytes
unfolding advance bytes_eq
skip_header line =
    if leb 11 (length line) && bytes_eq (take 11 line) signature
    then and_then (advance 4 (drop 11 line)) (λ flags.
      and_then (or_length_error (read_nbo32 flags.1)) (λ ext.
        if is_negative32 ext.0
        then length_error
        else and_then (advance ext.0 ext.1) (λ extension. ok extension.1)))
    else ok line

module _ {V : Type 0} (tm : CopyTypeMap V) where
  -- One field behind its size.
  unfoldable pub read_field : ℕ → Bytes → ℕ → Outcome (Option V × Bytes)
  unfolding advance
  read_field input_len cur fieldno =
      if is_negative32 input_len
      then (if input_len == minus_one32 then ok (none, cur) else length_error)
      else and_then (advance input_len cur)
          (λ split. and_then (tm.typecast_copy_get split.0 fieldno) (λ v. ok (some v, split.1)))

  -- `for( fieldno = 0; fieldno < nfields; fieldno++)`, on the rounds that are left.
  unfoldable pub read_fields : ℕ → Bytes → ℕ → Outcome (List (Option V) × Bytes)
  unfolding read_field
  read_fields zero cur fieldno = ok ([], cur)
  read_fields (suc rounds) cur fieldno = and_then (or_length_error (read_nbo32 cur)) (λ size.
      and_then (read_field size.0 size.1 fieldno) (λ field.
        and_then (read_fields rounds field.1 (fieldno + 1)) (λ row. ok (field.0 ∷ row.0, row.1))))

  -- The row, or nil for the trailer, and what follows.
  unfoldable pub read_row : Bytes → Outcome (Option (List (Option V)) × Bytes)
  unfolding read_fields
  read_row cur = and_then (or_length_error (read_nbo16 cur)) (λ nfields.
      if is_negative16 nfields.0
      then (if nfields.0 == minus_one16 then ok (none, nfields.1) else length_error)
      else and_then (read_fields nfields.0 nfields.1 0) (λ row. ok (some row.0, row.1)))

  -- Trailing data is refused.
  unfoldable pub end_row : Option (List (Option V)) × Bytes → Outcome (Option (List (Option V)))
  end_row (array, []) = ok array
  end_row (array, c ∷ cur) = raises RubyError.arg_error

  unfoldable pub dec_binary_row : Bytes → Outcome (Option (List (Option V)))
  unfolding skip_header read_row end_row
  dec_binary_row input_line =
      and_then tm.fit_to_copy_get
        (λ _. and_then (skip_header input_line) (λ cur. and_then (read_row cur) end_row))
