-- ===== src/Copy.antt =====
-- ext/pg_copy_coder.c: the settings of the COPY coders. The children model the rows.
pub mod Text
pub mod Decode
pub mod Binary
mod Tests
use ruby_pg.Common.{
  ℕ, Bool, List, [], ◌∷◌, Bytes, length, ◌==◌, if◌then◌else◌, Outcome, ok, raises, RubyError, ◌≡◌,
}

-- `t_pg_copycoder`, without its type map, which each operation below takes as an argument.
pub record CopyCoder : Type 0 where
  pub null_string : Bytes
  pub delimiter : ℕ
  pub frozen : Bool

-- `pg_copycoder_encoder_allocate` and `pg_copycoder_decoder_allocate` set the same two defaults.
abbrev pub allocate : CopyCoder
allocate = record { null_string = b'\\' ∷ b'N' ∷ []; delimiter = b'\t'; frozen = Bool.false }

-- The first byte of a String of one byte.
one_byte : CopyCoder → Bytes → Outcome CopyCoder
one_byte this (c ∷ []) = ok (record this { delimiter = c })
one_byte this _ = raises RubyError.arg_error

-- `pg_copycoder_delimiter_set`
unfoldable pub delimiter_set : CopyCoder → Bytes → Outcome CopyCoder
unfolding one_byte
delimiter_set this delimiter =
    if this.frozen then raises RubyError.frozen_error else one_byte this delimiter

-- `pg_copycoder_null_string_set`
unfoldable pub null_string_set : CopyCoder → Bytes → Outcome CopyCoder
null_string_set this null_string =
    if this.frozen
    then raises RubyError.frozen_error
    else ok (record this { null_string = null_string })
