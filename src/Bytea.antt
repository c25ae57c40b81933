-- ===== src/Bytea.antt =====
-- The text encoder of bytea in hexadecimal: `pg_text_enc_bytea` of ext/pg_text_encoder.c.
pub mod Encode
mod Tests
use ruby_pg.Common.{
  ℕ, ◌+◌, ◌-◌, ◌*◌, ◌/◌, ◌%◌, true, false, ltb, if◌then◌else◌, [], ◌∷◌, codes, get_or, Bytes,
  length, Mem, write, read, Outcome, ok, raises, RubyError,
}
use ruby_pg.Coder.{Encoded, buffered}

abbrev pub hextab : Bytes
hextab = codes "0123456789abcdef"

-- `hextab[c >> 4]` and `hextab[c & 0xf]`
abbrev pub high : ℕ → ℕ
high c = get_or hextab (c / 16) 0

abbrev pub low : ℕ → ℕ
low c = get_or hextab (c % 16) 0

-- The loop over the bytes.
unfoldable pub put_hex : Bytes → ℕ → Mem → ℕ × Mem
put_hex [] optr m = (optr, m)
put_hex (c ∷ cs) optr m = put_hex cs (optr + 2) (write (write m optr (high c)) (optr + 1) (low c))

-- What the second pass writes at `out`.
unfoldable pub put_bytea : Bytes → ℕ → Mem → ℕ × Mem
put_bytea value out m =
    let r = put_hex value (out + 2) (write (write m out b'\\') (out + 1) b'x') in (r.0 - out, r.1)

-- `INT_MAX / 2 - 2`
abbrev pub max_size : ℕ
max_size = 1073741821

abbrev pub buffered_at : ℕ → ℕ → ℕ × Mem → Encoded
buffered_at size out (len, m) = buffered size (read m out len)

-- `pg_text_enc_bytea`, both passes.
unfoldable pub text_enc_bytea : ℕ → Mem → Bytes → Outcome Encoded
text_enc_bytea out m value =
    if ltb max_size (length value)
    then raises RubyError.arg_error
    else ok (buffered_at (2 + length value * 2) out (put_bytea value out m))
