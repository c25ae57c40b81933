-- ===== src/Base64/Coders.antt =====
-- The coders that wrap another one in base64: `pg_text_enc_to_base64` of ext/pg_text_encoder.c and
-- `pg_text_dec_from_base64` of ext/pg_text_decoder.c. The shortcuts for plain Strings give what the
-- element decoder gives for them.
pub mod RoundTrip
use ruby_pg.Common.{
  ℕ, ◌+◌, ◌^◌, Option, none, some, Bytes, length, Mem, read, fill, ltb, if◌then◌else◌, Outcome, ok,
  fault, and_then, checked,
}
use ruby_pg.Coder.{Encoded, direct, buffered, length_int}
use ruby_pg.Base64.{int_size, base64_encode, base64_decode, encoded_size}

abbrev pub fresh : Mem
fresh j = 0

-- A String is encoded into a new one, of the encoded size.
unfoldable pub encode_apart : ℕ → Bytes → Outcome Bytes
encode_apart size cs =
    and_then (base64_encode (fill fresh size cs) 0 size (length cs)) (λ m. ok (read m 0 size))

-- The second pass writes at the output position and encodes in place.
unfoldable pub encode_in_place : Bytes → Outcome Bytes
encode_in_place cs =
    and_then (base64_encode (fill fresh 0 cs) 0 0 (length cs))
      (λ m. ok (read m 0 (encoded_size (length cs))))

-- Both passes over what the element coder gives in its passes.
unfoldable pub to_base64 : Encoded → Outcome Encoded
unfolding encode_apart encode_in_place
to_base64 (direct cs) =
    and_then (int_size (length cs)) (λ size. and_then (encode_apart size cs) (λ t. ok (direct t)))
to_base64 (buffered strlen cs) =
    and_then (int_size strlen) (λ size. and_then (encode_in_place cs) (λ t. ok (buffered size t)))

unfoldable pub enc_to_base64 : Outcome Encoded → Outcome Encoded
unfolding to_base64
enc_to_base64 encoded = and_then encoded (λ e. and_then (length_int e) to_base64)

unfoldable pub dec_from_base64 : {V : Type 0} → (Bytes → Outcome V) → Bytes → Outcome V
dec_from_base64 dec_func val = and_then (checked (base64_decode val)) dec_func
