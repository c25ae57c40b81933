-- ===== src/Bytea/Tests.antt =====
-- The bytea encoder on three bytes.
use ruby_pg.Common.{read}
use ruby_pg.Bytea.{put_hex}
use ruby_pg.Common.{◌<◌, ◌^◌, [], ◌∷◌, Bytes, length, codes, Mem, fill, ok, ◌≡◌, refl, arith}
use ruby_pg.Coder.{buffered}
use ruby_pg.Bytea.{put_bytea, text_enc_bytea}
use ruby_pg.Bytea.Encode.{unhex, unhex-text_enc_bytea}

abbrev cleared : Mem
cleared j = 0

abbrev value : Bytes
value = 0 ∷ 255 ∷ 16 ∷ []

enc_test : text_enc_bytea 3 cleared value ≡ ok (buffered 8 (codes "\\x00ff10"))
unfolding text_enc_bytea read put_bytea put_hex
enc_test = refl

unhex-text_enc_bytea_example :
    (digits : Bytes) × (text_enc_bytea 3 cleared value
      ≡ ok (buffered (length (b'\\' ∷ b'x' ∷ digits)) (b'\\' ∷ b'x' ∷ digits)))
    × (unhex digits ≡ value)
    × (length (b'\\' ∷ b'x' ∷ digits) < 2 ^ 31)
    × ((put_bytea value 3 cleared).1 ≡ fill cleared 3 (b'\\' ∷ b'x' ∷ digits))
unhex-text_enc_bytea_example =
    unhex-text_enc_bytea 3 cleared value (omega arith, (omega arith, (omega arith, tt)))
      (omega arith)
