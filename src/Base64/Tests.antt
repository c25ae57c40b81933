-- ===== src/Base64/Tests.antt =====
-- Base64 at concrete texts.
use ruby_pg.Common.{
  ok, fault, ℕ, ◌+◌, ◌≤◌, ◌<◌, some, Bytes, codes, length, Mem, read, fill, ◌≡◌, ◌⊎◌, inl, refl,
  arith,
}
use ruby_pg.Base64.{base64_encode, base64_decode, encoded_size, decoded_size}
use ruby_pg.Coder.{buffered}
use ruby_pg.Base64.Coders.{enc_to_base64, dec_from_base64}
use ruby_pg.Base64.Coders.RoundTrip.{dec_from_base64-enc_to_base64}
use ruby_pg.Base64.Encode.{base64_encode_lem}
use ruby_pg.Base64.Groups.{base64}
use ruby_pg.Base64.Decode.{base64_decode_fits, base64_decode-base64_encode}

-- Four bytes, encoded in place.
abbrev memory : Mem
memory = fill (λ j. 0) 2 (codes "ruby")

base64_decode_test : base64_decode (codes "c n-VieQ==") ≡ some (codes "ruby")
unfolding base64_decode ruby_pg.Base64.decode_char
base64_decode_test = refl

base64_test : base64 (codes "ruby") ≡ codes "cnVieQ=="
unfolding base64 ruby_pg.Base64.sextet ruby_pg.Base64.triple_of
base64_test = refl

base64_encode_lem_example :
    (m' : Mem) × (base64_encode memory 2 2 4 ≡ ok m')
    × (read m' 2 (encoded_size 4) ≡ base64 (read memory 2 4))
    × ((j : ℕ) → (j < 2) ⊎ (2 + encoded_size 4 ≤ j) → m' j ≡ memory j)
unfolding encoded_size
base64_encode_lem_example = base64_encode_lem memory 2 2 4 (inl (omega arith)) (omega arith)

base64_decode_fits_example :
    (out : Bytes) × (base64_decode (codes "c n-V") ≡ some out) × (length out ≤ decoded_size 5)
base64_decode_fits_example = base64_decode_fits (codes "c n-V")

base64_decode-base64_encode_example :
    (m' : Mem) × (base64_encode memory 2 2 4 ≡ ok m')
    × (base64_decode (read m' 2 (encoded_size 4)) ≡ some (read memory 2 4))
unfolding read fill encoded_size
base64_decode-base64_encode_example =
    base64_decode-base64_encode memory 2 2 4 (inl (omega arith)) (omega arith)
      (omega arith, (omega arith, (omega arith, (omega arith, tt))))

-- Four thirds of 1610612734 bytes are no int.
overflow_test : base64_encode memory 2 2 1610612734 ≡ fault
unfolding base64_encode encoded_size
overflow_test = refl

-- A coder with two passes, wrapped.
dec_from_base64-enc_to_base64_example :
    (length (codes "cnVieQ==") ≤ 12)
    × (dec_from_base64 (λ cs. ok cs) (codes "cnVieQ==") ≡ ok (codes "ruby"))
unfolding enc_to_base64 ruby_pg.Base64.int_size ruby_pg.Coder.length_int encoded_size read
    base64_encode fill
dec_from_base64-enc_to_base64_example =
    dec_from_base64-enc_to_base64 (λ cs. ok cs) (buffered 7 (codes "ruby")) (omega arith)
      (omega arith, (omega arith, (omega arith, (omega arith, tt)))) refl
