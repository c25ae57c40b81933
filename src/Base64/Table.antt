-- ===== src/Base64/Table.antt =====
-- The two tables are inverse to each other.
use ruby_pg.Common.{
  [], ◌∷◌, ◌+◌, Bytes, length, ℕ, zero, suc, ◌<◌, Bool, true, ◌&&◌, ◌≡◌, refl, arith, ◌==◌, get_or,
  ◌%◌, ◌/◌, ◌^◌, ◌*◌,
}
use ruby_pg.Base64.{encode_table, decode_char, sextet}

-- The characters decode to consecutive values.
counts_up : ℕ → Bytes → Bool
counts_up i [] = true
counts_up i (c ∷ chars) = decode_char c == i && counts_up (i + 1) chars

counts_up_sound :
    (chars : Bytes) (i x : ℕ)
    → x < length chars
    → counts_up i chars ≡ true
    → decode_char (get_or chars x 0) ≡ i + x
unfolding counts_up
counts_up_sound [] i x lt h = absurd (omega arith)
counts_up_sound (c ∷ chars) i zero lt h = ground arith
counts_up_sound (c ∷ chars) i (suc x) lt h = ground (arith, counts_up_sound chars (i + 1) x)

encode_table_ok : counts_up 0 encode_table ≡ true
unfolding counts_up decode_char
encode_table_ok = refl

pub decode_char-encode : (x : ℕ) → x < 64 → decode_char (get_or encode_table x 0) ≡ x
decode_char-encode x h = omega (arith, counts_up_sound encode_table 0 x h encode_table_ok)

pub decode_char-sextet : (triple i : ℕ) → decode_char (sextet triple i) ≡ triple / 2 ^ (i * 6) % 64
unfolding sextet
decode_char-sextet triple i = decode_char-encode (triple / 2 ^ (i * 6) % 64) (omega arith)

-- The padding character is outside the alphabet.
pub decode_char-padding : decode_char b'=' ≡ 0xff
unfolding decode_char
decode_char-padding = refl
