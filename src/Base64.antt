-- ===== src/Base64.antt =====
-- Base64: `rbpg_base64_encode` and `rbpg_base64_decode` of ext/pg_util.c, with the tables and the
-- size macros of ext/pg_util.h. The encoder runs backwards over one memory, in which `out` and `in`
-- are offsets, since it may work in place.
pub mod Table
pub mod Groups
pub mod Encode
pub mod Decode
pub mod Coders
mod Tests
use ruby_pg.Common.{
  ℕ, zero, suc, ◌+◌, ◌-◌, ◌*◌, ◌/◌, ◌%◌, ◌^◌, Bool, true, false, not, ◌&&◌, Option, none, some,
  List, [], ◌∷◌, ◌++◌, Bytes, codes, length, get_or, Mem, write, ltb, Outcome, ok, fault, and_then,
  ◌==◌, if◌then◌else◌,
}

-- `base64_encode_table`
abbrev pub encode_table : Bytes
encode_table = codes "ABCDEFGHIJKLMNOPQRSTUVWXYZabcdefghijklmnopqrstuvwxyz0123456789+/"

-- `base64_decode_table`; 0xff marks a byte outside the alphabet.
abbrev pub decode_table : Bytes
decode_table =
    0xff ∷ 0xff ∷ 0xff ∷ 0xff ∷ 0xff ∷ 0xff ∷ 0xff ∷ 0xff ∷ 0xff ∷ 0xff ∷ 0xff ∷ 0xff ∷ 0xff ∷ 0xff
    ∷ 0xff ∷ 0xff ∷ 0xff ∷ 0xff ∷ 0xff ∷ 0xff ∷ 0xff ∷ 0xff ∷ 0xff ∷ 0xff ∷ 0xff ∷ 0xff ∷ 0xff
    ∷ 0xff ∷ 0xff ∷ 0xff ∷ 0xff ∷ 0xff ∷ 0xff ∷ 0xff ∷ 0xff ∷ 0xff ∷ 0xff ∷ 0xff ∷ 0xff ∷ 0xff
    ∷ 0xff ∷ 0xff ∷ 0xff ∷ 0x3e ∷ 0xff ∷ 0xff ∷ 0xff ∷ 0x3f ∷ 0x34 ∷ 0x35 ∷ 0x36 ∷ 0x37 ∷ 0x38
    ∷ 0x39 ∷ 0x3a ∷ 0x3b ∷ 0x3c ∷ 0x3d ∷ 0xff ∷ 0xff ∷ 0xff ∷ 0xff ∷ 0xff ∷ 0xff ∷ 0xff ∷ 0x00
    ∷ 0x01 ∷ 0x02 ∷ 0x03 ∷ 0x04 ∷ 0x05 ∷ 0x06 ∷ 0x07 ∷ 0x08 ∷ 0x09 ∷ 0x0a ∷ 0x0b ∷ 0x0c ∷ 0x0d
    ∷ 0x0e ∷ 0x0f ∷ 0x10 ∷ 0x11 ∷ 0x12 ∷ 0x13 ∷ 0x14 ∷ 0x15 ∷ 0x16 ∷ 0x17 ∷ 0x18 ∷ 0x19 ∷ 0xff
    ∷ 0xff ∷ 0xff ∷ 0xff ∷ 0xff ∷ 0xff ∷ 0x1a ∷ 0x1b ∷ 0x1c ∷ 0x1d ∷ 0x1e ∷ 0x1f ∷ 0x20 ∷ 0x21
    ∷ 0x22 ∷ 0x23 ∷ 0x24 ∷ 0x25 ∷ 0x26 ∷ 0x27 ∷ 0x28 ∷ 0x29 ∷ 0x2a ∷ 0x2b ∷ 0x2c ∷ 0x2d ∷ 0x2e
    ∷ 0x2f ∷ 0x30 ∷ 0x31 ∷ 0x32 ∷ 0x33 ∷ 0xff ∷ 0xff ∷ 0xff ∷ 0xff ∷ 0xff ∷ 0xff ∷ 0xff ∷ 0xff
    ∷ 0xff ∷ 0xff ∷ 0xff ∷ 0xff ∷ 0xff ∷ 0xff ∷ 0xff ∷ 0xff ∷ 0xff ∷ 0xff ∷ 0xff ∷ 0xff ∷ 0xff
    ∷ 0xff ∷ 0xff ∷ 0xff ∷ 0xff ∷ 0xff ∷ 0xff ∷ 0xff ∷ 0xff ∷ 0xff ∷ 0xff ∷ 0xff ∷ 0xff ∷ 0xff
    ∷ 0xff ∷ 0xff ∷ 0xff ∷ 0xff ∷ 0xff ∷ 0xff ∷ 0xff ∷ 0xff ∷ 0xff ∷ 0xff ∷ 0xff ∷ 0xff ∷ 0xff
    ∷ 0xff ∷ 0xff ∷ 0xff ∷ 0xff ∷ 0xff ∷ 0xff ∷ 0xff ∷ 0xff ∷ 0xff ∷ 0xff ∷ 0xff ∷ 0xff ∷ 0xff
    ∷ 0xff ∷ 0xff ∷ 0xff ∷ 0xff ∷ 0xff ∷ 0xff ∷ 0xff ∷ 0xff ∷ 0xff ∷ 0xff ∷ 0xff ∷ 0xff ∷ 0xff
    ∷ 0xff ∷ 0xff ∷ 0xff ∷ 0xff ∷ 0xff ∷ 0xff ∷ 0xff ∷ 0xff ∷ 0xff ∷ 0xff ∷ 0xff ∷ 0xff ∷ 0xff
    ∷ 0xff ∷ 0xff ∷ 0xff ∷ 0xff ∷ 0xff ∷ 0xff ∷ 0xff ∷ 0xff ∷ 0xff ∷ 0xff ∷ 0xff ∷ 0xff ∷ 0xff
    ∷ 0xff ∷ 0xff ∷ 0xff ∷ 0xff ∷ 0xff ∷ 0xff ∷ 0xff ∷ 0xff ∷ 0xff ∷ 0xff ∷ 0xff ∷ 0xff ∷ 0xff
    ∷ 0xff ∷ 0xff ∷ 0xff ∷ 0xff ∷ 0xff ∷ 0xff ∷ 0xff ∷ 0xff ∷ 0xff ∷ 0xff ∷ 0xff ∷ 0xff ∷ 0xff
    ∷ 0xff ∷ 0xff ∷ 0xff ∷ 0xff ∷ 0xff ∷ 0xff ∷ 0xff ∷ 0xff ∷ []

-- `BASE64_ENCODED_SIZE` and `BASE64_DECODED_SIZE`
unfoldable pub encoded_size : ℕ → ℕ
encoded_size len = (len + 2) / 3 * 4

unfoldable pub decoded_size : ℕ → ℕ
decoded_size len = (len + 3) / 4 * 3

-- `base64_encode_table[(triple >> i * 6) & 0x3F]`
unfoldable pub sextet : ℕ → ℕ → ℕ
sextet triple i = get_or encode_table (triple / 2 ^ (i * 6) % 64) 0

unfoldable pub triple_of : ℕ → ℕ → ℕ → ℕ
triple_of byte0 byte1 byte2 = byte0 * 2 ^ 16 + byte1 * 2 ^ 8 + byte2

-- Four stores, from the last character to the first.
abbrev pub write4 : Mem → ℕ → ℕ → ℕ → ℕ → ℕ → Mem
write4 m p c0 c1 c2 c3 = write (write (write (write m (p + 3) c3) (p + 2) c2) (p + 1) c1) p c0

-- The group of one or two bytes at the end, at `out_ptr - 4`.
unfoldable pub encode_tail : Mem → ℕ → ℕ → ℕ → Mem
unfolding sextet triple_of
encode_tail m out_ptr in_ptr part_len =
    let byte1 = if ltb 1 part_len then m (in_ptr - 1) else 0 in
    let byte0 = if ltb 1 part_len then m (in_ptr - 2) else m (in_ptr - 1) in
    let triple = triple_of byte0 byte1 0 in
    write4 m (out_ptr - 4) (sextet triple 3) (sextet triple 2)
      (if ltb 1 part_len then sextet triple 1 else b'=') b'='

-- `while( out_ptr > out )`: `out_ptr - out` is four times, `in_ptr - in` three times the rounds left.
unfoldable pub encode_groups : ℕ → Mem → ℕ → ℕ → Mem
unfolding sextet triple_of
encode_groups zero m out inp = m
encode_groups (suc k) m out inp =
    let triple = triple_of (m (inp + 3 * k)) (m (inp + 3 * k + 1)) (m (inp + 3 * k + 2)) in
    let m' =
      write4 m (out + 4 * k) (sextet triple 3) (sextet triple 2) (sextet triple 1)
        (sextet triple 0) in
    encode_groups k m' out inp

-- The encoder behind its pointers, `size` being the distance from `out` to `out_ptr`.
unfoldable pub encode_back : Mem → ℕ → ℕ → ℕ → ℕ → Mem
unfolding encode_tail encode_groups
encode_back m out inp len size =
    let part_len = len % 3 in
    let m' = if ltb 0 part_len then encode_tail m (out + size) (inp + len) part_len else m in
    encode_groups (len / 3) m' out inp

-- `BASE64_ENCODED_SIZE(len)` in int; C does not define what an overflow gives.
unfoldable pub int_size : ℕ → Outcome ℕ
int_size len = if ltb (encoded_size len) (2 ^ 31) then ok (encoded_size len) else fault

-- `rbpg_base64_encode`
unfoldable pub base64_encode : Mem → ℕ → ℕ → ℕ → Outcome Mem
unfolding encode_back int_size
base64_encode m out inp len = and_then (int_size len) (λ size. ok (encode_back m out inp len size))

-- `base64_decode_table[c]`
unfoldable pub decode_char : ℕ → ℕ
decode_char c = get_or decode_table c 0xff

-- `while ((a = base64_decode_table[*in_ptr++]) == 0xff && in_ptr < iend_ptr) {}`
unfoldable pub next_char : ℕ → Bytes → ℕ × Bytes
next_char c [] = (decode_char c, [])
next_char c (d ∷ rest) =
    if decode_char c == 0xff then next_char d rest else (decode_char c, d ∷ rest)

-- The same behind `if (in_ptr < iend_ptr)`.
unfoldable pub next_char? : Bytes → ℕ × Bytes
unfolding next_char
next_char? [] = (0xff, [])
next_char? (c ∷ rest) = next_char c rest

-- The three bytes of a group. The operands of `|` have no bit in common.
abbrev pub byte0_of : ℕ → ℕ → ℕ
byte0_of a b = (a * 4 + b / 16) % 256

abbrev pub byte1_of : ℕ → ℕ → ℕ
byte1_of b c = (b * 16 + c / 4) % 256

abbrev pub byte2_of : ℕ → ℕ → ℕ
byte2_of c d = (c * 64 + d) % 256

-- What the slow path writes for the values found.
unfoldable pub group_bytes : ℕ → ℕ → ℕ → ℕ → Bytes
group_bytes a b c d =
    if not (a == 0xff) && not (b == 0xff)
    then byte0_of a b
      ∷ (if not (c == 0xff)
          then byte1_of b c ∷ (if not (d == 0xff) then byte2_of c d ∷ [] else [])
          else [])
    else []

-- Skipping what is not of the alphabet, a group of up to four characters is read.
unfoldable pub slow_group : ℕ → Bytes → Bytes × Bytes
unfolding next_char next_char? group_bytes
slow_group c rest =
    let a = next_char c rest in
    let b = next_char? a.1 in
    let c = next_char? b.1 in let d = next_char? c.1 in (group_bytes a.0 b.0 c.0 d.0, d.1)

-- `in_ptr+3 < iend_ptr` and four characters of the alphabet.
unfoldable pub fast_group : ℕ → Bytes → Bool
fast_group c0 (c1 ∷ c2 ∷ c3 ∷ rest) =
    not (decode_char c0 == 0xff)
    && not (decode_char c1 == 0xff)
    && not (decode_char c2 == 0xff)
    && not (decode_char c3 == 0xff)
fast_group c0 _ = false

fast_bytes : ℕ → Bytes → Bytes × Bytes
fast_bytes c0 (c1 ∷ c2 ∷ c3 ∷ rest) = (
  byte0_of (decode_char c0) (decode_char c1)
      ∷ byte1_of (decode_char c1) (decode_char c2)
      ∷ byte2_of (decode_char c2) (decode_char c3)
      ∷ [],
  rest,
)
fast_bytes c0 rest = ([], rest)

-- One round of the loop: the bytes that it writes and the input that is left.
unfoldable pub decode_group : ℕ → Bytes → Bytes × Bytes
unfolding fast_group fast_bytes slow_group
decode_group c0 rest = if fast_group c0 rest then fast_bytes c0 rest else slow_group c0 rest

-- `for(;;)`, on fuel.
unfoldable pub decode_loop : ℕ → Bytes → Option Bytes
decode_loop fuel [] = some []
decode_loop zero (c ∷ rest) = none
decode_loop (suc fuel) (c ∷ rest) = elim (decode_loop fuel (decode_group c rest).1) [
  | none ↦ none
  | some out ↦ some ((decode_group c rest).0 ++ out)
]

-- A round reads a character at least, so the length is fuel enough.
unfoldable pub base64_decode : Bytes → Option Bytes
unfolding decode_loop decode_group
base64_decode inp = decode_loop (length inp) inp
