-- ===== src/Bytea/Encode.antt =====
-- What `pg_text_enc_bytea` (ext/pg_text_encoder.c) writes, read back by a reader of hexadecimal.
use ruby_pg.Common.{
  ℕ, zero, suc, ◌+◌, ◌-◌, ◌*◌, ◌/◌, ◌%◌, ◌^◌, ◌≤◌, ◌<◌, Bool, true, false, ltb, ◌==◌, ◌&&◌,
  if◌then◌else◌, [], ◌∷◌, Bytes, length, All, get_or, Mem, write, read, fill, read-fill, ok, ◌≡◌,
  refl, ◌∙◌, ap, arith,
}
use ruby_pg.Coder.{buffered}
use ruby_pg.Bytea.{hextab, high, low, put_hex, put_bytea, max_size, buffered_at, text_enc_bytea}

-- The value of a digit, in lower case as the server writes it.
abbrev digit_value : ℕ → ℕ
digit_value d = if ltb d b'a' then d - b'0' else d - b'a' + 10

-- The bytes that pairs of digits stand for; a digit that is left over is dropped.
unfoldable pub unhex : Bytes → Bytes
unhex [] = []
unhex (a ∷ []) = []
unhex (a ∷ b ∷ cs) = (digit_value a * 16 + digit_value b) ∷ unhex cs

counts_up : ℕ → Bytes → Bool
counts_up i [] = true
counts_up i (c ∷ chars) = digit_value c == i && counts_up (i + 1) chars

counts_up_sound :
    (chars : Bytes) (i x : ℕ)
    → x < length chars
    → counts_up i chars ≡ true
    → digit_value (get_or chars x 0) ≡ i + x
unfolding counts_up
counts_up_sound [] i x lt h = absurd (omega arith)
counts_up_sound (c ∷ chars) i zero lt h = ground arith
counts_up_sound (c ∷ chars) i (suc x) lt h = ground (arith, counts_up_sound chars (i + 1) x)

hextab_ok : counts_up 0 hextab ≡ true
unfolding counts_up
hextab_ok = refl

digit_value-hextab : (x : ℕ) → x < 16 → digit_value (get_or hextab x 0) ≡ x
digit_value-hextab x lt =
    counts_up_sound hextab 0 x lt hextab_ok ∙ (let z : 0 + x ≡ x = omega arith in z)

-- The digits of each byte.
unfoldable pub hexes : Bytes → Bytes
hexes [] = []
hexes (c ∷ cs) = high c ∷ low c ∷ hexes cs

length-hexes : (cs : Bytes) → length (hexes cs) ≡ length cs * 2
unfolding hexes
length-hexes [] = refl
length-hexes (c ∷ cs) = omega (arith, length-hexes cs)

unhex-hexes : (cs : Bytes) → All (λ c. c < 2 ^ 8) cs → unhex (hexes cs) ≡ cs
unfolding unhex hexes
unhex-hexes [] h = refl
unhex-hexes (c ∷ cs) (lt, h) =
    ap (λ v. v ∷ unhex (hexes cs))
      (omega (
        arith,
        digit_value-hextab (c / 16) (omega arith),
        digit_value-hextab (c % 16) (omega arith),
      ))
    ∙ ap (λ t. c ∷ t) (unhex-hexes cs h)

put_hex-lem :
    (cs : Bytes) (p : ℕ) (m : Mem) → put_hex cs p m ≡ (p + length cs * 2, fill m p (hexes cs))
unfolding put_hex hexes fill
put_hex-lem [] p m = ap (λ q. (q, m)) (let z : p ≡ p + 0 * 2 = omega arith in z)
put_hex-lem (c ∷ cs) p m =
    put_hex-lem cs (p + 2) (write (write m p (high c)) (p + 1) (low c))
    ∙ cc (
      (let z : p + 2 + length cs * 2 ≡ p + suc (length cs) * 2 = omega arith in z),
      (let z : p + 2 ≡ p + 1 + 1 = omega arith in z),
    )

abbrev bytea_text : Bytes → Bytes
bytea_text cs = b'\\' ∷ b'x' ∷ hexes cs

put_bytea-lem :
    (cs : Bytes) (p : ℕ) (m : Mem)
    → put_bytea cs p m ≡ (2 + length cs * 2, fill m p (bytea_text cs))
unfolding put_bytea fill
put_bytea-lem cs p m =
    ap (λ (r : ℕ × Mem). (r.0 - p, r.1))
      (put_hex-lem cs (p + 2) (write (write m p b'\\') (p + 1) b'x'))
    ∙ cc (
      (let z : p + 2 + length cs * 2 - p ≡ 2 + length cs * 2 = omega arith in z),
      (let z : p + 2 ≡ p + 1 + 1 = omega arith in z),
    )

-- For a String of at most INT_MAX / 2 - 2 bytes, the bytea encoder announces an int, writes exactly
-- as many characters at the output pointer and nothing else, and these are a backslash, an x and
-- digits that stand for the bytes of the String.
pub unhex-text_enc_bytea :
    (out : ℕ) (m : Mem) (value : Bytes)
    → All (λ c. c < 2 ^ 8) value
    → length value ≤ max_size
    → (digits : Bytes) × (text_enc_bytea out m value
        ≡ ok (buffered (length (b'\\' ∷ b'x' ∷ digits)) (b'\\' ∷ b'x' ∷ digits)))
      × (unhex digits ≡ value)
      × (length (b'\\' ∷ b'x' ∷ digits) < 2 ^ 31)
      × ((put_bytea value out m).1 ≡ fill m out (b'\\' ∷ b'x' ∷ digits))
unfolding text_enc_bytea
unhex-text_enc_bytea out m value bytes le = (
  hexes value,
  (let small : ltb max_size (length value) ≡ false = ground arith in rw small (ap ok all)),
  unhex-hexes value bytes,
  omega (arith, length-hexes value),
  ap (λ (r : ℕ × Mem). r.1) (put_bytea-lem value out m),
)
  where
    size : 2 + length value * 2 ≡ length (bytea_text value)
    size = omega (arith, length-hexes value)

    all :
        buffered_at (2 + length value * 2) out (put_bytea value out m)
        ≡ buffered (length (bytea_text value)) (bytea_text value)
    all =
        ap (buffered_at (2 + length value * 2) out) (put_bytea-lem value out m)
        ∙ ap (λ n. buffered n (read (fill m out (bytea_text value)) out n)) size
        ∙ ap (buffered (length (bytea_text value))) (read-fill (bytea_text value) m out)
