-- ===== src/Nbo.antt =====
-- Network byte order: the macros `write_nbo16/32/64` and `read_nbo16/32/64` of ext/pg_util.h. A
-- signed integer is its bit pattern, a number below 2 ^ w. The bytes that `read_nbo*` joins with `|`
-- are shifted apart, so `|` is `+` on them.
use ruby_pg.Common.{
  ℕ, ◌+◌, ◌*◌, ◌/◌, ◌%◌, ◌^◌, ◌<◌, [], ◌∷◌, ◌-◌, ◌++◌, Bytes, Option, none, some, ◌≡◌, Bool, leb,
  arith,
}

unfoldable pub write_nbo16 : ℕ → Bytes
write_nbo16 l = (l / 2 ^ 8 % 256) ∷ (l % 256) ∷ []

unfoldable pub write_nbo32 : ℕ → Bytes
write_nbo32 l = (l / 2 ^ 24 % 256) ∷ (l / 2 ^ 16 % 256) ∷ (l / 2 ^ 8 % 256) ∷ (l % 256) ∷ []

unfoldable pub write_nbo64 : ℕ → Bytes
write_nbo64 l =
    (l / 2 ^ 56 % 256)
    ∷ (l / 2 ^ 48 % 256)
    ∷ (l / 2 ^ 40 % 256)
    ∷ (l / 2 ^ 32 % 256)
    ∷ (l / 2 ^ 24 % 256)
    ∷ (l / 2 ^ 16 % 256)
    ∷ (l / 2 ^ 8 % 256)
    ∷ (l % 256)
    ∷ []

-- The bytes at the pointer; none where fewer are left.
unfoldable pub read_nbo16 : Bytes → Option (ℕ × Bytes)
read_nbo16 (a ∷ b ∷ rest) = some (a * 2 ^ 8 + b, rest)
read_nbo16 _ = none

unfoldable pub read_nbo32 : Bytes → Option (ℕ × Bytes)
read_nbo32 (a ∷ b ∷ c ∷ d ∷ rest) = some (a * 2 ^ 24 + b * 2 ^ 16 + c * 2 ^ 8 + d, rest)
read_nbo32 _ = none

unfoldable pub read_nbo64 : Bytes → Option (ℕ × Bytes)
read_nbo64 (a ∷ b ∷ c ∷ d ∷ e ∷ f ∷ g ∷ h ∷ rest) = some (
  a * 2 ^ 56 + b * 2 ^ 48 + c * 2 ^ 40 + d * 2 ^ 32 + e * 2 ^ 24 + f * 2 ^ 16 + g * 2 ^ 8 + h,
  rest,
)
read_nbo64 _ = none

-- The pattern of -1.
abbrev pub minus_one16 : ℕ
minus_one16 = 2 ^ 16 - 1

abbrev pub minus_one32 : ℕ
minus_one32 = 2 ^ 32 - 1

abbrev pub is_negative16 : ℕ → Bool
is_negative16 l = leb (2 ^ 15) l

abbrev pub is_negative32 : ℕ → Bool
is_negative32 l = leb (2 ^ 31) l

pub read_nbo16-write_nbo16 :
    (l : ℕ) (rest : Bytes) → l < 2 ^ 16 → read_nbo16 (write_nbo16 l ++ rest) ≡ some (l, rest)
unfolding read_nbo16 write_nbo16
read_nbo16-write_nbo16 l rest h = ground arith

pub read_nbo32-write_nbo32 :
    (l : ℕ) (rest : Bytes) → l < 2 ^ 32 → read_nbo32 (write_nbo32 l ++ rest) ≡ some (l, rest)
unfolding read_nbo32 write_nbo32
read_nbo32-write_nbo32 l rest h = ground arith

pub read_nbo64-write_nbo64 :
    (l : ℕ) (rest : Bytes) → l < 2 ^ 64 → read_nbo64 (write_nbo64 l ++ rest) ≡ some (l, rest)
unfolding read_nbo64 write_nbo64
read_nbo64-write_nbo64 l rest h = ground arith
