-- ===== src/Quote.antt =====
-- Quoting of elements: `quote_array_buffer` and `quote_literal_buffer` of ext/pg_text_encoder.c, and
-- `rbpg_strncasecmp` of ext/pg_util.c.
pub mod Loop
pub mod Writes
pub mod Element
use ruby_pg.Common.{
  ℕ, zero, suc, ◌+◌, ◌-◌, Bool, true, false, not, ◌&&◌, ◌||◌, Option, none, some, List, [], ◌∷◌,
  ◌++◌, Bytes, codes, length, get_or, read, count, ltb, leb, ◌==◌, if◌then◌else◌, ◌>>=◌,
}
use ruby_pg.Buffer.{Buffer, put_all, store_at}
use ruby_pg.Escape.{escape}

-- `ch += 'a' - 'A'` for an upper case letter
abbrev pub lower : ℕ → ℕ
lower ch = if leb b'A' ch && leb ch b'Z' then ch + 32 else ch

-- What stands behind the first byte.
abbrev pub tail : Bytes → Bytes
tail [] = []
tail (c ∷ cs) = cs

-- `rbpg_strncasecmp(s1, s2, n) == 0`; behind the end of a list stands its null byte.
unfoldable pub strncasecmp_eq : ℕ → Bytes → Bytes → Bool
strncasecmp_eq zero s1 s2 = true
strncasecmp_eq (suc n) s1 s2 =
    let ch1 = get_or s1 0 0 in
    let ch2 = get_or s2 0 0 in
    let rest = strncasecmp_eq n (tail s1) (tail s2) in
    if ch1 == ch2
    then (if ch1 == 0 then true else rest)
    else if lower ch1 == lower ch2
    then (if lower ch1 == 0 then true else rest)
    else false

-- `p_in`: the bytes of a separate String, or the output position itself.
pub data Source : Type 0 where
  separate : Bytes → Source
  in_place : Source

-- `p_in[k]`
abbrev pub byte_at : Source → Buffer → ℕ → ℕ
byte_at (separate cs) b k = get_or cs k 0
byte_at in_place b k = b.mem (b.pos + k)

-- The bytes from `p_in` up to `p_in + strlen`.
abbrev pub input : Source → ℕ → Buffer → Bytes
input (separate cs) strlen b = cs
input in_place strlen b = read b.mem b.pos strlen

module _ (special : ℕ → Bool) (mark : ℕ → ℕ) where
  -- The second store of a round: it gives `ptr2`.
  unfoldable pub quote_mark : ℕ → ℕ → Buffer → Option (ℕ × Buffer)
  quote_mark c zero b = if special c then none else some (0, b)
  quote_mark c (suc q) b =
      if special c then store_at q (mark c) b >>= (λ b'. some (q, b')) else some (suc q, b)

  -- `while( ptr1 != p_in )`, where `ptr1 - p_in` is the first number.
  unfoldable pub quote_loop : Source → ℕ → ℕ → Buffer → Option Buffer
  quote_loop source zero ptr2 b = some b
  quote_loop source (suc k) zero b = none
  quote_loop source (suc k) (suc q) b =
      store_at q (byte_at source b k) b
      >>= (λ b1. quote_mark (b1.mem q) q b1 >>= (λ s. quote_loop source k s.0 s.1))

  -- End quote, the escaped bytes from right to left, start quote.
  unfoldable pub put_quoted : ℕ → Source → ℕ → Buffer → Option Buffer
  unfolding quote_loop
  put_quoted quote source strlen b =
      let backslashes = count special (input source strlen b) in
      let end_quote = b.pos + strlen + backslashes + 1 in
      store_at end_quote quote b >>= (λ b1.
        quote_loop source strlen end_quote b1
        >>= (λ b2. store_at b.pos quote b2 >>= (λ b3. some (record b3 { pos = end_quote + 1 }))))

-- The characters that get a backslash.
abbrev pub needs_backslash : ℕ → Bool
needs_backslash ch = ch == b'"' || ch == b'\\'

abbrev pub array_backslash : ℕ → ℕ
array_backslash ch = b'\\'

-- The characters with which a value must be quoted.
unfoldable pub forces_quote : ℕ → ℕ → Bool
forces_quote delimiter ch =
    needs_backslash ch
    || (ch == b'{'
        || (ch == b'}'
            || (ch == delimiter
                || (ch == b' '
                    || (ch == b'\t' || (ch == b'\n' || (ch == b'\r' || (ch == 11 || ch == 12))))))))

abbrev pub any : (ℕ → Bool) → Bytes → Bool
any p [] = false
any p (c ∷ cs) = p c || any p cs

unfoldable pub needquote : ℕ → Bytes → Bool
unfolding forces_quote strncasecmp_eq
needquote delimiter cs =
    (length cs == 0 || (length cs == 4 && strncasecmp_eq 4 cs (codes "NULL")))
    || any (forces_quote delimiter) cs

-- Without quotes a separate String is copied, and bytes in place stay.
unfoldable pub keep : Source → ℕ → Buffer → Option Buffer
keep (separate cs) strlen b = put_all cs b
keep in_place strlen b = some (record b { pos = b.pos + strlen })

-- `current_out += quote_array_buffer(this, p_in, strlen, current_out)`
unfoldable pub quote_array_buffer : ℕ → Source → ℕ → Buffer → Option Buffer
quote_array_buffer delimiter source strlen b =
    if needquote delimiter (input source strlen b)
    then put_quoted needs_backslash array_backslash b'"' source strlen b
    else keep source strlen b

abbrev pub apostrophe : ℕ
apostrophe = 39

abbrev pub is_apostrophe : ℕ → Bool
is_apostrophe ch = ch == apostrophe

abbrev pub double_apostrophe : ℕ → ℕ
double_apostrophe ch = apostrophe

-- `current_out += quote_literal_buffer(this, p_in, strlen, current_out)`
unfoldable pub quote_literal_buffer : Source → ℕ → Buffer → Option Buffer
quote_literal_buffer source strlen b =
    put_quoted is_apostrophe double_apostrophe apostrophe source strlen b
