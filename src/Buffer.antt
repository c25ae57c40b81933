-- ===== src/Buffer.antt =====
-- The growing output String of the encoders: ext/pg.h (`PG_RB_STR_NEW`, `PG_RB_STR_ENSURE_CAPA`)
-- and ext/pg.c (`pg_rb_str_ensure_capa`). Every store through `current_out` is checked against the
-- String's capacity: `none` is a write outside it.
pub mod Writes
use ruby_pg.Common.{
  ℕ, zero, suc, ◌+◌, ◌-◌, ◌*◌, ◌≤◌, Bool, true, false, Option, none, some, List, [], ◌∷◌, Bytes,
  Mem, write, read, fill, length, ltb, leb, if◌then◌else◌, ◌>>=◌, ◌≡◌, refl,
}

-- Ruby's allocator, which the extension calls and does not implement: the capacity of a String of
-- length `len` and capacity `capa` after `rb_str_modify_expand(str, expand)`.
pub record Allocator : Type 0 where
  pub expand : ℕ → ℕ → ℕ → ℕ
  -- Ruby documents that the String has room for `expand` more bytes then.
  pub expand_room : (len capa more : ℕ) → len + more ≤ expand len capa more
  -- The capacity of a new empty String.
  pub embedded : ℕ

-- `current_out` is `pos`, `end_capa_ptr` is `limit`, both as offsets into the String.
pub record Buffer : Type 0 where
  pub mem : Mem
  pub pos : ℕ
  pub limit : ℕ
  pub capacity : ℕ

-- What has been written so far, which `rb_str_set_len` makes the String's content.
abbrev pub text : Buffer → Bytes
text b = read b.mem 0 b.pos

module _ (a : Allocator) where
  -- `PG_RB_STR_NEW`: the end pointer starts at the current pointer.
  unfoldable pub str_new : Buffer
  str_new = record { mem = λ _. 0; pos = 0; limit = 0; capacity = a.embedded }

  -- The String grows if `n` more bytes do not fit. Its bytes up to `pos` are kept.
  unfoldable pub str_ensure_capa : ℕ → Buffer → Buffer
  str_ensure_capa n b =
      let grown =
        if ltb b.capacity (b.pos + n)
        then a.expand b.pos b.capacity ((b.pos + n) * 2 - b.capacity)
        else b.capacity in
      record b { limit = grown; capacity = grown }

  -- The macro asks for more only if the end pointer would be reached.
  unfoldable pub ensure_capa : ℕ → Buffer → Buffer
  unfolding str_ensure_capa
  ensure_capa n b = if leb b.limit (b.pos + n) then str_ensure_capa n b else b

-- `*current_out++ = c`
unfoldable pub put : ℕ → Buffer → Option Buffer
put c b =
    if ltb b.pos b.capacity
    then some (record b { mem = write b.mem b.pos c; pos = b.pos + 1 })
    else none

-- `memcpy(current_out, bytes, n); current_out += n`
unfoldable pub put_all : Bytes → Buffer → Option Buffer
unfolding put
put_all [] b = some b
put_all (c ∷ cs) b = put c b >>= put_all cs

-- `buf[i] = c`, with the current pointer left alone.
unfoldable pub store_at : ℕ → ℕ → Buffer → Option Buffer
store_at i c b = if ltb i b.capacity then some (record b { mem = write b.mem i c }) else none

-- An encoder's second pass writes its bytes at `current_out`, which stays.
unfoldable pub place : Bytes → Buffer → Option Buffer
place cs b =
    if ltb b.capacity (b.pos + length cs)
    then none
    else some (record b { mem = fill b.mem b.pos cs })
