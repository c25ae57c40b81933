-- ===== src/Escape.antt =====
-- The two escaping loops that the text encoders share (ext/pg_copy_coder.c, ext/pg_record_coder.c):
-- forwards from a separate String, and right to left over the bytes that an encoder's second pass
-- has just placed in the output buffer.
pub mod Spread
pub mod Writes
use ruby_pg.Common.{
  ℕ, zero, suc, ◌+◌, ◌-◌, ◌*◌, ◌≤◌, Bool, true, false, Option, none, some, List, [], ◌∷◌, Bytes,
  Mem, write, read, fill, length, ltb, leb, ◌==◌, if◌then◌else◌, ◌>>=◌, ◌≡◌, refl, count, flat_map,
}
use ruby_pg.Buffer.{Buffer, put, store_at, place}

module _ (special : ℕ → Bool) (mark : ℕ → ℕ) where
  -- What stands for one byte in escaped text.
  abbrev pub escape_byte : ℕ → Bytes
  escape_byte c = if special c then mark c ∷ c ∷ [] else c ∷ []

  -- The independent description of escaped text.
  abbrev pub escape : Bytes → Bytes
  escape = flat_map escape_byte

  -- `for(ptr1 = ...; ptr1 < end; ptr1++) { if(special) *current_out++ = mark; *current_out++ = *ptr1; }`
  unfoldable pub escape_forward : Bytes → Buffer → Option Buffer
  escape_forward [] b = some b
  escape_forward (c ∷ cs) b =
      (if special c then put (mark c) b else some b) >>= λ b'. put c b' >>= escape_forward cs

  -- The second store of a round, at a byte that needs an escape.
  unfoldable pub spread_mark : ℕ → ℕ → Buffer → Option (ℕ × Buffer)
  spread_mark c ptr2 b =
      if special c
      then store_at (ptr2 - 1) (mark c) b >>= (λ b'. some (ptr2 - 1, b'))
      else some (ptr2, b)

  -- One round: `*--ptr2 = *--ptr1; if(special(*ptr1)) *--ptr2 = mark;`. It gives `ptr2`.
  unfoldable pub spread_step : ℕ → ℕ → Buffer → Option (ℕ × Buffer)
  unfolding spread_mark
  spread_step ptr1 ptr2 b =
      store_at (ptr2 - 1) (b.mem ptr1) b >>= (λ b'. spread_mark (b'.mem ptr1) (ptr2 - 1) b')

  -- `while( ptr1 != ptr2 )`; a pointer below the String's start is a fault.
  unfoldable pub spread : ℕ → ℕ → Buffer → Option Buffer
  spread zero ptr2 b = if 0 == ptr2 then some b else none
  spread (suc ptr1) ptr2 b =
      let round = spread_step ptr1 ptr2 b >>= λ s. spread ptr1 s.0 s.1 in
      if suc ptr1 == ptr2 then some b else round

  -- The second pass's bytes are placed at `current_out`, their escapes are counted, and they are
  -- moved apart in place.
  unfoldable pub place_escaped : Bytes → Buffer → Option Buffer
  place_escaped cs b = place cs b >>= λ b'.
      let ptr1 = b'.pos + length cs in
      let ptr2 = ptr1 + count special (read b'.mem b'.pos (length cs)) in
      spread ptr1 ptr2 b' >>= λ b''. some (record b'' { pos = ptr2 })
