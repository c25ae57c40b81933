-- ===== src/Quote/Element.antt =====
-- An element through its coder, quoted by one of the two functions: `quote_string` of
-- ext/pg_text_encoder.c.
pub mod Writes
use ruby_pg.Common.{
  ℕ, ◌+◌, ◌*◌, ◌^◌, Bool, Option, some, Bytes, length, ltb, if◌then◌else◌, Outcome, ok, fault,
  and_then, checked, ◌>>=◌,
}
use ruby_pg.Buffer.{Allocator, Buffer, str_ensure_capa, put_all, place}
use ruby_pg.Coder.{Encoded, direct, buffered, length_int}
use ruby_pg.Quote.{Source, separate, in_place}

-- `strlen * 2 + 2` is computed in int.
unfoldable pub worst_case : ℕ → Outcome ℕ
worst_case strlen = if ltb (strlen * 2 + 2) (2 ^ 31) then ok (strlen * 2 + 2) else fault

module _ (a : Allocator) where
  -- `with_quote`, with the function `quote_buffer`
  unfoldable pub quote_encoded :
      (Source → ℕ → Buffer → Option Buffer) → Encoded → Buffer → Outcome Buffer
  unfolding worst_case
  quote_encoded quote_buffer (direct cs) b =
      and_then (worst_case (length cs))
        (λ n. checked (quote_buffer (separate cs) (length cs) (str_ensure_capa a n b)))
  quote_encoded quote_buffer (buffered strlen cs) b =
      and_then (worst_case strlen)
        (λ n. checked (place cs (str_ensure_capa a n b) >>= quote_buffer in_place (length cs)))

  unfoldable pub copy_encoded : Encoded → Buffer → Outcome Buffer
  copy_encoded (direct cs) b = checked (put_all cs (str_ensure_capa a (length cs) b))
  copy_encoded (buffered strlen cs) b = checked (
      place cs (str_ensure_capa a strlen b)
      >>= (λ b'. some (record b' { pos = b'.pos + length cs })))

  unfoldable pub quote_string :
      (Source → ℕ → Buffer → Option Buffer) → Bool → Outcome Encoded → Buffer → Outcome Buffer
  unfolding quote_encoded copy_encoded
  quote_string quote_buffer with_quote encoded b = and_then encoded (λ e.
      and_then (length_int e)
        (λ e'. if with_quote then quote_encoded quote_buffer e' b else copy_encoded e' b))
