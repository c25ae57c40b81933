-- ===== src/Quote/Element/Writes.antt =====
-- What `quote_string` appends to the output.
use ruby_pg.Common.{
  ℕ, ◌+◌, ◌*◌, ◌^◌, ◌<◌, Bool, Option, some, Bytes, length, if◌then◌else◌, Outcome, ok, and_then,
  ◌>>=◌, ◌≡◌, refl, arith, Bool-cases, inl, inr,
}
use ruby_pg.Buffer.{Allocator, Buffer, put_all, place}
use ruby_pg.Buffer.Writes.{
  place-fill, HasRoom, Writes, HasRoom-weaken, Writes-put_all, Writes-str_ensure_capa,
}
use ruby_pg.Coder.{Encoded, direct, buffered, bytes_of, FitsSize, length_int}
use ruby_pg.Coder.Refines.{Refines, Refines-Writes, Refines-value}
use ruby_pg.Quote.{Source, separate, in_place}
use ruby_pg.Quote.Writes.{Writes-kept}
use ruby_pg.Quote.Element.{worst_case, quote_encoded, copy_encoded, quote_string}

-- The size that is announced for an element.
abbrev pub announced : Encoded → ℕ
announced (direct cs) = length cs
announced (buffered n cs) = n

worst_case-ok : (n : ℕ) → n * 2 + 2 < 2 ^ 31 → worst_case n ≡ ok (n * 2 + 2)
unfolding worst_case
worst_case-ok n h = ground arith

length_int-ok : (e : Encoded) → announced e * 2 + 2 < 2 ^ 31 → length_int e ≡ ok e
unfolding length_int
length_int-ok (direct cs) h = ground arith
length_int-ok (buffered n cs) h = refl

module _ (a : Allocator) where
  Refines-copy_encoded :
      (e : Encoded) (b : Buffer)
      → FitsSize e
      → HasRoom 0 b
      → Refines (ok (bytes_of e)) b (copy_encoded a e b)
  unfolding copy_encoded
  Refines-copy_encoded (direct cs) b f h = Refines-Writes (
      Writes-str_ensure_capa a (length cs) 0 (put_all cs) h
        (λ b' r. Writes-put_all cs (HasRoom-weaken _ (omega arith) r)))
  Refines-copy_encoded (buffered n cs) b f h =
      Refines-Writes (Writes-str_ensure_capa a n 0 _ h (λ b' r. kept b' r))
    where
      kept :
          (b' : Buffer)
          → HasRoom n b'
          → Writes 0 cs b'
              (place cs b' >>= (λ b''. some (record b'' { pos = b''.pos + length cs })))
      kept b' r =
          rw (place-fill cs b' (omega (arith, r.room, f)))
            (Writes-kept cs (HasRoom-weaken _ (omega (arith, f)) r))

  -- The quoting function writes `quoted`, if there is room for the worst case.
  module _ (quote_buffer : Source → ℕ → Buffer → Option Buffer) (quoted : Bytes → Bytes)
      (of_separate : (cs : Bytes) (b : Buffer)
        → HasRoom (length cs * 2 + 2 + 0) b
        → Writes 0 (quoted cs) b (quote_buffer (separate cs) (length cs) b))
      (of_in_place : (cs : Bytes) (b : Buffer)
        → HasRoom (length cs * 2 + 2 + 0) b
        → Writes 0 (quoted cs) b (place cs b >>= quote_buffer in_place (length cs))) where
    Refines-quote_encoded :
        (e : Encoded) (b : Buffer)
        → FitsSize e
        → announced e * 2 + 2 < 2 ^ 31
        → HasRoom 0 b
        → Refines (ok (quoted (bytes_of e))) b (quote_encoded a quote_buffer e b)
    unfolding quote_encoded
    Refines-quote_encoded (direct cs) b f small h = rw (worst_case-ok (length cs) small) (
        Refines-Writes (
          Writes-str_ensure_capa a (length cs * 2 + 2) 0 (quote_buffer (separate cs) (length cs)) h
            (λ b' r. of_separate cs b' (HasRoom-weaken _ (omega arith) r))))
    Refines-quote_encoded (buffered n cs) b f small h = rw (worst_case-ok n small) (
        Refines-Writes (
          Writes-str_ensure_capa a (n * 2 + 2) 0
            (λ b'. place cs b' >>= quote_buffer in_place (length cs)) h
            (λ b' r. of_in_place cs b' (HasRoom-weaken _ (omega (arith, f)) r))))

    -- The element's bytes are quoted, or copied.
    pub Refines-quote_string :
        (with_quote : Bool) (encoded : Outcome Encoded) (b : Buffer)
        → ((e : Encoded) → encoded ≡ ok e → FitsSize e × (announced e * 2 + 2 < 2 ^ 31))
        → HasRoom 0 b
        → Refines
            (and_then encoded (λ e. ok (if with_quote then quoted (bytes_of e) else bytes_of e)))
            b
            (quote_string a quote_buffer with_quote encoded b)
    unfolding quote_string
    Refines-quote_string with_quote encoded b bounded h = Refines-value encoded _ b _ (λ e is.
        let (fits, small) = bounded e is in rw (length_int-ok e small) (chosen e fits small))
      where
        chosen :
            (e : Encoded)
            → FitsSize e
            → announced e * 2 + 2 < 2 ^ 31
            → Refines
                (ok (if with_quote then quoted (bytes_of e) else bytes_of e))
                b
                (if with_quote then quote_encoded a quote_buffer e b else copy_encoded a e b)
        chosen e fits small = elim (Bool-cases with_quote) [
          | inl q ↦ rw q (Refines-quote_encoded e b fits small h)
          | inr q ↦ rw q (Refines-copy_encoded e b fits h)
        ]
