-- ===== src/Copy/Binary/Encode.antt =====
-- The binary row encoder against a description of its output: a count, and each field behind its
-- length.
use ruby_pg.Common.{
  ℕ, ◌+◌, ◌≤◌, Option, none, some, List, [], ◌∷◌, ◌++◌, Bytes, length, leb, if◌then◌else◌, Outcome,
  ok, raises, RubyError, and_then, checked, ◌≡◌, refl, arith, ◌∙◌, ap, sym, read, fun_ext, ◌>>=◌,
}
use ruby_pg.Buffer.{Allocator, Buffer, text, str_new, ensure_capa, put_all}
use ruby_pg.Buffer.Writes.{
  HasRoom, Writes, HasRoom-weaken, Writes-nothing, Writes-put_all, Writes-bind, Writes-ensure_capa,
  HasRoom-str_new,
}
use ruby_pg.Nbo.{write_nbo16, write_nbo32, minus_one32}
use ruby_pg.Coder.{
  Encoded, direct, buffered, bytes_of, length_int, FitsSize, FitsSize-length_int, IsHonest,
  QueryTypeMap,
}
use ruby_pg.Coder.Refines.{
  Refines, join, Refines-Writes, Refines-bind, Refines-value, Refines-run, and_then_assoc,
}
use ruby_pg.Copy.Binary.{write_encoded, write_entry, write_row, enc_binary_row}

-- The length that is written in front of the bytes.
abbrev pub declared : Encoded → ℕ
declared (direct cs) = length cs
declared (buffered n cs) = n

abbrev pub field_text : Encoded → Bytes
field_text e = write_nbo32 (declared e) ++ bytes_of e

module _ {V : Type 0} (tm : QueryTypeMap V) where
  abbrev pub entry_text : Option V → ℕ → Outcome Bytes
  entry_text none i = ok (write_nbo32 minus_one32)
  entry_text (some v) i =
      and_then (tm.encode_param v i) (λ e. and_then (length_int e) (λ e'. ok (field_text e')))

  abbrev pub row_text : List (Option V) → ℕ → Outcome Bytes
  row_text [] i = ok []
  row_text (entry ∷ row) i = join (entry_text entry i) (row_text row (i + 1))

  abbrev pub row_bytes : List (Option V) → Outcome Bytes
  row_bytes row =
      if leb 32768 (length row)
      then raises RubyError.arg_error
      else and_then (tm.fit_to_query row)
          (λ _. join (ok (write_nbo16 (length row))) (row_text row 0))

module _ (a : Allocator) where
  length-write_nbo32 : (l : ℕ) → length (write_nbo32 l) ≡ 4
  unfolding write_nbo32
  length-write_nbo32 l = refl

  Writes-field :
      (cs : Bytes) (n : ℕ) (b : Buffer)
      → length cs ≤ n
      → HasRoom 0 b
      → Writes 0
          (write_nbo32 n ++ cs)
          b
          (put_all (write_nbo32 n) (ensure_capa a (4 + n) b) >>= put_all cs)
  Writes-field cs n b fits h =
      Writes-ensure_capa a (4 + n) 0 (λ b'. put_all (write_nbo32 n) b' >>= put_all cs) h
        (λ b' r.
          Writes-bind n (put_all cs)
            (Writes-put_all (write_nbo32 n)
              (HasRoom-weaken _ (omega (arith, length-write_nbo32 n)) r))
            (λ b'' r'. Writes-put_all cs (HasRoom-weaken _ (omega arith) r')))

  Writes-write_encoded :
      (e : Encoded) (b : Buffer)
      → FitsSize e
      → HasRoom 0 b
      → Writes 0 (field_text e) b (write_encoded a e b)
  unfolding write_encoded
  Writes-write_encoded (direct cs) b f h = Writes-field cs (length cs) b (omega arith) h
  Writes-write_encoded (buffered n cs) b f h = Writes-field cs n b f h

  module _ {V : Type 0} (tm : QueryTypeMap V) (honest : IsHonest tm) where
    Refines-write_entry :
        (entry : Option V) (i : ℕ) (b : Buffer)
        → HasRoom 0 b
        → Refines (entry_text tm entry i) b (write_entry a tm entry i b)
    unfolding write_entry
    Refines-write_entry none i b h = Refines-Writes (
        Writes-ensure_capa a 4 0 (put_all (write_nbo32 minus_one32)) h (λ b' r.
          Writes-put_all (write_nbo32 minus_one32)
            (HasRoom-weaken _ (omega (arith, length-write_nbo32 minus_one32)) r)))
    Refines-write_entry (some v) i b h = Refines-value (tm.encode_param v i) _ b _ (λ e is.
        Refines-value (length_int e) _ b _ (λ e' same.
          Refines-Writes
            (Writes-write_encoded e' b (FitsSize-length_int e (honest v i e is) same) h)))

    Refines-write_row :
        (row : List (Option V)) (i : ℕ) (b : Buffer)
        → HasRoom 0 b
        → Refines (row_text tm row i) b (write_row a tm row i b)
    unfolding write_row
    Refines-write_row [] i b h = (some b, refl, Writes-nothing h)
    Refines-write_row (entry ∷ row) i b h =
        Refines-bind (entry_text tm entry i) _ b _ _ (Refines-write_entry entry i b h)
          (λ b' h'. Refines-write_row row (i + 1) b' h')

    -- For every allocator and every type map whose coders keep to their sizes, the encoder makes no
    -- store outside its buffer and returns exactly the described bytes. It raises on a row of 32768
    -- columns or more, and where the type map or a column's coder raises.
    pub enc_binary_row-row_bytes :
        (row : List (Option V)) → enc_binary_row a tm row ≡ row_bytes tm row
    unfolding enc_binary_row
    enc_binary_row-row_bytes row =
        ap (λ r. if leb 32768 (length row) then raises RubyError.arg_error else r)
          (ap (and_then (tm.fit_to_query row)) (fun_ext (λ _. whole)))
      where
        fits : (l : ℕ) → length (write_nbo16 l) + 0 ≤ 2
        fits l = unfold write_nbo16 in omega arith

        start : Outcome Buffer
        start = checked (put_all (write_nbo16 (length row)) (ensure_capa a 2 (str_new a)))

        whole :
            and_then start (λ b. and_then (write_row a tm row 0 b) (λ b'. ok (text b')))
            ≡ join (ok (write_nbo16 (length row))) (row_text tm row 0)
        whole =
            sym (and_then_assoc start (write_row a tm row 0) (λ b'. ok (text b')))
            ∙ Refines-run _ (str_new a) _ (unfold str_new read in refl) (
                Refines-bind (ok (write_nbo16 (length row))) (row_text tm row 0) (str_new a) start _
                  (Refines-Writes (
                    Writes-ensure_capa a 2 0 (put_all (write_nbo16 (length row)))
                      (HasRoom-str_new a)
                      (λ b r.
                        Writes-put_all (write_nbo16 (length row))
                          (HasRoom-weaken _ (fits (length row)) r))))
                  (λ b h. Refines-write_row row 0 b h))
