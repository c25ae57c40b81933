-- ===== src/Copy/Text/Encode.antt =====
-- The text row encoder against a description of its output: the fields' escaped bytes between
-- delimiters, with a line feed at the end.
use ruby_pg.Common.{
  ℕ, ◌+◌, ◌*◌, Option, none, some, List, [], ◌∷◌, Bytes, length, ltb, if◌then◌else◌, Outcome, ok,
  and_then, checked, ◌≡◌, fun_ext, read, refl, arith, Bool-cases, inl, inr, ◌∙◌, ap, sym,
}
use ruby_pg.Buffer.{Allocator, Buffer, text, str_new, ensure_capa, put, put_all}
use ruby_pg.Buffer.Writes.{
  HasRoom, Writes, HasRoom-weaken, Writes-nothing, Writes-put, Writes-put_all, Writes-ensure_capa,
  HasRoom-str_new,
}
use ruby_pg.Escape.{escape, escape_forward, place_escaped}
use ruby_pg.Escape.Writes.{Writes-escape_forward, Writes-place_escaped}
use ruby_pg.Coder.{
  Encoded, direct, buffered, bytes_of, length_int, FitsSize, FitsSize-length_int, IsHonest,
  QueryTypeMap,
}
use ruby_pg.Coder.Refines.{
  Refines, join, Refines-Writes, Refines-bind, Refines-value, Refines-run, and_then_assoc,
}
use ruby_pg.Copy.{CopyCoder}
use ruby_pg.Copy.Text.{
  needs_escape, backslash, write_encoded, write_entry, write_separator, write_row, enc_copy_row,
}

abbrev pub escaped : ℕ → Bytes → Bytes
escaped delimiter = escape (needs_escape delimiter) backslash

module _ (this : CopyCoder) {V : Type 0} (tm : QueryTypeMap V) where
  abbrev pub entry_text : Option V → ℕ → Outcome Bytes
  entry_text none i = ok this.null_string
  entry_text (some v) i =
      and_then (tm.encode_param v i)
        (λ e. and_then (length_int e) (λ e'. ok (escaped this.delimiter (bytes_of e'))))

  abbrev pub separator_text : ℕ → Outcome Bytes
  separator_text i = ok (if ltb 0 i then this.delimiter ∷ [] else [])

  abbrev pub row_text : List (Option V) → ℕ → Outcome Bytes
  row_text [] i = ok []
  row_text (entry ∷ row) i =
      join (separator_text i) (join (entry_text entry i) (row_text row (i + 1)))

  abbrev pub line_text : List (Option V) → Outcome Bytes
  line_text row = and_then (tm.fit_to_query row) (λ _. join (row_text row 0) (ok (b'\n' ∷ [])))

module _ (a : Allocator) (this : CopyCoder) where
  Writes-write_encoded :
      (e : Encoded) (b : Buffer)
      → FitsSize e
      → HasRoom 0 b
      → Writes 0 (escaped this.delimiter (bytes_of e)) b (write_encoded a this e b)
  unfolding write_encoded
  Writes-write_encoded (direct cs) b f h =
      Writes-ensure_capa a (length cs * 2) 0
        (escape_forward (needs_escape this.delimiter) backslash cs) h
        (λ b' r. Writes-escape_forward _ _ cs (HasRoom-weaken _ (omega arith) r))
  Writes-write_encoded (buffered n cs) b f h =
      Writes-ensure_capa a (n * 2) 0 (place_escaped (needs_escape this.delimiter) backslash cs) h
        (λ b' r. Writes-place_escaped _ _ cs (HasRoom-weaken _ (omega arith) r))

  module _ {V : Type 0} (tm : QueryTypeMap V) (honest : IsHonest tm) where
    Refines-write_entry :
        (entry : Option V) (i : ℕ) (b : Buffer)
        → HasRoom 0 b
        → Refines (entry_text this tm entry i) b (write_entry a this tm entry i b)
    unfolding write_entry
    Refines-write_entry none i b h = Refines-Writes (
        Writes-ensure_capa a (length this.null_string) 0 (put_all this.null_string) h
          (λ b' r. Writes-put_all this.null_string (HasRoom-weaken _ (omega arith) r)))
    Refines-write_entry (some v) i b h = Refines-value (tm.encode_param v i) _ b _ (λ e is.
        Refines-value (length_int e) _ b _ (λ e' same.
          Refines-Writes
            (Writes-write_encoded e' b (FitsSize-length_int e (honest v i e is) same) h)))

    Refines-write_separator :
        (i : ℕ) (b : Buffer)
        → HasRoom 0 b
        → Refines (separator_text this tm i) b (write_separator a this tm i b)
    unfolding write_separator
    Refines-write_separator i b h = elim (Bool-cases (ltb 0 i)) [
      | inl s ↦ rw s (
          Refines-Writes
            (Writes-ensure_capa a 1 0 (put this.delimiter) h (λ b' r. Writes-put this.delimiter r)))
      | inr s ↦ rw s (some b, refl, Writes-nothing h)
    ]

    Refines-write_row :
        (row : List (Option V)) (i : ℕ) (b : Buffer)
        → HasRoom 0 b
        → Refines (row_text this tm row i) b (write_row a this tm row i b)
    unfolding write_row
    Refines-write_row [] i b h = (some b, refl, Writes-nothing h)
    Refines-write_row (entry ∷ row) i b h =
        Refines-bind (separator_text this tm i) _ b (write_separator a this tm i b) _
          (Refines-write_separator i b h)
          (λ b1 h1.
            Refines-bind (entry_text this tm entry i) _ b1 _ _ (Refines-write_entry entry i b1 h1)
              (λ b2 h2. Refines-write_row row (i + 1) b2 h2))

    -- For every allocator and every type map whose coders keep to their sizes, the encoder makes no
    -- store outside its buffer, returns exactly the described line, and raises where the type map
    -- or a column's coder raises.
    pub enc_copy_row-line_text :
        (row : List (Option V)) → enc_copy_row a this tm row ≡ line_text this tm row
    unfolding enc_copy_row
    enc_copy_row-line_text row = ap (and_then (tm.fit_to_query row)) (fun_ext (λ _. whole))
      where
        finish : Buffer → Outcome Buffer
        finish b = checked (put b'\n' (ensure_capa a 1 b))

        whole :
            and_then
              (write_row a this tm row 0 (str_new a))
              (λ b. and_then (finish b) (λ b'. ok (text b')))
            ≡ join (row_text this tm row 0) (ok (b'\n' ∷ []))
        whole =
            sym (and_then_assoc (write_row a this tm row 0 (str_new a)) finish (λ b'. ok (text b')))
            ∙ Refines-run _ (str_new a) _ (unfold str_new read in refl) (
                Refines-bind (row_text this tm row 0) (ok (b'\n' ∷ [])) (str_new a) _ finish
                  (Refines-write_row row 0 (str_new a) (HasRoom-str_new a))
                  (λ b' h.
                    Refines-Writes
                      (Writes-ensure_capa a 1 0 (put b'\n') h (λ b'' r. Writes-put b'\n' r))))
