-- ===== src/Record/Encode.antt =====
-- The record encoder against a description of its output.
use ruby_pg.Common.{
  ℕ, ◌+◌, ◌*◌, Option, none, some, List, [], ◌∷◌, ◌++◌, Bytes, length, ltb, if◌then◌else◌, Outcome,
  ok, and_then, checked, ◌>>=◌, ◌≡◌, fun_ext, read, refl, arith, Bool-cases, inl, inr, ◌∙◌, ap, sym,
}
use ruby_pg.Buffer.{Allocator, Buffer, text, str_new, ensure_capa, put}
use ruby_pg.Buffer.Writes.{
  HasRoom, Writes, HasRoom-weaken, Writes-nothing, Writes-put, Writes-bind, Writes-ensure_capa,
  HasRoom-str_new,
}
use ruby_pg.Escape.{escape, escape_forward, place_escaped}
use ruby_pg.Escape.Writes.{Writes-escape_forward, Writes-place_escaped}
use ruby_pg.Coder.{Encoded, direct, buffered, bytes_of, FitsSize, IsHonest, QueryTypeMap}
use ruby_pg.Coder.Refines.{
  Refines, join, Refines-Writes, Refines-bind, Refines-value, Refines-run, and_then_assoc,
}
use ruby_pg.Record.{
  quote, needs_double, itself, write_quoted, write_column, write_comma, write_columns, enc_record,
}

abbrev pub quoted : Bytes → Bytes
quoted cs = quote ∷ [] ++ (escape needs_double itself cs ++ quote ∷ [])

module _ {V : Type 0} (tm : QueryTypeMap V) where
  abbrev pub column_text : Option V → ℕ → Outcome Bytes
  column_text none i = ok []
  column_text (some v) i = and_then (tm.encode_param v i) (λ e. ok (quoted (bytes_of e)))

  abbrev pub comma_text : ℕ → Outcome Bytes
  comma_text i = ok (if ltb 0 i then b',' ∷ [] else [])

  abbrev pub columns_text : List (Option V) → ℕ → Outcome Bytes
  columns_text [] i = ok []
  columns_text (entry ∷ row) i =
      join (comma_text i) (join (column_text entry i) (columns_text row (i + 1)))

  abbrev pub record_text : List (Option V) → Outcome Bytes
  record_text row =
      and_then (tm.fit_to_query row)
        (λ _. join (ok (b'(' ∷ [])) (join (columns_text row 0) (ok (b')' ∷ []))))

module _ (a : Allocator) where
  Writes-write_quoted :
      (e : Encoded) (b : Buffer)
      → FitsSize e
      → HasRoom 0 b
      → Writes 0 (quoted (bytes_of e)) b (write_quoted a e b)
  unfolding write_quoted
  Writes-write_quoted (direct cs) b f h =
      Writes-ensure_capa a (length cs * 2 + 2) 0
        (λ b1. put quote b1 >>= λ b2. escape_forward needs_double itself cs b2 >>= put quote) h
        (λ b1 r1.
          Writes-bind (length cs * 2 + 1) _ (Writes-put quote (HasRoom-weaken _ (omega arith) r1))
            (λ b2 r2.
              Writes-bind 1 (put quote)
                (Writes-escape_forward _ _ cs (HasRoom-weaken _ (omega arith) r2))
                (λ b3 r3. Writes-put quote r3)))
  Writes-write_quoted (buffered n cs) b f h =
      Writes-ensure_capa a (n * 2 + 2) 0
        (λ b1. put quote b1 >>= λ b2. place_escaped needs_double itself cs b2 >>= put quote) h
        (λ b1 r1.
          Writes-bind (length cs * 2 + 1) _
            (Writes-put quote (HasRoom-weaken _ (omega (arith, f)) r1))
            (λ b2 r2.
              Writes-bind 1 (put quote)
                (Writes-place_escaped _ _ cs (HasRoom-weaken _ (omega arith) r2))
                (λ b3 r3. Writes-put quote r3)))

  module _ {V : Type 0} (tm : QueryTypeMap V) (honest : IsHonest tm) where
    Refines-write_column :
        (entry : Option V) (i : ℕ) (b : Buffer)
        → HasRoom 0 b
        → Refines (column_text tm entry i) b (write_column a tm entry i b)
    unfolding write_column
    Refines-write_column none i b h = (some b, refl, Writes-nothing h)
    Refines-write_column (some v) i b h =
        Refines-value (tm.encode_param v i) _ b _
          (λ e is. Refines-Writes (Writes-write_quoted e b (honest v i e is) h))

    Refines-write_comma :
        (i : ℕ) (b : Buffer) → HasRoom 0 b → Refines (comma_text tm i) b (write_comma a tm i b)
    unfolding write_comma
    Refines-write_comma i b h = elim (Bool-cases (ltb 0 i)) [
      | inl s ↦
          rw s (Refines-Writes (Writes-ensure_capa a 1 0 (put b',') h (λ b' r. Writes-put b',' r)))
      | inr s ↦ rw s (some b, refl, Writes-nothing h)
    ]

    Refines-write_columns :
        (row : List (Option V)) (i : ℕ) (b : Buffer)
        → HasRoom 0 b
        → Refines (columns_text tm row i) b (write_columns a tm row i b)
    unfolding write_columns
    Refines-write_columns [] i b h = (some b, refl, Writes-nothing h)
    Refines-write_columns (entry ∷ row) i b h =
        Refines-bind (comma_text tm i) _ b (write_comma a tm i b) _ (Refines-write_comma i b h)
          (λ b1 h1.
            Refines-bind (column_text tm entry i) _ b1 _ _ (Refines-write_column entry i b1 h1)
              (λ b2 h2. Refines-write_columns row (i + 1) b2 h2))

    -- For every allocator and every type map whose coders keep to their sizes, the record encoder
    -- makes no store outside its buffer, returns exactly the described text, and raises where the
    -- type map or a column's coder raises.
    pub enc_record-record_text : (row : List (Option V)) → enc_record a tm row ≡ record_text tm row
    unfolding enc_record
    enc_record-record_text row = ap (and_then (tm.fit_to_query row)) (fun_ext (λ _. whole))
      where
        start : Outcome Buffer
        start = checked (put b'(' (ensure_capa a 1 (str_new a)))

        finish : Buffer → Outcome Buffer
        finish b = checked (put b')' (ensure_capa a 1 b))

        middle : Buffer → Outcome Buffer
        middle b = and_then (write_columns a tm row 0 b) finish

        refines :
            Refines
              (join (ok (b'(' ∷ [])) (join (columns_text tm row 0) (ok (b')' ∷ []))))
              (str_new a)
              (and_then start middle)
        refines =
            Refines-bind (ok (b'(' ∷ [])) _ (str_new a) start middle
              (Refines-Writes (
                Writes-ensure_capa a 1 0 (put b'(') (HasRoom-str_new a) (λ b r. Writes-put b'(' r)))
              (λ b1 h1.
                Refines-bind (columns_text tm row 0) (ok (b')' ∷ [])) b1 _ finish
                  (Refines-write_columns row 0 b1 h1)
                  (λ b2 h2.
                    Refines-Writes
                      (Writes-ensure_capa a 1 0 (put b')') h2 (λ b r. Writes-put b')' r))))

        whole :
            and_then start (λ b.
              and_then
                (write_columns a tm row 0 b)
                (λ b1. and_then (finish b1) (λ b2. ok (text b2))))
            ≡ join (ok (b'(' ∷ [])) (join (columns_text tm row 0) (ok (b')' ∷ [])))
        whole =
            ap (and_then start) (
              fun_ext (λ b.
                sym (and_then_assoc (write_columns a tm row 0 b) finish (λ b2. ok (text b2)))))
            ∙ sym (and_then_assoc start middle (λ b2. ok (text b2)))
            ∙ Refines-run _ (str_new a) _ (unfold str_new read in refl) refines
