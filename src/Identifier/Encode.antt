-- ===== src/Identifier/Encode.antt =====
-- The identifier encoder against a description of its output.
use ruby_pg.Common.{
  ℕ, ◌+◌, Bool, true, false, some, List, [], ◌∷◌, Bytes, length, ◌==◌, if◌then◌else◌, Outcome, ok,
  raises, RubyError, ◌>>=◌, ◌≡◌, refl, arith, Bool-cases, inl, inr, read,
}
use ruby_pg.Buffer.{Allocator, Buffer, str_new, put}
use ruby_pg.Buffer.Writes.{
  HasRoom, HasRoom-weaken, Writes-nothing, Writes-put, Writes-bind, Writes-ensure_capa,
  HasRoom-str_new, Writes-str_ensure_capa,
}
use ruby_pg.Coder.Refines.{
  Refines, RefinesRoom, RefinesRoom-bind, RefinesRoom-limit, RefinesRoom-Writes, join,
  Refines-Writes, Refines-bind, Refines-run,
}
use ruby_pg.Escape.{escape_byte}
use ruby_pg.Identifier.{
  quote, dot, quote_byte, quote_bytes, quote_identifier, write_dot, enc_array_identifier, Name,
  array, string, enc_identifier, sized_str,
}

abbrev pub is_quote : ℕ → Bool
is_quote c = c == quote

abbrev pub doubled : ℕ → ℕ
doubled c = quote

-- A null byte in the name is refused.
abbrev pub byte_text : ℕ → Outcome Bytes
byte_text c = if c == 0 then raises RubyError.arg_error else ok (escape_byte is_quote doubled c)

abbrev pub bytes_text : Bytes → Outcome Bytes
bytes_text [] = ok []
bytes_text (c ∷ cs) = join (byte_text c) (bytes_text cs)

abbrev pub name_text : Bytes → Outcome Bytes
name_text value = join (ok (quote ∷ [])) (join (bytes_text value) (ok (quote ∷ [])))

abbrev pub dot_text : List Bytes → Outcome Bytes
dot_text [] = ok []
dot_text (name ∷ names) = ok (dot ∷ [])

abbrev pub names_text : List Bytes → Outcome Bytes
names_text [] = ok []
names_text (name ∷ names) = join (name_text name) (join (dot_text names) (names_text names))

abbrev pub identifier_text : Name → Outcome Bytes
identifier_text (array names) = names_text names
identifier_text (string value) = name_text value

module _ (a : Allocator) where
  -- A byte with `rest` bytes behind it: room for those and the closing quote is left.
  Refines-quote_byte :
      (c : ℕ) (cs : Bytes) (b : Buffer)
      → HasRoom (length (c ∷ cs) + 1) b
      → RefinesRoom (length cs + 1) (byte_text c) b (quote_byte a c cs b)
  unfolding quote_byte
  Refines-quote_byte c cs b h = elim (Bool-cases (c == quote)) [
    | inl q ↦
        rw (q, not_null q)
          (RefinesRoom-Writes (
            Writes-ensure_capa a (length (c ∷ cs) + 2) (length (c ∷ cs) + 1)
              (λ b'. put quote b' >>= put c) h
              (λ b' r.
                Writes-bind (length cs + 2) (put c)
                  (Writes-put quote (HasRoom-weaken _ (omega arith) r))
                  (λ b'' r'. Writes-put c (HasRoom-weaken _ (omega arith) r')))))
    | inr p ↦ elim (Bool-cases (c == 0)) [
      | inl z ↦ rw (p, z)
      | inr z ↦ rw (p, z) (RefinesRoom-Writes (Writes-put c (HasRoom-weaken _ (omega arith) h)))
    ]
  ]
    where
      not_null : (c == quote) ≡ true → (c == 0) ≡ false
      not_null q = ground arith

  Refines-quote_bytes :
      (cs : Bytes) (b : Buffer)
      → HasRoom (length cs + 1) b
      → RefinesRoom 1 (bytes_text cs) b (quote_bytes a cs b)
  unfolding quote_bytes
  Refines-quote_bytes [] b h = (some b, refl, Writes-nothing (HasRoom-weaken 1 (omega arith) h))
  Refines-quote_bytes (c ∷ cs) b h =
      RefinesRoom-bind (length cs + 1) 1 (byte_text c) (bytes_text cs) b _ _
        (Refines-quote_byte c cs b h) (λ b' r. Refines-quote_bytes cs b' r)

  limited : (b : Buffer) → HasRoom 0 b → HasRoom 0 (record b { limit = b.pos })
  limited b h = record { room = h.room; limited = omega (arith, h.room) }

  Refines-quote_identifier :
      (value : Bytes) (b : Buffer)
      → HasRoom 0 b
      → Refines (name_text value) b (quote_identifier a value b)
  unfolding quote_identifier
  Refines-quote_identifier value b h = RefinesRoom-limit 0 b.pos (name_text value) b _ (
      RefinesRoom-bind (length value + 1) 0 (ok (quote ∷ []))
        (join (bytes_text value) (ok (quote ∷ []))) (record b { limit = b.pos }) _ _
        (RefinesRoom-Writes (
          Writes-ensure_capa a (length value + 2) 0 (put quote) (limited b h)
            (λ b' r. Writes-put quote (HasRoom-weaken _ (omega arith) r))))
        (λ b1 h1.
          RefinesRoom-bind 1 0 (bytes_text value) (ok (quote ∷ [])) b1 _ _
            (Refines-quote_bytes value b1 h1)
            (λ b2 h2.
              Refines-Writes
                (Writes-ensure_capa a 1 1 (put quote) h2 (λ b' r. Writes-put quote r)))))

  Refines-write_dot :
      (names : List Bytes) (b : Buffer)
      → HasRoom 0 b
      → Refines (dot_text names) b (write_dot a names b)
  unfolding write_dot
  Refines-write_dot [] b h = (some b, refl, Writes-nothing h)
  Refines-write_dot (name ∷ names) b h =
      Refines-Writes (Writes-str_ensure_capa a 1 0 (put dot) h (λ b' r. Writes-put dot r))

  Refines-enc_array_identifier :
      (names : List Bytes) (b : Buffer)
      → HasRoom 0 b
      → Refines (names_text names) b (enc_array_identifier a names b)
  unfolding enc_array_identifier
  Refines-enc_array_identifier [] b h = (some b, refl, Writes-nothing h)
  Refines-enc_array_identifier (name ∷ names) b h =
      Refines-bind (name_text name) _ b _ _ (Refines-quote_identifier name b h) (λ b1 h1.
        Refines-bind (dot_text names) (names_text names) b1 _ _ (Refines-write_dot names b1 h1)
          (λ b2 h2. Refines-enc_array_identifier names b2 h2))

  -- For every allocator the encoder makes no store outside its buffer and returns the described
  -- text: each name between quotes with its quotes doubled, and dots between the names. It raises
  -- exactly where a name holds a null byte.
  pub enc_identifier-identifier_text : (v : Name) → enc_identifier a v ≡ identifier_text v
  unfolding enc_identifier
  enc_identifier-identifier_text (array names) =
      Refines-run (names_text names) (str_new a) _ (unfold str_new read in refl)
        (Refines-enc_array_identifier names (str_new a) (HasRoom-str_new a))
  enc_identifier-identifier_text (string value) =
      Refines-run (name_text value) (sized_str (length value + 2)) _ (unfold sized_str read in refl)
        (Refines-quote_identifier value (sized_str (length value + 2))
          (unfold sized_str in record { room = omega arith; limited = omega arith }))
