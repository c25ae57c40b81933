-- ===== src/Identifier.antt =====
-- SQL identifiers: `quote_identifier`, `pg_text_enc_array_identifier` and `pg_text_enc_identifier` of
-- ext/pg_text_encoder.c, and `pg_text_dec_identifier` of ext/pg_text_decoder.c. The Strings are in
-- the connection's encoding already, so that `rb_str_export_to_enc` is not called.
pub mod Encode
pub mod RoundTrip
mod Tests
use ruby_pg.Common.{
  ℕ, ◌+◌, Bool, ◌&&◌, Option, none, some, List, [], ◌∷◌, ◌++◌, Bytes, length, ltb, ◌==◌,
  if◌then◌else◌, Outcome, ok, raises, RubyError, and_then, checked, ◌>>=◌,
}
use ruby_pg.Buffer.{Allocator, Buffer, text, str_new, str_ensure_capa, ensure_capa, put}

abbrev pub quote : ℕ
quote = b'"'

abbrev pub dot : ℕ
dot = b'.'

module _ (a : Allocator) where
  -- One round over the name; `p_inend - p_in` is the length of `c ∷ cs`.
  unfoldable pub quote_byte : ℕ → Bytes → Buffer → Outcome Buffer
  quote_byte c cs b =
      if c == quote
      then checked (put quote (ensure_capa a (length (c ∷ cs) + 2) b) >>= put c)
      else if c == 0
      then raises RubyError.arg_error
      else checked (put c b)

  unfoldable pub quote_bytes : Bytes → Buffer → Outcome Buffer
  unfolding quote_byte
  quote_bytes [] b = ok b
  quote_bytes (c ∷ cs) b = and_then (quote_byte c cs b) (quote_bytes cs)

  -- The local end pointer starts at the current pointer.
  unfoldable pub quote_identifier : Bytes → Buffer → Outcome Buffer
  unfolding quote_bytes
  quote_identifier value b =
      let b0 = record b { limit = b.pos } in
      and_then (checked (put quote (ensure_capa a (length value + 2) b0)))
        (λ b1. and_then (quote_bytes value b1) (λ b2. checked (put quote (ensure_capa a 1 b2))))

  -- Between two names stands a dot.
  unfoldable pub write_dot : List Bytes → Buffer → Outcome Buffer
  write_dot [] b = ok b
  write_dot (name ∷ names) b = checked (put dot (str_ensure_capa a 1 b))

  unfoldable pub enc_array_identifier : List Bytes → Buffer → Outcome Buffer
  unfolding quote_identifier write_dot
  enc_array_identifier [] b = ok b
  enc_array_identifier (name ∷ names) b =
      and_then (quote_identifier name b)
        (λ b1. and_then (write_dot names b1) (enc_array_identifier names))

-- The Ruby value: an Array of names, or a String.
pub data Name : Type 0 where
  array : List Bytes → Name
  string : Bytes → Name

-- `rb_str_new(NULL, n)`: a String with room for n bytes.
unfoldable pub sized_str : ℕ → Buffer
sized_str n = record { mem = λ _. 0; pos = 0; limit = 0; capacity = n }

module _ (a : Allocator) where
  unfoldable pub enc_identifier : Name → Outcome Bytes
  unfolding enc_array_identifier sized_str
  enc_identifier (array names) =
      and_then (enc_array_identifier a names (str_new a)) (λ b. ok (text b))
  enc_identifier (string value) =
      and_then (quote_identifier a value (sized_str (length value + 2))) (λ b. ok (text b))

-- `openQuote`: outside a quoted string, inside behind a quote, inside behind another character.
pub data OpenQuote : Type 0 where
  outside after_quote inside : OpenQuote

-- `openQuote < 2`
abbrev pub may_end : OpenQuote → Bool
may_end inside = Bool.false
may_end _ = Bool.true

-- What a quote does to the word and to the state.
abbrev pub at_quote : OpenQuote → Bytes → OpenQuote × Bytes
at_quote outside word = (inside, word)
at_quote after_quote word = (inside, word ++ quote ∷ [])
at_quote inside word = (after_quote, word)

-- `for(index = 0; index < len; ++index)`, with the word and the array so far.
unfoldable pub read_names : Bytes → OpenQuote → Bytes → List Bytes → List Bytes
read_names [] open_quote word names = names ++ word ∷ []
read_names (c ∷ val) open_quote word names =
    let next = read_names val outside [] (names ++ word ∷ []) in
    let quoted = read_names val (at_quote open_quote word).0 (at_quote open_quote word).1 names in
    let plain = read_names val open_quote (word ++ c ∷ []) names in
    if c == dot && may_end open_quote then next else if c == quote then quoted else plain

unfoldable pub dec_identifier : Bytes → List Bytes
unfolding read_names
dec_identifier val = read_names val outside [] []
