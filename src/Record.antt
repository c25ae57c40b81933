-- ===== src/Record.antt =====
-- Composite types in text format: `pg_text_enc_record` and `pg_text_dec_record` of
-- ext/pg_record_coder.c. The decoder reads a C string: a pointer is the list of the bytes from
-- there to the terminator, which is the zero that stands behind the last of them.
pub mod Encode
pub mod RoundTrip
mod Tests
pub mod Ends
use ruby_pg.Common.{
  ℕ, zero, suc, ◌+◌, ◌*◌, Bool, true, false, not, ◌&&◌, ◌||◌, Option, none, some, List, [], ◌∷◌,
  ◌++◌, Bytes, length, ltb, ◌==◌, if◌then◌else◌, Outcome, ok, raises, fault, RubyError, and_then,
  checked, ◌>>=◌,
}
use ruby_pg.Buffer.{Allocator, Buffer, text, str_new, ensure_capa, put}
use ruby_pg.Escape.{escape_forward, place_escaped}
use ruby_pg.Coder.{Encoded, direct, buffered, QueryTypeMap, CopyTypeMap}

abbrev pub quote : ℕ
quote = b'"'

-- Quotes and backslashes are doubled.
abbrev pub needs_double : ℕ → Bool
needs_double c = c == quote || c == b'\\'

abbrev pub itself : ℕ → ℕ
itself c = c

module _ (a : Allocator) where
  -- A value between quotes, by either pass.
  unfoldable pub write_quoted : Encoded → Buffer → Option Buffer
  write_quoted (direct cs) b = put quote (ensure_capa a (length cs * 2 + 2) b) >>= λ b1.
      escape_forward needs_double itself cs b1 >>= put quote
  write_quoted (buffered strlen cs) b = put quote (ensure_capa a (strlen * 2 + 2) b) >>= λ b1.
      place_escaped needs_double itself cs b1 >>= put quote

  module _ {V : Type 0} (tm : QueryTypeMap V) where
    -- Nothing is written for nil.
    unfoldable pub write_column : Option V → ℕ → Buffer → Outcome Buffer
    write_column none i b = ok b
    write_column (some v) i b = and_then (tm.encode_param v i) (λ e. checked (write_quoted e b))

    unfoldable pub write_comma : ℕ → Buffer → Outcome Buffer
    write_comma i b = if ltb 0 i then checked (put b',' (ensure_capa a 1 b)) else ok b

    -- `for( i=0; i<RARRAY_LEN(value); i++)`
    unfoldable pub write_columns : List (Option V) → ℕ → Buffer → Outcome Buffer
    unfolding write_column write_comma
    write_columns [] i b = ok b
    write_columns (entry ∷ row) i b =
        and_then (write_comma i b)
          (λ b1. and_then (write_column entry i b1) (λ b2. write_columns row (i + 1) b2))

    unfoldable pub enc_record : List (Option V) → Outcome Bytes
    unfolding write_columns
    enc_record row = and_then (tm.fit_to_query row) (λ _.
        and_then (checked (put b'(' (ensure_capa a 1 (str_new a)))) (λ b.
          and_then (write_columns row 0 b)
            (λ b1. and_then (checked (put b')' (ensure_capa a 1 b1))) (λ b2. ok (text b2)))))

-- `record_isspace`
unfoldable pub record_isspace : ℕ → Bool
record_isspace ch = ch == b' ' || ch == b'\t' || ch == b'\n' || ch == b'\r' || ch == 11 || ch == 12

-- `*cur_ptr`
abbrev pub peek : Bytes → ℕ
peek [] = 0
peek (c ∷ cur) = c

-- `cur_ptr + 1`, where the pointer is not at the terminator.
abbrev pub behind : Bytes → Bytes
behind [] = []
behind (c ∷ cur) = cur

-- `while (*cur_ptr && record_isspace(*cur_ptr)) cur_ptr++`
unfoldable pub skip_spaces : Bytes → Bytes
unfolding record_isspace
skip_spaces [] = []
skip_spaces (c ∷ cur) = if not (c == 0) && record_isspace c then skip_spaces cur else c ∷ cur

abbrev pub ends_column : ℕ → Bool
ends_column c = c == b',' || c == b')'

abbrev pub malformed {ℓ} : {A : Type ℓ} → Outcome A
malformed = raises RubyError.arg_error

-- The loop over a column's characters, with `inquote` and the String so far. It gives the String and
-- the pointer behind the column.
unfoldable pub read_column : Bool → Bytes → Bytes → Outcome (Bytes × Bytes)
read_column inquote [] out = malformed
read_column inquote (ch ∷ []) out =
    let opened = read_column true [] out in
    let closed = read_column false [] out in
    let next = read_column inquote [] (out ++ ch ∷ []) in
    if not inquote && ends_column ch
    then ok (out, ch ∷ [])
    else if ch == 0
    then malformed
    else if ch == b'\\'
    then malformed
    else if ch == quote
    then (if not inquote then opened else closed)
    else next
read_column inquote (ch ∷ d ∷ cur) out =
    let escaped = read_column inquote cur (out ++ d ∷ []) in
    let opened = read_column true (d ∷ cur) out in
    let doubled = read_column true cur (out ++ d ∷ []) in
    let closed = read_column false (d ∷ cur) out in
    let next = read_column inquote (d ∷ cur) (out ++ ch ∷ []) in
    if not inquote && ends_column ch
    then ok (out, ch ∷ d ∷ cur)
    else if ch == 0
    then malformed
    else if ch == b'\\'
    then (if d == 0 then malformed else escaped)
    else if ch == quote
    then (if not inquote then opened else if d == quote then doubled else closed)
    else next

module _ {V : Type 0} (tm : CopyTypeMap V) where
  -- Completely empty input means nil.
  unfoldable pub column_value : Bytes → ℕ → Outcome (Option V × Bytes)
  unfolding read_column
  column_value cur fieldno =
      if ends_column (peek cur)
      then ok (none, cur)
      else and_then (read_column false cur [])
          (λ s. and_then (tm.typecast_copy_get s.0 fieldno) (λ v. ok (some v, s.1)))

  -- Behind a column stands a comma, or the closing parenthesis.
  unfoldable pub push_column :
      Option V × Bytes
      → (Bytes → Outcome (List (Option V) × Bytes))
      → Outcome (List (Option V) × Bytes)
  push_column (v, cur) rest =
      if peek cur == b','
      then and_then (rest (behind cur)) (λ r. ok (v ∷ r.0, r.1))
      else if peek cur == b')'
      then ok (v ∷ [], behind cur)
      else malformed

  -- The loop over fields, on fuel.
  unfoldable pub read_columns : ℕ → Bytes → ℕ → Outcome (List (Option V) × Bytes)
  read_columns zero cur fieldno = fault
  read_columns (suc fuel) cur fieldno =
      and_then (column_value cur fieldno)
        (λ column. push_column column (λ next. read_columns fuel next (fieldno + 1)))

  -- Only whitespace may follow.
  unfoldable pub end_record : List (Option V) × Bytes → Outcome (List (Option V))
  unfolding skip_spaces
  end_record (row, cur) = if peek (skip_spaces cur) == 0 then ok row else malformed

  unfoldable pub dec_record : Bytes → Outcome (List (Option V))
  unfolding skip_spaces read_columns column_value push_column end_record
  dec_record input_line = and_then tm.fit_to_copy_get (λ _.
      let cur = skip_spaces input_line in
      if peek cur == b'('
      then and_then (read_columns (suc (length cur)) (behind cur) 0) end_record
      else malformed)
