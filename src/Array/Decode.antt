-- ===== src/Array/Decode.antt =====
-- Decoding arrays: `array_isspace`, `array_isdim`, `array_parser_error`, `read_array_without_dim`
-- and `pg_text_dec_array` of ext/pg_text_decoder.c. An index is the list of the bytes from there to
-- `array_string_length`, behind which stands a null byte; `beyond` is an index behind that one. The
-- buffer `word` is shared by the nested calls, as in the source.

pub mod Ends
use ruby_pg.Common.{
  ℕ, zero, suc, ◌+◌, Bool, true, false, not, ◌&&◌, ◌||◌, Option, none, some, List, [], ◌∷◌, Bytes,
  codes, length, Mem, write, read, ltb, leb, ◌==◌, if◌then◌else◌, Outcome, ok, raises, fault,
  RubyError, and_then, strncmp_eq,
}
use ruby_pg.Array.{Entry, Entries, nil, value, array, stop, and}

-- `t_pg_composite_coder` for decoding, with the element decoder as a parameter. `to_raise` tells
-- whether `flags` asks for exceptions on format errors.
pub record ArrayDecoder (V : Type 0) : Type 0 where
  pub delimiter : ℕ
  pub to_raise : Bool
  pub decode_elem : Bytes → Outcome V

unfoldable pub array_isspace : ℕ → Bool
array_isspace ch = ch == b' ' || ch == b'\t' || ch == b'\n' || ch == b'\r' || ch == 11 || ch == 12

unfoldable pub array_isdim : ℕ → Bool
array_isdim ch = (leb b'0' ch && leb ch b'9') || ch == b'-' || ch == b'+' || ch == b':'

pub data Cursor : Type 0 where
  at : Bytes → Cursor
  beyond : Cursor

-- `++index`
abbrev pub advance : Cursor → Cursor
advance (at []) = beyond
advance (at (c ∷ cur)) = at cur
advance beyond = beyond

-- `c_pg_array_string[index]`
abbrev pub char_at : Cursor → Outcome ℕ
char_at (at []) = ok 0
char_at (at (c ∷ cur)) = ok c
char_at beyond = fault

-- `openQuote`: 0, 1 and -1.
pub data OpenQuote : Type 0 where
  never inside was_quoted : OpenQuote

abbrev pub is_inside : OpenQuote → Bool
is_inside inside = true
is_inside _ = false

abbrev pub is_never : OpenQuote → Bool
is_never never = true
is_never _ = false

-- What `read_array_without_dim` leaves: its Array, the index and the buffer.
pub record Reading (V : Type 0) : Type 0 where
  pub items : Entries V
  pub cursor : Cursor
  pub word : Mem

abbrev pub reading : {V : Type 0} → Entries V → Cursor → Mem → Outcome (Reading V)
reading items cursor word = ok (record { items = items; cursor = cursor; word = word })

-- An entry in front of the others.
abbrev pub before : {V : Type 0} → Entry V → Outcome (Reading V) → Outcome (Reading V)
before entry rest = and_then rest (λ r. reading (and entry r.items) r.cursor r.word)

-- The special case of the empty Array, in front of the loop.
abbrev pub start_array : {V : Type 0} → Cursor → Mem → Outcome (Reading V) → Outcome (Reading V)
start_array (at []) word loop = loop
start_array (at (c ∷ cur)) word loop = if c == b'}' then reading stop (at (c ∷ cur)) word else loop
start_array beyond word loop = loop

-- `rb_ary_push`, or nothing.
abbrev pub pushed : {V : Type 0} → Option (Entry V) → Entries V → Entries V
pushed none rest = rest
pushed (some entry) rest = and entry rest

module _ {V : Type 0} (this : ArrayDecoder V) where
  -- `array_parser_error`, and what is done after it.
  abbrev pub parser_error : {A : Type 0} → Outcome A → Outcome A
  parser_error after = if this.to_raise then raises RubyError.type_error else after

  -- A store into `word`, which has a byte for each byte of the input and one for a null byte.
  unfoldable pub store_word : ℕ → Mem → ℕ → ℕ → Outcome Mem
  store_word size word word_index c =
      if leb word_index size then ok (write word word_index c) else fault

  -- The word at a delimiter: nothing behind a nested Array, nil, or a value.
  unfoldable pub end_word : ℕ → OpenQuote → Bool → Mem → ℕ → Outcome (Option (Entry V) × Mem)
  end_word size open_quote escape_next word word_index =
      if escape_next
      then ok (none, word)
      else if is_never open_quote
          && (word_index == 4 && strncmp_eq 4 (read word 0 4) (codes "NULL"))
      then ok (some nil, word)
      else and_then (store_word size word word_index 0) (λ word'.
        and_then (this.decode_elem (read word' 0 word_index)) (λ v. ok (some (value v), word')))

  -- `for(;(*index) < array_string_length; ++(*index))`, on fuel.
  unfoldable pub read_items : ℕ → ℕ → OpenQuote → Bool → Mem → ℕ → Cursor → Outcome (Reading V)
  read_items zero size open_quote escape_next word word_index cursor = fault
  read_items (suc fuel) size open_quote escape_next word word_index beyond =
      parser_error (reading stop beyond word)
  read_items (suc fuel) size open_quote escape_next word word_index (at []) =
      parser_error (reading stop (at []) word)
  read_items (suc fuel) size open_quote escape_next word word_index (at (c ∷ cur)) =
      let ended = and_then (end_word size open_quote escape_next word word_index) (λ p.
        if c == b'}'
        then reading (pushed p.0 stop) (at (c ∷ cur)) p.1
        else and_then (read_items fuel size never false p.1 0 (at cur))
            (λ r. reading (pushed p.0 r.items) r.cursor r.word)) in
      let opened = read_items fuel size inside escape_next word word_index (at cur) in
      let nested =
        and_then (start_array (at cur) word (read_items fuel size never false word 0 (at cur)))
          (λ sub.
            before (array sub.items)
              (read_items fuel size open_quote true sub.word word_index (advance sub.cursor))) in
      let stored = λ (escape_next' : Bool).
        and_then (store_word size word word_index c)
          (λ word'. read_items fuel size open_quote escape_next' word' (word_index + 1) (at cur)) in
      let escaping = read_items fuel size open_quote true word word_index (at cur) in
      let closed = read_items fuel size was_quoted escape_next word word_index (at cur) in
      if not (is_inside open_quote)
      then (if c == this.delimiter || c == b'}'
          then ended
          else if c == b'"'
          then opened
          else if c == b'{'
          then nested
          else if c == 0
          then parser_error (reading stop (at (c ∷ cur)) word)
          else stored escape_next)
      else if escape_next
      then stored false
      else if c == b'\\'
      then escaping
      else if c == b'"'
      then closed
      else stored false

  unfoldable pub read_array_without_dim : ℕ → ℕ → Mem → Cursor → Outcome (Reading V)
  unfolding read_items
  read_array_without_dim fuel size word cursor =
      start_array cursor word (read_items fuel size never false word 0 cursor)

-- `while (p(c_pg_array_string[index])) index++`, with the byte in front of the index.
abbrev pub skip : (ℕ → Bool) → ℕ → Bytes → ℕ × Bytes
skip p prev [] = (prev, [])
skip p prev (c ∷ cur) = if p c then skip p c cur else (prev, c ∷ cur)

-- The byte at an index, and what stands behind it.
abbrev pub peek : Bytes → ℕ
peek [] = 0
peek (c ∷ cur) = c

abbrev pub behind : Bytes → Bytes
behind [] = []
behind (c ∷ cur) = cur

abbrev pub all : (ℕ → Bool) → Bytes → Bool
all p [] = true
all p (c ∷ cs) = p c && all p cs

module _ {V : Type 0} (this : ArrayDecoder V) where
  -- The loop over dimension items: the byte in front, the index and how many there were.
  unfoldable pub read_dims : ℕ → ℕ → Bytes → ℕ → Outcome (ℕ × Bytes × ℕ)
  unfolding array_isspace array_isdim
  read_dims zero prev cur ndim = fault
  read_dims (suc fuel) prev cur ndim =
      let s = skip array_isspace prev cur in
      let d = skip array_isdim b'[' (behind s.1) in
      let rest = read_dims fuel b']' (behind d.1) (ndim + 1) in
      if not (peek s.1 == b'[')
      then ok (s.0, s.1, ndim)
      else if not (peek d.1 == b']')
      then parser_error this (ok (d.0, d.1, ndim))
      else rest

  -- Behind dimensions stands `=`; without it the index goes back by one.
  unfoldable pub skip_assignment : ℕ × Bytes × ℕ → Outcome Cursor
  unfolding array_isspace
  skip_assignment (prev, cur, ndim) =
      if ndim == 0
      then ok (at cur)
      else if not (peek cur == b'=')
      then parser_error this (ok (at (skip array_isspace prev (prev ∷ cur)).1))
      else ok (at (skip array_isspace b'=' (behind cur)).1)

  -- Only whitespace may follow the closing brace.
  unfoldable pub check_trailing : Cursor → Entries V → Outcome (Entries V)
  unfolding array_isspace
  check_trailing (at cs) ret = if all array_isspace cs then ok ret else parser_error this (ok ret)
  check_trailing beyond ret = ok ret

  unfoldable pub end_array : Reading V → Outcome (Entries V)
  unfolding check_trailing
  end_array r = and_then (char_at r.cursor) (λ c.
      let trailing = check_trailing (advance r.cursor) r.items in
      if c == b'}' then trailing else parser_error this trailing)

  -- `read_array_without_dim` reads from behind the opening brace.
  unfoldable pub open_array : ℕ → Cursor → Outcome (Reading V)
  open_array size cursor = and_then (char_at cursor) (λ c.
      let body = read_array_without_dim this (suc size) size (λ _. 0) (advance cursor) in
      if c == b'{' then body else parser_error this body)

  unfoldable pub dec_array : Bytes → Outcome (Entries V)
  unfolding read_dims skip_assignment open_array end_array
  dec_array c_pg_array_string =
      and_then (read_dims (suc (length c_pg_array_string)) 0 c_pg_array_string 0) (λ dims.
        and_then (skip_assignment dims)
          (λ cursor. and_then (open_array (length c_pg_array_string) cursor) end_array))
