-- ===== src/Copy/Decode.antt =====
-- COPY text format, decoding: `pg_text_dec_copy_row` of ext/pg_copy_coder.c. A pointer into the
-- line is the list of the bytes from there to `line_end_ptr`. `field_str` is the list of its bytes.
-- Both loops run on fuel, the length of the line and one round more.
pub mod Scan
pub mod Passes
pub mod RoundTrip
pub mod Default
use ruby_pg.Common.{
  ℕ, zero, suc, ◌+◌, ◌-◌, ◌*◌, ◌%◌, Bool, true, false, not, ◌&&◌, ◌||◌, Option, none, some, List,
  [], ◌∷◌, ◌++◌, Bytes, length, take, ltb, leb, ◌==◌, if◌then◌else◌, Outcome, ok, raises, fault,
  RubyError, and_then, strncmp_eq,
}
use ruby_pg.Coder.{CopyTypeMap}
use ruby_pg.Copy.{CopyCoder}

-- `ISOCTAL` and `OCTVALUE`
unfoldable pub is_octal : ℕ → Bool
is_octal c = leb b'0' c && leb c b'7'

abbrev pub octvalue : ℕ → ℕ
octvalue c = c - b'0'

-- `GetDecimalFromHex`; none stands for -1.
unfoldable pub get_decimal_from_hex : ℕ → Option ℕ
get_decimal_from_hex hex =
    if leb b'0' hex && leb hex b'9'
    then some (hex - b'0')
    else if leb b'a' hex && leb hex b'f'
    then some (hex - b'a' + 10)
    else if leb b'A' hex && leb hex b'F'
    then some (hex - b'A' + 10)
    else none

-- The third digit of an octal escape, and the second: `c = val & 0377` at the end.
octal_third : ℕ → Bytes → ℕ × Bytes
octal_third val [] = (val % 256, [])
octal_third val (c ∷ cur) =
    if is_octal c then ((val * 8 + octvalue c) % 256, cur) else (val % 256, c ∷ cur)

octal_second : ℕ → Bytes → ℕ × Bytes
octal_second val [] = (val % 256, [])
octal_second val (c ∷ cur) =
    if is_octal c then octal_third (val * 8 + octvalue c) cur else (val % 256, c ∷ cur)

-- The second hex digit.
hex_second : ℕ → Bytes → ℕ × Bytes
hex_second val [] = (val % 256, [])
hex_second val (c ∷ cur) = elim (get_decimal_from_hex c) [
  | none ↦ (val % 256, c ∷ cur)
  | some val2 ↦ ((val * 16 + val2) % 256, cur)
]

-- After `\x`; with no hex digit the x is taken literally.
hex_first : Bytes → ℕ × Bytes
hex_first [] = (b'x', [])
hex_first (c ∷ cur) = elim (get_decimal_from_hex c) [
  | none ↦ (b'x', c ∷ cur)
  | some val ↦ hex_second val cur
]

-- The character that stands for `\c`, for the letters with a meaning.
control : ℕ → ℕ
control c =
    if c == b'b'
    then 8
    else if c == b'f'
    then 12
    else if c == b'n'
    then 10
    else if c == b'r'
    then 13
    else if c == b't'
    then 9
    else if c == b'v'
    then 11
    else c

-- The switch behind a backslash: the byte, and `cur_ptr` behind the escape.
unfoldable pub read_escape : ℕ → Bytes → ℕ × Bytes
unfolding is_octal octal_third octal_second hex_second hex_first control
read_escape c cur =
    if is_octal c
    then octal_second (octvalue c) cur
    else if c == b'x'
    then hex_first cur
    else (control c, cur)

pub record Scanned : Type 0 where
  pub field_str : Bytes
  pub found_delim : Bool
  pub end_ptr : Bytes
  pub cur_ptr : Bytes

abbrev pub stop : Bytes → Bool → Bytes → Bytes → Option Scanned
stop out found end cur =
    some (record { field_str = out; found_delim = found; end_ptr = end; cur_ptr = cur })

-- The inner loop: find the end of the field and de-escape on the way.
unfoldable pub scan_field : ℕ → ℕ → Bytes → Bytes → Option Scanned
scan_field zero delimc cur out = none
scan_field (suc fuel) delimc [] out = stop out false [] []
scan_field (suc fuel) delimc (c ∷ []) out =
    let next = scan_field fuel delimc [] (out ++ c ∷ []) in
    if c == delimc
    then stop out true (c ∷ []) []
    else if c == b'\n'
    then stop out false (c ∷ []) []
    else if c == b'\\'
    then stop out false (c ∷ []) []
    else next
scan_field (suc fuel) delimc (c ∷ e ∷ cur) out =
    let escape = read_escape e cur in
    let unescaped = scan_field fuel delimc escape.1 (out ++ escape.0 ∷ []) in
    let next = scan_field fuel delimc (e ∷ cur) (out ++ c ∷ []) in
    if c == delimc
    then stop out true (c ∷ e ∷ cur) (e ∷ cur)
    else if c == b'\n'
    then stop out false (c ∷ e ∷ cur) (e ∷ cur)
    else if c == b'\\'
    then unescaped
    else next

-- `!found_delim && cur_ptr < line_end_ptr`
abbrev pub trailing : Scanned → Bool
trailing s = not s.found_delim && ltb 0 (length s.cur_ptr)

module _ (this : CopyCoder) {V : Type 0} (tm : CopyTypeMap V) where
  -- The raw input is the null marker, or the de-escaped bytes go through the type map.
  unfoldable pub field_value : Bytes → Bytes → ℕ → Outcome (Option V)
  field_value raw field_str fieldno =
      if length raw == length this.null_string && strncmp_eq (length raw) raw this.null_string
      then ok none
      else and_then (tm.typecast_copy_get field_str fieldno) (λ v. ok (some v))

  -- `input_len = end_ptr - start_ptr`
  abbrev pub raw_field : Bytes → Scanned → Bytes
  raw_field start_ptr s = take (length start_ptr - length s.end_ptr) start_ptr

  -- One field with its result pushed; `rest` is the call for the fields behind it.
  unfoldable pub push_field :
      Bytes → ℕ → Scanned → (Bytes → Outcome (List (Option V))) → Outcome (List (Option V))
  push_field start_ptr fieldno s rest =
      if trailing s
      then raises RubyError.arg_error
      else and_then (field_value (raw_field start_ptr s) s.field_str fieldno) (λ v.
        if s.found_delim then and_then (rest s.cur_ptr) (λ vs. ok (v ∷ vs)) else ok (v ∷ []))

  -- The outer loop over fields.
  unfoldable pub read_fields : ℕ → Bytes → ℕ → Outcome (List (Option V))
  read_fields zero cur fieldno = fault
  read_fields (suc fuel) cur fieldno = elim (scan_field (suc (length cur)) this.delimiter cur []) [
    | none ↦ fault
    | some s ↦ push_field cur fieldno s (λ next. read_fields fuel next (fieldno + 1))
  ]

  unfoldable pub dec_copy_row : Bytes → Outcome (List (Option V))
  unfolding read_fields push_field field_value
  dec_copy_row input_line =
      and_then tm.fit_to_copy_get (λ _. read_fields (suc (length input_line)) input_line 0)
