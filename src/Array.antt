-- ===== src/Array.antt =====
-- Arrays in text format: `write_array` and `pg_text_enc_array` of
-- ext/pg_text_encoder.c, with `t_pg_composite_coder` of ext/pg.h.
pub mod Encode
pub mod Decode
mod Tests
use ruby_pg.Common.{
  ℕ, ◌+◌, ◌*◌, ◌^◌, ◌<◌, Bool, true, false, not, ◌&&◌, Option, none, some, List, [], ◌∷◌, Bytes,
  codes, length, ltb, ◌==◌, if◌then◌else◌, Outcome, ok, raises, fault, RubyError, and_then, checked,
  ◌>>=◌,
}
use ruby_pg.Buffer.{Allocator, Buffer, text, str_new, str_ensure_capa, put, put_all, place}
use ruby_pg.Coder.{Encoded, direct, buffered, length_int}
use ruby_pg.Quote.{quote_array_buffer}
use ruby_pg.Quote.Element.{quote_string}

-- A Ruby value: nil, an Array, or another object.
mutual
  pub data Entry (V : Type 0) : Type 0 where
    nil : Entry V
    value : V → Entry V
    array : Entries V → Entry V

  pub data Entries (V : Type 0) : Type 0 where
    stop : Entries V
    and : Entry V → Entries V → Entries V

-- `t_pg_composite_coder`; none stands for dimensions below 0. The element coder and the conversion
-- by `to_s` of a value that is no Array are parameters.
pub record ArrayCoder (V : Type 0) : Type 0 where
  pub delimiter : ℕ
  pub needs_quotation : Bool
  pub dimensions : Option ℕ
  pub encode_elem : Entry V → Outcome Encoded
  pub to_s : Entry V → Outcome Bytes

abbrev pub is_empty : {V : Type 0} → Entries V → Bool
is_empty stop = true
is_empty (and entry entries) = false

abbrev pub less_dimensions : {A : Type 0} → Outcome A
less_dimensions = raises RubyError.arg_error

module _ {V : Type 0} (this : ArrayCoder V) where
  -- `this->dimensions >= 0 && dimension != this->dimensions`
  abbrev pub other_dimension : ℕ → Bool
  other_dimension dimension = elim this.dimensions [ none ↦ false | some d ↦ not (dimension == d) ]

  -- `this->dimensions < 0 || dimension < this->dimensions`
  abbrev pub may_nest : ℕ → Bool
  may_nest dimension = elim this.dimensions [ none ↦ true | some d ↦ ltb dimension d ]

module _ (a : Allocator) {V : Type 0} (this : ArrayCoder V) where
  -- A value through the element coder.
  unfoldable pub write_value : Entry V → ℕ → Buffer → Outcome Buffer
  write_value entry dimension b =
      if other_dimension this dimension
      then less_dimensions
      else quote_string a (quote_array_buffer this.delimiter) this.needs_quotation
          (this.encode_elem entry) b

  unfoldable pub write_nil : ℕ → Buffer → Outcome Buffer
  write_nil dimension b =
      if other_dimension this dimension
      then less_dimensions
      else checked (put_all (codes "NULL") (str_ensure_capa a 4 b))

  unfoldable pub write_delimiter : ℕ → Buffer → Outcome Buffer
  write_delimiter i b =
      if ltb 0 i then checked (put this.delimiter (str_ensure_capa a 1 b)) else ok b

  -- The braces of `write_array` around its loop.
  unfoldable pub write_braces : Bool → ℕ → (Buffer → Outcome Buffer) → Buffer → Outcome Buffer
  write_braces empty dimension loop b = and_then (checked (put b'{' (str_ensure_capa a 2 b))) (λ b1.
      if empty && other_dimension this dimension
      then less_dimensions
      else and_then (loop b1) (λ b2. checked (put b'}' (str_ensure_capa a 1 b2))))

  unfoldable mutual
    -- `for( i=0; i<RARRAY_LEN(value); i++)`
    pub write_entries : Entries V → ℕ → ℕ → Buffer → Outcome Buffer
    write_entries stop i dimension b = ok b
    write_entries (and entry entries) i dimension b = and_then (write_delimiter i b) (λ b1.
        and_then (write_entry entry dimension b1)
          (λ b2. write_entries entries (i + 1) dimension b2))

    pub write_entry : Entry V → ℕ → Buffer → Outcome Buffer
    write_entry nil dimension b = write_nil dimension b
    write_entry (value v) dimension b = write_value (value v) dimension b
    write_entry (array entries) dimension b =
        let nested =
          write_braces (is_empty entries) (dimension + 1) (write_entries entries 0 (dimension + 1))
            b in
        if may_nest this dimension then nested else write_value (array entries) dimension b

  unfoldable pub write_array : Entries V → ℕ → Buffer → Outcome Buffer
  write_array entries dimension b =
      write_braces (is_empty entries) dimension (write_entries entries 0 dimension) b

  unfoldable pub enc_array : Entry V → Outcome Bytes
  unfolding write_array
  enc_array (array entries) = and_then (write_array entries 1 (str_new a)) (λ b. ok (text b))
  enc_array nil = this.to_s nil
  enc_array (value v) = this.to_s (value v)
