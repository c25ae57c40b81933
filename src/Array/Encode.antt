-- ===== src/Array/Encode.antt =====
-- The array encoder against a description of its output.
use ruby_pg.Common.{
  ℕ, ◌+◌, ◌*◌, ◌^◌, ◌<◌, Bool, true, false, ◌&&◌, some, [], ◌∷◌, Bytes, codes, ltb, if◌then◌else◌,
  Outcome, ok, and_then, ◌≡◌, read, refl, arith, Bool-cases, inl, inr,
}
use ruby_pg.Buffer.{Allocator, Buffer, str_new, put, put_all}
use ruby_pg.Buffer.Writes.{
  HasRoom, HasRoom-weaken, Writes-nothing, Writes-put, Writes-put_all, Writes-str_ensure_capa,
  HasRoom-str_new,
}
use ruby_pg.Coder.{Encoded, bytes_of, FitsSize}
use ruby_pg.Coder.Refines.{
  Refines, RefinesRoom-bind, RefinesRoom-Writes, join, Refines-Writes, Refines-bind, Refines-run,
}
use ruby_pg.Quote.Element.Writes.{announced, Refines-quote_string}
use ruby_pg.Quote.{quote_array_buffer}
use ruby_pg.Quote.Writes.{element, Writes-quote_separate, Writes-quote_in_place}
use ruby_pg.Array.{
  Entry, Entries, nil, value, array, stop, and, ArrayCoder, other_dimension, may_nest, is_empty,
  less_dimensions, write_value, write_nil, write_delimiter, write_braces, write_entries,
  write_entry, write_array, enc_array,
}

-- The element coder keeps to its sizes, and twice a size and two is an int.
abbrev pub IsBounded : {V : Type 0} → ArrayCoder V → Type 0
IsBounded {V} this =
    (entry : Entry V) (e : Encoded)
    → this.encode_elem entry ≡ ok e
    → FitsSize e × (announced e * 2 + 2 < 2 ^ 31)

module _ {V : Type 0} (this : ArrayCoder V) where
  abbrev pub element_text : Bytes → Bytes
  element_text cs = if this.needs_quotation then element this.delimiter cs else cs

  abbrev pub value_text : Entry V → ℕ → Outcome Bytes
  value_text entry dimension =
      if other_dimension this dimension
      then less_dimensions
      else and_then (this.encode_elem entry) (λ e. ok (element_text (bytes_of e)))

  abbrev pub nil_text : ℕ → Outcome Bytes
  nil_text dimension = if other_dimension this dimension then less_dimensions else ok (codes "NULL")

  abbrev pub delimiter_text : ℕ → Outcome Bytes
  delimiter_text i = ok (if ltb 0 i then this.delimiter ∷ [] else [])

  abbrev pub braces_text : Bool → ℕ → Outcome Bytes → Outcome Bytes
  braces_text empty dimension inner = join (ok (b'{' ∷ [])) (
      if empty && other_dimension this dimension
      then less_dimensions
      else join inner (ok (b'}' ∷ [])))

  unfoldable mutual
    pub entries_text : Entries V → ℕ → ℕ → Outcome Bytes
    entries_text stop i dimension = ok []
    entries_text (and entry entries) i dimension =
        join (delimiter_text i)
          (join (entry_text entry dimension) (entries_text entries (i + 1) dimension))

    pub entry_text : Entry V → ℕ → Outcome Bytes
    entry_text nil dimension = nil_text dimension
    entry_text (value v) dimension = value_text (value v) dimension
    entry_text (array entries) dimension =
        let nested =
          braces_text (is_empty entries) (dimension + 1) (entries_text entries 0 (dimension + 1)) in
        if may_nest this dimension then nested else value_text (array entries) dimension

  -- An Array between braces, or what `to_s` gives.
  unfoldable pub array_text : Entry V → Outcome Bytes
  array_text (array entries) = braces_text (is_empty entries) 1 (entries_text entries 0 1)
  array_text nil = this.to_s nil
  array_text (value v) = this.to_s (value v)

-- What both branches of a conditional refine, the conditional refines.
Refines-if :
    (c : Bool) (s s' : Outcome Bytes) (b : Buffer) (r r' : Outcome Buffer)
    → Refines s b r
    → Refines s' b r'
    → Refines (if c then s else s') b (if c then r else r')
Refines-if true s s' b r r' h h' = h
Refines-if false s s' b r r' h h' = h'

module _ (a : Allocator) {V : Type 0} (this : ArrayCoder V) where
  module _ (bounded : IsBounded this) where
    Refines-write_value :
        (entry : Entry V) (dimension : ℕ) (b : Buffer)
        → HasRoom 0 b
        → Refines (value_text this entry dimension) b (write_value a this entry dimension b)
    unfolding write_value
    Refines-write_value entry dimension b h =
        Refines-if (other_dimension this dimension) _ _ b _ _ refl (
          Refines-quote_string a (quote_array_buffer this.delimiter) (element this.delimiter)
            (λ cs b' r. Writes-quote_separate this.delimiter cs r)
            (λ cs b' r. Writes-quote_in_place this.delimiter cs r) this.needs_quotation
            (this.encode_elem entry) b (bounded entry) h)

    Refines-write_nil :
        (dimension : ℕ) (b : Buffer)
        → HasRoom 0 b
        → Refines (nil_text this dimension) b (write_nil a this dimension b)
    unfolding write_nil
    Refines-write_nil dimension b h = Refines-if (other_dimension this dimension) _ _ b _ _ refl (
        Refines-Writes (
          Writes-str_ensure_capa a 4 0 (put_all (codes "NULL")) h
            (λ b' r. Writes-put_all (codes "NULL") r)))

    Refines-write_delimiter :
        (i : ℕ) (b : Buffer)
        → HasRoom 0 b
        → Refines (delimiter_text this i) b (write_delimiter a this i b)
    unfolding write_delimiter
    Refines-write_delimiter i b h = elim (Bool-cases (ltb 0 i)) [
      | inl s ↦ rw s (
          Refines-Writes (
            Writes-str_ensure_capa a 1 0 (put this.delimiter) h
              (λ b' r. Writes-put this.delimiter r)))
      | inr s ↦ rw s (some b, refl, Writes-nothing h)
    ]

    Refines-write_braces :
        (empty : Bool) (dimension : ℕ) (inner : Outcome Bytes) (loop : Buffer → Outcome Buffer)
        (b : Buffer)
        → HasRoom 0 b
        → ((b' : Buffer) → HasRoom 0 b' → Refines inner b' (loop b'))
        → Refines
            (braces_text this empty dimension inner)
            b
            (write_braces a this empty dimension loop b)
    unfolding write_braces
    Refines-write_braces empty dimension inner loop b h inside =
        RefinesRoom-bind 1 0 (ok (b'{' ∷ [])) _ b _ _
          (RefinesRoom-Writes
            (Writes-str_ensure_capa a 2 0 (put b'{') h (λ b' r. Writes-put b'{' r)))
          (λ b1 h1. Refines-if (empty && other_dimension this dimension) _ _ b1 _ _ refl (
            Refines-bind inner (ok (b'}' ∷ [])) b1 _ _
              (inside b1 (HasRoom-weaken 0 (omega arith) h1))
              (λ b2 h2.
                Refines-Writes
                  (Writes-str_ensure_capa a 1 0 (put b'}') h2 (λ b' r. Writes-put b'}' r)))))

    mutual
      unfolding write_entries entries_text

      Refines-write_entries :
          (entries : Entries V) (i dimension : ℕ) (b : Buffer)
          → HasRoom 0 b
          → Refines
              (entries_text this entries i dimension)
              b
              (write_entries a this entries i dimension b)
      Refines-write_entries stop i dimension b h = (some b, refl, Writes-nothing h)
      Refines-write_entries (and entry entries) i dimension b h =
          Refines-bind (delimiter_text this i) _ b _ _ (Refines-write_delimiter i b h) (λ b1 h1.
            Refines-bind (entry_text this entry dimension)
              (entries_text this entries (i + 1) dimension) b1 _ _
              (Refines-write_entry entry dimension b1 h1)
              (λ b2 h2. Refines-write_entries entries (i + 1) dimension b2 h2))

      Refines-write_entry :
          (entry : Entry V) (dimension : ℕ) (b : Buffer)
          → HasRoom 0 b
          → Refines (entry_text this entry dimension) b (write_entry a this entry dimension b)
      Refines-write_entry nil dimension b h = Refines-write_nil dimension b h
      Refines-write_entry (value v) dimension b h = Refines-write_value (value v) dimension b h
      Refines-write_entry (array entries) dimension b h =
          Refines-if (may_nest this dimension) _ _ b _ _
            (Refines-write_braces (is_empty entries) (dimension + 1)
              (entries_text this entries 0 (dimension + 1)) _ b h
              (λ b' r. Refines-write_entries entries 0 (dimension + 1) b' r))
            (Refines-write_value (array entries) dimension b h)

    -- For every allocator, if the element coder keeps to its announced sizes and twice a size and
    -- two is an int, the array encoder makes no store outside its buffer, computes no size that
    -- overflows, and returns exactly the described text. It raises where a value stands at another
    -- dimension than the one set, and where the element coder raises.
    pub enc_array-array_text : (v : Entry V) → enc_array a this v ≡ array_text this v
    unfolding enc_array array_text write_array
    enc_array-array_text nil = refl
    enc_array-array_text (value v) = refl
    enc_array-array_text (array entries) =
        Refines-run (braces_text this (is_empty entries) 1 (entries_text this entries 0 1))
          (str_new a) _ (unfold str_new read in refl)
          (Refines-write_braces (is_empty entries) 1 (entries_text this entries 0 1) _ (str_new a)
            (HasRoom-str_new a) (λ b r. Refines-write_entries entries 0 1 b r))
