-- ===== src/Literal/Encode.antt =====
-- What a quoted literal is, and that it can be read back.
use ruby_pg.Common.{
  Bool, false, not, ◌&&◌, ℕ, ◌+◌, ◌*◌, ◌^◌, ◌<◌, false, Option, none, some, [], ◌∷◌, ◌++◌, Bytes,
  ◌==◌, if◌then◌else◌, Outcome, ok, and_then, ◌≡◌, refl, read,
}
use ruby_pg.Buffer.{Allocator, str_new}
use ruby_pg.Buffer.Writes.{HasRoom-str_new}
use ruby_pg.Coder.{Encoded, bytes_of, FitsSize}
use ruby_pg.Coder.Refines.{Refines-run}
use ruby_pg.Quote.{quote_literal_buffer, apostrophe}
use ruby_pg.Quote.Writes.{literal, Writes-literal_separate, Writes-literal_in_place}
use ruby_pg.Quote.Element.Writes.{announced, Refines-quote_string}
use ruby_pg.Literal.{LiteralCoder, enc_quoted_literal}

-- The element coder keeps to its sizes, and twice a size and two is an int.
abbrev pub IsBounded : {V : Type 0} → LiteralCoder V → Type 0
IsBounded {V} this =
    (value : V) (e : Encoded)
    → this.encode_elem value ≡ ok e
    → FitsSize e × (announced e * 2 + 2 < 2 ^ 31)

abbrev pub literal_text : {V : Type 0} → LiteralCoder V → V → Outcome Bytes
literal_text this value =
    and_then (this.encode_elem value)
      (λ e. ok (if this.needs_quotation then literal (bytes_of e) else bytes_of e))

-- For every allocator, if the element coder keeps to its announced sizes and twice a size and two
-- is an int, the literal encoder makes no store outside its buffer and returns the element's text,
-- between apostrophes with its apostrophes doubled if it is to be quoted. It raises where the
-- element coder raises.
pub enc_quoted_literal-literal_text :
    (a : Allocator) {V : Type 0} (this : LiteralCoder V)
    → IsBounded this
    → (value : V) → enc_quoted_literal a this value ≡ literal_text this value
unfolding enc_quoted_literal
enc_quoted_literal-literal_text a this bounded value =
    Refines-run (literal_text this value) (str_new a) _ (unfold str_new read in refl) (
      Refines-quote_string a quote_literal_buffer literal (λ cs b r. Writes-literal_separate cs r)
        (λ cs b r. Writes-literal_in_place cs r) this.needs_quotation (this.encode_elem value)
        (str_new a) (bounded value) (HasRoom-str_new a))

-- How the server reads a literal behind its first apostrophe: up to the first one that is not
-- doubled. Where standard_conforming_strings is off, a backslash keeps the byte behind it from
-- ending the literal. It gives the bytes that the literal is written with, apostrophes single, and
-- what follows.
unfoldable pub scan_literal : Bool → Bytes → Bytes → Option (Bytes × Bytes)
scan_literal conforming [] out = none
scan_literal conforming (c ∷ []) out = if c == apostrophe then some (out, []) else none
scan_literal conforming (c ∷ d ∷ sql) out =
    let doubled = scan_literal conforming sql (out ++ c ∷ []) in
    let escaped = scan_literal conforming sql (out ++ c ∷ d ∷ []) in
    let next = scan_literal conforming (d ∷ sql) (out ++ c ∷ []) in
    if c == apostrophe
    then (if d == apostrophe then doubled else some (out, d ∷ sql))
    else if not conforming && c == b'\\'
    then escaped
    else next

-- The SQL behind the literal does not go on with an apostrophe.
abbrev pub IsApart : Bytes → Type 0
IsApart [] = Unit
IsApart (c ∷ sql) = (c == apostrophe) ≡ false

-- The byte is no escape character of the server.
abbrev pub IsPlain : Bool → ℕ → Type 0
IsPlain conforming c = (not conforming && c == b'\\') ≡ false
