-- ===== src/Literal.antt =====
-- Literals in SQL: `pg_text_enc_quoted_literal` of ext/pg_text_encoder.c.
pub mod Encode
mod Tests
use ruby_pg.Common.{Bool, Bytes, Outcome, ok, and_then}
use ruby_pg.Buffer.{Allocator, text, str_new}
use ruby_pg.Coder.{Encoded}
use ruby_pg.Quote.{quote_literal_buffer}
use ruby_pg.Quote.Element.{quote_string}

-- The composite coder's `needs_quotation`, and its element coder as a parameter.
pub record LiteralCoder (V : Type 0) : Type 0 where
  pub needs_quotation : Bool
  pub encode_elem : V → Outcome Encoded

unfoldable pub enc_quoted_literal : {V : Type 0} → Allocator → LiteralCoder V → V → Outcome Bytes
enc_quoted_literal a this value =
    and_then
      (quote_string a quote_literal_buffer this.needs_quotation (this.encode_elem value)
        (str_new a))
      (λ b. ok (text b))
