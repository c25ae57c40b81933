-- ===== src/Copy/Decode/Passes.antt =====
-- The scan over an escaped field, and over a null marker.
use ruby_pg.Common.{
  ℕ, suc, ◌+◌, ◌≤◌, Bool, true, false, not, ◌&&◌, [], ◌∷◌, ◌++◌, Bytes, length, ◌==◌, ◌≡◌, ◌≢◌,
  refl, sym, ◌∙◌, ap, arith, Bool-cases, inl, inr, append_assoc, append-nil,
}
use ruby_pg.Escape.{escape_byte}
use ruby_pg.Escape.Spread.{length-escape}
use ruby_pg.Copy.Text.{needs_escape, backslash}
use ruby_pg.Copy.Text.Encode.{escaped}
use ruby_pg.Copy.Decode.{is_octal, read_escape, scan_field, stop}

-- No digit from 0 to 7 and none of x, b, f, n, r, t, v: a byte that stands for itself behind a
-- backslash.
unfoldable pub is_literal : ℕ → Bool
is_literal c =
    not (is_octal c)
    && not (c == b'x')
    && not (c == b'b')
    && not (c == b'f')
    && not (c == b'n')
    && not (c == b'r')
    && not (c == b't')
    && not (c == b'v')

-- A delimiter that can be escaped: it is literal, and neither a backslash nor a line feed.
abbrev pub IsDelimiter : ℕ → Type 0
IsDelimiter d = (is_literal d ≡ true) × (d ≢ b'\\') × (d ≢ b'\n')

-- A null marker that the scan passes over whole: backslashes stand before literal bytes, and there
-- is no bare delimiter or line feed.
pub data IsMarker (d : ℕ) : Bytes → Type 0 where
  nil : IsMarker d []
  plain : {c : ℕ} {cs : Bytes} → c ≢ d → c ≢ b'\n' → c ≢ b'\\' → IsMarker d cs → IsMarker d (c ∷ cs)
  quoted : {c : ℕ} {cs : Bytes} → is_literal c ≡ true → IsMarker d cs → IsMarker d (b'\\' ∷ c ∷ cs)

read_escape-literal : (c : ℕ) (cur : Bytes) → is_literal c ≡ true → read_escape c cur ≡ (c, cur)
unfolding read_escape is_literal
read_escape-literal c cur h = ground arith

module _ (d : ℕ) (good : IsDelimiter d) where
  scan_plain :
      (f c : ℕ) (cur out : Bytes)
      → c ≢ d
      → c ≢ b'\n'
      → c ≢ b'\\'
      → scan_field (suc f) d (c ∷ cur) out ≡ scan_field f d cur (out ++ c ∷ [])
  unfolding scan_field
  scan_plain f c [] out h1 h2 h3 = ground arith
  scan_plain f c (e ∷ cur) out h1 h2 h3 = ground arith

  scan_quoted :
      (f c : ℕ) (cur out : Bytes)
      → is_literal c ≡ true
      → scan_field (suc f) d (b'\\' ∷ c ∷ cur) out ≡ scan_field f d cur (out ++ c ∷ [])
  unfolding scan_field
  scan_quoted f c cur out h = ground (arith, read_escape-literal c cur h, good.1)

  pub scan_fuel :
      {f g : ℕ} (cur : Bytes) {out out' : Bytes}
      → f ≡ g
      → out ≡ out'
      → scan_field f d cur out ≡ scan_field g d cur out'
  scan_fuel cur e e' = cc

  -- One round of the loop takes back one byte.
  scan_escape_byte :
      (c f : ℕ) (cur out : Bytes)
      → scan_field (suc f) d (escape_byte (needs_escape d) backslash c ++ cur) out
        ≡ scan_field f d cur (out ++ c ∷ [])
  scan_escape_byte c f cur out = elim (Bool-cases (needs_escape d c)) [
    | inl s ↦ rw s (scan_quoted f c cur out (special_literal s))
    | inr s ↦ let (h1, h2, h3) = plain_is s in rw s (scan_plain f c cur out h1 h2 h3)
  ]
    where
      special_literal : needs_escape d c ≡ true → is_literal c ≡ true
      special_literal h = unfold needs_escape is_literal is_octal in ground (arith, good.0)

      plain_is : needs_escape d c ≡ false → (c ≢ d) × (c ≢ b'\n') × (c ≢ b'\\')
      plain_is h = unfold needs_escape in ground arith

  scan_escaped :
      (cs : Bytes) (f : ℕ) (rest out : Bytes)
      → scan_field (length cs + f) d (escaped d cs ++ rest) out ≡ scan_field f d rest (out ++ cs)
  scan_escaped [] f rest out = scan_fuel rest (omega arith) (sym (append-nil out))
  scan_escaped (c ∷ cs) f rest out =
      scan_fuel _ (omega arith) refl
      ∙ ap (λ t. scan_field (suc (length cs + f)) d t out)
          (append_assoc (escape_byte (needs_escape d) backslash c) (escaped d cs) rest)
      ∙ scan_escape_byte c (length cs + f) (escaped d cs ++ rest) out
      ∙ scan_escaped cs f rest (out ++ c ∷ [])
      ∙ scan_fuel rest refl (append_assoc out (c ∷ []) cs)

  -- The scan passes over `w` and stands at what follows it.
  pub record PassesOver (w : Bytes) (out' : Bytes) : Type 0 where
    pub rounds : ℕ
    pub few : rounds ≤ length w
    pub passes :
        (f : ℕ) (rest : Bytes) → scan_field (rounds + f) d (w ++ rest) [] ≡ scan_field f d rest out'

  pub PassesOver-escaped : (cs : Bytes) → PassesOver (escaped d cs) cs
  PassesOver-escaped cs = record {
    rounds = length cs;
    few = omega (arith, length-escape (needs_escape d) backslash cs);
    passes = λ f rest. scan_escaped cs f rest [];
  }

  pub scan_marker :
      {w : Bytes}
      → IsMarker d w
      → (out : Bytes)
      → (out' : Bytes) × (n : ℕ) × (n ≤ length w)
        × ((f : ℕ) (rest : Bytes) → scan_field (n + f) d (w ++ rest) out ≡ scan_field f d rest out')
  scan_marker nil out = (out, 0, omega arith, λ f rest. scan_fuel rest (omega arith) refl)
  scan_marker (plain {c} h1 h2 h3 m) out =
      let (out', n, le, eq) = scan_marker m (out ++ c ∷ []) in
      (
        out',
        suc n,
        omega arith,
        λ f rest. scan_fuel _ (omega arith) refl ∙ scan_plain (n + f) c _ out h1 h2 h3 ∙ eq f rest,
      )
  scan_marker (quoted {c} h m) out =
      let (out', n, le, eq) = scan_marker m (out ++ c ∷ []) in
      (
        out',
        suc n,
        omega arith,
        λ f rest. scan_fuel _ (omega arith) refl ∙ scan_quoted (n + f) c _ out h ∙ eq f rest,
      )

  pub PassesOver-marker : {w : Bytes} → IsMarker d w → (out : Bytes) × PassesOver w out
  PassesOver-marker m =
      let (out, n, le, eq) = scan_marker m [] in (out, record { rounds = n; few = le; passes = eq })

  pub scan_at_delim :
      (f : ℕ) (rest out : Bytes)
      → scan_field (suc f) d (d ∷ rest) out ≡ stop out true (d ∷ rest) rest
  unfolding scan_field
  scan_at_delim f [] out = ground arith
  scan_at_delim f (e ∷ rest) out = ground arith

  pub scan_at_end :
      (f : ℕ) (out : Bytes) → scan_field (suc f) d (b'\n' ∷ []) out ≡ stop out false (b'\n' ∷ []) []
  unfolding scan_field
  scan_at_end f out = ground (arith, good.2)
