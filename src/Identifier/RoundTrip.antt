-- ===== src/Identifier/RoundTrip.antt =====
-- Decoding what the identifier encoder wrote.
use ruby_pg.Common.{
  ℕ, List, [], ◌∷◌, ◌++◌, Bytes, ok, ◌≡◌, ◌≢◌, refl, sym, ap, ◌∙◌, arith, append_assoc, append-nil,
}
use ruby_pg.Buffer.{Allocator}
use ruby_pg.Coder.Refines.{join, join-eq-ok}
use ruby_pg.Escape.{escape_byte}
use ruby_pg.Identifier.{
  quote, dot, Name, array, string, enc_identifier, outside, after_quote, inside, read_names,
  dec_identifier,
}
use ruby_pg.Identifier.Encode.{
  is_quote, doubled, byte_text, bytes_text, name_text, names_text, enc_identifier-identifier_text,
}

read_escape_byte :
    (c : ℕ) (rest word : Bytes) (names : List Bytes)
    → read_names (escape_byte is_quote doubled c ++ rest) inside word names
      ≡ read_names rest inside (word ++ c ∷ []) names
unfolding read_names
read_escape_byte c rest word names = ground arith

byte_text-eq-ok : (c : ℕ) {x : Bytes} → byte_text c ≡ ok x → x ≡ escape_byte is_quote doubled c
byte_text-eq-ok c e = ground arith

-- Inside quotes the escaped bytes give the name back, whatever it holds.
read_escaped :
    (cs rest word : Bytes) (names : List Bytes) {t : Bytes}
    → bytes_text cs ≡ ok t
    → read_names (t ++ rest) inside word names ≡ read_names rest inside (word ++ cs) names
read_escaped [] rest word names {t} e =
    let empty : [] ≡ t = cc in
    rw (← empty) (ap (λ w. read_names rest inside w names) (sym (append-nil word)))
read_escaped (c ∷ cs) rest word names {t} e =
    let (x, y, ex, ey, t_is) = join-eq-ok (byte_text c) (bytes_text cs) e in
    ap (λ z. read_names z inside word names)
      (ap (λ z. z ++ rest) (t_is ∙ ap (λ z. z ++ y) (byte_text-eq-ok c ex))
        ∙ append_assoc (escape_byte is_quote doubled c) y rest)
    ∙ read_escape_byte c (y ++ rest) word names
    ∙ read_escaped cs rest (word ++ c ∷ []) names ey
    ∙ ap (λ w. read_names rest inside w names) (append_assoc word (c ∷ []) cs)

read_open :
    (rest : Bytes) (names : List Bytes)
    → read_names (quote ∷ rest) outside [] names ≡ read_names rest inside [] names
unfolding read_names
read_open rest names = refl

read_close :
    (rest word : Bytes) (names : List Bytes)
    → read_names (quote ∷ rest) inside word names ≡ read_names rest after_quote word names
unfolding read_names
read_close rest word names = refl

read_end :
    (word : Bytes) (names : List Bytes) → read_names [] after_quote word names ≡ names ++ word ∷ []
unfolding read_names
read_end word names = refl

read_name :
    (name rest : Bytes) (names : List Bytes) {t : Bytes}
    → name_text name ≡ ok t
    → read_names (t ++ rest) outside [] names ≡ read_names rest after_quote name names
read_name name rest names {t} e =
    let (q, y, eq, ey, t_is) =
      join-eq-ok (ok (quote ∷ [])) (join (bytes_text name) (ok (quote ∷ []))) e in
    let (x, q', ex, eq', y_is) = join-eq-ok (bytes_text name) (ok (quote ∷ [])) ey in
    let whole : t ≡ (quote ∷ []) ++ (x ++ quote ∷ []) = cc in
    ap (λ z. read_names z outside [] names)
      (ap (λ z. z ++ rest) whole ∙ ap (λ z. quote ∷ z) (append_assoc x (quote ∷ []) rest))
    ∙ read_open (x ++ quote ∷ rest) names
    ∙ read_escaped name (quote ∷ rest) [] names ex
    ∙ read_close rest name names

read_dot :
    (rest word : Bytes) (names : List Bytes)
    → read_names (dot ∷ rest) after_quote word names
      ≡ read_names rest outside [] (names ++ word ∷ [])
unfolding read_names
read_dot rest word names = refl

read_array :
    (name : Bytes) (rest done : List Bytes) {t : Bytes}
    → names_text (name ∷ rest) ≡ ok t
    → read_names t outside [] done ≡ done ++ name ∷ rest
read_array name [] done {t} e =
    let (x, y, ex, ey, t_is) = join-eq-ok (name_text name) (ok []) e in
    let t_is_x : t ≡ x ++ [] = cc in
    ap (λ z. read_names z outside [] done) t_is_x ∙ read_name name [] done ex ∙ read_end name done
read_array name (next ∷ rest) done {t} e =
    let (x, y, ex, ey, t_is) = join-eq-ok (name_text name) _ e in
    let (d, z, ed, ez, y_is) = join-eq-ok (ok (dot ∷ [])) (names_text (next ∷ rest)) ey in
    let y_is' : y ≡ dot ∷ z = cc in
    ap (λ w. read_names w outside [] done) (t_is ∙ ap (λ w. x ++ w) y_is')
    ∙ read_name name (dot ∷ z) done ex
    ∙ read_dot z name done
    ∙ read_array next rest (done ++ name ∷ []) ez
    ∙ append_assoc done (name ∷ []) (next ∷ rest)

-- The names of a value: a String is one name.
abbrev pub names_of : Name → List Bytes
names_of (array names) = names
names_of (string value) = value ∷ []

-- What the encoder returns for a String, or for an Array with a name, is decoded to those names.
pub dec_identifier-enc_identifier :
    (a : Allocator) (v : Name) {t : Bytes}
    → names_of v ≢ []
    → enc_identifier a v ≡ ok t
    → dec_identifier t ≡ names_of v
unfolding dec_identifier
dec_identifier-enc_identifier a (array []) ne e = absurd (ne refl)
dec_identifier-enc_identifier a (array (name ∷ names)) {t} ne e =
    read_array name names [] (sym (enc_identifier-identifier_text a (array (name ∷ names))) ∙ e)
dec_identifier-enc_identifier a (string value) {t} ne e =
    let described = sym (enc_identifier-identifier_text a (string value)) ∙ e in
    let t_is : t ++ [] ≡ t = append-nil t in
    ap (λ z. read_names z outside [] []) (sym t_is)
    ∙ read_name value [] [] described
    ∙ read_end value []
