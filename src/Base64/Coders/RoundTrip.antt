-- ===== src/Base64/Coders/RoundTrip.antt =====
-- Wrapping a coder in base64 keeps what the composite coders ask of it.
use ruby_pg.Common.{
  ◌^◌, ◌<◌, ltb, Bool-cases, fault, and_then, read, sym, ℕ, ◌≤◌, Bytes, length, All, fill,
  read-fill, Outcome, ok, and_then-eq-ok, ◌≡◌, refl, ap, ◌∙◌, arith, inl, inr,
}
use ruby_pg.Coder.{Encoded, direct, buffered, bytes_of, FitsSize, length_int, length_int_id}
use ruby_pg.Base64.{encoded_size, int_size}
use ruby_pg.Base64.Encode.{base64_encode_lem}
use ruby_pg.Base64.Groups.{base64, length-base64}
use ruby_pg.Base64.Decode.{IsByte, base64_decode-base64}
use ruby_pg.Base64.Coders.{
  fresh, encode_apart, encode_in_place, to_base64, enc_to_base64, dec_from_base64,
}

encode_apart-base64 :
    (cs : Bytes)
    → encoded_size (length cs) < 2 ^ 31
    → encode_apart (encoded_size (length cs)) cs ≡ ok (base64 cs)
unfolding encode_apart
encode_apart-base64 cs small =
    let size = encoded_size (length cs) in
    let (m', run, chars, kept) =
      base64_encode_lem (fill fresh size cs) 0 size (length cs) (inr (omega arith)) small in
    ap (λ r. and_then r (λ m. ok (read m 0 size))) run
    ∙ ap ok (chars ∙ ap base64 (read-fill cs fresh size))

encode_in_place-base64 :
    (cs : Bytes) → encoded_size (length cs) < 2 ^ 31 → encode_in_place cs ≡ ok (base64 cs)
unfolding encode_in_place
encode_in_place-base64 cs small =
    let (m', run, chars, kept) =
      base64_encode_lem (fill fresh 0 cs) 0 0 (length cs) (inl (omega arith)) small in
    ap (λ r. and_then r (λ m. ok (read m 0 (encoded_size (length cs))))) run
    ∙ ap ok (chars ∙ ap base64 (read-fill cs fresh 0))

encoded_size_mono : (m n : ℕ) → m ≤ n → encoded_size m ≤ encoded_size n
unfolding encoded_size
encoded_size_mono m n h = omega arith

int_size_id : (n : ℕ) {s : ℕ} → int_size n ≡ ok s → (s ≡ encoded_size n) × (encoded_size n < 2 ^ 31)
unfolding int_size
int_size_id n h = elim (Bool-cases (ltb (encoded_size n) (2 ^ 31))) [
  | inl y ↦ let z : ok (encoded_size n) ≡ ok _ = rw y at h in (let z' = z in cc, ground arith)
  | inr out ↦ let z : fault ≡ ok _ = rw out at h in cc
]

to_base64_lem :
    (e : Encoded) {e' : Encoded}
    → FitsSize e
    → to_base64 e ≡ ok e'
    → FitsSize e' × (bytes_of e' ≡ base64 (bytes_of e))
unfolding to_base64
to_base64_lem (direct cs) {e'} f h =
    let (size, sized, made) = and_then-eq-ok (int_size (length cs)) _ h in
    let (is, small) = int_size_id (length cs) sized in
    let (t, run, done) = and_then-eq-ok (encode_apart size cs) (λ t. ok (direct t)) made in
    let same : ok (base64 cs) ≡ ok t =
      sym (encode_apart-base64 cs small) ∙ ap (λ n. encode_apart n cs) (sym is) ∙ run in
    let e_is : direct t ≡ e' = cc in rw (← e_is) (tt, let z : t ≡ base64 cs = cc in z)
to_base64_lem (buffered n cs) {e'} f h =
    let (size, sized, made) = and_then-eq-ok (int_size n) _ h in
    let (is, small) = int_size_id n sized in
    let (t, run, done) = and_then-eq-ok (encode_in_place cs) (λ t. ok (buffered size t)) made in
    let same : ok (base64 cs) ≡ ok t =
      sym (encode_in_place-base64 cs (omega (arith, encoded_size_mono (length cs) n f))) ∙ run in
    let text : t ≡ base64 cs = cc in
    let e_is : buffered size t ≡ e' = cc in
    rw (← e_is)
      (omega (arith, is, ap length text, length-base64 cs, encoded_size_mono (length cs) n f), text)

-- If the element coder keeps to its announced size and writes bytes, so does the base64 coder, and
-- decoding its output gives what the element decoder makes of the element's bytes.
pub dec_from_base64-enc_to_base64 :
    {V : Type 0} (dec_func : Bytes → Outcome V) (e : Encoded) {e' : Encoded}
    → FitsSize e
    → All IsByte (bytes_of e)
    → enc_to_base64 (ok e) ≡ ok e'
    → FitsSize e' × (dec_from_base64 dec_func (bytes_of e') ≡ dec_func (bytes_of e))
unfolding enc_to_base64 dec_from_base64
dec_from_base64-enc_to_base64 dec_func e {e'} f bytes made =
    let (x, same, done) = and_then-eq-ok (length_int e) to_base64 made in
    let x_is = length_int_id e same in
    let done' : to_base64 e ≡ ok e' = ap to_base64 x_is ∙ done in
    let (fits, text) = to_base64_lem e f done' in
    (fits, rw (text, base64_decode-base64 (bytes_of e) bytes) refl)
