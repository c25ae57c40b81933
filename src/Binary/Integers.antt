-- ===== src/Binary/Integers.antt =====
-- Which integers come back from the binary integer coders.
use ruby_pg.Common.{
  ℕ, ◌^◌, ◌<◌, ltb, [], append-nil, Outcome, ok, raises, RubyError, and_then, ℤ, pos, negsuc,
  num2int, if_intro, subst, ◌↔◌, ◌≡◌, refl, ◌∙◌, ap, sym, arith,
}
use ruby_pg.Nbo.{
  write_nbo16, write_nbo32, write_nbo64, read_nbo16, read_nbo32, read_nbo64, read_nbo16-write_nbo16,
  read_nbo32-write_nbo32, read_nbo64-write_nbo64,
}
use ruby_pg.Coder.{Encoded, buffered, bytes_of}
use ruby_pg.Binary.{
  num2ll, low_bits, signed, loaded, bin_enc_int2, bin_enc_int4, bin_enc_int8, bin_dec_integer,
}

-- The integer fits in w bits, h being 2 ^ (w - 1).
abbrev pub InRange : ℕ → ℤ → Type 0
InRange h (pos n) = n < h
InRange h (negsuc n) = n < h

signed16 : (z : ℤ) → InRange (2 ^ 15) z → signed (2 ^ 15) (low_bits (2 ^ 16) z) ≡ z
signed16 (pos n) lt = ground arith
signed16 (negsuc n) lt = ground arith

low_bits16-lt : (z : ℤ) → low_bits (2 ^ 16) z < 2 ^ 16
low_bits16-lt (pos n) = omega arith
low_bits16-lt (negsuc n) = omega arith

InRange-signed16 : (l : ℕ) → l < 2 ^ 16 → InRange (2 ^ 15) (signed (2 ^ 15) l)
InRange-signed16 l lt =
    if_intro (InRange (2 ^ 15)) (ltb l (2 ^ 15)) (λ a. ground arith) (λ b. ground arith)

pub dec_written16 :
    (z : ℤ)
    → bin_dec_integer (write_nbo16 (low_bits (2 ^ 16) z))
      ≡ ok (signed (2 ^ 15) (low_bits (2 ^ 16) z))
unfolding bin_dec_integer write_nbo16
dec_written16 z = ap (loaded (2 ^ 15)) (
    ap read_nbo16 (sym (append-nil (write_nbo16 (low_bits (2 ^ 16) z))))
    ∙ read_nbo16-write_nbo16 (low_bits (2 ^ 16) z) [] (low_bits16-lt z))

signed32 : (z : ℤ) → InRange (2 ^ 31) z → signed (2 ^ 31) (low_bits (2 ^ 32) z) ≡ z
signed32 (pos n) lt = ground arith
signed32 (negsuc n) lt = ground arith

low_bits32-lt : (z : ℤ) → low_bits (2 ^ 32) z < 2 ^ 32
low_bits32-lt (pos n) = omega arith
low_bits32-lt (negsuc n) = omega arith

InRange-signed32 : (l : ℕ) → l < 2 ^ 32 → InRange (2 ^ 31) (signed (2 ^ 31) l)
InRange-signed32 l lt =
    if_intro (InRange (2 ^ 31)) (ltb l (2 ^ 31)) (λ a. ground arith) (λ b. ground arith)

pub dec_written32 :
    (z : ℤ)
    → bin_dec_integer (write_nbo32 (low_bits (2 ^ 32) z))
      ≡ ok (signed (2 ^ 31) (low_bits (2 ^ 32) z))
unfolding bin_dec_integer write_nbo32
dec_written32 z = ap (loaded (2 ^ 31)) (
    ap read_nbo32 (sym (append-nil (write_nbo32 (low_bits (2 ^ 32) z))))
    ∙ read_nbo32-write_nbo32 (low_bits (2 ^ 32) z) [] (low_bits32-lt z))

signed64 : (z : ℤ) → InRange (2 ^ 63) z → signed (2 ^ 63) (low_bits (2 ^ 64) z) ≡ z
signed64 (pos n) lt = ground arith
signed64 (negsuc n) lt = ground arith

low_bits64-lt : (z : ℤ) → low_bits (2 ^ 64) z < 2 ^ 64
low_bits64-lt (pos n) = omega arith
low_bits64-lt (negsuc n) = omega arith

InRange-signed64 : (l : ℕ) → l < 2 ^ 64 → InRange (2 ^ 63) (signed (2 ^ 63) l)
InRange-signed64 l lt =
    if_intro (InRange (2 ^ 63)) (ltb l (2 ^ 63)) (λ a. ground arith) (λ b. ground arith)

pub dec_written64 :
    (z : ℤ)
    → bin_dec_integer (write_nbo64 (low_bits (2 ^ 64) z))
      ≡ ok (signed (2 ^ 63) (low_bits (2 ^ 64) z))
unfolding bin_dec_integer write_nbo64
dec_written64 z = ap (loaded (2 ^ 63)) (
    ap read_nbo64 (sym (append-nil (write_nbo64 (low_bits (2 ^ 64) z))))
    ∙ read_nbo64-write_nbo64 (low_bits (2 ^ 64) z) [] (low_bits64-lt z))

-- What is decoded from an encoded integer.
abbrev pub comes_back : Outcome Encoded → Outcome ℤ
comes_back e = and_then e (λ e. bin_dec_integer (bytes_of e))

ok_inj : {a b : ℤ} → ◌≡◌ {A = Outcome ℤ} (ok a) (ok b) → a ≡ b
ok_inj q = cc

both :
    (z : ℤ) (h : ℕ) {r : Outcome ℤ} {y : ℤ}
    → r ≡ ok y
    → InRange h y
    → (InRange h z → y ≡ z)
    → (r ≡ ok z) ↔ InRange h z
both z h {r} {y} e range same =
    (λ q. subst (InRange h) (ok_inj (sym e ∙ q)) range, λ i. e ∙ ap ok (same i))

refused :
    (z : ℤ) (h : ℕ) {r : Outcome ℤ} {x : RubyError}
    → r ≡ raises x
    → ¬ InRange h z
    → (r ≡ ok z) ↔ InRange h z
refused z h e out = (λ q. cc, λ i. absurd (out i))

pub comes_back16 : (z : ℤ) → (comes_back (bin_enc_int2 z) ≡ ok z) ↔ InRange (2 ^ 15) z
unfolding bin_enc_int2 num2int
comes_back16 (pos n) =
    if_intro
      (λ r.
        (comes_back (and_then r (λ i. ok (buffered 2 (write_nbo16 (low_bits (2 ^ 16) i)))))
          ≡ ok (pos n))
        ↔ (n < 2 ^ 15))
      (ltb n (2 ^ 31))
      (λ _.
        both (pos n) (2 ^ 15) (dec_written16 (pos n))
          (InRange-signed16 (low_bits (2 ^ 16) (pos n)) (low_bits16-lt (pos n))) (signed16 (pos n)))
      (λ b. refused (pos n) (2 ^ 15) refl (λ i. ground arith))
comes_back16 (negsuc n) =
    if_intro
      (λ r.
        (comes_back (and_then r (λ i. ok (buffered 2 (write_nbo16 (low_bits (2 ^ 16) i)))))
          ≡ ok (negsuc n))
        ↔ (n < 2 ^ 15))
      (ltb n (2 ^ 31))
      (λ _.
        both (negsuc n) (2 ^ 15) (dec_written16 (negsuc n))
          (InRange-signed16 (low_bits (2 ^ 16) (negsuc n)) (low_bits16-lt (negsuc n)))
          (signed16 (negsuc n)))
      (λ b. refused (negsuc n) (2 ^ 15) refl (λ i. ground arith))

pub comes_back32 : (z : ℤ) → (comes_back (bin_enc_int4 z) ≡ ok z) ↔ InRange (2 ^ 31) z
unfolding bin_enc_int4 num2ll
comes_back32 (pos n) =
    if_intro
      (λ r.
        (comes_back (and_then r (λ i. ok (buffered 4 (write_nbo32 (low_bits (2 ^ 32) i)))))
          ≡ ok (pos n))
        ↔ (n < 2 ^ 31))
      (ltb n (2 ^ 63))
      (λ _.
        both (pos n) (2 ^ 31) (dec_written32 (pos n))
          (InRange-signed32 (low_bits (2 ^ 32) (pos n)) (low_bits32-lt (pos n))) (signed32 (pos n)))
      (λ b. refused (pos n) (2 ^ 31) refl (λ i. ground arith))
comes_back32 (negsuc n) =
    if_intro
      (λ r.
        (comes_back (and_then r (λ i. ok (buffered 4 (write_nbo32 (low_bits (2 ^ 32) i)))))
          ≡ ok (negsuc n))
        ↔ (n < 2 ^ 31))
      (ltb n (2 ^ 63))
      (λ _.
        both (negsuc n) (2 ^ 31) (dec_written32 (negsuc n))
          (InRange-signed32 (low_bits (2 ^ 32) (negsuc n)) (low_bits32-lt (negsuc n)))
          (signed32 (negsuc n)))
      (λ b. refused (negsuc n) (2 ^ 31) refl (λ i. ground arith))

pub comes_back64 : (z : ℤ) → (comes_back (bin_enc_int8 z) ≡ ok z) ↔ InRange (2 ^ 63) z
unfolding bin_enc_int8 num2ll
comes_back64 (pos n) =
    if_intro
      (λ r.
        (comes_back (and_then r (λ i. ok (buffered 8 (write_nbo64 (low_bits (2 ^ 64) i)))))
          ≡ ok (pos n))
        ↔ (n < 2 ^ 63))
      (ltb n (2 ^ 63))
      (λ _.
        both (pos n) (2 ^ 63) (dec_written64 (pos n))
          (InRange-signed64 (low_bits (2 ^ 64) (pos n)) (low_bits64-lt (pos n))) (signed64 (pos n)))
      (λ b. refused (pos n) (2 ^ 63) refl (λ i. ground arith))
comes_back64 (negsuc n) =
    if_intro
      (λ r.
        (comes_back (and_then r (λ i. ok (buffered 8 (write_nbo64 (low_bits (2 ^ 64) i)))))
          ≡ ok (negsuc n))
        ↔ (n < 2 ^ 63))
      (ltb n (2 ^ 63))
      (λ _.
        both (negsuc n) (2 ^ 63) (dec_written64 (negsuc n))
          (InRange-signed64 (low_bits (2 ^ 64) (negsuc n)) (low_bits64-lt (negsuc n)))
          (signed64 (negsuc n)))
      (λ b. refused (negsuc n) (2 ^ 63) refl (λ i. ground arith))
