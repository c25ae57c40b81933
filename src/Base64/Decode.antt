-- ===== src/Base64/Decode.antt =====
-- The decoder ends, stays within its output buffer, and takes back what the encoder wrote.
use ruby_pg.Common.{
  ok, ap, ◌^◌, ◌∙◌, ℕ, zero, suc, ◌+◌, ◌*◌, ◌/◌, ◌%◌, ◌^◌, ◌≤◌, ◌<◌, true, false, Option, some, [],
  ◌∷◌, ◌++◌, Bytes, length, All, Mem, read, ◌==◌, ◌≡◌, ◌⊎◌, inl, inr, refl, ap, ◌∙◌, arith,
  if_intro, length-append,
}
use ruby_pg.Base64.{
  sextet, triple_of, decode_char, next_char, next_char?, group_bytes, slow_group, fast_group,
  fast_bytes, decode_group, decode_loop, base64_decode, decoded_size, encoded_size, base64_encode,
  byte0_of, byte1_of, byte2_of,
}
use ruby_pg.Base64.Encode.{base64_encode_lem}
use ruby_pg.Base64.Groups.{base64, MayOverlap}
use ruby_pg.Base64.Table.{decode_char-sextet, decode_char-padding}

-- A search for a character stops behind it, or at the end of the input.
next_char-le : (c : ℕ) (rest : Bytes) → length (next_char c rest).1 ≤ length rest
unfolding next_char
next_char-le c [] = omega arith
next_char-le c (d ∷ rest) = ground (arith, next_char-le d rest)

next_char?-lt : (cur : Bytes) → (length (next_char? cur).1 < length cur) ⊎ ((next_char? cur).1 ≡ [])
unfolding next_char?
next_char?-lt [] = inr refl
next_char?-lt (c ∷ rest) = inl (omega (arith, next_char-le c rest))

next_char?-le : (cur : Bytes) → length (next_char? cur).1 ≤ length cur
unfolding next_char?
next_char?-le [] = omega arith
next_char?-le (c ∷ rest) = omega (arith, next_char-le c rest)

-- A round writes three bytes at most, and leaves the end of the input or four characters less.
record Shrinks (c : ℕ) (rest : Bytes) (r : Bytes × Bytes) : Type 0 where
  few : length r.0 ≤ 3
  shorter : length r.1 ≤ length rest
  progress : (r.1 ≡ []) ⊎ (length r.1 + 4 ≤ suc (length rest))

length-group_bytes : (a b c d : ℕ) → length (group_bytes a b c d) ≤ 3
unfolding group_bytes
length-group_bytes a b c d = ground arith

next_char?-nil : (cur : Bytes) → cur ≡ [] → (next_char? cur).1 ≡ []
unfolding next_char?
next_char?-nil cur e = rw e

-- Three searches in a row.
abbrev third : Bytes → Bytes
third cur = (next_char? (next_char? (next_char? cur).1).1).1

third-progress : (cur : Bytes) → (third cur ≡ []) ⊎ (length (third cur) + 3 ≤ length cur)
third-progress cur =
    let c1 = (next_char? cur).1 in
    let c2 = (next_char? c1).1 in
    elim (next_char?-lt cur) [
      | inr e ↦ inl (next_char?-nil c2 (next_char?-nil c1 e))
      | inl h1 ↦ elim (next_char?-lt c1) [
        | inr e ↦ inl (next_char?-nil c2 e)
        | inl h2 ↦ elim (next_char?-lt c2) [ inr e ↦ inl e | inl h3 ↦ inr (omega arith) ]
      ]
    ]

slow_group-Shrinks : (c : ℕ) (rest : Bytes) → Shrinks c rest (slow_group c rest)
unfolding slow_group
slow_group-Shrinks c rest =
    let r1 = (next_char c rest).1 in
    let r2 = (next_char? r1).1 in
    let r3 = (next_char? r2).1 in
    record {
      few =
          length-group_bytes (next_char c rest).0 (next_char? r1).0 (next_char? r2).0
            (next_char? r3).0;
      shorter =
          omega (arith, next_char-le c rest, next_char?-le r1, next_char?-le r2, next_char?-le r3);
      progress = elim (third-progress r1) [
        | inl e ↦ inl e
        | inr h ↦ inr (omega (arith, next_char-le c rest))
      ];
    }

fast_bytes-Shrinks :
    (c : ℕ) (rest : Bytes) → fast_group c rest ≡ true → Shrinks c rest (fast_bytes c rest)
unfolding fast_group fast_bytes
fast_bytes-Shrinks c [] h = cc
fast_bytes-Shrinks c (c1 ∷ []) h = cc
fast_bytes-Shrinks c (c1 ∷ c2 ∷ []) h = cc
fast_bytes-Shrinks c (c1 ∷ c2 ∷ c3 ∷ rest) h = record {
  few = omega arith;
  shorter = omega arith;
  progress = inr (omega arith);
}

decode_group-Shrinks : (c : ℕ) (rest : Bytes) → Shrinks c rest (decode_group c rest)
unfolding decode_group
decode_group-Shrinks c rest =
    if_intro (Shrinks c rest) (fast_group c rest) (fast_bytes-Shrinks c rest)
      (λ _. slow_group-Shrinks c rest)

-- The loop ends within the fuel, and its output fits the expected decoded length.
record Decodes (cur : Bytes) (r : Option Bytes) : Type 0 where
  out : Bytes
  is_some : r ≡ some out
  fits : length out ≤ (length cur + 3) / 4 * 3

decode_loop-Decodes :
    (fuel : ℕ) (cur : Bytes) → length cur ≤ fuel → Decodes cur (decode_loop fuel cur)
unfolding decode_loop
decode_loop-Decodes fuel [] h = record { out = []; is_some = refl; fits = omega arith }
decode_loop-Decodes zero (c ∷ rest) h = absurd (omega arith)
decode_loop-Decodes (suc fuel) (c ∷ rest) h =
    let g = decode_group-Shrinks c rest in
    let r = decode_loop-Decodes fuel (decode_group c rest).1 (omega (arith, g.shorter)) in
    rw (r.is_some, decode_loop)
      (record { out = (decode_group c rest).0 ++ r.out; is_some = refl; fits = bounded g r })
  where
    bounded :
        Shrinks c rest (decode_group c rest)
        → (r : Decodes (decode_group c rest).1 (decode_loop fuel (decode_group c rest).1))
        → length ((decode_group c rest).0 ++ r.out) ≤ (suc (length rest) + 3) / 4 * 3
    bounded g r = elim g.progress [
      | inl e ↦
          omega (arith, g.few, r.fits, length-append (decode_group c rest).0 r.out, ap length e)
      | inr h ↦ omega (arith, g.few, r.fits, length-append (decode_group c rest).0 r.out)
    ]

-- On every input the decoder returns, and what it writes fits the buffer of the expected decoded
-- length.
pub base64_decode_fits :
    (inp : Bytes)
    → (out : Bytes) × (base64_decode inp ≡ some out) × (length out ≤ decoded_size (length inp))
unfolding base64_decode decoded_size
base64_decode_fits inp =
    let d = decode_loop-Decodes (length inp) inp (omega arith) in (d.out, d.is_some, d.fits)

abbrev pub IsByte : ℕ → Type 0
IsByte c = c < 256

sextet_ok : (t i : ℕ) → (decode_char (sextet t i) == 0xff) ≡ false
sextet_ok t i = ground (arith, decode_char-sextet t i)

-- The bytes of a group come back from its four values.
triple_bytes :
    (a b c : ℕ)
    → a < 256
    → b < 256
    → c < 256
    → let t = triple_of a b c in
      (byte0_of (t / 2 ^ (3 * 6) % 64) (t / 2 ^ (2 * 6) % 64) ≡ a)
      × (byte1_of (t / 2 ^ (2 * 6) % 64) (t / 2 ^ (1 * 6) % 64) ≡ b)
      × (byte2_of (t / 2 ^ (1 * 6) % 64) (t / 2 ^ (0 * 6) % 64) ≡ c)
unfolding triple_of
triple_bytes a b c ha hb hc = (omega arith, omega arith, omega arith)

decode_group-group :
    (a b c : ℕ) (rest : Bytes)
    → a < 256
    → b < 256
    → c < 256
    → decode_group (sextet (triple_of a b c) 3) (
        sextet (triple_of a b c) 2 ∷ sextet (triple_of a b c) 1 ∷ sextet (triple_of a b c) 0 ∷ rest)
      ≡ (a ∷ b ∷ c ∷ [], rest)
unfolding decode_group
decode_group-group a b c rest ha hb hc =
    let t = triple_of a b c in
    rw
      (
        sextet_ok t 3,
        sextet_ok t 2,
        sextet_ok t 1,
        sextet_ok t 0,
        decode_char-sextet t 3,
        decode_char-sextet t 2,
        decode_char-sextet t 1,
        decode_char-sextet t 0,
      )
      (let (e0, e1, e2) = triple_bytes a b c ha hb hc in cc)

-- A padded group, by its characters.
pads_two :
    (c0 c1 c2 : ℕ)
    → (decode_char c0 == 0xff) ≡ false
    → (decode_char c1 == 0xff) ≡ false
    → (decode_char c2 == 0xff) ≡ false
    → decode_group c0 (c1 ∷ c2 ∷ b'=' ∷ []) ≡ (
      byte0_of (decode_char c0) (decode_char c1) ∷ byte1_of (decode_char c1) (decode_char c2) ∷ [],
      [],
    )
unfolding decode_group
pads_two c0 c1 c2 h0 h1 h2 = simp (h0, h1, h2, decode_char-padding)

pads_one :
    (c0 c1 : ℕ)
    → (decode_char c0 == 0xff) ≡ false
    → (decode_char c1 == 0xff) ≡ false
    → decode_group c0 (c1 ∷ b'=' ∷ b'=' ∷ [])
      ≡ (byte0_of (decode_char c0) (decode_char c1) ∷ [], [])
unfolding decode_group
pads_one c0 c1 h0 h1 = simp (h0, h1, decode_char-padding)

decode_group_two :
    (a b : ℕ)
    → a < 256
    → b < 256
    → decode_group
        (sextet (triple_of a b 0) 3)
        (sextet (triple_of a b 0) 2 ∷ sextet (triple_of a b 0) 1 ∷ b'=' ∷ [])
      ≡ (a ∷ b ∷ [], [])
decode_group_two a b ha hb =
    let t = triple_of a b 0 in
    let (e0, e1, e2) = triple_bytes a b 0 ha hb (omega arith) in
    pads_two (sextet t 3) (sextet t 2) (sextet t 1) (sextet_ok t 3) (sextet_ok t 2) (sextet_ok t 1)
    ∙ rw (decode_char-sextet t 3, decode_char-sextet t 2, decode_char-sextet t 1) cc

decode_group_one :
    (a : ℕ)
    → a < 256
    → decode_group (sextet (triple_of a 0 0) 3) (sextet (triple_of a 0 0) 2 ∷ b'=' ∷ b'=' ∷ [])
      ≡ (a ∷ [], [])
decode_group_one a ha =
    let t = triple_of a 0 0 in
    let (e0, e1, e2) = triple_bytes a 0 0 ha (omega arith) (omega arith) in
    pads_one (sextet t 3) (sextet t 2) (sextet_ok t 3) (sextet_ok t 2)
    ∙ rw (decode_char-sextet t 3, decode_char-sextet t 2) cc

decode_loop_step :
    (f c : ℕ) (rest bs next : Bytes) {out : Bytes}
    → decode_group c rest ≡ (bs, next)
    → decode_loop f next ≡ some out
    → decode_loop (suc f) (c ∷ rest) ≡ some (bs ++ out)
unfolding decode_loop
decode_loop_step f c rest bs next {out} e h = rw (decode_loop, e, h) (rw e refl)

decode_loop-nil : (f : ℕ) → decode_loop f [] ≡ some []
unfolding decode_loop
decode_loop-nil zero = refl
decode_loop-nil (suc f) = refl

-- The fuel that a description's length gives is enough for its groups.
decode_loop-base64 :
    (cs : Bytes) (f : ℕ)
    → All IsByte cs
    → length (base64 cs) ≤ f
    → decode_loop f (base64 cs) ≡ some cs
unfolding base64
decode_loop-base64 [] f h le = decode_loop-nil f
decode_loop-base64 (a ∷ []) zero h le = absurd (omega arith)
decode_loop-base64 (a ∷ []) (suc f) h le =
    decode_loop_step f _ _ (a ∷ []) [] (decode_group_one a h.0) (decode_loop-nil f)
decode_loop-base64 (a ∷ b ∷ []) zero h le = absurd (omega arith)
decode_loop-base64 (a ∷ b ∷ []) (suc f) h le =
    decode_loop_step f _ _ (a ∷ b ∷ []) [] (decode_group_two a b h.0 h.1.0) (decode_loop-nil f)
decode_loop-base64 (a ∷ b ∷ c ∷ cs) zero h le = absurd (omega arith)
decode_loop-base64 (a ∷ b ∷ c ∷ cs) (suc f) h le =
    decode_loop_step f _ _ (a ∷ b ∷ c ∷ []) (base64 cs)
      (decode_group-group a b c (base64 cs) h.0 h.1.0 h.1.1.0)
      (decode_loop-base64 cs f h.1.1.1 (omega arith))

pub base64_decode-base64 : (cs : Bytes) → All IsByte cs → base64_decode (base64 cs) ≡ some cs
unfolding base64_decode
base64_decode-base64 cs h = decode_loop-base64 cs (length (base64 cs)) h (omega arith)

-- If the output starts at or behind the input's start, or ends before it, and the encoded size is
-- an int, the encoder returns, and decoding the output region gives back the input, whatever its
-- bytes are.
pub base64_decode-base64_encode :
    (m : Mem) (out inp len : ℕ)
    → MayOverlap out inp len
    → encoded_size len < 2 ^ 31
    → All IsByte (read m inp len)
    → (m' : Mem) × (base64_encode m out inp len ≡ ok m')
      × (base64_decode (read m' out (encoded_size len)) ≡ some (read m inp len))
base64_decode-base64_encode m out inp len o small h =
    let (m', run, chars, kept) = base64_encode_lem m out inp len o small in
    (m', run, ap base64_decode chars ∙ base64_decode-base64 (read m inp len) h)
