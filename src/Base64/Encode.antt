-- ===== src/Base64/Encode.antt =====
-- The backward encoder of ext/pg_util.c, in place or not, against the description of base64.
use ruby_pg.Common.{
  ◌^◌, ok, and_then, ℕ, ◌+◌, ◌-◌, ◌*◌, ◌/◌, ◌%◌, ◌≤◌, ◌<◌, true, ◌++◌, Mem, read, ltb, ◌≡◌, ◌⊎◌,
  inl, inr, refl, sym, ap, ◌∙◌, arith, read_at, read_one, read_two, ltb→lt, read_cong, read-append,
  length-read, Bool-cases,
}
use ruby_pg.Base64.{
  sextet, triple_of, write4, encode_tail, encode_back, int_size, base64_encode, encoded_size,
}
use ruby_pg.Base64.Groups.{
  base64, base64-append, MayOverlap, read-write4, write4_outside, Encodes, encode_groups-Encodes,
}

tail_one :
    (m : Mem) (q p out_ptr in_ptr : ℕ)
    → out_ptr - 4 ≡ q
    → in_ptr - 1 ≡ p
    → encode_tail m out_ptr in_ptr 1
      ≡ write4 m q (sextet (triple_of (m p) 0 0) 3) (sextet (triple_of (m p) 0 0) 2) b'=' b'='
unfolding encode_tail
tail_one m q p out_ptr in_ptr e1 e2 = rw (e1, e2)

tail_two :
    (m : Mem) (q p out_ptr in_ptr : ℕ)
    → out_ptr - 4 ≡ q
    → in_ptr - 2 ≡ p
    → in_ptr - 1 ≡ p + 1
    → encode_tail m out_ptr in_ptr 2
      ≡ write4 m q
          (sextet (triple_of (m p) (m (p + 1)) 0) 3)
          (sextet (triple_of (m p) (m (p + 1)) 0) 2)
          (sextet (triple_of (m p) (m (p + 1)) 0) 1)
          b'='
unfolding encode_tail
tail_two m q p out_ptr in_ptr e1 e2 e3 = rw (e1, e2, e3)

-- The characters of the group of one or two bytes at the end.
encode_tail-chars :
    (m : Mem) (q p out_ptr in_ptr part : ℕ)
    → out_ptr ≡ q + 4
    → in_ptr ≡ p + part
    → (part ≡ 1) ⊎ (part ≡ 2)
    → (read (encode_tail m out_ptr in_ptr part) q 4 ≡ base64 (read m p part))
      × ((j : ℕ) → (j < q) ⊎ (q + 4 ≤ j) → encode_tail m out_ptr in_ptr part j ≡ m j)
encode_tail-chars m q p out_ptr in_ptr part eo ei (inl one) =
    rw (one, tail_one m q p out_ptr in_ptr (omega arith) (omega arith))
      (
        read-write4 m q 4 _ _ _ _ refl
            ∙ sym (ap base64 (read_one m p 1 refl) ∙ (unfold base64 in refl)),
        λ j h. write4_outside m q j _ _ _ _ h,
      )
encode_tail-chars m q p out_ptr in_ptr part eo ei (inr two) =
    rw (two, tail_two m q p out_ptr in_ptr (omega arith) (omega arith) (omega arith))
      (
        read-write4 m q 4 _ _ _ _ refl
            ∙ sym (ap base64 (read_two m p 2 refl) ∙ (unfold base64 in refl)),
        λ j h. write4_outside m q j _ _ _ _ h,
      )

-- A text of `k` whole groups and a rest.
base64-read :
    (m : Mem) (inp k part len : ℕ)
    → len ≡ 3 * k + part
    → base64 (read m inp len) ≡ base64 (read m inp (3 * k)) ++ base64 (read m (inp + 3 * k) part)
base64-read m inp k part len e =
    ap base64 (read_at m inp inp len (3 * k + part) refl e ∙ read-append m inp (3 * k) part)
    ∙ base64-append k (read m inp (3 * k)) (read m (inp + 3 * k) part) (length-read m inp (3 * k))

-- The whole groups behind a tail that is in place.
Encodes-tail :
    (m mt m' : Mem) (out inp k part len size : ℕ)
    → len ≡ 3 * k + part
    → size ≡ 4 * k + 4
    → (inp ≤ out) ⊎ (out + size ≤ inp)
    → read mt (out + 4 * k) 4 ≡ base64 (read m (inp + 3 * k) part)
    → ((j : ℕ) → (j < out + 4 * k) ⊎ (out + 4 * k + 4 ≤ j) → mt j ≡ m j)
    → Encodes k mt out inp m'
    → (read m' out size ≡ base64 (read m inp len))
      × ((j : ℕ) → (j < out) ⊎ (out + size ≤ j) → m' j ≡ m j)
Encodes-tail m mt m' out inp k part len size el es o chars same rest = (
  read_at m' out out size (4 * k + 4) refl es
      ∙ read-append m' out (4 * k) 4
      ∙ ap (λ t. t ++ read m' (out + 4 * k) 4) (rest.written ∙ ap base64 input)
      ∙ ap (λ t. base64 (read m inp (3 * k)) ++ t) (last ∙ chars)
      ∙ sym (base64-read m inp k part len el),
  λ j h. rest.kept j (omega arith) ∙ same j (omega arith),
)
  where
    input : read mt inp (3 * k) ≡ read m inp (3 * k)
    input = read_cong mt m inp (3 * k) (λ j lo hi. same j (ground arith))

    last : read m' (out + 4 * k) 4 ≡ read mt (out + 4 * k) 4
    last = read_cong m' mt (out + 4 * k) 4 (λ j lo hi. rest.kept j (inr lo))

encode_back_lem :
    (m : Mem) (out inp len : ℕ)
    → MayOverlap out inp len
    → (read (encode_back m out inp len (encoded_size len)) out (encoded_size len)
        ≡ base64 (read m inp len))
      × ((j : ℕ)
          → (j < out) ⊎ (out + encoded_size len ≤ j)
          → encode_back m out inp len (encoded_size len) j ≡ m j)
unfolding encode_back
encode_back_lem m out inp len o = elim (Bool-cases (ltb 0 (len % 3))) [
  | inl more ↦
      let (chars, same) =
        encode_tail-chars m (out + 4 * (len / 3)) (inp + 3 * (len / 3)) (out + encoded_size len)
          (inp + len) (len % 3) (sizes more).0 (omega arith) (sizes more).2 in
      rw more (
        Encodes-tail m _ _ out inp (len / 3) (len % 3) len (encoded_size len) (omega arith)
          (sizes more).1 o chars same
          (encode_groups-Encodes (len / 3) _ out inp (omega (arith, (sizes more).1))))
  | inr aligned ↦
      let e : encoded_size len ≡ 4 * (len / 3) = unfold encoded_size in ground arith in
      let e' : len ≡ 3 * (len / 3) = ground arith in
      let groups = encode_groups-Encodes (len / 3) m out inp (omega arith) in
      rw aligned (
        read_at _ out out (encoded_size len) (4 * (len / 3)) refl e
            ∙ groups.written
            ∙ ap base64 (read_at m inp inp (3 * (len / 3)) len refl (omega arith)),
        λ j h. groups.kept j (omega arith),
      )
]
  where
    sizes :
        ltb 0 (len % 3) ≡ true
        → (out + encoded_size len ≡ out + 4 * (len / 3) + 4)
          × (encoded_size len ≡ 4 * (len / 3) + 4)
          × ((len % 3 ≡ 1) ⊎ (len % 3 ≡ 2))
    sizes h =
        let pos = ltb→lt 0 (len % 3) h in
        unfold encoded_size in (omega arith, omega arith, omega arith)

pub int_size_small : (len : ℕ) → encoded_size len < 2 ^ 31 → int_size len ≡ ok (encoded_size len)
unfolding int_size
int_size_small len small =
    let yes : ltb (encoded_size len) (2 ^ 31) ≡ true = ground arith in rw yes refl

-- If the output starts at or behind the input's start, or ends before it, and the encoded size is
-- an int, the encoder returns; then the output region holds the base64 of the input and no byte
-- outside the region has changed.
pub base64_encode_lem :
    (m : Mem) (out inp len : ℕ)
    → MayOverlap out inp len
    → encoded_size len < 2 ^ 31
    → (m' : Mem) × (base64_encode m out inp len ≡ ok m')
      × (read m' out (encoded_size len) ≡ base64 (read m inp len))
      × ((j : ℕ) → (j < out) ⊎ (out + encoded_size len ≤ j) → m' j ≡ m j)
unfolding base64_encode
base64_encode_lem m out inp len o small =
    let (chars, kept) = encode_back_lem m out inp len o in
    (
      encode_back m out inp len (encoded_size len),
      ap (λ r. and_then r (λ size. ok (encode_back m out inp len size))) (int_size_small len small),
      chars,
      kept,
    )
