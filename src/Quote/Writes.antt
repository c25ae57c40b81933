-- ===== src/Quote/Writes.antt =====
-- What quoting an array element appends to the output.
use ruby_pg.Common.{
  Bool, ℕ, zero, suc, ◌+◌, ◌*◌, ◌≤◌, ◌<◌, false, Option, some, [], ◌∷◌, ◌++◌, Bytes, Mem, get_or,
  count, count-le-length, write, read, fill, fill_outside, length, if◌then◌else◌, ◌>>=◌, ◌≡◌, inl,
  inr, refl, sym, ap, ◌∙◌, arith, read-append, read_cong, Bool-cases, read_at, read_one, ltb,
  lt→ltb, read-fill,
}
use ruby_pg.Buffer.{Buffer, text, store_at, place}
use ruby_pg.Buffer.Writes.{place-fill, HasRoom, Writes, HasRoom-weaken, Writes-put_all}
use ruby_pg.Escape.{escape}
use ruby_pg.Escape.Spread.{length-escape}
use ruby_pg.Quote.{
  apostrophe, is_apostrophe, double_apostrophe, quote_literal_buffer, Source, separate, in_place,
  byte_at, input, quote_loop, needs_backslash, array_backslash, needquote, keep, put_quoted,
  quote_array_buffer,
}
use ruby_pg.Quote.Loop.{upto, Quoted, quote_loop-Quoted}

abbrev pub backslashed : Bytes → Bytes
backslashed = escape needs_backslash array_backslash

-- An element, between quotes if it needs them.
abbrev pub element : ℕ → Bytes → Bytes
element delimiter cs = if needquote delimiter cs then b'"' ∷ (backslashed cs ++ b'"' ∷ []) else cs

upto_cong : (x y : ℕ → ℕ) (k : ℕ) → ((j : ℕ) → j < k → x j ≡ y j) → upto x k ≡ upto y k
upto_cong x y zero h = refl
upto_cong x y (suc k) h =
    ap (λ t. t ++ x k ∷ []) (upto_cong x y k (λ j lt. h j (omega arith)))
    ∙ ap (λ c. upto y k ++ c ∷ []) (h k (omega arith))

upto-cons : (c : ℕ) (x : ℕ → ℕ) (k : ℕ) → x 0 ≡ c → upto x (suc k) ≡ c ∷ upto (λ j. x (suc j)) k
upto-cons c x zero h = ap (λ d. d ∷ []) h
upto-cons c x (suc k) h = ap (λ t. t ++ x (suc k) ∷ []) (upto-cons c x k h)

upto-get_or : (cs : Bytes) → upto (λ j. get_or cs j 0) (length cs) ≡ cs
upto-get_or [] = refl
upto-get_or (c ∷ cs) =
    upto-cons c (λ j. get_or (c ∷ cs) j 0) (length cs) refl ∙ ap (λ t. c ∷ t) (upto-get_or cs)

get_or-read : (m : Mem) (p n j : ℕ) → j < n → get_or (read m p n) j 0 ≡ m (p + j)
unfolding read
get_or-read m p zero j h = absurd (omega arith)
get_or-read m p (suc n) zero h = ap m (let e : p ≡ p + 0 = omega arith in e)
get_or-read m p (suc n) (suc j) h =
    get_or-read m (p + 1) n j (omega arith)
    ∙ ap m (let e : p + 1 + j ≡ p + suc j = omega arith in e)

-- The source holds the bytes `cs`.
record Holds (source : Source) (cs : Bytes) (b : Buffer) : Type 0 where
  input_is : input source (length cs) b ≡ cs
  bytes_are : (j : ℕ) → j < length cs → byte_at source b j ≡ get_or cs j 0
  kept_by :
      (i v : ℕ)
      → b.pos + length cs ≤ i
      → (j : ℕ) → j < length cs
      → byte_at source (record b { mem = write b.mem i v }) j ≡ byte_at source b j

Holds-separate : (cs : Bytes) (b : Buffer) → Holds (separate cs) cs b
Holds-separate cs b = record {
  input_is = refl;
  bytes_are = λ j lt. refl;
  kept_by = λ i v le j lt. refl;
}

Holds-in_place : (cs : Bytes) (b : Buffer) → read b.mem b.pos (length cs) ≡ cs → Holds in_place cs b
Holds-in_place cs b e = record {
  input_is = e;
  bytes_are =
      λ j lt. sym (ap (λ t. get_or t j 0) (sym e) ∙ get_or-read b.mem b.pos (length cs) j lt);
  kept_by = λ i v le j lt. ground arith;
}

-- A start quote, the bytes in the middle and the end quote, behind what stood there.
read_framed :
    (quote : ℕ) (m m' : Mem) (p e : ℕ) (mid : Bytes)
    → e ≡ p + 1 + length mid
    → read m' (p + 1) (length mid) ≡ mid
    → ((j : ℕ) → j < p → m' j ≡ m j)
    → m' e ≡ quote
    → read (write m' p quote) 0 (e + 1) ≡ read m 0 p ++ (quote ∷ (mid ++ quote ∷ []))
read_framed quote m m' p e mid e_is middle kept end =
    let w = write m' p quote in
    let n = length mid in
    read_at w 0 0 (e + 1) (p + (1 + (n + 1))) refl (omega arith)
    ∙ read-append w 0 p (1 + (n + 1))
    ∙ ap (λ t. t ++ read w (0 + p) (1 + (n + 1)))
        (read_cong w m 0 p
          (λ j lo hi. (let z : w j ≡ m' j = ground arith in z) ∙ kept j (omega arith)))
    ∙ ap (λ t. read m 0 p ++ t)
        (read-append w (0 + p) 1 (n + 1)
          ∙ ap (λ t. t ++ read w (0 + p + 1) (n + 1))
              (read_one w (0 + p) 1 refl
                ∙ ap (λ c. c ∷ []) (let z : w (0 + p) ≡ quote = ground arith in z))
          ∙ ap (λ t. quote ∷ t)
              (read-append w (0 + p + 1) n 1
                ∙ ap (λ t. t ++ read w (0 + p + 1 + n) 1)
                    (read_at w (0 + p + 1) (p + 1) n n (omega arith) refl
                      ∙ read_cong w m' (p + 1) n
                          (λ j lo hi. (let z : w j ≡ m' j = ground arith in z))
                      ∙ middle)
                ∙ ap (λ t. mid ++ t)
                    (read_at w (0 + p + 1 + n) e 1 1 (omega arith) refl
                      ∙ read_one w e 1 refl
                      ∙ ap (λ c. c ∷ []) ((let z : w e ≡ m' e = ground arith in z) ∙ end))))

Writes-put_quoted :
    {n : ℕ} (special : ℕ → Bool) (mark : ℕ → ℕ) (quote : ℕ) (source : Source) (cs : Bytes)
    (b : Buffer)
    → Holds source cs b
    → HasRoom (length cs * 2 + 2 + n) b
    → Writes n
        (quote ∷ (escape special mark cs ++ quote ∷ []))
        b
        (put_quoted special mark quote source (length cs) b)
unfolding put_quoted store_at
Writes-put_quoted {n} special mark quote source cs b holds h =
    let e = b.pos + length cs + count special cs + 1 in
    let b1 : Buffer = record b { mem = write b.mem e quote } in
    let l = length-escape special mark cs in
    let q = looped e l in
    record {
      last = record (q.last) { mem = write q.last.mem b.pos quote; pos = e + 1 };
      is_some =
          rw
            (
              holds.input_is,
              lt→ltb e b.capacity (omega (arith, h.room, count-le-length special cs)),
              q.is_some,
              lt→ltb b.pos q.last.capacity (omega (arith, h.room, q.same_capacity)),
            )
            refl;
      text_is =
          read_framed quote b.mem q.last.mem b.pos e (escape special mark cs) (omega (arith, l))
            (placed q) (λ j lt. q.outside j (inl (omega arith)) ∙ ground arith)
            (q.outside e (inr (omega arith)) ∙ ground arith);
      has_room = record {
        room = omega (arith, h.room, q.same_capacity, count-le-length special cs);
        limited = omega (arith, h.limited, q.same_limit, q.same_capacity);
      };
    }
  where
    x : ℕ → ℕ
    x j = get_or cs j 0

    looped :
        (e : ℕ)
        → length (escape special mark cs) ≡ length cs + count special cs
        → Quoted special mark source x
            (length cs)
            (b.pos + 1)
            (b.pos + length cs + count special cs + 1)
            (record b { mem = write b.mem (b.pos + length cs + count special cs + 1) quote })
            (quote_loop special mark source
              (length cs)
              (b.pos + length cs + count special cs + 1)
              (record b { mem = write b.mem (b.pos + length cs + count special cs + 1) quote }))
    looped e l =
        quote_loop-Quoted special mark source x (length cs) (b.pos + 1) _ _ (omega arith)
          (omega (arith, l, ap (λ t. length (escape special mark t)) (upto-get_or cs)))
          (omega (arith, h.room, count-le-length special cs))
          (λ j lt. holds.kept_by _ quote (omega arith) j lt ∙ holds.bytes_are j lt)

    placed :
        {r : Option Buffer} {b' : Buffer} {e : ℕ}
        → (q : Quoted special mark source x (length cs) (b.pos + 1) e b' r)
        → read q.last.mem (b.pos + 1) (length (escape special mark cs)) ≡ escape special mark cs
    placed q = rw (ap (escape special mark) (upto-get_or cs)) at q.region

-- A String quoted into the output: no store outside the buffer, if there is room for a backslash
-- before each byte and for both quotes.
pub Writes-quote_separate :
    {n : ℕ} (delimiter : ℕ) (cs : Bytes) {b : Buffer}
    → HasRoom (length cs * 2 + 2 + n) b
    → Writes n (element delimiter cs) b (quote_array_buffer delimiter (separate cs) (length cs) b)
unfolding quote_array_buffer keep
Writes-quote_separate {n} delimiter cs {b} h = elim (Bool-cases (needquote delimiter cs)) [
  | inl q ↦ rw q (
      Writes-put_quoted needs_backslash array_backslash b'"' (separate cs) cs b
        (Holds-separate cs b) h)
  | inr q ↦ rw q (Writes-put_all cs (HasRoom-weaken _ (omega arith) h))
]

text-fill : (cs : Bytes) (b : Buffer) → read (fill b.mem b.pos cs) 0 b.pos ≡ text b
text-fill cs b =
    read_cong (fill b.mem b.pos cs) b.mem 0 b.pos
      (λ j lo hi. fill_outside cs b.mem b.pos j (inl (omega arith)))

-- Bytes that were placed and then kept.
pub Writes-kept :
    {n : ℕ} (cs : Bytes) {b : Buffer}
    → HasRoom (length cs + n) b
    → Writes n cs b (some (record b { mem = fill b.mem b.pos cs; pos = b.pos + length cs }))
Writes-kept {n} cs {b} h = record {
  last = record b { mem = fill b.mem b.pos cs; pos = b.pos + length cs };
  is_some = refl;
  text_is =
      read-append (fill b.mem b.pos cs) 0 b.pos (length cs)
      ∙ ap (λ t. t ++ read (fill b.mem b.pos cs) (0 + b.pos) (length cs)) (text-fill cs b)
      ∙ ap (λ t. text b ++ t)
          (read_at (fill b.mem b.pos cs) (0 + b.pos) b.pos (length cs) (length cs) (omega arith)
              refl
            ∙ read-fill cs b.mem b.pos);
  has_room = record { room = omega (arith, h.room); limited = h.limited };
}

-- A second pass places its bytes, which are quoted where they stand.
pub Writes-quote_in_place :
    {n : ℕ} (delimiter : ℕ) (cs : Bytes) {b : Buffer}
    → HasRoom (length cs * 2 + 2 + n) b
    → Writes n
        (element delimiter cs)
        b
        (place cs b >>= quote_array_buffer delimiter in_place (length cs))
unfolding quote_array_buffer keep place
Writes-quote_in_place {n} delimiter cs {b} h =
    let placed : Buffer = record b { mem = fill b.mem b.pos cs } in
    let there = read-fill cs b.mem b.pos in
    rw (ltb_false (b.pos + length cs) b.capacity (omega (arith, h.room)), there)
      (elim (Bool-cases (needquote delimiter cs)) [
        | inl q ↦
            let w =
              Writes-put_quoted {n = n} needs_backslash array_backslash b'"' in_place cs placed
                (Holds-in_place cs placed there) (record { room = h.room; limited = h.limited }) in
            rw q (record {
              last = w.last;
              is_some = w.is_some;
              text_is =
                  w.text_is
                  ∙ ap (λ t. t ++ (b'"' ∷ (backslashed cs ++ b'"' ∷ []))) (text-fill cs b);
              has_room = w.has_room;
            })
        | inr q ↦ rw q (Writes-kept cs (HasRoom-weaken _ (omega arith) h))
      ])
  where
    ltb_false : (x y : ℕ) → x ≤ y → ltb y x ≡ false
    ltb_false x y le = ground arith

-- What is written after bytes have been placed at the output position.
Writes-place :
    {n : ℕ} (cs : Bytes) {ds : Bytes} {b : Buffer} (f : Buffer → Option Buffer)
    → b.pos + length cs ≤ b.capacity
    → Writes n ds
        (record b { mem = fill b.mem b.pos cs })
        (f (record b { mem = fill b.mem b.pos cs }))
    → Writes n ds b (place cs b >>= f)
Writes-place {n} cs {ds} {b} f fits w = rw (place-fill cs b fits) (record {
  last = w.last;
  is_some = w.is_some;
  text_is = w.text_is ∙ ap (λ t. t ++ ds) (text-fill cs b);
  has_room = w.has_room;
})

abbrev pub apostrophes : Bytes → Bytes
apostrophes = escape is_apostrophe double_apostrophe

-- A literal: apostrophes around the text, in which they are doubled.
abbrev pub literal : Bytes → Bytes
literal cs = apostrophe ∷ (apostrophes cs ++ apostrophe ∷ [])

pub Writes-literal_separate :
    {n : ℕ} (cs : Bytes) {b : Buffer}
    → HasRoom (length cs * 2 + 2 + n) b
    → Writes n (literal cs) b (quote_literal_buffer (separate cs) (length cs) b)
unfolding quote_literal_buffer
Writes-literal_separate {n} cs {b} h =
    Writes-put_quoted is_apostrophe double_apostrophe apostrophe (separate cs) cs b
      (Holds-separate cs b) h

pub Writes-literal_in_place :
    {n : ℕ} (cs : Bytes) {b : Buffer}
    → HasRoom (length cs * 2 + 2 + n) b
    → Writes n (literal cs) b (place cs b >>= quote_literal_buffer in_place (length cs))
unfolding quote_literal_buffer
Writes-literal_in_place {n} cs {b} h =
    Writes-place cs (quote_literal_buffer in_place (length cs)) (omega (arith, h.room)) (
      Writes-put_quoted is_apostrophe double_apostrophe apostrophe in_place cs
        (record b { mem = fill b.mem b.pos cs })
        (Holds-in_place cs (record b { mem = fill b.mem b.pos cs }) (read-fill cs b.mem b.pos))
        (record { room = h.room; limited = h.limited }))
