-- ===== src/Quote/Loop.antt =====
-- The quoting loop: right to left, from a separate String or in place.
use ruby_pg.Common.{
  ℕ, zero, suc, ◌+◌, ◌≤◌, ◌<◌, Bool, true, false, Option, some, [], ◌∷◌, ◌++◌, Bytes, Mem, write,
  read, length, ◌≡◌, ◌⊎◌, inl, inr, refl, sym, ap, ◌∙◌, arith, append-nil, read-append, read_cong,
  Bool-cases, read_at, read_one, read_two, length-append, flat_map-append, lt→ltb,
}
use ruby_pg.Buffer.{Buffer, store_at}
use ruby_pg.Escape.{escape_byte, escape}
use ruby_pg.Quote.{Source, separate, in_place, byte_at, quote_mark, quote_loop}

-- The first k values of a function.
abbrev pub upto : (ℕ → ℕ) → ℕ → Bytes
upto x zero = []
upto x (suc k) = upto x k ++ x k ∷ []

-- A store behind a byte of the source does not change it.
byte_at-write :
    (source : Source) (b : Buffer) (q v j : ℕ)
    → b.pos + j < q
    → byte_at source (record b { mem = write b.mem q v }) j ≡ byte_at source b j
byte_at-write (separate cs) b q v j h = refl
byte_at-write in_place b q v j h = ground arith

module _ (special : ℕ → Bool) (mark : ℕ → ℕ) (source : Source) (x : ℕ → ℕ) where
  abbrev pub escaped_upto : ℕ → Bytes
  escaped_upto k = escape special mark (upto x k)

  escaped_upto-suc :
      (k : ℕ) → escaped_upto (suc k) ≡ escaped_upto k ++ escape_byte special mark (x k)
  escaped_upto-suc k =
      flat_map-append (escape_byte special mark) (upto x k) (x k ∷ [])
      ∙ ap (λ t. escaped_upto k ++ t) (append-nil _)

  pub length-escaped_upto : (k : ℕ) → k ≤ length (escaped_upto k)
  length-escaped_upto zero = omega arith
  length-escaped_upto (suc k) = omega (
    arith,
    length-escaped_upto k,
    ap length (escaped_upto-suc k),
    length-append (escaped_upto k) (escape_byte special mark (x k)),
    one (x k),
  )
    where
      one : (c : ℕ) → 1 ≤ length (escape_byte special mark c)
      one c = ground arith

  -- The escaped bytes stand from `p` on, and nothing else of the buffer has changed.
  pub record Quoted (k p ptr2 : ℕ) (b : Buffer) (r : Option Buffer) : Type 0 where
    pub last : Buffer
    pub is_some : r ≡ some last
    pub region : read last.mem p (length (escaped_upto k)) ≡ escaped_upto k
    pub outside : (j : ℕ) → (j < p) ⊎ (ptr2 ≤ j) → last.mem j ≡ b.mem j
    pub same_pos : last.pos ≡ b.pos
    pub same_limit : last.limit ≡ b.limit
    pub same_capacity : last.capacity ≡ b.capacity

  Quoted-grow :
      (k p q ptr2 : ℕ) (b : Buffer) (m : Mem) (r : Option Buffer)
      → q ≡ p + length (escaped_upto k)
      → ptr2 ≡ q + length (escape_byte special mark (x k))
      → read m q (length (escape_byte special mark (x k))) ≡ escape_byte special mark (x k)
      → ((j : ℕ) → (j < q) ⊎ (ptr2 ≤ j) → m j ≡ b.mem j)
      → Quoted k p q (record b { mem = m }) r
      → Quoted (suc k) p ptr2 b r
  Quoted-grow k p q ptr2 b m r q_is ptr2_is chars kept s = record {
    last = s.last;
    is_some = s.is_some;
    region =
        read_at s.last.mem p p (length (escaped_upto (suc k)))
          (length (escaped_upto k) + length new) refl size
        ∙ read-append s.last.mem p (length (escaped_upto k)) (length new)
        ∙ ap (λ t. t ++ read s.last.mem (p + length (escaped_upto k)) (length new)) s.region
        ∙ ap (λ t. escaped_upto k ++ t) tail
        ∙ sym (escaped_upto-suc k);
    outside = λ j h. s.outside j (wider j h) ∙ kept j (narrower j h);
    same_pos = s.same_pos;
    same_limit = s.same_limit;
    same_capacity = s.same_capacity;
  }
    where
      new : Bytes
      new = escape_byte special mark (x k)

      size : length (escaped_upto (suc k)) ≡ length (escaped_upto k) + length new
      size = ap length (escaped_upto-suc k) ∙ length-append (escaped_upto k) new

      wider : (j : ℕ) → (j < p) ⊎ (ptr2 ≤ j) → (j < p) ⊎ (q ≤ j)
      wider j (inl h) = inl h
      wider j (inr h) = inr (omega arith)

      narrower : (j : ℕ) → (j < p) ⊎ (ptr2 ≤ j) → (j < q) ⊎ (ptr2 ≤ j)
      narrower j (inl h) = inl (omega arith)
      narrower j (inr h) = inr h

      tail : read s.last.mem (p + length (escaped_upto k)) (length new) ≡ new
      tail =
          read_at s.last.mem (p + length (escaped_upto k)) q (length new) (length new) (sym q_is)
            refl
          ∙ read_cong s.last.mem m q (length new) (λ j lo hi. s.outside j (inr lo))
          ∙ chars

  quote_mark-plain :
      {c : ℕ} (q : ℕ) (b : Buffer) → special c ≡ false → quote_mark special mark c q b ≡ some (q, b)
  unfolding quote_mark
  quote_mark-plain zero b s = rw s refl
  quote_mark-plain (suc r) b s = rw s refl

  -- What a round stores at a byte that needs no escape, and at one that needs it.
  quote_loop-plain :
      (k q : ℕ) (b : Buffer)
      → byte_at source b k ≡ x k
      → special (x k) ≡ false
      → q < b.capacity
      → quote_loop special mark source (suc k) (suc q) b
        ≡ quote_loop special mark source k q (record b { mem = write b.mem q (x k) })
  unfolding quote_loop store_at
  quote_loop-plain k q b e s c =
      let kept : write b.mem q (x k) q ≡ x k = ground arith in
      rw (e, lt→ltb q b.capacity c, kept, quote_mark-plain q _ s) refl

  quote_loop-special :
      (k r : ℕ) (b : Buffer)
      → byte_at source b k ≡ x k
      → special (x k) ≡ true
      → suc r < b.capacity
      → quote_loop special mark source (suc k) (suc (suc r)) b
        ≡ quote_loop special mark source k r
            (record b { mem = write (write b.mem (suc r) (x k)) r (mark (x k)) })
  unfolding quote_loop quote_mark store_at
  quote_loop-special k r b e s c =
      let kept : write b.mem (suc r) (x k) (suc r) ≡ x k = ground arith in
      rw (e, lt→ltb (suc r) b.capacity c, kept, s, lt→ltb r b.capacity (omega arith)) refl

  length_plain :
      (k : ℕ)
      → special (x k) ≡ false
      → length (escaped_upto (suc k)) ≡ suc (length (escaped_upto k))
  length_plain k s =
      ap length (escaped_upto-suc k)
      ∙ length-append (escaped_upto k) (escape_byte special mark (x k))
      ∙ ground arith

  length_special :
      (k : ℕ)
      → special (x k) ≡ true
      → length (escaped_upto (suc k)) ≡ suc (suc (length (escaped_upto k)))
  length_special k s =
      ap length (escaped_upto-suc k)
      ∙ length-append (escaped_upto k) (escape_byte special mark (x k))
      ∙ ground arith

  -- The loop that starts behind all the escaped bytes makes no store outside the buffer and places
  -- them, if the source stands at the output position or elsewhere.
  pub quote_loop-Quoted :
      (k p ptr2 : ℕ) (b : Buffer)
      → b.pos < p
      → ptr2 ≡ p + length (escaped_upto k)
      → ptr2 ≤ b.capacity
      → ((j : ℕ) → j < k → byte_at source b j ≡ x j)
      → Quoted k p ptr2 b (quote_loop special mark source k ptr2 b)
  unfolding quote_loop read
  quote_loop-Quoted zero p ptr2 b h e c same = record {
    last = b;
    is_some = refl;
    region = refl;
    outside = λ j o. refl;
    same_pos = refl;
    same_limit = refl;
    same_capacity = refl;
  }
  quote_loop-Quoted (suc k) p zero b h e c same = absurd (omega arith)
  quote_loop-Quoted (suc k) p (suc zero) b h e c same =
      absurd (omega (arith, length-escaped_upto (suc k)))
  quote_loop-Quoted (suc k) p (suc (suc r)) b h e c same = elim (Bool-cases (special (x k))) [
    | inl s ↦
        let m = write (write b.mem (suc r) (x k)) r (mark (x k)) in
        let r_is : r ≡ p + length (escaped_upto k) = omega (arith, length_special k s) in
        rw (quote_loop-special k r b (same k (omega arith)) s (omega arith)) (
          Quoted-grow k p r (suc (suc r)) b m _ r_is (ground arith)
            (read_two m r _ (ground arith) ∙ ground arith) (λ j o. two_stores j o)
            (quote_loop-Quoted k p r (record b { mem = m }) h r_is (omega arith)
              (λ j lt.
                byte_at-write source (record b { mem = write b.mem (suc r) (x k) }) r (mark (x k)) j
                  (omega (arith, length-escaped_upto k))
                ∙ byte_at-write source b (suc r) (x k) j (omega (arith, length-escaped_upto k))
                ∙ same j (omega arith))))
    | inr s ↦
        let m = write b.mem (suc r) (x k) in
        let q_is : suc r ≡ p + length (escaped_upto k) = omega (arith, length_plain k s) in
        rw (quote_loop-plain k (suc r) b (same k (omega arith)) s (omega arith)) (
          Quoted-grow k p (suc r) (suc (suc r)) b m _ q_is (ground arith)
            (read_one m (suc r) _ (ground arith) ∙ ground arith) (λ j o. one_store j o)
            (quote_loop-Quoted k p (suc r) (record b { mem = m }) h q_is (omega arith)
              (λ j lt.
                byte_at-write source b (suc r) (x k) j (omega (arith, length-escaped_upto k))
                ∙ same j (omega arith))))
  ]
    where
      two_stores :
          (j : ℕ)
          → (j < r) ⊎ (suc (suc r) ≤ j)
          → write (write b.mem (suc r) (x k)) r (mark (x k)) j ≡ b.mem j
      two_stores j (inl o) = ground arith
      two_stores j (inr o) = ground arith

      one_store : (j : ℕ) → (j < suc r) ⊎ (suc (suc r) ≤ j) → write b.mem (suc r) (x k) j ≡ b.mem j
      one_store j (inl o) = ground arith
      one_store j (inr o) = ground arith
