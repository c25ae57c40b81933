-- ===== src/Escape/Spread.antt =====
-- The right-to-left loop gives the escaped text in place, with no store outside the buffer.
use ruby_pg.Common.{
  ℕ, zero, suc, ◌+◌, ◌-◌, ◌≤◌, ◌<◌, Bool, true, false, Option, some, [], ◌∷◌, ◌++◌, Bytes, Mem,
  write, read, length, ◌==◌, if◌then◌else◌, ◌≡◌, refl, sym, ap, ◌∙◌, arith, append-nil, read-append,
  read-write_outside, read-suc, inl, inr, read_cong, Bool-cases, count, read_at, read_one, read_two,
  count-le-length, length-read, lt→ltb, count-append, flat_map-append,
}
use ruby_pg.Buffer.{Buffer, store_at}
use ruby_pg.Escape.{escape_byte, escape, spread_step, spread}

module _ (special : ℕ → Bool) (mark : ℕ → ℕ) where
  pub escape_id : (cs : Bytes) → count special cs ≡ 0 → escape special mark cs ≡ cs
  escape_id [] h = refl
  escape_id (c ∷ cs) h = ground (arith, escape_id cs)

  pub length-escape : (cs : Bytes) → length (escape special mark cs) ≡ length cs + count special cs
  length-escape [] = omega arith
  length-escape (c ∷ cs) = ground (arith, length-escape cs)

  -- After the loop the region from `p` up to `ptr2` holds the escaped bytes, and nothing else of
  -- the buffer has changed.
  pub record Spreads (p n ptr2 : ℕ) (b : Buffer) (r : Option Buffer) : Type 0 where
    pub last : Buffer
    pub is_some : r ≡ some last
    pub region : read last.mem p (ptr2 - p) ≡ escape special mark (read b.mem p n)
    pub below : (j : ℕ) → j < p → last.mem j ≡ b.mem j
    pub above : (j : ℕ) → ptr2 ≤ j → last.mem j ≡ b.mem j
    pub same_pos : last.pos ≡ b.pos
    pub same_limit : last.limit ≡ b.limit
    pub same_capacity : last.capacity ≡ b.capacity

  spread_here :
      (k p n ptr2 : ℕ) (b : Buffer)
      → k ≡ p + n
      → ptr2 ≡ k + count special (read b.mem p n)
      → k ≡ ptr2
      → Spreads p n ptr2 b (some b)
  spread_here k p n ptr2 b e c q = record {
    last = b;
    is_some = refl;
    region =
        read_at b.mem p p (ptr2 - p) n refl (omega arith)
        ∙ sym (escape_id (read b.mem p n) (omega arith));
    below = λ j h. refl;
    above = λ j h. refl;
    same_pos = refl;
    same_limit = refl;
    same_capacity = refl;
  }

  -- A round that has put the escape of the last byte at [q, ptr2) leaves the rest of the loop.
  Spreads-grow :
      (p n q ptr2 : ℕ) (b : Buffer) (m : Mem) (r : Option Buffer)
      → p + n ≤ q
      → q ≤ ptr2
      → read m q (ptr2 - q) ≡ escape_byte special mark (b.mem (p + n))
      → ((j : ℕ) → j < q → m j ≡ b.mem j)
      → ((j : ℕ) → ptr2 ≤ j → m j ≡ b.mem j)
      → Spreads p n q (record b { mem = m }) r
      → Spreads p (suc n) ptr2 b r
  Spreads-grow p n q ptr2 b m r pq qp es low high s = record {
    last = s.last;
    is_some = s.is_some;
    region =
        read_at s.last.mem p p (ptr2 - p) ((q - p) + (ptr2 - q)) refl (omega arith)
        ∙ read-append s.last.mem p (q - p) (ptr2 - q)
        ∙ ap (λ t. t ++ read s.last.mem (p + (q - p)) (ptr2 - q)) s.region
        ∙ ap (λ t. escape special mark (read m p n) ++ t) tail
        ∙ ap (λ t. escape special mark t ++ escape_byte special mark (b.mem (p + n))) front
        ∙ sym whole;
    below = λ j h. s.below j h ∙ low j (omega arith);
    above = λ j h. s.above j (omega arith) ∙ high j h;
    same_pos = s.same_pos;
    same_limit = s.same_limit;
    same_capacity = s.same_capacity;
  }
    where
      tail : read s.last.mem (p + (q - p)) (ptr2 - q) ≡ escape_byte special mark (b.mem (p + n))
      tail =
          read_at s.last.mem (p + (q - p)) q (ptr2 - q) (ptr2 - q) (omega arith) refl
          ∙ read_cong s.last.mem m q (ptr2 - q) (λ j lo hi. s.above j lo)
          ∙ es

      front : read m p n ≡ read b.mem p n
      front = read_cong m b.mem p n (λ j lo hi. low j (omega arith))

      whole :
          escape special mark (read b.mem p (suc n))
          ≡ escape special mark (read b.mem p n) ++ escape_byte special mark (b.mem (p + n))
      whole =
          ap (escape special mark) (read-suc b.mem p n)
          ∙ flat_map-append (escape_byte special mark) (read b.mem p n) (b.mem (p + n) ∷ [])
          ∙ ap (λ t. escape special mark (read b.mem p n) ++ t) (append-nil _)

  count-read-suc :
      (m : Mem) (p n : ℕ)
      → count special (read m p (suc n))
        ≡ count special (read m p n) + (if special (m (p + n)) then 1 else 0)
  count-read-suc m p n =
      ap (count special) (read-suc m p n)
      ∙ count-append special (read m p n) (m (p + n) ∷ [])
      ∙ omega arith

  -- What one round stores at a byte that needs no escape, and at one that needs it.
  spread_step_plain :
      (k ptr2 : ℕ) (b : Buffer)
      → special (b.mem k) ≡ false
      → k + 1 < ptr2
      → ptr2 ≤ b.capacity
      → spread_step special mark k ptr2 b
        ≡ some (ptr2 - 1, record b { mem = write b.mem (ptr2 - 1) (b.mem k) })
  unfolding spread_step store_at
  spread_step_plain k ptr2 b s lo hi =
      let kept : write b.mem (ptr2 - 1) (b.mem k) k ≡ b.mem k = ground arith in
      rw (lt→ltb (ptr2 - 1) b.capacity (omega arith), kept, s)

  spread_step_special :
      (k ptr2 : ℕ) (b : Buffer)
      → special (b.mem k) ≡ true
      → k + 1 < ptr2
      → ptr2 ≤ b.capacity
      → spread_step special mark k ptr2 b
        ≡ some (
          ptr2 - 1 - 1,
          record b {
            mem = write (write b.mem (ptr2 - 1) (b.mem k)) (ptr2 - 1 - 1) (mark (b.mem k));
          },
        )
  unfolding spread_step store_at
  spread_step_special k ptr2 b s lo hi =
      let kept : write b.mem (ptr2 - 1) (b.mem k) k ≡ b.mem k = ground arith in
      rw (
        lt→ltb (ptr2 - 1) b.capacity (omega arith),
        kept,
        s,
        lt→ltb (ptr2 - 1 - 1) b.capacity (omega arith),
      )

  -- A round and the rest of the loop, whose result is `rest`.
  spread_plain :
      (k p n ptr2 : ℕ) (b : Buffer)
      → k ≡ p + n
      → ptr2 ≡ suc k + count special (read b.mem p (suc n))
      → k + 1 < ptr2
      → special (b.mem k) ≡ false
      → (r : Option Buffer)
      → Spreads p n (ptr2 - 1) (record b { mem = write b.mem (ptr2 - 1) (b.mem k) }) r
      → Spreads p (suc n) ptr2 b r
  unfolding read
  spread_plain k p n ptr2 b e c lo s r =
      Spreads-grow p n (ptr2 - 1) ptr2 b (write b.mem (ptr2 - 1) (b.mem k)) r (omega arith)
        (omega arith) (read_one _ (ptr2 - 1) _ (omega arith) ∙ ground arith) (λ j h. ground arith)
        (λ j h. ground arith)

  spread_special :
      (k p n ptr2 : ℕ) (b : Buffer)
      → k ≡ p + n
      → ptr2 ≡ suc k + count special (read b.mem p (suc n))
      → k + 1 < ptr2
      → special (b.mem k) ≡ true
      → (r : Option Buffer)
      → Spreads p n
          (ptr2 - 1 - 1)
          (record b {
            mem = write (write b.mem (ptr2 - 1) (b.mem k)) (ptr2 - 1 - 1) (mark (b.mem k));
          })
          r
      → Spreads p (suc n) ptr2 b r
  spread_special k p n ptr2 b e c lo s r =
      Spreads-grow p n (ptr2 - 1 - 1) ptr2 b
        (write (write b.mem (ptr2 - 1) (b.mem k)) (ptr2 - 1 - 1) (mark (b.mem k))) r (omega arith)
        (omega arith) (read_two _ (ptr2 - 1 - 1) _ (omega arith) ∙ ground arith)
        (λ j h. ground arith) (λ j h. ground arith)

  -- The escapes that are left to place.
  rest_count_plain :
      (k p n ptr2 : ℕ) (b : Buffer)
      → k ≡ p + n
      → ptr2 ≡ suc k + count special (read b.mem p (suc n))
      → k + 1 < ptr2
      → special (b.mem k) ≡ false
      → ptr2 - 1 ≡ k + count special (read (write b.mem (ptr2 - 1) (b.mem k)) p n)
  rest_count_plain k p n ptr2 b e c lo s =
      rw (read-write_outside b.mem p n (ptr2 - 1) (b.mem k) (inr (omega arith)))
        (ground (arith, count-read-suc b.mem p n))

  rest_count_special :
      (k p n ptr2 : ℕ) (b : Buffer)
      → k ≡ p + n
      → ptr2 ≡ suc k + count special (read b.mem p (suc n))
      → k + 1 < ptr2
      → special (b.mem k) ≡ true
      → ptr2 - 1 - 1
        ≡ k
          + count special
              (read (write (write b.mem (ptr2 - 1) (b.mem k)) (ptr2 - 1 - 1) (mark (b.mem k))) p n)
  rest_count_special k p n ptr2 b e c lo s =
      rw
        (
          read-write_outside (write b.mem (ptr2 - 1) (b.mem k)) p n (ptr2 - 1 - 1) (mark (b.mem k))
              (inr (omega arith)),
          read-write_outside b.mem p n (ptr2 - 1) (b.mem k) (inr (omega arith)),
        )
        (ground (arith, count-read-suc b.mem p n))

  pub spread-Spreads :
      (k p n ptr2 : ℕ) (b : Buffer)
      → k ≡ p + n
      → ptr2 ≡ k + count special (read b.mem p n)
      → ptr2 ≤ b.capacity
      → Spreads p n ptr2 b (spread special mark k ptr2 b)
  unfolding spread
  spread-Spreads zero p n ptr2 b e c h =
      let q : (0 == ptr2) ≡ true =
        ground (arith, count-le-length special (read b.mem p n), length-read b.mem p n) in
      rw q (spread_here 0 p n ptr2 b e c (ground arith))
  spread-Spreads (suc k) p zero ptr2 b e c h =
      let q : (suc k == ptr2) ≡ true = unfold read in ground arith in
      rw q (spread_here (suc k) p 0 ptr2 b e c (ground arith))
  spread-Spreads (suc k) p (suc n) ptr2 b e c h = elim (Bool-cases (suc k == ptr2)) [
    | inl q ↦ rw q (spread_here (suc k) p (suc n) ptr2 b e c (ground arith))
    | inr q ↦
        let lo : k + 1 < ptr2 = ground arith in
        let k_is : k ≡ p + n = omega arith in
        elim (Bool-cases (special (b.mem k))) [
          | inl s ↦
              rw (q, spread_step_special k ptr2 b s lo h)
                (spread_special k p n ptr2 b k_is c lo s _ (
                  spread-Spreads k p n (ptr2 - 1 - 1) _ k_is
                    (rest_count_special k p n ptr2 b k_is c lo s) (omega arith)))
          | inr s ↦
              rw (q, spread_step_plain k ptr2 b s lo h)
                (spread_plain k p n ptr2 b k_is c lo s _ (
                  spread-Spreads k p n (ptr2 - 1) _ k_is (rest_count_plain k p n ptr2 b k_is c lo s)
                    (omega arith)))
        ]
  ]
