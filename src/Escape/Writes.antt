-- ===== src/Escape/Writes.antt =====
-- Both escaping loops append the escaped bytes, and neither stores outside the buffer.
use ruby_pg.Common.{
  ℕ, suc, ◌+◌, ◌-◌, ◌*◌, ◌≤◌, Bool, Option, some, [], ◌∷◌, ◌++◌, Bytes, read, fill, length,
  if◌then◌else◌, ◌>>=◌, ◌≡◌, refl, ap, ◌∙◌, arith, read-append, read-fill, fill_outside, inl, inr,
  read_cong, Bool-cases, count, read_at, count-le-length,
}
use ruby_pg.Buffer.{Buffer, text, put}
use ruby_pg.Buffer.Writes.{
  place-fill, HasRoom, Writes, HasRoom-weaken, Writes-nothing, Writes-put, Writes-bind, Writes-eq,
}
use ruby_pg.Escape.{escape_byte, escape, escape_forward, place_escaped}
use ruby_pg.Escape.Spread.{Spreads, spread-Spreads}

module _ (special : ℕ → Bool) (mark : ℕ → ℕ) where
  Writes-mark :
      {n : ℕ} (c : ℕ) {b : Buffer}
      → HasRoom (suc n) b
      → Writes n
          (if special c then mark c ∷ [] else [])
          b
          (if special c then put (mark c) b else some b)
  Writes-mark {n} c {b} h = elim (Bool-cases (special c)) [
    | inl s ↦ rw s (Writes-put (mark c) h)
    | inr s ↦ rw s (Writes-nothing (HasRoom-weaken n (omega arith) h))
  ]

  pub Writes-escape_forward :
      {n : ℕ} (cs : Bytes) {b : Buffer}
      → HasRoom (length cs * 2 + n) b
      → Writes n (escape special mark cs) b (escape_forward special mark cs b)
  unfolding escape_forward
  Writes-escape_forward {n} [] h = Writes-nothing (HasRoom-weaken n (omega arith) h)
  Writes-escape_forward {n} (c ∷ cs) {b} h = Writes-eq (split c) (
      Writes-bind (length cs * 2 + n + 1) _ (Writes-mark c (HasRoom-weaken _ (omega arith) h))
        (λ b' r.
          Writes-bind (length cs * 2 + n) _ (Writes-put c (HasRoom-weaken _ (omega arith) r))
            (λ b'' r'. Writes-escape_forward cs r')))
    where
      split :
          (c : ℕ)
          → (if special c then mark c ∷ [] else []) ++ (c ∷ [] ++ escape special mark cs)
            ≡ escape_byte special mark c ++ escape special mark cs
      split c = ground arith

  -- The loop's result as an appended text: the bytes before `current_out` stay.
  Writes-Spreads :
      {n : ℕ} (cs : Bytes) (end : ℕ) {b : Buffer} {r : Option Buffer}
      → HasRoom (length cs * 2 + n) b
      → end ≡ b.pos + length cs + count special cs
      → Spreads special mark b.pos (length cs) end (record b { mem = fill b.mem b.pos cs }) r
      → Writes n (escape special mark cs) b (r >>= λ b'. some (record b' { pos = end }))
  Writes-Spreads {n} cs end {b} h e s = record {
    last = record (s.last) { pos = end };
    is_some = rw s.is_some;
    text_is =
        read_at s.last.mem 0 0 end (b.pos + (end - b.pos)) refl (omega arith)
        ∙ read-append s.last.mem 0 b.pos (end - b.pos)
        ∙ ap (λ t. t ++ read s.last.mem (0 + b.pos) (end - b.pos)) front
        ∙ ap (λ t. text b ++ t) back;
    has_room = record {
      room = omega (arith, s.same_capacity, h.room, count-le-length special cs);
      limited = omega (arith, s.same_limit, s.same_capacity, h.limited);
    };
  }
    where
      front : read s.last.mem 0 b.pos ≡ text b
      front =
          read_cong s.last.mem b.mem 0 b.pos
            (λ j lo hi. s.below j (omega arith) ∙ fill_outside cs b.mem b.pos j (inl (omega arith)))

      back : read s.last.mem (0 + b.pos) (end - b.pos) ≡ escape special mark cs
      back =
          read_at s.last.mem (0 + b.pos) b.pos (end - b.pos) (end - b.pos) (omega arith) refl
          ∙ s.region
          ∙ ap (escape special mark) (read-fill cs b.mem b.pos)

  pub Writes-place_escaped :
      {n : ℕ} (cs : Bytes) {b : Buffer}
      → HasRoom (length cs * 2 + n) b
      → Writes n (escape special mark cs) b (place_escaped special mark cs b)
  unfolding place_escaped
  Writes-place_escaped {n} cs {b} h =
      let m = fill b.mem b.pos cs in
      let end = b.pos + length cs + count special (read m b.pos (length cs)) in
      let e : end ≡ b.pos + length cs + count special cs = rw (read-fill cs b.mem b.pos) in
      let fits : end ≤ b.capacity = omega (arith, e, h.room, count-le-length special cs) in
      rw (place-fill cs b (omega (arith, h.room))) (
        Writes-Spreads cs end h e (
          spread-Spreads special mark (b.pos + length cs) b.pos (length cs) end
            (record b { mem = m }) refl refl fits))
