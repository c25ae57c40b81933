-- ===== src/Array/Decode/Ends.antt =====
-- The array decoder on every input, where format errors are raised.
use ruby_pg.Common.{
  ℕ, zero, suc, ◌+◌, ◌≤◌, ◌<◌, Bool, true, false, not, ◌||◌, Option, some, [], ◌∷◌, Bytes, length,
  Mem, ◌==◌, Outcome, ok, raises, fault, and_then, and_then-ne-fault, ok-ne-fault, raises-ne-fault,
  if-ne-fault, ◌≡◌, ◌≢◌, refl, ap, arith, if_intro,
}
use ruby_pg.Array.{Entry, Entries, stop, array}
use ruby_pg.Array.Decode.{
  ArrayDecoder, Cursor, at, OpenQuote, never, inside, was_quoted, is_inside, Reading, pushed,
  reading, parser_error, start_array, store_word, end_word, read_items, read_array_without_dim,
  skip, peek, behind, array_isspace, array_isdim, all, read_dims, skip_assignment, check_trailing,
  end_array, open_array, dec_array,
}

-- A call returns or raises. Where it returns, the index stands at a closing brace, and `n` bytes at
-- most are left.
abbrev Closes : {V : Type 0} → ℕ → Outcome (Reading V) → Type 0
Closes n (ok r) = (rest : Bytes) × (r.cursor ≡ at (b'}' ∷ rest)) × (suc (length rest) ≤ n)
Closes n (raises e) = Unit
Closes n fault = ⊥

Closes-more : {V : Type 0} (n m : ℕ) (r : Outcome (Reading V)) → n ≤ m → Closes n r → Closes m r
Closes-more n m (ok r) le (rest, e, h) = (rest, e, omega arith)
Closes-more n m (raises e) le h = tt
Closes-more n m fault le h = absurd h

Closes-bind :
    {V : Type 0} (n m : ℕ) (r : Outcome (Reading V)) (f : Reading V → Outcome (Reading V))
    → Closes n r
    → ((s : Reading V) (rest : Bytes)
        → s.cursor ≡ at (b'}' ∷ rest)
        → suc (length rest) ≤ n
        → Closes m (f s))
    → Closes m (and_then r f)
Closes-bind n m (ok s) f (rest, e, h) g = g s rest e h
Closes-bind n m (raises e) f h g = tt
Closes-bind n m fault f h g = absurd h

Closes-value :
    {A V : Type 0} (m : ℕ) (r : Outcome A) (f : A → Outcome (Reading V))
    → r ≢ fault
    → ((v : A) → Closes m (f v))
    → Closes m (and_then r f)
Closes-value m (ok v) f h g = g v
Closes-value m (raises e) f h g = tt
Closes-value m fault f h g = absurd (h refl)

skip-le : (p : ℕ → Bool) (prev : ℕ) (cur : Bytes) → length (skip p prev cur).1 ≤ length cur
skip-le p prev [] = omega arith
skip-le p prev (c ∷ cur) = ground (arith, skip-le p c cur)

behind-le : (cur : Bytes) → length (behind cur) ≤ length cur
behind-le [] = omega arith
behind-le (c ∷ cur) = omega arith

behind-lt : (cur : Bytes) → not (peek cur == b']') ≡ false → length (behind cur) < length cur
behind-lt [] h = absurd (ground arith)
behind-lt (c ∷ cur) h = omega arith

module _ {V : Type 0} (this : ArrayDecoder V) (strict : this.to_raise ≡ true)
    (sound : (cs : Bytes) → this.decode_elem cs ≢ fault) where
  Closes-parser_error : (n : ℕ) (r : Outcome (Reading V)) → Closes n (parser_error this r)
  Closes-parser_error n r = rw strict tt

  store_word-ne-fault :
      (size : ℕ) (w : Mem) (i c : ℕ) → i ≤ size → store_word this size w i c ≢ fault
  unfolding store_word
  store_word-ne-fault size w i c h = ground arith

  end_word-ne-fault :
      (size : ℕ) (q : OpenQuote) (esc : Bool) (w : Mem) (i : ℕ)
      → i ≤ size
      → end_word this size q esc w i ≢ fault
  unfolding end_word
  end_word-ne-fault size q esc w i h = if-ne-fault esc _ _ ok-ne-fault (
      if-ne-fault _ _ _ ok-ne-fault (
        and_then-ne-fault (store_word this size w i 0) _ (store_word-ne-fault size w i 0 h)
          (λ w'. and_then-ne-fault (this.decode_elem _) _ (sound _) (λ v. ok-ne-fault))))

  -- Where the character is a closing brace.
  Closes-reading :
      (items : Entries V) (c : ℕ) (cur : Bytes) (w : Mem)
      → (c == b'}') ≡ true
      → Closes (suc (length cur)) (reading items (at (c ∷ cur)) w)
  Closes-reading items c cur w h =
      let brace : c ≡ b'}' = ground arith in (cur, ap (λ d. at (d ∷ cur)) brace, omega arith)

  Closes-start_array :
      (cur : Bytes) (w : Mem) (r : Outcome (Reading V))
      → Closes (length cur) r
      → Closes (length cur) (start_array (at cur) w r)
  Closes-start_array [] w r h = h
  Closes-start_array (d ∷ cur) w r h =
      if_intro (Closes {V = V} (suc (length cur))) (d == b'}')
        (λ brace. Closes-reading stop d cur w brace) (λ _. h)

  Closes-pushed :
      (n : ℕ) (p : Option (Entry V)) (r : Outcome (Reading V))
      → Closes n r
      → Closes n (and_then r (λ s. reading (pushed p s.items) s.cursor s.word))
  Closes-pushed n p (ok s) h = h
  Closes-pushed n p (raises e) h = tt
  Closes-pushed n p fault h = absurd h

  -- The word is never longer than what has been read of the input.
  Closes-read_items :
      (f size : ℕ) (q : OpenQuote) (esc : Bool) (w : Mem) (i : ℕ) (cur : Bytes)
      → length cur < f
      → i + length cur ≤ size
      → Closes (length cur) (read_items this f size q esc w i (at cur))
  unfolding read_items
  Closes-read_items zero size q esc w i cur h le = absurd (omega arith)
  Closes-read_items (suc f) size q esc w i [] h le = Closes-parser_error 0 _
  Closes-read_items (suc f) size q esc w i (c ∷ cur) h le =
      let n = suc (length cur) in
      let P = Closes {V = V} n in
      let again =
        λ (q' : OpenQuote) (esc' : Bool) (w' : Mem) (i' : ℕ) (le' : i' + length cur ≤ size).
          Closes-more (length cur) n (read_items this f size q' esc' w' i' (at cur)) (omega arith)
            (Closes-read_items f size q' esc' w' i' cur (omega arith) le') in
      let stored = λ (esc' : Bool).
        Closes-value n (store_word this size w i c)
          (λ w'. read_items this f size q esc' w' (i + 1) (at cur))
          (store_word-ne-fault size w i c (omega arith))
          (λ w'. again q esc' w' (i + 1) (omega arith)) in
      if_intro P (not (is_inside q))
        (λ _.
          if_intro P (c == this.delimiter || c == b'}')
            (λ _.
              Closes-value n (end_word this size q esc w i) _
                (end_word-ne-fault size q esc w i (omega arith))
                (λ p.
                  if_intro P (c == b'}') (λ brace. Closes-reading (pushed p.0 stop) c cur p.1 brace)
                    (λ _. Closes-pushed n p.0 _ (again never false p.1 0 (omega arith)))))
            (λ _.
              if_intro P (c == b'"') (λ _. again inside esc w i (omega arith))
                (λ _.
                  if_intro P (c == b'{')
                    (λ _.
                      Closes-bind (length cur) n
                        (start_array (at cur) w (read_items this f size never false w 0 (at cur))) _
                        (Closes-start_array cur w _ (
                          Closes-read_items f size never false w 0 cur (omega arith) (omega arith)))
                        (λ sub rest e short. rw e (
                          Closes-pushed n (some (array sub.items)) _ (
                            Closes-more (length rest) n
                              (read_items this f size q true sub.word i (at rest)) (omega arith)
                              (Closes-read_items f size q true sub.word i rest (omega arith)
                                (omega arith))))))
                    (λ _. if_intro P (c == 0) (λ _. Closes-parser_error n _) (λ _. stored esc)))))
        (λ _.
          if_intro P esc (λ _. stored false)
            (λ _.
              if_intro P (c == b'\\') (λ _. again q true w i (omega arith))
                (λ _.
                  if_intro P (c == b'"') (λ _. again was_quoted esc w i (omega arith))
                    (λ _. stored false))))

  -- The loop over dimensions ends, and goes no further than the null byte.
  Leaves : ℕ → Outcome (ℕ × Bytes × ℕ) → Type 0
  Leaves n (ok d) = length d.1 ≤ n
  Leaves n (raises e) = Unit
  Leaves n fault = ⊥

  Leaves-read_dims :
      (f prev : ℕ) (cur : Bytes) (ndim n : ℕ)
      → length cur < f
      → length cur ≤ n
      → Leaves n (read_dims this f prev cur ndim)
  unfolding read_dims Leaves
  Leaves-read_dims zero prev cur ndim n h le = absurd (omega arith)
  Leaves-read_dims (suc f) prev cur ndim n h le =
      let s = skip array_isspace prev cur in
      let d = skip array_isdim b'[' (behind s.1) in
      let s_le = skip-le array_isspace prev cur in
      let d_le = skip-le array_isdim b'[' (behind s.1) in
      if_intro (Leaves n) (not (peek s.1 == b'[')) (λ _. omega arith)
        (λ _.
          if_intro (Leaves n) (not (peek d.1 == b']')) (λ _. rw strict tt)
            (λ close.
              let shorter = behind-lt d.1 close in
              Leaves-read_dims f b']' (behind d.1) (ndim + 1) n (omega (arith, behind-le s.1))
                (omega (arith, behind-le s.1))))

  Points : ℕ → Outcome Cursor → Type 0
  Points n (ok cursor) = (cs : Bytes) × (cursor ≡ at cs) × (length cs ≤ n)
  Points n (raises e) = Unit
  Points n fault = ⊥

  Points-skip_assignment :
      (n : ℕ) (d : ℕ × Bytes × ℕ) → length d.1 ≤ n → Points n (skip_assignment this d)
  unfolding skip_assignment Points
  Points-skip_assignment n (prev, cur, ndim) h =
      if_intro (Points n) (ndim == 0) (λ _. (cur, refl, h))
        (λ _.
          if_intro (Points n) (not (peek cur == b'=')) (λ _. rw strict tt)
            (λ _. (
              (skip array_isspace b'=' (behind cur)).1,
              refl,
              omega (arith, skip-le array_isspace b'=' (behind cur), behind-le cur),
            )))

  Closes-open_array :
      (size : ℕ) (cs : Bytes) → length cs ≤ size → Closes size (open_array this size (at cs))
  unfolding open_array read_array_without_dim
  Closes-open_array size [] h = Closes-parser_error size _
  Closes-open_array size (c ∷ cs) h =
      if_intro (Closes {V = V} size) (c == b'{')
        (λ _.
          Closes-more (length cs) size
            (start_array (at cs) (λ _. 0)
              (read_items this (suc size) size never false (λ _. 0) 0 (at cs)))
            (omega arith)
            (Closes-start_array cs (λ _. 0) _
              (Closes-read_items (suc size) size never false (λ _. 0) 0 cs (omega arith)
                (omega arith))))
        (λ _. Closes-parser_error size _)

  end_array-ne-fault :
      (n : ℕ) (r : Reading V) (rest : Bytes)
      → r.cursor ≡ at (b'}' ∷ rest)
      → end_array this r ≢ fault
  unfolding end_array check_trailing
  end_array-ne-fault n r rest e =
      rw e (if-ne-fault (all array_isspace rest) _ _ ok-ne-fault (raised (ok r.items)))
    where
      raised : (after : Outcome (Entries V)) → parser_error this after ≢ fault
      raised after = rw strict raises-ne-fault

  -- If format errors are raised and the element decoder returns or raises, the array decoder ends on
  -- every input with an Array or an exception: it reads no byte behind the terminator, and the word
  -- stays within its buffer, which is as long as the input.
  pub dec_array-ne-fault : (s : Bytes) → dec_array this s ≢ fault
  unfolding dec_array Leaves Points
  dec_array-ne-fault s =
      from_dims (read_dims this (suc (length s)) 0 s 0)
        (Leaves-read_dims (suc (length s)) 0 s 0 (length s) (omega arith) (omega arith))
    where
      from_reading :
          (r : Outcome (Reading V)) → Closes (length s) r → and_then r (end_array this) ≢ fault
      from_reading (ok r) (rest, e, h) = end_array-ne-fault (length s) r rest e
      from_reading (raises e) h = raises-ne-fault
      from_reading fault h = absurd h

      from_cursor :
          (c : Outcome Cursor)
          → Points (length s) c
          → and_then c (λ cursor. and_then (open_array this (length s) cursor) (end_array this))
            ≢ fault
      from_cursor (ok cursor) (cs, e, h) =
          rw e
            (from_reading (open_array this (length s) (at cs)) (Closes-open_array (length s) cs h))
      from_cursor (raises e) h = raises-ne-fault
      from_cursor fault h = absurd h

      from_dims :
          (d : Outcome (ℕ × Bytes × ℕ))
          → Leaves (length s) d
          → and_then d (λ dims.
            and_then
              (skip_assignment this dims)
              (λ cursor. and_then (open_array this (length s) cursor) (end_array this)))
            ≢ fault
      from_dims (ok d) h =
          from_cursor (skip_assignment this d) (Points-skip_assignment (length s) d h)
      from_dims (raises e) h = raises-ne-fault
      from_dims fault h = absurd h
