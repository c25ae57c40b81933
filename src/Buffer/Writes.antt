-- ===== src/Buffer/Writes.antt =====
-- A postcondition for code that writes to a buffer: it makes no store outside the capacity, appends
-- these bytes and leaves so much room.
use ruby_pg.Common.{
  fill, ℕ, suc, ◌+◌, ◌-◌, ◌*◌, ◌≤◌, Option, some, [], ◌∷◌, ◌++◌, Bytes, write, length, ◌>>=◌, ◌≡◌,
  refl, sym, ap, ◌∙◌, arith, append_assoc, append-nil, read-write_end,
}
use ruby_pg.Buffer.{
  Allocator, Buffer, text, str_new, str_ensure_capa, ensure_capa, put, put_all, place,
}

-- At least n more bytes fit, and the end pointer is not past the end.
pub record HasRoom (n : ℕ) (b : Buffer) : Type 0 where
  pub room : b.pos + n ≤ b.capacity
  pub limited : b.limit ≤ b.capacity

pub record Writes (n : ℕ) (cs : Bytes) (b : Buffer) (r : Option Buffer) : Type 0 where
  pub last : Buffer
  pub is_some : r ≡ some last
  pub text_is : text last ≡ text b ++ cs
  pub has_room : HasRoom n last

pub HasRoom-weaken : {n : ℕ} (k : ℕ) {b : Buffer} → k ≤ n → HasRoom n b → HasRoom k b
HasRoom-weaken k h r = record { room = omega (arith, r.room); limited = r.limited }

pub Writes-nothing : {n : ℕ} {b : Buffer} → HasRoom n b → Writes n [] b (some b)
Writes-nothing {n} {b} h = record {
  last = b;
  is_some = refl;
  text_is = sym (append-nil _);
  has_room = h;
}

pub Writes-put : {n : ℕ} (c : ℕ) {b : Buffer} → HasRoom (suc n) b → Writes n (c ∷ []) b (put c b)
unfolding put
Writes-put {n} c {b} h = record {
  last = record b { mem = write b.mem b.pos c; pos = b.pos + 1 };
  is_some = ground (arith, h.room);
  text_is = read-write_end b.mem 0 b.pos b.pos c (omega arith);
  has_room = record { room = omega (arith, h.room); limited = h.limited };
}

-- The rule for `m >>= f`.
pub Writes-bind :
    {k : ℕ} (n : ℕ) {cs ds : Bytes} {b : Buffer} {m : Option Buffer} (f : Buffer → Option Buffer)
    → Writes n cs b m
    → ((b' : Buffer) → HasRoom n b' → Writes k ds b' (f b'))
    → Writes k (cs ++ ds) b (m >>= f)
Writes-bind n {cs} {ds} {b} f w g =
    let v = g w.last w.has_room in
    record {
      last = v.last;
      is_some = cc (w.is_some, v.is_some);
      text_is = v.text_is ∙ ap (λ t. t ++ ds) w.text_is ∙ append_assoc (text b) cs ds;
      has_room = v.has_room;
    }

-- The bytes may be written in another way.
pub Writes-eq :
    {n : ℕ} {cs ds : Bytes} {b : Buffer} {r : Option Buffer}
    → cs ≡ ds
    → Writes n cs b r
    → Writes n ds b r
Writes-eq {n} {b = b} {r = r} e w = record {
  last = w.last;
  is_some = w.is_some;
  text_is = w.text_is ∙ ap (λ t. text b ++ t) e;
  has_room = w.has_room;
}

pub Writes-put_all :
    {n : ℕ} (cs : Bytes) {b : Buffer} → HasRoom (length cs + n) b → Writes n cs b (put_all cs b)
unfolding put_all
Writes-put_all {n} [] h = Writes-nothing (HasRoom-weaken n (omega arith) h)
Writes-put_all {n} (c ∷ cs) h =
    Writes-bind (length cs + n) (put_all cs) (Writes-put c (HasRoom-weaken _ (omega arith) h))
      (λ b' r. Writes-put_all cs r)

-- Bytes that fit are placed.
pub place-fill :
    (cs : Bytes) (b : Buffer)
    → b.pos + length cs ≤ b.capacity
    → place cs b ≡ some (record b { mem = fill b.mem b.pos cs })
unfolding place
place-fill cs b h = ground arith

module _ (a : Allocator) where
  pub HasRoom-str_new : HasRoom 0 (str_new a)
  unfolding str_new
  HasRoom-str_new = record { room = omega arith; limited = omega arith }

  pub HasRoom-str_ensure_capa :
      (n k : ℕ) (b : Buffer) → HasRoom k b → HasRoom n (str_ensure_capa a n b)
  unfolding str_ensure_capa
  HasRoom-str_ensure_capa n k b h =
      ground (arith, a.expand_room b.pos b.capacity ((b.pos + n) * 2 - b.capacity))

  -- Asking for n bytes gives them, and changes no byte that was written.
  pub HasRoom-ensure_capa : (n k : ℕ) (b : Buffer) → HasRoom k b → HasRoom n (ensure_capa a n b)
  unfolding ensure_capa
  HasRoom-ensure_capa n k b h =
      ground (arith, a.expand_room b.pos b.capacity ((b.pos + n) * 2 - b.capacity), h.room)

  pub text-ensure_capa : (n : ℕ) (b : Buffer) → text (ensure_capa a n b) ≡ text b
  unfolding ensure_capa
  text-ensure_capa n b = ground arith

  pub text-str_ensure_capa : (n : ℕ) (b : Buffer) → text (str_ensure_capa a n b) ≡ text b
  unfolding str_ensure_capa
  text-str_ensure_capa n b = refl

  -- The rule for a write after a request for room.
  pub Writes-ensure_capa :
      {m : ℕ} (n k : ℕ) {cs : Bytes} {b : Buffer} (f : Buffer → Option Buffer)
      → HasRoom k b
      → ((b' : Buffer) → HasRoom n b' → Writes m cs b' (f b'))
      → Writes m cs b (f (ensure_capa a n b))
  Writes-ensure_capa n k {cs} {b} f h g =
      let v = g (ensure_capa a n b) (HasRoom-ensure_capa n k b h) in
      record {
        last = v.last;
        is_some = v.is_some;
        text_is = v.text_is ∙ ap (λ t. t ++ cs) (text-ensure_capa n b);
        has_room = v.has_room;
      }

  pub Writes-str_ensure_capa :
      {m : ℕ} (n k : ℕ) {cs : Bytes} {b : Buffer} (f : Buffer → Option Buffer)
      → HasRoom k b
      → ((b' : Buffer) → HasRoom n b' → Writes m cs b' (f b'))
      → Writes m cs b (f (str_ensure_capa a n b))
  Writes-str_ensure_capa n k {cs} {b} f h g =
      let v = g (str_ensure_capa a n b) (HasRoom-str_ensure_capa n k b h) in
      record {
        last = v.last;
        is_some = v.is_some;
        text_is = v.text_is ∙ ap (λ t. t ++ cs) (text-str_ensure_capa n b);
        has_room = v.has_room;
      }
