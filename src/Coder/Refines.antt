-- ===== src/Coder/Refines.antt =====
-- Buffer code against a description of the bytes that it appends, errors included.
use ruby_pg.Common.{
  ℕ, Option, [], ◌++◌, Bytes, ◌≡◌, refl, ap, Outcome, ok, raises, fault, and_then, checked, ◌∙◌,
  append_assoc,
}
use ruby_pg.Buffer.{Buffer, text}
use ruby_pg.Buffer.Writes.{HasRoom, Writes}

-- The code appends the described bytes with no fault and leaves room for n more, or does what a
-- callee did that raised or faulted.
abbrev pub RefinesRoom : ℕ → Outcome Bytes → Buffer → Outcome Buffer → Type 0
RefinesRoom n (ok cs) b r = (o : Option Buffer) × (r ≡ checked o) × Writes n cs b o
RefinesRoom n (raises e) b r = r ≡ raises e
RefinesRoom n fault b r = r ≡ fault

abbrev pub Refines : Outcome Bytes → Buffer → Outcome Buffer → Type 0
Refines = RefinesRoom 0

-- The description of two pieces of code in a row.
abbrev pub join : Outcome Bytes → Outcome Bytes → Outcome Bytes
join s t = and_then s (λ x. and_then t (λ y. ok (x ++ y)))

pub RefinesRoom-Writes :
    {n : ℕ} {cs : Bytes} {b : Buffer} {o : Option Buffer}
    → Writes n cs b o
    → RefinesRoom n (ok cs) b (checked o)
RefinesRoom-Writes {o = o} w = (o, refl, w)

pub Refines-Writes :
    {cs : Bytes} {b : Buffer} {o : Option Buffer} → Writes 0 cs b o → Refines (ok cs) b (checked o)
Refines-Writes w = RefinesRoom-Writes w

pub RefinesRoom-bind :
    (n k : ℕ) (s t : Outcome Bytes) (b : Buffer) (m : Outcome Buffer) (f : Buffer → Outcome Buffer)
    → RefinesRoom n s b m
    → ((b' : Buffer) → HasRoom n b' → RefinesRoom k t b' (f b'))
    → RefinesRoom k (join s t) b (and_then m f)
RefinesRoom-bind n k (ok cs) (ok ds) b m f (o, e, w) g =
    let (o', e', w') = g w.last w.has_room in
    (
      o',
      rw (e, w.is_some) e',
      record {
        last = w'.last;
        is_some = w'.is_some;
        text_is = w'.text_is ∙ ap (λ t. t ++ ds) w.text_is ∙ append_assoc (text b) cs ds;
        has_room = w'.has_room;
      },
    )
RefinesRoom-bind n k (ok cs) (raises e') b m f (o, e, w) g = rw (e, w.is_some) (g w.last w.has_room)
RefinesRoom-bind n k (ok cs) fault b m f (o, e, w) g = rw (e, w.is_some) (g w.last w.has_room)
RefinesRoom-bind n k (raises e) t b m f h g = rw h
RefinesRoom-bind n k fault t b m f h g = rw h

pub Refines-bind :
    (s t : Outcome Bytes) (b : Buffer) (m : Outcome Buffer) (f : Buffer → Outcome Buffer)
    → Refines s b m
    → ((b' : Buffer) → HasRoom 0 b' → Refines t b' (f b'))
    → Refines (join s t) b (and_then m f)
Refines-bind s t b m f h g = RefinesRoom-bind 0 0 s t b m f h g

-- The rule for a value that is computed first.
pub Refines-value :
    {A : Type 0} (v : Outcome A) (s : A → Outcome Bytes) (b : Buffer) (f : A → Outcome Buffer)
    → ((a : A) → v ≡ ok a → Refines (s a) b (f a))
    → Refines (and_then v s) b (and_then v f)
Refines-value (ok a) s b f h = h a refl
Refines-value (raises e) s b f h = refl
Refines-value fault s b f h = refl

-- A whole encoder: it starts with an empty String and returns its text.
pub Refines-run :
    (s : Outcome Bytes) (b : Buffer) (m : Outcome Buffer)
    → text b ≡ []
    → Refines s b m
    → and_then m (λ b'. ok (text b')) ≡ s
Refines-run (ok cs) b m empty (o, e, w) =
    rw (e, w.is_some) (ap ok (w.text_is ∙ ap (λ t. t ++ cs) empty))
Refines-run (raises e) b m empty h = rw h
Refines-run fault b m empty h = rw h

pub and_then_assoc :
    {A B C : Type 0} (m : Outcome A) (f : A → Outcome B) (g : B → Outcome C)
    → and_then (and_then m f) g ≡ and_then m (λ x. and_then (f x) g)
and_then_assoc (ok a) f g = refl
and_then_assoc (raises e) f g = refl
and_then_assoc fault f g = refl

-- Both parts of a description that gives bytes give bytes.
pub join-eq-ok :
    (s t : Outcome Bytes) {cs : Bytes}
    → join s t ≡ ok cs
    → (x y : Bytes) × (s ≡ ok x) × (t ≡ ok y) × (cs ≡ x ++ y)
join-eq-ok (ok x) (ok y) h = (x, y, refl, refl, cc)
join-eq-ok (ok x) (raises e) h = cc
join-eq-ok (ok x) fault h = cc
join-eq-ok (raises e) t h = cc
join-eq-ok fault t h = cc

-- The end pointer is no part of what has been written.
pub RefinesRoom-limit :
    (n l : ℕ) (s : Outcome Bytes) (b : Buffer) (r : Outcome Buffer)
    → RefinesRoom n s (record b { limit = l }) r
    → RefinesRoom n s b r
RefinesRoom-limit n l (ok cs) b r (o, e, w) = (
  o,
  e,
  record { last = w.last; is_some = w.is_some; text_is = w.text_is; has_room = w.has_room },
)
RefinesRoom-limit n l (raises e) b r h = h
RefinesRoom-limit n l fault b r h = h
