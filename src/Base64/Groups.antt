-- ===== src/Base64/Groups.antt =====
-- The loop over whole groups of the base64 encoder of ext/pg_util.c, against a description of
-- base64 that goes forwards.
use ruby_pg.Common.{
  ℕ, zero, suc, ◌+◌, ◌*◌, ◌≤◌, ◌<◌, [], ◌∷◌, ◌++◌, Bytes, length, Mem, read, ◌≡◌, ◌⊎◌, inr, refl,
  sym, ap, ◌∙◌, arith, append_assoc, read_at, read_cong, read-append, length-read, append-nil,
}
use ruby_pg.Base64.{sextet, triple_of, write4, encode_groups, encoded_size}

-- The characters of a whole group.
abbrev pub group : ℕ → ℕ → ℕ → Bytes
group a b c = let t = triple_of a b c in sextet t 3 ∷ sextet t 2 ∷ sextet t 1 ∷ sextet t 0 ∷ []

-- Base64 of a text, group by group from the left, with padding.
unfoldable pub base64 : Bytes → Bytes
base64 [] = []
base64 (a ∷ []) = let t = triple_of a 0 0 in sextet t 3 ∷ sextet t 2 ∷ b'=' ∷ b'=' ∷ []
base64 (a ∷ b ∷ []) = let t = triple_of a b 0 in sextet t 3 ∷ sextet t 2 ∷ sextet t 1 ∷ b'=' ∷ []
base64 (a ∷ b ∷ c ∷ rest) = group a b c ++ base64 rest

pub length-base64 : (cs : Bytes) → length (base64 cs) ≡ encoded_size (length cs)
unfolding base64 encoded_size
length-base64 [] = refl
length-base64 (a ∷ []) = refl
length-base64 (a ∷ b ∷ []) = refl
length-base64 (a ∷ b ∷ c ∷ rest) = omega (arith, length-base64 rest)

-- Whole groups in front can be encoded by themselves.
pub base64-append :
    (k : ℕ) (xs ys : Bytes) → length xs ≡ 3 * k → base64 (xs ++ ys) ≡ base64 xs ++ base64 ys
unfolding base64
base64-append k [] ys e = refl
base64-append k (a ∷ []) ys e = absurd (omega arith)
base64-append k (a ∷ b ∷ []) ys e = absurd (omega arith)
base64-append zero (a ∷ b ∷ c ∷ xs) ys e = absurd (omega arith)
base64-append (suc k) (a ∷ b ∷ c ∷ xs) ys e =
    ap (λ t. group a b c ++ t) (base64-append k xs ys (omega arith))
    ∙ sym (append_assoc (group a b c) (base64 xs) (base64 ys))

base64-group : (a b c : ℕ) → base64 (a ∷ b ∷ c ∷ []) ≡ group a b c
unfolding base64
base64-group a b c = append-nil (group a b c)

-- The input stands at or before the output, or behind it.
abbrev pub MayOverlap : ℕ → ℕ → ℕ → Type 0
MayOverlap out inp len = (inp ≤ out) ⊎ (out + encoded_size len ≤ inp)

read_three : (m : Mem) (p n : ℕ) → n ≡ 3 → read m p n ≡ m p ∷ m (p + 1) ∷ m (p + 2) ∷ []
unfolding read
read_three m p n e =
    read_at m p p n 3 refl e
    ∙ ap (λ q. m p ∷ m (p + 1) ∷ m q ∷ []) (let e' : p + 1 + 1 ≡ p + 2 = omega arith in e')

read_four : (m : Mem) (p n : ℕ) → n ≡ 4 → read m p n ≡ m p ∷ m (p + 1) ∷ m (p + 2) ∷ m (p + 3) ∷ []
unfolding read
read_four m p n e =
    read_at m p p n 4 refl e
    ∙ ap (λ q. m p ∷ m (p + 1) ∷ m q ∷ m (q + 1) ∷ [])
        (let e' : p + 1 + 1 ≡ p + 2 = omega arith in e')
    ∙ ap (λ q. m p ∷ m (p + 1) ∷ m (p + 2) ∷ m q ∷ [])
        (let e' : p + 2 + 1 ≡ p + 3 = omega arith in e')

pub read-write4 :
    (m : Mem) (p n c0 c1 c2 c3 : ℕ)
    → n ≡ 4
    → read (write4 m p c0 c1 c2 c3) p n ≡ c0 ∷ c1 ∷ c2 ∷ c3 ∷ []
read-write4 m p n c0 c1 c2 c3 e = read_four (write4 m p c0 c1 c2 c3) p n e ∙ ground arith

pub write4_outside :
    (m : Mem) (p j c0 c1 c2 c3 : ℕ) → (j < p) ⊎ (p + 4 ≤ j) → write4 m p c0 c1 c2 c3 j ≡ m j
write4_outside m p j c0 c1 c2 c3 h = ground arith

-- The memory after one round: the characters of the k-th group are in place.
pub record Encodes (k : ℕ) (m : Mem) (out inp : ℕ) (m' : Mem) : Type 0 where
  pub written : read m' out (4 * k) ≡ base64 (read m inp (3 * k))
  pub kept : (j : ℕ) → (j < out) ⊎ (out + 4 * k ≤ j) → m' j ≡ m j

-- A group stored at the end of the output, and the rest of the loop before it.
Encodes-suc :
    (k : ℕ) (m m1 m' : Mem) (out inp : ℕ)
    → (inp ≤ out) ⊎ (out + 4 * suc k ≤ inp)
    → read m1 (out + 4 * k) 4 ≡ group (m (inp + 3 * k)) (m (inp + 3 * k + 1)) (m (inp + 3 * k + 2))
    → ((j : ℕ) → (j < out + 4 * k) ⊎ (out + 4 * k + 4 ≤ j) → m1 j ≡ m j)
    → Encodes k m1 out inp m'
    → Encodes (suc k) m out inp m'
Encodes-suc k m m1 m' out inp o stored same rest = record {
  written =
      read_at m' out out (4 * suc k) (4 * k + 4) refl (omega arith)
      ∙ read-append m' out (4 * k) 4
      ∙ ap (λ t. t ++ read m' (out + 4 * k) 4) (rest.written ∙ ap base64 input)
      ∙ ap (λ t. base64 (read m inp (3 * k)) ++ t) (last ∙ stored)
      ∙ sym whole;
  kept = λ j h. rest.kept j (outer j h) ∙ same j (outside j h);
}
  where
    input : read m1 inp (3 * k) ≡ read m inp (3 * k)
    input = read_cong m1 m inp (3 * k) (λ j lo hi. same j (ground arith))

    last : read m' (out + 4 * k) 4 ≡ read m1 (out + 4 * k) 4
    last = read_cong m' m1 (out + 4 * k) 4 (λ j lo hi. rest.kept j (inr lo))

    outer : (j : ℕ) → (j < out) ⊎ (out + 4 * suc k ≤ j) → (j < out) ⊎ (out + 4 * k ≤ j)
    outer j h = omega arith

    outside :
        (j : ℕ) → (j < out) ⊎ (out + 4 * suc k ≤ j) → (j < out + 4 * k) ⊎ (out + 4 * k + 4 ≤ j)
    outside j h = omega arith

    whole :
        base64 (read m inp (3 * suc k))
        ≡ base64 (read m inp (3 * k))
          ++ group (m (inp + 3 * k)) (m (inp + 3 * k + 1)) (m (inp + 3 * k + 2))
    whole =
        ap base64 (
          read_at m inp inp (3 * suc k) (3 * k + 3) refl (omega arith)
          ∙ read-append m inp (3 * k) 3)
        ∙ base64-append k (read m inp (3 * k)) (read m (inp + 3 * k) 3) (length-read m inp (3 * k))
        ∙ ap (λ t. base64 (read m inp (3 * k)) ++ base64 t) (read_three m (inp + 3 * k) 3 refl)
        ∙ ap (λ t. base64 (read m inp (3 * k)) ++ t) (base64-group _ _ _)

pub encode_groups-Encodes :
    (k : ℕ) (m : Mem) (out inp : ℕ)
    → (inp ≤ out) ⊎ (out + 4 * k ≤ inp)
    → Encodes k m out inp (encode_groups k m out inp)
unfolding encode_groups
encode_groups-Encodes zero m out inp o = record {
  written = unfold read base64 in refl;
  kept = λ j h. refl;
}
encode_groups-Encodes (suc k) m out inp o =
    Encodes-suc k m _ _ out inp o (read-write4 m (out + 4 * k) 4 _ _ _ _ refl)
      (λ j h. write4_outside m (out + 4 * k) j _ _ _ _ h)
      (encode_groups-Encodes k _ out inp (omega arith))
