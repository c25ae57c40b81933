-- ===== src/Common/Memory.antt =====
-- Memory as a function from offsets to bytes: stores, and reading a run of bytes.
use Prim.Native.Nat.{ℕ, zero, suc, ◌+◌, ◌≤◌, ◌<◌}
use mathlib.Core.Path.{◌≡◌, refl, ap, ◌∙◌}
use mathlib.Core.Logic.{◌⊎◌, inl, inr}
use mathlib.Core.List.{[], ◌∷◌, ◌++◌}
use native.Mathlib.Omega.{arith}
use ruby_pg.Common.Tests.{◌==◌, if◌then◌else◌}
use ruby_pg.Common.Lists.{Bytes, length}

abbrev pub Mem : Type 0
Mem = ℕ → ℕ

-- `m[i] = v`
abbrev pub write : Mem → ℕ → ℕ → Mem
write m i v j = if j == i then v else m j

-- The n bytes at offset p.
unfoldable pub read : Mem → ℕ → ℕ → Bytes
read m p zero = []
read m p (suc n) = m p ∷ read m (p + 1) n

-- `memcpy(m + p, bytes, length bytes)`
unfoldable pub fill : Mem → ℕ → Bytes → Mem
fill m p [] = m
fill m p (c ∷ cs) = fill (write m p c) (p + 1) cs

pub length-read : (m : Mem) (p n : ℕ) → length (read m p n) ≡ n
unfolding read
length-read m p zero = refl
length-read m p (suc n) = ap suc (length-read m (p + 1) n)

-- Two memories that agree on a region read alike there.
pub read_cong :
    (m m' : Mem) (p n : ℕ) → ((j : ℕ) → p ≤ j → j < p + n → m j ≡ m' j) → read m p n ≡ read m' p n
unfolding read
read_cong m m' p zero h = refl
read_cong m m' p (suc n) h = cc (
  h p (omega arith) (omega arith),
  read_cong m m' (p + 1) n (λ j lo hi. h j (omega arith) (omega arith)),
)

pub read-write_outside :
    (m : Mem) (p n i v : ℕ) → (i < p) ⊎ (p + n ≤ i) → read (write m i v) p n ≡ read m p n
read-write_outside m p n i v h = read_cong (write m i v) m p n (λ j lo hi. ground arith)

-- The same run, its offset and length written in another way.
pub read_at : (m : Mem) (p q n k : ℕ) → p ≡ q → n ≡ k → read m p n ≡ read m q k
read_at m p q n k e f = cc

pub read-append : (m : Mem) (p a b : ℕ) → read m p (a + b) ≡ read m p a ++ read m (p + a) b
unfolding read
read-append m p zero b = read_at m p (p + 0) (0 + b) b (omega arith) (omega arith)
read-append m p (suc a) b = cc (
  read_at m p p (suc a + b) (suc (a + b)) refl (omega arith),
  read-append m (p + 1) a b,
  read_at m (p + 1 + a) (p + suc a) b b (omega arith) refl,
)

-- The last byte of a run.
pub read-suc : (m : Mem) (p n : ℕ) → read m p (suc n) ≡ read m p n ++ m (p + n) ∷ []
read-suc m p n =
    ap (read m p) (let e : suc n ≡ n + 1 = omega arith in e)
    ∙ read-append m p n 1
    ∙ ap (λ t. read m p n ++ t) (unfold read in refl)

pub fill_outside :
    (cs : Bytes) (m : Mem) (p j : ℕ) → (j < p) ⊎ (p + length cs ≤ j) → fill m p cs j ≡ m j
unfolding fill
fill_outside [] m p j h = refl
fill_outside (c ∷ cs) m p j h = ground (arith, fill_outside cs (write m p c) (p + 1) j)

pub read-fill : (cs : Bytes) (m : Mem) (p : ℕ) → read (fill m p cs) p (length cs) ≡ cs
unfolding read fill
read-fill [] m p = refl
read-fill (c ∷ cs) m p = cc (read-fill cs (write m p c) (p + 1), here)
  where
    here : fill (write m p c) (p + 1) cs p ≡ c
    here = ground (arith, fill_outside cs (write m p c) (p + 1) p (inl (omega arith)))

-- A store just behind a run appends a byte to it.
pub read-write_end :
    (m : Mem) (p n i c : ℕ) → i ≡ p + n → read (write m i c) p (n + 1) ≡ read m p n ++ c ∷ []
read-write_end m p n i c e = cc (
  read_at (write m i c) p p (n + 1) (suc n) refl (omega arith),
  read-suc (write m i c) p n,
  read-write_outside m p n i c (inr (omega arith)),
  here,
)
  where
    here : write m i c (p + n) ≡ c
    here = ground arith

pub read_one : (m : Mem) (p n : ℕ) → n ≡ 1 → read m p n ≡ m p ∷ []
read_one m p n e = read_at m p p n 1 refl e ∙ (unfold read in refl)

pub read_two : (m : Mem) (p n : ℕ) → n ≡ 2 → read m p n ≡ m p ∷ m (p + 1) ∷ []
read_two m p n e = read_at m p p n 2 refl e ∙ (unfold read in refl)
