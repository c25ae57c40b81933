-- ===== src/Common/Gather.antt =====
-- A counted loop that collects what a fallible step gives.
use Prim.Native.Nat.{ℕ, zero, suc, ◌+◌, ◌≤◌, ◌<◌}
use mathlib.Core.Path.{◌≡◌, refl, ap, subst, ◌∙◌}
use mathlib.Core.Logic.{◌≢◌}
use mathlib.Core.Option.{some}
use mathlib.Core.List.{List, [], ◌∷◌}
use native.Mathlib.Omega.{arith}
use ruby_pg.Common.Lists.{length, get_elem?}
use ruby_pg.Common.Results.{
  Outcome, ok, fault, and_then, and_then-eq-ok, and_then-ne-fault, ok-ne-fault,
}

module _ {A : Type 0} where
  unfoldable pub gather : (ℕ → Outcome A) → ℕ → ℕ → Outcome (List A)
  gather f zero i = ok []
  gather f (suc left) i = and_then (f i) (λ x. and_then (gather f left (i + 1)) (λ xs. ok (x ∷ xs)))

  -- The list has an entry for each round, and what the round gave is there.
  abbrev pub Holds : (ℕ → Outcome A) → ℕ → List A → ℕ → Type 0
  Holds f i xs k = (x : A) × (get_elem? xs k ≡ some x) × (f (i + k) ≡ ok x)

  gather-parts :
      (f : ℕ → Outcome A) (n i : ℕ) {xs : List A}
      → gather f (suc n) i ≡ ok xs
      → (y : A) × (ys : List A) × (f i ≡ ok y) × (gather f n (i + 1) ≡ ok ys) × (y ∷ ys ≡ xs)
  unfolding gather
  gather-parts f n i h =
      let (y, p, q) = and_then-eq-ok (f i) _ h in
      let (ys, r, t) = and_then-eq-ok (gather f n (i + 1)) _ q in (y, ys, p, r, cc)

  pub length-gather :
      (f : ℕ → Outcome A) (n i : ℕ) {xs : List A} → gather f n i ≡ ok xs → length xs ≡ n
  length-gather f zero i {xs} h =
      let e : [] ≡ xs = unfold gather in cc in omega (arith, ap (length {A = A}) e)
  length-gather f (suc n) i {xs} h =
      let (y, ys, p, r, e) = gather-parts f n i h in
      omega (arith, ap (length {A = A}) e, length-gather f n (i + 1) r)

  pub gather-Holds :
      (f : ℕ → Outcome A) (n i : ℕ) {xs : List A}
      → gather f n i ≡ ok xs
      → (k : ℕ) → k < n
      → Holds f i xs k
  gather-Holds f zero i h k lt = absurd (omega arith)
  gather-Holds f (suc n) i h zero lt =
      let (y, ys, p, r, e) = gather-parts f n i h in
      subst (λ zs. Holds f i zs 0) e (y, refl, rw (let z : i + 0 ≡ i = omega arith in z) p)
  gather-Holds f (suc n) i h (suc k) lt =
      let (y, ys, p, r, e) = gather-parts f n i h in
      let (v, a, b) = gather-Holds f n (i + 1) r k (omega arith) in
      subst (λ zs. Holds f i zs (suc k)) e
        (v, a, rw (let z : i + suc k ≡ i + 1 + k = omega arith in z) b)

  -- Where each round gives something, the loop gives a list.
  pub gather-ok :
      (f : ℕ → Outcome A) (n i : ℕ)
      → ((k : ℕ) → k < n → (x : A) × (f (i + k) ≡ ok x))
      → (xs : List A) × (gather f n i ≡ ok xs)
  unfolding gather
  gather-ok f zero i h = ([], refl)
  gather-ok f (suc n) i h =
      let (y, p) = h 0 (omega arith) in
      let (ys, q) = gather-ok f n (i + 1) (λ k lt.
        let (x, r) = h (k + 1) (omega arith) in
        (x, rw (let z : i + 1 + k ≡ i + (k + 1) = omega arith in z) r)) in
      let p' : f i ≡ ok y = rw (let z : i ≡ i + 0 = omega arith in z) p in (y ∷ ys, rw (p', q) refl)

  pub gather-ne-fault :
      (f : ℕ → Outcome A) (n i : ℕ) → ((k : ℕ) → f k ≢ fault) → gather f n i ≢ fault
  unfolding gather
  gather-ne-fault f zero i h = ok-ne-fault
  gather-ne-fault f (suc n) i h = and_then-ne-fault (f i) _ (h i) (λ x.
      and_then-ne-fault (gather f n (i + 1)) _ (gather-ne-fault f n (i + 1) h) (λ xs. ok-ne-fault))

  -- Counted from 0.
  pub gather-entry :
      (f : ℕ → Outcome A) (n : ℕ) {xs : List A}
      → gather f n 0 ≡ ok xs
      → (k : ℕ) → k < n
      → (x : A) × (get_elem? xs k ≡ some x) × (f k ≡ ok x)
  gather-entry f n h k lt =
      let (x, p, q) = gather-Holds f n 0 h k lt in
      (x, p, subst (λ t. f t ≡ ok x) (let z : 0 + k ≡ k = omega arith in z) q)

  pub gather-all :
      (f : ℕ → Outcome A) (n : ℕ)
      → ((k : ℕ) → k < n → (x : A) × (f k ≡ ok x))
      → (xs : List A) × (gather f n 0 ≡ ok xs)
  gather-all f n h =
      gather-ok f n 0
        (λ k lt. let (x, r) = h k lt in (x, rw (let z : 0 + k ≡ k = omega arith in z) r))

  pub gather-ne-fault-below :
      (f : ℕ → Outcome A) (n i m : ℕ)
      → i + n ≤ m
      → ((k : ℕ) → k < m → f k ≢ fault)
      → gather f n i ≢ fault
  unfolding gather
  gather-ne-fault-below f zero i m le h = ok-ne-fault
  gather-ne-fault-below f (suc n) i m le h = and_then-ne-fault (f i) _ (h i (omega arith)) (λ x.
      and_then-ne-fault (gather f n (i + 1)) _ (gather-ne-fault-below f n (i + 1) m (omega arith) h)
        (λ xs. ok-ne-fault))

  pub gather_cong :
      (f g : ℕ → Outcome A) (n i m : ℕ)
      → i + n ≤ m
      → ((k : ℕ) → k < m → f k ≡ g k)
      → gather f n i ≡ gather g n i
  unfolding gather
  gather_cong f g zero i m le h = refl
  gather_cong f g (suc n) i m le h =
      ap (λ x. and_then x (λ v. and_then (gather f n (i + 1)) (λ vs. ok (v ∷ vs))))
        (h i (omega arith))
      ∙ ap (λ xs. and_then (g i) (λ v. and_then xs (λ vs. ok (v ∷ vs))))
          (gather_cong f g n (i + 1) m (omega arith) h)
