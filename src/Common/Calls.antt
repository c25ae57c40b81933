-- ===== src/Common/Calls.antt =====
-- Methods that change an object: what the method did, with the object as it leaves it. A raised
-- exception keeps the changes made before it.
use mathlib.Core.Path.{◌≡◌, refl}
use mathlib.Core.Logic.{◌≢◌}
use ruby_pg.Common.Results.{and_then, Outcome, ok, raises, fault, ok-ne-fault, raises-ne-fault}

abbrev pub Call : Type 0 → Type 0 → Type 0
Call S A = Outcome A × S

module _ {S A B : Type 0} where
  -- The next step, on the object that the first one leaves.
  abbrev pub then_do : Call S A → (A → S → Call S B) → Call S B
  then_do (ok a, s) f = f a s
  then_do (raises e, s) f = (raises e, s)
  then_do (fault, s) f = (fault, s)

  -- A step that does not change the object.
  abbrev pub given : Outcome A → S → (A → Call S B) → Call S B
  given (ok a) s f = f a
  given (raises e) s f = (raises e, s)
  given fault s f = (fault, s)

  pub then_do-eq-ok :
      (m : Call S A) (f : A → S → Call S B) {b : B} {s' : S}
      → then_do m f ≡ (ok b, s')
      → (a : A) × (s : S) × (m ≡ (ok a, s)) × (f a s ≡ (ok b, s'))
  then_do-eq-ok (ok a, s) f h = (a, s, refl, h)
  then_do-eq-ok (raises e, s) f h = cc
  then_do-eq-ok (fault, s) f h = cc

  pub given-eq-ok :
      (m : Outcome A) (s : S) (f : A → Call S B) {b : B} {s' : S}
      → given m s f ≡ (ok b, s')
      → (a : A) × (m ≡ ok a) × (f a ≡ (ok b, s'))
  given-eq-ok (ok a) s f h = (a, refl, h)
  given-eq-ok (raises e) s f h = cc
  given-eq-ok fault s f h = cc

-- No undefined access; what a returned value and the object have, and what the object has where
-- the call raises.
abbrev pub Ensures : {S A : Type 0} → (S → Type 0) → (A → S → Type 0) → Call S A → Type 0
Ensures E Q (ok a, s) = Q a s
Ensures E Q (raises e, s) = E s
Ensures E Q (fault, s) = ⊥

abbrev pub Keeps : {S A : Type 0} → (S → Type 0) → Call S A → Type 0
Keeps P = Ensures P (λ _. P)

module _ {S A B : Type 0} (E : S → Type 0) (Q : A → S → Type 0) (R : B → S → Type 0) where
  pub Ensures-then_do :
      (m : Call S A) (f : A → S → Call S B)
      → Ensures E Q m
      → ((a : A) (s : S) → Q a s → Ensures E R (f a s))
      → Ensures E R (then_do m f)
  Ensures-then_do (ok a, s) f h g = g a s h
  Ensures-then_do (raises e, s) f h g = h
  Ensures-then_do (fault, s) f h g = absurd h

module _ {S A B : Type 0} (E : S → Type 0) (R : B → S → Type 0) where
  pub Ensures-given :
      (m : Outcome A) (s : S) (f : A → Call S B)
      → m ≢ fault
      → E s
      → ((a : A) → Ensures E R (f a))
      → Ensures E R (given m s f)
  Ensures-given (ok a) s f h q g = g a
  Ensures-given (raises e) s f h q g = q
  Ensures-given fault s f h q g = absurd (h refl)

module _ {S A : Type 0} (P : S → Type 0) where
  pub Keeps-ne-fault : (m : Call S A) → Keeps P m → m.0 ≢ fault
  Keeps-ne-fault (ok a, s) h = ok-ne-fault
  Keeps-ne-fault (raises e, s) h = raises-ne-fault
  Keeps-ne-fault (fault, s) h = absurd h

  pub Keeps-intro : (m : Call S A) → m.0 ≢ fault → P m.1 → Keeps P m
  Keeps-intro (ok a, s) f h = h
  Keeps-intro (raises e, s) f h = h
  Keeps-intro (fault, s) f h = f refl

  pub Keeps-state : (m : Call S A) → Keeps P m → P m.1
  Keeps-state (ok a, s) h = h
  Keeps-state (raises e, s) h = h
  Keeps-state (fault, s) h = absurd h

-- The value of a call in a row of calls.
module _ {S A B : Type 0} where
  pub given-value :
      (m : Outcome A) (s : S) (f : A → Call S B) → (given m s f).0 ≡ and_then m (λ a. (f a).0)
  given-value (ok a) s f = refl
  given-value (raises e) s f = refl
  given-value fault s f = refl

module _ {S A B : Type 0} (P : S → Type 0) where
  -- What holds of the object after each step holds of it after the row of steps.
  pub then_do_state :
      (m : Call S A) (f : A → S → Call S B)
      → P m.1
      → ((a : A) (s : S) → P s → P (f a s).1)
      → P (then_do m f).1
  then_do_state (ok a, s) f h g = g a s h
  then_do_state (raises e, s) f h g = h
  then_do_state (fault, s) f h g = h

  pub given_state :
      (m : Outcome A) (s : S) (f : A → Call S B) → P s → ((a : A) → P (f a).1) → P (given m s f).1
  given_state (ok a) s f h g = g a
  given_state (raises e) s f h g = h
  given_state fault s f h g = h

-- What a returned value and the object have, and what the object has however else the call ends.
abbrev pub Settles : {S A : Type 0} → (S → Type 0) → (A → S → Type 0) → Call S A → Type 0
Settles E Q (ok a, s) = Q a s
Settles E Q (raises e, s) = E s
Settles E Q (fault, s) = E s

module _ {S A B : Type 0} (E : S → Type 0) (Q : A → S → Type 0) (R : B → S → Type 0) where
  pub Settles-then_do :
      (m : Call S A) (f : A → S → Call S B)
      → Settles E Q m
      → ((a : A) (s : S) → Q a s → Settles E R (f a s))
      → Settles E R (then_do m f)
  Settles-then_do (ok a, s) f h g = g a s h
  Settles-then_do (raises e, s) f h g = h
  Settles-then_do (fault, s) f h g = h

module _ {S A B : Type 0} (E : S → Type 0) (R : B → S → Type 0) where
  pub Settles-given :
      (m : Outcome A) (s : S) (f : A → Call S B)
      → E s
      → ((a : A) → Settles E R (f a))
      → Settles E R (given m s f)
  Settles-given (ok a) s f h g = g a
  Settles-given (raises e) s f h g = h
  Settles-given fault s f h g = h

module _ {S A : Type 0} (E : S → Type 0) where
  pub Settles-state : (m : Call S A) → E m.1 → Settles E (λ _. E) m
  Settles-state (ok a, s) h = h
  Settles-state (raises e, s) h = h
  Settles-state (fault, s) h = h

  -- Where the property that a return adds is none to be lost.
  pub state-Settles :
      (Q : A → S → Type 0) (m : Call S A) → ((a : A) (s : S) → Q a s → E s) → Settles E Q m → E m.1
  state-Settles Q (ok a, s) f h = f a s h
  state-Settles Q (raises e, s) f h = h
  state-Settles Q (fault, s) f h = h

-- A call whose value is dropped.
abbrev pub ignore : {S A : Type 0} → Call S A → Call S (Unit {0})
ignore (ok a, s) = (ok tt, s)
ignore (raises e, s) = (raises e, s)
ignore (fault, s) = (fault, s)

pub Keeps-ignore : {S A : Type 0} (P : S → Type 0) (m : Call S A) → Keeps P m → Keeps P (ignore m)
Keeps-ignore P (ok a, s) h = h
Keeps-ignore P (raises e, s) h = h
Keeps-ignore P (fault, s) h = h

-- A call on one of two objects, the other being left as it is.
module _ {S T A : Type 0} where
  abbrev pub on_left : Call S A → T → Call (S × T) A
  on_left m t = (m.0, (m.1, t))

  abbrev pub on_right : S → Call T A → Call (S × T) A
  on_right s m = (m.0, (s, m.1))

  abbrev pub left_of : Call (S × T) A → Call S A
  left_of m = (m.0, m.1.0)

  abbrev pub right_of : Call (S × T) A → Call T A
  right_of m = (m.0, m.1.1)

  pub Keeps-left_of :
      (P : S → Type 0) (m : Call (S × T) A) → Keeps (λ s. P s.0) m → Keeps P (left_of m)
  Keeps-left_of P (ok a, s) h = h
  Keeps-left_of P (raises e, s) h = h
  Keeps-left_of P (fault, s) h = h
