-- ===== src/Common/Results.antt =====
-- Faults and errors as values.
use mathlib.Core.Path.{◌≡◌, refl}
use mathlib.Core.Logic.{◌≢◌}
use mathlib.Core.Bool.{Bool, true, false}
use ruby_pg.Common.Tests.{if◌then◌else◌}
use mathlib.Core.Option.{Option, none, some}

-- `none` is a fault of the C program: a store or a load outside the object that it addresses.
infixl 5 ◌>>=◌
abbrev pub ◌>>=◌ {ℓ κ} : {A : Type ℓ} {B : Type κ} → Option A → (A → Option B) → Option B
none >>= f = none
some a >>= f = f a

pub >>=-eq-some {ℓ κ} :
    {A : Type ℓ} {B : Type κ} (m : Option A) (f : A → Option B) {b : B}
    → (m >>= f) ≡ some b
    → (a : A) × (m ≡ some a) × (f a ≡ some b)
>>=-eq-some (some a) f h = (a, refl, h)
>>=-eq-some none f h = cc

-- What a C function of the extension does: it returns, it raises a Ruby exception, or it makes an
-- access that C does not define.
pub data RubyError : Type 0 where
  type_error arg_error index_error key_error frozen_error range_error no_result_error : RubyError
  pg_error invalid_status invalid_change_of_fields server_error : RubyError

pub data Outcome {ℓ} (A : Type ℓ) : Type ℓ where
  ok : A → Outcome A
  raises : RubyError → Outcome A
  fault : Outcome A

abbrev pub and_then {ℓ κ} : {A : Type ℓ} {B : Type κ} → Outcome A → (A → Outcome B) → Outcome B
and_then (ok a) f = f a
and_then (raises e) f = raises e
and_then fault f = fault

-- A memory fault ends the call.
abbrev pub checked {ℓ} : {A : Type ℓ} → Option A → Outcome A
checked none = fault
checked (some a) = ok a

pub and_then-eq-ok {ℓ κ} :
    {A : Type ℓ} {B : Type κ} (m : Outcome A) (f : A → Outcome B) {b : B}
    → and_then m f ≡ ok b
    → (a : A) × (m ≡ ok a) × (f a ≡ ok b)
and_then-eq-ok (ok a) f h = (a, refl, h)
and_then-eq-ok (raises e) f h = cc
and_then-eq-ok fault f h = cc

pub ok-ne-fault {ℓ} : {A : Type ℓ} {a : A} → ok a ≢ fault
ok-ne-fault q = cc

pub raises-ne-fault {ℓ} : {A : Type ℓ} {e : RubyError} → ◌≢◌ {A = Outcome A} (raises e) fault
raises-ne-fault q = cc

-- Steps that make no undefined access, in a row.
pub and_then-ne-fault {ℓ κ} :
    {A : Type ℓ} {B : Type κ} (m : Outcome A) (f : A → Outcome B)
    → m ≢ fault
    → ((a : A) → f a ≢ fault)
    → and_then m f ≢ fault
and_then-ne-fault (ok a) f h g = g a
and_then-ne-fault (raises e) f h g = raises-ne-fault
and_then-ne-fault fault f h g = absurd (h refl)

pub if-ne-fault {ℓ} :
    {A : Type ℓ} (b : Bool) (x y : Outcome A) → x ≢ fault → y ≢ fault → (if b then x else y) ≢ fault
if-ne-fault true x y hx hy = hx
if-ne-fault false x y hx hy = hy

pub and_then_assoc {ℓ κ μ} :
    {A : Type ℓ} {B : Type κ} {C : Type μ} (m : Outcome A) (f : A → Outcome B) (g : B → Outcome C)
    → and_then (and_then m f) g ≡ and_then m (λ a. and_then (f a) g)
and_then_assoc (ok a) f g = refl
and_then_assoc (raises e) f g = refl
and_then_assoc fault f g = refl
