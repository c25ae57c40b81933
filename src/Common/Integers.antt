-- ===== src/Common/Integers.antt =====
-- Ruby Integers, and their conversion to a C int.
use Prim.Native.Nat.{ℕ, ◌+◌, ◌-◌, ◌^◌, ◌<◌}
use mathlib.Core.Path.{◌≡◌}
use mathlib.Core.Bool.{false}
use mathlib.Core.Logic.{◌≢◌}
use mathlib.Core.Option.{Option, none, some}
use native.Mathlib.Omega.{arith}
use ruby_pg.Common.Tests.{ltb, leb, if◌then◌else◌}
use ruby_pg.Common.Results.{Outcome, ok, raises, fault, RubyError}

-- `negsuc n` is -(n + 1).
pub data ℤ : Type 0 where
  pos : ℕ → ℤ
  negsuc : ℕ → ℤ

-- `NUM2INT`: Ruby raises RangeError for an Integer that is no 32-bit int.
unfoldable pub num2int : ℤ → Outcome ℤ
num2int (pos n) = if ltb n (2 ^ 31) then ok (pos n) else raises RubyError.range_error
num2int (negsuc n) = if ltb n (2 ^ 31) then ok (negsuc n) else raises RubyError.range_error

-- `0 <= i && i < n`, and then the index.
abbrev pub below? : ℕ → ℤ → Option ℕ
below? n (pos i) = if ltb i n then some i else none
below? n (negsuc k) = none

-- `n + i`, where i is negative.
abbrev pub from_end : ℕ → ℤ → ℤ
from_end n (pos i) = pos i
from_end n (negsuc k) = if ltb k n then pos (n - (k + 1)) else negsuc (k - n)

pub below?-lt : (n : ℕ) (i : ℤ) {j : ℕ} → below? n i ≡ some j → j < n
below?-lt n (pos i) h = ground arith
below?-lt n (negsuc k) h = cc

pub num2int-pos : (i : ℕ) → i < 2 ^ 31 → num2int (pos i) ≡ ok (pos i)
unfolding num2int
num2int-pos i h = ground arith

pub below?-pos : (n i : ℕ) → i < n → below? n (pos i) ≡ some i
below?-pos n i h = ground arith

pub lt→leb-false : (i n : ℕ) → i < n → leb n i ≡ false
lt→leb-false i n h = ground arith

pub num2int-ne-fault : (i : ℤ) → num2int i ≢ fault
unfolding num2int
num2int-ne-fault (pos n) = ground arith
num2int-ne-fault (negsuc n) = ground arith
