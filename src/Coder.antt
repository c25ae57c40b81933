-- ===== src/Coder.antt =====
-- The interface between the composite coders and the type maps: ext/pg.h (`t_pg_coder_enc_func`,
-- `struct pg_typemap`) as ext/pg_copy_coder.c, ext/pg_record_coder.c and ext/pg_text_encoder.c use it.
pub mod Refines
pub mod Samples
use ruby_pg.Common.{
  ℕ, ◌^◌, ◌≤◌, Option, List, Bytes, length, Outcome, ok, raises, fault, ◌≢◌, RubyError, ltb,
  if◌then◌else◌, ◌≡◌, arith,
}

-- What an encoder's first pass returns: -1 with the String in `intermediate`, or a size, after which
-- the second pass writes these bytes at the output pointer.
pub data Encoded : Type 0 where
  direct : Bytes → Encoded
  buffered : ℕ → Bytes → Encoded

abbrev pub bytes_of : Encoded → Bytes
bytes_of (direct cs) = cs
bytes_of (buffered n cs) = cs

-- The caller allocates by the first pass's size, so the second pass may not write more.
abbrev pub FitsSize : Encoded → Type 0
FitsSize (direct cs) = Unit
FitsSize (buffered n cs) = length cs ≤ n

-- `RSTRING_LENINT(subint)`: Ruby raises RangeError where a String's length is no int.
unfoldable pub length_int : Encoded → Outcome Encoded
length_int (direct cs) =
    if ltb (length cs) (2 ^ 31) then ok (direct cs) else raises RubyError.range_error
length_int (buffered n cs) = ok (buffered n cs)

-- It gives back what it was given.
pub length_int_id : (e : Encoded) {e' : Encoded} → length_int e ≡ ok e' → e ≡ e'
unfolding length_int
length_int_id (direct cs) h = ground arith
length_int_id (buffered n cs) h = cc

pub FitsSize-length_int :
    (e : Encoded) {e' : Encoded} → FitsSize e → length_int e ≡ ok e' → FitsSize e'
FitsSize-length_int e f h = rw (← length_int_id e h) f

-- `fit_to_query` may refuse the row; `typecast_query_param` picks the coder of a column, which
-- encodes the value or raises.
pub record QueryTypeMap (V : Type 0) : Type 0 where
  pub fit_to_query : List (Option V) → Outcome (Unit {0})
  pub encode_param : V → ℕ → Outcome Encoded

-- Every coder of the type map keeps to its size.
abbrev pub IsHonest : {V : Type 0} → QueryTypeMap V → Type 0
IsHonest {V} tm = (v : V) (i : ℕ) (e : Encoded) → tm.encode_param v i ≡ ok e → FitsSize e

-- `fit_to_copy_get` may refuse; `typecast_copy_get` decodes the bytes of a column.
pub record CopyTypeMap (V : Type 0) : Type 0 where
  pub fit_to_copy_get : Outcome (Unit {0})
  pub typecast_copy_get : Bytes → ℕ → Outcome V

-- No step of the type map makes an undefined access.
pub record NeverFaults {V : Type 0} (tm : CopyTypeMap V) : Type 0 where
  pub fit_returns : tm.fit_to_copy_get ≢ fault
  pub typecast_returns : (cs : Bytes) (i : ℕ) → tm.typecast_copy_get cs i ≢ fault
