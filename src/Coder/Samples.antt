-- ===== src/Coder/Samples.antt =====
-- An allocator and two type maps on which the tests of the composite coders run.
use ruby_pg.Common.{
  ℕ, ◌+◌, [], ◌∷◌, Bytes, length, ◌==◌, if◌then◌else◌, ok, raises, RubyError, ◌≡◌, ◌≢◌, refl, arith,
  ok-ne-fault, All, Bool, true, not, ◌&&◌, Bool-cases, inl, inr,
}
use ruby_pg.Buffer.{Allocator}
use ruby_pg.Coder.{
  direct, buffered, bytes_of, QueryTypeMap, CopyTypeMap, IsHonest, Encoded, NeverFaults,
}

-- A String gets room for what is asked and 16 bytes more.
abbrev pub generous : Allocator
generous = record {
  expand = λ len capa more. len + more + 16;
  expand_room = λ len capa more. omega arith;
  embedded = 23;
}

-- Column 0 has a coder that returns a String, the other columns one with two passes.
abbrev pub strings : QueryTypeMap Bytes
strings = record {
  fit_to_query = λ row. ok tt;
  encode_param = λ v i. ok (if i == 0 then direct v else buffered (length v) v);
}

pub strings-IsHonest : IsHonest strings
strings-IsHonest v i e h = ground arith

abbrev pub plain_strings : CopyTypeMap Bytes
plain_strings = record { fit_to_copy_get = ok tt; typecast_copy_get = λ cs i. ok cs }

pub plain_strings_sound : NeverFaults plain_strings
plain_strings_sound = record { fit_returns = ok-ne-fault; typecast_returns = λ cs i. ok-ne-fault }

pub strings_inverts :
    (v : Bytes) (i : ℕ) (e : Encoded)
    → strings.encode_param v i ≡ ok e
    → plain_strings.typecast_copy_get (bytes_of e) i ≡ ok v
strings_inverts v i e h = ground arith

-- A text coder that refuses a null byte.
abbrev no_null : Bytes → Bool
no_null [] = true
no_null (c ∷ cs) = not (c == 0) && no_null cs

no_null_sound : (cs : Bytes) → no_null cs ≡ true → All (λ c. c ≢ 0) cs
no_null_sound [] h = tt
no_null_sound (c ∷ cs) h = (λ e. ground arith, no_null_sound cs (ground arith))

abbrev pub texts : QueryTypeMap Bytes
texts = record {
  fit_to_query = λ row. ok tt;
  encode_param = λ v i.
      if no_null v
      then ok (if i == 0 then direct v else buffered (length v) v)
      else raises RubyError.arg_error;
}

pub texts-IsHonest : IsHonest texts
texts-IsHonest v i e h = ground arith

pub texts_inverts :
    (v : Bytes) (i : ℕ) (e : Encoded)
    → texts.encode_param v i ≡ ok e
    → All (λ c. c ≢ 0) (bytes_of e) × (plain_strings.typecast_copy_get (bytes_of e) i ≡ ok v)
texts_inverts v i e h = elim (Bool-cases (no_null v)) [
  | inl clean ↦ let same : bytes_of e ≡ v = ground arith in rw same (no_null_sound v clean, refl)
  | inr null ↦ absurd (ground arith)
]
