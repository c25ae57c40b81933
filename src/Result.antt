-- ===== src/Result.antt =====
-- PG::Result: the object behind a libpq result, its life cycle and its caches, of
-- ext/pg_result.c and of `t_pg_result` in ext/pg.h. The libpq result itself, of type P, is seen
-- through the accessors of libpq, and type maps are of type M.
pub mod Rows
pub mod Agree
pub mod Sound
pub mod Invariant
pub mod Samples
mod Tests
use ruby_pg.Common.{
  ℕ, zero, suc, ◌+◌, Bool, true, false, not, ◌&&◌, Option, none, some, List, [], ◌∷◌, ◌++◌, Bytes,
  ltb, if◌then◌else◌, Outcome, ok, raises, fault, RubyError, Call, then_do, given, ℤ, num2int,
  below?, bytes_eq, bytes_eq_sound, bytes_eq_refl, ok-ne-fault, raises-ne-fault, ◌≢◌, ◌≡◌, ◌↔◌, ap,
  subst,
}
use ruby_pg.Common.Hash.{Eql, index_names}

-- `ExecStatusType`, as far as the extension tells its values apart.
pub data Status : Type 0 where
  tuples_ok command_ok single_tuple tuples_chunk other_ok failed : Status

-- What the extension asks libpq about a result.
pub record Libpq (P : Type 0) : Type 0 where
  pub nfields : P → ℕ
  pub ntuples : P → ℕ
  pub fname : P → ℕ → Bytes
  pub fnumber : P → Bytes → Option ℕ
  pub memory_size : P → ℕ
  pub status : P → Status

-- A field name, as the frozen String or the Symbol that `flags` asks for.
pub data FieldName : Type 0 where
  string : Bytes → FieldName
  symbol : Bytes → FieldName

abbrev pub field_name_eql : FieldName → FieldName → Bool
field_name_eql (string a) (string b) = bytes_eq a b
field_name_eql (symbol a) (symbol b) = bytes_eq a b
field_name_eql _ _ = false

field_name_eql_sound : (a b : FieldName) → field_name_eql a b ≡ true → a ≡ b
field_name_eql_sound (string a) (string b) h = ap string (bytes_eq_sound a b h)
field_name_eql_sound (symbol a) (symbol b) h = ap symbol (bytes_eq_sound a b h)
field_name_eql_sound (string a) (symbol b) h = cc
field_name_eql_sound (symbol a) (string b) h = cc

field_name_eql_refl : (a : FieldName) → field_name_eql a a ≡ true
field_name_eql_refl (string a) = bytes_eq_refl a
field_name_eql_refl (symbol a) = bytes_eq_refl a

pub field_name_eql_iff : (a b : FieldName) → (field_name_eql a b ≡ true) ↔ (a ≡ b)
field_name_eql_iff a b = (
  field_name_eql_sound a b,
  λ q. subst (λ c. field_name_eql a c ≡ true) q (field_name_eql_refl a),
)

abbrev pub field_names_eql : Eql FieldName
field_names_eql = record { eql = field_name_eql; eql_iff = field_name_eql_iff }

-- `t_pg_result`. `nfields` is none where the source has -1; `room` is the number of slots that
-- were allocated for `fnames`.
pub record Result (P M : Type 0) : Type 0 where
  pub pgresult : Option P
  pub typemap : M
  pub autoclear : Bool
  pub symbols : Bool
  pub frozen : Bool
  pub nfields : Option ℕ
  pub result_size : ℕ
  pub field_map : Option (List (FieldName × ℕ))
  pub room : ℕ
  pub fnames : List FieldName

-- `typecast_result_value` of a type map, for a row and a column of a result.
abbrev pub Typecast : Type 0 → Type 0 → Type 0 → Type 0
Typecast P M V = M → Result P M → ℤ → ℤ → Outcome V

-- The type maps cast a field or raise.
abbrev pub CastReturns : {P M V : Type 0} → Typecast P M V → Type 0
CastReturns {P} {M} {V} typecast =
    (tm : M) (res : Result P M) (row col : ℤ) → typecast tm res row col ≢ fault

-- `pg_cstr_to_sym`
abbrev pub cstr_to_sym : Bool → Bytes → FieldName
cstr_to_sym symbols cstr = if symbols then symbol cstr else string cstr

module _ {P : Type 0} where
  abbrev pub open_or_raise : Option P → Outcome P
  open_or_raise none = raises RubyError.pg_error
  open_or_raise (some p) = ok p

  -- `if( this->pgresult && !this->autoclear )`
  abbrev pub released_of : Option P → Bool → ℕ → List (P × ℕ)
  released_of none autoclear size = []
  released_of (some p) autoclear size = if autoclear then [] else (p, size) ∷ []

module _ {P M : Type 0} where
  -- `pgresult_get` and `pgresult_get_this_safe`
  abbrev pub pgresult_get : Result P M → Outcome P
  pgresult_get this = open_or_raise this.pgresult

  pub pgresult_get-ne-fault : (this : Result P M) → pgresult_get this ≢ fault
  pgresult_get-ne-fault this = go this.pgresult
    where
      go : (o : Option P) → open_or_raise o ≢ fault
      go none = raises-ne-fault
      go (some p) = ok-ne-fault

  -- `pgresult_clear`, with the libpq result that `PQclear` frees and the bytes that are taken from
  -- the account of Ruby's memory management.
  abbrev pub forget : Result P M → Result P M
  forget this = record this { result_size = 0; nfields = none; pgresult = none }

  abbrev pub released : Result P M → List (P × ℕ)
  released this = released_of this.pgresult this.autoclear this.result_size

  abbrev pub clear : Result P M → Result P M × List (P × ℕ)
  clear this = (forget this, released this)

  -- `pg_result_clear`
  unfoldable pub result_clear : Result P M → Call (Result P M) (List (P × ℕ))
  result_clear this =
      if this.frozen
      then (raises RubyError.frozen_error, this)
      else (ok (released this), forget this)

  -- `pgresult_cleared_p`
  abbrev pub is_cleared : Result P M → Bool
  is_cleared this = elim this.pgresult [ none ↦ true | some p ↦ false ]

  -- `pg_copy_result`: the copy, and the original, which hands over the bytes that it accounts for.
  unfoldable pub copy_result : Libpq P → Result P M → Result P M × Result P M
  copy_result pq this =
      let slots : ℕ = elim this.nfields [
        | none ↦ elim this.pgresult [ none ↦ 0 | some p ↦ pq.nfields p ]
        | some n ↦ n
      ] in
      (record this { room = slots; frozen = false }, record this { result_size = 0 })

module _ {P M : Type 0} where
  -- `pgresult_type_map_set`; `fit_to_result` may refuse the result.
  unfoldable pub type_map_set : (M → Result P M → Outcome M) → M → Result P M → Call (Result P M) M
  type_map_set fit_to_result typemap this =
      if this.frozen
      then (raises RubyError.frozen_error, this)
      else given (fit_to_result typemap this) this (λ tm. (ok tm, record this { typemap = tm }))

module _ {P M : Type 0} (pq : Libpq P) where
  -- The loop of `pgresult_init_fnames`: a name in each slot, from i on.
  unfoldable pub name_columns : Result P M → P → ℕ → ℕ → List FieldName → Outcome (List FieldName)
  name_columns this p zero i names = ok names
  name_columns this p (suc left) i names =
      let rest =
        name_columns this p left (i + 1) (names ++ cstr_to_sym this.symbols (pq.fname p i) ∷ []) in
      if ltb i this.room then rest else fault

  -- `if( this->nfields == -1 )` and what it guards in `pgresult_init_fnames`.
  unfoldable pub init_names_of : Option ℕ → P → Result P M → Call (Result P M) (Unit {0})
  init_names_of (some n) p this = (ok tt, this)
  init_names_of none p this =
      given (name_columns this p (pq.nfields p) 0 []) this
        (λ names. (ok tt, record this { nfields = some (pq.nfields p); fnames = names }))

  -- `pgresult_init_fnames`
  unfoldable pub init_fnames : Result P M → Call (Result P M) (Unit {0})
  unfolding init_names_of
  init_fnames this = given (pgresult_get this) this (λ p. init_names_of this.nfields p this)

  -- `if( this->field_map == Qnil )` and what it guards in `ensure_init_for_tuple`; its loop up to
  -- `nfields` goes over the names.
  unfoldable pub init_map_of :
      Option (List (FieldName × ℕ)) → Result P M → Call (Result P M) (Unit {0})
  init_map_of (some m) this = (ok tt, this)
  init_map_of none this = then_do (init_fnames this) (λ _ this'.
      (ok tt, record this' { field_map = some (index_names field_names_eql this'.fnames 0 []) }))

  -- `ensure_init_for_tuple`
  unfoldable pub ensure_init_for_tuple : Result P M → Call (Result P M) (Unit {0})
  unfolding init_map_of
  ensure_init_for_tuple this = given (pgresult_get this) this (λ p. init_map_of this.field_map this)

  -- `pg_result_freeze`
  unfoldable pub result_freeze : Result P M → Call (Result P M) (Unit {0})
  result_freeze this =
      then_do (ensure_init_for_tuple this) (λ _ this'. (ok tt, record this' { frozen = true }))

  -- `pgresult_fields`
  unfoldable pub fields : Result P M → Call (Result P M) (List FieldName)
  fields this = then_do (init_fnames this) (λ _ this'. (ok this'.fnames, this'))

  -- `pgresult_fname`
  unfoldable pub fname : Result P M → ℤ → Outcome FieldName
  fname this index = elim this.pgresult [
    | none ↦ raises RubyError.pg_error
    | some p ↦ elim (num2int index) [
      | ok i ↦ elim (below? (pq.nfields p) i) [
        | none ↦ raises RubyError.arg_error
        | some j ↦ ok (cstr_to_sym this.symbols (pq.fname p j))
      ]
      | raises e ↦ raises e
      | fault ↦ fault
    ]
  ]
