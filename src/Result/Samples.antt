-- ===== src/Result/Samples.antt =====
-- A libpq result with two rows of three columns, two of them with one name, to try the methods on.
use ruby_pg.Common.{
  ℕ, false, none, some, List, [], ◌∷◌, Bytes, codes, get_or, ltb, if◌then◌else◌, ok, ℤ, pos, negsuc,
  refl,
}
use ruby_pg.Result.{Libpq, single_tuple, tuples_ok, FieldName, string, Result, Typecast}
use ruby_pg.Result.Sound.{IsSound}

abbrev pub names : List Bytes
names = codes "id" ∷ codes "name" ∷ codes "id" ∷ []

abbrev pub sample_pq : Libpq ℕ
sample_pq = record {
  nfields = λ p. 3;
  ntuples = λ p. if ltb p 100 then 2 else 0;
  fname = λ p i. get_or names i [];
  fnumber = λ p name. none;
  memory_size = λ p. 1000;
  status = λ p. if ltb p 100 then single_tuple else tuples_ok;
}

abbrev number_of : ℤ → ℕ
number_of (pos n) = n
number_of (negsuc n) = 0

-- A cell is cast to the String of its row and column.
abbrev pub sample_cast : Typecast ℕ ℕ FieldName
sample_cast tm res row col = ok (string (number_of row ∷ number_of col ∷ []))

abbrev pub sample : Result ℕ ℕ
sample = record {
  pgresult = some 7;
  typemap = 0;
  autoclear = false;
  symbols = false;
  frozen = false;
  nfields = none;
  result_size = 1000;
  field_map = none;
  room = 3;
  fnames = [];
}

pub sample-IsSound : IsSound sample_pq sample
sample-IsSound = record { fits = λ p o. refl; named = λ p n o e. cc; mapped = λ p m o e. cc }
