-- ===== src/TypeMap/Tests.antt =====
-- A type map with coders for two OIDs that share a row of the cache.
use ruby_pg.TypeMap.Fit.{build_type_map}
use ruby_pg.Common.{num2int}
use ruby_pg.TypeMap.ByOid.{column_coder}
use ruby_pg.Common.{
  suc, ◌*◌, if◌then◌else◌, ℕ, ◌+◌, false, none, some, List, [], ◌∷◌, ok, pos, ◌≡◌, refl, arith,
}
use ruby_pg.Common.Hash.{aref}
use ruby_pg.TypeMap.ByOid.{
  Format, oids, OidMap, Coder, lookup_oid, remove, add_coder, rm_coder, Columns, build_column_map,
}
use ruby_pg.TypeMap.Cache.{Coherent, Request, look, add, rm, after, lookup_oid-after}
use ruby_pg.TypeMap.Copies.{sees_hashes, lookup_oid_stale}
use ruby_pg.TypeMap.Alike.{cast_value, fitted_value-fit_to_result}
use ruby_pg.TypeMap.Fit.{Casts, ByOid, Fitted, by_column, fit_to_result, fitted_value}

-- A new type map.
abbrev fresh : OidMap ℕ
fresh = record {
  oid_to_coder = λ f. [];
  cache_row = λ f row. (0, none);
  max_rows_for_online_lookup = pos 10;
  frozen = false;
}

fresh-Coherent : Coherent fresh
fresh-Coherent f oid hit = refl

-- A coder is its OID, for text.
abbrev props : Coder ℕ
props = record { oid = λ c. c; format = λ c. pos 0 }

abbrev calls : List (Request ℕ)
calls = add 23 ∷ look Format.text 279 ∷ add 279 ∷ look Format.text 23 ∷ rm (pos 0) 279 ∷ []

after_test : (lookup_oid Format.text 23 (after props calls fresh)).0 ≡ some 23
unfolding after lookup_oid rm_coder num2int add_coder
after_test = refl

removed_test : (lookup_oid Format.text 279 (after props calls fresh)).0 ≡ none
unfolding after lookup_oid rm_coder num2int add_coder
removed_test = refl

lookup_oid-after_example :
    (lookup_oid Format.text 0 (after props calls fresh)).0
    ≡ aref oids 0 ((after props calls fresh).oid_to_coder Format.text)
lookup_oid-after_example = lookup_oid-after props calls fresh fresh-Coherent Format.text 0

abbrev filled : OidMap ℕ
filled = record fresh { oid_to_coder = λ f. (23, 23) ∷ [] }

filled-Coherent : Coherent filled
filled-Coherent f oid hit = ground arith

lookup_oid_stale_example :
    ((lookup_oid Format.text 23
        (sees_hashes (remove Format.text 23 filled) (lookup_oid Format.text 23 filled).1)).0
      ≡ some 23)
    × (aref oids 23 ((remove Format.text 23 filled).oid_to_coder Format.text) ≡ none)
lookup_oid_stale_example = lookup_oid_stale filled Format.text 23 23 filled-Coherent refl

-- A result of three rows, with as many columns as there are default type maps: a default type map
-- is a number, and its `fit_to_result` gives the next one.
abbrev columns : Columns
columns = record {
  ntuples = 3;
  nfields = 2;
  fformat = λ i. pos 0;
  ftype = λ i. 23 + i;
  isnull = λ row field. false;
}

abbrev casts : Casts ℕ ℕ ℕ ℕ
casts = record {
  dec_func = λ c. none;
  dec_in_ruby = λ binary. if binary then 1 else 0;
  decode = λ f c row field. ok (c + row);
  typecast_result_value = λ tm row field. ok (1000 * tm);
  fit_default = λ tm. ok (suc tm);
  all_strings = 0;
  nil = 0;
}

-- No more than two rows are looked up online.
abbrev by_two : ByOid ℕ ℕ
by_two = record { tmbo = record filled { max_rows_for_online_lookup = pos 2 }; default_typemap = 6 }

by_two-Coherent : Coherent (by_two.tmbo)
by_two-Coherent f oid hit = ground arith

fit_test : fit_to_result casts oids (ok columns) by_two ≡ (
  ok (by_column (record { convs = some 23 ∷ none ∷ []; default_typemap = 7 })),
  (fit_to_result casts oids (ok columns) by_two).1,
)
unfolding fit_to_result build_type_map build_column_map column_coder lookup_oid
fit_test = refl

-- A column without a coder is cast by the default type map that was fitted.
fitted_value-fit_to_result_example :
    (fitted : Fitted ℕ ℕ) × (s : OidMap ℕ) × (fit_to_result casts oids (ok columns) by_two
      ≡ (ok fitted, s))
    × (fitted_value casts columns fitted by_two 2 1
        ≡ cast_value casts columns (by_two.tmbo.oid_to_coder) 7 2 1)
fitted_value-fit_to_result_example =
    fitted_value-fit_to_result casts oids columns by_two 7 by_two-Coherent refl
      (λ k lo hi. (Format.text, refl)) 2 1 (omega arith)

cast_test : cast_value casts columns (by_two.tmbo.oid_to_coder) 7 2 1 ≡ ok 7000
unfolding cast_value
cast_test = refl
