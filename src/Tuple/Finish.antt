-- ===== src/Tuple/Finish.antt =====
-- A loop over all columns of a tuple of ext/pg_tuple.c, which then lets go of the result: what
-- `pg_tuple_materialize`, `pg_tuple_each_value` and `pg_tuple_each` come to.
use ruby_pg.Common.{
  ℕ, zero, suc, ◌+◌, ◌≤◌, ◌<◌, Option, none, some, List, [], ◌∷◌, ◌++◌, length, length-append,
  append_assoc, get_elem?, Bool-cases, false, Outcome, ok, fault, ok-ne-fault, and_then-ne-fault,
  Call, then_do, on_left, on_right, given, ◌≡◌, ◌≢◌, inl, inr, refl, ◌∙◌, ap, sym, fun_ext, arith,
}
use ruby_pg.Common.Hash.{Eql, index_names-number, number}
use ruby_pg.Result.{Result, Typecast}
use ruby_pg.Tuple.{
  Tuple, Block, dup_names, detach, get_field_names, materialize_field, each_field, each_column,
  let_go, each_entry, yield_at, each_by, yield_named, each,
}
use ruby_pg.Tuple.Loop.{visit}
use ruby_pg.Tuple.Sound.{IsSound}

pub visit-ne-fault :
    {V : Type 0} (body : ℕ → V → Outcome (Unit {0})) (column : ℕ → Outcome V) (left i n : ℕ)
    → i + left ≤ n
    → ((k : ℕ) → k < n → column k ≢ fault)
    → ((k : ℕ) → k < n → (v : V) → body k v ≢ fault)
    → visit body column left i ≢ fault
unfolding visit
visit-ne-fault body column zero i n le c b = ok-ne-fault
visit-ne-fault body column (suc left) i n le c b =
    and_then-ne-fault (column i) _ (c i (omega arith)) (λ v.
      and_then-ne-fault (body i v) _ (b i (omega arith) v)
        (λ _. visit-ne-fault body column left (i + 1) n (omega arith) c b))

get_elem?-middle :
    {A : Type 0} (pre : List A) (x : A) (xs : List A) (i : ℕ)
    → i ≡ length pre
    → get_elem? (pre ++ (x ∷ xs)) i ≡ some x
get_elem?-middle [] x xs zero q = refl
get_elem?-middle [] x xs (suc i) q = absurd (omega arith)
get_elem?-middle (y ∷ pre) x xs zero q = absurd (omega arith)
get_elem?-middle (y ∷ pre) x xs (suc i) q = get_elem?-middle pre x xs i (omega arith)

module _ {R P M N V : Type 0} (typecast : Typecast P M V) (heap : R → Result P M) where
  unfoldable pub finish :
      (ℕ → V → Outcome (Unit {0})) → Tuple R M N V → Call (Tuple R M N V) (Unit {0})
  finish body this =
      then_do (each_field typecast heap body this.num_fields 0 this) (λ _ s. (ok tt, detach s))

  module _ (e : Eql N) where
    pub distinct-number :
        (this : Tuple R M N V) (i : IsSound e this)
        → dup_names this ≡ false
        → this.field_map ≡ number i.names 0
    distinct-number this i d =
        i.mapped
        ∙ index_names-number e i.names 0 [] (
            let n : this.num_fields ≡ length this.field_map = ground arith in
            omega (arith, n, ap length i.mapped, i.counted))

module _ {W R P M N V : Type 0} (typecast : Typecast P M V) (heap : R → Result P M) where
  -- A loop that yields all columns, which then lets go of the result.
  unfoldable pub finish_yield :
      Block W ℕ V → Tuple R M N V × W → Call (Tuple R M N V × W) (Unit {0})
  finish_yield body s =
      then_do (each_column typecast heap body s.0.num_fields 0 s) (λ _ s'. let_go typecast heap s')

  -- The entries of a Hash that numbers the names are the columns.
  each_entry-number :
      (block : Block W N V) (pre ns : List N) (i : ℕ) (s : Tuple R M N V × W)
      → i ≡ length pre
      → each_entry typecast heap block (number ns i) s
        ≡ each_column typecast heap (yield_named block (pre ++ ns)) (length ns) i s
  unfolding each_entry each_column
  each_entry-number block pre [] i s q = refl
  each_entry-number block pre (n ∷ ns) i s q =
      ap (then_do (on_left (materialize_field typecast heap s.0 i) s.1)) (
        fun_ext (λ v. fun_ext (λ s'. step v s' (λ s''.
          each_entry-number block (pre ++ n ∷ []) ns (i + 1) s''
            (omega (arith, length-append {0} pre (n ∷ [])))))))
    where
      rest : Tuple R M N V × W → Call (Tuple R M N V × W) (Unit {0})
      rest s'' =
          each_column typecast heap (yield_named block (pre ++ (n ∷ ns))) (length ns) (i + 1) s''

      step :
          (v : V) (s' : Tuple R M N V × W)
          → ((s'' : Tuple R M N V × W)
              → each_entry typecast heap block (number ns (i + 1)) s''
                ≡ each_column typecast heap
                    (yield_named block ((pre ++ n ∷ []) ++ ns))
                    (length ns)
                    (i + 1)
                    s'')
          → then_do
              (on_right s'.0 (block n v s'.1))
              (λ _ s''. each_entry typecast heap block (number ns (i + 1)) s'')
            ≡ then_do
                (on_right s'.0 (yield_named block (pre ++ (n ∷ ns)) i v s'.1))
                (λ _ s''. rest s'')
      step v s' ih =
          ap (then_do (on_right s'.0 (block n v s'.1))) (
            fun_ext (λ _. fun_ext (λ s''.
              ih s''
              ∙ ap (λ l. each_column typecast heap (yield_named block l) (length ns) (i + 1) s'')
                  (append_assoc pre (n ∷ []) ns))))
          ∙ ap (λ o. then_do (on_right s'.0 (yield_at block o v s'.1)) (λ _ s''. rest s''))
              (sym (get_elem?-middle pre n ns i q))

  -- The loop that `pg_tuple_each` chooses.
  abbrev each_then :
      Block W N V
      → Tuple R M N V × W
      → Outcome (Option (List N))
      → Call (Tuple R M N V × W) (Unit {0})
  each_then block s names =
      then_do (given names s (λ field_names. each_by typecast heap block field_names s))
        (λ _ s'. let_go typecast heap s')

  -- Whether names are duplicated or not, `each` is the loop over the columns with their names.
  pub each-finish :
      (e : Eql N) (block : Block W N V) (this : Tuple R M N V) (w : W) (i : IsSound e this)
      → each typecast heap block (this, w) ≡ finish_yield (yield_named block i.names) (this, w)
  unfolding each finish_yield get_field_names
  each-finish e block this w i = elim (Bool-cases (dup_names this)) [
    | inl dup ↦ ap (each_then block (this, w)) (
        let slot : this.field_names ≡ some i.names = rw dup at i.named in
        let g : get_field_names this ≡ ok (some i.names) = rw (dup, slot) refl in g)
    | inr distinct ↦
        ap (each_then block (this, w))
          (let g : get_field_names this ≡ ok none = rw distinct refl in g)
        ∙ ap (λ m. then_do m (λ _ s'. let_go typecast heap s'))
            (ap (λ f. each_entry typecast heap block f (this, w))
                (distinct-number typecast heap e this i distinct)
              ∙ each_entry-number block [] i.names 0 (this, w) refl
              ∙ ap (λ n. each_column typecast heap (yield_named block i.names) n 0 (this, w))
                  i.counted)
  ]
