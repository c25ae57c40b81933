-- ===== src/Tuple/RoundTrip.antt =====
-- Marshalling a tuple of ext/pg_tuple.c, and a tuple whose result is gone.
use ruby_pg.Common.{
  ℕ, suc, ◌+◌, ◌<◌, ◌^◌, not, ◌==◌, lt→ltb, ==_iff, RubyError, Bool-cases, true, false, Option,
  none, some, List, [], ◌∷◌, map, length, if◌then◌else◌, ok, raises, and_then, and_then-eq-ok,
  then_do-eq-ok, given, given-eq-ok, negsuc, ◌≡◌, inl, inr, refl, ◌∙◌, ap, sym, subst, arith,
}
use ruby_pg.Common.Hash.{Eql, index_names, number}
use ruby_pg.Result.{Result, Typecast}
use ruby_pg.Tuple.{Tuple, dup_names, detach, get_field_names, materialize}
use ruby_pg.Tuple.View.{view, view-there}
use ruby_pg.Tuple.Sound.{Complete, IsSound, SameView-IsSound, detach-IsSound}
use ruby_pg.Tuple.Finish.{finish, distinct-number}
use ruby_pg.Tuple.Reads.{finish-read}
use ruby_pg.Tuple.Access.{
  present, tuple_values, Item, Marshaled, detached_tuple, names_or_keys, lenint, dump, load_arrays,
  load,
}

keys-number : {N : Type 0} (names : List N) (i : ℕ) → map (λ p. p.0) (number names i) ≡ names
keys-number [] i = refl
keys-number (n ∷ names) i = ap (λ t. n ∷ t) (keys-number names (i + 1))

map-present :
    {V : Type 0} (values : List (Option V)) {vs : List V}
    → present values ≡ ok vs
    → map some vs ≡ values
unfolding present
map-present [] h = cc
map-present (none ∷ values) h = cc
map-present (some v ∷ values) {vs} h =
    let (ws, p, q) = and_then-eq-ok (present values) _ h in
    let e : v ∷ ws ≡ vs = cc in ap (map some) (sym e) ∙ ap (λ t. some v ∷ t) (map-present values p)

length-map-some : {V : Type 0} (vs : List V) → length (map some vs) ≡ length vs
length-map-some [] = refl
length-map-some (v ∷ vs) = ap suc (length-map-some vs)

module _ {R P M N V : Type 0} (typecast : Typecast P M V) (heap : R → Result P M) (e : Eql N) where
  -- A tuple that was materialized is sound, complete and detached.
  materialize-read :
      (this : Tuple R M N V) {s : Tuple R M N V}
      → IsSound e this
      → materialize typecast heap this ≡ (ok tt, s)
      → IsSound e s
        × Complete s
        × (s.result ≡ none)
        × (s.typemap ≡ none)
        × (s.row_num ≡ negsuc 0)
        × ((typecast' : Typecast P M V) (heap' : R → Result P M) (col : ℕ)
            → col < this.num_fields
            → view typecast' heap' s col ≡ view typecast heap this col)
        × (s.num_fields ≡ this.num_fields)
  unfolding materialize finish
  materialize-read this {s} i h =
      let (s0, d, same, all) = finish-read typecast heap (λ i v. ok tt) this h in
      let complete : Complete s0 = λ col lt. all col (omega (arith, same.same_count)) in
      let keep = λ (P : Tuple R M N V → Type 0) (p : P (detach s0)). subst P d p in
      (
        keep (IsSound e) (detach-IsSound e (SameView-IsSound typecast heap e same i) complete),
        keep Complete complete,
        keep (λ t. t.result ≡ none) refl,
        keep (λ t. t.typemap ≡ none) refl,
        keep (λ t. t.row_num ≡ negsuc 0) refl,
        λ typecast' heap' col lt.
            let (v, at) = all col lt in
            keep (λ t. view typecast' heap' t col ≡ view typecast heap this col)
              (view-there typecast' heap' (detach s0) col at
                ∙ sym (view-there typecast heap s0 col at)
                ∙ same.same_view col),
        keep (λ t. t.num_fields ≡ this.num_fields) same.same_count,
      )

  -- After `values` returned, the tuple has no reference to its result, and each column reads, with
  -- any type maps and whatever becomes of the results, as it did before.
  pub view-tuple_values :
      (this : Tuple R M N V) {vs : List V} {s : Tuple R M N V}
      → IsSound e this
      → tuple_values typecast heap this ≡ (ok vs, s)
      → (typecast' : Typecast P M V) (heap' : R → Result P M) (col : ℕ) → col < this.num_fields
      → (s.result ≡ none) × (view typecast' heap' s col ≡ view typecast heap this col)
  unfolding tuple_values
  view-tuple_values this {vs} {s} i h typecast' heap' col lt =
      let (u, t, p, q) =
        then_do-eq-ok (materialize typecast heap this) (λ _ t. (present t.values, t)) h in
      let (sound, complete, gone, none_left, row, rest, count) = materialize-read this i p in
      let same : t ≡ s = cc in
      subst
        (λ (t : Tuple R M N V).
          (t.result ≡ none) × (view typecast' heap' t col ≡ view typecast heap this col))
        same (gone, rest typecast' heap' col lt)

module _ {R P M O : Type 0} (typecast : Typecast P M O) (heap : R → Result P M) (e : Eql O) where
  -- The names that a sound tuple is marshalled with.
  marshal_names :
      (t : Tuple R M O O) (i : IsSound e t) {f : Option (List O)}
      → get_field_names t ≡ ok f
      → names_or_keys f t.field_map ≡ i.names
  unfolding get_field_names
  marshal_names t i {f} h = elim (Bool-cases (dup_names t)) [
    | inl dup ↦
        let slot : t.field_names ≡ some i.names = rw dup at i.named in
        let g : ok (some i.names) ≡ ok f = sym (rw (dup, slot) refl) ∙ h in
        let z : some i.names ≡ f = cc in ap (λ f. names_or_keys f t.field_map) (sym z)
    | inr distinct ↦
        let g : ok none ≡ ok f = sym (rw distinct refl) ∙ h in
        let z : none ≡ f = cc in
        ap (λ f. names_or_keys f t.field_map) (sym z)
        ∙ ap (map (λ p. p.0)) (distinct-number typecast heap e t i distinct)
        ∙ keys-number i.names 0
  ]

  lenint-ok : (xs : List O) → length xs < 2 ^ 31 → lenint xs ≡ ok (length xs)
  lenint-ok xs lt = rw (lt→ltb (length xs) (2 ^ 31) lt) refl

  -- What `pg_tuple_load` builds from the names and the values of a detached tuple is that tuple.
  load_arrays-lem :
      (t : Tuple R M O O) (i : IsSound e t) (vs : List O)
      → t.result ≡ none
      → t.typemap ≡ none
      → t.row_num ≡ negsuc 0
      → t.num_fields < 2 ^ 31
      → map some vs ≡ t.values
      → load_arrays e i.names vs ≡ ok t
  unfolding load_arrays
  load_arrays-lem t i vs r m w int v =
      let n : length vs ≡ t.num_fields = sym (length-map-some vs) ∙ ap length v ∙ i.slots in
      let lv : lenint vs ≡ ok (length vs) = lenint-ok vs (omega (arith, n)) in
      let ln : lenint i.names ≡ ok (length i.names) =
        lenint-ok i.names (omega (arith, i.counted)) in
      let eq : (length i.names == length vs) ≡ true =
        (==_iff (length i.names) (length vs)).1 (i.counted ∙ sym n) in
      ap
        (λ l. and_then l (λ n. and_then (lenint i.names) (λ len.
          if not (len == n)
          then raises RubyError.type_error
          else ok (detached_tuple e i.names vs n))))
        lv
      ∙ ap
          (λ l. and_then l (λ len.
            if not (len == length vs)
            then raises RubyError.type_error
            else ok (detached_tuple e i.names vs (length vs))))
          ln
      ∙ ap
          (λ b.
            if not b
            then raises RubyError.type_error
            else ok (detached_tuple e i.names vs (length vs)))
          eq
      ∙ ap (λ k. ok (detached_tuple e i.names vs k)) n
      ∙ ap ok (λ j. record {
        result = sym r j;
        typemap = sym m j;
        field_map = sym i.mapped j;
        row_num = sym w j;
        num_fields = t.num_fields;
        values = v j;
        field_names = slot j;
      })
    where
      slot :
          (if not (t.num_fields == length (index_names e i.names 0 [])) then some i.names else none)
          ≡ t.field_names
      slot =
          ap (λ h. if not (t.num_fields == length h) then some i.names else none) (sym i.mapped)
          ∙ sym i.named

  -- What `marshal_dump` gives for a sound tuple of less than 2^31 fields, `marshal_load` turns into
  -- the tuple that `marshal_dump` left, in a new object: duplicated names, the Hash and the values
  -- included.
  pub load-dump :
      (this : Tuple R M O O) {a : Marshaled O} {s : Tuple R M O O}
      → IsSound e this
      → this.num_fields < 2 ^ 31
      → dump typecast heap this ≡ (ok a, s)
      → load e false a none ≡ (ok tt, some s)
  unfolding dump load
  load-dump this {a} {s} i int h =
      let (u, t, p, q) = then_do-eq-ok (materialize typecast heap this) _ h in
      let (f, fn, q') = given-eq-ok (get_field_names t) t _ q in
      let (vs, pv, z) = given-eq-ok (present t.values) t _ q' in
      let (sound, complete, gone, unmapped, row, rest, count) =
        materialize-read typecast heap e this i p in
      let same : t ≡ s = cc in
      let what : Marshaled.array (Item.array (names_or_keys f t.field_map) ∷ Item.array vs ∷ [])
          ≡ a =
        cc in
      ap (λ a. load e false a none) (sym what)
      ∙ ap (λ ns. load e false (Marshaled.array (Item.array ns ∷ Item.array vs ∷ [])) none)
          (marshal_names t sound fn)
      ∙ ap (λ l. given l none (λ this. (ok tt, some this)))
          (load_arrays-lem t sound vs gone unmapped row (omega (arith, count))
            (map-present t.values pv))
      ∙ ap (λ t. (ok tt, some t)) same
