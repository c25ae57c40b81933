-- ===== src/Copy/Decode/Scan.antt =====
-- The loops of the text row decoder end: the fuel is enough.
use ruby_pg.Common.{
  ℕ, zero, suc, ◌+◌, ◌-◌, ◌*◌, ◌≤◌, ◌<◌, Bool, true, false, Option, some, List, [], ◌∷◌, ◌++◌,
  Bytes, length, ◌==◌, Outcome, fault, ◌≡◌, ◌≢◌, refl, arith, Option-cases, if_intro, inl, inr,
}
use ruby_pg.Coder.{CopyTypeMap, NeverFaults}
use ruby_pg.Copy.{CopyCoder}
use ruby_pg.Copy.Decode.{
  get_decimal_from_hex, octal_third, octal_second, hex_second, hex_first, read_escape, Scanned,
  scan_field, stop, field_value, push_field, read_fields, dec_copy_row,
}

octal_third-le : (v : ℕ) (cur : Bytes) → length (octal_third v cur).1 ≤ length cur
unfolding octal_third
octal_third-le v [] = omega arith
octal_third-le v (c ∷ cur) = ground arith

octal_second-le : (v : ℕ) (cur : Bytes) → length (octal_second v cur).1 ≤ length cur
unfolding octal_second
octal_second-le v [] = omega arith
octal_second-le v (c ∷ cur) = ground (arith, octal_third-le (v * 8 + (c - b'0')) cur)

hex_second-le : (v : ℕ) (cur : Bytes) → length (hex_second v cur).1 ≤ length cur
unfolding hex_second
hex_second-le v [] = omega arith
hex_second-le v (c ∷ cur) = ground arith

hex_first-le : (cur : Bytes) → length (hex_first cur).1 ≤ length cur
unfolding hex_first
hex_first-le [] = omega arith
hex_first-le (c ∷ cur) = elim (Option-cases (get_decimal_from_hex c)) [
  | inl e ↦ rw (e, hex_first) (omega arith)
  | inr (v, e) ↦ rw (e, hex_first) (omega (arith, hex_second-le v cur))
]

read_escape-le : (c : ℕ) (cur : Bytes) → length (read_escape c cur).1 ≤ length cur
unfolding read_escape
read_escape-le c cur = ground (arith, octal_second-le (c - b'0') cur, hex_first-le cur)

-- A scan returns, and moves forward past a delimiter.
pub record Scans (cur : Bytes) (r : Option Scanned) : Type 0 where
  pub result : Scanned
  pub is_some : r ≡ some result
  pub no_further : length result.cur_ptr ≤ length cur
  pub past_delim : result.found_delim ≡ true → length result.cur_ptr < length cur

Scans-longer :
    {cur : Bytes} (next : Bytes) {r : Option Scanned}
    → length cur ≤ length next
    → Scans cur r
    → Scans next r
Scans-longer next h s = record {
  result = s.result;
  is_some = s.is_some;
  no_further = omega (arith, s.no_further);
  past_delim = λ d. omega (arith, s.past_delim d);
}

Scans-stop :
    {cur : Bytes} (out : Bytes) (found : Bool) (end next : Bytes)
    → length next < length cur
    → Scans cur (stop out found end next)
Scans-stop out found end next h = record {
  result = _;
  is_some = refl;
  no_further = omega arith;
  past_delim = λ e. h;
}

pub scan_field-Scans :
    (fuel d : ℕ) (cur out : Bytes) → length cur < fuel → Scans cur (scan_field fuel d cur out)
unfolding scan_field
scan_field-Scans zero d cur out h = absurd (omega arith)
scan_field-Scans (suc f) d [] out h = record {
  result = _;
  is_some = refl;
  no_further = omega arith;
  past_delim = λ e. cc;
}
scan_field-Scans (suc f) d (c ∷ []) out h =
    let cur = c ∷ [] in
    if_intro (Scans cur) (c == d) (λ _. Scans-stop out true cur [] (omega arith))
      (λ _.
        if_intro (Scans cur) (c == b'\n') (λ _. Scans-stop out false cur [] (omega arith))
          (λ _.
            if_intro (Scans cur) (c == b'\\') (λ _. Scans-stop out false cur [] (omega arith))
              (λ _.
                Scans-longer cur (omega arith)
                  (scan_field-Scans f d [] (out ++ c ∷ []) (omega arith)))))
scan_field-Scans (suc f) d (c ∷ e ∷ cur) out h =
    let line = c ∷ e ∷ cur in
    let shorter = read_escape-le e cur in
    if_intro (Scans line) (c == d) (λ _. Scans-stop out true line (e ∷ cur) (omega arith))
      (λ _.
        if_intro (Scans line) (c == b'\n') (λ _. Scans-stop out false line (e ∷ cur) (omega arith))
          (λ _.
            if_intro (Scans line) (c == b'\\')
              (λ _. Scans-longer line (omega arith) (
                scan_field-Scans f d (read_escape e cur).1 (out ++ (read_escape e cur).0 ∷ [])
                  (omega arith)))
              (λ _.
                Scans-longer line (omega arith)
                  (scan_field-Scans f d (e ∷ cur) (out ++ c ∷ []) (omega arith)))))

module _ (this : CopyCoder) {V : Type 0} (tm : CopyTypeMap V) where
  module _ (sound : NeverFaults tm) where
    push_field-ne-fault :
        (cur : Bytes) (i : ℕ) (s : Scanned) (rest : Bytes → Outcome (List (Option V)))
        → (s.found_delim ≡ true → rest s.cur_ptr ≢ fault)
        → push_field this tm cur i s rest ≢ fault
    unfolding push_field field_value
    push_field-ne-fault cur i s rest h = ground (arith, sound.typecast_returns s.field_str i)

    read_fields-ne-fault :
        (fuel : ℕ) (cur : Bytes) (i : ℕ)
        → length cur < fuel
        → read_fields this tm fuel cur i ≢ fault
    unfolding read_fields
    read_fields-ne-fault zero cur i h = absurd (omega arith)
    read_fields-ne-fault (suc fuel) cur i h =
        let s = scan_field-Scans (suc (length cur)) this.delimiter cur [] (omega arith) in
        rw (s.is_some, read_fields)
          (push_field-ne-fault cur i s.result _ (λ d.
            read_fields-ne-fault fuel s.result.cur_ptr (i + 1) (omega (arith, s.past_delim d))))

    -- The decoder returns an array or raises, on every input: its loops end within the fuel.
    pub dec_copy_row-ne-fault : (line : Bytes) → dec_copy_row this tm line ≢ fault
    unfolding dec_copy_row
    dec_copy_row-ne-fault line =
        ground
          (arith, sound.fit_returns, read_fields-ne-fault (suc (length line)) line 0 (omega arith))
