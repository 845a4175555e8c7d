-- ===== src/Signature/Params/Fuel.antt =====
-- The loop of `parseSignatureParams` ends on the fuel that it is given.
use smartthings4cpp.Base.{
  ℕ, zero, suc, ◌+◌, ◌<◌, ◌≤◌, Bool, false, [], ◌∷◌, some, Bytes, ◌≡◌, refl, ap, List-cases, arith,
  length, inl, inr, Bool-cases, ◌==◌,
}
use smartthings4cpp.Signature.Params.{
  Fields, skip_separators, span_until, is_key_end, is_quote, is_comma, tail_of, read_value,
  field_behind, read_field, read_fields,
}

length-span_until :
    (stop : ℕ → Bool) (s : Bytes)
    → length (span_until stop s).0 + length (span_until stop s).1 ≡ length s
unfolding span_until
length-span_until stop [] = refl
length-span_until stop (c ∷ s) = ground (arith, length-span_until stop s)

length-tail_of : (s : Bytes) → length (tail_of s) ≤ length s
length-tail_of [] = omega arith
length-tail_of (c ∷ s) = omega arith

length-skip_separators : (s : Bytes) → length (skip_separators s) ≤ length s
unfolding skip_separators
length-skip_separators [] = omega arith
length-skip_separators (c ∷ s) = ground (arith, length-skip_separators s)

skip_separators_head : (s rest : Bytes) (c : ℕ) → skip_separators s ≡ c ∷ rest → is_comma c ≡ false
unfolding skip_separators
skip_separators_head [] rest c h = cc
skip_separators_head (d ∷ s) rest c h = ground (arith, skip_separators_head s rest c)

length-read_value : (s : Bytes) → length (read_value s).1 ≤ length s
unfolding read_value
length-read_value [] = omega arith
length-read_value (c ∷ s) = ground (
  arith,
  length-span_until is_quote s,
  length-span_until is_comma (c ∷ s),
  length-tail_of (span_until is_quote s).1,
)

length-field_behind :
    (key rest : Bytes) (f : Fields) → length (field_behind key rest f).1 ≤ length rest
unfolding field_behind
length-field_behind key [] f = omega arith
length-field_behind key (c ∷ behind) f = ground (arith, length-read_value behind)

length-field_behind_equals :
    (key behind : Bytes) (f : Fields)
    → length (field_behind key (b'=' ∷ behind) f).1 ≤ length behind
unfolding field_behind
length-field_behind_equals key behind f = length-read_value behind

read_field_shorter :
    (c : ℕ) (rest : Bytes) (f : Fields)
    → is_comma c ≡ false
    → length (read_field (c ∷ rest) f).1 < length (c ∷ rest)
unfolding read_field span_until
read_field_shorter c rest f h = elim (Bool-cases (c == b'=')) [
  | inl equals ↦ ground (arith, length-field_behind_equals [] rest f)
  | inr other ↦ ground (
    arith,
    length-span_until is_key_end rest,
    length-field_behind (c ∷ (span_until is_key_end rest).0) (span_until is_key_end rest).1 f,
  )
]

-- With more fuel than the text has characters, as `parse_signature_params` gives it, the loop over
-- the fields ends with a result.
pub read_fields_total :
    (fuel : ℕ) (s : Bytes) (f : Fields)
    → length s < fuel
    → (g : Fields) × (read_fields fuel s f ≡ some g)
unfolding read_fields
read_fields_total zero s f h = elim h [ ]
read_fields_total (suc fuel) s f h = elim (List-cases (skip_separators s)) [
  | inl e ↦ (f, rw (e, read_fields))
  | inr (c, rest, e) ↦
      let (f', left) = read_field (c ∷ rest) f in
      let shorter : length left < fuel = omega (
        arith,
        read_field_shorter c rest f (skip_separators_head s rest c e),
        length-skip_separators s,
        ap length e,
      ) in
      let (g, reached) = read_fields_total fuel left f' shorter in (g, rw (e, read_fields) reached)
]
