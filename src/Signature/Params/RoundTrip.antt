-- ===== src/Signature/Params/RoundTrip.antt =====
-- `parseSignatureParams` on a header written in the usual form.
use smartthings4cpp.Base.{
  ℕ, zero, suc, ◌+◌, ◌<◌, ◌≤◌, Bool, true, false, List, [], ◌∷◌, ◌++◌, some, Bytes, ◌≡◌, ◌≢◌, refl,
  sym, ap, ◌∙◌, to_lower, arith, is_space, length, length-append, All, bind?, str, eqb,
}
use smartthings4cpp.Base.Trim.{lower, trim-IsTight, is_blank, IsTight}
use smartthings4cpp.Base.Search.{Lacks}
use smartthings4cpp.Signature.Params.{
  Fields, no_fields, skip_space, skip_separators, span_until, is_key_end, is_quote, read_value,
  set_field, field_behind, read_field, read_fields, check_fields, parse_signature_params,
  strip_scheme, starts_with_space,
}

abbrev pub Field : Type 0
Field = Bytes × Bytes

-- `name="value"`, and such fields joined by commas.
pub write_field : Field → Bytes → Bytes
write_field (n, v) rest = n ++ b'=' ∷ b'"' ∷ (v ++ b'"' ∷ rest)

pub write_fields : Field → List Field → Bytes
write_fields p [] = write_field p []
write_fields p (q ∷ ps) = write_field p (b',' ∷ write_fields q ps)

pub set_fields : Fields → List Field → Fields
set_fields f [] = f
set_fields f (p ∷ ps) = set_fields (set_field (lower p.0) p.1 f) ps

abbrev pub IsNameChar : ℕ → Type 0
IsNameChar c = (is_space c ≡ false) × ((c ≢ b',') × (c ≢ b'='))

-- A name with no separator in it, and a value with no quote in it.
abbrev pub IsField : Field → Type 0
IsField p = (p.0 ≢ []) × (All IsNameChar p.0 × Lacks b'"' p.1)

span_until-append :
    (stop : ℕ → Bool) (p rest : Bytes) (d : ℕ)
    → All (λ c. stop c ≡ false) p
    → stop d ≡ true
    → span_until stop (p ++ d ∷ rest) ≡ (p, d ∷ rest)
unfolding span_until
span_until-append stop [] rest d h e = rw e
span_until-append stop (c ∷ p) rest d h e = rw (h.0, span_until-append stop p rest d h.1 e)

name_no_end : (n : Bytes) → All IsNameChar n → All (λ c. is_key_end c ≡ false) n
name_no_end [] h = tt
name_no_end (c ∷ n) h = (ground (arith, h.0), name_no_end n h.1)

value_no_quote : (v : Bytes) → Lacks b'"' v → All (λ c. is_quote c ≡ false) v
value_no_quote [] h = tt
value_no_quote (c ∷ v) h = (ground (arith, h.0), value_no_quote v h.1)

not_blank : (c : ℕ) → is_space c ≡ false → is_blank c ≡ false
unfolding is_space is_blank
not_blank c h = ground arith

name_IsTight : (n : Bytes) → All IsNameChar n → IsTight n
name_IsTight [] h = tt
name_IsTight (c ∷ n) h = (not_blank c h.0.0, name_IsTight n h.1)

read_value_quoted :
    (v rest : Bytes) → Lacks b'"' v → read_value (b'"' ∷ (v ++ b'"' ∷ rest)) ≡ (v, rest)
unfolding read_value
read_value_quoted v rest h = rw (span_until-append is_quote v rest b'"' (value_no_quote v h) refl)

field_behind_value :
    (n v rest : Bytes) (f : Fields)
    → All IsNameChar n
    → Lacks b'"' v
    → field_behind n (b'=' ∷ b'"' ∷ (v ++ b'"' ∷ rest)) f ≡ (set_field (lower n) v f, rest)
unfolding field_behind
field_behind_value n v rest f h q =
    rw (read_value_quoted v rest q, trim-IsTight n (name_IsTight n h))

read_field-write_field :
    (p : Field) (rest : Bytes) (f : Fields)
    → IsField p
    → read_field (write_field p rest) f ≡ (set_field (lower p.0) p.1 f, rest)
unfolding read_field write_field
read_field-write_field (n, v) rest f h =
    rw (span_until-append is_key_end n (b'"' ∷ (v ++ b'"' ∷ rest)) b'=' (name_no_end n h.1.0) refl)
      (field_behind_value n v rest f h.1.0 h.1.1)

-- A field begins with no separator, so nothing is skipped before it.
name_starts :
    (n rest : Bytes)
    → n ≢ []
    → All IsNameChar n
    → (skip_separators (n ++ rest) ≡ n ++ rest) × (skip_space (n ++ rest) ≡ n ++ rest)
unfolding skip_separators skip_space
name_starts [] rest h a = absurd (h refl)
name_starts (c ∷ n) rest h a = ground (arith, a.0)

write_field_starts :
    (p : Field) (rest : Bytes)
    → IsField p
    → (c : ℕ) × (t : Bytes) × (write_field p rest ≡ c ∷ t)
      × (skip_separators (write_field p rest) ≡ c ∷ t)
      × (skip_space (write_field p rest) ≡ write_field p rest)
unfolding write_field
write_field_starts ([], v) rest h = absurd (h.0 refl)
write_field_starts (c ∷ n, v) rest h =
    let (a, b) = name_starts (c ∷ n) (b'=' ∷ b'"' ∷ (v ++ b'"' ∷ rest)) h.0 h.1.0 in
    (c, n ++ b'=' ∷ b'"' ∷ (v ++ b'"' ∷ rest), refl, a, b)

read_fields_at :
    (fuel : ℕ) (s : Bytes) (f : Fields) (c : ℕ) (t : Bytes)
    → skip_separators s ≡ c ∷ t
    → read_fields (suc fuel) s f
      ≡ read_fields fuel (read_field (c ∷ t) f).1 (read_field (c ∷ t) f).0
unfolding read_fields
read_fields_at fuel s f c t e = rw (e, read_fields)

read_fields_step :
    (fuel : ℕ) (p : Field) (rest : Bytes) (f : Fields)
    → IsField p
    → read_fields (suc fuel) (write_field p rest) f
      ≡ read_fields fuel rest (set_field (lower p.0) p.1 f)
read_fields_step fuel p rest f h =
    let (c, t, whole, skipped, _) = write_field_starts p rest h in
    read_fields_at fuel (write_field p rest) f c t skipped
    ∙ ap (λ (r : Fields × Bytes). read_fields fuel r.1 r.0)
        (ap (λ w. read_field w f) (sym whole) ∙ read_field-write_field p rest f h)

comma_skipped : (s : Bytes) → skip_separators (b',' ∷ s) ≡ skip_separators s
unfolding skip_separators is_space
comma_skipped s = refl

read_fields_comma :
    (fuel : ℕ) (s : Bytes) (f : Fields)
    → read_fields (suc fuel) (b',' ∷ s) f ≡ read_fields (suc fuel) s f
unfolding read_fields
read_fields_comma fuel s f = rw (comma_skipped s, read_fields)

read_fields_end : (fuel : ℕ) (f : Fields) → read_fields (suc fuel) [] f ≡ some f
unfolding read_fields skip_separators
read_fields_end fuel f = refl

length-write_field : (p : Field) (rest : Bytes) → length rest + 3 ≤ length (write_field p rest)
unfolding write_field
length-write_field (n, v) rest =
    omega (arith, length-append n (b'=' ∷ b'"' ∷ (v ++ b'"' ∷ rest)), length-append v (b'"' ∷ rest))

length-write_fields : (p : Field) (ps : List Field) → 3 ≤ length (write_fields p ps)
unfolding write_fields
length-write_fields p [] = omega (arith, length-write_field p [])
length-write_fields p (q ∷ ps) = omega (arith, length-write_field p (b',' ∷ write_fields q ps))

read_fields-write_fields :
    (fuel : ℕ) (p : Field) (ps : List Field) (f : Fields)
    → IsField p
    → All IsField ps
    → length (write_fields p ps) < fuel
    → read_fields fuel (write_fields p ps) f ≡ some (set_fields f (p ∷ ps))
unfolding write_fields set_fields
read_fields-write_fields zero p ps f h hs lt = elim lt [ ]
read_fields-write_fields (suc zero) p ps f h hs lt =
    absurd (omega (arith, length-write_fields p ps))
read_fields-write_fields (suc (suc fuel)) p [] f h hs lt =
    read_fields_step (suc fuel) p [] f h ∙ read_fields_end fuel (set_field (lower p.0) p.1 f)
read_fields-write_fields (suc (suc fuel)) p (q ∷ ps) f h hs lt =
    read_fields_step (suc fuel) p (b',' ∷ write_fields q ps) f h
    ∙ read_fields_comma fuel (write_fields q ps) (set_field (lower p.0) p.1 f)
    ∙ read_fields-write_fields (suc fuel) q ps (set_field (lower p.0) p.1 f) hs.0 hs.1
        (omega (arith, length-write_field p (b',' ∷ write_fields q ps)))

write_fields_starts :
    (p : Field) (ps : List Field) → IsField p → skip_space (write_fields p ps) ≡ write_fields p ps
unfolding write_fields
write_fields_starts p [] h = (write_field_starts p [] h).4
write_fields_starts p (q ∷ ps) h = (write_field_starts p (b',' ∷ write_fields q ps) h).4

scheme_stripped :
    (s : Bytes) → skip_space s ≡ s → strip_scheme (skip_space (str "Signature " ++ s)) ≡ s
unfolding strip_scheme skip_space starts_with_space is_space str lower to_lower eqb
scheme_stripped s h = h

-- Parameters written behind the scheme `Signature`, each as `name="value"`, joined by commas and
-- in any order, are read as those fields set one after another. A name is not empty and has no
-- space, comma or equals sign in it, a value no quote.
pub parse_signature_params-write :
    (p : Field) (ps : List Field)
    → IsField p
    → All IsField ps
    → parse_signature_params (str "Signature " ++ write_fields p ps)
      ≡ check_fields (set_fields no_fields (p ∷ ps))
unfolding parse_signature_params
parse_signature_params-write p ps h hs =
    let w : Bytes = write_fields p ps in
    let bare : strip_scheme (skip_space (str "Signature " ++ w)) ≡ w =
      scheme_stripped w (write_fields_starts p ps h) in
    rw (bare, parse_signature_params)
      (ap (λ m. bind? m check_fields)
        (read_fields-write_fields (suc (length w)) p ps no_fields h hs (omega arith)))
