-- ===== src/Base64/Sextets.antt =====
-- The table of src/base64.cpp and one round of its decoder on a character of the table.
use smartthings4cpp.Base.{
  if◌then◌else◌, Bytes, ◌∷◌, [], ℕ, zero, suc, ◌<◌, ◌≡◌, refl, Bool, true, false, ◌&&◌, not, none,
  some, arith, ◌==◌,
}
use smartthings4cpp.Base64.{
  alphabet_at, decode_char, decode_loop, is_ascii_space, Decoder, shift_in, decode_step,
}

-- A test of every sextet up to the last one counted.
passes_to : (ℕ → Bool) → ℕ → Bool
passes_to test zero = true
passes_to test (suc last) = if passes_to test last then test last else false

passes_to-each :
    (test : ℕ → Bool) (v bound : ℕ) → v < bound → passes_to test bound ≡ true → test v ≡ true
unfolding passes_to
passes_to-each test v zero below passed = ground arith
passes_to-each test v (suc last) below passed = ground (arith, passes_to-each test v last)

-- The decoder reads the character of `v` as `v`, and takes it neither for space nor for padding.
is_read_back : ℕ → Bool
is_read_back v =
    not (is_ascii_space (alphabet_at v))
    && not (alphabet_at v == b'=')
    && elim (decode_char (alphabet_at v)) [ none ↦ false | some w ↦ w == v ]

table : passes_to is_read_back 64 ≡ true
unfolding passes_to is_read_back is_ascii_space decode_char alphabet_at
table = refl

step_cases :
    (d : Decoder) (c v : ℕ)
    → (not (is_ascii_space c)
        && not (c == b'=')
        && elim (decode_char c) [ none ↦ false | some w ↦ w == v ])
      ≡ true
    → d.padding ≡ false
    → decode_step d c ≡ some (shift_in d v)
unfolding decode_step
step_cases d c v h p = ground arith

pub decode_step-alphabet_at :
    (d : Decoder) (v : ℕ)
    → v < 64
    → d.padding ≡ false
    → decode_step d (alphabet_at v) ≡ some (shift_in d v)
unfolding is_read_back
decode_step-alphabet_at d v h =
    step_cases d (alphabet_at v) v (passes_to-each is_read_back v 64 h table)

behind_padding_cases :
    (d : Decoder) (c v : ℕ)
    → (not (is_ascii_space c)
        && not (c == b'=')
        && elim (decode_char c) [ none ↦ false | some w ↦ w == v ])
      ≡ true
    → d.padding ≡ true
    → decode_step d c ≡ none
unfolding decode_step
behind_padding_cases d c v h p = ground arith

pub behind_padding :
    (d : Decoder) (v : ℕ) → v < 64 → d.padding ≡ true → decode_step d (alphabet_at v) ≡ none
unfolding is_read_back
behind_padding d v h =
    behind_padding_cases d (alphabet_at v) v (passes_to-each is_read_back v 64 h table)

pub decode_loop-alphabet_at :
    (v : ℕ) (rest : Bytes) (d : Decoder)
    → v < 64
    → d.padding ≡ false
    → decode_loop (alphabet_at v ∷ rest) d ≡ decode_loop rest (shift_in d v)
unfolding decode_loop
decode_loop-alphabet_at v rest d h p = rw (decode_step-alphabet_at d v h p, decode_loop)

pub padding-shift_in : (d : Decoder) (v : ℕ) → (shift_in d v).padding ≡ d.padding
unfolding shift_in
padding-shift_in d v = ground arith

-- Padding characters change nothing but the flag.
pub decode_loop-padding :
    (rest : Bytes) (d : Decoder)
    → decode_loop (b'=' ∷ rest) d ≡ decode_loop rest (record d { padding = true })
unfolding decode_loop decode_step is_ascii_space
decode_loop-padding rest d = refl

pub decode_loop-nil : (d : Decoder) → decode_loop [] d ≡ some d
unfolding decode_loop
decode_loop-nil d = refl
