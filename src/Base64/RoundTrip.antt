-- ===== src/Base64/RoundTrip.antt =====
-- src/base64.cpp: what the decoder does with the text of the encoder.
use smartthings4cpp.Base.{
  ℕ, ◌<◌, ◌≡◌, refl, false, Option, some, arith, ◌∙◌, ◌+◌, ◌*◌, ◌^◌, ◌%◌, ◌/◌, [], ◌∷◌, ◌++◌,
  append_assoc, append-nil, Bytes, All, IsByte, length, bind?, ap, sym,
}
use smartthings4cpp.Base64.{
  alphabet_at, Decoder, shift_in, decode_loop, decode_finish, decode, encode, decoder_start,
}
use smartthings4cpp.Base64.Sextets.{
  decode_loop-alphabet_at, padding-shift_in, decode_loop-padding, decode_loop-nil,
}

-- A decoder with no padding seen.
abbrev running : ℕ → ℕ → Bytes → Decoder
running a n out = record { accumulator = a; bits = n; padding = false; output = out }

abbrev finish : Option Decoder → Option Bytes
finish m = bind? m decode_finish

-- The first two characters of a group give its first byte and leave four bits.
two_sextets :
    (a b0 x : ℕ) (out : Bytes)
    → b0 < 256
    → x < 16
    → (a' : ℕ) × (shift_in (shift_in (running a 0 out) (b0 / 4)) (b0 % 4 * 16 + x)
        ≡ running a' 4 (out ++ b0 ∷ []))
      × (a' % 16 ≡ x)
unfolding shift_in
two_sextets a b0 x out h hx =
    (((a * 64 + b0 / 4) % 2 ^ 32 * 64 + (b0 % 4 * 16 + x)) % 2 ^ 32, ground arith, omega arith)

third_sextet :
    (a b1 y : ℕ) (out : Bytes)
    → b1 < 256
    → y < 4
    → a % 16 ≡ b1 / 16
    → (a' : ℕ) × (shift_in (running a 4 out) (b1 % 16 * 4 + y) ≡ running a' 2 (out ++ b1 ∷ []))
      × (a' % 4 ≡ y)
unfolding shift_in
third_sextet a b1 y out h hy e = ((a * 64 + (b1 % 16 * 4 + y)) % 2 ^ 32, ground arith, omega arith)

fourth_sextet :
    (a b2 : ℕ) (out : Bytes)
    → b2 < 256
    → a % 4 ≡ b2 / 64
    → (a' : ℕ) × (shift_in (running a 2 out) (b2 % 64) ≡ running a' 0 (out ++ b2 ∷ []))
unfolding shift_in
fourth_sextet a b2 out h e = ((a * 64 + b2 % 64) % 2 ^ 32, ground arith)

-- The same three steps, as moves of the loop.
first_byte :
    (a b0 x c : ℕ) (out rest : Bytes)
    → b0 < 256
    → x < 16
    → c ≡ b0 % 4 * 16 + x
    → (a' : ℕ) × (decode_loop (alphabet_at (b0 / 4) ∷ alphabet_at c ∷ rest) (running a 0 out)
        ≡ decode_loop rest (running a' 4 (out ++ b0 ∷ [])))
      × (a' % 16 ≡ x)
first_byte a b0 x c out rest h hx hc =
    let (a', e, low) = two_sextets a b0 x out h hx in
    (
      a',
      rw hc (
          decode_loop-alphabet_at (b0 / 4) _ (running a 0 out) (omega arith) refl
          ∙ decode_loop-alphabet_at (b0 % 4 * 16 + x) rest (shift_in (running a 0 out) (b0 / 4))
              (omega arith) (padding-shift_in (running a 0 out) (b0 / 4))
          ∙ ap (decode_loop rest) e),
      low,
    )

second_byte :
    (a b1 y c : ℕ) (out rest : Bytes)
    → b1 < 256
    → y < 4
    → c ≡ b1 % 16 * 4 + y
    → a % 16 ≡ b1 / 16
    → (a' : ℕ) × (decode_loop (alphabet_at c ∷ rest) (running a 4 out)
        ≡ decode_loop rest (running a' 2 (out ++ b1 ∷ [])))
      × (a' % 4 ≡ y)
second_byte a b1 y c out rest h hy hc e =
    let (a', step, low) = third_sextet a b1 y out h hy e in
    (
      a',
      rw hc (
          decode_loop-alphabet_at (b1 % 16 * 4 + y) rest (running a 4 out) (omega arith) refl
          ∙ ap (decode_loop rest) step),
      low,
    )

third_byte :
    (a b2 : ℕ) (out rest : Bytes)
    → b2 < 256
    → a % 4 ≡ b2 / 64
    → (a' : ℕ) × (decode_loop (alphabet_at (b2 % 64) ∷ rest) (running a 2 out)
        ≡ decode_loop rest (running a' 0 (out ++ b2 ∷ [])))
third_byte a b2 out rest h e =
    let (a', step) = fourth_sextet a b2 out h e in
    (
      a',
      decode_loop-alphabet_at (b2 % 64) rest (running a 2 out) (omega arith) refl
          ∙ ap (decode_loop rest) step,
    )

finish_clean :
    (d : Decoder) (n : ℕ) → d.bits ≡ n → d.accumulator % 2 ^ n ≡ 0 → decode_finish d ≡ some d.output
unfolding decode_finish
finish_clean d n e h = rw e (ground arith)

one_byte :
    (a b0 : ℕ) (out : Bytes)
    → b0 < 256
    → finish (decode_loop (encode (b0 ∷ [])) (running a 0 out)) ≡ some (out ++ b0 ∷ [])
unfolding encode
one_byte a b0 out h =
    let (a', e, low) =
      first_byte a b0 0 (b0 % 4 * 16) out (b'=' ∷ b'=' ∷ []) h (omega arith) (omega arith) in
    rw (e, decode_loop-padding, decode_loop-padding, decode_loop-nil) (finish_clean _ 4 refl low)

two_bytes :
    (a b0 b1 : ℕ) (out : Bytes)
    → b0 < 256
    → b1 < 256
    → finish (decode_loop (encode (b0 ∷ b1 ∷ [])) (running a 0 out)) ≡ some (out ++ b0 ∷ b1 ∷ [])
unfolding encode
two_bytes a b0 b1 out h h1 =
    let (a1, e1, low1) =
      first_byte a b0 (b1 / 16) (b0 % 4 * 16 + b1 / 16) out (alphabet_at (b1 % 16 * 4) ∷ b'=' ∷ [])
        h (omega arith) refl in
    let (a2, e2, low2) =
      second_byte a1 b1 0 (b1 % 16 * 4) (out ++ b0 ∷ []) (b'=' ∷ []) h1 (omega arith) (omega arith)
        low1 in
    rw (e1, e2, decode_loop-padding, decode_loop-nil)
      (finish_clean _ 2 refl low2 ∙ ap some (append_assoc out (b0 ∷ []) (b1 ∷ [])))

three_bytes :
    (a b0 b1 b2 : ℕ) (out rest : Bytes)
    → b0 < 256
    → b1 < 256
    → b2 < 256
    → (a' : ℕ) × (decode_loop (encode (b0 ∷ b1 ∷ b2 ∷ rest)) (running a 0 out)
        ≡ decode_loop (encode rest) (running a' 0 (((out ++ b0 ∷ []) ++ b1 ∷ []) ++ b2 ∷ [])))
unfolding encode
three_bytes a b0 b1 b2 out rest h h1 h2 =
    let (a1, e1, low1) =
      first_byte a b0 (b1 / 16) (b0 % 4 * 16 + b1 / 16) out
        (alphabet_at (b1 % 16 * 4 + b2 / 64) ∷ alphabet_at (b2 % 64) ∷ encode rest) h (omega arith)
        refl in
    let (a2, e2, low2) =
      second_byte a1 b1 (b2 / 64) (b1 % 16 * 4 + b2 / 64) (out ++ b0 ∷ [])
        (alphabet_at (b2 % 64) ∷ encode rest) h1 (omega arith) refl low1 in
    let (a3, e3) = third_byte a2 b2 ((out ++ b0 ∷ []) ++ b1 ∷ []) (encode rest) h2 low2 in
    (a3, e1 ∙ e2 ∙ e3)

decode_loop-encode :
    (s : Bytes) (a : ℕ) (out : Bytes)
    → All IsByte s
    → finish (decode_loop (encode s) (running a 0 out)) ≡ some (out ++ s)
decode_loop-encode [] a out h =
    unfold encode decode_loop decode_finish in ap some (sym (append-nil out))
decode_loop-encode (b0 ∷ []) a out h = one_byte a b0 out h.0
decode_loop-encode (b0 ∷ b1 ∷ []) a out h = two_bytes a b0 b1 out h.0 h.1.0
decode_loop-encode (b0 ∷ b1 ∷ b2 ∷ rest) a out h =
    let (a', e) = three_bytes a b0 b1 b2 out rest h.0 h.1.0 h.1.1.0 in
    ap finish e
    ∙ decode_loop-encode rest a' (((out ++ b0 ∷ []) ++ b1 ∷ []) ++ b2 ∷ []) h.1.1.1
    ∙ ap some (simp append_assoc)

decode-finish : (s : Bytes) → decode s ≡ finish (decode_loop s decoder_start)
unfolding decode
decode-finish s = refl

-- Whatever bytes are encoded, decoding gives them back.
pub decode-encode : (s : Bytes) → All IsByte s → decode (encode s) ≡ some s
decode-encode s h = decode-finish (encode s) ∙ decode_loop-encode s 0 [] h

-- The encoder writes four characters for every three bytes begun: what `reserve` asks for.
pub length-encode : (s : Bytes) → length (encode s) ≡ (length s + 2) / 3 * 4
unfolding encode
length-encode [] = refl
length-encode (b0 ∷ []) = refl
length-encode (b0 ∷ b1 ∷ []) = refl
length-encode (b0 ∷ b1 ∷ b2 ∷ rest) = omega (arith, length-encode rest)
