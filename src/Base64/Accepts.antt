-- ===== src/Base64/Accepts.antt =====
-- src/base64.cpp: what the decoder skips and refuses, and the size of its accumulator.
use smartthings4cpp.Base.{
  ℕ, ◌<◌, ◌≤◌, ◌≡◌, refl, true, false, none, some, arith, ◌∙◌, ◌*◌, ◌^◌, sym, [], ◌∷◌, ◌++◌, Bytes,
  All, if◌then◌else◌, Bool-cases, bind?, bind?_assoc, bind?_congr, bind?-none, ap, inl, inr, map,
  List,
}
use smartthings4cpp.Base64.{
  alphabet_at, is_ascii_space, Decoder, shift_in, decode_step, decode_loop, decode_finish, decode,
  decoder_start,
}
use smartthings4cpp.Base64.Sextets.{
  behind_padding, decode_loop-alphabet_at, padding-shift_in, decode_loop-padding, decode_loop-nil,
}

-- The text without its ASCII white space.
pub without_spaces : Bytes → Bytes
without_spaces [] = []
without_spaces (c ∷ s) = if is_ascii_space c then without_spaces s else c ∷ without_spaces s

decode_step_space : (d : Decoder) (c : ℕ) → is_ascii_space c ≡ true → decode_step d c ≡ some d
unfolding decode_step
decode_step_space d c h = rw h

decode_loop-without_spaces :
    (s : Bytes) (d : Decoder) → decode_loop (without_spaces s) d ≡ decode_loop s d
unfolding without_spaces decode_loop
decode_loop-without_spaces [] d = refl
decode_loop-without_spaces (c ∷ s) d = elim (Bool-cases (is_ascii_space c)) [
  | inl space ↦ rw (space, decode_step_space d c space) (decode_loop-without_spaces s d)
  | inr other ↦ rw other (bind?_congr (decode_step d c) _ _ (λ d'. decode_loop-without_spaces s d'))
]

-- White space changes nothing, wherever it stands.
pub decode-without_spaces : (s : Bytes) → decode (without_spaces s) ≡ decode s
unfolding decode
decode-without_spaces s =
    ap (λ m. bind? m decode_finish) (decode_loop-without_spaces s decoder_start)

decode_loop-append :
    (s t : Bytes) (d : Decoder) → decode_loop (s ++ t) d ≡ bind? (decode_loop s d) (decode_loop t)
unfolding decode_loop
decode_loop-append [] t d = refl
decode_loop-append (c ∷ s) t d =
    bind?_congr (decode_step d c) _ _ (λ d'. decode_loop-append s t d')
    ∙ sym (bind?_assoc (decode_step d c) (decode_loop s) (decode_loop t))

value_behind_padding :
    (d : Decoder) (v : ℕ) (t : Bytes) → v < 64 → decode_loop (b'=' ∷ alphabet_at v ∷ t) d ≡ none
unfolding decode_loop
value_behind_padding d v t h =
    decode_loop-padding (alphabet_at v ∷ t) d
    ∙ rw (behind_padding (record d { padding = true }) v h refl)

-- A character of the alphabet behind a padding character is refused, whatever stands around them.
pub decode_behind_padding :
    (s t : Bytes) (v : ℕ) → v < 64 → decode (s ++ b'=' ∷ alphabet_at v ∷ t) ≡ none
unfolding decode
decode_behind_padding s t v h =
    ap (λ m. bind? m decode_finish)
      (decode_loop-append s (b'=' ∷ alphabet_at v ∷ t) decoder_start
        ∙ bind?-none (decode_loop s decoder_start) _ (λ d. value_behind_padding d v t h))

-- The decoder behind values shifted in one after another.
shift_all : List ℕ → Decoder → Decoder
shift_all [] d = d
shift_all (v ∷ vs) d = shift_all vs (shift_in d v)

decode_loop-map :
    (vs : List ℕ) (d : Decoder)
    → All (λ v. v < 64) vs
    → d.padding ≡ false
    → decode_loop (map alphabet_at vs) d ≡ some (shift_all vs d)
unfolding shift_all
decode_loop-map [] d h p = decode_loop-nil d
decode_loop-map (v ∷ vs) d h p =
    decode_loop-alphabet_at v (map alphabet_at vs) d h.0 p
    ∙ decode_loop-map vs (shift_in d v) h.1 (padding-shift_in d v ∙ p)

five_values :
    (v0 v1 v2 v3 v4 : ℕ)
    → 4 ≤ v0
    → v0 < 64
    → v1 < 64
    → v2 < 64
    → v3 < 64
    → v4 < 64
    → 2 ^ 32 ≤ (shift_all (v0 ∷ v1 ∷ v2 ∷ v3 ∷ v4 ∷ []) decoder_start).accumulator * 64
unfolding shift_all shift_in
five_values v0 v1 v2 v3 v4 h h0 h1 h2 h3 h4 = omega arith

-- Five characters of the alphabet, the first of value 4 or more, leave the decoder with an
-- accumulator that is 2 to the 32 or more once it is shifted left by six.
pub accumulator_outgrows_int :
    (v0 v1 v2 v3 v4 : ℕ) (d : Decoder)
    → 4 ≤ v0
    → v0 < 64
    → v1 < 64
    → v2 < 64
    → v3 < 64
    → v4 < 64
    → decode_loop (map alphabet_at (v0 ∷ v1 ∷ v2 ∷ v3 ∷ v4 ∷ [])) decoder_start ≡ some d
    → 2 ^ 32 ≤ d.accumulator * 64
accumulator_outgrows_int v0 v1 v2 v3 v4 d h h0 h1 h2 h3 h4 e =
    let vs : List ℕ = v0 ∷ v1 ∷ v2 ∷ v3 ∷ v4 ∷ [] in
    let same : shift_all vs decoder_start ≡ d =
      cc (decode_loop-map vs decoder_start (h0, (h1, (h2, (h3, (h4, tt))))) refl) in
    rw same at (five_values v0 v1 v2 v3 v4 h h0 h1 h2 h3 h4)
