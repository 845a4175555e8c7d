-- ===== src/OAuth/Url/RoundTrip.antt =====
-- Percent encoding read back, and the characters that it leaves out.
use smartthings4cpp.Base.{
  ℕ, ◌<◌, ◌/◌, ◌%◌, ◌≡◌, ◌≢◌, refl, ◌∙◌, true, [], ◌∷◌, some, arith, Bytes, All, All-append, IsByte,
  is_alnum, is_digit, Bool-cases, inl, inr, ◌⊎◌,
}
use smartthings4cpp.Base.Search.{Lacks}
use smartthings4cpp.OAuth.Url.{
  is_unreserved, hex_digit, url_encode, hex_value, hex_pair, plain, url_decode,
}

hex_value-hex_digit : (n : ℕ) → n < 16 → hex_value (hex_digit n) ≡ some n
unfolding hex_value hex_digit
hex_value-hex_digit n h = ground arith

hex_pair_byte : (c : ℕ) → c < 256 → hex_pair (hex_digit (c / 16)) (hex_digit (c % 16)) ≡ some c
unfolding hex_pair
hex_pair_byte c h =
    ground (
      arith,
      hex_value-hex_digit (c / 16) (omega arith),
      hex_value-hex_digit (c % 16) (omega arith),
    )

plain_unreserved : (c : ℕ) → is_unreserved c ≡ true → (c ≢ b'%') × (plain c ≡ c)
unfolding is_unreserved plain is_alnum is_digit
plain_unreserved c h = ground arith

url_decode-plain : (c : ℕ) (s : Bytes) → c ≢ b'%' → url_decode (c ∷ s) ≡ plain c ∷ url_decode s
unfolding url_decode
url_decode-plain c [] h = refl
url_decode-plain c (d ∷ []) h = refl
url_decode-plain c (d ∷ e ∷ s) h = ground arith

url_decode_escape :
    (c : ℕ) (s : Bytes)
    → c < 256
    → url_decode (b'%' ∷ hex_digit (c / 16) ∷ hex_digit (c % 16) ∷ s) ≡ c ∷ url_decode s
unfolding url_decode
url_decode_escape c s h = rw (hex_pair_byte c h, url_decode)

-- Whatever bytes are percent-encoded, decoding gives them back.
pub url_decode-url_encode : (s : Bytes) → All IsByte s → url_decode (url_encode s) ≡ s
unfolding url_encode
url_decode-url_encode [] h = unfold url_decode in refl
url_decode-url_encode (c ∷ s) h = elim (Bool-cases (is_unreserved c)) [
  | inl safe ↦
      let (not_percent, same) = plain_unreserved c safe in
      rw safe
        (url_decode-plain c (url_encode s) not_percent ∙ rw (same, url_decode-url_encode s h.1))
  | inr other ↦ rw other (url_decode_escape c (url_encode s) h.0 ∙ rw (url_decode-url_encode s h.1))
]

-- The characters that separate the parts of a query.
abbrev pub IsSeparator : ℕ → Type 0
IsSeparator c = (c ≡ b'&') ⊎ ((c ≡ b'#') ⊎ ((c ≡ b'=') ⊎ (c ≡ b'?')))

unreserved-ne-separator : (c d : ℕ) → IsSeparator d → is_unreserved c ≡ true → c ≢ d
unfolding is_unreserved is_alnum is_digit
unreserved-ne-separator c d s h = ground arith

hex_digit-ne-separator : (n d : ℕ) → n < 16 → IsSeparator d → hex_digit n ≢ d
unfolding hex_digit
hex_digit-ne-separator n d h s = ground arith

-- Percent encoding writes none of the characters that separate the parts of a query.
pub url_encode-Lacks : (d : ℕ) (s : Bytes) → IsSeparator d → All IsByte s → Lacks d (url_encode s)
unfolding url_encode
url_encode-Lacks d [] sep h = tt
url_encode-Lacks d (c ∷ s) sep h =
    All-append _ _ (url_encode s)
      (elim (Bool-cases (is_unreserved c)) [
        | inl safe ↦ rw safe (unreserved-ne-separator c d sep safe, tt)
        | inr other ↦
            let percent : b'%' ≢ d = omega arith in
            rw other (
              percent,
              (
                hex_digit-ne-separator (c / 16) d (omega arith) sep,
                (hex_digit-ne-separator (c % 16) d (omega arith) sep, tt),
              ),
            )
      ])
      (url_encode-Lacks d s sep h.1)
