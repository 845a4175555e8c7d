-- ===== src/OAuth/Url.antt =====
-- `urlEncode`, `hexValue` and `urlDecode` of src/oauth2/oauth2_authenticator.cpp.
pub mod RoundTrip
use smartthings4cpp.Base.{
  ℕ, ◌+◌, ◌-◌, ◌*◌, ◌/◌, ◌%◌, Bool, ◌&&◌, ◌||◌, [], ◌∷◌, ◌++◌, Option, none, some, Bytes, leb, ltb,
  ◌==◌, if◌then◌else◌, is_alnum, bind?,
}

unfoldable pub is_unreserved : ℕ → Bool
is_unreserved c = is_alnum c || (c == b'-') || (c == b'_') || (c == b'.') || (c == b'~')

-- One digit of `%02X`.
unfoldable pub hex_digit : ℕ → ℕ
hex_digit n = if ltb n 10 then b'0' + n else b'A' + n - 10

unfoldable pub url_encode : Bytes → Bytes
url_encode [] = []
url_encode (c ∷ s) =
    (if is_unreserved c then c ∷ [] else b'%' ∷ hex_digit (c / 16) ∷ hex_digit (c % 16) ∷ [])
    ++ url_encode s

-- `none` is the `-1` of the source.
unfoldable pub hex_value : ℕ → Option ℕ
hex_value c =
    if leb b'0' c && leb c b'9'
    then some (c - b'0')
    else if leb b'a' c && leb c b'f'
    then some (c - b'a' + 10)
    else if leb b'A' c && leb c b'F'
    then some (c - b'A' + 10)
    else none

unfoldable pub plain : ℕ → ℕ
plain c = if c == b'+' then b' ' else c

-- `(hi << 4) | lo`, when both are digits.
unfoldable pub hex_pair : ℕ → ℕ → Option ℕ
hex_pair h l = bind? (hex_value h) (λ hi. bind? (hex_value l) (λ lo. some (hi * 16 + lo)))

unfoldable pub url_decode : Bytes → Bytes
url_decode [] = []
url_decode (c ∷ []) = plain c ∷ []
url_decode (c ∷ h ∷ []) = plain c ∷ url_decode (h ∷ [])
url_decode (c ∷ h ∷ l ∷ rest) = elim (if c == b'%' then hex_pair h l else none) [
  | none ↦ plain c ∷ url_decode (h ∷ l ∷ rest)
  | some b ↦ b ∷ url_decode rest
]
