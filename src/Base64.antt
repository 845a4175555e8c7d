-- ===== src/Base64.antt =====
-- src/base64.cpp: `encode` and `decode`. A shift of disjoint bits joined by `|` is written as a
-- product and a sum. The `int` accumulator of `decode` is kept as its 32-bit pattern.
pub mod Sextets
pub mod RoundTrip
pub mod Accepts
use smartthings4cpp.Base.{
  ℕ, ◌+◌, ◌-◌, ◌*◌, ◌/◌, ◌%◌, ◌^◌, Bool, true, false, ◌&&◌, ◌||◌, not, List, [], ◌∷◌, ◌++◌, Option,
  none, some, Bytes, str, leb, ltb, ◌==◌, if◌then◌else◌, get_elem?, value_or, bind?,
}

-- `ALPHABET`
alphabet : Bytes
unfolding str
alphabet = str "ABCDEFGHIJKLMNOPQRSTUVWXYZabcdefghijklmnopqrstuvwxyz0123456789+/"

-- `ALPHABET[i]`; the index is below 64 wherever the code reads it.
unfoldable pub alphabet_at : ℕ → ℕ
unfolding alphabet
alphabet_at i = value_or (get_elem? alphabet i) 0

-- `none` is the `-1` of the source.
unfoldable pub decode_char : ℕ → Option ℕ
decode_char c =
    if leb b'A' c && leb c b'Z'
    then some (c - b'A')
    else if leb b'a' c && leb c b'z'
    then some (c - b'a' + 26)
    else if leb b'0' c && leb c b'9'
    then some (c - b'0' + 52)
    else if c == b'+'
    then some 62
    else if c == b'/'
    then some 63
    else none

unfoldable pub is_ascii_space : ℕ → Bool
is_ascii_space c = (c == b' ') || (c == 9) || (c == 13) || (c == 10)

-- A whole group of three bytes is the body of the loop; one or two bytes left are the two branches
-- behind it.
unfoldable pub encode : Bytes → Bytes
encode [] = []
encode (b0 ∷ []) = alphabet_at (b0 / 4) ∷ alphabet_at (b0 % 4 * 16) ∷ b'=' ∷ b'=' ∷ []
encode (b0 ∷ b1 ∷ []) =
    alphabet_at (b0 / 4)
    ∷ alphabet_at (b0 % 4 * 16 + b1 / 16)
    ∷ alphabet_at (b1 % 16 * 4)
    ∷ b'='
    ∷ []
encode (b0 ∷ b1 ∷ b2 ∷ rest) =
    alphabet_at (b0 / 4)
    ∷ alphabet_at (b0 % 4 * 16 + b1 / 16)
    ∷ alphabet_at (b1 % 16 * 4 + b2 / 64)
    ∷ alphabet_at (b2 % 64)
    ∷ encode rest

-- The locals of `decode`.
pub record Decoder : Type 0 where
  pub accumulator : ℕ
  pub bits : ℕ
  pub padding : Bool
  pub output : Bytes

abbrev pub decoder_start : Decoder
decoder_start = record { accumulator = 0; bits = 0; padding = false; output = [] }

-- The end of a round: a value of six bits goes in, and a byte comes out if eight bits are there.
unfoldable pub shift_in : Decoder → ℕ → Decoder
shift_in d value =
    let accumulator = (d.accumulator * 64 + value) % 2 ^ 32 in
    let bits = d.bits + 6 in
    if leb 8 bits
    then record d {
      accumulator = accumulator;
      bits = bits - 8;
      output = d.output ++ accumulator / 2 ^ (bits - 8) % 256 ∷ [];
    }
    else record d { accumulator = accumulator; bits = bits }

-- One round of the loop of `decode`; `none` is the return of `std::nullopt`.
unfoldable pub decode_step : Decoder → ℕ → Option Decoder
decode_step d c =
    if is_ascii_space c
    then some d
    else if c == b'='
    then some (record d { padding = true })
    else bind? (decode_char c) (λ value. if d.padding then none else some (shift_in d value))

unfoldable pub decode_loop : Bytes → Decoder → Option Decoder
decode_loop [] d = some d
decode_loop (c ∷ s) d = bind? (decode_step d c) (decode_loop s)

-- The test behind the loop.
unfoldable pub decode_finish : Decoder → Option Bytes
decode_finish d =
    if ltb 0 d.bits && not (d.accumulator % 2 ^ d.bits == 0) then none else some d.output

unfoldable pub decode : Bytes → Option Bytes
decode input = bind? (decode_loop input decoder_start) decode_finish
