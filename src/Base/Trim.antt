-- ===== src/Base/Trim.antt =====
-- Text helpers of src/webhook_signature.cpp and src/http_server.cpp: `toLower`, `trim`, and the words
-- that `>>` reads from a stream.
use mathlib.Core.Path.{◌≡◌, refl}
use mathlib.Core.Bool.{Bool, true, false, ◌||◌}
use mathlib.Core.List.{List, [], ◌∷◌, ◌++◌, map}
use Prim.Native.Nat.{ℕ}
use native.Mathlib.Omega.{arith}
use smartthings4cpp.Base.Tests.{◌==◌, if◌then◌else◌}
use smartthings4cpp.Base.Lists.{All, is_empty}
use smartthings4cpp.Base.Text.{Bytes, to_lower, is_space}

unfoldable pub lower : Bytes → Bytes
lower = map to_lower

-- One of " \t\r\n".
unfoldable pub is_blank : ℕ → Bool
is_blank c = (c == 32) || (c == 9) || (c == 13) || (c == 10)

unfoldable pub trim_front : Bytes → Bytes
trim_front [] = []
trim_front (c ∷ s) = let rest = trim_front s in if is_blank c then rest else c ∷ s

unfoldable pub trim_back : Bytes → Bytes
trim_back [] = []
trim_back (c ∷ s) =
    let rest = trim_back s in
    if is_empty rest then (if is_blank c then [] else c ∷ []) else c ∷ rest

unfoldable pub trim : Bytes → Bytes
trim s = trim_back (trim_front s)

-- The word read so far, and the words behind it.
unfoldable pub words_from : Bytes → Bytes → List Bytes
words_from [] word = if is_empty word then [] else word ∷ []
words_from (c ∷ s) word = elim (is_space c) [
  | true ↦ let rest = words_from s [] in if is_empty word then rest else word ∷ rest
  | false ↦ words_from s (word ++ c ∷ [])
]

unfoldable pub words : Bytes → List Bytes
words s = words_from s []

-- `splitLowerWords`
unfoldable pub split_lower_words : Bytes → List Bytes
split_lower_words s = map lower (words s)

-- No blank stands in the text.
abbrev pub IsTight : Bytes → Type 0
IsTight = All (λ c. is_blank c ≡ false)

trim_front-IsTight : (s : Bytes) → IsTight s → trim_front s ≡ s
unfolding trim_front
trim_front-IsTight [] h = refl
trim_front-IsTight (c ∷ s) h = rw h.0

trim_back-IsTight : (s : Bytes) → IsTight s → trim_back s ≡ s
unfolding trim_back
trim_back-IsTight [] h = refl
trim_back-IsTight (c ∷ s) h = rw (trim_back-IsTight s h.1, h.0) (ground arith)

-- Trimming leaves a text with no blank as it is.
pub trim-IsTight : (s : Bytes) → IsTight s → trim s ≡ s
unfolding trim
trim-IsTight s h = rw (trim_front-IsTight s h) (trim_back-IsTight s h)
