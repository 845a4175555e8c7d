-- ===== src/Base/Text.antt =====
-- `std::string` as the list of its bytes. Literals and the comparison stay shut in proofs.
use Prim.Native.Char.{code}
use Prim.Native.Nat.{ℕ, ◌+◌, ◌<◌, ◌/◌, ◌%◌, zero, suc}
use Prim.Native.String.{String}
use mathlib.Core.Path.{◌≡◌, refl}
use mathlib.Core.Logic.{◌↔◌}
use mathlib.Core.Bool.{Bool, true, false, ◌&&◌, ◌||◌}
use mathlib.Core.List.{List, [], ◌∷◌}
use native.Mathlib.Omega.{arith}
use smartthings4cpp.Base.Tests.{leb, ltb, ◌==◌, if◌then◌else◌}

abbrev pub Bytes : Type 0
Bytes = List ℕ

-- The bytes of an ASCII literal.
unfoldable pub str : String → Bytes
str String.[] = []
str (String.◌∷◌ c s) = code c ∷ str s

-- `==` of `std::string`.
unfoldable pub eqb : Bytes → Bytes → Bool
eqb [] [] = true
eqb [] (d ∷ t) = false
eqb (c ∷ s) [] = false
eqb (c ∷ s) (d ∷ t) = (c == d) && eqb s t

pub eqb_iff : (s t : Bytes) → (eqb s t ≡ true) ↔ (s ≡ t)
unfolding eqb
eqb_iff [] [] = (λ h. refl, λ h. refl)
eqb_iff [] (d ∷ t) = (λ h. cc, λ h. cc)
eqb_iff (c ∷ s) [] = (λ h. cc, λ h. cc)
eqb_iff (c ∷ s) (d ∷ t) = ground (arith, eqb_iff s t)

pub eqb_refl : (s : Bytes) → eqb s s ≡ true
eqb_refl s = (eqb_iff s s).1 refl

-- The order of `std::string`, by which a `std::map` is sorted.
unfoldable pub before : Bytes → Bytes → Bool
before s [] = false
before [] (d ∷ t) = true
before (c ∷ s) (d ∷ t) = ltb c d || ((c == d) && before s t)

-- `std::tolower`, `std::isspace`, `std::isalnum`, `std::isdigit` in the C locale.
unfoldable pub to_lower : ℕ → ℕ
to_lower c = if leb b'A' c && leb c b'Z' then c + 32 else c

unfoldable pub is_space : ℕ → Bool
is_space c = (c == 32) || (leb 9 c && leb c 13)

unfoldable pub is_digit : ℕ → Bool
is_digit c = leb b'0' c && leb c b'9'

unfoldable pub is_alnum : ℕ → Bool
unfolding is_digit
is_alnum c = is_digit c || (leb b'A' c && leb c b'Z') || (leb b'a' c && leb c b'z')

-- `std::to_string` of a number that is not negative: the digits below `fuel` places.
digits : ℕ → ℕ → Bytes → Bytes
digits zero n out = out
digits (suc f) n out =
    let rest = digits f (n / 10) ((b'0' + n % 10) ∷ out) in if n == 0 then out else rest

unfoldable pub to_string : ℕ → Bytes
unfolding digits
to_string n = if n == 0 then b'0' ∷ [] else digits n n []

-- A byte.
abbrev pub IsByte : ℕ → Type 0
IsByte c = c < 256
