-- ===== src/Base/Search.antt =====
-- `find` of one character with the two `substr` calls around the place found.
use mathlib.Core.Path.{◌≡◌, refl}
use mathlib.Core.Logic.{◌≢◌}
use mathlib.Core.List.{[], ◌∷◌, ◌++◌}
use mathlib.Core.Option.{Option, none, some}
use Prim.Native.Nat.{ℕ}
use native.Mathlib.Omega.{arith}
use smartthings4cpp.Base.Tests.{◌==◌, if◌then◌else◌, bind?}
use smartthings4cpp.Base.Lists.{All}
use smartthings4cpp.Base.Text.{Bytes}

abbrev pub Lacks : ℕ → Bytes → Type 0
Lacks c = All (λ d. d ≢ c)

-- What stands before and behind the first `c`; `none` is `npos`.
unfoldable pub cut : ℕ → Bytes → Option (Bytes × Bytes)
cut c [] = none
cut c (d ∷ s) =
    if d == c then some ([], s) else bind? (cut c s) (λ (front, back). some (d ∷ front, back))

pub cut-append : (c : ℕ) (p rest : Bytes) → Lacks c p → cut c (p ++ c ∷ rest) ≡ some (p, rest)
unfolding cut
cut-append c [] rest h = ground arith
cut-append c (d ∷ p) rest h = ground (arith, cut-append c p rest h.1)

pub cut-Lacks : (c : ℕ) (s : Bytes) → Lacks c s → cut c s ≡ none
unfolding cut
cut-Lacks c [] h = refl
cut-Lacks c (d ∷ s) h = ground (arith, cut-Lacks c s h.1)
