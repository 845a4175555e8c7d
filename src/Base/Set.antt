-- ===== src/Base/Set.antt =====
-- `std::unordered_set<std::string>` as a list without repetitions.
use mathlib.Core.Path.{◌≡◌, refl}
use mathlib.Core.Bool.{Bool, false, ◌||◌}
use mathlib.Core.List.{List, [], ◌∷◌}
use native.Mathlib.Omega.{arith}
use smartthings4cpp.Base.Tests.{if◌then◌else◌}
use smartthings4cpp.Base.Text.{Bytes, eqb, eqb_iff}

-- `count(k) != 0`
unfoldable pub contains : Bytes → List Bytes → Bool
contains k [] = false
contains k (j ∷ s) = eqb j k || contains k s

unfoldable pub insert : Bytes → List Bytes → List Bytes
insert k [] = k ∷ []
insert k (j ∷ s) = let rest = j ∷ insert k s in if eqb j k then j ∷ s else rest

unfoldable pub erase : Bytes → List Bytes → List Bytes
erase k [] = []
erase k (j ∷ s) = let rest = erase k s in if eqb j k then rest else j ∷ rest

pub contains-insert :
    (j k : Bytes) (s : List Bytes) → contains j (insert k s) ≡ (eqb k j || contains j s)
unfolding contains insert
contains-insert j k [] = refl
contains-insert j k (i ∷ s) =
    ground (arith, eqb_iff k j, eqb_iff i k, eqb_iff i j, contains-insert j k s)

pub contains-erase :
    (j k : Bytes) (s : List Bytes)
    → contains j (erase k s) ≡ (if eqb k j then false else contains j s)
unfolding contains erase
contains-erase j k [] = ground arith
contains-erase j k (i ∷ s) =
    ground (arith, eqb_iff k j, eqb_iff i k, eqb_iff i j, contains-erase j k s)
