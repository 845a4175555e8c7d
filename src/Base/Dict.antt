-- ===== src/Base/Dict.antt =====
-- `std::map<std::string, V>` as an association list sorted by key (also the unordered maps, whose
-- order the source leaves open).
use mathlib.Core.Path.{◌≡◌, refl}
use mathlib.Core.List.{List, [], ◌∷◌}
use mathlib.Core.Option.{Option, none, some}
use native.Mathlib.Omega.{arith}
use mathlib.Core.Logic.{inl, inr}
use smartthings4cpp.Base.Tests.{if◌then◌else◌, Option-cases}
use smartthings4cpp.Base.Text.{Bytes, eqb, eqb_iff, before}

abbrev pub Dict {ℓ} : Type ℓ → Type ℓ
Dict V = List (Bytes × V)

module _ {ℓ} {V : Type ℓ} where
  -- `find`
  unfoldable pub lookup : Bytes → Dict V → Option V
  lookup k [] = none
  lookup k ((j, v) ∷ d) = if eqb j k then some v else lookup k d

  replace : Bytes → V → Dict V → Dict V
  replace k v [] = []
  replace k v ((j, w) ∷ d) = if eqb j k then (k, v) ∷ d else (j, w) ∷ replace k v d

  place : Bytes → V → Dict V → Dict V
  place k v [] = (k, v) ∷ []
  place k v ((j, w) ∷ d) =
      let rest = (j, w) ∷ place k v d in if before k j then (k, v) ∷ (j, w) ∷ d else rest

  -- `d[k] = v`: a value replaced, or a new entry at its place in the order.
  unfoldable pub insert : Bytes → V → Dict V → Dict V
  unfolding replace place
  insert k v d = elim (lookup k d) [ none ↦ place k v d | some _ ↦ replace k v d ]

  -- `d.erase(k)`
  unfoldable pub erase : Bytes → Dict V → Dict V
  erase k [] = []
  erase k ((j, w) ∷ d) = let rest = erase k d in if eqb j k then rest else (j, w) ∷ rest

  -- No key twice.
  abbrev pub Distinct : Dict V → Type ℓ
  Distinct [] = Unit
  Distinct ((k, _) ∷ d) = (lookup k d ≡ none) × Distinct d

  lookup-replace :
      (j k : Bytes) (v w : V) (d : Dict V)
      → lookup k d ≡ some w
      → lookup j (replace k v d) ≡ (if eqb k j then some v else lookup j d)
  unfolding lookup replace
  lookup-replace j k v w [] h = ground arith
  lookup-replace j k v w ((i, x) ∷ d) h =
      ground (arith, eqb_iff k j, eqb_iff i k, eqb_iff i j, lookup-replace j k v w d)

  lookup-place :
      (j k : Bytes) (v : V) (d : Dict V)
      → lookup k d ≡ none
      → lookup j (place k v d) ≡ (if eqb k j then some v else lookup j d)
  unfolding lookup place
  lookup-place j k v [] h = refl
  lookup-place j k v ((i, x) ∷ d) h =
      ground (arith, eqb_iff k j, eqb_iff i k, eqb_iff i j, lookup-place j k v d)

  pub lookup-insert :
      (j k : Bytes) (v : V) (d : Dict V)
      → lookup j (insert k v d) ≡ (if eqb k j then some v else lookup j d)
  unfolding insert
  lookup-insert j k v d = elim (Option-cases (lookup k d)) [
    | inl absent ↦ rw (absent, insert) (lookup-place j k v d absent)
    | inr (w, found) ↦ rw (found, insert) (lookup-replace j k v w d found)
  ]

  replace-Distinct :
      (k : Bytes) (v w : V) (d : Dict V)
      → lookup k d ≡ some w
      → Distinct d
      → Distinct (replace k v d)
  unfolding replace lookup
  replace-Distinct k v w [] h u = tt
  replace-Distinct k v w ((j, x) ∷ d) h (fresh, u) =
      ground (arith, eqb_iff j k, eqb_iff k j, replace-Distinct k v w d, lookup-replace j k v w d)

  place-Distinct :
      (k : Bytes) (v : V) (d : Dict V) → lookup k d ≡ none → Distinct d → Distinct (place k v d)
  unfolding place lookup
  place-Distinct k v [] h u = (refl, tt)
  place-Distinct k v ((j, x) ∷ d) h (fresh, u) =
      ground (arith, eqb_iff j k, eqb_iff k j, place-Distinct k v d, lookup-place j k v d)

  pub insert-Distinct : (k : Bytes) (v : V) (d : Dict V) → Distinct d → Distinct (insert k v d)
  unfolding insert
  insert-Distinct k v d u = elim (Option-cases (lookup k d)) [
    | inl absent ↦ rw (absent, insert) (place-Distinct k v d absent u)
    | inr (w, found) ↦ rw (found, insert) (replace-Distinct k v w d found u)
  ]

  pub lookup-erase :
      (j k : Bytes) (d : Dict V) → lookup j (erase k d) ≡ (if eqb k j then none else lookup j d)
  unfolding lookup erase
  lookup-erase j k [] = ground arith
  lookup-erase j k ((i, w) ∷ d) =
      ground (arith, eqb_iff k j, eqb_iff i k, eqb_iff i j, lookup-erase j k d)

  pub erase-Distinct : (k : Bytes) (d : Dict V) → Distinct d → Distinct (erase k d)
  unfolding erase
  erase-Distinct k [] u = tt
  erase-Distinct k ((j, w) ∷ d) (fresh, u) =
      ground (arith, erase-Distinct k d u, lookup-erase j k d)
