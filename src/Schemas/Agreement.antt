-- ===== src/Schemas/Agreement.antt =====
-- The headers, the source files and the factories of the typed capabilities agree.
use smartthings4cpp.Base.{
  ◌≡◌, refl, sym, ap, arith, ℕ, zero, suc, List, [], ◌∷◌, ◌++◌, map, some, Bytes, str, eqb, eqb_iff,
  get_elem?, Option-cases, inl, inr,
}
use smartthings4cpp.Base.{All, All-append, Bool-cases}
use smartthings4cpp.Capability.{Kind, Schema}
use smartthings4cpp.Schemas.Parts.{Class}
use smartthings4cpp.Schemas.StandardTable.{standard_classes}
use smartthings4cpp.Schemas.ProprietaryTable.{proprietary_classes}
use smartthings4cpp.Schemas.Factory.{create_from, create_capability}

module _ {A B : Type 0} (f g : A → B) where
  map-All : (xs : List A) → map f xs ≡ map g xs → All (λ x. f x ≡ g x) xs
  map-All [] e = tt
  map-All (x ∷ xs) e = (cc, map-All xs cc)

some-injective : {A : Type 0} (x y : A) → some x ≡ some y → x ≡ y
some-injective x y e = cc

All-at :
    {A : Type 0} (P : A → Type 0) (xs : List A) (i : ℕ) (x : A)
    → All P xs
    → get_elem? xs i ≡ some x
    → P x
All-at P [] i x h e = absurd cc
All-at P (y ∷ ys) zero x (py, h) e = rw (sym (some-injective y x e)) py
All-at P (y ∷ ys) (suc i) x (py, h) e = All-at P ys i x h e

-- What a header declares: the id, the types of the properties, the types of the parameters, the commands.
abbrev pub declared : Class → Bytes × List Kind × List (List Kind) × List Bytes
declared (h, s) = (
  h.capability_id,
  map (λ f. f.kind) h.properties,
  map (λ m. m.arguments) h.methods,
  h.command_names,
)

-- What a source file has of these.
abbrev pub provided : Class → Bytes × List Kind × List (List Kind) × List Bytes
provided (h, s) = (
  s.id,
  map (λ f. f.kind) s.fields,
  map (λ m. m.arguments) s.commands,
  map (λ m. m.name) s.commands,
)

standard_agree : map declared standard_classes ≡ map provided standard_classes
unfolding standard_classes
standard_agree = refl

proprietary_agree : map declared proprietary_classes ≡ map provided proprietary_classes
unfolding proprietary_classes
proprietary_agree = refl

all_created :
    map (λ c. create_capability c.0.capability_id) (standard_classes ++ proprietary_classes)
    ≡ map (λ c. c.1) (standard_classes ++ proprietary_classes)
unfolding create_capability create_from standard_classes proprietary_classes str eqb
all_created = refl

-- Every class of the two factories is the one created for the id of its header; its source file passes the
-- same id on, reads one attribute for each property, of the property's type, pushes for each method the
-- arguments of the declared types in their order, and sends the commands that `commandNames()` lists.
pub class_agrees :
    (i : ℕ) (c : Class)
    → get_elem? (standard_classes ++ proprietary_classes) i ≡ some c
    → (create_capability c.0.capability_id ≡ c.1) × (declared c ≡ provided c)
class_agrees i c found = (
  All-at (λ x. create_capability x.0.capability_id ≡ x.1) (standard_classes ++ proprietary_classes)
      i c
      (map-All (λ x. create_capability x.0.capability_id) (λ x. x.1)
        (standard_classes ++ proprietary_classes) all_created)
      found,
  All-at (λ x. declared x ≡ provided x) (standard_classes ++ proprietary_classes) i c
      (All-append (λ x. declared x ≡ provided x) standard_classes proprietary_classes
        (map-All declared provided standard_classes standard_agree)
        (map-All declared provided proprietary_classes proprietary_agree))
      found,
)

create_from-id :
    (classes : List Class) (id : Bytes) (s : Schema)
    → All (λ x. declared x ≡ provided x) classes
    → create_from classes id ≡ some s
    → s.id ≡ id
unfolding create_from
create_from-id [] id s h e = absurd cc
create_from-id ((header, schema) ∷ classes) id s (same, h) e =
    elim (Bool-cases (eqb id header.capability_id)) [
      | inl t ↦ ground (arith, t, e, ap (λ x. x.0) same, eqb_iff id header.capability_id)
      | inr t ↦ create_from-id classes id s h (ground (arith, t, e))
    ]

pub create_capability-id : (id : Bytes) → (create_capability id).id ≡ id
unfolding create_capability
create_capability-id id = elim (Option-cases (create_from standard_classes id)) [
  | inr (s, e) ↦ ground (
    arith,
    e,
    create_from-id standard_classes id s (map-All declared provided standard_classes standard_agree)
        e,
  )
  | inl n ↦ elim (Option-cases (create_from proprietary_classes id)) [
    | inr (s, e) ↦ ground (
      arith,
      n,
      e,
      create_from-id proprietary_classes id s
          (map-All declared provided proprietary_classes proprietary_agree) e,
    )
    | inl m ↦ ground (arith, n, m)
  ]
]
