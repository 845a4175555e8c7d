-- ===== src/Device/Places.antt =====
-- Where an event changes a device.
use smartthings4cpp.Base.{
  false, ◌&&◌, List, [], ◌∷◌, ◌++◌, some, Bytes, ◌≡◌, refl, ap, arith, eqb, eqb_iff, is_some, All,
  Bool-cases, Try-cases, inl, inr, ok,
}
use smartthings4cpp.Json.{JsonLib}
use smartthings4cpp.Capability.{Capability, NumberLib, set_local_attribute}
use smartthings4cpp.Device.{Component, find_capability, apply_to_capabilities, apply_to_components}
use smartthings4cpp.Device.Events.{
  apply_to_capabilities-hit, apply_to_capabilities-thrown, apply_to_capabilities-miss,
  apply_to_components-step,
}

module _ {V D : Type 0} (J : JsonLib V) (N : NumberLib V D) (attribute : Bytes) (value : V) where
  -- The first capability of the id took the event, where it stands.
  abbrev pub CapabilityTook : Bytes → List (Capability V D) → List (Capability V D) → Type 0
  CapabilityTook capability before after =
      (left : List (Capability V D)) × (c : Capability V D) × (now : Capability V D) × (right : List
        (Capability V D))
      × (before ≡ left ++ c ∷ right)
      × (after ≡ left ++ now ∷ right)
      × All (λ x. eqb x.schema.id capability ≡ false) left
      × (c.schema.id ≡ capability)
      × (set_local_attribute J N attribute value c ≡ ok now)

  apply_to_capabilities-place :
      (capability : Bytes) (caps after : List (Capability V D))
      → apply_to_capabilities J N capability attribute value caps ≡ some (ok after)
      → CapabilityTook capability caps after
  unfolding apply_to_capabilities
  apply_to_capabilities-place capability [] after h = absurd cc
  apply_to_capabilities-place capability (c ∷ caps) after h =
      elim (Bool-cases (eqb c.schema.id capability)) [
        | inl t ↦ elim (Try-cases (set_local_attribute J N attribute value c)) [
          | inl (now, e) ↦ (
            [],
            c,
            now,
            caps,
            refl,
            apply_to_capabilities-hit J N attribute value capability c now caps after t e h,
            tt,
            ground (arith, t, eqb_iff c.schema.id capability),
            e,
          )
          | inr (what, e) ↦
              absurd (
                apply_to_capabilities-thrown J N attribute value capability c caps after what t e h)
        ]
        | inr t ↦
            let (rest, e, f) =
              apply_to_capabilities-miss J N attribute value capability c caps after t h in
            let (left, old, now, right, was, is, others, found, taken) =
              apply_to_capabilities-place capability caps rest e in
            (
              c ∷ left,
              old,
              now,
              right,
              ap (λ xs. c ∷ xs) was,
              rw f (ap (λ xs. c ∷ xs) is),
              (t, others),
              found,
              taken,
            )
      ]

  -- The first component of the id that has the capability took the event, where it stands.
  abbrev pub ComponentTook : Bytes → Bytes → List (Component V D) → List (Component V D) → Type 0
  ComponentTook component_id capability before after =
      (front : List (Component V D)) × (component : Component V D) × (caps : List (Capability V D))
      × (back : List (Component V D)) × (before ≡ front ++ component ∷ back)
      × (after ≡ front ++ record component { capabilities = caps } ∷ back)
      × All
          (λ x.
            (eqb x.id component_id && is_some (find_capability capability x.capabilities)) ≡ false)
          front
      × (component.id ≡ component_id)
      × CapabilityTook capability component.capabilities caps

  pub apply_to_components-place :
      (component_id capability : Bytes) (components after : List (Component V D))
      → apply_to_components J N component_id capability attribute value components ≡ some (ok after)
      → ComponentTook component_id capability components after
  unfolding apply_to_components
  apply_to_components-place component_id capability [] after h = absurd cc
  apply_to_components-place component_id capability (c ∷ components) after h =
      elim (apply_to_components-step J N attribute value component_id capability c components after
        h) [
          | inl (caps, t, e, f) ↦ (
            [],
            c,
            caps,
            components,
            refl,
            f,
            tt,
            ground (arith, t, eqb_iff c.id component_id),
            apply_to_capabilities-place capability c.capabilities caps e,
          )
          | inr (rest, t, e, f) ↦
              let (front, component, caps, back, was, is, others, found, taken) =
                apply_to_components-place component_id capability components rest e in
              (
                c ∷ front,
                component,
                caps,
                back,
                ap (λ xs. c ∷ xs) was,
                rw f (ap (λ xs. c ∷ xs) is),
                (t, others),
                found,
                taken,
              )
        ]
