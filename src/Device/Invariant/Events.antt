-- ===== src/Device/Invariant/Events.antt =====
-- An event keeps a device sound.
use smartthings4cpp.Base.{
  Bool, List, [], ◌∷◌, some, Bytes, ◌≡◌, ap, ◌∙◌, arith, eqb, Bool-cases, Option-cases, Try-cases,
  inl, inr, ok, All,
}
use smartthings4cpp.Json.{JsonLib}
use smartthings4cpp.Capability.{Capability, NumberLib, set_local_attribute}
use smartthings4cpp.Capability.Statuses.{
  IsExact, set_local_attribute-InSync, set_local_attribute-frame,
}
use smartthings4cpp.Device.{
  Component, Device, apply_to_capabilities, apply_to_components, apply_device_event,
}
use smartthings4cpp.Device.Events.{
  apply_to_capabilities-hit, apply_to_capabilities-miss, apply_to_capabilities-thrown,
  apply_to_components-step,
}
use smartthings4cpp.Device.Invariant.{IsWired, IsSound, frame-IsWired}

module _ {V D : Type 0} (J : JsonLib V) (N : NumberLib V D) where
  apply_to_capabilities-IsWired :
      (component_id device_id : Bytes) (attached : Bool) (capability attribute : Bytes) (value : V)
      (caps after : List (Capability V D))
      → IsExact N
      → All (IsWired J N component_id device_id attached) caps
      → apply_to_capabilities J N capability attribute value caps ≡ some (ok after)
      → All (IsWired J N component_id device_id attached) after
  unfolding apply_to_capabilities
  apply_to_capabilities-IsWired component_id device_id attached capability attribute value [] after
        exact h e =
      absurd cc
  apply_to_capabilities-IsWired component_id device_id attached capability attribute value
        (c ∷ caps) after exact (w, h) e =
      elim (Bool-cases (eqb c.schema.id capability)) [
        | inl t ↦ elim (Try-cases (set_local_attribute J N attribute value c)) [
          | inl (now, f) ↦
              rw (apply_to_capabilities-hit J N attribute value capability c now caps after t f e) (
                frame-IsWired J N component_id device_id attached c now w
                    (set_local_attribute-frame J N attribute value c now f)
                    (set_local_attribute-InSync J N attribute value c now exact f),
                h,
              )
          | inr (what, f) ↦
              absurd (
                apply_to_capabilities-thrown J N attribute value capability c caps after what t f e)
        ]
        | inr t ↦
            let (rest, f, g) =
              apply_to_capabilities-miss J N attribute value capability c caps after t e in
            rw g (
              w,
              apply_to_capabilities-IsWired component_id device_id attached capability attribute
                  value caps rest exact h f,
            )
      ]

  apply_to_components-IsSound :
      (device_id : Bytes) (attached : Bool) (component_id capability attribute : Bytes) (value : V)
      (components after : List (Component V D))
      → IsExact N
      → All (λ c. All (IsWired J N c.id device_id attached) c.capabilities) components
      → apply_to_components J N component_id capability attribute value components ≡ some (ok after)
      → All (λ c. All (IsWired J N c.id device_id attached) c.capabilities) after
  unfolding apply_to_components
  apply_to_components-IsSound device_id attached component_id capability attribute value [] after
        exact h e =
      absurd cc
  apply_to_components-IsSound device_id attached component_id capability attribute value
        (c ∷ components) after exact (w, h) e =
      elim (apply_to_components-step J N attribute value component_id capability c components after
        e) [
          | inl (caps, _, f, g) ↦ rw g (
            apply_to_capabilities-IsWired c.id device_id attached capability attribute value
                c.capabilities caps exact w f,
            h,
          )
          | inr (rest, _, f, g) ↦ rw g (
            w,
            apply_to_components-IsSound device_id attached component_id capability attribute value
                components rest exact h f,
          )
        ]

  pub apply_device_event-IsSound :
      (component_id capability attribute : Bytes) (value : V) (answer : Bool) (d d' : Device V D)
      → IsExact N
      → IsSound J N d
      → apply_device_event J N component_id capability attribute value d ≡ ok (answer, d')
      → IsSound J N d'
  unfolding apply_device_event
  apply_device_event-IsSound component_id capability attribute value answer d d' exact h e =
      elim (Option-cases
        (apply_to_components J N component_id capability attribute value d.components)) [
          | inl n ↦ (let same : d' ≡ d = ground (arith, n, e) in rw same h)
          | inr (r, f) ↦ elim (Try-cases r) [
            | inl (components, g) ↦
                (let same : d' ≡ record d { components = components } = ground (arith, f, g, e) in
                  rw same (
                    apply_to_components-IsSound d.id d.attached component_id capability attribute
                      value d.components components exact h (f ∙ ap some g)))
            | inr (what, g) ↦ absurd (ground (arith, f, g, e))
          ]
        ]
