-- ===== src/Device/Effects.antt =====
-- What an event and a status do to a device.
use smartthings4cpp.Base.{
  All, is_some, ◌++◌, false, ◌&&◌, List, [], ◌∷◌, none, Bytes, str, ◌≡◌, refl, arith, eqb,
  if◌then◌else◌, Option-cases, Try-cases, inl, inr, ok,
}
use smartthings4cpp.Json
use smartthings4cpp.Json.{JsonLib}
use smartthings4cpp.Capability.{
  Capability, NumberLib, attribute_value, update_status, with_status, read_fields,
}
use smartthings4cpp.Capability.Statuses.{IsExact, update_status_twice}
use smartthings4cpp.Device.{
  Component, Device, find_capability, apply_to_components, apply_device_event, update_capabilities,
  update_component, update_components, apply_status,
}
use smartthings4cpp.Device.Events.{locate, apply_to_components-none}

module _ {V D : Type 0} (J : JsonLib V) (N : NumberLib V D) where
  -- The first component of the id that has the capability, and in it the first capability of the id, holds
  -- another one in the same place.
  abbrev pub TookEvent : Bytes → Bytes → Bytes → V → Device V D → Device V D → Type 0
  TookEvent component_id capability attribute value d d' =
      (front : List (Component V D)) × (component : Component V D) × (back : List (Component V D))
      × (left : List (Capability V D)) × (c : Capability V D) × (now : Capability V D)
      × (right : List (Capability V D)) × (d.components ≡ front ++ component ∷ back)
      × (component.capabilities ≡ left ++ c ∷ right)
      × (d' ≡ record d {
        components = front ++ record component { capabilities = left ++ now ∷ right } ∷ back;
      })
      × (component.id ≡ component_id)
      × (c.schema.id ≡ capability)
      × All
          (λ x.
            (eqb x.id component_id && is_some (find_capability capability x.capabilities)) ≡ false)
          front
      × All (λ x. eqb x.schema.id capability ≡ false) left
      × ((j : Bytes)
          → attribute_value J now.status j
            ≡ (if eqb attribute j then value else attribute_value J c.status j))
      × (now ≡ record c {
        status = now.status;
        values = read_fields J N now.status c.schema.fields c.values;
      })

  -- Where `apply_device_event` answers that no capability took the event, the device has none that the
  -- event could reach, and it is unchanged.
  pub apply_device_event-missed :
      (component_id capability attribute : Bytes) (value : V) (d d' : Device V D)
      → apply_device_event J N component_id capability attribute value d ≡ ok (false, d')
      → (locate component_id capability d.components ≡ none) × (d' ≡ d)
  unfolding apply_device_event
  apply_device_event-missed component_id capability attribute value d d' h =
      elim (Option-cases
        (apply_to_components J N component_id capability attribute value d.components)) [
          | inl n ↦ (
            apply_to_components-none J N attribute value component_id capability d.components n,
            ground (arith, n, h),
          )
          | inr (r, e) ↦ elim (Try-cases r) [
            | inl (components, f) ↦ absurd (ground (arith, e, f, h))
            | inr (what, f) ↦ absurd (ground (arith, e, f, h))
          ]
        ]

  update_status-schema :
      (status : V) (c : Capability V D) → (update_status J N status c).schema ≡ c.schema
  unfolding update_status with_status
  update_status-schema status c = ground arith

  update_capabilities_twice :
      (status : V) (caps : List (Capability V D))
      → IsExact N
      → update_capabilities J N status (update_capabilities J N status caps)
        ≡ update_capabilities J N status caps
  unfolding update_capabilities
  update_capabilities_twice status [] exact = refl
  update_capabilities_twice status (c ∷ caps) exact =
      elim (Option-cases (Json.member J status c.schema.id)) [
        | inl n ↦ ground (arith, n, update_capabilities_twice status caps exact)
        | inr (s, e) ↦ ground (
          arith,
          e,
          update_status-schema s c,
          update_status_twice J N s c exact,
          update_capabilities_twice status caps exact,
        )
      ]

  update_components_twice :
      (statuses : V) (components : List (Component V D))
      → IsExact N
      → update_components J N statuses (update_components J N statuses components)
        ≡ update_components J N statuses components
  unfolding update_components update_component
  update_components_twice statuses [] exact = refl
  update_components_twice statuses (c ∷ components) exact =
      elim (Option-cases (Json.object_member J statuses c.id)) [
        | inl n ↦ ground (arith, n, update_components_twice statuses components exact)
        | inr (status, e) ↦ ground (
          arith,
          e,
          update_capabilities_twice status c.capabilities exact,
          update_components_twice statuses components exact,
        )
      ]

  -- A status that arrives a second time is answered as the first time and changes nothing, where the casts
  -- between `int` and `double` are exact.
  apply_status_twice :
      (status : V) (d : Device V D)
      → IsExact N
      → apply_status J N status (apply_status J N status d).1 ≡ apply_status J N status d
  unfolding apply_status
  apply_status_twice status d exact =
      elim (Option-cases (Json.object_member J status (str "components"))) [
        | inl n ↦ ground (arith, n)
        | inr (statuses, e) ↦ ground (arith, e, update_components_twice statuses d.components exact)
      ]
