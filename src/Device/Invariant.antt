-- ===== src/Device/Invariant.antt =====
-- The life of a device as steps: it is described, it gets a status, it gets an event. What every step keeps.
pub mod Statuses
pub mod Events
pub mod Descriptions
pub mod Life
use smartthings4cpp.Base.{
  Bool, true, false, List, [], ◌∷◌, ◌++◌, Option, none, some, Bytes, str, ◌≡◌, refl, sym, ap, ◌∙◌,
  arith, eqb, bind?, value_or, is_empty, if◌then◌else◌, Bool-cases, Option-cases, Try-cases, inl,
  inr, Try, ok, thrown, All, All-append,
}
use smartthings4cpp.Base.Int.{ℤ}
use smartthings4cpp.Json
use smartthings4cpp.Json.{JsonLib, IsLawful}
use smartthings4cpp.Capability.{
  Capability, NumberLib, Schema, new_capability, update_status, with_status, set_local_attribute,
}
use smartthings4cpp.Capability.Statuses.{
  IsExact, InSync, update_status-InSync, new_capability-InSync, set_local_attribute-InSync,
  set_local_attribute-frame,
}
use smartthings4cpp.Device.{
  Component, Device, new_device, add_capability, update_capabilities, update_component,
  update_components, apply_status, apply_to_capabilities, apply_to_components, apply_device_event,
}
use smartthings4cpp.Device.Parsing.{
  add_capabilities, parse_component, parse_components, init_from_json, version_of, parse_categories,
}
use smartthings4cpp.Device.Events.{
  apply_to_capabilities-hit, apply_to_capabilities-miss, apply_to_capabilities-thrown,
  apply_to_components-step,
}

module _ {V D : Type 0} (J : JsonLib V) (N : NumberLib V D) where
  -- The capability addresses its component and its device, and its cache holds what its status says.
  abbrev pub IsWired : Bytes → Bytes → Bool → Capability V D → Type 0
  IsWired component_id device_id attached c =
      (c.component_id ≡ component_id)
      × (c.device_id ≡ device_id)
      × (c.attached ≡ attached)
      × InSync J N c

  abbrev pub IsSound : Device V D → Type 0
  IsSound d = All (λ c. All (IsWired c.id d.id d.attached) c.capabilities) d.components

  -- One call that changes a device.
  pub data Step (schema_of : Bytes → Schema) (d : Device V D) : Device V D → Type 0 where
    described : (json : V) → Step schema_of d (init_from_json J N schema_of json d)
    status_applied : (status : V) → Step schema_of d (apply_status J N status d).1
    event_applied :
        (component_id capability attribute : Bytes) (value : V) (answer : Bool) {d' : Device V D}
        → apply_device_event J N component_id capability attribute value d ≡ ok (answer, d')
        → Step schema_of d d'

  -- The states of a device, from its construction on.
  pub data Reach (schema_of : Bytes → Schema) : Device V D → Type 0 where
    constructed : (id : Bytes) (attached : Bool) → Reach schema_of (new_device id attached)
    later : {d d' : Device V D} → Reach schema_of d → Step schema_of d d' → Reach schema_of d'

  -- Another status and other values, which are in sync, leave the addresses.
  pub frame-IsWired :
      (component_id device_id : Bytes) (attached : Bool) (c now : Capability V D)
      → IsWired component_id device_id attached c
      → now ≡ record c { status = now.status; values = now.values }
      → InSync J N now
      → IsWired component_id device_id attached now
  frame-IsWired component_id device_id attached c now (p, q, r, _) same sync = (
    ap (λ x. x.component_id) same ∙ p,
    ap (λ x. x.device_id) same ∙ q,
    ap (λ x. x.attached) same ∙ r,
    sync,
  )
