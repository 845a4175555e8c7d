-- ===== src/Device.antt =====
-- `Device` of src/device.cpp and `Component` of include/smartthings4cpp/component.h. The factory of the
-- capabilities is a function from an id to a schema.
pub mod Refresh
pub mod Events
pub mod Ids
pub mod Places
pub mod Effects
pub mod Invariant
pub mod Parsing
use smartthings4cpp.Base.{
  Bool, true, false, ◌&&◌, ◌||◌, not, List, [], ◌∷◌, ◌++◌, Option, none, some, Bytes, str, eqb,
  if◌then◌else◌, bind?, value_or, is_empty, is_some, Try, ok, thrown,
}
use smartthings4cpp.Base.Dict
use smartthings4cpp.Base.Dict.{Dict}
use smartthings4cpp.Base.Set
use smartthings4cpp.Base.Int.{ℤ, pos}
use smartthings4cpp.Types.{Outcome, done, not_done, network_error}
use smartthings4cpp.Json
use smartthings4cpp.Json.{JsonLib}
use smartthings4cpp.Capability.{
  Capability, NumberLib, Schema, new_capability, update_status, set_local_attribute,
}

pub record Category : Type 0 where
  pub name : Bytes
  pub category_type : Bytes

pub record Component (V D : Type 0) : Type 0 where
  pub id : Bytes
  pub label : Bytes
  pub capabilities : List (Capability V D)
  pub categories : List Category

pub record Device (V D : Type 0) : Type 0 where
  pub id : Bytes
  pub attached : Bool
  pub name : Bytes
  pub label : Bytes
  pub manufacturer_name : Bytes
  pub type_name : Bytes
  pub location_id : Bytes
  pub room_id : Bytes
  pub presentation_id : Bytes
  pub components : List (Component V D)
  pub refreshed : Bool

abbrev pub new_device : {V D : Type 0} → Bytes → Bool → Device V D
new_device id attached = record {
  id = id;
  attached = attached;
  name = [];
  label = [];
  manufacturer_name = [];
  type_name = [];
  location_id = [];
  room_id = [];
  presentation_id = [];
  components = [];
  refreshed = false;
}

module _ {V D : Type 0} where
  -- The loop of `Component::get`: the first capability of the id.
  pub find_capability : Bytes → List (Capability V D) → Option (Capability V D)
  find_capability id [] = none
  find_capability id (c ∷ caps) = if eqb c.schema.id id then some c else find_capability id caps

  abbrev pub get : Component V D → Bytes → Option (Capability V D)
  get component id = find_capability id component.capabilities

  abbrev pub has : Component V D → Bytes → Bool
  has component id = is_some (get component id)

  abbrev pub add_capability : Capability V D → Component V D → Component V D
  add_capability c component = record component { capabilities = component.capabilities ++ c ∷ [] }

  -- `hasCapability`
  pub has_capability : List (Component V D) → Bytes → Bool
  has_capability [] id = false
  has_capability (component ∷ components) id = has component id || has_capability components id

  -- The loops of `getCapabilityIds`, with the ids seen so far; `unordered_set` is a set.
  pub new_ids : List (Capability V D) → List Bytes → List Bytes × List Bytes
  new_ids [] seen = ([], seen)
  new_ids (c ∷ caps) seen =
      let (ids, seen') = new_ids caps (Set.insert c.schema.id seen) in
      ((if Set.contains c.schema.id seen then ids else c.schema.id ∷ ids), seen')

  pub component_ids : List (Component V D) → List Bytes → List Bytes
  component_ids [] seen = []
  component_ids (component ∷ components) seen =
      let (ids, seen') = new_ids component.capabilities seen in
      ids ++ component_ids components seen'

  pub get_capability_ids : Device V D → List Bytes
  get_capability_ids device = component_ids device.components []

  pub find_component : Bytes → List (Component V D) → Option (Component V D)
  find_component id [] = none
  find_component id (c ∷ components) = if eqb c.id id then some c else find_component id components

  module _ (J : JsonLib V) (N : NumberLib V D) where
    -- The inner loop of `applyStatus`: each capability that the status of the component names.
    pub update_capabilities : V → List (Capability V D) → List (Capability V D)
    update_capabilities status [] = []
    update_capabilities status (c ∷ caps) =
        value_or (bind? (Json.member J status c.schema.id) (λ s. some (update_status J N s c))) c
        ∷ update_capabilities status caps

    pub update_component : V → Component V D → Component V D
    update_component statuses component = elim (Json.object_member J statuses component.id) [
      | none ↦ component
      | some status ↦ record component {
        capabilities = update_capabilities status component.capabilities;
      }
    ]

    pub update_components : V → List (Component V D) → List (Component V D)
    update_components statuses [] = []
    update_components statuses (component ∷ components) =
        update_component statuses component ∷ update_components statuses components

    pub apply_status : V → Device V D → Outcome × Device V D
    apply_status status device = elim (Json.object_member J status (str "components")) [
      | none ↦ (not_done network_error (str "Failed to fetch device status"), device)
      | some statuses ↦ (
        done,
        record device {
          components = update_components statuses device.components;
          refreshed = true;
        },
      )
    ]

    -- The first capability of the id takes the event; `none` where there is none.
    unfoldable pub apply_to_capabilities :
        Bytes → Bytes → V → List (Capability V D) → Option (Try (List (Capability V D)))
    apply_to_capabilities capability attribute value [] = none
    apply_to_capabilities capability attribute value (c ∷ caps) =
        let rest = apply_to_capabilities capability attribute value caps in
        if eqb c.schema.id capability
        then some (elim (set_local_attribute J N attribute value c) [
          | thrown e ↦ thrown e
          | ok c' ↦ ok (c' ∷ caps)
        ])
        else bind? rest (λ r. some (elim r [ thrown e ↦ thrown e | ok caps' ↦ ok (c ∷ caps') ]))

    -- The first component of the id that has the capability.
    unfoldable pub apply_to_components :
        Bytes → Bytes → Bytes → V → List (Component V D) → Option (Try (List (Component V D)))
    apply_to_components component_id capability attribute value [] = none
    apply_to_components component_id capability attribute value (c ∷ components) =
        let rest : Option (Try (List (Component V D))) =
          bind? (apply_to_components component_id capability attribute value components)
            (λ r. some (elim r [ thrown e ↦ thrown e | ok components' ↦ ok (c ∷ components') ])) in
        if not (eqb c.id component_id)
        then rest
        else elim (apply_to_capabilities capability attribute value c.capabilities) [
          | none ↦ rest
          | some (thrown e) ↦ some (thrown e)
          | some (ok caps) ↦ some (ok (record c { capabilities = caps } ∷ components))
        ]

    -- The answer is whether a capability took the event.
    unfoldable pub apply_device_event :
        Bytes → Bytes → Bytes → V → Device V D → Try (Bool × Device V D)
    apply_device_event component_id capability attribute value device =
        elim (apply_to_components component_id capability attribute value device.components) [
          | none ↦ ok (false, device)
          | some (thrown e) ↦ thrown e
          | some (ok components) ↦ ok (true, record device { components = components })
        ]
