-- ===== src/Endpoint/Events.antt =====
-- The events of a message: what `processWebhook` of src/webhook.cpp reads of each, and the devices it
-- hands them to.
use smartthings4cpp.Base.{
  ℕ, ◌||◌, not, List, [], ◌∷◌, Option, none, some, Bytes, str, eqb, if◌then◌else◌, bind?, value_or,
  is_empty, Try, ok, thrown,
}
use smartthings4cpp.Json
use smartthings4cpp.Json.{JsonLib}
use smartthings4cpp.Capability.{NumberLib}
use smartthings4cpp.Device.{Device, apply_device_event}
use smartthings4cpp.Registry.{Registry, object, write, live_devices_for}

-- An event of a device, as `processWebhook` reads it.
pub record DeviceEvent (V : Type 0) : Type 0 where
  pub device_id : Bytes
  pub component_id : Bytes
  pub capability : Bytes
  pub attribute : Bytes
  pub value : V

module _ {V : Type 0} (J : JsonLib V) where
  unfoldable pub read_device_event : V → Option (DeviceEvent V)
  read_device_event ev =
      if not (Json.is_object J ev)
        || not (eqb (Json.get_text_or J ev (str "eventType") []) (str "DEVICE_EVENT"))
      then none
      else bind? (Json.object_member J ev (str "deviceEvent")) (λ de.
        let device_id : Bytes = Json.get_text_or J de (str "deviceId") [] in
        let capability : Bytes = Json.get_text_or J de (str "capability") [] in
        let attribute : Bytes = Json.get_text_or J de (str "attribute") [] in
        if (is_empty device_id || is_empty capability) || is_empty attribute
        then none
        else some (record {
          device_id = device_id;
          component_id = Json.get_text_or J de (str "componentId") (str "main");
          capability = capability;
          attribute = attribute;
          value = value_or (Json.member J de (str "value")) J.null;
        }))

  pub events_of : V → List V
  events_of body =
      value_or
        (bind? (Json.object_member J body (str "eventData"))
          (λ d. Json.array_member J d (str "events")))
        []

  module _ {D : Type 0} (N : NumberLib V D) where
    -- One event, to each of the devices; an exception leaves what was done before.
    unfoldable pub fan_out :
        DeviceEvent V → List ℕ → List (ℕ × Device V D) → Try {0} Unit × List (ℕ × Device V D)
    fan_out e [] objects = (ok tt, objects)
    fan_out e (h ∷ handles) objects = elim (object h objects) [
      | none ↦ fan_out e handles objects
      | some device ↦
          elim (apply_device_event J N e.component_id e.capability e.attribute e.value device) [
            | thrown what ↦ (thrown what, objects)
            | ok (_, device') ↦ fan_out e handles (write h device' objects)
          ]
    ]

    unfoldable pub dispatch_event : V → Registry (Device V D) → Try {0} Unit × Registry (Device V D)
    dispatch_event ev r = elim (read_device_event ev) [
      | none ↦ (ok tt, r)
      | some e ↦
          let (live, r') = live_devices_for e.device_id r in
          let (result, objects) = fan_out e live r'.objects in
          (result, record r' { objects = objects })
    ]

    unfoldable pub dispatch_events :
        List V → Registry (Device V D) → Try {0} Unit × Registry (Device V D)
    dispatch_events [] r = (ok tt, r)
    dispatch_events (ev ∷ evs) r =
        let (result, r') = dispatch_event ev r in
        elim result [ thrown what ↦ (thrown what, r') | ok _ ↦ dispatch_events evs r' ]
