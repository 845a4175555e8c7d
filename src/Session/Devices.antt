-- ===== src/Session/Devices.antt =====
-- `getDevices` and `getDevice` of src/client.cpp with `makeTrackedDevice` and `registerDevice`. A new device
-- gets the next handle, which no object has had before.
pub mod Registered
use smartthings4cpp.Base.{
  ℕ, suc, Bool, true, false, not, ◌||◌, List, [], ◌∷◌, ◌++◌, Option, none, some, Bytes, str,
  if◌then◌else◌, is_empty, Try, ok, thrown,
}
use smartthings4cpp.Json
use smartthings4cpp.Json.{JsonLib}
use smartthings4cpp.Http.{Cpr, Wire, is_ok}
use smartthings4cpp.Storage.Provider.{StorageProvider}
use smartthings4cpp.Client.{Client, is_authenticated}
use smartthings4cpp.Client.Sending.{Callback, Meanwhile, get_with_auth}
use smartthings4cpp.Client.Pages.{fetch_all_items}
use smartthings4cpp.Subscriptions.{Hub}
use smartthings4cpp.Subscriptions.Automatic.{maybe_subscribe_device}
use smartthings4cpp.Capability.{NumberLib, Schema}
use smartthings4cpp.Device.{Device, new_device}
use smartthings4cpp.Device.Parsing.{init_from_json}
use smartthings4cpp.Registry.{Registry, register_device}
use smartthings4cpp.Endpoint.{Host}

-- The client with its devices, and the next handle.
pub record Household (S V D : Type 0) : Type 0 where
  pub host : Host S V D
  pub next : ℕ

module _ {V D : Type 0} (J : JsonLib V) (N : NumberLib V D) (schema_of : Bytes → Schema)
    {S : Type 0} (cpr : Cpr) where
  -- A device made, described and registered; the answer is its handle.
  pub add_device : Bytes → V → Household S V D → Wire → ℕ × Household S V D × Wire
  add_device id json u wire =
      let device : Device V D = init_from_json J N schema_of json (new_device id true) in
      let registry : Registry (Device V D) = u.host.registry in
      let (hub, wire') = maybe_subscribe_device J cpr device.id u.host.hub wire in
      (
        u.next,
        record {
          host = record {
            hub = hub;
            registry =
                register_device device.id u.next
                  (record registry { objects = (u.next, device) ∷ registry.objects });
          };
          next = suc u.next;
        },
        wire',
      )

  -- The loop of `getDevices`: an item without an id is passed over.
  pub add_devices : List V → Household S V D → Wire → List ℕ × Household S V D × Wire
  add_devices [] u wire = ([], u, wire)
  add_devices (item ∷ items) u wire =
      let id : Bytes = Json.get_text_or J item (str "deviceId") [] in
      elim (is_empty id) [
        | true ↦ add_devices items u wire
        | false ↦
            let (h, u', wire') = add_device id item u wire in
            let (handles, u'', wire'') = add_devices items u' wire' in (h ∷ handles, u'', wire'')
      ]

  abbrev pub with_client : Client S → Household S V D → Household S V D
  with_client c u = record u { host = record u.host { hub = record u.host.hub { client = c } } }

  module _ (P : StorageProvider S) (meanwhile : Meanwhile) (callback : Option (Callback S)) where
    pub get_devices : Household S V D → Wire → List ℕ × Household S V D × Wire
    get_devices u wire =
        let (items, c, wire') =
          fetch_all_items J P meanwhile callback cpr (str "/devices") u.host.hub.client wire in
        add_devices items (with_client c u) wire'

    -- `nullptr` is `none`.
    pub get_device : Bytes → Household S V D → Wire → Option ℕ × Household S V D × Wire
    get_device device_id u wire =
        if not (is_authenticated u.host.hub.client) || is_empty device_id
        then (none, u, wire)
        else (let (response, c, wire') =
              get_with_auth P meanwhile callback cpr
                (u.host.hub.client.base_url ++ str "/devices/" ++ device_id) u.host.hub.client
                wire in
            if not (is_ok response)
            then (none, with_client c u, wire')
            else elim (Json.parse J response.body) [
              | thrown what ↦ (none, with_client c u, wire')
              | ok json ↦
                  let (h, u', wire'') =
                    add_device (Json.get_text_or J json (str "deviceId") device_id) json
                      (with_client c u) wire' in
                  (some h, u', wire'')
            ])
