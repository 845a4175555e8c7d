-- ===== src/Session/Devices/Registered.antt =====
-- The devices that `get_devices` hands out are registered.
use smartthings4cpp.Base.{
  ℕ, suc, ◌≤◌, ◌<◌, true, List, [], ◌∷◌, Option, none, some, Bytes, str, ◌≡◌, refl, ◌∙◌, arith,
  ==_iff, is_empty, Bool-cases, inl, inr, All,
}
use smartthings4cpp.Json
use smartthings4cpp.Json.{JsonLib}
use smartthings4cpp.Http.{Cpr, Wire}
use smartthings4cpp.Storage.Provider.{StorageProvider}
use smartthings4cpp.Client.Sending.{Callback, Meanwhile}
use smartthings4cpp.Client.Pages.{fetch_all_items}
use smartthings4cpp.Capability.{NumberLib, Schema}
use smartthings4cpp.Device.{Device, new_device}
use smartthings4cpp.Device.Parsing.{init_from_json}
use smartthings4cpp.Registry.{Registry, object, register_device, live_devices_for}
use smartthings4cpp.Registry.Live.{
  among, Steps, none_yet, next, created, registered, registered_stays,
}
use smartthings4cpp.Session.Devices.{Household, with_client, add_device, add_devices, get_devices}

Steps-trans :
    {A : Type 0} (h : ℕ) {r r' r'' : Registry A} → Steps h r r' → Steps h r' r'' → Steps h r r''
Steps-trans h first none_yet = first
Steps-trans h first (next steps step) = next (Steps-trans h first steps) step

-- The handle is that of a living device, which is handed out for the device's id.
abbrev pub Found : {V D : Type 0} → Registry (Device V D) → ℕ → Type 0
Found {V} {D} r h =
    (device : Device V D) × (object h r.objects ≡ some device)
    × (among h (live_devices_for device.id r).0 ≡ true)

module _ {V D : Type 0} (J : JsonLib V) (N : NumberLib V D) (schema_of : Bytes → Schema)
    {S : Type 0} (cpr : Cpr) where
  -- No object has the next handle or one behind it.
  abbrev pub IsFresh : Household S V D → Type 0
  IsFresh u = (i : ℕ) → u.next ≤ i → object i u.host.registry.objects ≡ none

  add_device-IsFresh :
      (id : Bytes) (json : V) (u : Household S V D) (wire : Wire)
      → IsFresh u
      → IsFresh (add_device J N schema_of cpr id json u wire).1
  unfolding add_device register_device object
  add_device-IsFresh id json u wire fresh i h = ground (arith, ==_iff u.next i, fresh i)

  add_device-object :
      (id : Bytes) (json : V) (u : Household S V D) (wire : Wire) (h : ℕ)
      → h < u.next
      → object h (add_device J N schema_of cpr id json u wire).1.host.registry.objects
        ≡ object h u.host.registry.objects
  unfolding add_device register_device object
  add_device-object id json u wire h below = ground (arith, ==_iff u.next h)

  add_device-Steps :
      (id : Bytes) (json : V) (u : Household S V D) (wire : Wire) (h : ℕ)
      → IsFresh u
      → Steps h u.host.registry (add_device J N schema_of cpr id json u wire).1.host.registry
  unfolding add_device
  add_device-Steps id json u wire h fresh =
      next (next none_yet (created u.next _ (fresh u.next (omega arith)))) (registered _ u.next)

  add_device-next :
      (id : Bytes) (json : V) (u : Household S V D) (wire : Wire)
      → (add_device J N schema_of cpr id json u wire).1.next ≡ suc u.next
  unfolding add_device
  add_device-next id json u wire = refl

  add_device-handle :
      (id : Bytes) (json : V) (u : Household S V D) (wire : Wire)
      → (add_device J N schema_of cpr id json u wire).0 ≡ u.next
  unfolding add_device
  add_device-handle id json u wire = refl

  add_devices-object :
      (items : List V) (u : Household S V D) (wire : Wire) (h : ℕ)
      → h < u.next
      → object h (add_devices J N schema_of cpr items u wire).1.host.registry.objects
        ≡ object h u.host.registry.objects
  unfolding add_devices
  add_devices-object [] u wire h below = refl
  add_devices-object (item ∷ items) u wire h below =
      let id : Bytes = Json.get_text_or J item (str "deviceId") [] in
      elim (Bool-cases (is_empty id)) [
        | inl t ↦ rw (t, add_devices) (add_devices-object items u wire h below)
        | inr t ↦
            rw (t, add_devices)
              (let (i, u', wire') = add_device J N schema_of cpr id item u wire in
                add_devices-object items u' wire' h
                  (omega (arith, below, add_device-next id item u wire))
                ∙ add_device-object id item u wire h below)
      ]

  add_devices-Steps :
      (items : List V) (u : Household S V D) (wire : Wire) (h : ℕ)
      → IsFresh u
      → Steps h u.host.registry (add_devices J N schema_of cpr items u wire).1.host.registry
  unfolding add_devices
  add_devices-Steps [] u wire h fresh = none_yet
  add_devices-Steps (item ∷ items) u wire h fresh =
      let id : Bytes = Json.get_text_or J item (str "deviceId") [] in
      elim (Bool-cases (is_empty id)) [
        | inl t ↦ rw (t, add_devices) (add_devices-Steps items u wire h fresh)
        | inr t ↦
            rw (t, add_devices)
              (let (i, u', wire') = add_device J N schema_of cpr id item u wire in
                Steps-trans h (add_device-Steps id item u wire h fresh)
                  (add_devices-Steps items u' wire' h (add_device-IsFresh id item u wire fresh)))
      ]

  add_device-Found :
      (id : Bytes) (json : V) (u : Household S V D) (wire : Wire) (r' : Registry (Device V D))
      → Steps
          (add_device J N schema_of cpr id json u wire).0
          (add_device J N schema_of cpr id json u wire).1.host.registry
          r'
      → object (add_device J N schema_of cpr id json u wire).0 r'.objects
        ≡ object u.next (add_device J N schema_of cpr id json u wire).1.host.registry.objects
      → Found r' (add_device J N schema_of cpr id json u wire).0
  unfolding add_device register_device object
  add_device-Found id json u wire r' steps same =
      let device : Device V D = init_from_json J N schema_of json (new_device id true) in
      (
        device,
        same ∙ ground (arith, ==_iff u.next u.next),
        registered_stays device.id u.next
            (record u.host.registry { objects = (u.next, device) ∷ u.host.registry.objects }) r'
            (ground (arith, ==_iff u.next u.next)) steps,
      )

  add_devices-Found :
      (items : List V) (u : Household S V D) (wire : Wire)
      → IsFresh u
      → All
          (Found (add_devices J N schema_of cpr items u wire).1.host.registry)
          (add_devices J N schema_of cpr items u wire).0
  unfolding add_devices add_device
  add_devices-Found [] u wire fresh = tt
  add_devices-Found (item ∷ items) u wire fresh =
      let id : Bytes = Json.get_text_or J item (str "deviceId") [] in
      elim (Bool-cases (is_empty id)) [
        | inl t ↦ rw (t, add_devices) (add_devices-Found items u wire fresh)
        | inr t ↦
            rw (t, add_devices)
              (let (h, u', wire') = add_device J N schema_of cpr id item u wire in
                let fresh' = add_device-IsFresh id item u wire fresh in
                (
                  add_device-Found id item u wire
                      (add_devices J N schema_of cpr items u' wire').1.host.registry
                      (add_devices-Steps items u' wire' h fresh')
                      (add_devices-object items u' wire' h (
                        omega (
                          arith,
                          add_device-next id item u wire,
                          add_device-handle id item u wire,
                        ))),
                  add_devices-Found items u' wire' fresh',
                ))
      ]

  -- Every device that `get_devices` hands out lives and is registered under its own id, so that an event for
  -- that id reaches it, where no object had the next handle or one behind it before.
  pub get_devices-Found :
      (P : StorageProvider S) (meanwhile : Meanwhile) (callback : Option (Callback S))
      (u : Household S V D) (wire : Wire)
      → IsFresh u
      → All
          (Found (get_devices J N schema_of cpr P meanwhile callback u wire).1.host.registry)
          (get_devices J N schema_of cpr P meanwhile callback u wire).0
  unfolding get_devices
  get_devices-Found P meanwhile callback u wire fresh =
      let (items, c, wire') =
        fetch_all_items J P meanwhile callback cpr (str "/devices") u.host.hub.client wire in
      add_devices-Found items (with_client J N schema_of cpr c u) wire' fresh
