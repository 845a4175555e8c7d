-- ===== src/Device/Refresh.antt =====
-- The members of `Device` that may fetch: `refreshStatus`, `ensureRefreshed`, `getComponents`,
-- `getComponent` and `getCapability` of src/device.cpp.
use smartthings4cpp.Base.{not, List, Option, Bytes, str, if◌then◌else◌, bind?}
use smartthings4cpp.Types.{Outcome, not_done, invalid_parameter}
use smartthings4cpp.Json.{JsonLib}
use smartthings4cpp.Http.{Cpr, Wire}
use smartthings4cpp.Storage.Provider.{StorageProvider}
use smartthings4cpp.Client.{Client}
use smartthings4cpp.Client.Sending.{Callback, Meanwhile}
use smartthings4cpp.Client.Api.{get_device_status}
use smartthings4cpp.Capability.{Capability, NumberLib}
use smartthings4cpp.Device.{Device, Component, apply_status, find_component, get}

module _ {V D : Type 0} (J : JsonLib V) (N : NumberLib V D) {S : Type 0} (P : StorageProvider S)
    (meanwhile : Meanwhile) (callback : Option (Callback S)) (cpr : Cpr) where
  unfoldable pub refresh_status :
      Device V D → Client S → Wire → Outcome × Device V D × Client S × Wire
  refresh_status device c wire =
      if not device.attached
      then (not_done invalid_parameter (str "No client associated with device"), device, c, wire)
      else (let (status, c', wire') =
            get_device_status J P meanwhile callback cpr device.id c wire in
          let (outcome, device') = apply_status J N status device in (outcome, device', c', wire'))

  pub ensure_refreshed : Device V D → Client S → Wire → Device V D × Client S × Wire
  ensure_refreshed device c wire =
      if device.refreshed
      then (device, c, wire)
      else (let (_, device', c', wire') = refresh_status device c wire in (device', c', wire'))

  pub get_components :
      Device V D → Client S → Wire → List (Component V D) × Device V D × Client S × Wire
  get_components device c wire =
      let (device', c', wire') = ensure_refreshed device c wire in
      (device'.components, device', c', wire')

  pub get_component :
      Bytes → Device V D → Client S → Wire → Option (Component V D) × Device V D × Client S × Wire
  get_component id device c wire =
      let (device', c', wire') = ensure_refreshed device c wire in
      (find_component id device'.components, device', c', wire')

  pub get_capability :
      Bytes
      → Bytes
      → Device V D
      → Client S
      → Wire
      → Option (Capability V D) × Device V D × Client S × Wire
  get_capability capability_id component device c wire =
      let (found, device', c', wire') = get_component component device c wire in
      (bind? found (λ component. get component capability_id), device', c', wire')
