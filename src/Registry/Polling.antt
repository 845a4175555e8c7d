-- ===== src/Registry/Polling.antt =====
-- `Client::pollNow` of src/client.cpp.
use smartthings4cpp.Base.{ℕ, not, ◌||◌, List, [], ◌∷◌, Option, none, some, if◌then◌else◌}
use smartthings4cpp.Base.Dict.{Dict}
use smartthings4cpp.Json
use smartthings4cpp.Json.{JsonLib}
use smartthings4cpp.Http.{Cpr, Wire}
use smartthings4cpp.Storage.Provider.{StorageProvider}
use smartthings4cpp.Client.{Client}
use smartthings4cpp.Client.Sending.{Callback, Meanwhile}
use smartthings4cpp.Client.Api.{get_device_status}
use smartthings4cpp.Capability.{NumberLib}
use smartthings4cpp.Device.{Device, apply_status}
use smartthings4cpp.Registry.{Registry, object, write, snapshot_registry}

module _ {V D : Type 0} (J : JsonLib V) (N : NumberLib V D) where
  -- The inner loop: the status goes to every device of the id.
  pub apply_to_each : V → List ℕ → List (ℕ × Device V D) → List (ℕ × Device V D)
  apply_to_each status [] objects = objects
  apply_to_each status (h ∷ handles) objects =
      apply_to_each status handles (elim (object h objects) [
        | none ↦ objects
        | some device ↦ write h (apply_status J N status device).1 objects
      ])

  -- What is not an object is null too, for the devices.
  pub take_status : V → List ℕ → List (ℕ × Device V D) → List (ℕ × Device V D)
  take_status status handles objects =
      if J.is_null status || not (Json.is_object J status)
      then objects
      else apply_to_each status handles objects

  module _ {S : Type 0} (P : StorageProvider S) (meanwhile : Meanwhile)
      (callback : Option (Callback S)) (cpr : Cpr) where
    pub poll_each :
        Dict (List ℕ)
        → List (ℕ × Device V D)
        → Client S
        → Wire
        → List (ℕ × Device V D) × Client S × Wire
    poll_each [] objects c wire = (objects, c, wire)
    poll_each ((id, handles) ∷ rest) objects c wire =
        let (status, c', wire') = get_device_status J P meanwhile callback cpr id c wire in
        poll_each rest (take_status status handles objects) c' wire'

    pub poll_now : Registry (Device V D) → Client S → Wire → Registry (Device V D) × Client S × Wire
    poll_now r c wire =
        let (snapshot, r') = snapshot_registry r in
        let (objects, c', wire') = poll_each snapshot r'.objects c wire in
        (record r' { objects = objects }, c', wire')
