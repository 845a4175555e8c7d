-- ===== src/Session/AllDevices.antt =====
-- `subscribeToAllDevices` of src/webhook.cpp. The registry is walked in the order of its entries.
use smartthings4cpp.Base.{
  length, ℕ, not, ◌&&◌, List, [], ◌∷◌, none, some, Bytes, ◌==◌, ◌≡◌, ◌≤◌, ◌+◌, inl, inr, arith, suc,
  if◌then◌else◌, is_empty, Bool-cases,
}
use smartthings4cpp.Base.Dict.{Dict}
use smartthings4cpp.Types.{Result, returned, failed, is_success, success}
use smartthings4cpp.Json.{JsonLib}
use smartthings4cpp.Http.{Cpr, Wire}
use smartthings4cpp.Webhook.{Subscription}
use smartthings4cpp.Registry.{Registry, snapshot_registry}
use smartthings4cpp.Subscriptions.{Hub}
use smartthings4cpp.Subscriptions.Requests.{subscribe_to, no_oauth, no_app}
use smartthings4cpp.Subscriptions.Automatic.{device_request}

-- What the loop has: the count, the last answer, the state.
pub record Walk (S : Type 0) : Type 0 where
  pub count : ℕ
  pub last : Result Subscription
  pub hub : Hub S
  pub wire : Wire

module _ {V : Type 0} (J : JsonLib V) {S : Type 0} (cpr : Cpr) where
  pub subscribe_device : Bytes → Walk S → Walk S
  subscribe_device id w =
      let (answer, h, wire) = subscribe_to J cpr (device_request id) w.hub w.wire in
      record {
        count = if is_success answer.error then suc w.count else w.count;
        last = answer;
        hub = h;
        wire = wire;
      }

  pub subscribe_devices : Dict (List ℕ) → Walk S → Walk S
  subscribe_devices [] w = w
  subscribe_devices ((id, handles) ∷ rest) w = subscribe_devices rest (subscribe_device id w)

  -- A failure of every device is answered as the last one of them.
  pub counted : Dict (List ℕ) → Walk S → Result ℕ
  counted snapshot w =
      if (w.count == 0) && (not (is_empty snapshot) && not (is_success w.last.error))
      then failed w.last.error w.last.error_message
      else returned w.count

  pub subscribe_to_all_devices :
      {A : Type 0} → Registry A → Hub S → Wire → Result ℕ × Registry A × Hub S × Wire
  subscribe_to_all_devices r h wire =
      if not h.is_oauth
      then (failed no_oauth.0 no_oauth.1, r, h, wire)
      else if is_empty h.client.installed_app_id
      then (failed no_app.0 no_app.1, r, h, wire)
      else (let (snapshot, r') = snapshot_registry r in
          let start : Walk S = record {
            count = 0;
            last = record { value = none; error = success; error_message = [] };
            hub = h;
            wire = wire;
          } in
          let w : Walk S = subscribe_devices snapshot start in
          (counted snapshot w, r', w.hub, w.wire))

  subscribe_devices-count :
      (snapshot : Dict (List ℕ)) (w : Walk S)
      → (subscribe_devices snapshot w).count ≤ w.count + length snapshot
  unfolding subscribe_devices subscribe_device
  subscribe_devices-count [] w = omega arith
  subscribe_devices-count ((id, handles) ∷ rest) w =
      let (answer, h, wire) = subscribe_to J cpr (device_request id) w.hub w.wire in
      elim (Bool-cases (is_success answer.error)) [
        | inl e ↦ grind (arith, e, subscribe_devices-count rest (subscribe_device id w))
        | inr e ↦ grind (arith, e, subscribe_devices-count rest (subscribe_device id w))
      ]

  -- The count that is answered is at most the number of devices that are registered and live.
  subscribe_to_all_devices-count :
      {A : Type 0} (r : Registry A) (h : Hub S) (wire : Wire) (n : ℕ)
      → (subscribe_to_all_devices r h wire).0.value ≡ some n
      → n ≤ length (snapshot_registry r).0
  unfolding subscribe_to_all_devices counted
  subscribe_to_all_devices-count r h wire n answered =
      grind (arith, answered, subscribe_devices-count)
