-- ===== src/Subscriptions.antt =====
-- The subscriptions of `Client` (src/webhook.cpp): requests about them, and the state that `Client` keeps
-- of the devices that have one.
pub mod Requests
pub mod Automatic
use smartthings4cpp.Base.{
  ℕ, Bool, true, false, ◌&&◌, ◌||◌, not, List, [], ◌∷◌, ◌++◌, Option, none, some, Bytes, str, eqb,
  ltb, ◌==◌, ◌-◌, if◌then◌else◌, is_empty, is_alnum, length, take, drop,
}
use smartthings4cpp.Base.Dict.{Dict}
use smartthings4cpp.Json
use smartthings4cpp.Json.{JsonLib}
use smartthings4cpp.Webhook.{SubscriptionRequest, Subscription, empty_subscription}
use smartthings4cpp.Client.{Client}

pub record Hub (S : Type 0) : Type 0 where
  pub client : Client S
  pub is_oauth : Bool
  pub installed_app_token : Bytes
  -- Device id to subscription id.
  pub subscribed : Dict Bytes
  pub pending : List Bytes
  pub in_flight : List Bytes
  -- What an earlier run left: device id to subscription id.
  pub unclaimed : Dict Bytes
  pub unclaimed_loaded : Bool

-- The loop of `sanitizeName`.
pub allowed_only : Bytes → Bytes
allowed_only [] = []
allowed_only (c ∷ s) =
    let rest = allowed_only s in if is_alnum c || (c == b'-') || (c == b'_') then c ∷ rest else rest

-- The end of a longer name is kept.
pub sanitize_name : Bytes → ℕ → Bytes
sanitize_name name max_len =
    let out : Bytes = allowed_only name in
    if ltb max_len (length out) then drop (length out - max_len) out else out

pub make_subscription_name : SubscriptionRequest → Bytes
make_subscription_name request =
    let name : Bytes = str "st_all_" ++ sanitize_name request.device_id 30 in
    if ltb 36 (length name) then take 36 name else name

-- `subscriptionToken`
unfoldable pub subscription_token : {S : Type 0} → Hub S → Bytes
subscription_token h =
    if is_empty h.installed_app_token then h.client.access_token else h.installed_app_token

module _ {V : Type 0} (J : JsonLib V) where
  pub device_fields : V → Subscription → Subscription
  device_fields d s = record s {
    device_id = Json.get_text_or J d (str "deviceId") [];
    capability = Json.get_text_or J d (str "capability") [];
    attribute = Json.get_text_or J d (str "attribute") [];
    component_id = Json.get_text_or J d (str "componentId") [];
  }

  pub parse_subscription : V → Subscription
  parse_subscription j =
      if not (Json.is_object J j)
      then empty_subscription
      else (let s : Subscription = record empty_subscription {
        id = Json.get_text_or J j (str "id") [];
        installed_app_id = Json.get_text_or J j (str "installedAppId") [];
        source_type = Json.get_text_or J j (str "sourceType") [];
      } in
          elim (Json.object_member J j (str "device")) [ none ↦ s | some d ↦ device_fields d s ])

  pub parse_subscriptions : List V → List Subscription
  parse_subscriptions [] = []
  parse_subscriptions (item ∷ items) = parse_subscription item ∷ parse_subscriptions items

  -- The members stand in the order of their keys.
  pub build_subscription_body : SubscriptionRequest → V
  build_subscription_body request = J.object (
      (
        str "device",
        J.object (
            (str "deviceId", J.text request.device_id)
            ∷ (str "stateChangeOnly", J.boolean request.state_change_only)
            ∷ []),
      )
      ∷ (str "sourceType", J.text (str "DEVICE"))
      ∷ (
        str "subscriptionName",
        J.text (
            if is_empty request.subscription_name
            then make_subscription_name request
            else request.subscription_name),
      )
      ∷ [])
