-- ===== src/Subscriptions/Automatic.antt =====
-- `maybeSubscribeDevice`, `flushPendingSubscriptions`, `loadUnclaimedSubscriptionsOnce` (src/webhook.cpp)
-- and the subscription part of `onDeviceReleased` (src/client.cpp), each run of one thread by itself.
pub mod Settled
use smartthings4cpp.Base.{
  Bool, true, false, ◌&&◌, ◌||◌, not, List, [], ◌∷◌, Option, none, some, Bytes, str, eqb,
  if◌then◌else◌, is_empty, is_some, value_or,
}
use smartthings4cpp.Base.Dict
use smartthings4cpp.Base.Dict.{Dict}
use smartthings4cpp.Base.Set
use smartthings4cpp.Types.{Result, result_of}
use smartthings4cpp.Json.{JsonLib}
use smartthings4cpp.Http.{Cpr, Wire}
use smartthings4cpp.Webhook.{SubscriptionRequest, Subscription}
use smartthings4cpp.Client.{Client, is_authenticated}
use smartthings4cpp.Subscriptions.{Hub}
use smartthings4cpp.Subscriptions.Requests.{subscribe_to, list_subscriptions, delete_subscription}

pub covers_all : Subscription → Bool
covers_all s =
    (eqb s.component_id (str "*") && eqb s.capability (str "*")) && eqb s.attribute (str "*")

-- The request for all that a device reports.
abbrev pub device_request : Bytes → SubscriptionRequest
device_request device_id = record {
  device_id = device_id;
  state_change_only = true;
  subscription_name = [];
}

-- Not ready: no token, or no installed app.
unfoldable pub lacks_identity : {S : Type 0} → Hub S → Bool
lacks_identity h = not (is_authenticated h.client) || is_empty h.client.installed_app_id

pub park : {S : Type 0} → Bytes → Hub S → Hub S
park device_id h = record h { pending = Set.insert device_id h.pending }

pub settle : {S : Type 0} → Bytes → Bytes → Hub S → Hub S
settle device_id subscription_id h = record h {
  subscribed = Dict.insert device_id subscription_id h.subscribed;
  pending = Set.erase device_id h.pending;
  in_flight = Set.erase device_id h.in_flight;
}

pub claim : {S : Type 0} → Bytes → Hub S → Hub S
claim device_id h = record h { unclaimed = Dict.erase device_id h.unclaimed }

-- What the creation's result becomes.
pub finish_creation : {S : Type 0} → Bytes → Result Subscription → Hub S → Hub S
finish_creation device_id created h = elim (result_of created) [
  | some s ↦ settle device_id s.id h
  | none ↦ park device_id (record h { in_flight = Set.erase device_id h.in_flight })
]

module _ {V : Type 0} (J : JsonLib V) {S : Type 0} (cpr : Cpr) where
  -- One entry of the list: kept as a leftover, or deleted where it does not cover the whole device.
  pub take_unclaimed : Subscription → Hub S → Wire → Hub S × Wire
  take_unclaimed s h wire =
      if not (is_empty s.device_id)
        && not (is_empty s.id)
        && not (is_some (Dict.lookup s.device_id h.subscribed))
      then (if covers_all s
          then (record h { unclaimed = Dict.insert s.device_id s.id h.unclaimed }, wire)
          else (let (_, h', wire') = delete_subscription cpr s.id h wire in (h', wire')))
      else (h, wire)

  pub take_all_unclaimed : List Subscription → Hub S → Wire → Hub S × Wire
  take_all_unclaimed [] h wire = (h, wire)
  take_all_unclaimed (s ∷ rest) h wire =
      let (h', wire') = take_unclaimed s h wire in take_all_unclaimed rest h' wire'

  pub load_unclaimed_subscriptions_once : Hub S → Wire → Hub S × Wire
  load_unclaimed_subscriptions_once h wire =
      if h.unclaimed_loaded
      then (h, wire)
      else (let (listed, h', wire') =
            list_subscriptions J cpr (record h { unclaimed_loaded = true }) wire in
          elim (result_of listed) [
            | none ↦ (record h' { unclaimed_loaded = false }, wire')
            | some subscriptions ↦ take_all_unclaimed subscriptions h' wire'
          ])

  pub create_for : Bytes → Hub S → Wire → Hub S × Wire
  create_for device_id h wire =
      let (created, h', wire') = subscribe_to J cpr (device_request device_id) h wire in
      (finish_creation device_id created h', wire')

  -- A leftover with an id is adopted; else a subscription is created.
  pub adopt_or_create : Bytes → Hub S → Wire → Hub S × Wire
  adopt_or_create device_id h wire =
      let adopted : Bytes = value_or (Dict.lookup device_id h.unclaimed) [] in
      if not (is_empty adopted)
      then (settle device_id adopted (claim device_id h), wire)
      else create_for device_id (claim device_id h) wire

  unfoldable pub maybe_subscribe_device : Bytes → Hub S → Wire → Hub S × Wire
  maybe_subscribe_device device_id h wire =
      if not h.is_oauth || is_empty device_id
      then (h, wire)
      else if is_some (Dict.lookup device_id h.subscribed) || Set.contains device_id h.in_flight
      then (h, wire)
      else if lacks_identity h
      then (park device_id h, wire)
      else (let (h', wire') =
            load_unclaimed_subscriptions_once
              (record h { in_flight = Set.insert device_id h.in_flight }) wire in
          adopt_or_create device_id h' wire')

  module _ (stopping : Wire → Bool) where
    -- The loop; `_workerStop` is polled before each device, and parks the rest.
    pub park_all : List Bytes → Hub S → Hub S
    park_all [] h = h
    park_all (device_id ∷ rest) h = park_all rest (park device_id h)

    pub flush_each : List Bytes → Hub S → Wire → Hub S × Wire
    flush_each [] h wire = (h, wire)
    flush_each (device_id ∷ rest) h wire = elim (stopping wire) [
      | true ↦ (park_all (device_id ∷ rest) h, wire)
      | false ↦
          let (h', wire') = maybe_subscribe_device device_id h wire in flush_each rest h' wire'
    ]

    pub flush_pending_subscriptions : Hub S → Wire → Hub S × Wire
    flush_pending_subscriptions h wire =
        if not h.is_oauth then (h, wire) else flush_each h.pending (record h { pending = [] }) wire

  -- The last `Device` of an id is gone.
  pub release_subscription : Bytes → Hub S → Wire → Hub S × Wire
  release_subscription device_id h wire =
      if not h.is_oauth
      then (h, wire)
      else (let id : Bytes = value_or (Dict.lookup device_id h.subscribed) [] in
          let h' : Hub S = record h {
            pending = Set.erase device_id h.pending;
            subscribed = Dict.erase device_id h.subscribed;
          } in
          if is_empty id
          then (h', wire)
          else (let (_, h'', wire') = delete_subscription cpr id h' wire in (h'', wire')))
