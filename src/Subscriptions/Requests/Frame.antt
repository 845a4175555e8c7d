-- ===== src/Subscriptions/Requests/Frame.antt =====
-- What the requests about subscriptions leave as it is, and what they refuse.
use smartthings4cpp.Base.{false, ◌&&◌, not, Bytes, ◌≡◌, arith, is_empty}
use smartthings4cpp.Types.{is_success}
use smartthings4cpp.Json.{JsonLib}
use smartthings4cpp.Http.{Cpr, Wire}
use smartthings4cpp.Webhook.{SubscriptionRequest}
use smartthings4cpp.Subscriptions.{Hub, subscription_token}
use smartthings4cpp.Subscriptions.Requests.{
  refusal, no_oauth, no_app, note_rejection, created_subscription, send_subscription, subscribe_to,
  listed_subscriptions, list_subscriptions, deletion_outcome, delete_at, delete_subscription,
  delete_all_subscriptions,
}

-- What the requests leave as it is.
abbrev pub Keeps : {S : Type 0} → Hub S → Hub S → Type 0
Keeps h h' =
    (h'.subscribed ≡ h.subscribed)
    × (h'.pending ≡ h.pending)
    × (h'.in_flight ≡ h.in_flight)
    × (h'.is_oauth ≡ h.is_oauth)

module _ {S : Type 0} where
  module _ {V : Type 0} (J : JsonLib V) (cpr : Cpr) where
    send_subscription-Keeps :
        (request : SubscriptionRequest) (h : Hub S) (wire : Wire)
        → Keeps h (send_subscription J cpr request h wire).1
    unfolding note_rejection send_subscription created_subscription
    send_subscription-Keeps request h wire = ground arith

    pub subscribe_to-Keeps :
        (request : SubscriptionRequest) (h : Hub S) (wire : Wire)
        → Keeps h (subscribe_to J cpr request h wire).1
    unfolding subscribe_to
    subscribe_to-Keeps request h wire = ground (arith, send_subscription-Keeps request h wire)

    pub list_subscriptions-Keeps :
        (h : Hub S) (wire : Wire) → Keeps h (list_subscriptions J cpr h wire).1
    unfolding note_rejection list_subscriptions listed_subscriptions
    list_subscriptions-Keeps h wire = ground arith

    pub delete_subscription-Keeps :
        (id : Bytes) (h : Hub S) (wire : Wire) → Keeps h (delete_subscription cpr id h wire).1
    unfolding note_rejection delete_subscription delete_at deletion_outcome
    delete_subscription-Keeps id h wire = ground arith

    -- Outside the OAuth mode, without an installed app, or without a token, none of the four operations
    -- sends a request or changes anything, and each fails.
    pub refused_silently :
        (request : SubscriptionRequest) (id : Bytes) (h : Hub S) (wire : Wire)
        → ((h.is_oauth && not (is_empty h.client.installed_app_id))
            && not (is_empty (subscription_token h)))
          ≡ false
        → ((subscribe_to J cpr request h wire).1 ≡ h)
          × ((subscribe_to J cpr request h wire).2 ≡ wire)
          × (is_success (subscribe_to J cpr request h wire).0.error ≡ false)
          × ((list_subscriptions J cpr h wire).1 ≡ h)
          × ((list_subscriptions J cpr h wire).2 ≡ wire)
          × (is_success (list_subscriptions J cpr h wire).0.error ≡ false)
          × ((delete_subscription cpr id h wire).1 ≡ h)
          × ((delete_subscription cpr id h wire).2 ≡ wire)
          × (is_success (delete_subscription cpr id h wire).0.error ≡ false)
          × ((delete_all_subscriptions cpr h wire).1 ≡ h)
          × ((delete_all_subscriptions cpr h wire).2 ≡ wire)
          × (is_success (delete_all_subscriptions cpr h wire).0.error ≡ false)
    unfolding subscribe_to list_subscriptions delete_subscription delete_all_subscriptions refusal
        no_oauth no_app
    refused_silently request id h wire lacking = ground arith
