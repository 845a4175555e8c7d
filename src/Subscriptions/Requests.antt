-- ===== src/Subscriptions/Requests.antt =====
-- `subscribeTo`, `listSubscriptions`, `deleteSubscription` and `deleteAllSubscriptions` of src/webhook.cpp.
pub mod Frame
use smartthings4cpp.Base.{
  ℕ, Bool, true, false, ◌&&◌, ◌||◌, not, List, [], ◌∷◌, ◌++◌, Option, none, some, Bytes, str, ◌==◌,
  if◌then◌else◌, is_empty, ok, thrown, to_string, value_or,
}
use smartthings4cpp.Base.Dict
use smartthings4cpp.Base.Dict.{Dict}
use smartthings4cpp.Types.{
  ErrorCode, Result, Outcome, returned, failed, done, not_done, authentication_required,
  authentication_failed, invalid_parameter, invalid_request, resource_not_found, rate_limited,
  network_error, api_error, unknown_error,
}
use smartthings4cpp.Json
use smartthings4cpp.Json.{JsonLib}
use smartthings4cpp.Http
use smartthings4cpp.Http.{Cpr, Wire, HttpResponse, is_ok, new_client}
use smartthings4cpp.Webhook.{SubscriptionRequest, Subscription}
use smartthings4cpp.Client.{Client, auth_headers_for, report_rejected_token}
use smartthings4cpp.Subscriptions.{
  Hub, subscription_token, parse_subscription, parse_subscriptions, build_subscription_body,
}

-- `subscriptionError`: the code and the text.
pub subscription_error : HttpResponse → Bytes → ErrorCode × Bytes
subscription_error r action =
    if (r.status_code == 401) || (r.status_code == 403)
    then (authentication_failed, action ++ str ": token invalid or lacks the subscription scope")
    else if r.status_code == 404
    then (resource_not_found, action ++ str ": installed app or subscription not found")
    else if r.status_code == 429
    then (rate_limited, action ++ str ": rate limit exceeded")
    else if r.status_code == 0
    then (network_error, action ++ str ": failed to reach the SmartThings API: " ++ r.error_message)
    else (api_error, action ++ str ": unexpected status " ++ to_string r.status_code)

pub no_oauth : ErrorCode × Bytes
no_oauth = (invalid_request, str "subscriptions require an OAuth-mode Client")

pub no_app : ErrorCode × Bytes
no_app = (
  invalid_parameter,
  str "no installedAppId yet - process the Install webhook or call setInstalledAppId()",
)

-- The guards that the four operations make; `missing` is the one on an argument, made before the token's.
pub refusal : {S : Type 0} → Option Bytes → Hub S → Option (ErrorCode × Bytes)
refusal missing h =
    if not h.is_oauth
    then some no_oauth
    else if is_empty h.client.installed_app_id
    then some no_app
    else elim missing [
      | some what ↦ some (invalid_parameter, what)
      | none ↦
          if is_empty (subscription_token h)
          then some (authentication_required, str "no access token set")
          else none
    ]

pub subscriptions_url : {S : Type 0} → Hub S → Bytes
subscriptions_url h =
    h.client.base_url ++ str "/installedapps/" ++ h.client.installed_app_id ++ str "/subscriptions"

-- An answer 401 is reported.
pub note_rejection : {S : Type 0} → HttpResponse → Hub S → Hub S
note_rejection r h =
    if r.status_code == 401
    then record h { client = report_rejected_token (subscription_token h) h.client }
    else h

pub missing_id : Bytes → Bytes → Option Bytes
missing_id id what = if is_empty id then some what else none

module _ {V : Type 0} (J : JsonLib V) {S : Type 0} (cpr : Cpr) where
  pub created_subscription : HttpResponse → Hub S → Result Subscription × Hub S
  created_subscription r h =
      if is_ok r
      then (
        elim (Json.parse J r.body) [
          | thrown e ↦ failed unknown_error (str "subscribeTo error: " ++ e)
          | ok json ↦ returned (parse_subscription J json)
        ],
        h,
      )
      else (
        failed (subscription_error r (str "subscribeTo")).0
            (subscription_error r (str "subscribeTo")).1,
        note_rejection r h,
      )

  pub send_subscription : SubscriptionRequest → Hub S → Wire → Result Subscription × Hub S × Wire
  send_subscription request h wire = elim (J.dump (build_subscription_body J request)) [
    | thrown e ↦ (failed unknown_error (str "subscribeTo error: " ++ e), h, wire)
    | ok body ↦
        let (r, wire') =
          Http.post cpr new_client (subscriptions_url h) body
            (Dict.insert (str "Content-Type") (str "application/json")
              (auth_headers_for (subscription_token h)))
            wire in
        let (result, h') = created_subscription r h in (result, h', wire')
  ]

  pub subscribe_to : SubscriptionRequest → Hub S → Wire → Result Subscription × Hub S × Wire
  subscribe_to request h wire =
      elim (refusal (missing_id request.device_id (str "SubscriptionRequest.deviceId is empty"))
        h) [
          | some (code, what) ↦ (failed code what, h, wire)
          | none ↦ send_subscription request h wire
        ]

  pub listed_subscriptions : HttpResponse → Hub S → Result (List Subscription) × Hub S
  listed_subscriptions r h =
      if is_ok r
      then (
        elim (Json.parse J r.body) [
          | thrown e ↦ failed unknown_error (str "listSubscriptions error: " ++ e)
          | ok json ↦
              returned
                (parse_subscriptions J (value_or (Json.array_member J json (str "items")) []))
        ],
        h,
      )
      else (
        failed (subscription_error r (str "listSubscriptions")).0
            (subscription_error r (str "listSubscriptions")).1,
        note_rejection r h,
      )

  pub list_subscriptions : Hub S → Wire → Result (List Subscription) × Hub S × Wire
  list_subscriptions h wire = elim (refusal none h) [
    | some (code, what) ↦ (failed code what, h, wire)
    | none ↦
        let (r, wire') =
          Http.get cpr new_client (subscriptions_url h) (auth_headers_for (subscription_token h))
            wire in
        let (result, h') = listed_subscriptions r h in (result, h', wire')
  ]

-- What a deletion's answer becomes.
pub deletion_outcome : {S : Type 0} → Bytes → HttpResponse → Hub S → Outcome × Hub S
deletion_outcome action r h = if is_ok r then (done, h) else (
  not_done (subscription_error r action).0 (subscription_error r action).1,
  note_rejection r h,
)

module _ {S : Type 0} (cpr : Cpr) where
  pub delete_at : Bytes → Bytes → Hub S → Wire → Outcome × Hub S × Wire
  delete_at action url h wire =
      let (r, wire') = Http.del cpr new_client url (auth_headers_for (subscription_token h)) wire in
      let (outcome, h') = deletion_outcome action r h in (outcome, h', wire')

  pub delete_subscription : Bytes → Hub S → Wire → Outcome × Hub S × Wire
  delete_subscription id h wire = elim (refusal (missing_id id (str "subscriptionId is empty")) h) [
    | some (code, what) ↦ (not_done code what, h, wire)
    | none ↦ delete_at (str "deleteSubscription") (subscriptions_url h ++ str "/" ++ id) h wire
  ]

  pub delete_all_subscriptions : Hub S → Wire → Outcome × Hub S × Wire
  delete_all_subscriptions h wire = elim (refusal none h) [
    | some (code, what) ↦ (not_done code what, h, wire)
    | none ↦ delete_at (str "deleteAllSubscriptions") (subscriptions_url h) h wire
  ]
