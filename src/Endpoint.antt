-- ===== src/Endpoint.antt =====
-- `Client::handleWebhook` and `Client::processWebhook` of src/webhook.cpp: what each message does.
pub mod Events
pub mod Installing
pub mod Fanning
pub mod Answers
pub mod Soundness
pub mod Verified
use smartthings4cpp.Base.{
  ℕ, Bool, true, false, ◌&&◌, ◌||◌, not, List, [], ◌∷◌, ◌++◌, Option, none, some, Bytes, str, eqb,
  if◌then◌else◌, bind?, value_or, is_empty, is_some, Try, ok, thrown,
}
use smartthings4cpp.Json
use smartthings4cpp.Json.{JsonLib}
use smartthings4cpp.Types.{Outcome, is_success}
use smartthings4cpp.Http
use smartthings4cpp.Http.{Cpr, Wire}
use smartthings4cpp.Storage.Provider.{StorageProvider}
use smartthings4cpp.Client.{Client, store_app_id}
use smartthings4cpp.Subscriptions.{Hub}
use smartthings4cpp.Subscriptions.Automatic.{flush_pending_subscriptions}
use smartthings4cpp.Webhook.{
  WebhookRequest, WebhookResponse, WebhookMessageType, unknown, ping, confirmation, configuration,
  install, update, event, uninstall, oauth_callback,
}
use smartthings4cpp.Capability.{NumberLib}
use smartthings4cpp.Device.{Device, apply_device_event}
use smartthings4cpp.Registry.{Registry, object, write, live_devices_for}
use smartthings4cpp.Endpoint.Events.{events_of, dispatch_events}
use smartthings4cpp.Endpoint.Installing.{install_app, uninstall_app}

-- What a request may change: the subscriptions with the client in them, and the registered devices.
pub record Host (S V D : Type 0) : Type 0 where
  pub hub : Hub S
  pub registry : Registry (Device V D)

abbrev pub response : ℕ → Bytes → WebhookMessageType → WebhookResponse
response status_code body message_type = record {
  status_code = status_code;
  body = body;
  message_type = message_type;
}

-- The raw literals of the answers.
abbrev pub page_body : Bytes
page_body =
    str "{\"configurationData\":{\"page\":{\"pageId\":\"1\",\"name\":\"smartthings4cpp\","
    ++ str "\"nextPageId\":null,\"previousPageId\":null,\"complete\":true,\"sections\":[]}}}"

abbrev pub initialize_body : Bytes
initialize_body =
    str "{\"configurationData\":{\"initialize\":{\"name\":\"smartthings4cpp\","
    ++ str
        "\"description\":\"smartthings4cpp events\",\"id\":\"app\",\"permissions\":[],\"firstPageId\":\"1\"}}}"

module _ {V : Type 0} (J : JsonLib V) where
  -- A text inside an object member of the body, or the empty text.
  pub text_within : V → Bytes → Bytes → Bytes
  text_within body member_key key = elim (Json.object_member J body member_key) [
    | none ↦ []
    | some d ↦ Json.get_text_or J d key []
  ]

  module _ {D : Type 0} (N : NumberLib V D) {S : Type 0} (P : StorageProvider S) (cpr : Cpr)
      (stopping : Wire → Bool) where
    -- The message type and the body of an object that has one.
    unfoldable pub process_message :
        Bytes → V → Host S V D → Wire → Try WebhookResponse × Host S V D × Wire
    process_message message_type body host wire =
        if eqb message_type (str "PING")
        then (
          elim (J.dump (
              J.object (
                (
                  str "pingData",
                  J.object (
                      (
                        str "challenge",
                        J.text (text_within body (str "pingData") (str "challenge")),
                      )
                      ∷ []),
                )
                ∷ []))) [ thrown what ↦ thrown what | ok text ↦ ok (response 200 text ping) ],
          host,
          wire,
        )
        else if eqb message_type (str "CONFIRMATION")
        then (let url : Bytes = text_within body (str "confirmationData") (str "confirmationUrl") in
            (
              ok (response 200 (str "{}") confirmation),
              host,
              (if is_empty url
                  then wire
                  else (Http.get cpr (Http.set_timeout 10000 Http.new_client) url [] wire).1),
            ))
        else if eqb message_type (str "CONFIGURATION")
        then (
          ok (
              response 200
                (if eqb (text_within body (str "configurationData") (str "phase")) (str "PAGE")
                  then page_body
                  else initialize_body)
                configuration),
          host,
          wire,
        )
        else if eqb message_type (str "INSTALL")
        then (let (h, wire') =
              install_app P J cpr stopping body (str "installData") host.hub wire in
            (
              ok (response 200 (str "{\"installData\":{}}") install),
              record host { hub = h },
              wire',
            ))
        else if eqb message_type (str "UPDATE")
        then (let (h, wire') = install_app P J cpr stopping body (str "updateData") host.hub wire in
            (ok (response 200 (str "{\"updateData\":{}}") update), record host { hub = h }, wire'))
        else if eqb message_type (str "EVENT")
        then (let (result, r) = dispatch_events J N (events_of J body) host.registry in
            (
              elim result [
                | thrown what ↦ thrown what
                | ok _ ↦ ok (response 200 (str "{\"eventData\":{}}") event)
              ],
              record host { registry = r },
              wire,
            ))
        else if eqb message_type (str "UNINSTALL")
        then (
          ok (response 200 (str "{\"uninstallData\":{}}") uninstall),
          record host { hub = uninstall_app P host.hub },
          wire,
        )
        else if eqb message_type (str "OAUTH_CALLBACK")
        then (ok (response 200 (str "{\"oAuthCallbackData\":{}}") oauth_callback), host, wire)
        else (ok (response 200 (str "{}") unknown), host, wire)

    unfoldable pub process_webhook :
        WebhookRequest → Host S V D → Wire → Try WebhookResponse × Host S V D × Wire
    process_webhook request host wire = elim (Json.parse J request.body) [
      | thrown _ ↦ (
        ok (response 400 (str "{\"error\":\"request body is not valid JSON\"}") unknown),
        host,
        wire,
      )
      | ok body ↦
          if not (Json.contains J body (str "messageType"))
          then (ok (response 400 (str "{\"error\":\"missing messageType\"}") unknown), host, wire)
          else process_message (Json.get_text_or J body (str "messageType") []) body host wire
    ]

    -- `handleWebhook` of a request; `verify` is the verifier that is set, with what it keeps.
    pub handle_webhook :
        {K : Type 0}
        → Option (WebhookRequest → K → Wire → Outcome × K × Wire)
        → WebhookRequest
        → K
        → Host S V D
        → Wire
        → Try WebhookResponse × K × Host S V D × Wire
    handle_webhook verifier request kept host wire = elim verifier [
      | none ↦
          (let (answer, host', wire') = process_webhook request host wire in
            (answer, kept, host', wire'))
      | some verify ↦
          (let (verified, kept', wire') = verify request kept wire in
            if not (is_success verified.error)
            then (
              ok (
                  response 401 (str "{\"error\":\"webhook signature verification failed\"}")
                    unknown),
              kept',
              host,
              wire',
            )
            else (let (answer, host', wire'') = process_webhook request host wire' in
                (answer, kept', host', wire'')))
    ]

    -- `handleWebhook` of a bare body, which is trusted.
    pub handle_trusted_webhook : Bytes → Host S V D → Wire → Try WebhookResponse × Host S V D × Wire
    handle_trusted_webhook body host wire =
        process_webhook (record { method = str "POST"; path = []; body = body; headers = [] }) host
          wire
