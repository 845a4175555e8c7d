-- ===== src/Tests/Messages.antt =====
-- Messages of the webhook and commands of a capability.
use smartthings4cpp.Base.{
  ℕ, Bool, true, false, List, [], ◌∷◌, ◌++◌, Option, none, some, Bytes, str, ◌≡◌, ◌⊎◌, inl, inr,
  refl, eqb, Bool-cases, ◌&&◌, if◌then◌else◌, bind?, value_or, is_empty, Try, ok, thrown,
}
use smartthings4cpp.Base.Dict
use smartthings4cpp.Base.Dict.{Dict}
use smartthings4cpp.Base.Int.{ℤ, pos}
use smartthings4cpp.Json
use smartthings4cpp.Json.{JsonLib}
use smartthings4cpp.Http.{Wire, Cpr}
use smartthings4cpp.Storage.{File}
use smartthings4cpp.Storage.Provider.{StorageProvider}
use smartthings4cpp.Storage.FileProvider.{file_provider}
use smartthings4cpp.Subscriptions.{Hub}
use smartthings4cpp.Webhook.{WebhookRequest, WebhookResponse, unknown}
use smartthings4cpp.Capability.{Capability, Command, new_capability, text}
use smartthings4cpp.Device.{Device}
use smartthings4cpp.Registry.{Registry, object, register_device}
use smartthings4cpp.Registry.Live.{entered}
use smartthings4cpp.Endpoint.{Host, response, process_webhook, handle_webhook}
use smartthings4cpp.Endpoint.Events.{read_device_event, dispatch_event}
use smartthings4cpp.Endpoint.Installing.{uninstall_app}
use smartthings4cpp.Endpoint.Fanning.{IsSingle, behind, dispatch_event-object}
use smartthings4cpp.Endpoint.Answers.{has_message_type, answer_status}
use smartthings4cpp.Endpoint.Soundness.{AllSound, process_webhook-AllSound}
use smartthings4cpp.Endpoint.Verified.{processed_only_signed}
use smartthings4cpp.Signature.Verify.{Crypto, Verifier, verify}
use smartthings4cpp.Signature.Verify.Soundness.{Accepted}
use smartthings4cpp.Tests.SampleJson.{Json, sample_json, one_text}
use smartthings4cpp.Tests.Fixtures.{answers, disk, hub_of, no_jobs, webhook_request}
use smartthings4cpp.Tests.Devices.{halves, halves-IsExact, device}

abbrev provider : StorageProvider File
provider = file_provider sample_json disk

abbrev server : Cpr
server = answers 200 (b'k' ∷ [])

abbrev never : Wire → Bool
never = λ wire. false

abbrev registry : Registry (Device Json ℤ)
registry = register_device (b'd' ∷ []) 1 (record { buckets = []; objects = (1, device) ∷ [] })

abbrev host : Host File Json ℤ
host = record { hub = hub_of (b't' ∷ []); registry = registry }

abbrev ping : WebhookRequest
ping = webhook_request (one_text (str "messageType") (str "PONG")) []

-- A JSON library for a webhook that gets one event, which sets the number of the registered device.
abbrev one_event : JsonLib Json
one_event = record sample_json {
  parse = λ s. ok (
      sample_json.object (
        (
          str "eventData",
          sample_json.object (
              (
                str "events",
                sample_json.array (
                    sample_json.object (
                      (
                        str "deviceEvent",
                        sample_json.object (
                            (str "attribute", sample_json.text (b'n' ∷ []))
                            ∷ (str "capability", sample_json.text (b's' ∷ []))
                            ∷ (str "componentId", sample_json.text (b'm' ∷ []))
                            ∷ (str "deviceId", sample_json.text (b'd' ∷ []))
                            ∷ (str "value", sample_json.integer (pos 7))
                            ∷ []),
                      )
                      ∷ (str "eventType", sample_json.text (str "DEVICE_EVENT"))
                      ∷ [])
                    ∷ []),
              )
              ∷ []),
        )
        ∷ (str "messageType", sample_json.text (str "EVENT"))
        ∷ []));
}

process_webhook-AllSound_example :
    AllSound one_event halves
      (process_webhook one_event halves provider server never ping host []).1.registry.objects
unfolding register_device new_capability smartthings4cpp.Capability.initial_values
    smartthings4cpp.Capability.read_fields smartthings4cpp.Capability.initial_value
    smartthings4cpp.Capability.read_field smartthings4cpp.Capability.attribute_string
    smartthings4cpp.Capability.attribute_number smartthings4cpp.Capability.attribute_value
    Json.object_member Json.member Dict.lookup
process_webhook-AllSound_example =
    process_webhook-AllSound one_event halves provider server never ping host [] halves-IsExact
      ((((refl, refl, refl, refl), tt), tt), tt)

abbrev acknowledged : WebhookResponse
acknowledged = response 200 (str "{}") unknown

abbrev silent : Wire
silent = []

answer_status_example :
    ((has_message_type sample_json halves provider server never ping ≡ true)
      × (acknowledged.status_code ≡ 200))
    ⊎ ((has_message_type sample_json halves provider server never ping ≡ false)
        × (acknowledged.status_code ≡ 400)
        × (host ≡ host)
        × (silent ≡ silent))
unfolding process_webhook Json.parse str Json.contains Json.member Dict.lookup eqb
    smartthings4cpp.Endpoint.process_message Json.get_text_or Json.get_text
answer_status_example =
    answer_status sample_json halves provider server never ping host host silent silent acknowledged
      refl

abbrev device_event : Json
device_event = sample_json.object (
    (str "eventType", sample_json.text (str "DEVICE_EVENT"))
    ∷ (
      str "deviceEvent",
      sample_json.object (
          (str "deviceId", sample_json.text (b'd' ∷ []))
          ∷ (str "componentId", sample_json.text (b'm' ∷ []))
          ∷ (str "capability", sample_json.text (b's' ∷ []))
          ∷ (str "attribute", sample_json.text (b'a' ∷ []))
          ∷ []),
    )
    ∷ [])

abbrev dispatched : Registry (Device Json ℤ)
dispatched = (dispatch_event sample_json halves device_event registry).1

one_each : (id : Bytes) → IsSingle (value_or (Dict.lookup id registry.buckets) [])
unfolding Dict.lookup register_device Dict.insert smartthings4cpp.Registry.live_only
    smartthings4cpp.Registry.Live.among
one_each id = elim (Bool-cases (eqb (b'd' ∷ []) id)) [ inl t ↦ rw t (refl, tt) | inr t ↦ rw t tt ]

dispatch_event-object_example :
    object 1 dispatched.objects ≡ elim (read_device_event sample_json device_event) [
      | none ↦ object 1 registry.objects
      | some e ↦
          if entered e.device_id 1 registry
          then bind? (object 1 registry.objects) (behind sample_json halves e)
          else object 1 registry.objects
    ]
unfolding dispatch_event read_device_event Json.is_object eqb Json.get_text_or Json.get_text
    Json.member Dict.lookup str Json.object_member smartthings4cpp.Endpoint.Events.fan_out
    smartthings4cpp.Registry.live_devices_for register_device Dict.insert
    smartthings4cpp.Registry.live_only object smartthings4cpp.Device.apply_device_event Dict.erase
    smartthings4cpp.Base.before smartthings4cpp.Capability.attribute_bool
    smartthings4cpp.Capability.attribute_number smartthings4cpp.Capability.attribute_string
    smartthings4cpp.Capability.attribute_string_array smartthings4cpp.Capability.attribute_value
    smartthings4cpp.Capability.read_field smartthings4cpp.Capability.read_fields
    smartthings4cpp.Capability.set_entry smartthings4cpp.Capability.set_local_attribute
    smartthings4cpp.Capability.texts_among smartthings4cpp.Capability.with_status
    smartthings4cpp.Device.apply_to_capabilities smartthings4cpp.Device.apply_to_components
    smartthings4cpp.Registry.write new_capability
dispatch_event-object_example =
    dispatch_event-object sample_json halves device_event registry dispatched 1
      (λ e f. one_each e.device_id) refl

-- A provider that keeps its values in memory.
abbrev memory : StorageProvider (Dict Bytes)
memory = record {
  get_value = λ key values. Dict.lookup key values;
  set_value = λ key value values. (true, Dict.insert key value values);
  remove_value = λ key values. Dict.erase key values;
}

abbrev hub : Hub (Dict Bytes)
hub = record {
  client = record {
    access_token = b't' ∷ [];
    base_url = b'u' ∷ [];
    external_tokens = false;
    rejected_token = [];
    installed_app_id = b'i' ∷ [];
    keychain = some ((str "oauth.token", b'o' ∷ []) ∷ []);
    storage = some ((str "installedAppId", b'i' ∷ []) ∷ []);
    jobs = no_jobs;
  };
  is_oauth = true;
  installed_app_token = [];
  subscribed = (b'd' ∷ [], b's' ∷ []) ∷ [];
  pending = [];
  in_flight = [];
  unclaimed = [];
  unclaimed_loaded = true;
}

abbrev forgotten : Hub (Dict Bytes)
forgotten = uninstall_app memory hub

abbrev no_crypto : Crypto
no_crypto = record {
  available = false;
  sha256 = λ s. none;
  rsa_verify = λ key message signature. false;
}

abbrev verifier : Verifier
verifier = record {
  config = record { key_server_base_url = b'u' ∷ []; max_clock_skew = 300; key_cache_ttl = 60 };
  resolver = none;
  cache = [];
}

processed_only_signed_example :
    (let result =
        handle_webhook sample_json halves provider server never
          (some (verify no_crypto (λ s. none) (pos 0) server 0))
          ping
          verifier
          host
          [] in
      (result.0
        ≡ ok (response 401 (str "{\"error\":\"webhook signature verification failed\"}") unknown))
      × (result.2 ≡ host))
    ⊎ Accepted no_crypto (λ s. none) (pos 0) server 0 ping verifier []
processed_only_signed_example =
    processed_only_signed sample_json halves provider server never no_crypto (λ s. none) (pos 0) 0
      ping verifier host []
