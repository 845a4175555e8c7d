-- ===== src/Tests/Sessions.antt =====
-- Devices handed out, and the worker of the external-tokens mode.
use smartthings4cpp.Base.{
  ℕ, Bool, true, false, List, [], ◌∷◌, Option, none, some, Bytes, str, ◌≡◌, refl, All, Try, ok,
}
use smartthings4cpp.Base.Int.{ℤ, pos}
use smartthings4cpp.Json.{JsonLib}
use smartthings4cpp.Types.{done, returned}
use smartthings4cpp.Http.{Cpr, Wire}
use smartthings4cpp.Storage.{File}
use smartthings4cpp.Storage.Provider.{StorageProvider}
use smartthings4cpp.Storage.FileProvider.{file_provider}
use smartthings4cpp.Client.{set_access_token, report_rejected_token}
use smartthings4cpp.Schemas.Factory.{create_capability}
use smartthings4cpp.Session.Devices.{Household, get_devices}
use smartthings4cpp.Session.Devices.Registered.{Found, get_devices-Found}
use smartthings4cpp.Session.Worker.{Worker, access_token_rejected, with_client}
use smartthings4cpp.Session.Worker.Rounds.{
  reject, rejects, round, run_later, rejected_again, next_round, rejected_reported_once,
  overtaken_not_reported,
}
use smartthings4cpp.Session.Authentication.{Login, ask_consent}
use smartthings4cpp.Session.Authentication.Outcomes.{Ended, authenticate-Ended}
use smartthings4cpp.Tests.SampleJson.{Json, sample_json, sample_json-IsLawful}
use smartthings4cpp.Tests.Fixtures.{answers, authenticator_with, disk, client_of, hub_of, no_calls}
use smartthings4cpp.Tests.Devices.{halves}
use smartthings4cpp.Capability.{Capability, new_capability}
use smartthings4cpp.Capability.Commands.{execute_command, refresh_status}
use smartthings4cpp.Client.Api.{execute_commands}
use smartthings4cpp.Client.Sending.{get_with_auth}
use smartthings4cpp.Schemas.Requests.{created_capability_requests}

abbrev provider : StorageProvider File
provider = file_provider sample_json disk

abbrev server : Cpr
server = answers 200 (b'k' ∷ [])

abbrev never : Wire → Bool
never = λ wire. false

-- A JSON library for a server that answers with one page of one device.
abbrev one_page : JsonLib Json
one_page = record sample_json {
  parse = λ s. ok (
      sample_json.object (
        (
          str "items",
          sample_json.array
              (sample_json.object ((str "deviceId", sample_json.text (b'd' ∷ [])) ∷ []) ∷ []),
        )
        ∷ []));
}

abbrev household : Household File Json ℤ
household = record {
  host = record { hub = hub_of (b't' ∷ []); registry = record { buckets = []; objects = [] } };
  next = 0;
}

get_devices-Found_example :
    All
      (Found
        (get_devices one_page halves create_capability server provider no_calls none household
          []).1.host.registry)
      (get_devices one_page halves create_capability server provider no_calls none household []).0
unfolding smartthings4cpp.Registry.object
get_devices-Found_example =
    get_devices-Found one_page halves create_capability server provider no_calls none household []
      (λ i h. refl)

abbrev worker : Worker File
worker = record {
  hub = hub_of (b't' ∷ []);
  auth_finished = false;
  auth_outcome = done;
  notices = [];
}

abbrev token : Bytes
token = b't' ∷ []

rejected_reported_once_example :
    (run_later sample_json provider server never token
      (rejected_again ∷ next_round [] ∷ rejected_again ∷ [])
      (round sample_json provider server never []
        (rejects sample_json provider server never 3 token worker))).notices
    ≡ access_token_rejected token ∷ []
unfolding smartthings4cpp.Base.eqb
rejected_reported_once_example =
    rejected_reported_once sample_json provider server never token worker [] 2
      (rejected_again ∷ next_round [] ∷ rejected_again ∷ []) refl refl refl refl refl refl

overtaken_not_reported_example :
    (round sample_json provider server never [] (
      with_client
        (set_access_token provider (b'n' ∷ []) (b'i' ∷ []) (reject token worker).hub.client)
        (reject token worker))).notices
    ≡ []
unfolding report_rejected_token smartthings4cpp.Base.eqb
overtaken_not_reported_example =
    overtaken_not_reported sample_json provider server never (b'n' ∷ []) (b'i' ∷ [])
      (reject token worker) [] refl refl refl (refl, tt) refl

-- A capability that is created for an id without a class.
abbrev created : Capability Json ℤ
created =
    new_capability sample_json halves (create_capability (str "vendor.unknown")) (pos 1) (b'm' ∷ [])
      (b'd' ∷ []) true

created_capability_requests_example :
    (execute_command sample_json halves provider no_calls none server
        (str "go")
        (sample_json.array [])
        created
        (client_of (b't' ∷ []))
        []
      ≡ execute_commands sample_json provider no_calls none server
          (b'd' ∷ [])
          (sample_json.object (
            (
              str "commands",
              sample_json.array (
                  sample_json.object (
                    (str "arguments", sample_json.array [])
                    ∷ (str "capability", sample_json.text (str "vendor.unknown"))
                    ∷ (str "command", sample_json.text (str "go"))
                    ∷ (str "component", sample_json.text (b'm' ∷ []))
                    ∷ [])
                  ∷ []),
            )
            ∷ []))
          (client_of (b't' ∷ []))
          [])
    × ((refresh_status sample_json halves provider no_calls none server created
          (client_of (b't' ∷ []))
          []).2
        ≡ (get_with_auth provider no_calls none server
            (str "u/devices/d/components/m/capabilities/vendor.unknown/status")
            (client_of (b't' ∷ []))
            []).1)
    × ((refresh_status sample_json halves provider no_calls none server created
          (client_of (b't' ∷ []))
          []).3
        ≡ (get_with_auth provider no_calls none server
            (str "u/devices/d/components/m/capabilities/vendor.unknown/status")
            (client_of (b't' ∷ []))
            []).2)
unfolding create_capability new_capability smartthings4cpp.Client.is_authenticated str
created_capability_requests_example =
    created_capability_requests sample_json halves provider no_calls none server
      sample_json-IsLawful (str "vendor.unknown") (str "go") [] created (client_of (b't' ∷ [])) []
      refl refl refl refl refl refl

-- A client of the OAuth mode with an empty keychain.
abbrev new_login : Login File
new_login = record {
  worker = with_client (record worker.hub.client { external_tokens = false }) worker;
  authenticator = authenticator_with [];
  server_start = done;
  redirect_uri = b'r' ∷ [];
}

abbrev zeros : ℕ → ℕ
zeros = λ n. 0

authenticate-Ended_example :
    Ended sample_json provider server
      (pos 0)
      never
      no_calls
      zeros
      new_login
      (returned false)
      (ask_consent sample_json provider server (pos 0) never no_calls zeros new_login)
unfolding smartthings4cpp.Session.Authentication.authenticate
    smartthings4cpp.Client.Tokens.load_persisted_oauth_token smartthings4cpp.Client.Tokens.load_from
    smartthings4cpp.Storage.get_value smartthings4cpp.Base.Dict.lookup smartthings4cpp.Storage.load
authenticate-Ended_example =
    authenticate-Ended sample_json provider server (pos 0) never no_calls zeros new_login
      (ask_consent sample_json provider server (pos 0) never no_calls zeros new_login)
      (returned false) [] [] refl refl refl refl
