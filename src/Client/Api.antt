-- ===== src/Client/Api.antt =====
-- `validateAuthentication`, `getDeviceStatus`, `getCapabilityStatus` and `executeCommands` of
-- src/client.cpp.
pub mod Answers
use smartthings4cpp.Base.{
  ℕ, Bool, true, false, ◌&&◌, ◌||◌, not, List, [], ◌∷◌, ◌++◌, Option, none, some, Bytes, str, ◌==◌,
  if◌then◌else◌, is_empty, ok, thrown, to_string,
}
use smartthings4cpp.Types.{
  Outcome, done, not_done, authentication_required, authentication_failed, invalid_parameter,
  resource_not_found, conflict, rate_limited, network_error, api_error, unknown_error,
}
use smartthings4cpp.Json
use smartthings4cpp.Json.{JsonLib}
use smartthings4cpp.Http.{Cpr, Wire, HttpResponse, is_ok}
use smartthings4cpp.Storage.Provider.{StorageProvider}
use smartthings4cpp.Client.{Client, is_authenticated}
use smartthings4cpp.Client.Sending.{Callback, Meanwhile, get_with_auth, post_with_auth}

pub validation_outcome : HttpResponse → Outcome
validation_outcome response =
    if is_ok response
    then done
    else if (response.status_code == 401) || (response.status_code == 403)
    then not_done authentication_failed (str "Access token is invalid or lacks the required scope")
    else if response.status_code == 429
    then not_done rate_limited (str "Rate limit exceeded while validating token")
    else if response.status_code == 0
    then not_done network_error
        (str "Failed to reach the SmartThings API: " ++ response.error_message)
    else not_done api_error (
        str "Unexpected status " ++ to_string response.status_code ++ str " while validating token")

-- The `switch` of `executeCommands`, and the success in front of it.
unfoldable pub command_outcome : HttpResponse → Outcome
command_outcome response =
    if is_ok response
    then done
    else if (response.status_code == 401) || (response.status_code == 403)
    then not_done authentication_failed
        (str "Access token is invalid or lacks the required scope (need x:devices:*)")
    else if response.status_code == 404
    then not_done resource_not_found (str "Device not found")
    else if response.status_code == 409
    then not_done conflict (str "Device is offline or in a conflicting state")
    else if response.status_code == 422
    then not_done invalid_parameter (str "Invalid command or arguments for this capability")
    else if response.status_code == 429
    then not_done rate_limited (str "Rate limit exceeded")
    else if response.status_code == 0
    then not_done network_error
        (str "Failed to reach the SmartThings API: " ++ response.error_message)
    else not_done api_error
        (str "Unexpected status " ++ to_string response.status_code ++ str " executing command")

module _ {V : Type 0} (J : JsonLib V) {S : Type 0} (P : StorageProvider S) (meanwhile : Meanwhile)
    (callback : Option (Callback S)) (cpr : Cpr) where
  pub validate_authentication : Client S → Wire → Outcome × Client S × Wire
  validate_authentication c wire =
      if not (is_authenticated c)
      then (not_done authentication_required (str "No access token set"), c, wire)
      else (let (response, c', wire') =
            get_with_auth P meanwhile callback cpr (c.base_url ++ str "/devices?max=1") c wire in
          (validation_outcome response, c', wire'))

  -- The body of a success as JSON; `null` for anything else.
  pub status_of : HttpResponse → V
  status_of response =
      if is_ok response
      then elim (Json.parse J response.body) [ thrown _ ↦ J.null | ok json ↦ json ]
      else J.null

  pub get_device_status : Bytes → Client S → Wire → V × Client S × Wire
  get_device_status device_id c wire =
      if not (is_authenticated c) || is_empty device_id
      then (J.null, c, wire)
      else (let (response, c', wire') =
            get_with_auth P meanwhile callback cpr
              (c.base_url ++ str "/devices/" ++ device_id ++ str "/status") c wire in
          (status_of response, c', wire'))

  unfoldable pub get_capability_status :
      Bytes → Bytes → Bytes → Client S → Wire → V × Client S × Wire
  get_capability_status device_id component_id capability_id c wire =
      if (not (is_authenticated c) || is_empty device_id)
        || is_empty component_id
        || is_empty capability_id
      then (J.null, c, wire)
      else (let (response, c', wire') =
            get_with_auth P meanwhile callback cpr
              (c.base_url
                ++ str "/devices/"
                ++ device_id
                ++ str "/components/"
                ++ component_id
                ++ str "/capabilities/"
                ++ capability_id
                ++ str "/status")
              c wire in
          (status_of response, c', wire'))

  unfoldable pub execute_commands : Bytes → V → Client S → Wire → Outcome × Client S × Wire
  execute_commands device_id commands c wire =
      if not (is_authenticated c)
      then (not_done authentication_required (str "No access token set"), c, wire)
      else if is_empty device_id
      then (not_done invalid_parameter (str "Device id is empty"), c, wire)
      else elim (J.dump commands) [
        | thrown e ↦ (not_done unknown_error (str "Command error: " ++ e), c, wire)
        | ok body ↦
            let (response, c', wire') =
              post_with_auth P meanwhile callback cpr
                (c.base_url ++ str "/devices/" ++ device_id ++ str "/commands") body c wire in
            (command_outcome response, c', wire')
      ]
