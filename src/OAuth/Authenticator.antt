-- ===== src/OAuth/Authenticator.antt =====
-- `OAuth2Authenticator` of src/oauth2/oauth2_authenticator.cpp. The clock, the random digits of the
-- state, the JSON library and the HTTP library are parameters.
pub mod Requests
pub mod Csrf
use smartthings4cpp.Base.{
  ℕ, zero, suc, ◌+◌, ◌-◌, Bool, true, false, ◌&&◌, ◌||◌, not, List, [], ◌∷◌, ◌++◌, Option, none,
  some, Bytes, str, eqb, ltb, ◌==◌, if◌then◌else◌, is_empty, ok, thrown, to_string,
}
use smartthings4cpp.Base.Dict
use smartthings4cpp.Base.Dict.{Dict}
use smartthings4cpp.Base.Int.{ℤ, pos}
use smartthings4cpp.Types.{
  ErrorCode, Result, returned, failed, is_success, invalid_parameter, invalid_request, api_error,
  authentication_failed, rate_limited, network_error, unknown_error,
}
use smartthings4cpp.Json
use smartthings4cpp.Json.{JsonLib}
use smartthings4cpp.Http
use smartthings4cpp.Http.{Cpr, Wire, HttpResponse, is_ok, new_client}
use smartthings4cpp.Base64
use smartthings4cpp.OAuth.Token.{OAuth2Config, OAuth2Token}
use smartthings4cpp.OAuth.Url.{url_encode}
use smartthings4cpp.OAuth.Redirect.{ParsedRedirect, parse_redirect_result}

pub record Authenticator : Type 0 where
  pub config : OAuth2Config
  pub pending_state : Bytes
  pub pending_redirect_uri : Bytes

abbrev pub new_authenticator : OAuth2Config → Authenticator
new_authenticator config = record { config = config; pending_state = []; pending_redirect_uri = [] }

-- A digit of `HEX`.
pub hex_lower : ℕ → ℕ
hex_lower n = if ltb n 10 then b'0' + n else b'a' + n - 10

-- `count` draws of `dist(rng)`, from draw `i` on.
pub draw_digits : (ℕ → ℕ) → ℕ → ℕ → Bytes
draw_digits draw i zero = []
draw_digits draw i (suc count) = hex_lower (draw i) ∷ draw_digits draw (suc i) count

pub generate_state : (ℕ → ℕ) → Bytes
generate_state draw = draw_digits draw 0 32

-- The scopes with a space between them.
pub join_scopes : List Bytes → Bytes
join_scopes [] = []
join_scopes (s ∷ []) = s
join_scopes (s ∷ t ∷ rest) = s ++ b' ' ∷ join_scopes (t ∷ rest)

unfoldable pub build_authorize_url : (ℕ → ℕ) → Bytes → Authenticator → Bytes × Authenticator
build_authorize_url draw redirect_uri a =
    let state : Bytes = generate_state draw in
    (
      a.config.authorize_url
          ++ str "?client_id="
          ++ url_encode a.config.client_id
          ++ str "&response_type=code"
          ++ str "&redirect_uri="
          ++ url_encode redirect_uri
          ++ str "&scope="
          ++ url_encode (join_scopes a.config.scopes)
          ++ str "&state="
          ++ url_encode state,
      record a { pending_state = state; pending_redirect_uri = redirect_uri },
    )

-- The loop of `requestToken` over the parameters, in the order of the map.
unfoldable pub form_body : Dict Bytes → Bytes → Bytes
form_body [] body = body
form_body ((key, value) ∷ params) body = form_body params (
    (if is_empty body then body else body ++ b'&' ∷ [])
    ++ url_encode key
    ++ str "="
    ++ url_encode value)

unfoldable pub token_headers : OAuth2Config → Dict Bytes
token_headers config =
    Dict.insert (str "Authorization")
      (str "Basic " ++ Base64.encode (config.client_id ++ str ":" ++ config.client_secret))
      (Dict.insert (str "Accept") (str "application/json")
        (Dict.insert (str "Content-Type") (str "application/x-www-form-urlencoded") []))

unfoldable pub lacks_credentials : OAuth2Config → Bool
lacks_credentials config = is_empty config.client_id || is_empty config.client_secret

-- The checks that `completeAuthorization` makes before it sends anything: the refusal, if any.
unfoldable pub refuse_redirect : ParsedRedirect → Authenticator → Option (ErrorCode × Bytes)
refuse_redirect parsed a =
    if not (is_empty parsed.error)
    then some (invalid_request, str "Authorization was not granted: " ++ parsed.error)
    else if is_empty parsed.code
    then some (invalid_parameter, str "Could not find an authorization code in redirect_result")
    else if parsed.has_state && (is_empty a.pending_state || not (eqb parsed.state a.pending_state))
    then some (
      invalid_request,
      str
          "state does not match the value generated by buildAuthorizeUrl() (possible CSRF, stale/reused authorize URL, or buildAuthorizeUrl() was not called first)",
    )
    else none

unfoldable pub code_params : ParsedRedirect → Authenticator → Dict Bytes
code_params parsed a = Dict.insert (str "redirect_uri") a.pending_redirect_uri (
    Dict.insert (str "code") parsed.code
      (Dict.insert (str "grant_type") (str "authorization_code") []))

module _ {V : Type 0} (J : JsonLib V) where
  unfoldable pub token_of_json : ℤ → V → OAuth2Token
  token_of_json now json = record {
    access_token = Json.get_text_or J json (str "access_token") [];
    refresh_token = Json.get_text_or J json (str "refresh_token") [];
    token_type = Json.get_text_or J json (str "token_type") [];
    scope = Json.get_text_or J json (str "scope") [];
    installed_app_id = Json.get_text_or J json (str "installed_app_id") [];
    issued_at = now;
    expires_in = Json.get_integer_or J json (str "expires_in") (pos 0);
  }

  unfoldable pub accept_token : OAuth2Token → Result OAuth2Token
  accept_token token =
      if is_empty token.access_token
      then failed api_error (str "Token endpoint response did not contain an access_token")
      else returned token

  -- What `requestToken` makes of the answer.
  unfoldable pub token_response : ℤ → HttpResponse → Result OAuth2Token
  token_response now response =
      if is_ok response
      then elim (Json.parse J response.body) [
        | thrown e ↦ failed unknown_error (str "Token request error: " ++ e)
        | ok json ↦ accept_token (token_of_json now json)
      ]
      else if (response.status_code == 400) || (response.status_code == 401)
      then failed authentication_failed (
          str
            "Token endpoint rejected the request (invalid/expired code, refresh token, or client credentials): "
          ++ response.body)
      else if response.status_code == 429
      then failed rate_limited (str "Rate limit exceeded while requesting a token")
      else if response.status_code == 0
      then failed network_error
          (str "Failed to reach the SmartThings token endpoint: " ++ response.error_message)
      else failed api_error (
          str "Unexpected status "
          ++ to_string response.status_code
          ++ str " from the token endpoint")

  module _ (cpr : Cpr) (now : ℤ) where
    unfoldable pub request_token : Dict Bytes → OAuth2Config → Wire → Result OAuth2Token × Wire
    request_token params config wire =
        let (response, wire') =
          Http.post cpr new_client config.token_url (form_body params []) (token_headers config)
            wire in
        (token_response now response, wire')

    -- The exchange itself; a success drops the pending state.
    unfoldable pub exchange_code :
        ParsedRedirect → Authenticator → Wire → Result OAuth2Token × Authenticator × Wire
    exchange_code parsed a wire =
        let (result, wire') = request_token (code_params parsed a) a.config wire in
        (result, (if is_success result.error then record a { pending_state = [] } else a), wire')

    unfoldable pub complete_authorization :
        Bytes → Authenticator → Wire → Result OAuth2Token × Authenticator × Wire
    complete_authorization redirect_result a wire =
        if lacks_credentials a.config
        then (
          failed invalid_parameter (str "OAuth2Config is missing clientId/clientSecret"),
          a,
          wire,
        )
        else if is_empty redirect_result
        then (failed invalid_parameter (str "redirect_result is empty"), a, wire)
        else elim (refuse_redirect (parse_redirect_result redirect_result) a) [
          | some (code, message) ↦ (failed code message, a, wire)
          | none ↦ exchange_code (parse_redirect_result redirect_result) a wire
        ]

    pub refresh : Bytes → OAuth2Config → Wire → Result OAuth2Token × Wire
    refresh refresh_token config wire =
        if lacks_credentials config
        then (failed invalid_parameter (str "OAuth2Config is missing clientId/clientSecret"), wire)
        else if is_empty refresh_token
        then (failed invalid_parameter (str "refresh_token is empty"), wire)
        else request_token
            (Dict.insert (str "refresh_token") refresh_token
              (Dict.insert (str "grant_type") (str "refresh_token") []))
            config wire
