-- ===== src/OAuth/Authenticator/Requests.antt =====
-- What `requestToken` sends, and what it makes of the answer.
use smartthings4cpp.Base.{
  true, false, ◌||◌, [], ◌∷◌, some, Bytes, ◌≡◌, ◌≢◌, ok, arith, ◌==◌, if◌then◌else◌,
}
use smartthings4cpp.Base.Dict.{Dict}
use smartthings4cpp.Base.Int.{ℤ}
use smartthings4cpp.Types.{
  returned, is_success, authentication_failed, rate_limited, network_error, api_error,
}
use smartthings4cpp.Json
use smartthings4cpp.Json.{JsonLib}
use smartthings4cpp.Http.{Cpr, Wire, HttpResponse, is_ok, http_post, post, perform, body_headers}
use smartthings4cpp.OAuth.Token.{OAuth2Config}
use smartthings4cpp.OAuth.Authenticator.{
  form_body, token_headers, token_of_json, accept_token, token_response, request_token,
}

module _ {V : Type 0} (J : JsonLib V) where
  -- An answer of the token endpoint that is taken as a success has a 2xx status and a body that
  -- parses to JSON with a non-empty access token, and the result holds the token that this JSON
  -- describes.
  pub token_response_sound :
      (now : ℤ) (r : HttpResponse)
      → is_success (token_response J now r).error ≡ true
      → (json : V) × (is_ok r ≡ true)
        × (Json.parse J r.body ≡ ok json)
        × ((token_of_json J now json).access_token ≢ [])
        × ((token_response J now r).value ≡ some (token_of_json J now json))
  unfolding token_response accept_token
  token_response_sound now r h = ground arith

  -- The converse: such an answer is a success with that token.
  pub token_response_complete :
      (now : ℤ) (r : HttpResponse) (json : V)
      → is_ok r ≡ true
      → Json.parse J r.body ≡ ok json
      → (token_of_json J now json).access_token ≢ []
      → token_response J now r ≡ returned (token_of_json J now json)
  unfolding token_response accept_token
  token_response_complete now r json h p e = ground arith

  -- Each way in which the endpoint can fail has its error code.
  pub token_response_error :
      (now : ℤ) (r : HttpResponse)
      → is_ok r ≡ false
      → (token_response J now r).error ≡ (
          if (r.status_code == 400) || (r.status_code == 401)
          then authentication_failed
          else if r.status_code == 429
          then rate_limited
          else if r.status_code == 0
          then network_error
          else api_error)
  unfolding token_response
  token_response_error now r h = ground arith

  -- One POST goes to the token URL, with the form of the parameters.
  pub request_token_sends :
      (cpr : Cpr) (now : ℤ) (params : Dict Bytes) (config : OAuth2Config) (wire : Wire)
      → config.token_url ≢ []
      → (request_token J cpr now params config wire).1
        ≡ record {
          method = http_post;
          url = config.token_url;
          body = form_body params [];
          headers = body_headers (token_headers config);
          timeout = 10000;
          verify_ssl = true;
        }
          ∷ wire
  unfolding request_token post perform
  request_token_sends cpr now params config wire h = ground arith
