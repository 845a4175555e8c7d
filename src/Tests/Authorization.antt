-- ===== src/Tests/Authorization.antt =====
-- The authorization code flow.
use smartthings4cpp.Base.{
  ℕ, ◌<◌, Bool, true, false, List, [], ◌∷◌, ◌++◌, Option, none, some, Bytes, str, ◌≡◌, ◌≢◌, refl,
  arith, ok,
}
use smartthings4cpp.Base.Int.{pos}
use smartthings4cpp.Types.{invalid_request}
use smartthings4cpp.Json
use smartthings4cpp.Http.{Cpr, HttpResponse, is_ok, Wire}
use smartthings4cpp.OAuth.Redirect.{ParsedRedirect, parse_redirect_result}
use smartthings4cpp.OAuth.Redirect.Queries.{write_query}
use smartthings4cpp.OAuth.Authenticator.{
  Authenticator, build_authorize_url, complete_authorization, exchange_code, lacks_credentials,
  token_response, token_of_json,
}
use smartthings4cpp.OAuth.Authenticator.Requests.{token_response_sound}
use smartthings4cpp.OAuth.Authenticator.Csrf.{
  authorize_url_for, SendsCode, foreign_state_refused, missing_state_exchanged, state_serves_once,
  own_state_exchanged,
}
use smartthings4cpp.Tests.SampleJson.{Json, sample_json, one_text}
use smartthings4cpp.Tests.Fixtures.{answers, authenticator_with}

abbrev grants : Cpr
grants = answers 200 (one_text (str "access_token") (b't' ∷ []))

abbrev granted : HttpResponse
granted = record {
  status_code = 200;
  body = one_text (str "access_token") (b't' ∷ []);
  headers = [];
  error_message = [];
}

abbrev with_state : Bytes
with_state =
    b'?' ∷ b'c' ∷ b'o' ∷ b'd' ∷ b'e' ∷ b'=' ∷ b'a' ∷ b'&' ∷ b's' ∷ b't' ∷ b'a' ∷ b't' ∷ b'e' ∷ b'='
    ∷ b'b' ∷ []

abbrev without_state : Bytes
without_state = b'?' ∷ b'c' ∷ b'o' ∷ b'd' ∷ b'e' ∷ b'=' ∷ b'a' ∷ []

abbrev started : Authenticator
started = (build_authorize_url (λ k. 0) [] (authenticator_with [])).1

own_state_exchanged_example :
    (state : Bytes) × ((build_authorize_url (λ k. 0) [] (authenticator_with [])).0
      ≡ authorize_url_for (authenticator_with []) [] state)
    × SendsCode sample_json grants (pos 0) (b'a' ∷ []) started [] (
        complete_authorization sample_json grants
          (pos 0)
          ([]
            ++ b'?'
              ∷ (write_query (str "code", b'a' ∷ []) ((str "state", state) ∷ []) ++ b'#' ∷ []))
          started
          [])
unfolding lacks_credentials
own_state_exchanged_example =
    own_state_exchanged sample_json grants (pos 0) (λ k. 0) [] [] [] (b'a' ∷ [])
      (authenticator_with []) [] (λ k. omega arith) refl (ground arith) tt (omega arith, tt)
      (ground arith)

foreign_state_refused_example :
    ((complete_authorization sample_json grants
        (pos 0)
        with_state
        (authenticator_with (b'c' ∷ []))
        []).0.error
      ≡ invalid_request)
    × ((complete_authorization sample_json grants
          (pos 0)
          with_state
          (authenticator_with (b'c' ∷ []))
          []).1
        ≡ authenticator_with (b'c' ∷ []))
    × ((complete_authorization sample_json grants
          (pos 0)
          with_state
          (authenticator_with (b'c' ∷ []))
          []).2
        ≡ [])
unfolding lacks_credentials parse_redirect_result smartthings4cpp.Base.Search.cut
    smartthings4cpp.OAuth.Redirect.read_query smartthings4cpp.OAuth.Redirect.without_fragment
    smartthings4cpp.OAuth.Redirect.read_pair smartthings4cpp.OAuth.Redirect.set_param
    smartthings4cpp.Base.eqb str smartthings4cpp.OAuth.Url.url_decode
    smartthings4cpp.OAuth.Url.plain
foreign_state_refused_example =
    foreign_state_refused sample_json grants (pos 0) with_state (authenticator_with (b'c' ∷ [])) []
      refl (ground arith) refl (ground arith) refl (ground arith)

missing_state_exchanged_example :
    SendsCode sample_json grants
      (pos 0)
      (parse_redirect_result without_state).code
      (authenticator_with (b'c' ∷ []))
      []
      (complete_authorization sample_json grants
        (pos 0)
        without_state
        (authenticator_with (b'c' ∷ []))
        [])
unfolding lacks_credentials parse_redirect_result smartthings4cpp.Base.Search.cut
    smartthings4cpp.OAuth.Redirect.read_query smartthings4cpp.OAuth.Redirect.without_fragment
    smartthings4cpp.OAuth.Redirect.read_pair smartthings4cpp.OAuth.Redirect.set_param
    smartthings4cpp.Base.eqb str smartthings4cpp.OAuth.Url.url_decode
    smartthings4cpp.OAuth.Url.plain
missing_state_exchanged_example =
    missing_state_exchanged sample_json grants (pos 0) without_state
      (authenticator_with (b'c' ∷ [])) [] refl (ground arith) (ground arith) refl (ground arith)
      refl

state_serves_once_example :
    (complete_authorization sample_json grants
      (pos 0)
      with_state
      (complete_authorization sample_json grants
        (pos 0)
        with_state
        (authenticator_with (b'b' ∷ []))
        []).1
      []).2
    ≡ []
unfolding complete_authorization lacks_credentials
    smartthings4cpp.OAuth.Authenticator.refuse_redirect parse_redirect_result
    smartthings4cpp.Base.Search.cut smartthings4cpp.OAuth.Redirect.read_query
    smartthings4cpp.OAuth.Redirect.without_fragment smartthings4cpp.OAuth.Redirect.read_pair
    smartthings4cpp.OAuth.Redirect.set_param smartthings4cpp.Base.eqb str
    smartthings4cpp.OAuth.Url.url_decode smartthings4cpp.OAuth.Url.plain exchange_code
    smartthings4cpp.OAuth.Authenticator.request_token token_response smartthings4cpp.Http.post
    smartthings4cpp.Base.Dict.insert smartthings4cpp.Base.Dict.lookup smartthings4cpp.Base.before
    smartthings4cpp.Base.is_alnum smartthings4cpp.Base.is_digit smartthings4cpp.Base.to_string
    smartthings4cpp.Base64.alphabet_at smartthings4cpp.Base64.encode
    smartthings4cpp.Http.body_headers smartthings4cpp.Http.convert_response
    smartthings4cpp.Http.copy_headers smartthings4cpp.Http.has_content_type
    smartthings4cpp.Http.perform Json.get_integer_or Json.get_text Json.get_text_or Json.member
    Json.parse smartthings4cpp.OAuth.Authenticator.accept_token
    smartthings4cpp.OAuth.Authenticator.code_params smartthings4cpp.OAuth.Authenticator.form_body
    smartthings4cpp.OAuth.Authenticator.token_headers token_of_json
    smartthings4cpp.OAuth.Url.hex_digit smartthings4cpp.OAuth.Url.hex_pair
    smartthings4cpp.OAuth.Url.hex_value smartthings4cpp.OAuth.Url.is_unreserved
    smartthings4cpp.OAuth.Url.url_encode
state_serves_once_example =
    state_serves_once sample_json grants (pos 0) with_state with_state
      (authenticator_with (b'b' ∷ [])) [] [] refl refl

token_response_sound_example :
    (json : Json) × (is_ok granted ≡ true)
    × (Json.parse sample_json granted.body ≡ ok json)
    × ((token_of_json sample_json (pos 0) json).access_token ≢ [])
    × ((token_response sample_json (pos 0) granted).value
        ≡ some (token_of_json sample_json (pos 0) json))
unfolding token_response Json.parse str smartthings4cpp.OAuth.Authenticator.accept_token
    token_of_json Json.get_text_or Json.get_text Json.member smartthings4cpp.Base.Dict.lookup
    smartthings4cpp.Base.eqb
token_response_sound_example = token_response_sound sample_json (pos 0) granted refl
