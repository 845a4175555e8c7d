-- ===== src/OAuth/Authenticator/Csrf.antt =====
-- `completeAuthorization`: which redirects are exchanged for a token.
use smartthings4cpp.Base.{
  is_alnum, is_digit, before, eqb, append_assoc, append-ne-nil, ℕ, zero, suc, ◌<◌, true, false, [],
  ◌∷◌, ◌++◌, Bytes, ◌≡◌, ◌≢◌, refl, arith, eqb_iff, str, All, IsByte, ◌∙◌,
}
use mathlib.Core.List.{cons-ne-nil}
use smartthings4cpp.Base.Int.{ℤ}
use smartthings4cpp.Base.Search.{Lacks}
use smartthings4cpp.Types.{Result, is_success, invalid_request}
use smartthings4cpp.Json.{JsonLib}
use smartthings4cpp.Http
use smartthings4cpp.Http.{Cpr, Wire, Request, http_post, body_headers, convert_response}
use smartthings4cpp.OAuth.Url.{url_encode, is_unreserved}
use smartthings4cpp.Base.Dict
use smartthings4cpp.OAuth.Token.{OAuth2Token}
use smartthings4cpp.OAuth.Redirect.{ParsedRedirect, parse_redirect_result}
use smartthings4cpp.OAuth.Redirect.Queries.{
  write_query, write_pair, parse-write, code_IsParam, state_IsParam, code_and_state,
}
use smartthings4cpp.OAuth.Authenticator.{
  Authenticator, hex_lower, draw_digits, generate_state, build_authorize_url, lacks_credentials,
  refuse_redirect, exchange_code, complete_authorization, request_token, form_body, code_params,
  token_headers, token_response, join_scopes,
}

-- The authorize URL for a configuration, a redirect URI and a state.
abbrev pub authorize_url_for : Authenticator → Bytes → Bytes → Bytes
authorize_url_for a uri state =
    a.config.authorize_url
    ++ b'?'
      ∷ write_query (str "client_id", a.config.client_id)
          ((str "response_type", str "code")
            ∷ (str "redirect_uri", uri)
            ∷ (str "scope", join_scopes a.config.scopes)
            ∷ (str "state", state)
            ∷ [])

pub build_authorize_url-state :
    (draw : ℕ → ℕ) (uri : Bytes) (a : Authenticator)
    → let built = build_authorize_url draw uri a in
      built.0 ≡ authorize_url_for a uri built.1.pending_state
unfolding build_authorize_url write_query write_pair str url_encode is_unreserved is_alnum is_digit
build_authorize_url-state draw uri a = simp append_assoc

module _ {V : Type 0} (J : JsonLib V) (cpr : Cpr) (now : ℤ) where
  -- Nothing is sent unless the credentials are there, the redirect has a code and no error, and a
  -- state in the redirect is the one that waits.
  pub sends_only_checked :
      (s : Bytes) (a : Authenticator) (wire : Wire)
      → let parsed = parse_redirect_result s in
        (complete_authorization J cpr now s a wire).2 ≢ wire
        → (lacks_credentials a.config ≡ false)
          × (parsed.error ≡ [])
          × (parsed.code ≢ [])
          × (parsed.has_state ≡ true → (parsed.state ≡ a.pending_state) × (a.pending_state ≢ []))
  unfolding complete_authorization refuse_redirect
  sends_only_checked s a wire h =
      ground (arith, eqb_iff (parse_redirect_result s).state a.pending_state)

  -- With credentials in the configuration, a redirect that is not empty, has a code and no error,
  -- and carries a state other than the one that waits is refused as an invalid request; the
  -- authenticator stays as it is and nothing is sent.
  pub foreign_state_refused :
      (s : Bytes) (a : Authenticator) (wire : Wire)
      → let parsed = parse_redirect_result s in
        lacks_credentials a.config ≡ false
        → s ≢ []
        → parsed.error ≡ []
        → parsed.code ≢ []
        → parsed.has_state ≡ true
        → parsed.state ≢ a.pending_state
        → ((complete_authorization J cpr now s a wire).0.error ≡ invalid_request)
          × ((complete_authorization J cpr now s a wire).1 ≡ a)
          × ((complete_authorization J cpr now s a wire).2 ≡ wire)
  unfolding complete_authorization refuse_redirect
  foreign_state_refused s a wire k n e c st d =
      ground (arith, eqb_iff (parse_redirect_result s).state a.pending_state)

  without_state :
      (s : Bytes) (a : Authenticator) (wire : Wire)
      → let parsed = parse_redirect_result s in
        lacks_credentials a.config ≡ false
        → s ≢ []
        → parsed.error ≡ []
        → parsed.code ≢ []
        → parsed.has_state ≡ false
        → complete_authorization J cpr now s a wire ≡ exchange_code J cpr now parsed a wire
  unfolding complete_authorization refuse_redirect
  without_state s a wire k n e c st = ground arith

  -- A code is exchanged: one POST with the code goes to the token endpoint, and the outcome is what the
  -- library makes of the answer to it.
  abbrev pub SendsCode :
      Bytes → Authenticator → Wire → Result OAuth2Token × Authenticator × Wire → Type 0
  SendsCode code a wire outcome =
      (request : Request) × (outcome.2 ≡ request ∷ wire)
      × (request.method ≡ http_post)
      × (request.url ≡ a.config.token_url)
      × (request.body
          ≡ write_query (str "code", code)
              ((str "grant_type", str "authorization_code")
                ∷ (str "redirect_uri", a.pending_redirect_uri)
                ∷ []))
      × (outcome.0 ≡ token_response J now (convert_response (cpr wire request)))

  exchange_code-SendsCode :
      (parsed : ParsedRedirect) (a : Authenticator) (wire : Wire)
      → a.config.token_url ≢ []
      → SendsCode parsed.code a wire (exchange_code J cpr now parsed a wire)
  unfolding exchange_code request_token Http.post Http.perform code_params form_body Dict.insert
      Dict.lookup eqb before str write_query write_pair url_encode is_unreserved is_alnum is_digit
  exchange_code-SendsCode parsed a wire there = (
    record {
      method = http_post;
      url = a.config.token_url;
      body = form_body (code_params parsed a) [];
      headers = body_headers (token_headers a.config);
      timeout = 10000;
      verify_ssl = true;
    },
    ground arith,
    refl,
    refl,
    simp append_assoc,
    ground arith,
  )

  -- With credentials and a token endpoint in the configuration, a redirect that is not empty, has a code and
  -- no error, and carries no state is exchanged for a token, whatever state waits: one POST with the
  -- code goes to the token endpoint, and the outcome is what its answer gives.
  pub missing_state_exchanged :
      (s : Bytes) (a : Authenticator) (wire : Wire)
      → let parsed = parse_redirect_result s in
        lacks_credentials a.config ≡ false
        → a.config.token_url ≢ []
        → s ≢ []
        → parsed.error ≡ []
        → parsed.code ≢ []
        → parsed.has_state ≡ false
        → SendsCode parsed.code a wire (complete_authorization J cpr now s a wire)
  missing_state_exchanged s a wire k there n e c st =
      rw (without_state s a wire k n e c st)
        (exchange_code-SendsCode (parse_redirect_result s) a wire there)

  success_clears_state :
      (s : Bytes) (a : Authenticator) (wire : Wire)
      → is_success (complete_authorization J cpr now s a wire).0.error ≡ true
      → (complete_authorization J cpr now s a wire).1.pending_state ≡ []
  unfolding complete_authorization refuse_redirect exchange_code request_token
  success_clears_state s a wire h = ground arith

  no_pending_state :
      (s : Bytes) (a : Authenticator) (wire : Wire)
      → a.pending_state ≡ []
      → (parse_redirect_result s).has_state ≡ true
      → (complete_authorization J cpr now s a wire).2 ≡ wire
  unfolding complete_authorization refuse_redirect
  no_pending_state s a wire e h = ground arith

  -- A state serves once: after a redirect that brought a token, completing any redirect that
  -- carries a state sends no request.
  pub state_serves_once :
      (s again : Bytes) (a : Authenticator) (wire later : Wire)
      → is_success (complete_authorization J cpr now s a wire).0.error ≡ true
      → (parse_redirect_result again).has_state ≡ true
      → (complete_authorization J cpr now again
          (complete_authorization J cpr now s a wire).1
          later).2
        ≡ later
  state_serves_once s again a wire later h st =
      no_pending_state again _ later (success_clears_state s a wire h) st

  hex_lower-IsByte : (n : ℕ) → n < 16 → IsByte (hex_lower n)
  unfolding hex_lower
  hex_lower-IsByte n h = ground arith

  draw_digits_bytes :
      (draw : ℕ → ℕ) (i count : ℕ) → ((k : ℕ) → draw k < 16) → All IsByte (draw_digits draw i count)
  unfolding draw_digits
  draw_digits_bytes draw i zero h = tt
  draw_digits_bytes draw i (suc count) h =
      (hex_lower-IsByte (draw i) (h i), draw_digits_bytes draw (suc i) count h)

  matching_state_exchanged :
      (s : Bytes) (parsed : ParsedRedirect) (a : Authenticator) (wire : Wire)
      → parse_redirect_result s ≡ parsed
      → lacks_credentials a.config ≡ false
      → s ≢ []
      → parsed.error ≡ []
      → parsed.code ≢ []
      → parsed.state ≡ a.pending_state
      → a.pending_state ≢ []
      → complete_authorization J cpr now s a wire ≡ exchange_code J cpr now parsed a wire
  unfolding complete_authorization refuse_redirect
  matching_state_exchanged s parsed a wire p k n e c st w =
      ground (arith, eqb_iff parsed.state a.pending_state)

  generate_state-ne-nil : (draw : ℕ → ℕ) → generate_state draw ≢ []
  unfolding generate_state draw_digits
  generate_state-ne-nil draw = cons-ne-nil _ _

  -- With credentials and a token endpoint in the configuration, the redirect of an authorization server that
  -- grants a code of one byte or more and gives back the state in the last authorize URL,
  -- both percent-encoded, is exchanged for a token, whatever base without a question mark and whatever
  -- fragment stand around the query: one POST with the code goes to the token endpoint, and the outcome is
  -- what its answer gives. The random digits are below 16.
  pub own_state_exchanged :
      (draw : ℕ → ℕ) (uri base fragment code : Bytes) (a : Authenticator) (wire : Wire)
      → ((k : ℕ) → draw k < 16)
      → lacks_credentials a.config ≡ false
      → a.config.token_url ≢ []
      → Lacks b'?' base
      → All IsByte code
      → code ≢ []
      → let (url, b) = build_authorize_url draw uri a in
        (state : Bytes) × (url ≡ authorize_url_for a uri state)
        × SendsCode code b wire (
            complete_authorization J cpr now
              (base
                ++ b'?'
                  ∷ (write_query (str "code", code) ((str "state", state) ∷ []) ++ b'#' ∷ fragment))
              b
              wire)
  unfolding build_authorize_url generate_state
  own_state_exchanged draw uri base fragment code a wire h k there q bytes n =
      let st : Bytes = generate_state draw in
      let b = (build_authorize_url draw uri a).1 in
      (
        st,
        build_authorize_url-state draw uri a,
        rw
            (matching_state_exchanged _
              (record { code = code; state = st; error = []; has_state = true }) b wire
              (parse-write base fragment (str "code", code) ((str "state", st) ∷ []) q
                  (code_IsParam code bytes) (state_IsParam st (draw_digits_bytes draw 0 32 h), tt)
                ∙ code_and_state code st)
              k (append-ne-nil base _ (cons-ne-nil _ _)) refl n refl (generate_state-ne-nil draw))
            (exchange_code-SendsCode
              (record { code = code; state = st; error = []; has_state = true }) b wire there),
      )
