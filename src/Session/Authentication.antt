-- ===== src/Session/Authentication.antt =====
-- `authenticate`, `waitForAuthentication`, `onOAuthRedirect` and the refresh callback of the OAuth mode, all
-- of src/client.cpp. The clock, the random digits and the JSON and HTTP libraries are parameters.
pub mod Outcomes
use smartthings4cpp.Base.{
  ℕ, Bool, true, false, not, ◌&&◌, ◌||◌, List, [], ◌∷◌, Option, none, some, Bytes, str,
  if◌then◌else◌, is_empty, Try, ok, thrown,
}
use smartthings4cpp.Base.Int.{ℤ, pos}
use smartthings4cpp.Types.{
  ErrorCode, Result, Outcome, returned, failed, result_of, done, not_done, is_success,
  invalid_request, authentication_required, authentication_failed, network_error, rate_limited,
  timeout_error, unknown_error,
}
use smartthings4cpp.Json.{JsonLib}
use smartthings4cpp.Http.{Cpr, Wire}
use smartthings4cpp.Storage.Provider.{StorageProvider}
use smartthings4cpp.OAuth.Token.{OAuth2Config, OAuth2Token, empty_token, is_expired}
use smartthings4cpp.OAuth.Authenticator.{
  Authenticator, build_authorize_url, complete_authorization, refresh,
}
use smartthings4cpp.Client.{Client, is_authenticated, adopt_installed_app_id}
use smartthings4cpp.Client.Sending.{Callback, Meanwhile}
use smartthings4cpp.Client.Api.{validate_authentication}
use smartthings4cpp.Client.Tokens.{
  persist_oauth_token, load_persisted_oauth_token, apply_oauth_token,
}
use smartthings4cpp.Subscriptions.{Hub}
use smartthings4cpp.Subscriptions.Automatic.{flush_pending_subscriptions}
use smartthings4cpp.Session.Worker.{
  Worker, open_browser_requested, with_client, complete_authentication,
}

-- `redirect_uri` is what the server answers as its callback's address.
pub record Login (S : Type 0) : Type 0 where
  pub worker : Worker S
  pub authenticator : Authenticator
  pub server_start : Outcome
  pub redirect_uri : Bytes

abbrev pub client_of : {S : Type 0} → Login S → Client S
client_of l = l.worker.hub.client

abbrev pub put_client : {S : Type 0} → Client S → Login S → Login S
put_client c l = record l { worker = with_client c l.worker }

abbrev pub put_hub : {S : Type 0} → Hub S → Login S → Login S
put_hub h l = record l { worker = record l.worker { hub = h } }

abbrev pub complete : {S : Type 0} → Outcome → Login S → Login S
complete outcome l = record l { worker = complete_authentication outcome l.worker }

pub is_rejection : ErrorCode → Bool
is_rejection authentication_failed = true
is_rejection _ = false

-- A consent cannot mend these.
pub is_transient : ErrorCode → Bool
is_transient network_error = true
is_transient rate_limited = true
is_transient _ = false

-- `waitForAuthentication`, when the wait ends; an outcome that came in time has finished it.
pub wait_for_authentication : {S : Type 0} → Login S → Outcome
wait_for_authentication l =
    if not l.worker.hub.is_oauth
    then not_done invalid_request (str "waitForAuthentication() requires an OAuth-mode Client")
    else if (client_of l).external_tokens
    then (if is_authenticated (client_of l)
        then done
        else not_done authentication_required
            (str "No access token: supply one with setAccessToken()"))
    else if l.worker.auth_finished
    then l.worker.auth_outcome
    else not_done timeout_error (str "Authentication did not complete within the allotted time")

module _ {V : Type 0} (J : JsonLib V) {S : Type 0} (P : StorageProvider S) (cpr : Cpr)
    (now : ℤ) where
  -- `_token_refresh_callback` of the OAuth mode. A token that came as JSON can be written as JSON, so that the
  -- exception of `persistOAuthToken` is out of reach here.
  pub recover_token : OAuth2Config → Callback S
  recover_token config c wire = elim (load_persisted_oauth_token J P c) [
    | none ↦
        (failed authentication_required (str "No stored refresh token to recover with"), c, wire)
    | some stored ↦
        if is_empty stored.refresh_token
        then (
          failed authentication_required (str "No stored refresh token to recover with"),
          c,
          wire,
        )
        else (let (refreshed, wire') = refresh J cpr now stored.refresh_token config wire in
            elim (result_of refreshed) [
              | none ↦ (failed refreshed.error refreshed.error_message, c, wire')
              | some token ↦ elim (persist_oauth_token J P token c) [
                | thrown what ↦ (failed unknown_error what, c, wire')
                | ok c' ↦ (returned token.access_token, c', wire')
              ]
            ])
  ]

  module _ (stopping : Wire → Bool) where
    -- `applyOAuthToken`; an exception comes before anything is changed.
    pub apply_token : OAuth2Token → Login S → Wire → Try {0} Unit × Login S × Wire
    apply_token token l wire = elim (apply_oauth_token J P token (client_of l)) [
      | thrown what ↦ (thrown what, l, wire)
      | ok c ↦
          let (h, wire') =
            flush_pending_subscriptions J cpr stopping (record l.worker.hub { client = c }) wire in
          (ok tt, put_hub h l, wire')
    ]

    -- A token applied and announced.
    pub sign_in : OAuth2Token → Login S → Wire → Try {0} Unit × Login S × Wire
    sign_in token l wire =
        let (applied, l', wire') = apply_token token l wire in
        elim applied [
          | thrown what ↦ (thrown what, l', wire')
          | ok _ ↦ (ok tt, complete done l', wire')
        ]

    pub on_oauth_redirect : Bytes → Login S → Wire → Try {0} Unit × Login S × Wire
    on_oauth_redirect args l wire =
        let (exchanged, a, wire') = complete_authorization J cpr now args l.authenticator wire in
        let kept : Login S = record l { authenticator = a } in
        elim (result_of exchanged) [
          | some token ↦ sign_in token kept wire'
          | none ↦ (ok tt, complete (not_done exchanged.error exchanged.error_message) kept, wire')
        ]

    module _ (meanwhile : Meanwhile) (draw : ℕ → ℕ) where
      -- Step 3: the application is asked to open the consent page.
      pub ask_consent : Login S → Login S
      ask_consent l =
          let (url, a) = build_authorize_url draw l.redirect_uri l.authenticator in
          record l {
            worker = record l.worker {
              auth_finished = false;
              notices = open_browser_requested url ∷ l.worker.notices;
            };
            authenticator = a;
          }

      abbrev pub consent : Login S → Wire → Try (Result Bool) × Login S × Wire
      consent l wire = (ok (returned false), ask_consent l, wire)

      abbrev pub signed_in : Try {0} Unit × Login S × Wire → Try (Result Bool) × Login S × Wire
      signed_in (thrown what, l, wire) = (thrown what, l, wire)
      signed_in (ok _, l, wire) = (ok (returned true), l, wire)

      -- Step 2, the refresh token.
      pub try_refresh : OAuth2Token → Login S → Wire → Try (Result Bool) × Login S × Wire
      try_refresh stored l wire =
          if is_empty stored.refresh_token
          then consent l wire
          else (let (refreshed, wire') =
                refresh J cpr now stored.refresh_token l.authenticator.config wire in
              elim (result_of refreshed) [
                | some token ↦ signed_in (sign_in token l wire')
                | none ↦
                    if is_transient refreshed.error
                    then (ok (failed refreshed.error refreshed.error_message), l, wire')
                    else consent l wire'
              ])

      -- Step 1, the access token that has not expired. One that is refused is dropped, and with it step 2.
      pub try_stored : OAuth2Token → Login S → Wire → Try (Result Bool) × Login S × Wire
      try_stored stored l wire =
          let (outcome, c, wire') =
            validate_authentication J P meanwhile (some (recover_token l.authenticator.config)) cpr
              (record (client_of l) { access_token = stored.access_token }) wire in
          if is_success outcome.error
          then (let (h, wire'') =
                flush_pending_subscriptions J cpr stopping
                  (record l.worker.hub {
                    client = adopt_installed_app_id P stored.installed_app_id c;
                  })
                  wire' in
              (ok (returned true), complete done (put_hub h l), wire''))
          else (let out : Login S = put_client (record c { access_token = [] }) l in
              if is_rejection outcome.error
              then (let (applied, l', wire'') = apply_token empty_token out wire' in
                  elim applied [
                    | thrown what ↦ (thrown what, l', wire'')
                    | ok _ ↦ consent l' wire''
                  ])
              else (
                ok (record {
                  value = some false;
                  error = outcome.error;
                  error_message = outcome.error_message;
                }),
                out,
                wire',
              ))

      unfoldable pub authenticate : Login S → Wire → Try (Result Bool) × Login S × Wire
      authenticate l wire =
          if not l.worker.hub.is_oauth
          then (
            ok (
                failed invalid_request (
                  str "authenticate() requires an OAuth-mode Client (see the OAuth constructors)")),
            l,
            wire,
          )
          else if not (is_success l.server_start.error)
          then (ok (failed l.server_start.error l.server_start.error_message), l, wire)
          else if (client_of l).external_tokens
          then (ok (returned (is_authenticated (client_of l))), l, wire)
          else elim (load_persisted_oauth_token J P (client_of l)) [
            | none ↦ consent l wire
            | some stored ↦
                if not (is_empty stored.access_token) && not (is_expired now (pos 60) stored)
                then try_stored stored l wire
                else try_refresh stored l wire
          ]
