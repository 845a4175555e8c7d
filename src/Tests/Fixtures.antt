-- ===== src/Tests/Fixtures.antt =====
-- What the witnesses share: servers, a client, an authenticator, a request of a webhook.
use smartthings4cpp.Base.{ℕ, true, false, List, [], ◌∷◌, none, some, Bytes}
use smartthings4cpp.Base.Dict.{Dict}
use smartthings4cpp.Http.{Cpr, Wire}
use smartthings4cpp.Client.{Client, Jobs}
use smartthings4cpp.Storage.{File, System, opened}
use smartthings4cpp.OAuth.Token.{OAuth2Config}
use smartthings4cpp.OAuth.Authenticator.{Authenticator}
use smartthings4cpp.Subscriptions.{Hub}
use smartthings4cpp.Webhook.{WebhookRequest}

-- A server that gives every request one answer.
abbrev pub answers : ℕ → Bytes → Cpr
answers status body =
    λ wire request. record { status_code = status; text = body; header = []; error = none }

abbrev pub disk : System
disk = opened (λ s. (s, true))

abbrev pub no_jobs : Jobs
no_jobs = record { flush = false; announce = false; persist_app_id = none; rejected = [] }

abbrev pub client_of : Bytes → Client File
client_of token = record {
  access_token = token;
  base_url = b'u' ∷ [];
  external_tokens = true;
  rejected_token = [];
  installed_app_id = b'i' ∷ [];
  keychain = some none;
  storage = none;
  jobs = no_jobs;
}

abbrev pub hub_of : Bytes → Hub File
hub_of token = record {
  client = client_of token;
  is_oauth = true;
  installed_app_token = [];
  subscribed = [];
  pending = (b'd' ∷ []) ∷ [];
  in_flight = [];
  unclaimed = [];
  unclaimed_loaded = true;
}

abbrev pub no_calls : Wire → List (Bytes × Bytes)
no_calls = λ wire. []

abbrev pub config : OAuth2Config
config = record {
  client_id = b'c' ∷ [];
  client_secret = b's' ∷ [];
  app_uri = [];
  scopes = [];
  authorize_url = b'a' ∷ [];
  token_url = b't' ∷ [];
}

abbrev pub authenticator_with : Bytes → Authenticator
authenticator_with state = record {
  config = config;
  pending_state = state;
  pending_redirect_uri = [];
}

abbrev pub webhook_request : Bytes → Dict Bytes → WebhookRequest
webhook_request body headers = record {
  method = b'P' ∷ [];
  path = b'/' ∷ [];
  body = body;
  headers = headers;
}
