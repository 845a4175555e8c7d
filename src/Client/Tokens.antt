-- ===== src/Client/Tokens.antt =====
-- `persistOAuthToken`, `loadPersistedOAuthToken` and the token part of `applyOAuthToken` of
-- src/client.cpp: the token in the keychain.
pub mod Persisted
use smartthings4cpp.Base.{
  Bool, true, false, ◌&&◌, ◌||◌, List, [], ◌∷◌, Option, none, some, Bytes, str, if◌then◌else◌,
  is_empty, bind?, Try, ok, thrown,
}
use smartthings4cpp.Base.Dict.{Dict}
use smartthings4cpp.Base.Int.{pos}
use smartthings4cpp.Json
use smartthings4cpp.Json.{JsonLib}
use smartthings4cpp.OAuth.Token.{OAuth2Token}
use smartthings4cpp.Storage.Provider.{StorageProvider}
use smartthings4cpp.Client.{Client, adopt_installed_app_id}

-- What a token omits is taken from the one before.
pub fill_from : OAuth2Token → OAuth2Token → OAuth2Token
fill_from token previous = record token {
  refresh_token =
      if is_empty token.refresh_token then previous.refresh_token else token.refresh_token;
  installed_app_id =
      if is_empty token.installed_app_id then previous.installed_app_id else token.installed_app_id;
}

module _ {V : Type 0} (J : JsonLib V) where
  -- The members stand in the order of their keys, as an object of the JSON library keeps them.
  unfoldable pub blob_members : OAuth2Token → Dict V
  blob_members token =
      (str "accessToken", J.text token.access_token)
      ∷ (str "expiresInSeconds", J.integer token.expires_in)
      ∷ (str "installedAppId", J.text token.installed_app_id)
      ∷ (str "issuedAtEpochSeconds", J.integer token.issued_at)
      ∷ (str "refreshToken", J.text token.refresh_token)
      ∷ (str "scope", J.text token.scope)
      ∷ []

  unfoldable pub token_blob : OAuth2Token → V
  token_blob token = J.object (blob_members token)

  unfoldable pub token_of_blob : V → OAuth2Token
  token_of_blob blob = record {
    access_token = Json.get_text_or J blob (str "accessToken") [];
    refresh_token = Json.get_text_or J blob (str "refreshToken") [];
    token_type = [];
    scope = Json.get_text_or J blob (str "scope") [];
    installed_app_id = Json.get_text_or J blob (str "installedAppId") [];
    issued_at = Json.get_integer_or J blob (str "issuedAtEpochSeconds") (pos 0);
    expires_in = Json.get_integer_or J blob (str "expiresInSeconds") (pos 0);
  }

  -- The token that a stored text holds.
  unfoldable pub token_of_text : Bytes → Option OAuth2Token
  token_of_text raw = elim (Json.parse J raw) [
    | thrown _ ↦ none
    | ok blob ↦
        let token : OAuth2Token = token_of_blob blob in
        if is_empty token.access_token && is_empty token.refresh_token then none else some token
  ]

  module _ {S : Type 0} (P : StorageProvider S) where
    unfoldable pub load_from : S → Option OAuth2Token
    load_from keychain = bind? (P.get_value (str "oauth.token") keychain) token_of_text

    unfoldable pub load_persisted_oauth_token : Client S → Option OAuth2Token
    load_persisted_oauth_token c = bind? c.keychain load_from

    -- `merged`: the stored token is read only where the new one omits something.
    unfoldable pub merged_token : OAuth2Token → S → OAuth2Token
    merged_token token keychain =
        if is_empty token.refresh_token || is_empty token.installed_app_id
        then elim (load_from keychain) [ none ↦ token | some previous ↦ fill_from token previous ]
        else token

    -- The exception of `dump` is the caller's.
    pub persist_oauth_token : OAuth2Token → Client S → Try (Client S)
    persist_oauth_token token c = elim c.keychain [
      | none ↦ ok c
      | some keychain ↦ elim (J.dump (token_blob (merged_token token keychain))) [
        | thrown e ↦ thrown e
        | ok s ↦ ok (record c { keychain = some (P.set_value (str "oauth.token") s keychain).1 })
      ]
    ]

    -- `applyOAuthToken` up to the flush of the pending subscriptions.
    pub apply_oauth_token : OAuth2Token → Client S → Try (Client S)
    apply_oauth_token token c = elim (persist_oauth_token token c) [
      | thrown e ↦ thrown e
      | ok c' ↦ ok (
          adopt_installed_app_id P token.installed_app_id
            (record c' { access_token = token.access_token }))
    ]
