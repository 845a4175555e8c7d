-- ===== src/OAuth/Token.antt =====
-- include/smartthings4cpp/oauth2/oauth2_types.h. Times are whole seconds.
use smartthings4cpp.Base.{Bool, List, [], Bytes}
use smartthings4cpp.Base.Int.{ℤ, pos, ◌+ℤ◌, ◌-ℤ◌, leb_ℤ}

pub record OAuth2Config : Type 0 where
  pub client_id : Bytes
  pub client_secret : Bytes
  pub app_uri : Bytes
  pub scopes : List Bytes
  pub authorize_url : Bytes
  pub token_url : Bytes

pub record OAuth2Token : Type 0 where
  pub access_token : Bytes
  pub refresh_token : Bytes
  pub token_type : Bytes
  pub scope : Bytes
  pub installed_app_id : Bytes
  pub issued_at : ℤ
  pub expires_in : ℤ

abbrev pub empty_token : OAuth2Token
empty_token = record {
  access_token = [];
  refresh_token = [];
  token_type = [];
  scope = [];
  installed_app_id = [];
  issued_at = pos 0;
  expires_in = pos 0;
}

-- `isExpired(skew)`, with the clock's `now`; the default skew is `pos 60`.
pub is_expired : ℤ → ℤ → OAuth2Token → Bool
is_expired now skew token = leb_ℤ (token.issued_at +ℤ token.expires_in -ℤ skew) now
