-- ===== src/OAuth.antt =====
-- src/oauth2/oauth2_authenticator.cpp: the parts of the OAuth client.
pub mod Url
pub mod Redirect
pub mod Token
pub mod Authenticator
