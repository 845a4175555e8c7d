-- ===== src/Client/Tokens/Persisted.antt =====
-- A token that was persisted is loaded again.
use smartthings4cpp.Base.{
  true, false, [], ◌∷◌, some, Bytes, str, eqb, ◌≡◌, refl, ap, ◌∙◌, is_empty, ok, ◌&&◌,
  if◌then◌else◌, value_or, arith, Option-cases, inl, inr,
}
use smartthings4cpp.Base.Dict
use smartthings4cpp.Base.Int.{ℤ, pos}
use smartthings4cpp.Json
use smartthings4cpp.Json.{JsonLib, IsLawful}
use smartthings4cpp.OAuth.Token.{OAuth2Token, empty_token}
use smartthings4cpp.Storage.Provider.{StorageProvider, IsFaithful}
use smartthings4cpp.Client.{Client}
use smartthings4cpp.Client.Tokens.{
  fill_from, blob_members, token_blob, token_of_blob, token_of_text, load_from,
  load_persisted_oauth_token, merged_token, persist_oauth_token,
}

is_empty-nil : (s : Bytes) → is_empty s ≡ true → s ≡ []
is_empty-nil [] h = refl
is_empty-nil (b ∷ s) h = absurd (ground (arith, h))

module _ {V : Type 0} (J : JsonLib V) (lawful : IsLawful J) where
  -- The type of a token is not written.
  token_blob-type :
      (token : OAuth2Token)
      → J.dump (token_blob J token) ≡ J.dump (token_blob J (record token { token_type = [] }))
  unfolding token_blob blob_members
  token_blob-type token = refl

  member-token_blob :
      (token : OAuth2Token) (key : Bytes)
      → Json.member J (token_blob J token) key ≡ Dict.lookup key (blob_members J token)
  unfolding Json.member token_blob blob_members
  member-token_blob token key =
      rw (lawful.members-object (blob_members J token), Json.member, token_blob) refl

  get_text-token_blob :
      (token : OAuth2Token) (key value : Bytes)
      → Dict.lookup key (blob_members J token) ≡ some (J.text value)
      → Json.get_text_or J (token_blob J token) key [] ≡ value
  unfolding Json.get_text_or Json.get_text
  get_text-token_blob token key value found =
      rw (member-token_blob token key) (rw (found) (rw (lawful.text_of-text value) refl))

  get_integer-token_blob :
      (token : OAuth2Token) (key : Bytes) (value : ℤ)
      → Dict.lookup key (blob_members J token) ≡ some (J.integer value)
      → Json.get_integer_or J (token_blob J token) key (pos 0) ≡ value
  unfolding Json.get_integer_or
  get_integer-token_blob token key value found =
      rw (member-token_blob token key) (rw (found) (rw (lawful.integer_of-integer value) refl))

  -- A blob is read as the token it was made of, but for the token type, which it does not hold.
  token_of_blob-token_blob :
      (token : OAuth2Token)
      → token_of_blob J (token_blob J token) ≡ record token { token_type = [] }
  unfolding token_of_blob blob_members Dict.lookup eqb str
  token_of_blob-token_blob token =
      rw
        (
          get_text-token_blob token (str "accessToken") token.access_token refl,
          get_text-token_blob token (str "refreshToken") token.refresh_token refl,
          get_text-token_blob token (str "scope") token.scope refl,
          get_text-token_blob token (str "installedAppId") token.installed_app_id refl,
          get_integer-token_blob token (str "issuedAtEpochSeconds") token.issued_at refl,
          get_integer-token_blob token (str "expiresInSeconds") token.expires_in refl,
        )
        refl

  parse_dumped : (v : V) (s : Bytes) → J.dump v ≡ ok s → Json.parse J s ≡ ok v
  unfolding Json.parse
  parse_dumped v s h = rw (lawful.parse-dump v s h, Json.parse)

  token_of_text-blob :
      (token : OAuth2Token) (s : Bytes)
      → J.dump (token_blob J token) ≡ ok s
      → (is_empty token.access_token && is_empty token.refresh_token) ≡ false
      → token_of_text J s ≡ some (record token { token_type = [] })
  unfolding token_of_text
  token_of_text-blob token s dumped some_token =
      rw (parse_dumped (token_blob J token) s dumped, token_of_text)
        (rw (token_of_blob-token_blob token) (rw (some_token) refl))

  module _ {S : Type 0} (P : StorageProvider S) (faithful : IsFaithful P) where
    -- What is kept of a token, with what was stored before it: the refresh token and the id of the installed
    -- app of before where the new token has none, all else of the new token, and no type.
    abbrev pub kept : OAuth2Token → OAuth2Token → OAuth2Token
    kept token before = record {
      access_token = token.access_token;
      refresh_token =
          if is_empty token.refresh_token then before.refresh_token else token.refresh_token;
      token_type = [];
      scope = token.scope;
      installed_app_id =
          if is_empty token.installed_app_id
          then before.installed_app_id
          else token.installed_app_id;
      issued_at = token.issued_at;
      expires_in = token.expires_in;
    }

    -- The token that was stored before, all empty where there is none.
    abbrev pub before_in : Client S → OAuth2Token
    before_in c = value_or (load_persisted_oauth_token J P c) empty_token

    merged_token-kept :
        (token : OAuth2Token) (c : Client S) (keychain : S)
        → c.keychain ≡ some keychain
        → record (merged_token J P token keychain) { token_type = [] } ≡ kept token (before_in c)
    unfolding merged_token load_persisted_oauth_token fill_from
    merged_token-kept token c keychain has = elim (Option-cases (load_from J P keychain)) [
      | inl n ↦
          ground
            (arith, has, n, is_empty-nil token.refresh_token, is_empty-nil token.installed_app_id)
      | inr (previous, e) ↦ ground (arith, has, e)
    ]

    -- A token that is persisted, where its text can be made and the keychain reports the write as
    -- done, is what is loaded next, if it then has an access or a refresh token: the refresh token and the id of the
    -- installed app that it omits come from the token stored before, and its type is not kept. The
    -- JSON library is lawful and the keychain returns what it reports as stored.
    pub load-persist :
        (token : OAuth2Token) (c : Client S) (keychain : S) (s : Bytes)
        → c.keychain ≡ some keychain
        → J.dump (token_blob J (kept token (before_in c))) ≡ ok s
        → (P.set_value (str "oauth.token") s keychain).0 ≡ true
        → (is_empty token.access_token && is_empty (kept token (before_in c)).refresh_token) ≡ false
        → (c' : Client S) × (persist_oauth_token J P token c ≡ ok c')
          × (load_persisted_oauth_token J P c' ≡ some (kept token (before_in c)))
    unfolding persist_oauth_token load_persisted_oauth_token load_from
    load-persist token c keychain s has dumped stored given =
        let same = merged_token-kept token c keychain has in
        let merged : OAuth2Token = merged_token J P token keychain in
        let written : J.dump (token_blob J merged) ≡ ok s =
          token_blob-type merged ∙ ap (λ t. J.dump (token_blob J t)) same ∙ dumped in
        (
          record c { keychain = some (P.set_value (str "oauth.token") s keychain).1 },
          rw (has, written, persist_oauth_token) refl,
          rw (faithful.get-set (str "oauth.token") s keychain stored) (
              token_of_text-blob merged s written
                (ap (λ t. is_empty t.access_token && is_empty t.refresh_token) same ∙ given)
              ∙ ap some same),
        )
