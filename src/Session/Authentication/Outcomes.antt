-- ===== src/Session/Authentication/Outcomes.antt =====
-- How `authenticate` ends.
use smartthings4cpp.Base.{
  ap, ℕ, Bool, true, false, not, ◌&&◌, [], ◌∷◌, some, ◌≡◌, ◌⊎◌, inl, inr, refl, arith, is_empty,
  Bool-cases, Option-cases, Try-cases, ok,
}
use smartthings4cpp.Base.Int.{ℤ, pos}
use smartthings4cpp.Types.{ErrorCode, Result, returned, result_of, done, is_success}
use smartthings4cpp.Json.{JsonLib}
use smartthings4cpp.Http.{Cpr, Wire}
use smartthings4cpp.Storage.Provider.{StorageProvider}
use smartthings4cpp.OAuth.Token.{OAuth2Token, empty_token, is_expired}
use smartthings4cpp.OAuth.Authenticator.{build_authorize_url, generate_state, refresh}
use smartthings4cpp.OAuth.Authenticator.Csrf.{authorize_url_for, build_authorize_url-state}
use smartthings4cpp.Client.Sending.{Meanwhile}
use smartthings4cpp.Client.Api.{validate_authentication}
use smartthings4cpp.Client.Tokens.{apply_oauth_token, load_persisted_oauth_token}
use smartthings4cpp.Session.Worker.{
  authentication_completed, open_browser_requested, complete_authentication,
}
use smartthings4cpp.Session.Authentication.{
  Login, client_of, put_client, is_rejection, is_transient, recover_token, apply_token, sign_in,
  signed_in, ask_consent, try_refresh, try_stored, authenticate,
}

is_transient-failed : (e : ErrorCode) → is_transient e ≡ true → is_success e ≡ false
unfolding is_transient
is_transient-failed e h = ground (arith, h)

module _ {V : Type 0} (J : JsonLib V) {S : Type 0} (P : StorageProvider S) (cpr : Cpr) (now : ℤ)
    (stopping : Wire → Bool) (meanwhile : Meanwhile) (draw : ℕ → ℕ) where
  -- The client is signed in and has said so; or the application was asked to open the consent page, in whose
  -- URL the state is the one that the authenticator waits for; or the call failed and no handler was called.
  abbrev pub Ended : Login S → Result Bool → Login S → Type 0
  Ended l r l' =
      ((r ≡ returned true)
        × (l'.worker.auth_finished ≡ true)
        × (l'.worker.auth_outcome ≡ done)
        × (l'.worker.notices ≡ authentication_completed done ∷ l.worker.notices))
      ⊎ ((r ≡ returned false)
          × (l'.worker.auth_finished ≡ false)
          × (l'.authenticator.pending_state ≡ generate_state draw)
          × (l'.worker.notices
              ≡ open_browser_requested
                  (authorize_url_for l.authenticator l.redirect_uri l'.authenticator.pending_state)
                ∷ l.worker.notices))
      ⊎ ((is_success r.error ≡ false) × (l'.worker.notices ≡ l.worker.notices))

  ask_consent-notices :
      (m : Login S)
      → (ask_consent J P cpr now stopping meanwhile draw m).worker.notices
        ≡ open_browser_requested (
            authorize_url_for m.authenticator m.redirect_uri
              (ask_consent J P cpr now stopping meanwhile draw m).authenticator.pending_state)
          ∷ m.worker.notices
  unfolding ask_consent
  ask_consent-notices m =
      ap (λ url. open_browser_requested url ∷ m.worker.notices)
        (build_authorize_url-state draw m.redirect_uri m.authenticator)

  consent-Ended :
      (l l' m : Login S) (r : Result Bool)
      → m.worker.notices ≡ l.worker.notices
      → m.redirect_uri ≡ l.redirect_uri
      → m.authenticator ≡ l.authenticator
      → r ≡ returned false
      → l' ≡ ask_consent J P cpr now stopping meanwhile draw m
      → Ended l r l'
  unfolding ask_consent build_authorize_url
  consent-Ended l l' m r notices uri same answer asked = inr (
      inl (
        answer,
        ground (arith, asked),
        ground (arith, asked),
        rw (asked, ← same, ← uri, ← notices) (ask_consent-notices m),
      ))

  sign_in-Ended :
      (token : OAuth2Token) (l l' : Login S) (r : Result Bool) (wire wire' : Wire)
      → signed_in J P cpr now stopping meanwhile draw (sign_in J P cpr now stopping token l wire)
        ≡ (ok r, l', wire')
      → Ended l r l'
  unfolding sign_in apply_token complete_authentication
  sign_in-Ended token l l' r wire wire' h =
      elim (Try-cases (apply_oauth_token J P token (client_of l))) [
        | inr (what, e) ↦ absurd (ground (arith, e, h))
        | inl (c, e) ↦
            inl (
              ground (arith, e, h),
              ground (arith, e, h),
              ground (arith, e, h),
              ground (arith, e, h),
            )
      ]

  try_refresh-Ended :
      (stored : OAuth2Token) (l l' : Login S) (r : Result Bool) (wire wire' : Wire)
      → try_refresh J P cpr now stopping meanwhile draw stored l wire ≡ (ok r, l', wire')
      → Ended l r l'
  unfolding try_refresh
  try_refresh-Ended stored l l' r wire wire' h = elim (Bool-cases (is_empty stored.refresh_token)) [
    | inl e ↦ consent-Ended l l' l r refl refl refl (ground (arith, e, h)) (ground (arith, e, h))
    | inr e ↦
        let (refreshed, wire1) =
          refresh J cpr now stored.refresh_token l.authenticator.config wire in
        elim (Option-cases (result_of refreshed)) [
          | inr (token, f) ↦ sign_in-Ended token l l' r wire1 wire' (ground (arith, e, f, h))
          | inl f ↦ elim (Bool-cases (is_transient refreshed.error)) [
            | inl t ↦ inr (
                inr (
                  ground (arith, e, f, t, h, is_transient-failed refreshed.error t),
                  ground (arith, e, f, t, h),
                ))
            | inr t ↦
                consent-Ended l l' l r refl refl refl (ground (arith, e, f, t, h))
                  (ground (arith, e, f, t, h))
          ]
        ]
  ]

  try_stored-Ended :
      (stored : OAuth2Token) (l l' : Login S) (r : Result Bool) (wire wire' : Wire)
      → try_stored J P cpr now stopping meanwhile draw stored l wire ≡ (ok r, l', wire')
      → Ended l r l'
  unfolding try_stored apply_token complete_authentication
  try_stored-Ended stored l l' r wire wire' h =
      let (outcome, c, wire1) =
        validate_authentication J P meanwhile
          (some (recover_token J P cpr now l.authenticator.config)) cpr
          (record (client_of l) { access_token = stored.access_token }) wire in
      let out : Login S = put_client (record c { access_token = [] }) l in
      elim (Bool-cases (is_success outcome.error)) [
        | inl e ↦
            inl (
              ground (arith, e, h),
              ground (arith, e, h),
              ground (arith, e, h),
              ground (arith, e, h),
            )
        | inr e ↦ elim (Bool-cases (is_rejection outcome.error)) [
          | inr t ↦ inr (inr (ground (arith, e, t, h), ground (arith, e, t, h)))
          | inl t ↦ elim (Try-cases (apply_oauth_token J P empty_token (client_of out))) [
            | inr (what, f) ↦ absurd (ground (arith, e, t, f, h))
            | inl (d, f) ↦
                consent-Ended l l' (apply_token J P cpr now stopping empty_token out wire1).1 r
                  (ground (arith, f)) (ground (arith, f)) (ground (arith, f))
                  (ground (arith, e, t, f, h)) (ground (arith, e, t, f, h))
          ]
        ]
      ]

  -- In the OAuth mode with the authenticator of the library and a server that runs, `authenticate`, where it
  -- answers, ends in one of three ways: it answers true, the authentication is finished with success and
  -- that is announced once; or it answers false, the authentication is unfinished and the application is
  -- asked to open the authorize URL of the configuration, in which the state is the one that the
  -- authenticator then waits for; or it answers an error and calls no handler.
  pub authenticate-Ended :
      (l l' : Login S) (r : Result Bool) (wire wire' : Wire)
      → l.worker.hub.is_oauth ≡ true
      → is_success l.server_start.error ≡ true
      → (client_of l).external_tokens ≡ false
      → authenticate J P cpr now stopping meanwhile draw l wire ≡ (ok r, l', wire')
      → Ended l r l'
  unfolding authenticate
  authenticate-Ended l l' r wire wire' oauth started own h =
      elim (Option-cases (load_persisted_oauth_token J P (client_of l))) [
        | inl n ↦
            consent-Ended l l' l r refl refl refl (ground (arith, oauth, started, own, n, h))
              (ground (arith, oauth, started, own, n, h))
        | inr (stored, e) ↦
            elim (Bool-cases
              (not (is_empty stored.access_token) && not (is_expired now (pos 60) stored))) [
                | inl t ↦
                    try_stored-Ended stored l l' r wire wire'
                      (ground (arith, oauth, started, own, e, t, h))
                | inr t ↦
                    try_refresh-Ended stored l l' r wire wire'
                      (ground (arith, oauth, started, own, e, t, h))
              ]
      ]
