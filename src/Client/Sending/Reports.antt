-- ===== src/Client/Sending/Reports.antt =====
-- Rejected tokens in the external-tokens mode: which are reported, and how often.
use smartthings4cpp.Base.{
  true, false, [], ◌∷◌, ◌++◌, Option, Bytes, ◌≡◌, ◌≢◌, refl, arith, ◌⊎◌, eqb_iff, eqb_refl,
  is_empty,
}
use smartthings4cpp.Http.{Wire, HttpResponse}
use smartthings4cpp.Storage.Provider.{StorageProvider}
use smartthings4cpp.Client.{Client, auth_headers_for, report_rejected_token}
use smartthings4cpp.Client.Sending.{
  Sender, Callback, Meanwhile, arrive, transmit, report_if_rejected, retry_external, retry,
  send_with_auth,
}

module _ {S : Type 0} where
  -- A token that is reported again, with nothing in between, leaves no second report: the second call
  -- changes nothing.
  pub report_twice :
      (token : Bytes) (c : Client S)
      → report_rejected_token token (report_rejected_token token c) ≡ report_rejected_token token c
  unfolding report_rejected_token
  report_twice token c = ground (arith, eqb_refl token)

  -- A report is made of no other token than the one in use, which is then the rejected one.
  report_current :
      (token : Bytes) (c : Client S)
      → ((report_rejected_token token c).jobs.rejected ≡ c.jobs.rejected)
        ⊎ (((report_rejected_token token c).jobs.rejected ≡ c.jobs.rejected ++ token ∷ [])
            × (token ≡ c.access_token)
            × (token ≢ c.rejected_token)
            × ((report_rejected_token token c).rejected_token ≡ token))
  unfolding report_rejected_token
  report_current token c =
      ground (arith, eqb_iff token c.access_token, eqb_iff token c.rejected_token)

  -- A token that is in use and was refused is the rejected one behind the report.
  report_marks :
      (token : Bytes) (c : Client S)
      → c.external_tokens ≡ true
      → is_empty token ≡ false
      → token ≡ c.access_token
      → (report_rejected_token token c).rejected_token ≡ token
  unfolding report_rejected_token
  report_marks token c external present current =
      ground (arith, eqb_iff token c.access_token, eqb_iff token c.rejected_token)

module _ {S : Type 0} (P : StorageProvider S) (meanwhile : Meanwhile)
    (callback : Option (Callback S)) where
  transmit_quiet :
      (send : Sender) (c : Client S) (wire : Wire)
      → meanwhile (send (auth_headers_for c.access_token) wire).1 ≡ []
      → transmit P meanwhile callback send c.access_token c wire ≡ (
        (send (auth_headers_for c.access_token) wire).0,
        c,
        (send (auth_headers_for c.access_token) wire).1,
      )
  unfolding transmit arrive
  transmit_quiet send c wire quiet = rw (quiet, transmit, arrive) refl

  retry_same :
      (send : Sender) (r : HttpResponse) (c : Client S) (wire : Wire)
      → c.external_tokens ≡ true
      → r.status_code ≡ 401
      → retry P meanwhile callback send c.access_token r c wire
        ≡ (r, report_rejected_token c.access_token c, wire)
  unfolding retry retry_external report_if_rejected
  retry_same send r c wire external refused = ground (arith, eqb_refl c.access_token)

  -- The external-tokens mode, where no token arrives while the request is in flight: an answer 401 to the
  -- token in use is returned as it is, without a second request, and the token is left for the report.
  pub rejected_not_retried :
      (send : Sender) (c : Client S) (wire : Wire)
      → c.external_tokens ≡ true
      → meanwhile (send (auth_headers_for c.access_token) wire).1 ≡ []
      → (send (auth_headers_for c.access_token) wire).0.status_code ≡ 401
      → send_with_auth P meanwhile callback send c wire ≡ (
        (send (auth_headers_for c.access_token) wire).0,
        report_rejected_token c.access_token c,
        (send (auth_headers_for c.access_token) wire).1,
      )
  unfolding send_with_auth
  rejected_not_retried send c wire external quiet refused = rw (transmit_quiet send c wire quiet) (
      ground (
        arith,
        retry_same send (send (auth_headers_for c.access_token) wire).0 c
            (send (auth_headers_for c.access_token) wire).1 external refused,
      ))

  send_refused :
      (send : Sender) (c c' : Client S) (wire wire' : Wire) (r : HttpResponse)
      → transmit P meanwhile callback send c.access_token c wire ≡ (r, c', wire')
      → r.status_code ≡ 401
      → send_with_auth P meanwhile callback send c wire
        ≡ retry P meanwhile callback send c.access_token r c' wire'
  unfolding send_with_auth
  send_refused send c c' wire wire' r first refused = rw (first) (ground arith)

  retry_newer :
      (send : Sender) (snapshot : Bytes) (r : HttpResponse) (c : Client S) (wire : Wire)
      → c.external_tokens ≡ true
      → is_empty c.access_token ≡ false
      → c.access_token ≢ snapshot
      → ((retry P meanwhile callback send snapshot r c wire).0
          ≡ (send (auth_headers_for c.access_token) wire).0)
        × ((retry P meanwhile callback send snapshot r c wire).2
            ≡ (send (auth_headers_for c.access_token) wire).1)
  unfolding retry retry_external transmit
  retry_newer send snapshot r c wire external present newer =
      ground (arith, eqb_iff c.access_token snapshot)

  -- The external-tokens mode, where a token other than the refused one is in use once the answer 401 is
  -- there: one more request is made, with that token, and its answer is the one returned.
  pub newer_token_retried :
      (send : Sender) (c c' : Client S) (wire wire' : Wire) (r : HttpResponse)
      → transmit P meanwhile callback send c.access_token c wire ≡ (r, c', wire')
      → r.status_code ≡ 401
      → c'.external_tokens ≡ true
      → is_empty c'.access_token ≡ false
      → c'.access_token ≢ c.access_token
      → ((send_with_auth P meanwhile callback send c wire).0
          ≡ (send (auth_headers_for c'.access_token) wire').0)
        × ((send_with_auth P meanwhile callback send c wire).2
            ≡ (send (auth_headers_for c'.access_token) wire').1)
  newer_token_retried send c c' wire wire' r first refused external present newer =
      rw (send_refused send c c' wire wire' r first refused)
        (retry_newer send c.access_token r c' wire' external present newer)
