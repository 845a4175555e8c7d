-- ===== src/Client/Sending.antt =====
-- `sendWithAuth`, `getWithAuth` and `postWithAuth` of src/client.cpp. `meanwhile` is what other threads
-- do while a request is in flight: their calls of `setAccessToken`, in order. The refresh callback is the
-- application's, or that of the OAuth mode in Session/Authentication.
pub mod Bounds
pub mod Reports
use smartthings4cpp.Base.{
  ℕ, Bool, true, false, ◌&&◌, not, List, [], ◌∷◌, Option, none, some, Bytes, eqb, ◌==◌,
  if◌then◌else◌, is_empty,
}
use smartthings4cpp.Base.Dict.{Dict}
use smartthings4cpp.Types.{Result, result_of}
use smartthings4cpp.Http
use smartthings4cpp.Http.{Cpr, Wire, HttpResponse, new_client}
use smartthings4cpp.Storage.Provider.{StorageProvider}
use smartthings4cpp.Client.{Client, auth_headers_for, set_access_token, report_rejected_token}

abbrev pub Sender : Type 0
Sender = Dict Bytes → Wire → HttpResponse × Wire

-- The refresh callback, which may send requests of its own and change the stored token.
abbrev pub Callback : Type 0 → Type 0
Callback S = Client S → Wire → Result Bytes × Client S × Wire

abbrev pub Meanwhile : Type 0
Meanwhile = Wire → List (Bytes × Bytes)

module _ {S : Type 0} (P : StorageProvider S) where
  pub arrive : List (Bytes × Bytes) → Client S → Client S
  arrive [] c = c
  arrive ((token, app_id) ∷ calls) c = arrive calls (set_access_token P token app_id c)

  module _ (meanwhile : Meanwhile) (callback : Option (Callback S)) where
    -- One request with no lock held.
    unfoldable pub transmit : Sender → Bytes → Client S → Wire → HttpResponse × Client S × Wire
    transmit send token c wire =
        let (response, wire') = send (auth_headers_for token) wire in
        (response, arrive (meanwhile wire') c, wire')

    pub report_if_rejected : HttpResponse → Bytes → Client S → Client S
    report_if_rejected response token c =
        if response.status_code == 401 then report_rejected_token token c else c

    -- The branch of the external-tokens mode behind an answer 401.
    pub retry_external :
        Sender → Bytes → HttpResponse → Client S → Wire → HttpResponse × Client S × Wire
    retry_external send snapshot response c wire =
        if not (is_empty c.access_token) && not (eqb c.access_token snapshot)
        then (let (response', c', wire') = transmit send c.access_token c wire in
            (response', report_if_rejected response' c.access_token c', wire'))
        else (response, report_if_rejected response snapshot c, wire)

    -- The branch of the refresh callback; the lock is held, so nothing arrives.
    pub retry_refreshed :
        Callback S
        → Sender
        → Bytes
        → HttpResponse
        → Client S
        → Wire
        → HttpResponse × Client S × Wire
    retry_refreshed refresh send snapshot response c wire =
        if not (eqb c.access_token snapshot)
        then (let (response', wire') = send (auth_headers_for c.access_token) wire in
            (response', c, wire'))
        else (let (refreshed, c', wire1) = refresh c wire in
            elim (result_of refreshed) [
              | none ↦ (response, c', wire1)
              | some token ↦
                  let (response', wire2) = send (auth_headers_for token) wire1 in
                  (response', record c' { access_token = token }, wire2)
            ])

    pub retry : Sender → Bytes → HttpResponse → Client S → Wire → HttpResponse × Client S × Wire
    retry send snapshot response c wire =
        if c.external_tokens then retry_external send snapshot response c wire else elim callback [
          | none ↦ (response, c, wire)
          | some refresh ↦ retry_refreshed refresh send snapshot response c wire
        ]

    unfoldable pub send_with_auth : Sender → Client S → Wire → HttpResponse × Client S × Wire
    send_with_auth send c wire =
        let (response, c', wire') = transmit send c.access_token c wire in
        if not (response.status_code == 401)
        then (response, c', wire')
        else retry send c.access_token response c' wire'

    module _ (cpr : Cpr) where
      unfoldable pub get_with_auth : Bytes → Client S → Wire → HttpResponse × Client S × Wire
      get_with_auth url = send_with_auth (λ headers. Http.get cpr new_client url headers)

      unfoldable pub post_with_auth :
          Bytes → Bytes → Client S → Wire → HttpResponse × Client S × Wire
      post_with_auth url body =
          send_with_auth (λ headers. Http.post cpr new_client url body headers)
