-- ===== src/Client/Sending/Bounds.antt =====
-- How many requests one call of `sendWithAuth` sends.
use smartthings4cpp.Base.{
  ℕ, ◌+◌, ◌≤◌, Option, none, some, Bytes, arith, length, Option-cases, inl, inr,
}
use smartthings4cpp.Base.Dict.{Dict}
use smartthings4cpp.Types.{result_of}
use smartthings4cpp.Http
use smartthings4cpp.Http.{Cpr, Wire, Request, HttpResponse, new_client}
use smartthings4cpp.Storage.Provider.{StorageProvider}
use smartthings4cpp.Client.{Client, auth_headers_for}
use smartthings4cpp.Client.Sending.{
  Sender, Callback, Meanwhile, transmit, retry_external, retry_refreshed, retry, send_with_auth,
  get_with_auth, post_with_auth,
}

-- One call of the sender sends one request at most.
abbrev pub IsSingle : Sender → Type 0
IsSingle send =
    (headers : Dict Bytes) (wire : Wire) → length (send headers wire).1 ≤ 1 + length wire

-- The callback sends at most `n` requests.
abbrev pub SendsAtMost : {S : Type 0} → ℕ → Option (Callback S) → Type 0
SendsAtMost n none = 0 ≤ n
SendsAtMost {S} n (some refresh) =
    (c : Client S) (wire : Wire) → length (refresh c wire).2 ≤ n + length wire

get-IsSingle : (cpr : Cpr) (url : Bytes) → IsSingle (λ headers. Http.get cpr new_client url headers)
unfolding Http.get Http.perform
get-IsSingle cpr url headers wire = ground arith

post-IsSingle :
    (cpr : Cpr) (url body : Bytes) → IsSingle (λ headers. Http.post cpr new_client url body headers)
unfolding Http.post Http.perform
post-IsSingle cpr url body headers wire = ground arith

module _ {S : Type 0} (P : StorageProvider S) (meanwhile : Meanwhile) where
  retry_external-length :
      (callback : Option (Callback S)) (send : Sender) (snapshot : Bytes) (r : HttpResponse)
      (c : Client S) (wire : Wire)
      → IsSingle send
      → length (retry_external P meanwhile callback send snapshot r c wire).2 ≤ 1 + length wire
  unfolding retry_external transmit
  retry_external-length callback send snapshot r c wire single =
      ground (arith, single (auth_headers_for c.access_token) wire)

  retry_refreshed-length :
      (callback : Option (Callback S)) (n : ℕ) (refresh : Callback S) (send : Sender)
      (snapshot : Bytes) (r : HttpResponse) (c : Client S) (wire : Wire)
      → IsSingle send
      → ((d : Client S) (w : Wire) → length (refresh d w).2 ≤ n + length w)
      → length (retry_refreshed P meanwhile callback refresh send snapshot r c wire).2
        ≤ n + (1 + length wire)
  unfolding retry_refreshed
  retry_refreshed-length callback n refresh send snapshot r c wire single frugal =
      elim (Option-cases (result_of (refresh c wire).0)) [
        | inl e ↦ ground (arith, e, frugal c wire, single (auth_headers_for c.access_token) wire)
        | inr (token, e) ↦ ground (
          arith,
          e,
          frugal c wire,
          single (auth_headers_for c.access_token) wire,
          single (auth_headers_for token) (refresh c wire).2,
        )
      ]

  retry-length :
      (callback : Option (Callback S)) (n : ℕ) (send : Sender) (snapshot : Bytes) (r : HttpResponse)
      (c : Client S) (wire : Wire)
      → IsSingle send
      → SendsAtMost n callback
      → length (retry P meanwhile callback send snapshot r c wire).2 ≤ n + (1 + length wire)
  unfolding retry
  retry-length none n send snapshot r c wire single frugal =
      ground (arith, retry_external-length none send snapshot r c wire single)
  retry-length (some refresh) n send snapshot r c wire single frugal = ground (
    arith,
    retry_external-length (some refresh) send snapshot r c wire single,
    retry_refreshed-length (some refresh) n refresh send snapshot r c wire single frugal,
  )

  send_with_auth-length :
      (callback : Option (Callback S)) (n : ℕ) (send : Sender) (c : Client S) (wire : Wire)
      → IsSingle send
      → SendsAtMost n callback
      → length (send_with_auth P meanwhile callback send c wire).2 ≤ n + (2 + length wire)
  unfolding send_with_auth transmit
  send_with_auth-length callback n send c wire single frugal = ground (
    arith,
    single (auth_headers_for c.access_token) wire,
    retry-length callback n send c.access_token
        (transmit P meanwhile callback send c.access_token c wire).0
        (transmit P meanwhile callback send c.access_token c wire).1
        (transmit P meanwhile callback send c.access_token c wire).2 single frugal,
  )

  -- One authenticated GET sends at most two requests of its own, whatever the server answers and
  -- whatever tokens arrive meanwhile; the `n` are those that the refresh callback may send.
  pub get_with_auth-length :
      (callback : Option (Callback S)) (n : ℕ) (cpr : Cpr) (url : Bytes) (c : Client S)
      (wire : Wire)
      → SendsAtMost n callback
      → length (get_with_auth P meanwhile callback cpr url c wire).2 ≤ n + (2 + length wire)
  unfolding get_with_auth
  get_with_auth-length callback n cpr url c wire frugal =
      send_with_auth-length callback n (λ headers. Http.get cpr new_client url headers) c wire
        (get-IsSingle cpr url) frugal

  -- The same of an authenticated POST.
  pub post_with_auth-length :
      (callback : Option (Callback S)) (n : ℕ) (cpr : Cpr) (url body : Bytes) (c : Client S)
      (wire : Wire)
      → SendsAtMost n callback
      → length (post_with_auth P meanwhile callback cpr url body c wire).2 ≤ n + (2 + length wire)
  unfolding post_with_auth
  post_with_auth-length callback n cpr url body c wire frugal =
      send_with_auth-length callback n (λ headers. Http.post cpr new_client url body headers) c wire
        (post-IsSingle cpr url body) frugal
