-- ===== src/Signature/Verify.antt =====
-- `verifyDigest` and `DefaultWebhookSignatureVerifier` of src/webhook_signature.cpp. The crypto of the
-- platform, the clocks, the date parser and the HTTP library are parameters.
pub mod Soundness
pub mod Keys
use smartthings4cpp.Base.{
  ℕ, ◌+◌, ◌*◌, ◌/◌, Bool, true, false, ◌&&◌, ◌||◌, not, List, [], ◌∷◌, ◌++◌, Option, none, some,
  Bytes, str, eqb, ltb, ◌==◌, if◌then◌else◌, is_empty, is_some, bind?, or_else,
}
use smartthings4cpp.Base.Trim.{lower, trim}
use smartthings4cpp.Base.Search.{cut}
use smartthings4cpp.Base.Dict
use smartthings4cpp.Base.Dict.{Dict}
use smartthings4cpp.Base.Int.{ℤ, pos_part, ◌-ℤ◌}
use smartthings4cpp.Base.Set.{contains}
use smartthings4cpp.Base64
use smartthings4cpp.Types.{ErrorCode, Outcome, done, not_done, authentication_failed}
use smartthings4cpp.Http
use smartthings4cpp.Http.{Cpr, Wire, is_ok, new_client}
use smartthings4cpp.Webhook.{WebhookRequest, header}
use smartthings4cpp.Signature.Params.{SignatureParams, parse_signature_params}
use smartthings4cpp.Signature.Signing.{build_signing_string}

-- The crypto backend: whether there is one, SHA-256, and the check of a signature (PEM key, message,
-- signature).
pub record Crypto : Type 0 where
  pub available : Bool
  pub sha256 : Bytes → Option Bytes
  pub rsa_verify : Bytes → Bytes → Bytes → Bool

pub record WebhookSignatureConfig : Type 0 where
  pub key_server_base_url : Bytes
  pub max_clock_skew : ℕ
  pub key_cache_ttl : ℕ

-- `_cache` maps a key id to the PEM text and its expiry on the steady clock.
pub record Verifier : Type 0 where
  pub config : WebhookSignatureConfig
  pub resolver : Option (Bytes → Option Bytes)
  pub cache : Dict (Bytes × ℕ)

-- The loop of the constructor: slashes at the end of the URL go.
pub strip_slashes : Bytes → Bytes
strip_slashes [] = []
strip_slashes (c ∷ s) =
    let rest = strip_slashes s in
    if is_empty rest then (if c == b'/' then [] else c ∷ []) else c ∷ rest

pub new_verifier : WebhookSignatureConfig → Option (Bytes → Option Bytes) → Verifier
new_verifier config resolver = record {
  config = record config { key_server_base_url = strip_slashes config.key_server_base_url };
  resolver = resolver;
  cache = [];
}

-- The parts of the text between commas, as `getline` yields them.
unfoldable pub comma_parts : Bytes → Bytes → List Bytes
comma_parts [] part = if is_empty part then [] else part ∷ []
comma_parts (c ∷ s) part = elim (c == b',') [
  | true ↦ part ∷ comma_parts s []
  | false ↦ comma_parts s (part ++ c ∷ [])
]

-- The value of a part that offers a SHA-256 digest.
unfoldable pub sha256_value : Bytes → Option Bytes
sha256_value part = bind? (cut b'=' (trim part)) (λ (name, value).
    let algorithm = lower (trim name) in
    if eqb algorithm (str "sha256") || eqb algorithm (str "sha-256")
    then some (trim value)
    else none)

-- The first such part decides.
unfoldable pub digest_matches : Bytes → List Bytes → Bool
digest_matches expected [] = false
digest_matches expected (part ∷ parts) = elim (sha256_value part) [
  | none ↦ digest_matches expected parts
  | some value ↦ eqb value expected
]

unfoldable pub fail : Bytes → Outcome
fail why = not_done authentication_failed (str "webhook signature: " ++ why)

-- `now > when ? now - when : when - now`
unfoldable pub distance : ℤ → ℤ → ℕ
distance a b = pos_part (a -ℤ b) + pos_part (b -ℤ a)

module _ (crypto : Crypto) where
  unfoldable pub verify_digest : Bytes → Bytes → Bool
  verify_digest body digest_header = elim (crypto.sha256 body) [
    | none ↦ false
    | some hash ↦ digest_matches (Base64.encode hash) (comma_parts digest_header [])
  ]

  -- Body integrity: the refusal, if any.
  unfoldable pub check_digest : SignatureParams → WebhookRequest → Option Bytes
  check_digest params request = elim (header request (str "digest")) [
    | none ↦
        if contains (str "digest") params.headers
        then some (str "Digest header missing but signed")
        else none
    | some value ↦
        if verify_digest request.body value
        then none
        else some (str "body does not match the Digest header")
  ]

  module _ (parse_http_date : Bytes → Option ℤ) (now : ℤ) where
    -- Replay protection: the refusal, if any. Times are whole seconds.
    unfoldable pub check_date : WebhookSignatureConfig → WebhookRequest → Option Bytes
    check_date config request =
        if ltb 0 config.max_clock_skew
        then elim (header request (str "date")) [
          | none ↦ none
          | some value ↦ elim (parse_http_date value) [
            | none ↦ some (str "unparseable Date header")
            | some when ↦
                if ltb config.max_clock_skew (distance now when)
                then some (str "stale Date (outside the allowed clock skew)")
                else none
          ]
        ]
        else none

    module _ (cpr : Cpr) (steady_now : ℕ) where
      unfoldable pub http_fetch_key : WebhookSignatureConfig → Bytes → Wire → Option Bytes × Wire
      http_fetch_key config [] wire = (none, wire)
      http_fetch_key config (c ∷ key_id) wire =
          let path : Bytes = if c == b'/' then c ∷ key_id else str "/" ++ c ∷ key_id in
          let (response, wire') =
            Http.get cpr new_client (config.key_server_base_url ++ path) [] wire in
          (
            (if is_ok response && not (is_empty response.body) then some response.body else none),
            wire',
          )

      -- A cached key that has not expired.
      unfoldable pub cached_key : Verifier → Bytes → Option Bytes
      cached_key v key_id =
          bind? (Dict.lookup key_id v.cache)
            (λ (pem, expiry). if ltb steady_now expiry then some pem else none)

      unfoldable pub remember_key : Verifier → Bytes → Option Bytes → Verifier
      remember_key v key_id none = v
      remember_key v key_id (some []) = v
      remember_key v key_id (some (c ∷ pem)) = record v {
        cache = Dict.insert key_id (c ∷ pem, steady_now + v.config.key_cache_ttl) v.cache;
      }

      unfoldable pub fetch_key : Verifier → Bytes → Wire → Option Bytes × Wire
      fetch_key v key_id wire = elim v.resolver [
        | some resolve ↦ (resolve key_id, wire)
        | none ↦ http_fetch_key v.config key_id wire
      ]

      unfoldable pub resolve_key : Verifier → Bytes → Wire → Option Bytes × Verifier × Wire
      resolve_key v key_id wire = elim (cached_key v key_id) [
        | some pem ↦ (some pem, v, wire)
        | none ↦
            let (pem, wire') = fetch_key v key_id wire in (pem, remember_key v key_id pem, wire')
      ]

      -- The part of `verify` behind the checks that need no key.
      unfoldable pub check_signature :
          SignatureParams → Bytes → Bytes → Verifier → Wire → Outcome × Verifier × Wire
      check_signature params signing_string signature v wire =
          let (pem, v', wire') = resolve_key v params.key_id wire in
          elim pem [
            | none ↦ (
              fail
                  (str "could not retrieve the public key for keyId '" ++ params.key_id ++ str "'"),
              v',
              wire',
            )
            | some key ↦ (
              if crypto.rsa_verify key signing_string signature
                  then done
                  else fail (str "signature does not match"),
              v',
              wire',
            )
          ]

      unfoldable pub check_params :
          SignatureParams → WebhookRequest → Verifier → Wire → Outcome × Verifier × Wire
      check_params params request v wire =
          if not (is_empty params.algorithm) && not (eqb params.algorithm (str "rsa-sha256"))
          then (fail (str "unsupported algorithm '" ++ params.algorithm ++ str "'"), v, wire)
          else elim (or_else (check_digest params request) (check_date v.config request)) [
            | some why ↦ (fail why, v, wire)
            | none ↦ elim (build_signing_string params.headers request) [
              | none ↦ (fail (str "a signed header is missing from the request"), v, wire)
              | some signing_string ↦ elim (Base64.decode params.signature_base64) [
                | none ↦ (fail (str "signature is not valid base64"), v, wire)
                | some signature ↦ check_signature params signing_string signature v wire
              ]
            ]
          ]

      unfoldable pub verify : WebhookRequest → Verifier → Wire → Outcome × Verifier × Wire
      verify request v wire =
          if not crypto.available
          then (
            fail (
                str
                  "no crypto backend on this platform - inject an IWebhookSignatureVerifier via Client::setWebhookSignatureVerifier()"),
            v,
            wire,
          )
          else elim (or_else (header request (str "authorization"))
              (header request (str "signature"))) [
                | none ↦ (fail (str "no Authorization or Signature header"), v, wire)
                | some value ↦ elim (parse_signature_params value) [
                  | none ↦ (fail (str "malformed signature header"), v, wire)
                  | some params ↦ check_params params request v wire
                ]
              ]
