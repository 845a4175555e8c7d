-- ===== src/Signature/Verify/Soundness.antt =====
-- `verify`: what a request that passes has shown, and what it has not.
use smartthings4cpp.Base.{
  ℕ, Bool, true, false, List, [], ◌∷◌, Option, none, some, Bytes, ◌≡◌, refl, sym, ◌∙◌, arith, str,
  eqb_iff, or_else, Option-cases, bind?_congr, inl, inr, ◌⊎◌, Bool-cases, if◌then◌else◌,
}
use smartthings4cpp.Base.Int.{ℤ}
use smartthings4cpp.Base.Set.{contains}
use smartthings4cpp.Base64
use smartthings4cpp.Types.{success}
use smartthings4cpp.Http.{Cpr, Wire}
use smartthings4cpp.Webhook.{WebhookRequest, header}
use smartthings4cpp.Signature.Params.{SignatureParams, parse_signature_params}
use smartthings4cpp.Signature.Signing.{build_signing_string, signing_line, add_lines}
use smartthings4cpp.Signature.Verify.{
  Crypto, WebhookSignatureConfig, Verifier, fail, verify_digest, check_digest, check_date,
  resolve_key, check_signature, check_params, verify,
}

add_lines-body :
    (names : List Bytes) (request : WebhookRequest) (body : Bytes) (later : Bool) (out : Bytes)
    → add_lines (record request { body = body }) names later out ≡ add_lines request names later out
unfolding add_lines signing_line header
add_lines-body [] request body later out = refl
add_lines-body (name ∷ names) request body later out =
    bind?_congr (signing_line request name) _ _ (λ line. add_lines-body names request body true _)

build_signing_string-body :
    (names : List Bytes) (request : WebhookRequest) (body : Bytes)
    → build_signing_string names (record request { body = body })
      ≡ build_signing_string names request
unfolding build_signing_string
build_signing_string-body names request body = add_lines-body names request body false []

module _ (crypto : Crypto) where
  -- The body's digest stands in the header, or no digest was asked for.
  check_digest_sound :
      (params : SignatureParams) (request : WebhookRequest)
      → check_digest crypto params request ≡ none
      → ((header request (str "digest") ≡ none) × (contains (str "digest") params.headers ≡ false))
        ⊎ ((value : Bytes) × (header request (str "digest") ≡ some value)
            × (verify_digest crypto request.body value ≡ true))
  unfolding check_digest
  check_digest_sound params request h = elim (Option-cases (header request (str "digest"))) [
    | inl e ↦ inl (e, ground arith)
    | inr (value, e) ↦ inr (value, e, ground arith)
  ]

  check_digest-absent :
      (params : SignatureParams) (request : WebhookRequest)
      → header request (str "digest") ≡ none
      → check_digest crypto params request ≡ (
          if contains (str "digest") params.headers
          then some (str "Digest header missing but signed")
          else none)
  unfolding check_digest
  check_digest-absent params request absent = rw (absent, check_digest) refl

  check_digest-body :
      (params : SignatureParams) (request : WebhookRequest) (body : Bytes)
      → header request (str "digest") ≡ none
      → check_digest crypto params (record request { body = body })
        ≡ check_digest crypto params request
  unfolding header
  check_digest-body params request body absent =
      check_digest-absent params (record request { body = body }) absent
      ∙ sym (check_digest-absent params request absent)

  module _ (parse_http_date : Bytes → Option ℤ) (now : ℤ) (cpr : Cpr) (steady_now : ℕ) where
    -- What stands behind an accepted signature.
    pub record Accepted (request : WebhookRequest) (v : Verifier) (wire : Wire) : Type 0 where
      pub value : Bytes
      pub params : SignatureParams
      pub message : Bytes
      pub signature : Bytes
      pub key : Bytes
      pub has_crypto : crypto.available ≡ true
      pub named :
          or_else (header request (str "authorization")) (header request (str "signature"))
          ≡ some value
      pub parsed : parse_signature_params value ≡ some params
      pub algorithm_ok : (params.algorithm ≡ []) ⊎ (params.algorithm ≡ str "rsa-sha256")
      pub digest_ok : check_digest crypto params request ≡ none
      pub date_ok : check_date crypto parse_http_date now v.config request ≡ none
      pub signing : build_signing_string params.headers request ≡ some message
      pub decoded : Base64.decode params.signature_base64 ≡ some signature
      pub resolved :
          (resolve_key crypto parse_http_date now cpr steady_now v params.key_id wire).0 ≡ some key
      pub signed : crypto.rsa_verify key message signature ≡ true

    check_signature_sound :
        (params : SignatureParams) (m s : Bytes) (v : Verifier) (wire : Wire)
        → (check_signature crypto parse_http_date now cpr steady_now params m s v wire).0.error
          ≡ success
        → (key : Bytes) × ((resolve_key crypto parse_http_date now cpr steady_now v params.key_id
              wire).0
            ≡ some key)
          × (crypto.rsa_verify key m s ≡ true)
    unfolding check_signature fail
    check_signature_sound params m s v wire h = ground arith

    check_params_sound :
        (params : SignatureParams) (request : WebhookRequest) (v : Verifier) (wire : Wire)
        → (check_params crypto parse_http_date now cpr steady_now params request v wire).0.error
          ≡ success
        → ((params.algorithm ≡ []) ⊎ (params.algorithm ≡ str "rsa-sha256"))
          × (check_digest crypto params request ≡ none)
          × (check_date crypto parse_http_date now v.config request ≡ none)
          × ((m : Bytes) × (s : Bytes) × (build_signing_string params.headers request ≡ some m)
              × (Base64.decode params.signature_base64 ≡ some s)
              × ((check_signature crypto parse_http_date now cpr steady_now params m s v
                    wire).0.error
                  ≡ success))
    unfolding check_params fail
    check_params_sound params request v wire h =
        ground (arith, eqb_iff params.algorithm (str "rsa-sha256"))

    -- A request that `verify` lets pass (its outcome is a success) has all that `Accepted` lists: a
    -- crypto backend was there, an `authorization` or `signature` header was parsed to parameters whose
    -- algorithm is empty or `rsa-sha256`, the digest and date checks raised nothing, every signed header
    -- was there and gave a message, the signature was base64, the key of the named id was found, and
    -- the platform's RSA check holds of that key, that message and that signature.
    pub verify_sound :
        (request : WebhookRequest) (v : Verifier) (wire : Wire)
        → (verify crypto parse_http_date now cpr steady_now request v wire).0.error ≡ success
        → Accepted request v wire
    unfolding verify fail
    verify_sound request v wire h = elim (Bool-cases crypto.available) [
      | inr off ↦ ground arith
      | inl on ↦
          elim (Option-cases
            (or_else (header request (str "authorization")) (header request (str "signature")))) [
              | inl absent ↦ ground arith
              | inr (value, named) ↦ elim (Option-cases (parse_signature_params value)) [
                | inl malformed ↦ ground arith
                | inr (params, parsed) ↦
                    let (algorithm_ok, digest_ok, date_ok, (m, s, signing, decoded, checked)) =
                      check_params_sound params request v wire (ground arith) in
                    let (key, resolved, signed) = check_signature_sound params m s v wire checked in
                    record {
                      value = value;
                      params = params;
                      message = m;
                      signature = s;
                      key = key;
                      has_crypto = on;
                      named = named;
                      parsed = parsed;
                      algorithm_ok = algorithm_ok;
                      digest_ok = digest_ok;
                      date_ok = date_ok;
                      signing = signing;
                      decoded = decoded;
                      resolved = resolved;
                      signed = signed;
                    }
              ]
            ]
    ]

    check_date-body :
        (config : WebhookSignatureConfig) (request : WebhookRequest) (body : Bytes)
        → check_date crypto parse_http_date now config (record request { body = body })
          ≡ check_date crypto parse_http_date now config request
    unfolding check_date header
    check_date-body config request body = refl

    check_params-body :
        (params : SignatureParams) (request : WebhookRequest) (body : Bytes) (v : Verifier)
        (wire : Wire)
        → header request (str "digest") ≡ none
        → check_params crypto parse_http_date now cpr steady_now params
            (record request { body = body })
            v
            wire
          ≡ check_params crypto parse_http_date now cpr steady_now params request v wire
    unfolding check_params
    check_params-body params request body v wire absent = ground (
      arith,
      check_digest-body params request body absent,
      check_date-body v.config request body,
      build_signing_string-body params.headers request body,
    )

    -- For a request without a `digest` header `verify` does not look at the body: it gives the same
    -- outcome, state and requests for the same request with any other body.
    pub body_unsigned :
        (request : WebhookRequest) (body : Bytes) (v : Verifier) (wire : Wire)
        → header request (str "digest") ≡ none
        → verify crypto parse_http_date now cpr steady_now (record request { body = body }) v wire
          ≡ verify crypto parse_http_date now cpr steady_now request v wire
    unfolding verify header
    body_unsigned request body v wire absent =
        elim (Option-cases
          (or_else (header request (str "authorization")) (header request (str "signature")))) [
            | inl none_named ↦ ground arith
            | inr (value, named) ↦ elim (Option-cases (parse_signature_params value)) [
              | inl malformed ↦ ground arith
              | inr (params, parsed) ↦
                  ground (arith, check_params-body params request body v wire absent)
            ]
          ]
