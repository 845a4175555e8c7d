-- ===== src/Endpoint/Verified.antt =====
-- The endpoint with the default verifier of src/webhook_signature.cpp.
use smartthings4cpp.Base.{
  ℕ, Bool, true, Option, some, Bytes, str, ◌≡◌, ◌⊎◌, inl, inr, ap, arith, Bool-cases, ok,
}
use smartthings4cpp.Base.Int.{ℤ}
use smartthings4cpp.Json.{JsonLib}
use smartthings4cpp.Types.{ErrorCode, success, is_success}
use smartthings4cpp.Http.{Cpr, Wire}
use smartthings4cpp.Storage.Provider.{StorageProvider}
use smartthings4cpp.Webhook.{WebhookRequest, unknown}
use smartthings4cpp.Capability.{NumberLib}
use smartthings4cpp.Signature.Verify.{Crypto, Verifier, verify}
use smartthings4cpp.Signature.Verify.Soundness.{Accepted, verify_sound}
use smartthings4cpp.Endpoint.{Host, response, handle_webhook}
use smartthings4cpp.Endpoint.Answers.{refused_unprocessed}

is_success-success : (e : ErrorCode) → is_success e ≡ true → e ≡ success
is_success-success e h = ground (arith, h)

module _ {V D : Type 0} (J : JsonLib V) (N : NumberLib V D) {S : Type 0} (P : StorageProvider S)
    (cpr : Cpr) (stopping : Wire → Bool) (crypto : Crypto) (parse_http_date : Bytes → Option ℤ)
    (now : ℤ) (steady_now : ℕ) where
  -- Behind the default verifier a request is answered with 401 and changes neither the client nor a device,
  -- or it was accepted: it has a signature that the platform's RSA check holds of, with all that `Accepted`
  -- lists.
  pub processed_only_signed :
      (request : WebhookRequest) (v : Verifier) (host : Host S V D) (wire : Wire)
      → (let result =
            handle_webhook J N P cpr stopping
              (some (verify crypto parse_http_date now cpr steady_now))
              request
              v
              host
              wire in
          (result.0
            ≡ ok (
                response 401 (str "{\"error\":\"webhook signature verification failed\"}") unknown))
          × (result.2 ≡ host))
        ⊎ Accepted crypto parse_http_date now cpr steady_now request v wire
  processed_only_signed request v host wire =
      let check = verify crypto parse_http_date now cpr steady_now in
      elim (Bool-cases (is_success (check request v wire).0.error)) [
        | inl passed ↦ inr (
            verify_sound crypto parse_http_date now cpr steady_now request v wire
              (is_success-success (check request v wire).0.error passed))
        | inr refused ↦
            let same = refused_unprocessed J N P cpr stopping check request v host wire refused in
            inl (ap (λ r. r.0) same, ap (λ r. r.2) same)
      ]
