-- ===== src/Endpoint/Answers.antt =====
-- What the endpoint answers, and what it refuses.
use smartthings4cpp.Base.{
  Bool, true, false, [], ◌∷◌, some, Bytes, str, ◌≡◌, refl, arith, Bool-cases, Try-cases, ◌⊎◌, inl,
  inr, ok, thrown,
}
use smartthings4cpp.Base.Dict
use smartthings4cpp.Base.Set
use smartthings4cpp.Json
use smartthings4cpp.Json.{JsonLib}
use smartthings4cpp.Types.{Outcome, is_success}
use smartthings4cpp.Http.{Cpr, Wire}
use smartthings4cpp.Storage.Provider.{StorageProvider}
use smartthings4cpp.Webhook.{WebhookRequest, WebhookResponse, unknown}
use smartthings4cpp.Capability.{NumberLib}
use smartthings4cpp.Endpoint.{
  Host, response, text_within, process_message, process_webhook, handle_webhook,
}
use smartthings4cpp.Endpoint.Events.{events_of, dispatch_events}

module _ {V D : Type 0} (J : JsonLib V) (N : NumberLib V D) {S : Type 0} (P : StorageProvider S)
    (cpr : Cpr) (stopping : Wire → Bool) where
  -- A request that the verifier refuses is answered with 401 and changes nothing but the verifier's own
  -- state and the requests that the verifier sent.
  pub refused_unprocessed :
      {K : Type 0} (verify : WebhookRequest → K → Wire → Outcome × K × Wire)
      (request : WebhookRequest) (kept : K) (host : Host S V D) (wire : Wire)
      → is_success (verify request kept wire).0.error ≡ false
      → handle_webhook J N P cpr stopping (some verify) request kept host wire ≡ (
        ok (response 401 (str "{\"error\":\"webhook signature verification failed\"}") unknown),
        (verify request kept wire).1,
        host,
        (verify request kept wire).2,
      )
  unfolding handle_webhook
  refused_unprocessed verify request kept host wire refused = rw refused refl

  -- The body is a JSON object with a `messageType`.
  abbrev pub has_message_type : WebhookRequest → Bool
  has_message_type request = elim (Json.parse J request.body) [
    | thrown what ↦ false
    | ok body ↦ Json.contains J body (str "messageType")
  ]

  process_message-status :
      (message_type : Bytes) (body : V) (host host' : Host S V D) (wire wire' : Wire)
      (a : WebhookResponse)
      → process_message J N P cpr stopping message_type body host wire ≡ (ok a, host', wire')
      → a.status_code ≡ 200
  unfolding process_message
  process_message-status message_type body host host' wire wire' a h =
      elim (Try-cases (
        J.dump (
          J.object (
            (
              str "pingData",
              J.object (
                  (str "challenge", J.text (text_within J body (str "pingData") (str "challenge")))
                  ∷ []),
            )
            ∷ [])))) [
              | inl (text, e) ↦
                  elim (Try-cases (dispatch_events J N (events_of J body) host.registry).0) [
                    | inl (u, f) ↦ ground (arith, h, e, f)
                    | inr (what, f) ↦ ground (arith, h, e, f)
                  ]
              | inr (what, e) ↦
                  elim (Try-cases (dispatch_events J N (events_of J body) host.registry).0) [
                    | inl (u, f) ↦ ground (arith, h, e, f)
                    | inr (what', f) ↦ ground (arith, h, e, f)
                  ]
            ]

  -- A request that is answered gets 200 where its body is a JSON object with a `messageType`, whatever type
  -- that is; any other request gets 400 and changes nothing.
  pub answer_status :
      (request : WebhookRequest) (host host' : Host S V D) (wire wire' : Wire) (a : WebhookResponse)
      → process_webhook J N P cpr stopping request host wire ≡ (ok a, host', wire')
      → ((has_message_type request ≡ true) × (a.status_code ≡ 200))
        ⊎ ((has_message_type request ≡ false)
            × (a.status_code ≡ 400)
            × (host' ≡ host)
            × (wire' ≡ wire))
  unfolding process_webhook
  answer_status request host host' wire wire' a h = elim (Try-cases (Json.parse J request.body)) [
    | inr (what, e) ↦
        inr (ground (arith, e), ground (arith, e, h), ground (arith, e, h), ground (arith, e, h))
    | inl (body, e) ↦ elim (Bool-cases (Json.contains J body (str "messageType"))) [
      | inr n ↦ inr (
        ground (arith, e, n),
        ground (arith, e, n, h),
        ground (arith, e, n, h),
        ground (arith, e, n, h),
      )
      | inl t ↦ inl (
        ground (arith, e, t),
        process_message-status (Json.get_text_or J body (str "messageType") []) body host host' wire
            wire' a (ground (arith, e, t, h)),
      )
    ]
  ]
