-- ===== src/Tests/Signatures.antt =====
-- The verifier of webhook requests.
use smartthings4cpp.Base.{
  ℕ, ◌+◌, ◌<◌, Bool, true, false, List, [], ◌∷◌, ◌++◌, Option, none, some, Bytes, str, ◌≡◌, ◌≢◌,
  refl, arith,
}
use smartthings4cpp.Base.Int.{ℤ, pos}
use smartthings4cpp.Http.{Cpr, Wire}
use smartthings4cpp.Webhook.{WebhookRequest}
use smartthings4cpp.Signature.Verify.{Crypto, Verifier, verify, resolve_key, fetch_key}
use smartthings4cpp.Signature.Verify.Soundness.{Accepted, verify_sound, body_unsigned}
use smartthings4cpp.Signature.Verify.Keys.{key_served_from_cache}
use smartthings4cpp.Signature.Signing.{build_signing_string}
use smartthings4cpp.Signature.Signing.Binding.{signing_string_binds}
use smartthings4cpp.Tests.Fixtures.{answers, webhook_request}

abbrev crypto : Crypto
crypto = record {
  available = true;
  sha256 = λ s. some s;
  rsa_verify = λ key message signature. true;
}

abbrev no_date : Bytes → Option ℤ
no_date = λ s. none

abbrev server : Cpr
server = answers 200 (b'k' ∷ [])

abbrev verifier : Verifier
verifier = record {
  config = record { key_server_base_url = b'u' ∷ []; max_clock_skew = 300; key_cache_ttl = 60 };
  resolver = none;
  cache = [];
}

abbrev signed_request : WebhookRequest
signed_request = webhook_request (b'x' ∷ []) (
    (
      str "authorization",
      str "Signature keyId=\"k\",signature=\"TWE=\",headers=\"(request-target)\"",
    )
    ∷ [])

verify_sound_example : Accepted crypto no_date (pos 0) server 0 signed_request verifier []
unfolding verify smartthings4cpp.Webhook.header smartthings4cpp.Base.Dict.lookup
    smartthings4cpp.Base.eqb str smartthings4cpp.Base.Trim.lower smartthings4cpp.Base.to_lower
    smartthings4cpp.Signature.Params.parse_signature_params
    smartthings4cpp.Signature.Params.read_fields smartthings4cpp.Signature.Params.skip_separators
    smartthings4cpp.Signature.Params.strip_scheme smartthings4cpp.Signature.Params.skip_space
    smartthings4cpp.Base.is_space smartthings4cpp.Signature.Params.starts_with_space
    smartthings4cpp.Signature.Params.read_field smartthings4cpp.Signature.Params.field_behind
    smartthings4cpp.Signature.Params.span_until smartthings4cpp.Base.Dict.insert
    smartthings4cpp.Base.Int.◌-ℤ◌ smartthings4cpp.Base.Search.cut smartthings4cpp.Base.Set.contains
    smartthings4cpp.Base.before smartthings4cpp.Base.Trim.is_blank
    smartthings4cpp.Base.Trim.split_lower_words smartthings4cpp.Base.Trim.trim
    smartthings4cpp.Base.Trim.trim_back smartthings4cpp.Base.Trim.trim_front
    smartthings4cpp.Base.Trim.words smartthings4cpp.Base.Trim.words_from
    smartthings4cpp.Base64.alphabet_at smartthings4cpp.Base64.decode
    smartthings4cpp.Base64.decode_char smartthings4cpp.Base64.decode_finish
    smartthings4cpp.Base64.decode_loop smartthings4cpp.Base64.decode_step
    smartthings4cpp.Base64.encode smartthings4cpp.Base64.is_ascii_space
    smartthings4cpp.Base64.shift_in smartthings4cpp.Http.convert_response
    smartthings4cpp.Http.copy_headers smartthings4cpp.Http.get smartthings4cpp.Http.perform
    smartthings4cpp.Signature.Params.check_fields smartthings4cpp.Signature.Params.read_value
    smartthings4cpp.Signature.Params.set_field smartthings4cpp.Signature.Signing.add_lines
    build_signing_string smartthings4cpp.Signature.Signing.signing_line
    smartthings4cpp.Signature.Verify.cached_key smartthings4cpp.Signature.Verify.check_date
    smartthings4cpp.Signature.Verify.check_digest smartthings4cpp.Signature.Verify.check_params
    smartthings4cpp.Signature.Verify.check_signature smartthings4cpp.Signature.Verify.comma_parts
    smartthings4cpp.Signature.Verify.digest_matches smartthings4cpp.Signature.Verify.distance
    smartthings4cpp.Signature.Verify.fail fetch_key smartthings4cpp.Signature.Verify.http_fetch_key
    smartthings4cpp.Signature.Verify.remember_key resolve_key
    smartthings4cpp.Signature.Verify.sha256_value smartthings4cpp.Signature.Verify.verify_digest
verify_sound_example = verify_sound crypto no_date (pos 0) server 0 signed_request verifier [] refl

body_unsigned_example :
    verify crypto no_date (pos 0) server 0 (record signed_request { body = b'y' ∷ [] }) verifier []
    ≡ verify crypto no_date (pos 0) server 0 signed_request verifier []
unfolding smartthings4cpp.Webhook.header smartthings4cpp.Base.Dict.lookup smartthings4cpp.Base.eqb
    str smartthings4cpp.Base.Trim.lower smartthings4cpp.Base.to_lower
body_unsigned_example =
    body_unsigned crypto no_date (pos 0) server 0 signed_request (b'y' ∷ []) verifier [] refl

key_served_from_cache_example :
    resolve_key crypto no_date
      (pos 0)
      server
      59
      (resolve_key crypto no_date (pos 0) server 0 verifier (b'i' ∷ []) []).1
      (b'i' ∷ [])
      []
    ≡ (
      some (b'k' ∷ []),
      (resolve_key crypto no_date (pos 0) server 0 verifier (b'i' ∷ []) []).1,
      [],
    )
unfolding smartthings4cpp.Signature.Verify.cached_key smartthings4cpp.Base.Dict.lookup fetch_key
    smartthings4cpp.Signature.Verify.http_fetch_key smartthings4cpp.Http.get
    smartthings4cpp.Http.perform smartthings4cpp.Http.convert_response
key_served_from_cache_example =
    key_served_from_cache crypto no_date (pos 0) server 0 59 verifier (b'i' ∷ []) b'k' [] [] [] refl
      refl (omega arith)

abbrev stale_verifier : Verifier
stale_verifier = record verifier { cache = (b'i' ∷ [], (b'o' ∷ [], 7)) ∷ [] }

abbrev host : Bytes
host = b'h' ∷ []

abbrev host_request : WebhookRequest
host_request = webhook_request [] ((host, b'v' ∷ []) ∷ [])

abbrev host_line : Bytes
host_line = b'h' ∷ b':' ∷ 32 ∷ b'v' ∷ []

signing_string_binds_example : (host_line ∷ []) ≡ (host_line ∷ [])
unfolding smartthings4cpp.Signature.Signing.Binding.signing_lines
    smartthings4cpp.Signature.Signing.signing_line smartthings4cpp.Base.eqb str
    smartthings4cpp.Webhook.header smartthings4cpp.Base.Dict.lookup smartthings4cpp.Base.Trim.lower
    smartthings4cpp.Base.to_lower smartthings4cpp.Base.Trim.trim smartthings4cpp.Base.Trim.trim_back
    smartthings4cpp.Base.Trim.trim_front smartthings4cpp.Base.Trim.is_blank
signing_string_binds_example =
    signing_string_binds (host ∷ []) host_request host_request (host_line ∷ []) (host_line ∷ [])
      refl refl ((omega arith, (omega arith, (omega arith, (omega arith, tt)))), tt)
      ((omega arith, (omega arith, (omega arith, (omega arith, tt)))), tt) refl
