-- ===== src/Signature/Signing.antt =====
-- `buildSigningString` of src/webhook_signature.cpp.
pub mod Binding
use smartthings4cpp.Base.{
  ℕ, Bool, true, false, ◌||◌, List, [], ◌∷◌, ◌++◌, Option, none, some, Bytes, str, eqb,
  if◌then◌else◌, bind?,
}
use smartthings4cpp.Base.Trim.{lower, trim}
use smartthings4cpp.Webhook.{WebhookRequest, header}

-- The line of one signed header; the request target is a header of its own, and the two parameters
-- that only the signature holds cannot be reconstructed.
unfoldable pub signing_line : WebhookRequest → Bytes → Option Bytes
signing_line request name =
    if eqb name (str "(request-target)")
    then some (name ++ str ": " ++ lower request.method ++ str " " ++ request.path)
    else if eqb name (str "(created)") || eqb name (str "(expires)")
    then none
    else bind? (header request name) (λ value. some (name ++ str ": " ++ trim value))

-- The loop; the flag is `idx > 0`.
unfoldable pub add_lines : WebhookRequest → List Bytes → Bool → Bytes → Option Bytes
add_lines request [] later out = some out
add_lines request (name ∷ names) later out =
    bind? (signing_line request name)
      (λ line. add_lines request names true ((if later then out ++ 10 ∷ [] else out) ++ line))

unfoldable pub build_signing_string : List Bytes → WebhookRequest → Option Bytes
build_signing_string names request = add_lines request names false []
