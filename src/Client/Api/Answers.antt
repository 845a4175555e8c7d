-- ===== src/Client/Api/Answers.antt =====
-- What the calls of the API answer.
use smartthings4cpp.Base.{
  true, false, [], ◌++◌, Option, Bytes, str, ◌≡◌, arith, is_empty, ok, Try-cases, inl, inr,
}
use smartthings4cpp.Json.{JsonLib}
use smartthings4cpp.Types.{success, authentication_required}
use smartthings4cpp.Http.{Cpr, Wire, HttpResponse, is_ok}
use smartthings4cpp.Storage.Provider.{StorageProvider}
use smartthings4cpp.Client.{Client, is_authenticated}
use smartthings4cpp.Client.Sending.{Callback, Meanwhile, post_with_auth}
use smartthings4cpp.Client.Api.{
  command_outcome, validate_authentication, get_device_status, get_capability_status,
  execute_commands,
}

command_outcome_success : (r : HttpResponse) → (command_outcome r).error ≡ success → is_ok r ≡ true
unfolding command_outcome
command_outcome_success r h = ground arith

module _ {V : Type 0} (J : JsonLib V) {S : Type 0} (P : StorageProvider S) (meanwhile : Meanwhile)
    (callback : Option (Callback S)) (cpr : Cpr) where
  -- A success of `execute_commands` means that there was a token and a device id, the commands had
  -- a text, and the authenticated POST of that text to the device's commands ended in a status of
  -- 200 to 299.
  pub execute_commands_success :
      (id : Bytes) (commands : V) (c : Client S) (wire : Wire)
      → (execute_commands J P meanwhile callback cpr id commands c wire).0.error ≡ success
      → (is_authenticated c ≡ true)
        × (is_empty id ≡ false)
        × ((body : Bytes) × (J.dump commands ≡ ok body)
            × (is_ok
                  (post_with_auth P meanwhile callback cpr
                    (c.base_url ++ str "/devices/" ++ id ++ str "/commands")
                    body
                    c
                    wire).0
                ≡ true))
  unfolding execute_commands
  execute_commands_success id commands c wire h = elim (Try-cases (J.dump commands)) [
    | inl (body, e) ↦ ground (
      arith,
      e,
      command_outcome_success
          (post_with_auth P meanwhile callback cpr
            (c.base_url ++ str "/devices/" ++ id ++ str "/commands") body c wire).0,
    )
    | inr (what, e) ↦ ground (arith, e)
  ]

  -- Without a token none of the four calls sends a request: the status calls answer `null` and
  -- leave the client as it is, the validation and the commands fail for want of authentication.
  pub signed_out_silent :
      (id component capability : Bytes) (commands : V) (c : Client S) (wire : Wire)
      → c.access_token ≡ []
      → (get_device_status J P meanwhile callback cpr id c wire ≡ (J.null, c, wire))
        × (get_capability_status J P meanwhile callback cpr id component capability c wire
            ≡ (J.null, c, wire))
        × ((validate_authentication J P meanwhile callback cpr c wire).0.error
            ≡ authentication_required)
        × ((validate_authentication J P meanwhile callback cpr c wire).2 ≡ wire)
        × ((execute_commands J P meanwhile callback cpr id commands c wire).0.error
            ≡ authentication_required)
        × ((execute_commands J P meanwhile callback cpr id commands c wire).2 ≡ wire)
  unfolding get_device_status get_capability_status validate_authentication execute_commands
      is_authenticated
  signed_out_silent id component capability commands c wire none_set = ground arith
