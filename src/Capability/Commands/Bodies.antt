-- ===== src/Capability/Commands/Bodies.antt =====
-- What a command sends.
use smartthings4cpp.Base.{
  true, false, List, [], ◌∷◌, ◌++◌, Option, some, Bytes, str, ◌≡◌, refl, arith, eqb, is_empty, ok,
  inl, inr, Bool-cases,
}
use smartthings4cpp.Base.Dict
use smartthings4cpp.Types.{success}
use smartthings4cpp.Json
use smartthings4cpp.Json.{JsonLib, IsLawful}
use smartthings4cpp.Http.{Cpr, Wire, is_ok}
use smartthings4cpp.Storage.Provider.{StorageProvider}
use smartthings4cpp.Client.{Client, is_authenticated}
use smartthings4cpp.Client.Sending.{Callback, Meanwhile, post_with_auth}
use smartthings4cpp.Client.Api.Answers.{execute_commands_success}
use smartthings4cpp.Capability.{Command, Capability, NumberLib}
use smartthings4cpp.Capability.Commands.{
  Arguments, command_entry, build_commands_body, arguments_json, execute_command, run_command,
}

module _ {V : Type 0} (J : JsonLib V) where
  -- A value is a request for one command of one capability.
  abbrev pub Requests : Bytes → Bytes → Bytes → List V → V → Type 0
  Requests component capability command arguments v =
      (entry : V) × (Json.array_member J v (str "commands") ≡ some (entry ∷ []))
      × (Json.get_text J entry (str "component") ≡ some component)
      × (Json.get_text J entry (str "capability") ≡ some capability)
      × (Json.get_text J entry (str "command") ≡ some command)
      × (Json.array_member J entry (str "arguments") ≡ some arguments)

module _ {V : Type 0} (J : JsonLib V) (lawful : IsLawful J) where
  parse-dump : (v : V) (body : Bytes) → J.dump v ≡ ok body → Json.parse J body ≡ ok v
  unfolding Json.parse
  parse-dump v body e = rw (lawful.parse-dump v body e, Json.parse)

  get_text-object :
      (d : Dict.Dict V) (key s : Bytes)
      → Dict.lookup key d ≡ some (J.text s)
      → Json.get_text J (J.object d) key ≡ some s
  unfolding Json.get_text Json.member
  get_text-object d key s e = rw (lawful.members-object d) (rw e (lawful.text_of-text s))

  array_member-object :
      (d : Dict.Dict V) (key : Bytes) (vs : List V)
      → Dict.lookup key d ≡ some (J.array vs)
      → Json.array_member J (J.object d) key ≡ some vs
  unfolding Json.array_member Json.member
  array_member-object d key vs e = rw (lawful.members-object d) (rw e (lawful.elements-array vs))

  build_commands_body-Requests :
      (component capability command : Bytes) (arguments : List V)
      → Requests J component capability command arguments
          (build_commands_body J component capability command (J.array arguments))
  unfolding build_commands_body command_entry Dict.lookup str eqb
  build_commands_body-Requests component capability command arguments = (
    command_entry J component capability command (J.array arguments),
    array_member-object _ (str "commands") _ (rw (lawful.elements-array arguments) refl),
    get_text-object _ (str "component") component refl,
    get_text-object _ (str "capability") capability refl,
    get_text-object _ (str "command") command refl,
    array_member-object _ (str "arguments") arguments refl,
  )

module _ {V D : Type 0} (J : JsonLib V) (lawful : IsLawful J) (N : NumberLib V D) {S : Type 0}
    (P : StorageProvider S) (meanwhile : Meanwhile) (callback : Option (Callback S))
    (cpr : Cpr) where
  -- A success of a command of a typed class means that there was a client with a token and a device id, and
  -- that the POST to the device's commands was answered with a status of 200 to 299; the text sent parses to
  -- the request of that one command, for the capability's id on its component, with the arguments in order.
  pub run_command_success :
      (command : Command) (arguments : Arguments V D command.arguments) (cap : Capability V D)
      (c : Client S) (wire : Wire)
      → (run_command J N P meanwhile callback cpr command arguments cap c wire).0.error ≡ success
      → (cap.attached ≡ true)
        × (is_authenticated c ≡ true)
        × (is_empty cap.device_id ≡ false)
        × ((body : Bytes) × (v : V) × (Json.parse J body ≡ ok v)
            × Requests J cap.component_id cap.schema.id command.name
                (arguments_json J N command.arguments arguments)
                v
            × (is_ok
                  (post_with_auth P meanwhile callback cpr
                    (c.base_url ++ str "/devices/" ++ cap.device_id ++ str "/commands")
                    body
                    c
                    wire).0
                ≡ true))
  unfolding run_command execute_command
  run_command_success command arguments cap c wire h =
      let args = arguments_json J N command.arguments arguments in
      let v : V =
        build_commands_body J cap.component_id cap.schema.id command.name (J.array args) in
      elim (Bool-cases cap.attached) [
        | inr n ↦ absurd (ground (arith, n, h))
        | inl t ↦
            let (signed_in, given, (body, dumped, answered)) =
              execute_commands_success J P meanwhile callback cpr cap.device_id v c wire
                (ground (arith, t, h)) in
            (
              t,
              signed_in,
              given,
              (
                body,
                v,
                parse-dump J lawful v body dumped,
                build_commands_body-Requests J lawful cap.component_id cap.schema.id command.name
                    args,
                answered,
              ),
            )
      ]
