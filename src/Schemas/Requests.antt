-- ===== src/Schemas/Requests.antt =====
-- What a capability that the factories create sends.
use smartthings4cpp.Base.{
  true, false, List, [], ◌∷◌, ◌++◌, Option, Bytes, str, ◌≡◌, ap, ◌∙◌, arith, is_empty,
}
use smartthings4cpp.Json.{JsonLib, IsLawful}
use smartthings4cpp.Http.{Cpr, Wire}
use smartthings4cpp.Storage.Provider.{StorageProvider}
use smartthings4cpp.Client.{Client, is_authenticated}
use smartthings4cpp.Client.Sending.{Callback, Meanwhile, get_with_auth}
use smartthings4cpp.Client.Api.{execute_commands, get_capability_status}
use smartthings4cpp.Capability.{Capability, NumberLib}
use smartthings4cpp.Capability.Commands.{
  build_commands_body, command_entry, execute_command, refresh_status,
}
use smartthings4cpp.Schemas.Factory.{create_capability}
use smartthings4cpp.Schemas.Agreement.{create_capability-id}

module _ {V D : Type 0} (J : JsonLib V) (N : NumberLib V D) {S : Type 0} (P : StorageProvider S)
    (meanwhile : Meanwhile) (callback : Option (Callback S)) (cpr : Cpr) where
  -- Whatever the id, a capability that is created for it and belongs to a client names that id in what it
  -- sends, between its device and its component: a command with an array of arguments is executed as one
  -- command of that capability and component on that device, and a refresh fetches the status from the
  -- URL of that device, component and capability, where the client is signed in and none of the three
  -- ids is empty. The JSON library is lawful.
  pub created_capability_requests :
      (lawful : IsLawful J) (id command : Bytes) (args : List V) (cap : Capability V D)
      (c : Client S) (wire : Wire)
      → cap.schema ≡ create_capability id
      → cap.attached ≡ true
      → is_authenticated c ≡ true
      → is_empty cap.device_id ≡ false
      → is_empty cap.component_id ≡ false
      → is_empty id ≡ false
      → let refreshed = refresh_status J N P meanwhile callback cpr cap c wire in
        let fetched =
          get_with_auth P meanwhile callback cpr
            (c.base_url
              ++ str "/devices/"
              ++ cap.device_id
              ++ str "/components/"
              ++ cap.component_id
              ++ str "/capabilities/"
              ++ id
              ++ str "/status")
            c
            wire in
        (execute_command J N P meanwhile callback cpr command (J.array args) cap c wire
          ≡ execute_commands J P meanwhile callback cpr cap.device_id
              (J.object (
                (
                  str "commands",
                  J.array (
                      J.object (
                        (str "arguments", J.array args)
                        ∷ (str "capability", J.text id)
                        ∷ (str "command", J.text command)
                        ∷ (str "component", J.text cap.component_id)
                        ∷ [])
                      ∷ []),
                )
                ∷ []))
              c
              wire)
        × (refreshed.2 ≡ fetched.1)
        × (refreshed.3 ≡ fetched.2)
  unfolding execute_command build_commands_body command_entry refresh_status get_capability_status
  created_capability_requests lawful id command args cap c wire made attached signed_in d m i =
      let named : cap.schema.id ≡ id = ap (λ s. s.id) made ∙ create_capability-id id in
      (
        ground (arith, attached, named, lawful.elements-array args),
        ground (arith, attached, named, signed_in, d, m, i),
        ground (arith, attached, named, signed_in, d, m, i),
      )
