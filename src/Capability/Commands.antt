-- ===== src/Capability/Commands.antt =====
-- `buildCommandsBody`, `Capability::executeCommand` and `Capability::refreshStatus` of src/capability.cpp,
-- and the commands of the typed classes: each pushes its arguments and executes the command.
pub mod Bodies
use smartthings4cpp.Base.{
  Bool, true, false, List, [], ◌∷◌, Option, none, some, Bytes, str, if◌then◌else◌, is_some, not,
}
use smartthings4cpp.Base.Dict.{Dict}
use smartthings4cpp.Base.Int.{ℤ}
use smartthings4cpp.Types.{Outcome, done, not_done, invalid_parameter, network_error}
use smartthings4cpp.Json.{JsonLib}
use smartthings4cpp.Http.{Cpr, Wire}
use smartthings4cpp.Storage.Provider.{StorageProvider}
use smartthings4cpp.Client.{Client}
use smartthings4cpp.Client.Sending.{Callback, Meanwhile}
use smartthings4cpp.Client.Api.{execute_commands, get_capability_status}
use smartthings4cpp.Capability.{
  Kind, text, whole, number, boolean, texts, json, Command, Capability, NumberLib, update_status,
}

-- The C++ type of an argument.
abbrev pub Argument : Type 0 → Type 0 → Kind → Type 0
Argument V D text = Bytes
Argument V D whole = ℤ
Argument V D number = D
Argument V D boolean = Bool
Argument V D texts = List Bytes
Argument V D json = V

abbrev pub Arguments : Type 0 → Type 0 → List Kind → Type 0
Arguments V D [] = Unit
Arguments V D (k ∷ kinds) = Argument V D k × Arguments V D kinds

module _ {V : Type 0} (J : JsonLib V) where
  -- The members stand in the order of their keys.
  unfoldable pub command_entry : Bytes → Bytes → Bytes → V → V
  command_entry component capability command arguments = J.object (
      (str "arguments", arguments)
      ∷ (str "capability", J.text capability)
      ∷ (str "command", J.text command)
      ∷ (str "component", J.text component)
      ∷ [])

  unfoldable pub build_commands_body : Bytes → Bytes → Bytes → V → V
  build_commands_body component capability command args =
      let arguments : V = if is_some (J.elements args) then args else J.array [] in
      J.object
        ((str "commands", J.array (command_entry component capability command arguments ∷ [])) ∷ [])

  pub texts_json : List Bytes → List V
  texts_json [] = []
  texts_json (s ∷ ss) = J.text s ∷ texts_json ss

  module _ {D : Type 0} (N : NumberLib V D) where
    pub argument_json : (k : Kind) → Argument V D k → V
    argument_json text s = J.text s
    argument_json whole n = J.integer n
    argument_json number d = N.value d
    argument_json boolean b = J.boolean b
    argument_json texts ss = J.array (texts_json ss)
    argument_json json v = v

    -- The `push_back` of each argument.
    pub arguments_json : (kinds : List Kind) → Arguments V D kinds → List V
    arguments_json [] tt = []
    arguments_json (k ∷ kinds) (a, rest) = argument_json k a ∷ arguments_json kinds rest

    module _ {S : Type 0} (P : StorageProvider S) (meanwhile : Meanwhile)
        (callback : Option (Callback S)) (cpr : Cpr) where
      unfoldable pub execute_command :
          Bytes → V → Capability V D → Client S → Wire → Outcome × Client S × Wire
      execute_command command args cap c wire =
          if not cap.attached
          then (not_done invalid_parameter (str "No client associated with capability"), c, wire)
          else execute_commands J P meanwhile callback cpr cap.device_id
              (build_commands_body cap.component_id cap.schema.id command args) c wire

      -- A command of a typed class.
      pub run_command :
          (command : Command)
          → Arguments V D command.arguments
          → Capability V D
          → Client S
          → Wire
          → Outcome × Client S × Wire
      run_command command arguments cap c wire =
          execute_command command.name (J.array (arguments_json command.arguments arguments)) cap c
            wire

      unfoldable pub refresh_status :
          Capability V D → Client S → Wire → Outcome × Capability V D × Client S × Wire
      refresh_status cap c wire =
          if not cap.attached
          then (
            not_done invalid_parameter (str "No client associated with capability"),
            cap,
            c,
            wire,
          )
          else (let (status, c', wire') =
                get_capability_status J P meanwhile callback cpr cap.device_id cap.component_id
                  cap.schema.id c wire in
              if J.is_null status
              then (
                not_done network_error (str "Failed to fetch capability status"),
                cap,
                c',
                wire',
              )
              else (done, update_status J N status cap, c', wire'))
