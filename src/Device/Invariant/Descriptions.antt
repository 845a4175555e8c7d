-- ===== src/Device/Invariant/Descriptions.antt =====
-- The description of a device makes it sound.
use smartthings4cpp.Base.{
  Bool, true, false, List, [], ◌∷◌, none, Bytes, str, ◌≡◌, refl, value_or, is_empty, if◌then◌else◌,
  All, All-append,
}
use smartthings4cpp.Base.Int.{ℤ}
use smartthings4cpp.Json
use smartthings4cpp.Json.{JsonLib, IsLawful}
use smartthings4cpp.Capability.{NumberLib, Schema, new_capability}
use smartthings4cpp.Capability.Statuses.{IsExact, new_capability-InSync}
use smartthings4cpp.Device.{Component, Device, add_capability}
use smartthings4cpp.Device.Parsing.{
  add_capabilities, parse_component, parse_components, init_from_json, version_of,
}
use smartthings4cpp.Device.Invariant.{IsWired, IsSound}

module _ {V D : Type 0} (J : JsonLib V) (lawful : IsLawful J) (N : NumberLib V D)
    (schema_of : Bytes → Schema) where
  one_more-IsWired :
      (skipped : Bool) (device_id : Bytes) (attached : Bool) (schema : Schema) (version : ℤ)
      (c : Component V D)
      → IsExact N
      → N.number_of J.null ≡ none
      → All (IsWired J N c.id device_id attached) c.capabilities
      → (let more =
            if skipped
            then c
            else add_capability (new_capability J N schema version c.id device_id attached) c in
          All (IsWired J N more.id device_id attached) more.capabilities)
  unfolding new_capability
  one_more-IsWired true device_id attached schema version c exact no_number h = h
  one_more-IsWired false device_id attached schema version c exact no_number h =
      let made = new_capability J N schema version c.id device_id attached in
      All-append (IsWired J N c.id device_id attached) c.capabilities (made ∷ []) h (
        (
          refl,
          refl,
          refl,
          new_capability-InSync J lawful N schema version c.id device_id attached exact no_number,
        ),
        tt,
      )

  add_capabilities-IsWired :
      (device_id : Bytes) (attached : Bool) (vs : List V) (c : Component V D)
      → IsExact N
      → N.number_of J.null ≡ none
      → All (IsWired J N c.id device_id attached) c.capabilities
      → All
          (IsWired J N
            (add_capabilities J N schema_of device_id attached vs c).id
            device_id
            attached)
          (add_capabilities J N schema_of device_id attached vs c).capabilities
  unfolding add_capabilities
  add_capabilities-IsWired device_id attached [] c exact no_number h = h
  add_capabilities-IsWired device_id attached (v ∷ vs) c exact no_number h =
      let id : Bytes = Json.get_text_or J v (str "id") [] in
      let made =
        new_capability J N (schema_of id) (version_of J N schema_of v) c.id device_id attached in
      add_capabilities-IsWired device_id attached vs
        (if is_empty id then c else add_capability made c) exact no_number
        (one_more-IsWired (is_empty id) device_id attached (schema_of id)
          (version_of J N schema_of v) c exact no_number h)

  parse_components-IsSound :
      (device_id : Bytes) (attached : Bool) (vs : List V)
      → IsExact N
      → N.number_of J.null ≡ none
      → All
          (λ c. All (IsWired J N c.id device_id attached) c.capabilities)
          (parse_components J N schema_of device_id attached vs)
  unfolding parse_components parse_component
  parse_components-IsSound device_id attached [] exact no_number = tt
  parse_components-IsSound device_id attached (v ∷ vs) exact no_number = (
    add_capabilities-IsWired device_id attached
        (value_or (Json.array_member J v (str "capabilities")) []) _ exact no_number tt,
    parse_components-IsSound device_id attached vs exact no_number,
  )

  pub init_from_json-IsSound :
      (json : V) (d : Device V D)
      → IsExact N
      → N.number_of J.null ≡ none
      → IsSound J N (init_from_json J N schema_of json d)
  unfolding init_from_json
  init_from_json-IsSound json d exact no_number =
      parse_components-IsSound _ d.attached
        (value_or (Json.array_member J json (str "components")) []) exact no_number
