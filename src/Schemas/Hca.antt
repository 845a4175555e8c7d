-- ===== src/Schemas/Hca.antt =====
-- The classes of src/capabilities/hca.cpp and their headers below include/smartthings4cpp/capabilities/hca.
use smartthings4cpp.Base.{[], ◌∷◌, str}
use smartthings4cpp.Capability.{Schema, text, texts}
use smartthings4cpp.Schemas.Parts.{Header, header, declare, field, command, schema}

abbrev pub washer_mode_header : Header
washer_mode_header =
    header "hca.washerMode" (declare "Mode" text ∷ declare "SupportedModes" texts ∷ [])
      (command "setMode" (text ∷ []) ∷ []) (str "setMode" ∷ [])

abbrev pub washer_mode : Schema
washer_mode =
    schema "hca.washerMode" (field "mode" text ∷ field "supportedModes" texts ∷ [])
      (command "setMode" (text ∷ []) ∷ [])
