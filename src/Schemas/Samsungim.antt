-- ===== src/Schemas/Samsungim.antt =====
-- The classes of src/capabilities/samsungim.cpp and their headers below include/smartthings4cpp/capabilities/samsungim.
use smartthings4cpp.Base.{[], ◌∷◌, str}
use smartthings4cpp.Capability.{Schema, text}
use smartthings4cpp.Schemas.Parts.{Header, header, declare, field, command, schema}

abbrev pub fixed_find_node_header : Header
fixed_find_node_header =
    header "samsungim.fixedFindNode" [] (command "refresh" [] ∷ []) (str "refresh" ∷ [])

abbrev pub fixed_find_node : Schema
fixed_find_node = schema "samsungim.fixedFindNode" [] (command "refresh" [] ∷ [])

abbrev pub hue_sync_mode_header : Header
hue_sync_mode_header = header "samsungim.hueSyncMode" (declare "Mode" text ∷ []) [] []

abbrev pub hue_sync_mode : Schema
hue_sync_mode = schema "samsungim.hueSyncMode" (field "mode" text ∷ []) []
