-- ===== src/Device/Parsing.antt =====
-- `Device::initFromJson` of src/device.cpp.
use smartthings4cpp.Base.{Bool, List, [], ◌∷◌, Bytes, str, if◌then◌else◌, bind?, value_or, is_empty}
use smartthings4cpp.Base.Int.{ℤ, pos}
use smartthings4cpp.Json
use smartthings4cpp.Json.{JsonLib}
use smartthings4cpp.Capability.{NumberLib, Schema, new_capability}
use smartthings4cpp.Device.{Category, Component, Device, add_capability}

module _ {V D : Type 0} (J : JsonLib V) (N : NumberLib V D) (schema_of : Bytes → Schema) where
  pub parse_categories : List V → List Category
  parse_categories [] = []
  parse_categories (v ∷ vs) =
      let rest = parse_categories vs in
      let category : Category = record {
        name = Json.get_text_or J v (str "name") [];
        category_type = Json.get_text_or J v (str "categoryType") [];
      } in
      if is_empty category.name then rest else category ∷ rest

  -- `getValueOr<int>(json, "version", 1)`
  pub version_of : V → ℤ
  version_of v = value_or (bind? (Json.member J v (str "version")) J.small_integer_of) (pos 1)

  -- The loop over the capabilities of one component, in the order of the source.
  unfoldable pub add_capabilities : Bytes → Bool → List V → Component V D → Component V D
  add_capabilities device_id attached [] component = component
  add_capabilities device_id attached (v ∷ vs) component =
      let id : Bytes = Json.get_text_or J v (str "id") [] in
      add_capabilities device_id attached vs (
        if is_empty id
        then component
        else add_capability
            (new_capability J N (schema_of id) (version_of v) component.id device_id attached)
            component)

  unfoldable pub parse_component : Bytes → Bool → V → Component V D
  parse_component device_id attached v =
      add_capabilities device_id attached (value_or (Json.array_member J v (str "capabilities")) [])
        (record {
          id = Json.get_text_or J v (str "id") [];
          label = Json.get_text_or J v (str "label") [];
          capabilities = [];
          categories = parse_categories (value_or (Json.array_member J v (str "categories")) []);
        })

  unfoldable pub parse_components : Bytes → Bool → List V → List (Component V D)
  parse_components device_id attached [] = []
  parse_components device_id attached (v ∷ vs) =
      parse_component device_id attached v ∷ parse_components device_id attached vs

  -- A label that is empty is replaced by the name, an id that is empty is not taken.
  unfoldable pub init_from_json : V → Device V D → Device V D
  init_from_json json device =
      let given : Bytes = Json.get_text_or J json (str "deviceId") device.id in
      let id : Bytes = if is_empty given then device.id else given in
      let name : Bytes = Json.get_text_or J json (str "name") [] in
      let label : Bytes = Json.get_text_or J json (str "label") [] in
      record {
        id = id;
        attached = device.attached;
        name = name;
        label = if is_empty label then name else label;
        manufacturer_name = Json.get_text_or J json (str "manufacturerName") [];
        type_name = Json.get_text_or J json (str "type") [];
        location_id = Json.get_text_or J json (str "locationId") [];
        room_id = Json.get_text_or J json (str "roomId") [];
        presentation_id = Json.get_text_or J json (str "presentationId") [];
        components =
            parse_components id device.attached
              (value_or (Json.array_member J json (str "components")) []);
        refreshed = device.refreshed;
      }
