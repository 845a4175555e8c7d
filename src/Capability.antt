-- ===== src/Capability.antt =====
-- `Capability` of src/capability.cpp. The typed classes below src/capabilities differ in their id, their
-- attributes and their commands only: a `Schema` holds these, and the classes' members work on it.
pub mod Commands
pub mod Statuses
use smartthings4cpp.Base.{
  ℕ, Bool, true, false, ◌&&◌, not, List, [], ◌∷◌, Option, none, some, Bytes, str, if◌then◌else◌,
  bind?, value_or, is_empty, Try, ok, thrown, is_some,
}
use smartthings4cpp.Base.Dict
use smartthings4cpp.Base.Dict.{Dict}
use smartthings4cpp.Base.Int.{ℤ, pos}
use smartthings4cpp.Json
use smartthings4cpp.Json.{JsonLib}

-- The C++ types of the attributes: `std::string`, `int`, `double`, `bool`, a vector of strings, JSON.
pub data Kind : Type 0 where
  text : Kind
  whole : Kind
  number : Kind
  boolean : Kind
  texts : Kind
  json : Kind

pub record Field : Type 0 where
  pub attribute : Bytes
  pub kind : Kind

-- A command and the types of its arguments.
pub record Command : Type 0 where
  pub name : Bytes
  pub arguments : List Kind

pub record Schema : Type 0 where
  pub id : Bytes
  pub fields : List Field
  pub commands : List Command

-- What the JSON library does with `double`, and the cast of `double` to `int` and back.
pub record NumberLib (V D : Type 0) : Type 0 where
  pub number_of : V → Option D
  pub value : D → V
  pub zero : D
  pub truncate : D → ℤ
  pub widen : ℤ → D

-- A cached attribute.
pub data Value (V D : Type 0) : Type 0 where
  text_value : Bytes → Value V D
  whole_value : ℤ → Value V D
  number_value : D → Value V D
  boolean_value : Bool → Value V D
  texts_value : List Bytes → Value V D
  json_value : V → Value V D

-- `values` are the cached attributes in the order of the fields; `attached` is that `_client` is not null.
pub record Capability (V D : Type 0) : Type 0 where
  pub schema : Schema
  pub version : ℤ
  pub component_id : Bytes
  pub device_id : Bytes
  pub attached : Bool
  pub status : V
  pub values : List (Value V D)

module _ {V : Type 0} (J : JsonLib V) where
  -- `_status[attr]["value"]` where that is there, else null.
  unfoldable pub attribute_value : V → Bytes → V
  attribute_value status attr =
      value_or (bind? (Json.object_member J status attr) (λ a. Json.member J a (str "value")))
        J.null

  unfoldable pub attribute_string : V → Bytes → Bytes → Bytes
  attribute_string status attr def = value_or (J.text_of (attribute_value status attr)) def

  unfoldable pub attribute_bool : V → Bytes → Bool → Bool
  attribute_bool status attr def = value_or (J.boolean_of (attribute_value status attr)) def

  -- The unit beside the value.
  pub attribute_unit : V → Bytes → Bytes → Bytes
  attribute_unit status attr def =
      value_or
        (bind? (Json.object_member J status attr)
          (λ a. bind? (Json.member J a (str "unit")) J.text_of))
        def

  unfoldable pub texts_among : List V → List Bytes
  texts_among [] = []
  texts_among (v ∷ vs) = elim (J.text_of v) [ none ↦ texts_among vs | some s ↦ s ∷ texts_among vs ]

  unfoldable pub attribute_string_array : V → Bytes → List Bytes
  attribute_string_array status attr =
      texts_among (value_or (J.elements (attribute_value status attr)) [])

  module _ {D : Type 0} (N : NumberLib V D) where
    unfoldable pub attribute_number : V → Bytes → D → D
    attribute_number status attr def = value_or (N.number_of (attribute_value status attr)) def

    -- The initial value of a member.
    unfoldable pub initial_value : Kind → Value V D
    initial_value text = text_value []
    initial_value whole = whole_value (pos 0)
    initial_value number = number_value N.zero
    initial_value boolean = boolean_value false
    initial_value texts = texts_value []
    initial_value json = json_value J.null

    unfoldable pub initial_values : List Field → List (Value V D)
    initial_values [] = []
    initial_values (f ∷ fields) = initial_value f.kind ∷ initial_values fields

    -- One line of a `parseStatus`: an attribute that is absent or of another type keeps its value.
    unfoldable pub read_field : V → Bytes → Value V D → Value V D
    read_field status attr (text_value s) = text_value (attribute_string status attr s)
    read_field status attr (whole_value n) =
        whole_value (N.truncate (attribute_number status attr (N.widen n)))
    read_field status attr (number_value d) = number_value (attribute_number status attr d)
    read_field status attr (boolean_value b) = boolean_value (attribute_bool status attr b)
    read_field status attr (texts_value ss) =
        let found = attribute_string_array status attr in
        if is_empty found then texts_value ss else texts_value found
    read_field status attr (json_value v) =
        let found = attribute_value status attr in
        if J.is_null found then json_value v else json_value found

    unfoldable pub read_fields : V → List Field → List (Value V D) → List (Value V D)
    read_fields status [] values = values
    read_fields status (f ∷ fields) [] = []
    read_fields status (f ∷ fields) (v ∷ values) =
        read_field status f.attribute v ∷ read_fields status fields values

    -- The constructor.
    unfoldable pub new_capability : Schema → ℤ → Bytes → Bytes → Bool → Capability V D
    new_capability schema version component_id device_id attached = record {
      schema = schema;
      version = version;
      component_id = component_id;
      device_id = device_id;
      attached = attached;
      status = J.object [];
      values = initial_values schema.fields;
    }

    -- `parseStatus(_status)` behind an assignment to `_status`.
    unfoldable pub with_status : V → Capability V D → Capability V D
    with_status status c = record c {
      status = status;
      values = read_fields status c.schema.fields c.values;
    }

    unfoldable pub update_status : V → Capability V D → Capability V D
    update_status cap_status c =
        if Json.is_object J cap_status then with_status cap_status c else with_status c.status c

    -- `_status[attr]["value"] = value`, where the JSON library throws for an attribute that is neither an
    -- object nor null.
    unfoldable pub set_entry : Option V → V → Try V
    set_entry none value = ok (J.object ((str "value", value) ∷ []))
    set_entry (some entry) value = elim (J.members entry) [
      | some ms ↦ ok (J.object (Dict.insert (str "value") value ms))
      | none ↦
          if J.is_null entry
          then ok (J.object ((str "value", value) ∷ []))
          else thrown (str "cannot use operator[] with a string argument")
    ]

    unfoldable pub set_local_attribute : Bytes → V → Capability V D → Try (Capability V D)
    set_local_attribute attr value c =
        let ms : Dict V = value_or (J.members c.status) [] in
        elim (set_entry (Dict.lookup attr ms) value) [
          | thrown e ↦ thrown e
          | ok entry ↦ ok (with_status (J.object (Dict.insert attr entry ms)) c)
        ]
