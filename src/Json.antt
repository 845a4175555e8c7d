-- ===== src/Json.antt =====
-- src/json_utils.cpp and include/smartthings4cpp/json_utils.h over the JSON library, which is a
-- parameter: a type of values and the operations of `nlohmann::json` that the sources call.
use smartthings4cpp.Base.{
  Bool, true, ◌≡◌, List, ◌++◌, Option, none, some, Bytes, str, Try, ok, thrown, is_some, bind?,
  value_or, if◌then◌else◌,
}
use smartthings4cpp.Base.Dict
use smartthings4cpp.Base.Dict.{Dict}
use smartthings4cpp.Base.Int.{ℤ}

pub record JsonLib (V : Type 0) : Type 0 where
  -- `nlohmann::json::parse`, `dump()` and `dump(2)`, with the text of what they throw.
  pub parse : Bytes → Try V
  -- What `parse` throws for a text is a `parse_error`, and not another exception.
  pub is_parse_error : Bytes → Bool
  pub dump : V → Try Bytes
  pub dump_indented : V → Try Bytes
  -- The members of an object, the elements of an array; `none` for any other value.
  pub members : V → Option (Dict V)
  pub elements : V → Option (List V)
  -- `get<std::string>()` and `get<long long>()`; `none` where they throw a type error.
  pub text_of : V → Option Bytes
  pub integer_of : V → Option ℤ
  -- `get<int>()` and `get<bool>()`.
  pub small_integer_of : V → Option ℤ
  pub boolean_of : V → Option Bool
  pub is_null : V → Bool
  -- The values that the sources build.
  pub null : V
  pub text : Bytes → V
  pub boolean : Bool → V
  pub integer : ℤ → V
  pub object : Dict V → V
  pub array : List V → V

-- What the sources rely on: a value built is read back, and a text dumped is parsed to its value.
pub record IsLawful {V : Type 0} (J : JsonLib V) : Type 0 where
  pub members-object : (d : Dict V) → J.members (J.object d) ≡ some d
  pub text_of-text : (s : Bytes) → J.text_of (J.text s) ≡ some s
  pub integer_of-integer : (n : ℤ) → J.integer_of (J.integer n) ≡ some n
  pub elements-array : (vs : List V) → J.elements (J.array vs) ≡ some vs
  -- Null is none of the others.
  pub is_null-null : J.is_null J.null ≡ true
  pub text_of-null : J.text_of J.null ≡ none
  pub boolean_of-null : J.boolean_of J.null ≡ none
  pub elements-null : J.elements J.null ≡ none
  pub parse-dump : (v : V) (s : Bytes) → J.dump v ≡ ok s → J.parse s ≡ ok v
  pub parse-dump_indented : (v : V) (s : Bytes) → J.dump_indented v ≡ ok s → J.parse s ≡ ok v

module _ {V : Type 0} (J : JsonLib V) where
  -- `json_utils::parse`: the exception is wrapped.
  unfoldable pub parse : Bytes → Try V
  parse s = elim (J.parse s) [
    | ok v ↦ ok v
    | thrown e ↦
        if J.is_parse_error s
        then thrown (str "JSON parse error: " ++ e)
        else thrown (str "Unexpected error while parsing JSON: " ++ e)
  ]

  -- `json[key]` of an object that has the key.
  unfoldable pub member : V → Bytes → Option V
  member v key = bind? (J.members v) (Dict.lookup key)

  -- `contains`
  unfoldable pub contains : V → Bytes → Bool
  contains v key = is_some (member v key)

  unfoldable pub is_object : V → Bool
  is_object v = is_some (J.members v)

  -- `contains(key) && json[key].is_object()`, and then the member.
  unfoldable pub object_member : V → Bytes → Option V
  object_member v key = bind? (member v key) (λ w. bind? (J.members w) (λ _. some w))

  -- `contains(key) && json[key].is_array()`, and then its elements.
  unfoldable pub array_member : V → Bytes → Option (List V)
  array_member v key = bind? (member v key) J.elements

  -- `getValue<std::string>` and `getValueOr<std::string>`.
  unfoldable pub get_text : V → Bytes → Option Bytes
  get_text v key = bind? (member v key) J.text_of

  unfoldable pub get_text_or : V → Bytes → Bytes → Bytes
  get_text_or v key default_value = value_or (get_text v key) default_value

  -- `getValueOr<long long>`.
  unfoldable pub get_integer_or : V → Bytes → ℤ → ℤ
  get_integer_or v key default_value = value_or (bind? (member v key) J.integer_of) default_value
