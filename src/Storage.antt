-- ===== src/Storage.antt =====
-- `FileStorageProvider` of src/storage.cpp. What the provider keeps is the file: its content, or
-- `none` where it cannot be opened. How the system answers a write is a parameter.
pub mod Values
pub mod Provider
pub mod FileProvider
pub mod Refinement
use smartthings4cpp.Base.{
  Bool, true, false, List, [], ◌∷◌, Option, none, some, Bytes, ok, thrown, is_some,
}
use smartthings4cpp.Base.Dict
use smartthings4cpp.Base.Dict.{Dict}
use smartthings4cpp.Json
use smartthings4cpp.Json.{JsonLib}

-- What the system does when the provider saves: the directories cannot be made or the file cannot be
-- opened; or the file is opened, which empties it, and a text written gives its content and what
-- `file.good()` answers.
pub data System : Type 0 where
  refused : System
  opened : (Bytes → Bytes × Bool) → System

abbrev pub File : Type 0
File = Option Bytes

module _ {V : Type 0} (J : JsonLib V) where
  -- The loop of `load`: string members are kept, others passed over.
  unfoldable pub string_members : Dict V → Dict Bytes → Dict Bytes
  string_members [] values = values
  string_members ((key, v) ∷ rest) values =
      string_members rest (elim (J.text_of v) [ none ↦ values | some s ↦ Dict.insert key s values ])

  unfoldable pub string_values : V → Dict Bytes
  string_values json = elim (J.members json) [ none ↦ [] | some ms ↦ string_members ms [] ]

  unfoldable pub load_content : Bytes → Dict Bytes
  load_content content = elim (Json.parse J content) [
    | thrown _ ↦ []
    | ok json ↦ string_values json
  ]

  unfoldable pub load : File → Dict Bytes
  load none = []
  load (some content) = load_content content

  unfoldable pub json_members : Dict Bytes → Dict V
  json_members [] = []
  json_members ((key, value) ∷ values) = (key, J.text value) ∷ json_members values

  unfoldable pub save : System → Dict Bytes → File → Bool × File
  save refused values file = (false, file)
  save (opened write) values file = elim (J.dump_indented (J.object (json_members values))) [
    | thrown _ ↦ (false, some [])
    | ok s ↦ (let (content, good) = write s in (good, some content))
  ]

  unfoldable pub get_value : Bytes → File → Option Bytes
  get_value key file = Dict.lookup key (load file)

  unfoldable pub set_value : System → Bytes → Bytes → File → Bool × File
  set_value system key value file = save system (Dict.insert key value (load file)) file

  pub remove_value : System → Bytes → File → File
  remove_value system key file = elim (Dict.lookup key (load file)) [
    | none ↦ file
    | some _ ↦ (save system (Dict.erase key (load file)) file).1
  ]
