-- ===== src/Schemas/Factory.antt =====
-- `createStandardCapability`, `createProprietaryCapability` and `createCapability` of src/capability.cpp
-- and src/capabilities: which class an id gets.
use smartthings4cpp.Base.{
  List, [], ◌∷◌, Option, none, some, Bytes, eqb, if◌then◌else◌, or_else, value_or,
}
use smartthings4cpp.Capability.{Schema}
use smartthings4cpp.Schemas.Parts.{Class}
use smartthings4cpp.Schemas.StandardTable.{standard_classes}
use smartthings4cpp.Schemas.ProprietaryTable.{proprietary_classes}

-- The chain of tests of a factory.
unfoldable pub create_from : List Class → Bytes → Option Schema
create_from [] id = none
create_from ((header, schema) ∷ classes) id =
    if eqb id header.capability_id then some schema else create_from classes id

abbrev pub unknown_capability : Bytes → Schema
unknown_capability id = record { id = id; fields = []; commands = [] }

unfoldable pub create_capability : Bytes → Schema
create_capability id =
    value_or (or_else (create_from standard_classes id) (create_from proprietary_classes id))
      (unknown_capability id)
