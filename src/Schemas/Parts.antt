-- ===== src/Schemas/Parts.antt =====
-- What the template of src/capabilities fills in: a class has a header and a source file.
use Prim.Native.String.{String}
use smartthings4cpp.Base.{List, Bytes, str}
use smartthings4cpp.Capability.{Kind, Field, Command, Schema}

-- A header: `CAPABILITY_ID`, the properties with their types, the methods with the types of their
-- parameters, and `commandNames()`.
pub record Header : Type 0 where
  pub capability_id : Bytes
  pub properties : List Field
  pub methods : List Command
  pub command_names : List Bytes

abbrev pub Class : Type 0
Class = Header × Schema

abbrev pub header : String → List Field → List Command → List Bytes → Header
header id properties methods command_names = record {
  capability_id = str id;
  properties = properties;
  methods = methods;
  command_names = command_names;
}

-- A property of a header.
abbrev pub declare : String → Kind → Field
declare name kind = record { attribute = str name; kind = kind }

-- The source file: the id that the constructor passes on, the lines of `parseStatus`, the commands sent.
abbrev pub schema : String → List Field → List Command → Schema
schema id fields commands = record { id = str id; fields = fields; commands = commands }

-- A line of `parseStatus`.
abbrev pub field : String → Kind → Field
field attribute kind = record { attribute = str attribute; kind = kind }

-- A method of a header, or a command of a source file with the values that it pushes.
abbrev pub command : String → List Kind → Command
command name arguments = record { name = str name; arguments = arguments }
