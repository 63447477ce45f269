-- ===== src/Task/Schema.antt =====
-- crates/nxr-task/src/schema.rs: the fields of a task document that graphs, matrices, plans and
-- selectors read. A JSON number is kept as its printed text.
use nxr.Base.{ℕ, Bool, List, Option, String}

mutual
  pub data JsonValue : Type 0 where
    null : JsonValue
    bool : (flag : Bool) → JsonValue
    number : (text : String) → JsonValue
    string : (text : String) → JsonValue
    array : (items : JsonItems) → JsonValue
    object : (fields : JsonFields) → JsonValue

  pub data JsonItems : Type 0 where
    no_item : JsonItems
    item : (first : JsonValue) → (rest : JsonItems) → JsonItems

  pub data JsonFields : Type 0 where
    no_field : JsonFields
    field : (key : String) → (value : JsonValue) → (rest : JsonFields) → JsonFields

pub record TaskMatrix : Type 0 where
  pub include : List (List (String × JsonValue))

pub record TaskResources : Type 0 where
  pub cpu : Option ℕ
  pub memory : Option String
  pub exclusive : List String

pub record TaskDefinition : Type 0 where
  pub depends_on : List String
  pub app : String
  pub working_directory : Option String
  pub hidden : Bool
  pub category : Option String
  pub aliases : List String
  pub interactive : Bool
  pub paths : List String
  pub resources : Option TaskResources
  pub matrix : Option TaskMatrix

abbrev pub Tasks : Type 0
Tasks = List (String × TaskDefinition)

pub data SchemaError : Type 0 where
  invalid_matrix : (task message : String) → SchemaError
