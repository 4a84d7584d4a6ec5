-- ===== src/Json.antt =====
-- The values of JSON, as `JSON.parse` gives them. A number is counted in a unit that its reader
-- chooses: flags are whole numbers, and the numbers of an event are millionths.
use cloud_mesh.Common.{ℕ, String, Bool, Option, none, some, str_eq, if◌then◌else◌}

-- An object's fields are a type of their own, and no name stands twice among them.
mutual
  pub data JsonValue : Type 0 where
    null : JsonValue
    boolean : Bool → JsonValue
    number : ℕ → JsonValue
    negative : JsonValue
    text : String → JsonValue
    array : JsonValue
    object : Fields → JsonValue

  pub data Fields : Type 0 where
    no_fields : Fields
    field : String → JsonValue → Fields → Fields

-- A field that the reader takes to be `null` if it is missing.
abbrev pub get_field : String → Fields → JsonValue
get_field name no_fields = null
get_field name (field key value more) = if str_eq key name then value else get_field name more

abbrev pub find_field : String → Fields → Option JsonValue
find_field name no_fields = none
find_field name (field key value more) =
    if str_eq key name then some value else find_field name more
