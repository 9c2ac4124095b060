-- ===== src/Document/Json.antt =====
-- The JSON library nlohmann::json, which is not part of the repository: its values are a type and
-- its operations the fields of a record. What the code relies on is a record of laws.
pub mod Laws
use prov_cpl.Prelude.{Text, Option, List, Bool, true}

-- `json::value_t`
pub data Kind : Type 0 where
  null object array string boolean number_integer number_unsigned number_float discarded : Kind

pub record JsonLib (Json Double : Type 0) : Type 0 where
  -- `json::parse`; `none` is an exception
  pub parse : Text → Option Json
  -- `value == NULL`, `value.empty()`, `value.type()`
  pub equals_null : Json → Bool
  pub empty : Json → Bool
  pub kind : Json → Kind
  -- the keys and values that an iterator meets, in its order, over an object
  pub items : Json → List (Text × Json)
  -- the values that an iterator meets, over a value of any kind
  pub values : Json → List Json
  -- `value.find(key)`; `none` is `end()`, also for a value that is no object
  pub find : Json → Text → Option Json
  -- `get<std::string>()`; `none` is an exception
  pub get_string : Json → Option Text
  -- `get<float>()` of a number and `get<bool>()` of a boolean
  pub get_float : Json → Double
  pub get_bool : Json → Bool

-- How the exports make a value.
pub record JsonMaker (Json Double : Type 0) : Type 0 where
  -- a value that nothing has been assigned to
  pub unset : Json
  -- the value of a string, of a number and of a truth value
  pub of_string : Text → Json
  pub of_double : Double → Json
  pub of_bool : Bool → Json
  -- `value[key] = entry`; `none` is an exception
  pub assign : Json → Text → Json → Option Json
  -- `value.dump()`; `none` is an exception
  pub dump : Json → Option Text

-- `is_object()`, `is_array()` and `is_null()`
abbrev pub is_object : Kind → Bool
is_object object = true
is_object _ = Bool.false

abbrev pub is_null_or_nested : Kind → Bool
is_null_or_nested null = true
is_null_or_nested object = true
is_null_or_nested array = true
is_null_or_nested _ = Bool.false
