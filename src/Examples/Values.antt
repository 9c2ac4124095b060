-- ===== src/Examples/Values.antt =====
-- A stand-in for the JSON library: a document as a chain of assignments.
use prov_cpl.Prelude.{
  ℕ, Text, codes, [], Bool, false, Option, none, some, if◌then◌else◌, ◌≡◌, refl, text_eq, arith,
}
use prov_cpl.Document.Json.{JsonLib, JsonMaker, Kind, null, object, string, number_float, boolean}
use prov_cpl.Document.Json.Laws.{Assigns, IsContainer}

-- A document as a chain of assignments, the last one first.
pub data Value : Type 0 where
  nothing : Value
  text : Text → Value
  number : ℕ → Value
  flag : Bool → Value
  with_field : Text → Value → Value → Value

abbrev value_kind : Value → Kind
value_kind nothing = null
value_kind (text t) = string
value_kind (number n) = number_float
value_kind (flag b) = boolean
value_kind (with_field k v rest) = object

abbrev value_find : Value → Text → Option Value
value_find (with_field k v rest) key = if text_eq k key then some v else value_find rest key
value_find _ key = none

abbrev value_assign : Value → Text → Value → Option Value
value_assign nothing k v = some (with_field k v nothing)
value_assign (with_field j u rest) k v = some (with_field k v (with_field j u rest))
value_assign _ k v = none

abbrev pub value_lib : JsonLib Value ℕ
value_lib = record {
  parse = λ t. some (text t);
  equals_null = λ j. false;
  empty = λ j. false;
  kind = value_kind;
  items = λ j. [];
  values = λ j. [];
  find = value_find;
  get_string = λ j. none;
  get_float = λ j. 0;
  get_bool = λ j. false;
}

abbrev pub value_maker : JsonMaker Value ℕ
value_maker = record {
  unset = nothing;
  of_string = text;
  of_double = number;
  of_bool = flag;
  assign = value_assign;
  dump = λ j. some (codes "{}");
}

value_assigns :
    (j : Value) (key : Text) (v : Value)
    → IsContainer value_lib value_maker j
    → (j' : Value) × (value_assign j key v ≡ some j')
value_assigns nothing key v h = (with_field key v nothing, refl)
value_assigns (with_field k u rest) key v h = (with_field key v (with_field k u rest), refl)
value_assigns (text t) key v h = absurd (ground arith)
value_assigns (number n) key v h = absurd (ground arith)
value_assigns (flag b) key v h = absurd (ground arith)

value_makes_object :
    (j : Value) (key : Text) (v j' : Value)
    → value_assign j key v ≡ some j'
    → value_kind j' ≡ object
value_makes_object nothing key v j' e = ground arith
value_makes_object (with_field k u rest) key v j' e = ground arith
value_makes_object (text t) key v j' e = absurd (ground arith)
value_makes_object (number n) key v j' e = absurd (ground arith)
value_makes_object (flag b) key v j' e = absurd (ground arith)

value_find_assign :
    (j : Value) (key : Text) (v j' : Value) (other : Text)
    → value_assign j key v ≡ some j'
    → value_find j' other ≡ (if text_eq key other then some v else value_find j other)
value_find_assign nothing key v j' other e = ground arith
value_find_assign (with_field k u rest) key v j' other e = ground arith
value_find_assign (text t) key v j' other e = absurd (ground arith)
value_find_assign (number n) key v j' other e = absurd (ground arith)
value_find_assign (flag b) key v j' other e = absurd (ground arith)

pub value_laws : Assigns value_lib value_maker
value_laws = record {
  unset_null = refl;
  find_unset = λ key. refl;
  assigns = value_assigns;
  makes_object = value_makes_object;
  find_assign = value_find_assign;
}
