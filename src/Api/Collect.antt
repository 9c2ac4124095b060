-- ===== src/Api/Collect.antt =====
-- The callbacks `cpl_cb_collect_*` of cpl-standalone/cpl-standalone.cpp, which gather the rows of an
-- iteration in a vector. The context is what the caller's pointer points to; `none` is NULL. A list
-- stands for the vector or the list.
pub mod Laws
use prov_cpl.Prelude.{
  ℕ, ℤ, Text, codes, text_eq, List, [], ◌∷◌, ◌++◌, Bool, Option, none, some, if◌then◌else◌, eq_ℤ,
}
use prov_cpl.Codes.{
  cpl_ok, cpl_e_invalid_argument, stringproperty, numericalproperty, booleanproperty,
}
use prov_cpl.Api.Backend.{ObjectInfo, IdTimestamp, Relation, Property, PrefixEntry}
use prov_cpl.Api.Numbers.{Numbers}

-- How a callback ends: by a code and the context that it leaves, by an exception, or by a cast of the
-- context to a vector of another type, which C++ gives no meaning.
pub data Reply (Ctx : Type 0) : Type 0 where
  replied : ℤ → Ctx → Reply Ctx
  threw undefined : Reply Ctx

-- `if (context == NULL) return CPL_E_INVALID_ARGUMENT;` and `l.push_back(e); return CPL_OK;`
abbrev pub push_back : {E : Type 0} → E → Option (List E) → Reply (Option (List E))
push_back e none = replied cpl_e_invalid_argument none
push_back e (some l) = replied cpl_ok (some (l ++ e ∷ []))

unfoldable pub cpl_cb_collect_object_info_vector :
    ObjectInfo → Option (List ObjectInfo) → Reply (Option (List ObjectInfo))
cpl_cb_collect_object_info_vector info = push_back (record {
  id = info.id;
  creation_time = info.creation_time;
  prefix = info.prefix;
  name = info.name;
  kind = info.kind;
})

unfoldable pub cpl_cb_collect_id_timestamp_vector :
    IdTimestamp → Option (List IdTimestamp) → Reply (Option (List IdTimestamp))
cpl_cb_collect_id_timestamp_vector row =
    push_back (record { id = row.id; timestamp = row.timestamp })

unfoldable pub cpl_cb_collect_relation_list :
    Relation → Option (List Relation) → Reply (Option (List Relation))
cpl_cb_collect_relation_list row = push_back (record {
  id = row.id;
  query_object_id = row.query_object_id;
  other_object_id = row.other_object_id;
  kind = row.kind;
})

unfoldable pub cpl_cb_collect_relation_vector :
    Relation → Option (List Relation) → Reply (Option (List Relation))
cpl_cb_collect_relation_vector row = push_back (record {
  id = row.id;
  query_object_id = row.query_object_id;
  other_object_id = row.other_object_id;
  kind = row.kind;
})

unfoldable pub cpl_cb_collect_prefixes_vector :
    PrefixEntry → Option (List PrefixEntry) → Reply (Option (List PrefixEntry))
cpl_cb_collect_prefixes_vector row =
    push_back (record { id = row.id; prefix = row.prefix; iri = row.iri })

unfoldable pub cpl_cb_collect_property_lookup_vector :
    Property → Option (List ℕ) → Reply (Option (List ℕ))
cpl_cb_collect_property_lookup_vector row = push_back row.id

-- `cplxx_string_property_entry_t` and its two siblings.
pub record PropertyEntry (V : Type 0) : Type 0 where
  pub id : ℕ
  pub prefix : Text
  pub key : Text
  pub value : V

-- The three types of vector that the context of `cpl_cb_collect_properties_vector` may point to.
pub data PropertyVector (Double : Type 0) : Type 0 where
  strings : List (PropertyEntry Text) → PropertyVector Double
  numericals : List (PropertyEntry Double) → PropertyVector Double
  booleans : List (PropertyEntry Bool) → PropertyVector Double

-- With the row's value in place of its text.
abbrev pub valued : {V : Type 0} → Property → V → PropertyEntry V
valued row v = record { id = row.id; prefix = row.prefix; key = row.key; value = v }

module _ {Double : Type 0} where
  -- The last two lines of each case of the `switch`.
  abbrev push_string :
      PropertyEntry Text → PropertyVector Double → Reply (Option (PropertyVector Double))
  push_string e (strings l) = replied cpl_ok (some (strings (l ++ e ∷ [])))
  push_string e (numericals l) = undefined
  push_string e (booleans l) = undefined

  abbrev push_numerical :
      PropertyEntry Double → PropertyVector Double → Reply (Option (PropertyVector Double))
  push_numerical e (strings l) = undefined
  push_numerical e (numericals l) = replied cpl_ok (some (numericals (l ++ e ∷ [])))
  push_numerical e (booleans l) = undefined

  abbrev push_boolean :
      PropertyEntry Bool → PropertyVector Double → Reply (Option (PropertyVector Double))
  push_boolean e (strings l) = undefined
  push_boolean e (numericals l) = undefined
  push_boolean e (booleans l) = replied cpl_ok (some (booleans (l ++ e ∷ [])))

  -- A row of another type is passed over.
  unfoldable pub cpl_cb_collect_properties_vector :
      Numbers Double
      → Property
      → Option (PropertyVector Double)
      → Reply (Option (PropertyVector Double))
  cpl_cb_collect_properties_vector numbers row none = replied cpl_e_invalid_argument none
  cpl_cb_collect_properties_vector numbers row (some vector) =
      if eq_ℤ row.kind stringproperty
      then push_string (valued row row.value) vector
      else if eq_ℤ row.kind numericalproperty
      then elim (numbers.stod row.value) [
        | none ↦ threw
        | some d ↦ push_numerical (valued row d) vector
      ]
      else if eq_ℤ row.kind booleanproperty
      then push_boolean (valued row (text_eq row.value (codes "1"))) vector
      else replied cpl_ok (some vector)
