-- ===== src/Document/Import/Objects.antt =====
-- `import_bundle_prefixes_json` and `import_objects_json` of cpl-standalone/cpl-standalone.cpp.
use prov_cpl.Prelude.{ℤ, ℕ, Text, codes, List, [], ◌∷◌, not, Option, none, some, if◌then◌else◌}
use prov_cpl.Codes.{cpl_ok, cpl_e_internal_error, cpl_e_invalid_json, cpl_e_invalid_argument}
use prov_cpl.Api.Effect.{M, ◌>>=◌, ◌>>◌, pure, early, called, finish}
use prov_cpl.Api.Backend.{Backend}
use prov_cpl.Api.Numbers.{Numbers}
use prov_cpl.Api.Objects.{cpl_create_object}
use prov_cpl.Api.Relations.{cpl_add_prefix}
use prov_cpl.Api.Properties.{
  cpl_add_object_string_property, cpl_add_object_numerical_property,
  cpl_add_object_boolean_property,
}
use prov_cpl.Document.Json.{
  JsonLib, Kind, string, boolean, number_integer, number_unsigned, number_float, is_object,
  is_null_or_nested,
}
use prov_cpl.Document.Tokens.{name_to_tokens}
use prov_cpl.Document.Import.Basics.{
  c_str, LookupTable, emplace, ensure_ok, or_throw, for_each, id_in, local_id,
}

module _ {Db Ctx Json Double : Type 0} (vt : Backend Db Ctx) (numbers : Numbers Double)
    (lib : JsonLib Json Double) where
  -- One entry of "prefix".
  unfoldable pub import_prefix : ℕ → Text × Json → M Db (Unit {0})
  import_prefix bundle (key, val_json) = do
    if is_null_or_nested (lib.kind val_json) then early cpl_e_invalid_json else pure tt
    iri ← or_throw (lib.get_string val_json)
    r ← called tt (cpl_add_prefix vt bundle (some (c_str key)) (some (c_str iri)))
    ensure_ok r.0 cpl_e_internal_error

  unfoldable pub import_bundle_prefixes_json : ℕ → Json → M Db (ℤ × Unit {0})
  unfolding import_prefix
  import_bundle_prefixes_json bundle document = elim (lib.find document (codes "prefix")) [
    | none ↦ finish cpl_ok
    | some prefixes ↦ do
      if not (is_object (lib.kind prefixes)) then early cpl_e_invalid_json else pure tt
      for_each (import_prefix bundle) (lib.items prefixes)
      finish cpl_ok
  ]

  -- The `switch` over the kind of an object's property. The code of the call is not looked at.
  unfoldable pub import_object_value : ℕ → Text × Text → Json → Kind → M Db (Unit {0})
  import_object_value id pair val string = do
    value ← or_throw (lib.get_string val)
    called tt (
        cpl_add_object_string_property vt numbers id (some (c_str pair.0)) (some (c_str pair.1))
          (some (c_str value)))
    pure tt
  import_object_value id pair val boolean = do
    called tt (
        cpl_add_object_boolean_property vt numbers id (some (c_str pair.0)) (some (c_str pair.1))
          (lib.get_bool val))
    pure tt
  import_object_value id pair val number_integer = do
    called tt (
        cpl_add_object_numerical_property vt numbers id (some (c_str pair.0)) (some (c_str pair.1))
          (lib.get_float val))
    pure tt
  import_object_value id pair val number_unsigned = do
    called tt (
        cpl_add_object_numerical_property vt numbers id (some (c_str pair.0)) (some (c_str pair.1))
          (lib.get_float val))
    pure tt
  import_object_value id pair val number_float = do
    called tt (
        cpl_add_object_numerical_property vt numbers id (some (c_str pair.0)) (some (c_str pair.1))
          (lib.get_float val))
    pure tt
  import_object_value id pair val _ = early cpl_e_invalid_argument

  unfoldable pub import_object_property : ℕ → Text × Json → M Db (Unit {0})
  unfolding import_object_value
  import_object_property id (key, val) =
      import_object_value id (name_to_tokens key) val (lib.kind val)

  -- What the loop over the properties of one object meets: `it2.key()` throws at the first value of
  -- anything that is no object.
  abbrev keyed_items : Json → Option (List (Text × Json))
  keyed_items properties =
      if is_object (lib.kind properties)
      then some (lib.items properties)
      else elim (lib.values properties) [ [] ↦ some [] | value ∷ rest ↦ none ]

  -- The loop over the objects of one type, which fills the table.
  unfoldable pub import_objects : ℤ → List (Text × Json) → LookupTable → M Db LookupTable
  unfolding import_object_property
  import_objects kind [] tbl = pure tbl
  import_objects kind ((key, properties) ∷ rest) tbl = do
    let pair = name_to_tokens key
    r ←
        called local_id
          (cpl_create_object vt (some (c_str pair.0)) (some (c_str pair.1)) kind local_id)
    ensure_ok r.0 cpl_e_internal_error
    keyed ← or_throw (keyed_items properties)
    for_each (import_object_property (id_in r.1)) keyed
    import_objects kind rest (emplace key (id_in r.1) tbl)

  unfoldable pub import_objects_json : ℤ → Text → LookupTable → Json → M Db (ℤ × LookupTable)
  unfolding import_objects
  import_objects_json kind kind_str tbl document = elim (lib.find document kind_str) [
    | none ↦ pure (cpl_ok, tbl)
    | some o ↦ do
      if not (is_object (lib.kind o)) then early cpl_e_invalid_json else pure tt
      filled ← import_objects kind (lib.items o) tbl
      pure (cpl_ok, filled)
  ]
