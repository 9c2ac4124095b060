-- ===== src/Document/Import/Relations.antt =====
-- `import_relations_json` of cpl-standalone/cpl-standalone.cpp.
use prov_cpl.Prelude.{ℤ, ℕ, Text, Bool, not, Option, none, some, if◌then◌else◌, ◌&&◌, text_eq}
use prov_cpl.Codes.{
  cpl_ok, cpl_e_internal_error, cpl_e_invalid_json, cpl_e_invalid_argument, bundlerelation,
}
use prov_cpl.Api.Effect.{M, ◌>>=◌, ◌>>◌, pure, early, called, finish}
use prov_cpl.Api.Backend.{Backend}
use prov_cpl.Api.Numbers.{Numbers}
use prov_cpl.Api.Objects.{cpl_lookup_object}
use prov_cpl.Api.Relations.{cpl_add_relation}
use prov_cpl.Api.Properties.{
  cpl_add_relation_string_property, cpl_add_relation_numerical_property,
  cpl_add_relation_boolean_property,
}
use prov_cpl.Document.Json.{
  JsonLib, Kind, string, boolean, number_integer, number_unsigned, number_float, is_object,
}
use prov_cpl.Document.Table.{RelationData, relation_types}
use prov_cpl.Document.Tokens.{name_to_tokens}
use prov_cpl.Document.Import.Basics.{
  c_str, LookupTable, find_id, ensure_ok, or_throw, for_each, id_in, local_id,
}

module _ {Db Ctx Json Double : Type 0} (vt : Backend Db Ctx) (numbers : Numbers Double)
    (lib : JsonLib Json Double) where
  -- An end of a relation: from the table, or, if external objects are allowed, from the database.
  unfoldable pub resolve : LookupTable → Bool → Text → ℤ → M Db ℕ
  resolve tbl extern_obj_f obj_name kind = elim (find_id obj_name tbl) [
    | some id ↦ pure id
    | none ↦
        if extern_obj_f
        then (do
          let pair = name_to_tokens obj_name
          r ←
              called local_id
                (cpl_lookup_object vt (some (c_str pair.0)) (some (c_str pair.1)) kind local_id)
          ensure_ok r.0 cpl_e_internal_error
          pure (id_in r.1))
        else early cpl_e_internal_error
  ]

  unfoldable pub import_relation_value : ℕ → Text × Text → Json → Kind → M Db (Unit {0})
  import_relation_value id pair val string = do
    value ← or_throw (lib.get_string val)
    called tt (
        cpl_add_relation_string_property vt numbers id (some (c_str pair.0)) (some (c_str pair.1))
          (some (c_str value)))
    pure tt
  import_relation_value id pair val boolean = do
    called tt (
        cpl_add_relation_boolean_property vt numbers id (some (c_str pair.0)) (some (c_str pair.1))
          (lib.get_bool val))
    pure tt
  import_relation_value id pair val number_integer = do
    called tt (
        cpl_add_relation_numerical_property vt numbers id (some (c_str pair.0))
          (some (c_str pair.1)) (lib.get_float val))
    pure tt
  import_relation_value id pair val number_unsigned = do
    called tt (
        cpl_add_relation_numerical_property vt numbers id (some (c_str pair.0))
          (some (c_str pair.1)) (lib.get_float val))
    pure tt
  import_relation_value id pair val number_float = do
    called tt (
        cpl_add_relation_numerical_property vt numbers id (some (c_str pair.0))
          (some (c_str pair.1)) (lib.get_float val))
    pure tt
  import_relation_value id pair val _ = early cpl_e_invalid_argument

  -- One property of the relation that stands under `relation_key`: the test compares that key, not the
  -- key of the property, with the names of the two ends.
  unfoldable pub import_relation_property : RelationData → Text → ℕ → Text × Json → M Db (Unit {0})
  unfolding import_relation_value
  import_relation_property entry relation_key id (key, val) =
      if not (text_eq relation_key entry.source_str) && not (text_eq relation_key entry.dest_str)
      then import_relation_value id (name_to_tokens key) val (lib.kind val)
      else pure tt

  abbrev pub or_invalid : {A : Type 0} → Option A → M Db A
  or_invalid none = early cpl_e_invalid_json
  or_invalid (some a) = pure a

  unfoldable pub import_relation :
      ℕ → LookupTable → Bool → RelationData → Text × Json → M Db (Unit {0})
  unfolding resolve import_relation_property
  import_relation bundle_id tbl extern_obj_f entry (key, val) = do
    source_check ← or_invalid (lib.find val entry.source_str)
    source_name ← or_throw (lib.get_string source_check)
    source ← resolve tbl extern_obj_f source_name entry.source_t
    dest_check ← or_invalid (lib.find val entry.dest_str)
    dest_name ← or_throw (lib.get_string dest_check)
    dest ← resolve tbl extern_obj_f dest_name entry.dest_t
    made ← called local_id (cpl_add_relation vt source dest entry.kind local_id)
    ensure_ok made.0 cpl_e_internal_error
    bundled ← called none (cpl_add_relation vt bundle_id (id_in made.1) bundlerelation none)
    ensure_ok bundled.0 cpl_e_internal_error
    for_each (import_relation_property entry key (id_in made.1)) (lib.items val)

  -- The relations of one type.
  unfoldable pub import_relation_type :
      ℕ → LookupTable → Json → Bool → RelationData → M Db (Unit {0})
  unfolding import_relation
  import_relation_type bundle_id tbl document extern_obj_f entry =
      elim (lib.find document entry.kind_str) [
        | none ↦ pure tt
        | some relations ↦ do
          if not (is_object (lib.kind relations)) then early cpl_e_invalid_json else pure tt
          for_each (import_relation bundle_id tbl extern_obj_f entry) (lib.items relations)
      ]

  unfoldable pub import_relations_json : ℕ → LookupTable → Json → Bool → M Db (ℤ × Unit {0})
  unfolding import_relation_type
  import_relations_json bundle_id tbl document extern_obj_f = do
    for_each (import_relation_type bundle_id tbl document extern_obj_f) relation_types
    finish cpl_ok
