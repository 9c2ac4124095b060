-- ===== src/Document/Import.antt =====
-- `import_document_json` of cpl-standalone/cpl-standalone.cpp. It runs on the public calls: a call's
-- failure is looked at by its code alone.
pub mod Basics
pub mod Objects
pub mod Relations
pub mod Laws
use prov_cpl.Prelude.{
  ℤ, ℕ, ◌==◌, Text, codes, List, [], ◌∷◌, Bool, true, false, not, Option, none, some, if◌then◌else◌,
  ◌||◌, ◌&&◌, text_eq, eq_ℤ, pos,
}
use prov_cpl.Codes.{
  cpl_none, cpl_ok, cpl_is_ok, cpl_e_internal_error, cpl_e_invalid_json, cpl_e_invalid_argument,
  cpl_entity, cpl_agent, cpl_activity, cpl_bundle, alternateof, bundlerelation,
}
use prov_cpl.Api.Effect.{
  State, Exit, returned, thrown, Step, go, stop, M, ◌>>=◌, ◌>>◌, continue, pure, early, called,
  refuse_if, finish, store,
}
use prov_cpl.Api.Backend.{Backend}
use prov_cpl.Api.Numbers.{Numbers}
use prov_cpl.Api.Objects.{cpl_create_object, cpl_lookup_object}
use prov_cpl.Api.Relations.{cpl_add_relation, cpl_add_prefix}
use prov_cpl.Api.Properties.{
  cpl_add_object_string_property, cpl_add_object_numerical_property,
  cpl_add_object_boolean_property, cpl_add_relation_string_property,
  cpl_add_relation_numerical_property, cpl_add_relation_boolean_property,
}
use prov_cpl.Document.Json.{
  JsonLib, Kind, null, object, array, string, boolean, number_integer, number_unsigned,
  number_float, discarded, is_object, is_null_or_nested,
}
use prov_cpl.Document.Table.{RelationData, relation_types}
use prov_cpl.Document.Tokens.{name_to_tokens}
use prov_cpl.Document.Import.Basics.{
  c_str, LookupTable, find_id, emplace, ensure_ok, or_throw, for_each, id_in, local_id,
}
use prov_cpl.Document.Import.Objects.{import_bundle_prefixes_json, import_objects_json}
use prov_cpl.Document.Import.Relations.{import_relations_json}

module _ {Db Ctx Json Double : Type 0} (vt : Backend Db Ctx) (numbers : Numbers Double)
    (lib : JsonLib Json Double) where
  -- One anchor: an object that is known under the name in the document becomes an alternate of it; an
  -- unknown name is passed over.
  unfoldable pub connect_anchor : ℕ → ℕ × Text → M Db (Unit {0})
  connect_anchor bundle_id (anchor, name) = do
    let pair = name_to_tokens name
    found ←
        called local_id
          (cpl_lookup_object vt (some (c_str pair.0)) (some (c_str pair.1)) (pos 0) local_id)
    if not (cpl_is_ok found.0) then pure tt else do
      made ← called local_id (cpl_add_relation vt (id_in found.1) anchor alternateof local_id)
      ensure_ok made.0 cpl_e_internal_error
      bundled ← called none (cpl_add_relation vt bundle_id (id_in made.1) bundlerelation none)
      ensure_ok bundled.0 cpl_e_internal_error

  -- After the checks of the document. Every failure goes to the label `error`.
  unfoldable pub import_parsed :
      Json → Text → List (ℕ × Text) → Bool → Option ℕ → M Db (ℤ × Option ℕ)
  unfolding import_bundle_prefixes_json import_objects_json import_relations_json connect_anchor
      for_each
  import_parsed document bundle_name anchor_objects extern_obj_f out_id = do
    bundle ←
        called local_id
          (cpl_create_object vt (some (c_str bundle_name)) (some []) cpl_bundle local_id)
    ensure_ok bundle.0 cpl_e_internal_error
    prefixes ← called tt (import_bundle_prefixes_json vt numbers lib (id_in bundle.1) document)
    ensure_ok prefixes.0 cpl_e_internal_error
    entities ←
        called [] (import_objects_json vt numbers lib cpl_entity (codes "entity") [] document)
    ensure_ok entities.0 cpl_e_internal_error
    agents ←
        called [] (import_objects_json vt numbers lib cpl_agent (codes "agent") entities.1 document)
    ensure_ok agents.0 cpl_e_internal_error
    activities ←
        called []
          (import_objects_json vt numbers lib cpl_activity (codes "activity") agents.1 document)
    ensure_ok activities.0 cpl_e_internal_error
    for_each (connect_anchor (id_in bundle.1)) anchor_objects
    relations ←
        called tt
          (import_relations_json vt numbers lib (id_in bundle.1) activities.1 document extern_obj_f)
    ensure_ok relations.0 cpl_e_internal_error
    pure (cpl_ok, store out_id (id_in bundle.1))

  -- `flags && CPL_J_EXTERN_OBJ` is a logical "and": any flag that is not zero lets external objects in.
  unfoldable pub import_document_json :
      Text → Text → List (ℕ × Text) → ℤ → Option ℕ → M Db (ℤ × Option ℕ)
  unfolding import_parsed
  import_document_json json_string bundle_name anchor_objects flags out_id = do
    document ← or_throw (lib.parse json_string)
    if lib.equals_null document || lib.empty document then early cpl_e_internal_error else pure tt
    if not (is_object (lib.kind document)) then early cpl_e_invalid_json else pure tt
    import_parsed document bundle_name anchor_objects (not (eq_ℤ flags (pos 0))) out_id
