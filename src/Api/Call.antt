-- ===== src/Api/Call.antt =====
-- The public calls as data, so that a statement can range over all of them. `cpl_attach` and
-- `cpl_detach`, which change what the others rest on, are in `Api/Lifecycle`.
use prov_cpl.Prelude.{ℤ, ℕ, Option, Text, Bool}
use prov_cpl.Api.Effect.{State, Exit, Step, ending}
use prov_cpl.Api.Backend.{
  Backend, Iterator, ObjectInfo, SessionInfo, IdTimestamp, Relation, Property, PrefixEntry,
}
use prov_cpl.Api.Numbers.{Numbers}
use prov_cpl.Api.Objects.{
  cpl_create_object, cpl_lookup_object, cpl_lookup_object_ext, cpl_lookup_or_create_object,
  create_if_missing,
}
use prov_cpl.Api.Relations.{
  cpl_add_relation, cpl_lookup_relation, cpl_get_object_relations, cpl_add_prefix, cpl_get_prefixes,
}
use prov_cpl.Api.Access.{
  cpl_lookup_object_property_wildcard, cpl_get_current_session, cpl_get_session_info,
  cpl_get_all_objects, cpl_get_object_info, cpl_get_bundle_objects, cpl_get_bundle_relations,
}
use prov_cpl.Api.Properties.{
  cpl_add_object_string_property, cpl_add_object_numerical_property,
  cpl_add_object_boolean_property, cpl_add_relation_string_property,
  cpl_add_relation_numerical_property, cpl_add_relation_boolean_property,
  cpl_lookup_object_by_string_property, cpl_lookup_object_by_numerical_property,
  cpl_lookup_object_by_boolean_property, cpl_get_object_string_properties,
  cpl_get_object_numerical_properties, cpl_get_object_boolean_properties,
  cpl_get_relation_string_properties, cpl_get_relation_numerical_properties,
  cpl_get_relation_boolean_properties,
}

pub data Call (Ctx Double : Type 0) : Type 0 where
  create_object : Option Text → Option Text → ℤ → Option ℕ → Call Ctx Double
  lookup_object : Option Text → Option Text → ℤ → Option ℕ → Call Ctx Double
  lookup_object_ext :
      Option Text → Option Text → ℤ → ℤ → Option (Iterator IdTimestamp Ctx) → Ctx → Call Ctx Double
  lookup_or_create_object : Option Text → Option Text → ℤ → Option ℕ → Call Ctx Double
  add_object_string_property : ℕ → Option Text → Option Text → Option Text → Call Ctx Double
  add_object_numerical_property : ℕ → Option Text → Option Text → Double → Call Ctx Double
  add_object_boolean_property : ℕ → Option Text → Option Text → Bool → Call Ctx Double
  add_relation_string_property : ℕ → Option Text → Option Text → Option Text → Call Ctx Double
  add_relation_numerical_property : ℕ → Option Text → Option Text → Double → Call Ctx Double
  add_relation_boolean_property : ℕ → Option Text → Option Text → Bool → Call Ctx Double
  add_relation : ℕ → ℕ → ℤ → Option ℕ → Call Ctx Double
  lookup_relation : ℕ → ℕ → ℤ → Option ℕ → Call Ctx Double
  get_object_relations : ℕ → ℤ → ℤ → Option (Iterator Relation Ctx) → Ctx → Call Ctx Double
  add_prefix : ℕ → Option Text → Option Text → Call Ctx Double
  get_prefixes : ℕ → Option Text → Option (Iterator PrefixEntry Ctx) → Ctx → Call Ctx Double
  lookup_object_property_wildcard : Option Text → Option ℕ → Call Ctx Double
  get_current_session : Option ℕ → Call Ctx Double
  get_session_info : ℕ → Option (Option SessionInfo) → Call Ctx Double
  get_all_objects : Option Text → ℤ → ℤ → Option (Iterator ObjectInfo Ctx) → Ctx → Call Ctx Double
  get_object_info : ℕ → Option (Option ObjectInfo) → Call Ctx Double
  get_bundle_objects : ℕ → Option (Iterator ObjectInfo Ctx) → Ctx → Call Ctx Double
  get_bundle_relations : ℕ → Option (Iterator Relation Ctx) → Ctx → Call Ctx Double
  lookup_object_by_string_property :
      Option Text
      → Option Text
      → Option Text
      → Option (Iterator Property Ctx)
      → Ctx
      → Call Ctx Double
  lookup_object_by_numerical_property :
      Option Text → Option Text → Double → Option (Iterator Property Ctx) → Ctx → Call Ctx Double
  lookup_object_by_boolean_property :
      Option Text → Option Text → Bool → Option (Iterator Property Ctx) → Ctx → Call Ctx Double
  get_object_string_properties :
      ℕ → Option Text → Option Text → Option (Iterator Property Ctx) → Ctx → Call Ctx Double
  get_object_numerical_properties :
      ℕ → Option Text → Option Text → Option (Iterator Property Ctx) → Ctx → Call Ctx Double
  get_object_boolean_properties :
      ℕ → Option Text → Option Text → Option (Iterator Property Ctx) → Ctx → Call Ctx Double
  get_relation_string_properties :
      ℕ → Option Text → Option Text → Option (Iterator Property Ctx) → Ctx → Call Ctx Double
  get_relation_numerical_properties :
      ℕ → Option Text → Option Text → Option (Iterator Property Ctx) → Ctx → Call Ctx Double
  get_relation_boolean_properties :
      ℕ → Option Text → Option Text → Option (Iterator Property Ctx) → Ctx → Call Ctx Double

-- What can be seen of a call whatever its cells hold: how it ends, and the state that it leaves.
abbrev pub observe : {Db O : Type 0} → Step (ℤ × O) × State Db → Exit × State Db
observe (r, s) = (ending r, s)

module _ {Db Ctx Double : Type 0} (vt : Backend Db Ctx) (numbers : Numbers Double) where
  unfoldable pub perform : Call Ctx Double → State Db → Exit × State Db
  unfolding cpl_create_object cpl_lookup_object cpl_lookup_object_ext cpl_lookup_or_create_object
      create_if_missing cpl_add_object_string_property cpl_add_object_numerical_property
      cpl_add_object_boolean_property cpl_add_relation_string_property
      cpl_add_relation_numerical_property cpl_add_relation_boolean_property cpl_add_relation
      cpl_lookup_relation cpl_get_object_relations cpl_add_prefix cpl_get_prefixes
      cpl_lookup_object_property_wildcard cpl_get_current_session cpl_get_session_info
      cpl_get_all_objects cpl_get_object_info cpl_get_bundle_objects cpl_get_bundle_relations
      cpl_lookup_object_by_string_property cpl_lookup_object_by_numerical_property
      cpl_lookup_object_by_boolean_property cpl_get_object_string_properties
      cpl_get_object_numerical_properties cpl_get_object_boolean_properties
      cpl_get_relation_string_properties cpl_get_relation_numerical_properties
      cpl_get_relation_boolean_properties
  perform (create_object a b c d) s = observe (cpl_create_object vt a b c d s)
  perform (lookup_object a b c d) s = observe (cpl_lookup_object vt a b c d s)
  perform (lookup_object_ext a b c d e f) s = observe (cpl_lookup_object_ext vt a b c d e f s)
  perform (lookup_or_create_object a b c d) s = observe (cpl_lookup_or_create_object vt a b c d s)
  perform (add_object_string_property a b c d) s =
      observe (cpl_add_object_string_property vt numbers a b c d s)
  perform (add_object_numerical_property a b c d) s =
      observe (cpl_add_object_numerical_property vt numbers a b c d s)
  perform (add_object_boolean_property a b c d) s =
      observe (cpl_add_object_boolean_property vt numbers a b c d s)
  perform (add_relation_string_property a b c d) s =
      observe (cpl_add_relation_string_property vt numbers a b c d s)
  perform (add_relation_numerical_property a b c d) s =
      observe (cpl_add_relation_numerical_property vt numbers a b c d s)
  perform (add_relation_boolean_property a b c d) s =
      observe (cpl_add_relation_boolean_property vt numbers a b c d s)
  perform (add_relation a b c d) s = observe (cpl_add_relation vt a b c d s)
  perform (lookup_relation a b c d) s = observe (cpl_lookup_relation vt a b c d s)
  perform (get_object_relations a b c d e) s = observe (cpl_get_object_relations vt a b c d e s)
  perform (add_prefix a b c) s = observe (cpl_add_prefix vt a b c s)
  perform (get_prefixes a b c d) s = observe (cpl_get_prefixes vt a b c d s)
  perform (lookup_object_property_wildcard a b) s =
      observe (cpl_lookup_object_property_wildcard vt a b s)
  perform (get_current_session a) s = observe (cpl_get_current_session a s)
  perform (get_session_info a b) s = observe (cpl_get_session_info vt a b s)
  perform (get_all_objects a b c d e) s = observe (cpl_get_all_objects vt a b c d e s)
  perform (get_object_info a b) s = observe (cpl_get_object_info vt a b s)
  perform (get_bundle_objects a b c) s = observe (cpl_get_bundle_objects vt a b c s)
  perform (get_bundle_relations a b c) s = observe (cpl_get_bundle_relations vt a b c s)
  perform (lookup_object_by_string_property a b c d e) s =
      observe (cpl_lookup_object_by_string_property vt numbers a b c d e s)
  perform (lookup_object_by_numerical_property a b c d e) s =
      observe (cpl_lookup_object_by_numerical_property vt numbers a b c d e s)
  perform (lookup_object_by_boolean_property a b c d e) s =
      observe (cpl_lookup_object_by_boolean_property vt numbers a b c d e s)
  perform (get_object_string_properties a b c d e) s =
      observe (cpl_get_object_string_properties vt a b c d e s)
  perform (get_object_numerical_properties a b c d e) s =
      observe (cpl_get_object_numerical_properties vt a b c d e s)
  perform (get_object_boolean_properties a b c d e) s =
      observe (cpl_get_object_boolean_properties vt a b c d e s)
  perform (get_relation_string_properties a b c d e) s =
      observe (cpl_get_relation_string_properties vt a b c d e s)
  perform (get_relation_numerical_properties a b c d e) s =
      observe (cpl_get_relation_numerical_properties vt a b c d e s)
  perform (get_relation_boolean_properties a b c d e) s =
      observe (cpl_get_relation_boolean_properties vt a b c d e s)
