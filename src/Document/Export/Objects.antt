-- ===== src/Document/Export/Objects.antt =====
-- `export_bundle_prefixes_json` and `export_objects_json` of cpl-standalone/cpl-standalone.cpp.
use prov_cpl.Prelude.{
  ℤ, ℕ, ◌==◌, Text, codes, List, [], ◌∷◌, Option, none, some, if◌then◌else◌, eq_ℤ,
}
use prov_cpl.Codes.{cpl_ok, cpl_e_invalid_argument, cpl_entity, cpl_agent, cpl_activity}
use prov_cpl.Api.Effect.{M, ◌>>=◌, pure, early}
use prov_cpl.Api.Backend.{Backend, Iterator, ObjectInfo, Property, PrefixEntry}
use prov_cpl.Api.Numbers.{Numbers}
use prov_cpl.Api.Collect.{PropertyEntry, PropertyVector, strings, numericals, booleans}
use prov_cpl.Api.Access.{cpl_get_bundle_objects}
use prov_cpl.Api.Relations.{cpl_get_prefixes}
use prov_cpl.Api.Properties.{
  cpl_get_object_string_properties, cpl_get_object_numerical_properties,
  cpl_get_object_boolean_properties,
}
use prov_cpl.Document.Json.{JsonLib, JsonMaker}
use prov_cpl.Document.Tokens.{full_name}
use prov_cpl.Document.Import.Basics.{or_throw}
use prov_cpl.Document.Export.Vectors.{
  Collected, object_infos, prefix_entries, properties, on_object_info, on_prefix, on_property,
  object_infos_of, prefix_entries_of, properties_of, collect,
}

-- `boost::unordered_map<cpl_id_t, std::string>`: `emplace` keeps an entry that is there.
abbrev pub NameTable : Type 0
NameTable = List (ℕ × Text)

unfoldable pub find_name : ℕ → NameTable → Option Text
find_name k [] = none
find_name k ((j, v) ∷ m) = if j == k then some v else find_name k m

unfoldable pub emplace_name : ℕ → Text → NameTable → NameTable
unfolding find_name
emplace_name k v m = elim (find_name k m) [ none ↦ (k, v) ∷ m | some old ↦ m ]

module _ {Json Double : Type 0} (lib : JsonLib Json Double) (maker : JsonMaker Json Double) where
  abbrev pub or_unset : Option Json → Json
  or_unset none = maker.unset
  or_unset (some j) = j

  abbrev assigned : Text → Json → Option Json → Option Json
  assigned key document none = none
  assigned key document (some entries) = maker.assign document key entries

  -- `document[key][name] = value;`
  unfoldable pub assign_under : Text → Text → Json → Json → Option Json
  assign_under key name value document =
      assigned key document (maker.assign (or_unset (lib.find document key)) name value)

  -- The `switch` over the type of an object: one of another type is not written.
  unfoldable pub place_object : ℤ → Text → Json → Json → Option Json
  place_object kind name value document =
      if eq_ℤ kind cpl_entity
      then assign_under (codes "entity") name value document
      else if eq_ℤ kind cpl_agent
      then assign_under (codes "agent") name value document
      else if eq_ℤ kind cpl_activity
      then assign_under (codes "activity") name value document
      else some document

-- One of the calls that get properties, at the object or relation of this round.
abbrev pub Fetch : Type 0 → Type 0 → Type 0
Fetch Db Double =
    Option (Iterator Property (Collected Double)) → Collected Double → M Db (ℤ × Collected Double)

-- `if(bundles.size() == 1)`, `bundles.at(0)`
abbrev pub only_bundle : {Db : Type 0} → List ℕ → M Db ℕ
only_bundle (bundle ∷ []) = pure bundle
only_bundle _ = early cpl_e_invalid_argument

module _ {Db Json Double : Type 0} (maker : JsonMaker Json Double) where
  -- The loop over one vector of properties.
  unfoldable pub write_entries :
      {V : Type 0} → (V → Json) → List (PropertyEntry V) → Json → M Db Json
  write_entries json_of [] value = pure value
  write_entries json_of (e ∷ es) value = do
    next ← or_throw (maker.assign value (full_name e.prefix e.key) (json_of e.value))
    write_entries json_of es next

  unfoldable pub write_vector : PropertyVector Double → Json → M Db Json
  write_vector (strings l) value = write_entries maker.of_string l value
  write_vector (numericals l) value = write_entries maker.of_double l value
  write_vector (booleans l) value = write_entries maker.of_bool l value

  -- The properties of one object or relation: the three vectors, which are empty when a round begins,
  -- are filled and then written in turn.
  unfoldable pub export_properties :
      Numbers Double → Fetch Db Double → Fetch Db Double → Fetch Db Double → M Db Json
  export_properties numbers get_strings get_numericals get_booleans = do
    s ← collect properties_of (properties (strings [])) (get_strings (some (on_property numbers)))
    n ←
        collect properties_of (properties (numericals []))
          (get_numericals (some (on_property numbers)))
    b ← collect properties_of (properties (booleans [])) (get_booleans (some (on_property numbers)))
    with_strings ← write_vector s maker.unset
    with_numericals ← write_vector n with_strings
    write_vector b with_numericals

  unfoldable pub write_prefixes : List PrefixEntry → Json → M Db Json
  write_prefixes [] value = pure value
  write_prefixes (e ∷ es) value = do
    next ← or_throw (maker.assign value e.prefix (maker.of_string e.iri))
    write_prefixes es next

module _ {Db Json Double : Type 0} (vt : Backend Db (Collected Double)) (numbers : Numbers Double)
    (lib : JsonLib Json Double) (maker : JsonMaker Json Double) where
  unfoldable pub export_bundle_prefixes_json : List ℕ → Json → M Db (ℤ × Json)
  export_bundle_prefixes_json bundles document = do
    bundle ← only_bundle bundles
    entries ←
        collect prefix_entries_of (prefix_entries [])
          (cpl_get_prefixes vt bundle none (some on_prefix))
    prefixes ← write_prefixes maker entries maker.unset
    written ← elim entries [
      | [] ↦ pure document
      | e ∷ es ↦ or_throw (maker.assign document (codes "prefix") prefixes)
    ]
    pure (cpl_ok, written)

  -- The object's entry in the document, and its name in the table.
  unfoldable pub write_object : ObjectInfo → NameTable × Json → Json → M Db (NameTable × Json)
  write_object obj (tbl, document) value = do
    let full_obj_name = full_name obj.prefix obj.name
    written ← or_throw (place_object lib maker obj.kind full_obj_name value document)
    pure (emplace_name obj.id full_obj_name tbl, written)

  unfoldable pub object_properties : ObjectInfo → M Db Json
  object_properties obj =
      export_properties maker numbers (cpl_get_object_string_properties vt obj.id none none)
        (cpl_get_object_numerical_properties vt obj.id none none)
        (cpl_get_object_boolean_properties vt obj.id none none)

  -- One round of the loop over the objects.
  unfoldable pub export_object : ObjectInfo → NameTable × Json → M Db (NameTable × Json)
  export_object obj result = object_properties obj >>= write_object obj result

  unfoldable pub export_each_object : List ObjectInfo → NameTable × Json → M Db (NameTable × Json)
  export_each_object [] result = pure result
  export_each_object (obj ∷ objs) result = export_object obj result >>= export_each_object objs

  -- The objects that the backend lists for a bundle.
  unfoldable pub listed_objects : ℕ → M Db (List ObjectInfo)
  listed_objects bundle =
      collect object_infos_of (object_infos [])
        (cpl_get_bundle_objects vt bundle (some on_object_info))

  unfoldable pub export_objects_json : List ℕ → NameTable → Json → M Db (ℤ × (NameTable × Json))
  export_objects_json bundles tbl document = do
    bundle ← only_bundle bundles
    objs ← listed_objects bundle
    result ← export_each_object objs (tbl, document)
    pure (cpl_ok, result)
