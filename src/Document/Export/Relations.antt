-- ===== src/Document/Export/Relations.antt =====
-- `export_relations_json` of cpl-standalone/cpl-standalone.cpp.
use prov_cpl.Prelude.{
  ℤ, pos, negsuc, ℕ, zero, suc, Text, List, [], ◌∷◌, Option, none, some, get_elem?, Bool, true,
  false, ◌||◌, if◌then◌else◌,
}
use prov_cpl.Codes.{cpl_ok}
use prov_cpl.Api.Effect.{fault, Step, go, stop, M, ◌>>=◌, ◌>>◌, pure, called}
use prov_cpl.Api.Backend.{Backend, ObjectInfo, Relation}
use prov_cpl.Api.Numbers.{Numbers}
use prov_cpl.Api.Access.{cpl_get_bundle_relations, cpl_get_object_info}
use prov_cpl.Api.Free.{cpl_free_object_info}
use prov_cpl.Api.Properties.{
  cpl_get_relation_string_properties, cpl_get_relation_numerical_properties,
  cpl_get_relation_boolean_properties,
}
use prov_cpl.Document.Json.{JsonLib, JsonMaker}
use prov_cpl.Document.Table.{RelationData, rdata_array}
use prov_cpl.Document.Import.Basics.{ensure_ok, or_throw}
use prov_cpl.Document.Export.Vectors.{
  Collected, relations, on_relation, relations_of, settle, collect,
}
use prov_cpl.Document.Export.Decimal.{to_string}
use prov_cpl.Document.Export.Objects.{
  NameTable, find_name, assign_under, export_properties, only_bundle,
}

abbrev pub row_at : Option RelationData → Step RelationData
row_at none = stop fault
row_at (some row) = go row

-- `rdata_array[type - 1]`, which C++ gives no meaning out of bounds.
unfoldable pub row_of : ℤ → Step RelationData
unfolding rdata_array
row_of (pos zero) = stop fault
row_of (pos (suc n)) = row_at (get_elem? rdata_array n)
row_of (negsuc n) = stop fault

-- `from_info->name`, from the cell that the call got.
abbrev pub info_in : Option (Option ObjectInfo) → Step ObjectInfo
info_in (some (some info)) = go info
info_in _ = stop fault

module _ {Db Json Double : Type 0} (vt : Backend Db (Collected Double)) (numbers : Numbers Double)
    (lib : JsonLib Json Double) (maker : JsonMaker Json Double) where
  -- The name of one end, and what the pointer for its structure then holds: the structure if it was
  -- got, because the table has no name, and nothing if the pointer was never set. The prefix of that
  -- structure is not looked at.
  unfoldable pub end_name : NameTable → ℕ → M Db (Text × Option ObjectInfo)
  end_name tbl id = elim (find_name id tbl) [
    | some name ↦ pure (name, none)
    | none ↦ do
      r ← called (some none) (cpl_get_object_info vt id (some none))
      ensure_ok r.0 r.0
      info ← settle (info_in r.1)
      pure (info.name, some info)
  ]

  -- `cpl_free_object_info` of a local pointer, which C++ gives no meaning if it was never set.
  abbrev free_pointer : Option ObjectInfo → M Db (Unit {0})
  free_pointer none = settle (stop fault)
  free_pointer (some info) = do r ← called tt (cpl_free_object_info (some info)); ensure_ok r.0 r.0

  -- Whether a structure was got for an end: what the branch for it does to its flag.
  abbrev was_got : Option ObjectInfo → Bool
  was_got none = false
  was_got (some info) = true

  -- The structures are freed by two flags. The branch of the source and that of the destination both
  -- set `is_from_info`; `is_to_info` keeps its first value.
  unfoldable pub free_infos : Option ObjectInfo → Option ObjectInfo → M Db (Unit {0})
  free_infos from_info to_info = do
    let is_from_info = was_got to_info || was_got from_info
    let is_to_info = false
    if is_from_info then free_pointer from_info else pure tt
    if is_to_info then free_pointer to_info else pure tt

  -- The two ends, written in the properties.
  unfoldable pub write_ends : NameTable → Relation → Json → M Db Json
  write_ends tbl relation value = do
    from ← end_name tbl relation.query_object_id
    row ← settle (row_of relation.kind)
    with_source ← or_throw (maker.assign value row.source_str (maker.of_string from.0))
    to ← end_name tbl relation.other_object_id
    with_ends ← or_throw (maker.assign with_source row.dest_str (maker.of_string to.0))
    free_infos from.1 to.1
    pure with_ends

  -- The relation's entry in the document, from its properties.
  unfoldable pub write_relation : NameTable → Relation → Json → Json → M Db Json
  write_relation tbl relation document value = do
    with_ends ← write_ends tbl relation value
    row ← settle (row_of relation.kind)
    or_throw (assign_under lib maker row.kind_str (to_string relation.id) with_ends document)

  unfoldable pub relation_properties : Relation → M Db Json
  relation_properties relation =
      export_properties maker numbers (cpl_get_relation_string_properties vt relation.id none none)
        (cpl_get_relation_numerical_properties vt relation.id none none)
        (cpl_get_relation_boolean_properties vt relation.id none none)

  -- One round of the loop over the relations.
  unfoldable pub export_relation : NameTable → Relation → Json → M Db Json
  export_relation tbl relation document =
      relation_properties relation >>= write_relation tbl relation document

  unfoldable pub export_each_relation : NameTable → List Relation → Json → M Db Json
  export_each_relation tbl [] document = pure document
  export_each_relation tbl (r ∷ rs) document =
      export_relation tbl r document >>= export_each_relation tbl rs

  unfoldable pub export_relations_json : List ℕ → NameTable → Json → M Db (ℤ × Json)
  export_relations_json bundles tbl document = do
    bundle ← only_bundle bundles
    rels ←
        collect relations_of (relations []) (cpl_get_bundle_relations vt bundle (some on_relation))
    written ← export_each_relation tbl rels document
    pure (cpl_ok, written)
