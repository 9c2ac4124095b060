-- ===== src/Examples/Export.antt =====
-- The theorems on exports, applied to a bundle of two objects and one relation.
use prov_cpl.Prelude.{ℕ, codes, [], ◌∷◌, none, some, ◌≡◌, refl, inr, pos, text_eq, arith, All}
use prov_cpl.Codes.{cpl_ok, cpl_e_not_found}
use prov_cpl.Api.Effect.{go, stop, fault}
use prov_cpl.Api.Backend.{Backend, ObjectInfo, Relation}
use prov_cpl.Document.Json.Laws.{IsDocument, unset-IsDocument}
use prov_cpl.Document.Export.Vectors.{Collected}
use prov_cpl.Document.Export.Decimal.{to_string, read_digits, read_digits-to_string}
use prov_cpl.Document.Export.Listing.{IsListed, export_objects_json_lists}
use prov_cpl.Api.Access.{cpl_get_bundle_objects, cpl_get_object_info}
use prov_cpl.Api.Collect.{cpl_cb_collect_object_info_vector}
use prov_cpl.Api.Properties.{
  cpl_get_object_string_properties, cpl_get_object_numerical_properties,
  cpl_get_object_boolean_properties,
}
use prov_cpl.Document.Tokens.{full_name}
use prov_cpl.Document.Export.Vectors.{collect, on_object_info}
use prov_cpl.Document.Export.Objects.{
  NameTable, find_name, emplace_name, assign_under, place_object, write_entries, write_vector,
  export_properties, object_properties, write_object, export_object, export_each_object,
  listed_objects, export_objects_json,
}
use prov_cpl.Api.Properties.{
  cpl_get_relation_string_properties, cpl_get_relation_numerical_properties,
  cpl_get_relation_boolean_properties,
}
use prov_cpl.Document.Table.{RelationData, rdata_array}
use prov_cpl.Document.Export.Relations.{row_of, relation_properties, export_relation}
use prov_cpl.Document.Export.Ends.{HasRelation, export_relation_known, export_relation_outside}
use prov_cpl.Examples.Toys.{backend_with, toy_numbers, ready_state}
use prov_cpl.Examples.Values.{Value, nothing, with_field, value_lib, value_maker, value_laws}

abbrev alice : ObjectInfo
alice = record {
  id = 1;
  creation_time = 0;
  prefix = codes "ex";
  name = codes "alice";
  kind = pos 3;
}

abbrev report : ObjectInfo
report = record { id = 2; creation_time = 0; prefix = []; name = codes "report"; kind = pos 1 }

-- The relation of a bundle, from an end to an end.
abbrev attributed : ℕ → ℕ → Relation
attributed from to = record { id = 12; query_object_id = from; other_object_id = to; kind = pos 11 }

-- A backend with the two objects in each bundle, which has no properties; the object 3 is in no bundle.
abbrev archive : Backend ℕ (Collected ℕ)
archive =
    record (backend_with (λ n prefix name kind. ((cpl_ok, 3), n))
      (λ n prefix name kind. ((cpl_e_not_found, 0), n))) {
        cpl_db_get_bundle_objects = λ n id it ctx. ((cpl_ok, (it report (it alice ctx).1).1), n);
        cpl_db_get_bundle_relations = λ n id it ctx. ((cpl_ok, (it (attributed 2 1) ctx).1), n);
        cpl_db_get_object_properties = λ n id prefix key kind it ctx. ((cpl_ok, ctx), n);
        cpl_db_get_relation_properties = λ n id prefix key kind it ctx. ((cpl_ok, ctx), n);
        cpl_db_get_object_info = λ n id out. ((cpl_ok, some alice), n);
      }

-- What the export of the bundle's objects leaves.
abbrev exported : NameTable × Value
exported = (
  (2, codes "report") ∷ (1, codes "ex:alice") ∷ [],
  with_field (codes "entity") (with_field (codes "report") nothing nothing)
      (with_field (codes "agent") (with_field (codes "ex:alice") nothing nothing) nothing),
)

listed :
    listed_objects archive toy_numbers value_lib value_maker 5 ready_state
    ≡ (go (alice ∷ report ∷ []), ready_state)
unfolding listed_objects collect cpl_get_bundle_objects on_object_info
    cpl_cb_collect_object_info_vector
listed = refl

exports :
    export_objects_json archive toy_numbers value_lib value_maker (5 ∷ []) [] nothing ready_state
    ≡ (go (cpl_ok, exported), ready_state)
unfolding export_objects_json listed_objects collect cpl_get_bundle_objects on_object_info
    cpl_cb_collect_object_info_vector export_each_object export_object object_properties
    export_properties cpl_get_object_string_properties cpl_get_object_numerical_properties
    cpl_get_object_boolean_properties write_vector write_entries write_object place_object
    assign_under emplace_name find_name full_name text_eq
exports = refl

export_objects_json_lists_example :
    All (IsListed value_lib value_maker exported) (alice ∷ report ∷ [])
export_objects_json_lists_example =
    export_objects_json_lists archive toy_numbers value_lib value_maker value_laws 5 [] nothing
      ready_state ready_state ready_state (alice ∷ report ∷ []) cpl_ok exported listed exports

abbrev attributed_row : RelationData
attributed_row = record {
  kind = pos 11;
  kind_str = codes "wasAttributedTo";
  source_str = codes "prov:entity";
  source_t = pos 1;
  dest_str = codes "prov:agent";
  dest_t = pos 3;
}

row_11 : row_of (pos 11) ≡ go attributed_row
unfolding row_of rdata_array
row_11 = refl

name_1 : find_name 1 exported.0 ≡ some (codes "ex:alice")
unfolding find_name
name_1 = refl

name_2 : find_name 2 exported.0 ≡ some (codes "report")
unfolding find_name
name_2 = refl

name_3 : find_name 3 exported.0 ≡ none
unfolding find_name
name_3 = refl

no_properties :
    (relation : Relation)
    → relation.id ≡ 12
    → relation_properties archive toy_numbers value_lib value_maker relation ready_state
      ≡ (go nothing, ready_state)
unfolding relation_properties export_properties collect cpl_get_relation_string_properties
    cpl_get_relation_numerical_properties cpl_get_relation_boolean_properties write_vector
    write_entries
no_properties relation e = rw e refl

export_relation_known_example :
    (written : Value) × (export_relation archive toy_numbers value_lib value_maker exported.0
        (attributed 2 1)
        nothing
        ready_state
      ≡ (go written, ready_state))
    × IsDocument value_lib value_maker written
    × HasRelation archive toy_numbers value_lib value_maker attributed_row 12
        (codes "report")
        (codes "ex:alice")
        written
export_relation_known_example =
    export_relation_known archive toy_numbers value_lib value_maker value_laws exported.0
      (attributed 2 1) attributed_row (codes "report") (codes "ex:alice") nothing nothing
      ready_state ready_state (unset-IsDocument value_lib value_maker value_laws) row_11 name_2
      name_1 (no_properties (attributed 2 1) refl) (inr refl)

got_info :
    cpl_get_object_info archive 3 (some none) ready_state
    ≡ (go (cpl_ok, some (some alice)), ready_state)
unfolding cpl_get_object_info
got_info = refl

export_relation_outside_example :
    export_relation archive toy_numbers value_lib value_maker exported.0
      (attributed 2 3)
      nothing
      ready_state
    ≡ (stop fault, ready_state)
export_relation_outside_example =
    export_relation_outside archive toy_numbers value_lib value_maker value_laws exported.0
      (attributed 2 3) attributed_row (codes "report") alice cpl_ok nothing nothing ready_state
      ready_state ready_state row_11 name_2 name_3 (no_properties (attributed 2 3) refl) (inr refl)
      got_info refl

read_digits-to_string_example : read_digits 0 (to_string 2016) ≡ 2016
read_digits-to_string_example = read_digits-to_string 2016 (omega arith)
