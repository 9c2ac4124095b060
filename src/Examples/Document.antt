-- ===== src/Examples/Document.antt =====
-- The theorems on documents, applied.
use prov_cpl.Prelude.{◌<◌, pos, some, ◌≡◌, ◌↔◌, codes, [], ◌∷◌, refl, arith, text_eq, All, length}
use prov_cpl.Codes.{cpl_ok}
use prov_cpl.Document.Table.{relation_types}
use prov_cpl.Document.Tokens.{name_to_tokens, full_name}
use prov_cpl.Document.Tokens.Laws.{name_to_tokens-full_name}
use prov_cpl.Document.Graph.{Graph, IsAcyclic, add_edge, intern, position}
use prov_cpl.Document.Validate.{
  done, validate_json, scan_types, scan_found, scan_relations, scan_relation, scan_ends, no_graph,
}
use prov_cpl.Document.Validate.Laws.{
  Parses, names_joined, IsInForm, validate_json_iff, scan_in_bounds,
}
use prov_cpl.Document.Table.{RelationData}
use prov_cpl.Document.Import.Basics.{LookupTable}
use prov_cpl.Examples.Toys.{toy_lib, classical_sort, chain}

name_to_tokens-full_name_example :
    name_to_tokens (full_name (codes "ex") (codes "alice")) ≡ (codes "ex", codes "alice")
name_to_tokens-full_name_example =
    name_to_tokens-full_name (codes "ex") (codes "alice") (ground arith) (ground arith) (cc)
      (λ e. cc)

chain-Parses : Parses toy_lib (codes "c") chain
chain-Parses = record { parsed = refl; not_null = refl; not_empty = refl; an_object = refl }

validate_json_iff_example :
    (validate_json toy_lib classical_sort (codes "c") ≡ some (cpl_ok, "Valid JSON \n"))
    ↔ (IsInForm toy_lib chain × IsAcyclic (names_joined toy_lib chain))
validate_json_iff_example = validate_json_iff toy_lib classical_sort (codes "c") chain chain-Parses

abbrev chain_graph : Graph
chain_graph = record {
  objects = codes "b" ∷ codes "a" ∷ codes "c" ∷ [];
  edges = (0, 1) ∷ (2, 0) ∷ [];
}

chain_scan : scan_types toy_lib chain relation_types no_graph ≡ done chain_graph
unfolding scan_types scan_found scan_relations scan_relation scan_ends relation_types text_eq
    add_edge intern position
chain_scan = refl

scan_in_bounds_example :
    All
      (λ e. (e.0 < length chain_graph.objects) × (e.1 < length chain_graph.objects))
      chain_graph.edges
scan_in_bounds_example = scan_in_bounds toy_lib chain chain_graph chain_scan

abbrev used_row : RelationData
used_row = record {
  kind = pos 3;
  kind_str = codes "used";
  source_str = codes "prov:activity";
  source_t = pos 2;
  dest_str = codes "prov:entity";
  dest_t = pos 1;
}

-- The objects that were imported before.
abbrev imported : LookupTable
imported = (codes "a", 4) ∷ (codes "b", 5) ∷ []
