-- ===== src/Document/Validate.antt =====
-- `validate_json` of cpl-standalone/cpl-standalone.cpp.
pub mod Interning
pub mod Walks
pub mod Scan
pub mod Laws
use prov_cpl.Prelude.{
  ℤ, ℕ, Text, String, List, [], ◌∷◌, Bool, true, false, not, Option, none, some, if◌then◌else◌,
  length, ◌||◌,
}
use prov_cpl.Codes.{cpl_ok, cpl_e_internal_error, cpl_e_invalid_json}
use prov_cpl.Document.Json.{JsonLib, is_object}
use prov_cpl.Document.Table.{RelationData, relation_types}
use prov_cpl.Document.Graph.{Graph, add_edge, TopologicalSort}

-- A part of the call: it goes on with a value, returns a code with `string_out`, or an exception
-- leaves it.
pub data Attempt (A : Type 0) : Type 0 where
  done : A → Attempt A
  returns : ℤ → String → Attempt A
  throws : Attempt A

infixl 5 ◌>>=◌
abbrev pub ◌>>=◌ : {A B : Type 0} → Attempt A → (A → Attempt B) → Attempt B
done a >>= f = f a
returns code out >>= f = returns code out
throws >>= f = throws

abbrev or_throw : {A : Type 0} → Option A → Attempt A
or_throw none = throws
or_throw (some a) = done a

abbrev pub outcome : Attempt (ℤ × String) → Option (ℤ × String)
outcome (done r) = some r
outcome (returns code out) = some (code, out)
outcome throws = none

abbrev pub bad_format : String
bad_format = "Invalid JSON formatting \n"

abbrev pub no_graph : Graph
no_graph = record { objects = []; edges = [] }

-- The sort, and the code and text that it leads to.
unfoldable pub judge : TopologicalSort → Graph → Attempt (ℤ × String)
judge topological_sort g =
    if topological_sort.sorts (length g.objects) g.edges
    then done (cpl_ok, "Valid JSON \n")
    else returns cpl_e_invalid_json "Provenance graph is not a DAG \n"

module _ {Json Double : Type 0} (lib : JsonLib Json Double) where
  -- The body of the inner loop, from the two look-ups in one relation of the document.
  unfoldable pub scan_ends : Option Json → Option Json → Graph → Attempt Graph
  scan_ends none dest_check g = returns cpl_e_invalid_json bad_format
  scan_ends (some source_check) none g = done g
  scan_ends (some source_check) (some dest_check) g = do
    source ← or_throw (lib.get_string source_check)
    dest ← or_throw (lib.get_string dest_check)
    done (add_edge source dest g)

  unfoldable pub scan_relation : RelationData → Json → Graph → Attempt Graph
  scan_relation entry val g =
      scan_ends (lib.find val entry.source_str) (lib.find val entry.dest_str) g

  -- The inner loop.
  unfoldable pub scan_relations : RelationData → List Json → Graph → Attempt Graph
  scan_relations entry [] g = done g
  scan_relations entry (val ∷ vals) g = scan_relation entry val g >>= scan_relations entry vals

  -- The body of the outer loop, from the look-up of the type in the document.
  unfoldable pub scan_found : RelationData → Option Json → Graph → Attempt Graph
  scan_found entry none g = done g
  scan_found entry (some relations) g = scan_relations entry (lib.values relations) g

  -- The outer loop.
  unfoldable pub scan_types : Json → List RelationData → Graph → Attempt Graph
  scan_types document [] g = done g
  scan_types document (entry ∷ entries) g =
      scan_found entry (lib.find document entry.kind_str) g >>= scan_types document entries

  -- What follows the parse.
  unfoldable pub validate_document : TopologicalSort → Json → Attempt (ℤ × String)
  validate_document topological_sort document =
      if lib.equals_null document || lib.empty document
      then returns cpl_e_internal_error "Validation failed on upload \n"
      else if not (is_object (lib.kind document))
      then returns cpl_e_invalid_json "Validation failed on upload \n"
      else scan_types document relation_types no_graph >>= judge topological_sort

  -- The code and `string_out`; `none` is an exception.
  unfoldable pub validate_json : TopologicalSort → Text → Option (ℤ × String)
  unfolding validate_document
  validate_json topological_sort json_string =
      outcome (or_throw (lib.parse json_string) >>= validate_document topological_sort)
