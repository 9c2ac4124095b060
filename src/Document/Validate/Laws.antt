-- ===== src/Document/Validate/Laws.antt =====
-- What `validate_json` decides: that a document is in form and has no cycle of relations.
use prov_cpl.Prelude.{
  ◌<◌, Text, List, [], true, false, some, ◌≡◌, ◌↔◌, inl, inr, subst, arith, length, Bool-cases, All,
}
use prov_cpl.Codes.{cpl_ok, cpl_e_invalid_json}
use prov_cpl.Document.Json.{JsonLib, is_object}
use prov_cpl.Document.Table.{relation_types}
use prov_cpl.Document.Graph.{Graph, TopologicalSort, IsAcyclic}
use prov_cpl.Document.Validate.{
  Attempt, done, returns, throws, ◌>>=◌, outcome, no_graph, scan_types, judge, validate_json,
}
use prov_cpl.Document.Validate.Walks.{IsAcyclic-names, IsAcyclic-positions, edges_in_bounds}
use prov_cpl.Document.Validate.Scan.{document_pairs, DocumentInForm, Scans, scan_types-Scans}

module _ {Json Double : Type 0} (lib : JsonLib Json Double) where
  -- The text is a JSON object that is neither empty nor equal to NULL.
  pub record Parses (text : Text) (document : Json) : Type 0 where
    pub parsed : lib.parse text ≡ some document
    pub not_null : lib.equals_null document ≡ false
    pub not_empty : lib.empty document ≡ false
    pub an_object : is_object (lib.kind document) ≡ true

  -- The pairs of names that the relations of the document join.
  abbrev pub names_joined : Json → List (Text × Text)
  names_joined document = document_pairs lib document relation_types

  abbrev pub IsInForm : Json → Type 0
  IsInForm document = DocumentInForm lib document relation_types

  scanned :
      (document : Json)
      → Scans lib
          (IsInForm document)
          (names_joined document)
          (scan_types lib document relation_types no_graph)
  scanned document = scan_types-Scans lib document relation_types no_graph [] tt

  module _ (topological_sort : TopologicalSort) where
    open topological_sort use {sorts, sorts_iff}

    validate_lem :
        (text : Text) (document : Json)
        → Parses text document
        → validate_json lib topological_sort text
          ≡ outcome (scan_types lib document relation_types no_graph >>= judge topological_sort)
    unfolding validate_json
    validate_lem text document p = ground arith

    judge_iff :
        (F : Type 0) (ps : List (Text × Text)) (r : Attempt Graph)
        → Scans lib F ps r
        → (outcome (r >>= judge topological_sort) ≡ some (cpl_ok, "Valid JSON \n"))
          ↔ (F × IsAcyclic ps)
    unfolding judge
    judge_iff F ps (done g) h = (
      (λ e. (
        h.0,
        IsAcyclic-names g.objects ps g.edges h.1
            ((sorts_iff (length g.objects) g.edges).0 (ground arith)),
      )),
      (λ k. rw (
          (sorts_iff (length g.objects) g.edges).1
            (IsAcyclic-positions g.objects ps g.edges h.1 k.1))),
    )
    judge_iff F ps (returns code out) h = ((λ e. cc (h.1)), (λ k. absurd (h.0 k.0)))
    judge_iff F ps throws h = ((λ e. cc), (λ k. absurd (h k.0)))

    judge_cycle :
        (F : Type 0) (ps : List (Text × Text)) (r : Attempt Graph)
        → Scans lib F ps r
        → F
        → ¬ IsAcyclic ps
        → outcome (r >>= judge topological_sort)
          ≡ some (cpl_e_invalid_json, "Provenance graph is not a DAG \n")
    unfolding judge
    judge_cycle F ps (done g) h f c = elim (Bool-cases (sorts (length g.objects) g.edges)) [
      | inl e ↦ absurd (
          c (IsAcyclic-names g.objects ps g.edges h.1 ((sorts_iff (length g.objects) g.edges).0 e)))
      | inr e ↦ rw e
    ]
    judge_cycle F ps (returns code out) h f c = absurd (h.0 f)
    judge_cycle F ps throws h f c = absurd (h f)

    -- `validate_json` accepts the text of a document exactly if each relation has a source, each source
    -- and destination that it looks at is a text, and the relations form no cycle of names.
    pub validate_json_iff :
        (text : Text) (document : Json)
        → Parses text document
        → (validate_json lib topological_sort text ≡ some (cpl_ok, "Valid JSON \n"))
          ↔ (IsInForm document × IsAcyclic (names_joined document))
    validate_json_iff text document p =
        rw (validate_lem text document p) (judge_iff _ _ _ (scanned document))

    -- A document in form whose relations have a cycle is refused as no DAG.
    pub validate_json_cycle :
        (text : Text) (document : Json)
        → Parses text document
        → IsInForm document
        → ¬ IsAcyclic (names_joined document)
        → validate_json lib topological_sort text
          ≡ some (cpl_e_invalid_json, "Provenance graph is not a DAG \n")
    validate_json_cycle text document p f c =
        rw (validate_lem text document p) (judge_cycle _ _ _ (scanned document) f c)

  bounds_of :
      (F : Type 0) (ps : List (Text × Text)) (r : Attempt Graph) (g : Graph)
      → Scans lib F ps r
      → r ≡ done g
      → All (λ e. (e.0 < length g.objects) × (e.1 < length g.objects)) g.edges
  bounds_of F ps (done g') g h e =
      let same : g' ≡ g = cc in
      subst (λ x. All (λ b. (b.0 < length x.objects) × (b.1 < length x.objects)) x.edges) same
        (edges_in_bounds g'.objects ps g'.edges h.1)
  bounds_of F ps (returns code out) g h e = cc
  bounds_of F ps throws g h e = cc

  -- The edges that go into the graph join vertices below its number of vertices.
  pub scan_in_bounds :
      (document : Json) (g : Graph)
      → scan_types lib document relation_types no_graph ≡ done g
      → All (λ e. (e.0 < length g.objects) × (e.1 < length g.objects)) g.edges
  scan_in_bounds document g e = bounds_of _ _ _ g (scanned document) e
