-- ===== src/Document/Validate/Scan.antt =====
-- The loops of `validate_json` against a plain reading of the document: the pairs of names that its
-- relations join, and whether each relation is in form.
use prov_cpl.Prelude.{
  Text, List, [], ◌∷◌, ◌++◌, Option, none, some, ◌≡◌, ◌≢◌, inl, inr, refl, sym, subst, Option-cases,
  append-nil, append_assoc, All,
}
use prov_cpl.Codes.{cpl_e_invalid_json}
use prov_cpl.Document.Json.{JsonLib}
use prov_cpl.Document.Table.{RelationData}
use prov_cpl.Document.Graph.{Graph}
use prov_cpl.Document.Validate.{
  Attempt, done, returns, throws, ◌>>=◌, scan_relation, scan_relations, scan_types, scan_ends,
  scan_found,
}
use prov_cpl.Document.Validate.Interning.{Matches, add_edge-Matches}

module _ {Json Double : Type 0} (lib : JsonLib Json Double) where
  unfoldable pub joined : Option Text → Option Text → List (Text × Text)
  joined (some s) (some d) = (s, d) ∷ []
  joined (some s) none = []
  joined none d = []

  unfoldable pub ends_pair : Option Json → Option Json → List (Text × Text)
  unfolding joined
  ends_pair none d = []
  ends_pair (some s) none = []
  ends_pair (some s) (some d) = joined (lib.get_string s) (lib.get_string d)

  -- The names that a relation of the document joins, if it names both.
  unfoldable pub relation_pairs : RelationData → Json → List (Text × Text)
  unfolding ends_pair
  relation_pairs entry val = ends_pair (lib.find val entry.source_str) (lib.find val entry.dest_str)

  unfoldable pub all_relation_pairs : RelationData → List Json → List (Text × Text)
  all_relation_pairs entry [] = []
  all_relation_pairs entry (val ∷ vals) = relation_pairs entry val ++ all_relation_pairs entry vals

  unfoldable pub found_pairs : RelationData → Option Json → List (Text × Text)
  unfolding all_relation_pairs
  found_pairs entry none = []
  found_pairs entry (some relations) = all_relation_pairs entry (lib.values relations)

  -- Those of the whole document, over some relation types.
  unfoldable pub document_pairs : Json → List RelationData → List (Text × Text)
  unfolding found_pairs
  document_pairs document [] = []
  document_pairs document (entry ∷ entries) =
      found_pairs entry (lib.find document entry.kind_str) ++ document_pairs document entries

  -- A relation in form: it has a source, and if it has a destination then both are texts.
  abbrev pub EndsInForm : Option Json → Option Json → Type 0
  EndsInForm none d = ⊥
  EndsInForm (some s) none = Unit
  EndsInForm (some s) (some d) = (lib.get_string s ≢ none) × (lib.get_string d ≢ none)

  abbrev pub RelationInForm : RelationData → Json → Type 0
  RelationInForm entry val =
      EndsInForm (lib.find val entry.source_str) (lib.find val entry.dest_str)

  abbrev pub FoundInForm : RelationData → Option Json → Type 0
  FoundInForm entry none = Unit
  FoundInForm entry (some relations) = All (RelationInForm entry) (lib.values relations)

  abbrev pub DocumentInForm : Json → List RelationData → Type 0
  DocumentInForm document = All (λ entry. FoundInForm entry (lib.find document entry.kind_str))

  -- The graph so far stands for the pairs so far.
  abbrev pub Tracks : List (Text × Text) → Graph → Type 0
  Tracks ps g = Matches g.objects ps g.edges

  -- What a part of the scan comes to: the pairs are tracked if it goes on, and it goes on
  -- exactly if the part is in form. A code is `CPL_E_INVALID_JSON`.
  abbrev pub Scans : Type 0 → List (Text × Text) → Attempt Graph → Type 0
  Scans F ps (done g) = F × Tracks ps g
  Scans F ps (returns code out) = (¬ F) × (code ≡ cpl_e_invalid_json)
  Scans F ps throws = ¬ F

  Tracks-none : (ps : List (Text × Text)) (g : Graph) → Tracks ps g → Tracks (ps ++ []) g
  Tracks-none ps g h = subst (λ qs. Tracks qs g) (sym (append-nil ps)) h

  scan_ends-Scans :
      (s d : Option Json) (g : Graph) (ps : List (Text × Text))
      → Tracks ps g
      → Scans (EndsInForm s d) (ps ++ ends_pair s d) (scan_ends lib s d g)
  unfolding scan_ends ends_pair
  scan_ends-Scans none d g ps h = ((λ f. f), refl)
  scan_ends-Scans (some s) none g ps h = (tt, Tracks-none ps g h)
  scan_ends-Scans (some s) (some d) g ps h = elim (Option-cases (lib.get_string s)) [
    | inl e ↦ rw e (λ f. f.0 refl)
    | inr (source, e) ↦ rw e (elim (Option-cases (lib.get_string d)) [
      | inl k ↦ rw k (λ f. f.1 refl)
      | inr (dest, k) ↦ rw k (((λ x. cc), (λ x. cc)), add_edge-Matches source dest g ps h)
    ])
  ]

  both-Scans :
      (F G : Type 0) (ps : List (Text × Text)) (r : Attempt Graph)
      → F
      → Scans G ps r
      → Scans (F × G) ps r
  both-Scans F G ps (done g) f h = ((f, h.0), h.1)
  both-Scans F G ps (returns code out) f h = ((λ b. h.0 b.1), h.1)
  both-Scans F G ps throws f h = λ b. h b.1

  -- Scanning two parts one after the other.
  bind-Scans :
      (F G : Type 0) (ps qs rs : List (Text × Text)) (first : Attempt Graph)
      (rest : Graph → Attempt Graph)
      → Scans F (ps ++ qs) first
      → ((g : Graph) → Tracks (ps ++ qs) g → Scans G ((ps ++ qs) ++ rs) (rest g))
      → Scans (F × G) (ps ++ (qs ++ rs)) (first >>= rest)
  bind-Scans F G ps qs rs (done g) rest h k =
      subst (λ ts. Scans (F × G) ts (rest g)) (append_assoc ps qs rs)
        (both-Scans F G _ (rest g) h.0 (k g h.1))
  bind-Scans F G ps qs rs (returns code out) rest h k = ((λ f. h.0 f.0), h.1)
  bind-Scans F G ps qs rs throws rest h k = λ f. h f.0

  scan_relations-Scans :
      (entry : RelationData) (vals : List Json) (g : Graph) (ps : List (Text × Text))
      → Tracks ps g
      → Scans
          (All (RelationInForm entry) vals)
          (ps ++ all_relation_pairs entry vals)
          (scan_relations lib entry vals g)
  unfolding scan_relations all_relation_pairs scan_relation relation_pairs
  scan_relations-Scans entry [] g ps h = (tt, Tracks-none ps g h)
  scan_relations-Scans entry (val ∷ vals) g ps h =
      bind-Scans _ _ ps _ _ (scan_relation lib entry val g) (scan_relations lib entry vals)
        (scan_ends-Scans _ _ g ps h) (λ g' h'. scan_relations-Scans entry vals g' _ h')

  scan_found-Scans :
      (entry : RelationData) (found : Option Json) (g : Graph) (ps : List (Text × Text))
      → Tracks ps g
      → Scans
          (FoundInForm entry found)
          (ps ++ found_pairs entry found)
          (scan_found lib entry found g)
  unfolding scan_found found_pairs
  scan_found-Scans entry none g ps h = (tt, Tracks-none ps g h)
  scan_found-Scans entry (some relations) g ps h =
      scan_relations-Scans entry (lib.values relations) g ps h

  pub scan_types-Scans :
      (document : Json) (entries : List RelationData) (g : Graph) (ps : List (Text × Text))
      → Tracks ps g
      → Scans
          (DocumentInForm document entries)
          (ps ++ document_pairs document entries)
          (scan_types lib document entries g)
  unfolding scan_types document_pairs
  scan_types-Scans document [] g ps h = (tt, Tracks-none ps g h)
  scan_types-Scans document (entry ∷ entries) g ps h =
      bind-Scans _ _ ps _ _ (scan_found lib entry (lib.find document entry.kind_str) g)
        (scan_types lib document entries) (scan_found-Scans entry _ g ps h)
        (λ g' h'. scan_types-Scans document entries g' _ h')
