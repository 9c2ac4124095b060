-- ===== src/Document/Graph.antt =====
-- The directed graph that `validate_json` builds: the vertices are the positions of the names in
-- `objects`, the edges pairs of positions. The sort of boost::graph is a parameter.
use mathlib.Core.List.{Memᴰ}
use prov_cpl.Prelude.{
  ℕ, suc, ◌-◌, Text, List, [], ◌∷◌, ◌++◌, Bool, true, Option, none, some, if◌then◌else◌, text_eq,
  length, ◌↔◌, ◌≡◌,
}

-- `objects` and `edges`.
pub record Graph : Type 0 where
  pub objects : List Text
  pub edges : List (ℕ × ℕ)

abbrev next : Option ℕ → Option ℕ
next none = none
next (some i) = some (suc i)

-- `std::find` and `distance`; `none` is `objects.end()`.
unfoldable pub position : Text → List Text → Option ℕ
position x [] = none
position x (y ∷ ys) = let rest = position x ys in if text_eq y x then some 0 else next rest

-- The position of a name, which is added at the end if it is new.
unfoldable pub intern : Text → List Text → ℕ × List Text
intern x objects = elim (position x objects) [
  | some i ↦ (i, objects)
  | none ↦ (length (objects ++ x ∷ []) - 1, objects ++ x ∷ [])
]

unfoldable pub add_edge : Text → Text → Graph → Graph
add_edge source dest g =
    let (source_ind, with_source) = intern source g.objects in
    let (dest_ind, with_dest) = intern dest with_source in
    record { objects = with_dest; edges = g.edges ++ (source_ind, dest_ind) ∷ [] }

-- A walk of one or more edges.
pub data Walk {A : Type 0} (es : List (A × A)) (a : A) : A → Type 0 where
  one : {b : A} → Memᴰ (a, b) es → Walk es a b
  more : {b c : A} → Walk es a b → Memᴰ (b, c) es → Walk es a c

abbrev pub IsAcyclic : {A : Type 0} → List (A × A) → Type 0
IsAcyclic {A} es = (a : A) → ¬ Walk es a a

-- `boost::topological_sort` over a graph with so many vertices: whether it ends without the
-- exception `not_a_dag`, which it throws exactly for a graph with a cycle.
pub record TopologicalSort : Type 0 where
  pub sorts : ℕ → List (ℕ × ℕ) → Bool
  pub sorts_iff : (n : ℕ) (es : List (ℕ × ℕ)) → (sorts n es ≡ true) ↔ IsAcyclic es
