-- ===== src/Document/Validate/Walks.antt =====
-- The graph of positions has a cycle exactly where the names of the document have one.
use mathlib.Core.List.{Memᴰ}
use prov_cpl.Prelude.{ℕ, ◌<◌, Text, List, [], ◌∷◌, some, ◌≡◌, refl, sym, subst, length, All}
use prov_cpl.Document.Graph.{position, Walk, one, more, IsAcyclic}
use prov_cpl.Document.Validate.Interning.{Matches, position-lt, position_injective}

-- Two names with positions that a relation holds of.
abbrev pub Located : List Text → (ℕ → ℕ → Type 0) → Text → Text → Type 0
Located os R a b = (i : ℕ) × (j : ℕ) × (position a os ≡ some i) × (position b os ≡ some j) × R i j

edge-Located :
    (os : List Text) (ps : List (Text × Text)) (es : List (ℕ × ℕ)) {a b : Text}
    → Matches os ps es
    → Memᴰ (a, b) ps
    → Located os (λ i j. Memᴰ (i, j) es) a b
edge-Located os [] es h m = elim m [ ]
edge-Located os (p ∷ ps) [] h m = absurd h
edge-Located os (p ∷ ps) (e ∷ es) h (Memᴰ.head q) = (
  e.0,
  e.1,
  subst (λ r. position r.0 os ≡ some e.0) (sym q) h.0,
  subst (λ r. position r.1 os ≡ some e.1) (sym q) h.1,
  Memᴰ.head refl,
)
edge-Located os (p ∷ ps) (e ∷ es) h (Memᴰ.tail m) =
    let (i, j, pi, pj, k) = edge-Located os ps es h.2 m in (i, j, pi, pj, Memᴰ.tail k)

-- A walk of names is a walk of their positions.
pub Walk-Located :
    (os : List Text) (ps : List (Text × Text)) (es : List (ℕ × ℕ)) {a b : Text}
    → Matches os ps es
    → Walk ps a b
    → Located os (Walk es) a b
Walk-Located os ps es h (one m) =
    let (i, j, pi, pj, k) = edge-Located os ps es h m in (i, j, pi, pj, one k)
Walk-Located os ps es h (more w m) =
    let (i, j, pi, pj, v) = Walk-Located os ps es h w in
    let (j', k, pj', pk, e) = edge-Located os ps es h m in
    let same : j' ≡ j = cc in (i, k, pi, pk, more v (subst (λ x. Memᴰ (x, k) es) same e))

-- The positions have a cycle where the names have one.
pub IsAcyclic-names :
    (os : List Text) (ps : List (Text × Text)) (es : List (ℕ × ℕ))
    → Matches os ps es
    → IsAcyclic es
    → IsAcyclic ps
IsAcyclic-names os ps es h free a w =
    let (i, j, pi, pj, v) = Walk-Located os ps es h w in
    let same : j ≡ i = cc in free i (subst (Walk es i) same v)

-- And the other way round, since no two names share a position.
abbrev Named : List Text → (Text → Text → Type 0) → ℕ → ℕ → Type 0
Named os R i j =
    (a : Text) × (b : Text) × (position a os ≡ some i) × (position b os ≡ some j) × R a b

edge-Named :
    (os : List Text) (ps : List (Text × Text)) (es : List (ℕ × ℕ)) {i j : ℕ}
    → Matches os ps es
    → Memᴰ (i, j) es
    → Named os (λ a b. Memᴰ (a, b) ps) i j
edge-Named os ps [] h m = elim m [ ]
edge-Named os [] (e ∷ es) h m = absurd h
edge-Named os (p ∷ ps) (e ∷ es) h (Memᴰ.head q) = (
  p.0,
  p.1,
  subst (λ r. position p.0 os ≡ some r.0) (sym q) h.0,
  subst (λ r. position p.1 os ≡ some r.1) (sym q) h.1,
  Memᴰ.head refl,
)
edge-Named os (p ∷ ps) (e ∷ es) h (Memᴰ.tail m) =
    let (a, b, pa, pb, k) = edge-Named os ps es h.2 m in (a, b, pa, pb, Memᴰ.tail k)

Walk-Named :
    (os : List Text) (ps : List (Text × Text)) (es : List (ℕ × ℕ)) {i j : ℕ}
    → Matches os ps es
    → Walk es i j
    → Named os (Walk ps) i j
Walk-Named os ps es h (one m) =
    let (a, b, pa, pb, k) = edge-Named os ps es h m in (a, b, pa, pb, one k)
Walk-Named os ps es h (more {b = j} w m) =
    let (a, b, pa, pb, v) = Walk-Named os ps es h w in
    let (b', c, pb', pc, e) = edge-Named os ps es h m in
    let same = position_injective b' b os j pb' pb in
    (a, c, pa, pc, more v (subst (λ x. Memᴰ (x, c) ps) same e))

pub IsAcyclic-positions :
    (os : List Text) (ps : List (Text × Text)) (es : List (ℕ × ℕ))
    → Matches os ps es
    → IsAcyclic ps
    → IsAcyclic es
IsAcyclic-positions os ps es h free i w =
    let (a, b, pa, pb, v) = Walk-Named os ps es h w in
    free a (subst (Walk ps a) (position_injective b a os i pb pa) v)

-- The ends of the edges are positions of names.
pub edges_in_bounds :
    (os : List Text) (ps : List (Text × Text)) (es : List (ℕ × ℕ))
    → Matches os ps es
    → All (λ e. (e.0 < length os) × (e.1 < length os)) es
edges_in_bounds os [] [] h = tt
edges_in_bounds os [] (e ∷ es) h = absurd h
edges_in_bounds os (p ∷ ps) [] h = absurd h
edges_in_bounds os (p ∷ ps) (e ∷ es) h =
    ((position-lt p.0 os e.0 h.0, position-lt p.1 os e.1 h.1), edges_in_bounds os ps es h.2)
