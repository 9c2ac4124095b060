-- ===== src/Document/Validate/Interning.antt =====
-- The positions that `validate_json` gives to names: they are in bounds, they stay as names are added,
-- and each name has its own.
use prov_cpl.Prelude.{
  ℕ, zero, suc, ◌<◌, Text, List, [], ◌∷◌, ◌++◌, none, some, ◌≡◌, refl, sym, subst, arith, length,
  get_elem?, text_eq_iff, append-nil, Option-cases, inl, inr, length-append,
}
use prov_cpl.Document.Graph.{Graph, position, intern, add_edge}

position-append :
    (x : Text) (ys zs : List Text) (i : ℕ) → position x ys ≡ some i → position x (ys ++ zs) ≡ some i
unfolding position
position-append x [] zs i h = cc
position-append x (y ∷ ys) zs zero h = ground arith
position-append x (y ∷ ys) zs (suc i) h = ground (arith, position-append x ys zs i)

position_new :
    (x : Text) (ys : List Text)
    → position x ys ≡ none
    → position x (ys ++ x ∷ []) ≡ some (length ys)
unfolding position
position_new x [] h = ground (arith, text_eq_iff x x)
position_new x (y ∷ ys) h = ground (arith, position_new x ys)

pub position-lt : (x : Text) (ys : List Text) (i : ℕ) → position x ys ≡ some i → i < length ys
unfolding position
position-lt x [] i h = cc
position-lt x (y ∷ ys) zero h = omega arith
position-lt x (y ∷ ys) (suc i) h = ground (arith, position-lt x ys i)

get_elem?-position :
    (x : Text) (ys : List Text) (i : ℕ) → position x ys ≡ some i → get_elem? ys i ≡ some x
unfolding position
get_elem?-position x [] i h = cc
get_elem?-position x (y ∷ ys) zero h = ground (arith, text_eq_iff y x)
get_elem?-position x (y ∷ ys) (suc i) h = ground (arith, get_elem?-position x ys i)

pub position_injective :
    (x y : Text) (zs : List Text) (i : ℕ) → position x zs ≡ some i → position y zs ≡ some i → x ≡ y
position_injective x y zs i h k = cc (get_elem?-position x zs i h, get_elem?-position y zs i k)

-- A later list of names: some were added at the end.
abbrev Extends : List Text → List Text → Type 0
Extends ys zs = (added : List Text) × (zs ≡ ys ++ added)

intern_lem :
    (x : Text) (ys : List Text)
    → (position x (intern x ys).1 ≡ some (intern x ys).0) × Extends ys (intern x ys).1
unfolding intern
intern_lem x ys = elim (Option-cases (position x ys)) [
  | inl new ↦
      rw (new, intern)
        (ground (arith, position_new x ys new, length-append ys (x ∷ [])), (x ∷ [], refl))
  | inr (i, old) ↦ rw (old, intern) (old, ([], sym (append-nil ys)))
]

-- Each edge is the pair of the positions of a pair of names.
abbrev pub Matches : List Text → List (Text × Text) → List (ℕ × ℕ) → Type 0
Matches os [] [] = Unit
Matches os [] (e ∷ es) = ⊥
Matches os (p ∷ ps) [] = ⊥
Matches os (p ∷ ps) (e ∷ es) =
    (position p.0 os ≡ some e.0) × (position p.1 os ≡ some e.1) × Matches os ps es

Matches-extend :
    (os added : List Text) (ps : List (Text × Text)) (es : List (ℕ × ℕ))
    → Matches os ps es
    → Matches (os ++ added) ps es
Matches-extend os added [] [] h = tt
Matches-extend os added [] (e ∷ es) h = h
Matches-extend os added (p ∷ ps) [] h = h
Matches-extend os added (p ∷ ps) (e ∷ es) h = (
  position-append p.0 os added e.0 h.0,
  position-append p.1 os added e.1 h.1,
  Matches-extend os added ps es h.2,
)

Matches-append :
    (os : List Text) (ps : List (Text × Text)) (es : List (ℕ × ℕ)) (p : Text × Text) (e : ℕ × ℕ)
    → Matches os ps es
    → position p.0 os ≡ some e.0
    → position p.1 os ≡ some e.1
    → Matches os (ps ++ p ∷ []) (es ++ e ∷ [])
Matches-append os [] [] p e h a b = (a, b, tt)
Matches-append os [] (f ∷ es) p e h a b = absurd h
Matches-append os (q ∷ ps) [] p e h a b = absurd h
Matches-append os (q ∷ ps) (f ∷ es) p e h a b = (h.0, h.1, Matches-append os ps es p e h.2 a b)

extended :
    (os zs : List Text) (ps : List (Text × Text)) (es : List (ℕ × ℕ))
    → Extends os zs
    → Matches os ps es
    → Matches zs ps es
extended os zs ps es (added, e) h =
    subst (λ o. Matches o ps es) (sym e) (Matches-extend os added ps es h)

kept :
    (x : Text) (i : ℕ) (os zs : List Text)
    → Extends os zs
    → position x os ≡ some i
    → position x zs ≡ some i
kept x i os zs (added, e) h =
    subst (λ o. position x o ≡ some i) (sym e) (position-append x os added i h)

-- Adding an edge keeps what stood there and adds the pair.
pub add_edge-Matches :
    (source dest : Text) (g : Graph) (ps : List (Text × Text))
    → Matches g.objects ps g.edges
    → Matches
        (add_edge source dest g).objects
        (ps ++ (source, dest) ∷ [])
        (add_edge source dest g).edges
unfolding add_edge
add_edge-Matches source dest g ps h =
    let (at_source, grown) = intern_lem source g.objects in
    let with_source = (intern source g.objects).1 in
    let (at_dest, grown') = intern_lem dest with_source in
    Matches-append _ ps g.edges _ _
      (extended _ _ ps g.edges grown' (extended _ _ ps g.edges grown h))
      (kept source _ _ _ grown' at_source) at_dest
