-- ===== src/Document/Export/Listing.antt =====
-- What the export of objects leaves: each object that the backend listed has its name in the table
-- and its entry in the document.
use prov_cpl.Prelude.{
  ℤ, ℕ, Text, codes, List, [], ◌∷◌, Option, Option-cases, none, some, if◌then◌else◌, ◌≡◌, inl, inr,
  eq_ℤ, All, arith, sym, ◌∙◌, subst,
}
use prov_cpl.Codes.{cpl_ok, cpl_entity, cpl_agent, cpl_activity}
use prov_cpl.Api.Effect.{State, go, pure}
use prov_cpl.Api.Effect.Laws.{bind_facts}
use prov_cpl.Api.Backend.{Backend, ObjectInfo}
use prov_cpl.Api.Numbers.{Numbers}
use prov_cpl.Document.Json.{JsonLib, JsonMaker}
use prov_cpl.Document.Json.Laws.{Assigns, HasEntry, assign_under-HasEntry, assign_under-keeps}
use prov_cpl.Document.Tokens.{full_name}
use prov_cpl.Document.Export.Vectors.{Collected}
use prov_cpl.Document.Export.Objects.{
  NameTable, find_name, emplace_name, place_object, assign_under, listed_objects, object_properties,
  write_object, export_object, export_each_object, export_objects_json,
}

-- The key of a document under which an object of a type stands.
abbrev pub key_of : ℤ → Option Text
key_of kind =
    if eq_ℤ kind cpl_entity
    then some (codes "entity")
    else if eq_ℤ kind cpl_agent
    then some (codes "agent")
    else if eq_ℤ kind cpl_activity
    then some (codes "activity")
    else none

emplace_name-finds :
    (k : ℕ) (v : Text) (m : NameTable) → (w : Text) × (find_name k (emplace_name k v m) ≡ some w)
unfolding emplace_name find_name
emplace_name-finds k v m = elim (Option-cases (find_name k m)) [
  | inl missing ↦ (v, ground arith)
  | inr (old, e) ↦ (old, ground arith)
]

emplace_name-keeps :
    (k : ℕ) (v : Text) (m : NameTable) (j : ℕ) (w : Text)
    → find_name j m ≡ some w
    → find_name j (emplace_name k v m) ≡ some w
unfolding emplace_name find_name
emplace_name-keeps k v m j w h = ground arith

module _ {Json Double : Type 0} (lib : JsonLib Json Double) (maker : JsonMaker Json Double) where
  -- Under `key`, if there is one, the document has an entry of that name.
  abbrev pub HasName : Option Text → Text → Json → Type 0
  HasName none name document = Unit
  HasName (some key) name document = (value : Json) × HasEntry lib maker key name value document

  -- The object's identifier has a name in the table, and the object's full name has an entry in the document.
  abbrev pub IsListed : NameTable × Json → ObjectInfo → Type 0
  IsListed (tbl, document) obj =
      ((name : Text) × (find_name obj.id tbl ≡ some name))
      × HasName (key_of obj.kind) (full_name obj.prefix obj.name) document

  -- What placing an object comes to, by the key of its type.
  abbrev placed : Option Text → Text → Json → Json → Option Json
  placed none name value document = some document
  placed (some key) name value document = assign_under lib maker key name value document

  placed-key_of :
      (kind : ℤ) (name : Text) (value document : Json)
      → place_object lib maker kind name value document ≡ placed (key_of kind) name value document
  unfolding place_object
  placed-key_of kind name value document = ground arith

  module _ (laws : Assigns lib maker) where
    placed-HasName :
        (key : Option Text) (name : Text) (value document document' : Json)
        → placed key name value document ≡ some document'
        → HasName key name document'
    placed-HasName none name value document document' e = tt
    placed-HasName (some key) name value document document' e =
        (value, assign_under-HasEntry lib maker laws key name value document document' e)

    placed-keeps :
        (at key : Option Text) (name n : Text) (value document document' : Json)
        → placed at name value document ≡ some document'
        → HasName key n document
        → HasName key n document'
    placed-keeps at none name n value document document' e h = tt
    placed-keeps none (some key) name n value document document' e h = ground arith
    placed-keeps (some at) (some key) name n value document document' e h =
        assign_under-keeps lib maker laws at name value document document' key n h.0 e h.1

module _ {Db Json Double : Type 0} (vt : Backend Db (Collected Double)) (numbers : Numbers Double)
    (lib : JsonLib Json Double) (maker : JsonMaker Json Double) (laws : Assigns lib maker) where
  -- What one round does to the table and the document.
  write_object_facts :
      (obj : ObjectInfo) (tbl : NameTable) (document value : Json) (s t : State Db)
      (result : NameTable × Json)
      → write_object vt numbers lib maker obj (tbl, document) value s ≡ (go result, t)
      → (place_object lib maker obj.kind (full_name obj.prefix obj.name) value document
          ≡ some result.1)
        × (result.0 ≡ emplace_name obj.id (full_name obj.prefix obj.name) tbl)
  unfolding write_object
  write_object_facts obj tbl document value s t result e = ground arith

  write_object-IsListed :
      (obj : ObjectInfo) (before : NameTable × Json) (value : Json) (s t : State Db)
      (result : NameTable × Json)
      → write_object vt numbers lib maker obj before value s ≡ (go result, t)
      → IsListed lib maker result obj
  write_object-IsListed obj (tbl, document) value s t result e =
      let (wrote, named) = write_object_facts obj tbl document value s t result e in
      let name = full_name obj.prefix obj.name in
      let (w, found) = emplace_name-finds obj.id name tbl in
      (
        (w, rw named found),
        placed-HasName lib maker laws (key_of obj.kind) name value document result.1
            (sym (placed-key_of lib maker obj.kind name value document) ∙ wrote),
      )

  write_object-keeps :
      (obj other : ObjectInfo) (before : NameTable × Json) (value : Json) (s t : State Db)
      (result : NameTable × Json)
      → write_object vt numbers lib maker obj before value s ≡ (go result, t)
      → IsListed lib maker before other
      → IsListed lib maker result other
  write_object-keeps obj other (tbl, document) value s t result e h =
      let (wrote, named) = write_object_facts obj tbl document value s t result e in
      let name = full_name obj.prefix obj.name in
      (
        (h.0.0, rw named (emplace_name-keeps obj.id name tbl other.id h.0.0 h.0.1)),
        placed-keeps lib maker laws (key_of obj.kind) (key_of other.kind) name
            (full_name other.prefix other.name) value document result.1
            (sym (placed-key_of lib maker obj.kind name value document) ∙ wrote) h.1,
      )

  export_each_object-keeps :
      (objs : List ObjectInfo) (other : ObjectInfo) (before : NameTable × Json) (s t : State Db)
      (result : NameTable × Json)
      → export_each_object vt numbers lib maker objs before s ≡ (go result, t)
      → IsListed lib maker before other
      → IsListed lib maker result other
  unfolding export_each_object export_object
  export_each_object-keeps [] other before s t result e h =
      let same : before ≡ result = ground arith in subst (λ r. IsListed lib maker r other) same h
  export_each_object-keeps (obj ∷ objs) other before s t result e h =
      let (mid, u, first, rest) =
        bind_facts (export_object vt numbers lib maker obj before)
          (export_each_object vt numbers lib maker objs) s t result e in
      let (value, v, got, wrote) =
        bind_facts (object_properties vt numbers lib maker obj)
          (write_object vt numbers lib maker obj before) s u mid first in
      export_each_object-keeps objs other mid u t result rest
        (write_object-keeps obj other before value v u mid wrote h)

  export_each_object-IsListed :
      (objs : List ObjectInfo) (before : NameTable × Json) (s t : State Db)
      (result : NameTable × Json)
      → export_each_object vt numbers lib maker objs before s ≡ (go result, t)
      → All (IsListed lib maker result) objs
  unfolding export_each_object export_object
  export_each_object-IsListed [] before s t result e = tt
  export_each_object-IsListed (obj ∷ objs) before s t result e =
      let (mid, u, first, rest) =
        bind_facts (export_object vt numbers lib maker obj before)
          (export_each_object vt numbers lib maker objs) s t result e in
      let (value, v, got, wrote) =
        bind_facts (object_properties vt numbers lib maker obj)
          (write_object vt numbers lib maker obj before) s u mid first in
      (
        export_each_object-keeps objs obj mid u t result rest
            (write_object-IsListed obj before value v u mid wrote),
        export_each_object-IsListed objs mid u t result rest,
      )

  -- If the export of a bundle's objects returns with a table and a document, then for each object that
  -- the backend listed for the bundle the table has a name, and an entity, agent or activity has an
  -- entry in the document, under the key of its type and under its full name.
  pub export_objects_json_lists :
      (bundle : ℕ) (tbl : NameTable) (document : Json) (s u t : State Db) (objs : List ObjectInfo)
      (code : ℤ) (result : NameTable × Json)
      → listed_objects vt numbers lib maker bundle s ≡ (go objs, u)
      → export_objects_json vt numbers lib maker (bundle ∷ []) tbl document s
        ≡ (go (code, result), t)
      → All (IsListed lib maker result) objs
  unfolding export_objects_json
  export_objects_json_lists bundle tbl document s u t objs code result got e =
      let (after, v, all, last) =
        bind_facts {B = ℤ × (NameTable × Json)}
          (export_each_object vt numbers lib maker objs (tbl, document)) (λ r. pure (cpl_ok, r)) u t
          (code, result) (ground arith) in
      let outcome : after ≡ result = ground arith in
      subst (λ r. All (IsListed lib maker r) objs) outcome
        (export_each_object-IsListed objs (tbl, document) u v after all)
