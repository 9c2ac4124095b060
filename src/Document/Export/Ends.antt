-- ===== src/Document/Export/Ends.antt =====
-- What the export of one relation does with the names of its two ends.
use prov_cpl.Prelude.{
  ℤ, pos, negsuc, ℕ, zero, suc, Text, List, [], ◌∷◌, get_elem?, none, some, true, false, ◌≡◌,
  text_eq, text_eq_refl, All, arith, ◌∙◌, refl, inl,
}
use prov_cpl.Codes.{cpl_is_ok}
use prov_cpl.Api.Effect.{State, go, stop, fault}
use prov_cpl.Api.Backend.{Backend, ObjectInfo, Relation}
use prov_cpl.Api.Numbers.{Numbers}
use prov_cpl.Api.Access.{cpl_get_object_info}
use prov_cpl.Document.Json.{JsonLib, JsonMaker}
use prov_cpl.Document.Json.Laws.{
  Assigns, IsContainer, IsDocument, HasEntry, assign_under-IsDocument, assign_under-HasEntry,
}
use prov_cpl.Document.Table.{RelationData, rdata_array}
use prov_cpl.Document.Export.Vectors.{Collected}
use prov_cpl.Document.Export.Decimal.{to_string}
use prov_cpl.Document.Export.Objects.{NameTable, find_name}
use prov_cpl.Document.Export.Relations.{
  row_at, row_of, end_name, free_infos, write_ends, write_relation, relation_properties,
  export_relation,
}

-- The two ends of a relation have different names in a document, in each row of the table.
abbrev IsTwoEnded : RelationData → Type 0
IsTwoEnded row = text_eq row.dest_str row.source_str ≡ false

rdata_array-IsTwoEnded : All IsTwoEnded rdata_array
unfolding rdata_array text_eq
rdata_array-IsTwoEnded = ground arith

row_at-IsTwoEnded :
    (rows : List RelationData) (n : ℕ) (row : RelationData)
    → All IsTwoEnded rows
    → row_at (get_elem? rows n) ≡ go row
    → IsTwoEnded row
row_at-IsTwoEnded [] n row h e = absurd (ground arith)
row_at-IsTwoEnded (r ∷ rows) zero row h e = let same : r ≡ row = ground arith in rw (← same) h.0
row_at-IsTwoEnded (r ∷ rows) (suc n) row h e = row_at-IsTwoEnded rows n row h.1 e

row_of-IsTwoEnded : (kind : ℤ) (row : RelationData) → row_of kind ≡ go row → IsTwoEnded row
unfolding row_of
row_of-IsTwoEnded (pos zero) row e = absurd (ground arith)
row_of-IsTwoEnded (pos (suc n)) row e = row_at-IsTwoEnded rdata_array n row rdata_array-IsTwoEnded e
row_of-IsTwoEnded (negsuc n) row e = absurd (ground arith)

module _ {Db Json Double : Type 0} (vt : Backend Db (Collected Double)) (numbers : Numbers Double)
    (lib : JsonLib Json Double) (maker : JsonMaker Json Double) where
  -- The entry of a relation in a document, with the names of its ends.
  abbrev pub HasRelation : RelationData → ℕ → Text → Text → Json → Type 0
  HasRelation row id from to document =
      (value : Json) × HasEntry lib maker row.kind_str (to_string id) value document
      × (lib.find value row.source_str ≡ some (maker.of_string from))
      × (lib.find value row.dest_str ≡ some (maker.of_string to))

  module _ (laws : Assigns lib maker) where
    write_ends_known :
        (tbl : NameTable) (relation : Relation) (row : RelationData) (from to : Text) (value : Json)
        (s : State Db)
        → row_of relation.kind ≡ go row
        → find_name relation.query_object_id tbl ≡ some from
        → find_name relation.other_object_id tbl ≡ some to
        → IsContainer lib maker value
        → (written : Json) × (write_ends vt numbers lib maker tbl relation value s
            ≡ (go written, s))
          × (lib.find written row.source_str ≡ some (maker.of_string from))
          × (lib.find written row.dest_str ≡ some (maker.of_string to))
    unfolding write_ends end_name free_infos
    write_ends_known tbl relation row from to value s er ef et hv =
        let (one, e1) = laws.assigns value row.source_str (maker.of_string from) hv in
        let o1 = laws.makes_object value row.source_str (maker.of_string from) one e1 in
        let (two, e2) = laws.assigns one row.dest_str (maker.of_string to) (inl o1) in
        let f1 =
          laws.find_assign value row.source_str (maker.of_string from) one row.source_str e1 in
        let f2 = laws.find_assign one row.dest_str (maker.of_string to) two row.source_str e2 in
        let f3 = laws.find_assign one row.dest_str (maker.of_string to) two row.dest_str e2 in
        let apart = row_of-IsTwoEnded relation.kind row er in
        let r1 = text_eq_refl row.source_str in
        let r2 = text_eq_refl row.dest_str in
        (two, ground arith, f2 ∙ rw apart (f1 ∙ rw r1 refl), f3 ∙ rw r2 refl)

    -- Where the table has names for both ends of a relation whose type has a row, and its properties were
    -- got, the export of the relation succeeds, without a further call of the library: the document has
    -- an entry for the relation, under its type and its identifier in decimal digits, and the entry has
    -- the two names under the keys of the row.
    pub export_relation_known :
        (tbl : NameTable) (relation : Relation) (row : RelationData) (from to : Text)
        (document value : Json) (s u : State Db)
        → IsDocument lib maker document
        → row_of relation.kind ≡ go row
        → find_name relation.query_object_id tbl ≡ some from
        → find_name relation.other_object_id tbl ≡ some to
        → relation_properties vt numbers lib maker relation s ≡ (go value, u)
        → IsContainer lib maker value
        → (written : Json) × (export_relation vt numbers lib maker tbl relation document s
            ≡ (go written, u))
          × IsDocument lib maker written
          × HasRelation row relation.id from to written
    unfolding export_relation write_relation
    export_relation_known tbl relation row from to document value s u hd er ef et ep hv =
        let (ends, wrote, source, dest) =
          write_ends_known tbl relation row from to value u er ef et hv in
        let (written, placed, well) =
          assign_under-IsDocument lib maker laws row.kind_str (to_string relation.id) ends document
            hd in
        let entry =
          assign_under-HasEntry lib maker laws row.kind_str (to_string relation.id) ends document
            written placed in
        (written, ground arith, well, (ends, entry, source, dest))

  -- Where the table has a name for the source of a relation and none for its destination, and the
  -- structure of the destination can be got, the export frees a pointer that was never set: the flag that
  -- the branch of the destination sets is the one of the source.
  pub export_relation_outside :
      Assigns lib maker
      → (tbl : NameTable) (relation : Relation) (row : RelationData) (from : Text)
        (info : ObjectInfo) (code : ℤ) (document value : Json) (s u t : State Db)
      → row_of relation.kind ≡ go row
      → find_name relation.query_object_id tbl ≡ some from
      → find_name relation.other_object_id tbl ≡ none
      → relation_properties vt numbers lib maker relation s ≡ (go value, u)
      → IsContainer lib maker value
      → cpl_get_object_info vt relation.other_object_id (some none) u
        ≡ (go (code, some (some info)), t)
      → cpl_is_ok code ≡ true
      → export_relation vt numbers lib maker tbl relation document s ≡ (stop fault, t)
  unfolding export_relation write_relation write_ends end_name free_infos
  export_relation_outside laws tbl relation row from info code document value s u t er ef et ep hv
        ei ok =
      let (one, e1) = laws.assigns value row.source_str (maker.of_string from) hv in
      let o1 = laws.makes_object value row.source_str (maker.of_string from) one e1 in
      let (two, e2) = laws.assigns one row.dest_str (maker.of_string info.name) (inl o1) in
      ground arith
