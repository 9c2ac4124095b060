-- ===== src/Document/Export.antt =====
-- `export_bundle_json` of cpl-standalone/cpl-standalone.cpp. Its line in a file for debugging is left
-- out.
pub mod Decimal
pub mod Vectors
pub mod Objects
pub mod Relations
pub mod Listing
pub mod Ends
use prov_cpl.Prelude.{ℤ, ℕ, Text, List, [], ◌∷◌}
use prov_cpl.Codes.{cpl_ok}
use prov_cpl.Api.Effect.{M, ◌>>=◌, ◌>>◌, pure, called}
use prov_cpl.Api.Backend.{Backend}
use prov_cpl.Api.Numbers.{Numbers}
use prov_cpl.Document.Json.{JsonLib, JsonMaker}
use prov_cpl.Document.Import.Basics.{ensure_ok, or_throw}
use prov_cpl.Document.Export.Vectors.{Collected}
use prov_cpl.Document.Export.Objects.{NameTable, export_objects_json}
use prov_cpl.Document.Export.Relations.{export_relations_json}

module _ {Db Json Double : Type 0} (vt : Backend Db (Collected Double)) (numbers : Numbers Double)
    (lib : JsonLib Json Double) (maker : JsonMaker Json Double) where
  -- The loop over the bundles: each is exported alone, its objects and then its relations, into one
  -- table and one document. The prefixes are not exported.
  unfoldable pub export_each_bundle : List ℕ → NameTable → Json → M Db Json
  export_each_bundle [] tbl document = pure document
  export_each_bundle (bundle ∷ bundles) tbl document = do
    objs ←
        called (tbl, document) (export_objects_json vt numbers lib maker (bundle ∷ []) tbl document)
    ensure_ok objs.0 objs.0
    rels ←
        called objs.1.1 (export_relations_json vt numbers lib maker (bundle ∷ []) objs.1.0 objs.1.1)
    ensure_ok rels.0 rels.0
    export_each_bundle bundles objs.1.0 rels.1

  unfoldable pub export_bundle_json : List ℕ → Text → M Db (ℤ × Text)
  export_bundle_json bundles json_string = do
    document ← export_each_bundle bundles [] maker.unset
    text ← or_throw (maker.dump document)
    pure (cpl_ok, text)
