-- ===== src/Document/Import/Laws.antt =====
-- What `import_document_json` refuses before it writes, and what its flags do.
use prov_cpl.Prelude.{
  if◌then◌else◌, ◌||◌, ℤ, ℕ, pos, Text, List, false, Option, none, some, ◌≡◌, ◌≢◌, refl, arith,
  eq_ℤ, eq_ℤ_iff,
}
use prov_cpl.Codes.{cpl_e_internal_error, cpl_e_invalid_json}
use prov_cpl.Api.Effect.{State, Exit, returned, thrown, stop}
use prov_cpl.Api.Backend.{Backend}
use prov_cpl.Api.Numbers.{Numbers}
use prov_cpl.Document.Json.{JsonLib, is_object}
use prov_cpl.Document.Import.{import_document_json}

-- How the import of a text ends before it writes anything, from what the text is; `none` if it goes on.
abbrev pub refusal : {Json Double : Type 0} → JsonLib Json Double → Option Json → Option Exit
refusal lib none = some thrown
refusal lib (some document) =
    if lib.equals_null document || lib.empty document
    then some (returned cpl_e_internal_error)
    else if is_object (lib.kind document)
    then none
    else some (returned cpl_e_invalid_json)

module _ {Db Ctx Json Double : Type 0} (vt : Backend Db Ctx) (numbers : Numbers Double)
    (lib : JsonLib Json Double) where
  -- What each kind of text in a document that may be missing comes to.
  refused :
      (text name : Text) (anchors : List (ℕ × Text)) (flags : ℤ) (out : Option ℕ) (s : State Db)
      (parsed : Option Json) (e : Exit)
      → lib.parse text ≡ parsed
      → refusal lib parsed ≡ some e
      → import_document_json vt numbers lib text name anchors flags out s ≡ (stop e, s)
  unfolding import_document_json
  refused text name anchors flags out s none e p h = ground arith
  refused text name anchors flags out s (some document) e p h = ground arith

  -- A text that is not JSON ends the import by an exception, an empty document or one equal to NULL
  -- by `CPL_E_INTERNAL_ERROR`, and another document that is no object by `CPL_E_INVALID_JSON`; nothing
  -- is written.
  pub import_refuses :
      (text name : Text) (anchors : List (ℕ × Text)) (flags : ℤ) (out : Option ℕ) (s : State Db)
      (e : Exit)
      → refusal lib (lib.parse text) ≡ some e
      → import_document_json vt numbers lib text name anchors flags out s ≡ (stop e, s)
  import_refuses text name anchors flags out s e h =
      refused text name anchors flags out s (lib.parse text) e refl h

  -- Any two flags that are not zero import alike, also where the bit `CPL_J_EXTERN_OBJ` is set in one
  -- and not in the other.
  pub import_flags :
      (text name : Text) (anchors : List (ℕ × Text)) (f g : ℤ) (out : Option ℕ) (s : State Db)
      → f ≢ pos 0
      → g ≢ pos 0
      → import_document_json vt numbers lib text name anchors f out s
        ≡ import_document_json vt numbers lib text name anchors g out s
  unfolding import_document_json
  import_flags text name anchors f g out s hf hg =
      let ef : eq_ℤ f (pos 0) ≡ false = ground (arith, eq_ℤ_iff f (pos 0)) in
      let eg : eq_ℤ g (pos 0) ≡ false = ground (arith, eq_ℤ_iff g (pos 0)) in rw (ef, eg)
