-- ===== src/Document/Export/Vectors.antt =====
-- The vectors that the exports give to the collecting callbacks as their context, and the callbacks
-- on them.
use prov_cpl.Prelude.{ℤ, List, Option, none, some, not, if◌then◌else◌}
use prov_cpl.Codes.{cpl_is_ok, cpl_e_internal_error}
use prov_cpl.Api.Effect.{fault, thrown, Step, go, stop, M, ◌>>=◌, ◌>>◌, pure, early, called}
use prov_cpl.Api.Backend.{Iterator, ObjectInfo, Relation, Property, PrefixEntry}
use prov_cpl.Api.Numbers.{Numbers}
use prov_cpl.Api.Collect.{
  Reply, replied, threw, undefined, PropertyVector, cpl_cb_collect_object_info_vector,
  cpl_cb_collect_relation_vector, cpl_cb_collect_prefixes_vector, cpl_cb_collect_properties_vector,
}

-- What `void* context` points to in the exports. A callback that throws leaves `uncaught`, and one that
-- is given a vector of another type leaves `miscast`; the export ends there. The backend is not
-- followed where an exception passes through it: it goes on with the code that is given here.
pub data Collected (Double : Type 0) : Type 0 where
  object_infos : List ObjectInfo → Collected Double
  relations : List Relation → Collected Double
  prefix_entries : List PrefixEntry → Collected Double
  properties : PropertyVector Double → Collected Double
  uncaught miscast : Collected Double

abbrev pub settle : {Db A : Type 0} → Step A → M Db A
settle r s = (r, s)

module _ {Double : Type 0} where
  -- The code and the context that a callback leaves. An exception has no code; the one here is not
  -- looked at.
  abbrev resume : {A : Type 0} → (A → Collected Double) → Reply (Option A) → ℤ × Collected Double
  resume into (replied code (some l)) = (code, into l)
  resume into (replied code none) = (code, miscast)
  resume into threw = (cpl_e_internal_error, uncaught)
  resume into undefined = (cpl_e_internal_error, miscast)

  -- A context that has been given up stays so.
  abbrev elsewhere : Collected Double → ℤ × Collected Double
  elsewhere uncaught = (cpl_e_internal_error, uncaught)
  elsewhere _ = (cpl_e_internal_error, miscast)

  unfoldable pub on_object_info : Iterator ObjectInfo (Collected Double)
  on_object_info row (object_infos l) =
      resume object_infos (cpl_cb_collect_object_info_vector row (some l))
  on_object_info row context = elsewhere context

  unfoldable pub on_relation : Iterator Relation (Collected Double)
  on_relation row (relations l) = resume relations (cpl_cb_collect_relation_vector row (some l))
  on_relation row context = elsewhere context

  unfoldable pub on_prefix : Iterator PrefixEntry (Collected Double)
  on_prefix row (prefix_entries l) =
      resume prefix_entries (cpl_cb_collect_prefixes_vector row (some l))
  on_prefix row context = elsewhere context

  unfoldable pub on_property : Numbers Double → Iterator Property (Collected Double)
  on_property numbers row (properties v) =
      resume properties (cpl_cb_collect_properties_vector numbers row (some v))
  on_property numbers row context = elsewhere context

  -- The vectors after the call.
  abbrev pub object_infos_of : Collected Double → Step (List ObjectInfo)
  object_infos_of (object_infos l) = go l
  object_infos_of uncaught = stop thrown
  object_infos_of _ = stop fault

  abbrev pub relations_of : Collected Double → Step (List Relation)
  relations_of (relations l) = go l
  relations_of uncaught = stop thrown
  relations_of _ = stop fault

  abbrev pub prefix_entries_of : Collected Double → Step (List PrefixEntry)
  prefix_entries_of (prefix_entries l) = go l
  prefix_entries_of uncaught = stop thrown
  prefix_entries_of _ = stop fault

  abbrev pub properties_of : Collected Double → Step (PropertyVector Double)
  properties_of (properties v) = go v
  properties_of uncaught = stop thrown
  properties_of _ = stop fault

  module _ {Db : Type 0} where
    -- `if (!CPL_IS_OK(ret = cpl_get_…(…, callback, &vector))) return ret;`, and the vector.
    unfoldable pub collect :
        {A : Type 0}
        → (Collected Double → Step A)
        → Collected Double
        → (Collected Double → M Db (ℤ × Collected Double))
        → M Db A
    collect vector_of start call = do
      r ← called start (call start)
      vector ← settle (vector_of r.1)
      if not (cpl_is_ok r.0) then early r.0 else pure tt
      pure vector
