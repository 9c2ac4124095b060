-- ===== src/Api/Relations.antt =====
-- Relations and prefixes: add, look up, and the walk to either side of an object.
use prov_cpl.Prelude.{ℤ, ℕ, Option, not, if◌then◌else◌, eq_ℤ, Text, ◌&&◌}
use prov_cpl.Codes.{cpl_ok, cpl_s_no_data, cpl_d_ancestors, cpl_d_descendants}
use prov_cpl.Api.Effect.{
  M, ◌>>=◌, ◌>>◌, pure, finish, store, ensure_not_null, ensure_initialized, ensure_not_none,
  ensure_r_type, refuse_if, runtime_verify, call_backend,
}
use prov_cpl.Api.Backend.{Backend, Iterator, Relation, PrefixEntry}

module _ {Db Ctx : Type 0} (vt : Backend Db Ctx) where
  unfoldable pub cpl_add_relation : ℕ → ℕ → ℤ → Option ℕ → M Db (ℤ × Option ℕ)
  cpl_add_relation from_id to_id kind out_id = do
    ensure_initialized
    ensure_not_none from_id
    ensure_not_none to_id
    ensure_r_type kind
    r ← call_backend (λ db. vt.cpl_db_add_relation db from_id to_id kind)
    runtime_verify r.0
    pure (cpl_ok, store out_id r.1)

  -- The out argument goes to the backend as it came.
  unfoldable pub cpl_lookup_relation : ℕ → ℕ → ℤ → Option ℕ → M Db (ℤ × Option ℕ)
  cpl_lookup_relation from_id to_id kind out_id = do
    ensure_initialized
    ensure_not_none from_id
    ensure_not_none to_id
    ensure_r_type kind
    call_backend (λ db. vt.cpl_db_lookup_relation db from_id to_id kind out_id)

  -- `CPL_S_NO_DATA` of the backend is a plain success here.
  unfoldable pub cpl_get_object_relations :
      ℕ → ℤ → ℤ → Option (Iterator Relation Ctx) → Ctx → M Db (ℤ × Ctx)
  cpl_get_object_relations id direction flags iterator context = do
    ensure_initialized
    ensure_not_none id
    f ← ensure_not_null iterator
    refuse_if (not (eq_ℤ direction cpl_d_ancestors) && not (eq_ℤ direction cpl_d_descendants))
    r ← call_backend (λ db. vt.cpl_db_get_object_relations db id direction flags f context)
    pure (if eq_ℤ r.0 cpl_s_no_data then cpl_ok else r.0, r.1)

  unfoldable pub cpl_add_prefix : ℕ → Option Text → Option Text → M Db (ℤ × Unit {0})
  cpl_add_prefix id prefix iri = do
    ensure_initialized
    ensure_not_none id
    p ← ensure_not_null prefix
    i ← ensure_not_null iri
    r ← call_backend (λ db. vt.cpl_db_add_prefix db id p i)
    finish r

  unfoldable pub cpl_get_prefixes :
      ℕ → Option Text → Option (Iterator PrefixEntry Ctx) → Ctx → M Db (ℤ × Ctx)
  cpl_get_prefixes id prefix iterator context = do
    ensure_initialized
    ensure_not_none id
    f ← ensure_not_null iterator
    call_backend (λ db. vt.cpl_db_get_prefixes db id prefix f context)
