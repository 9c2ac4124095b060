-- ===== src/Api/Access.antt =====
-- Access to sessions, objects and bundles.
use prov_cpl.Prelude.{ℤ, ℕ, Option, some, Text}
use prov_cpl.Codes.{cpl_ok}
use prov_cpl.Api.Effect.{
  M, ◌>>=◌, ◌>>◌, pure, gets, store, ensure_not_null, ensure_initialized, ensure_not_none,
  call_backend,
}
use prov_cpl.Api.Backend.{Backend, Iterator, ObjectInfo, SessionInfo, Relation}

module _ {Db Ctx : Type 0} (vt : Backend Db Ctx) where
  -- No argument is checked, and the value may be NULL.
  unfoldable pub cpl_lookup_object_property_wildcard : Option Text → Option ℕ → M Db (ℤ × Option ℕ)
  cpl_lookup_object_property_wildcard value out_id = do
    ensure_initialized
    call_backend (λ db. vt.cpl_db_lookup_object_property_wildcard db value out_id)

  unfoldable pub cpl_get_session_info :
      ℕ → Option (Option SessionInfo) → M Db (ℤ × Option (Option SessionInfo))
  cpl_get_session_info id out_info = do
    ensure_initialized
    ensure_not_none id
    cell ← ensure_not_null out_info
    r ← call_backend (λ db. vt.cpl_db_get_session_info db id cell)
    pure (r.0, some r.1)

  unfoldable pub cpl_get_all_objects :
      Option Text → ℤ → ℤ → Option (Iterator ObjectInfo Ctx) → Ctx → M Db (ℤ × Ctx)
  cpl_get_all_objects prefix flags kind iterator context = do
    ensure_initialized
    f ← ensure_not_null iterator
    call_backend (λ db. vt.cpl_db_get_all_objects db prefix flags kind f context)

  unfoldable pub cpl_get_object_info :
      ℕ → Option (Option ObjectInfo) → M Db (ℤ × Option (Option ObjectInfo))
  cpl_get_object_info id out_info = do
    ensure_initialized
    ensure_not_none id
    cell ← ensure_not_null out_info
    r ← call_backend (λ db. vt.cpl_db_get_object_info db id cell)
    pure (r.0, some r.1)

  unfoldable pub cpl_get_bundle_objects :
      ℕ → Option (Iterator ObjectInfo Ctx) → Ctx → M Db (ℤ × Ctx)
  cpl_get_bundle_objects id iterator context = do
    ensure_initialized
    ensure_not_none id
    f ← ensure_not_null iterator
    call_backend (λ db. vt.cpl_db_get_bundle_objects db id f context)

  unfoldable pub cpl_get_bundle_relations :
      ℕ → Option (Iterator Relation Ctx) → Ctx → M Db (ℤ × Ctx)
  cpl_get_bundle_relations id iterator context = do
    ensure_initialized
    ensure_not_none id
    f ← ensure_not_null iterator
    call_backend (λ db. vt.cpl_db_get_bundle_relations db id f context)

module _ {Db : Type 0} where
  unfoldable pub cpl_get_current_session : Option ℕ → M Db (ℤ × Option ℕ)
  cpl_get_current_session out_session = do
    ensure_initialized
    session ← gets (λ s. s.session)
    pure (cpl_ok, store out_session session)
