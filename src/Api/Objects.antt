-- ===== src/Api/Objects.antt =====
-- Objects: create, look up, and both under the shared semaphore. An out argument is the cell that it
-- points to, `none` for NULL.
pub mod Laws
use prov_cpl.Prelude.{ℤ, ℕ, Option, not, if◌then◌else◌, eq_ℤ, Text, ◌&&◌}
use prov_cpl.Codes.{
  cpl_ok, cpl_is_ok, cpl_s_object_created, cpl_s_no_data, cpl_e_not_found, has_no_fail,
}
use prov_cpl.Api.Effect.{
  M, ◌>>=◌, ◌>>◌, pure, store, called, ensure_not_null, ensure_initialized, ensure_o_type,
  runtime_verify, call_backend, semaphore_wait, semaphore_post,
}
use prov_cpl.Api.Backend.{Backend, Iterator, IdTimestamp}

module _ {Db Ctx : Type 0} (vt : Backend Db Ctx) where
  unfoldable pub cpl_create_object : Option Text → Option Text → ℤ → Option ℕ → M Db (ℤ × Option ℕ)
  cpl_create_object prefix name kind out_id = do
    ensure_initialized
    p ← ensure_not_null prefix
    n ← ensure_not_null name
    ensure_o_type kind
    r ← call_backend (λ db. vt.cpl_db_create_object db p n kind)
    runtime_verify r.0
    pure (cpl_s_object_created, store out_id r.1)

  unfoldable pub cpl_lookup_object : Option Text → Option Text → ℤ → Option ℕ → M Db (ℤ × Option ℕ)
  cpl_lookup_object prefix name kind out_id = do
    ensure_initialized
    p ← ensure_not_null prefix
    n ← ensure_not_null name
    r ← call_backend (λ db. vt.cpl_db_lookup_object db p n kind)
    runtime_verify r.0
    pure (cpl_ok, store out_id r.1)

  -- With `CPL_L_NO_FAIL` finding nothing is a success.
  unfoldable pub cpl_lookup_object_ext :
      Option Text → Option Text → ℤ → ℤ → Option (Iterator IdTimestamp Ctx) → Ctx → M Db (ℤ × Ctx)
  cpl_lookup_object_ext prefix name kind flags iterator context = do
    ensure_initialized
    p ← ensure_not_null prefix
    n ← ensure_not_null name
    f ← ensure_not_null iterator
    r ← call_backend (λ db. vt.cpl_db_lookup_object_ext db p n kind flags f context)
    pure (if eq_ℤ r.0 cpl_e_not_found && has_no_fail flags then cpl_s_no_data else r.0, r.1)

  -- `cpl_lookup_or_create_object` after its look-up, whose code is `found.0`.
  unfoldable pub create_if_missing :
      Option Text → Option Text → ℤ → ℤ × Option ℕ → M Db (ℤ × Option ℕ)
  create_if_missing prefix name kind found =
      if not (eq_ℤ found.0 cpl_e_not_found) then (do semaphore_post; pure found) else do
        made ← called found.1 (cpl_create_object prefix name kind found.1)
        semaphore_post
        pure (if cpl_is_ok made.0 then cpl_s_object_created else made.0, made.1)

  unfoldable pub cpl_lookup_or_create_object :
      Option Text → Option Text → ℤ → Option ℕ → M Db (ℤ × Option ℕ)
  cpl_lookup_or_create_object prefix name kind out_id = do
    ensure_initialized
    semaphore_wait
    found ← called out_id (cpl_lookup_object prefix name kind out_id)
    create_if_missing prefix name kind found
