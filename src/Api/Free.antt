-- ===== src/Api/Free.antt =====
-- The calls that free a structure which a look-up gave out. `none` is NULL; what `free` does to the
-- memory is not followed.
use prov_cpl.Prelude.{ℤ, Option}
use prov_cpl.Codes.{cpl_ok}
use prov_cpl.Api.Effect.{M, ◌>>=◌, ensure_not_null, finish}
use prov_cpl.Api.Backend.{ObjectInfo, SessionInfo}

module _ {Db : Type 0} where
  unfoldable pub cpl_free_session_info : Option SessionInfo → M Db (ℤ × Unit {0})
  cpl_free_session_info info = do freed ← ensure_not_null info; finish cpl_ok

  unfoldable pub cpl_free_object_info : Option ObjectInfo → M Db (ℤ × Unit {0})
  cpl_free_object_info info = do freed ← ensure_not_null info; finish cpl_ok
