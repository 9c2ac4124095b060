-- ===== src/Api/Lifecycle.antt =====
-- `cpl_attach` and `cpl_detach`. The session code of `cpl_attach` stands inside a comment.
pub mod Laws
use prov_cpl.Prelude.{ℤ, ℕ, Option, none, some, true, false, not, if◌then◌else◌}
use prov_cpl.Codes.{
  cpl_ok, cpl_is_ok, cpl_e_already_initialized, cpl_e_internal_error, cpl_e_platform_error,
}
use prov_cpl.Api.Effect.{
  State, M, ◌>>=◌, ◌>>◌, pure, early, gets, modify, finish, ensure_not_null, ensure_initialized,
  mutex_lock, mutex_unlock, call_backend,
}
use prov_cpl.Api.Backend.{Backend}

-- `cpl_lock_initialize`, compiled without `_CPL_CUSTOM_GLOBALLY_UNIQUE_IDS`.
unfoldable pub cpl_lock_initialize : ℤ
cpl_lock_initialize = cpl_ok

module _ {Db : Type 0} where
  -- `cpl_db_backend = NULL; mutex_unlock(cpl_backend_lock); return ret;`
  abbrev pub give_up : ℤ → M Db (ℤ × Unit {0})
  give_up ret = do modify (λ s. record s { backend = none }); mutex_unlock; finish ret

  -- `cpl_shared_semaphore_open`, with the system's answer: `none` if `sem_open` fails, or the value
  -- of the named semaphore, which is 1 if it is new.
  abbrev pub open_semaphore : Option ℕ → State Db → State Db
  open_semaphore none s = record s { sem_open = false }
  open_semaphore (some value) s = record s { sem_open = true; sem_value = value }

  unfoldable pub cpl_attach : Option Db → Option ℕ → M Db (ℤ × Unit {0})
  unfolding cpl_lock_initialize
  cpl_attach backend answer = do
    mutex_lock
    db ← ensure_not_null backend
    started ← gets (λ s. s.initialized)
    old ← gets (λ s. s.backend)
    if started then (do mutex_unlock; finish cpl_e_already_initialized) else elim old [
      | some _ ↦ do mutex_unlock; finish cpl_e_internal_error
      | none ↦ do
        modify (λ s. record s { backend = some db })
        if not (cpl_is_ok cpl_lock_initialize) then give_up cpl_lock_initialize else do
          modify (open_semaphore answer)
          opened ← gets (λ s. s.sem_open)
          if not opened
              then give_up cpl_e_platform_error
              else do modify (λ s. record s { initialized = true }); mutex_unlock; finish cpl_ok
    ]

module _ {Db Ctx : Type 0} (vt : Backend Db Ctx) where
  unfoldable pub cpl_detach : M Db (ℤ × Unit {0})
  cpl_detach = do
    mutex_lock
    ensure_initialized
    modify (λ s. record s { initialized = false })
    call_backend vt.cpl_db_destroy
    modify (λ s. record s { backend = none })
    modify (λ s. record s { sem_open = false })
    mutex_unlock
    finish cpl_ok
