-- ===== src/Api/Lifecycle/Laws.antt =====
-- What `cpl_attach` and `cpl_detach` do to the library, and the lock that two of their returns keep.
use prov_cpl.Prelude.{ℕ, Option, none, some, ◌≡◌, false, arith}
use prov_cpl.Codes.{
  cpl_ok, cpl_e_invalid_argument, cpl_e_not_initialized, cpl_e_already_initialized,
  cpl_e_platform_error,
}
use prov_cpl.Api.Effect.{State, go, stop, returned, blocked, ending}
use prov_cpl.Api.Backend.{Backend}
use prov_cpl.Api.Ready.{IsAttached, IsReady}
use prov_cpl.Api.Lifecycle.{cpl_attach, cpl_detach}

-- Before `cpl_attach` and after `cpl_detach`.
pub record IsDetached {Db : Type 0} (s : State Db) : Type 0 where
  pub stopped : s.initialized ≡ false
  pub no_backend : s.backend ≡ none
  pub unlocked : s.locked ≡ false

module _ {Db : Type 0} where
  -- Attaching a backend to a detached library succeeds if the shared semaphore opens, whatever its
  -- value, which may be 0: the library is then attached over that backend, with the backend lock free
  -- and the value of the semaphore. Otherwise it fails with `CPL_E_PLATFORM_ERROR`, and the library is
  -- still detached.
  pub attach-IsDetached :
      (db : Db) (v : ℕ) (s : State Db)
      → IsDetached s
      → (let opened = cpl_attach (some db) (some v) s in
          (ending opened.0 ≡ returned cpl_ok)
          × IsAttached opened.1
          × (opened.1.backend ≡ some db)
          × (opened.1.locked ≡ false)
          × (opened.1.sem_value ≡ v))
        × (let failed = cpl_attach (some db) none s in
            (ending failed.0 ≡ returned cpl_e_platform_error) × IsDetached failed.1)
  unfolding cpl_attach
  attach-IsDetached db v s h = ground arith

  -- A second attach is refused and changes nothing.
  pub attach_twice :
      (db : Db) (answer : Option ℕ) (s : State Db)
      → IsReady s
      → cpl_attach (some db) answer s ≡ (go (cpl_e_already_initialized, tt), s)
  unfolding cpl_attach
  attach_twice db answer s h = ground arith

module _ {Db Ctx : Type 0} (vt : Backend Db Ctx) where
  -- Detaching a ready library succeeds and leaves it detached.
  pub detach_ready :
      (s : State Db)
      → IsReady s
      → (ending (cpl_detach vt s).0 ≡ returned cpl_ok) × IsDetached (cpl_detach vt s).1
  unfolding cpl_detach
  detach_ready s h = ground arith

  -- Two early returns keep the backend lock: `cpl_attach(NULL)`, and `cpl_detach` of a library that
  -- is not attached. Whichever came first, every later attach and every later detach waits for ever.
  pub early_return_keeps_lock :
      (s : State Db)
      → IsDetached s
      → (db : Option Db) (answer : Option ℕ)
      → let after_attach = (cpl_attach none answer s).1 in
        let after_detach = (cpl_detach vt s).1 in
        (ending (cpl_attach none answer s).0 ≡ returned cpl_e_invalid_argument)
        × (ending (cpl_detach vt s).0 ≡ returned cpl_e_not_initialized)
        × (cpl_attach db answer after_attach ≡ (stop blocked, after_attach))
        × (cpl_detach vt after_attach ≡ (stop blocked, after_attach))
        × (cpl_attach db answer after_detach ≡ (stop blocked, after_detach))
        × (cpl_detach vt after_detach ≡ (stop blocked, after_detach))
  unfolding cpl_attach cpl_detach
  early_return_keeps_lock s h db answer = ground arith
