-- ===== src/Api/Effect.antt =====
-- How a public call runs: the library's static variables, early returns by the `CPL_ENSURE_…` macros
-- of cpl-standalone/cpl-private.h, the backend lock and the shared semaphore.
pub mod Laws
use prov_cpl.Prelude.{
  ℕ, ℤ, ◌+◌, Option, none, some, Bool, true, false, not, if◌then◌else◌, ◌==◌, ◌-◌,
}
use prov_cpl.Codes.{
  cpl_none, cpl_is_ok, cpl_e_invalid_argument, cpl_e_not_initialized, o_type_refused,
  r_type_refused,
}

-- The static variables. `Db` is what the backend pointer points to; `none` is NULL. `sem_value` is
-- the value of the named semaphore in the system, and `sem_open` says that the handle is open.
pub record State (Db : Type 0) : Type 0 where
  pub initialized : Bool
  pub backend : Option Db
  pub session : ℕ
  pub locked : Bool
  pub sem_open : Bool
  pub sem_value : ℕ

-- How a call ends before its last statement: by a `return`, by a fault (a NULL pointer is
-- dereferenced, or a semaphore is used that is not open), never, waiting for a lock, or by a C++
-- exception.
pub data Exit : Type 0 where
  returned : ℤ → Exit
  fault blocked thrown : Exit

pub data Step (A : Type 0) : Type 0 where
  go : A → Step A
  stop : Exit → Step A

abbrev pub M : Type 0 → Type 0 → Type 0
M Db A = State Db → Step A × State Db

module _ {Db A B : Type 0} where
  abbrev pub continue : Step A → (A → M Db B) → M Db B
  continue (go a) f s = f a s
  continue (stop e) f s = (stop e, s)

  infixl 5 ◌>>=◌ ◌>>◌
  abbrev pub ◌>>=◌ : M Db A → (A → M Db B) → M Db B
  ◌>>=◌ m f s = let (r, s') = m s in continue r f s'

  abbrev pub ◌>>◌ : M Db A → M Db B → M Db B
  m >> n = m >>= λ _. n

module _ {Db A : Type 0} where
  abbrev pub pure : A → M Db A
  pure a s = (go a, s)

  -- `return code;` before the end.
  abbrev pub early : ℤ → M Db A
  early code s = (stop (returned code), s)

  -- `CPL_ENSURE_NOT_NULL(p)`; the rest of the call has the value that is pointed to.
  abbrev pub ensure_not_null : Option A → M Db A
  ensure_not_null none = early cpl_e_invalid_argument
  ensure_not_null (some a) = pure a

  abbrev pub gets : (State Db → A) → M Db A
  gets f s = (go (f s), s)

  -- A call through a function pointer of the backend.
  abbrev pub call_backend : (Db → A × Db) → M Db A
  call_backend f s = elim s.backend [
    | none ↦ (stop fault, s)
    | some db ↦ let (a, db') = f db in (go a, record s { backend = some db' })
  ]

module _ {Db : Type 0} where
  -- `CPL_ENSURE_INITIALIZED`
  abbrev pub ensure_initialized : M Db (Unit {0})
  ensure_initialized s = if not s.initialized then early cpl_e_not_initialized s else pure tt s

  -- A macro that returns `CPL_E_INVALID_ARGUMENT` if its test holds.
  abbrev pub refuse_if : Bool → M Db (Unit {0})
  refuse_if b = if b then early cpl_e_invalid_argument else pure tt

  -- `CPL_ENSURE_NOT_NONE(n)`
  abbrev pub ensure_not_none : ℕ → M Db (Unit {0})
  ensure_not_none n = refuse_if (n == cpl_none)

  -- `CPL_ENSURE_O_TYPE(n)` and `CPL_ENSURE_R_TYPE(n)`
  abbrev pub ensure_o_type : ℤ → M Db (Unit {0})
  ensure_o_type n = refuse_if (o_type_refused n)

  abbrev pub ensure_r_type : ℤ → M Db (Unit {0})
  ensure_r_type n = refuse_if (r_type_refused n)

  -- `CPL_RUNTIME_VERIFY(x)`
  abbrev pub runtime_verify : ℤ → M Db (Unit {0})
  runtime_verify x = if not (cpl_is_ok x) then early x else pure tt

  -- `mutex_lock` and `mutex_unlock` of the backend lock, which is not recursive.
  abbrev pub mutex_lock : M Db (Unit {0})
  mutex_lock s = if s.locked then (stop blocked, s) else (go tt, record s { locked = true })

  abbrev pub mutex_unlock : M Db (Unit {0})
  mutex_unlock s = (go tt, record s { locked = false })

  abbrev pub modify : (State Db → State Db) → M Db (Unit {0})
  modify f s = (go tt, f s)

  -- The last statement of a call that writes no cell.
  abbrev pub finish : ℤ → M Db (ℤ × Unit {0})
  finish code = pure (code, tt)

  -- `cpl_shared_semaphore_wait` and `cpl_shared_semaphore_post`.
  abbrev pub semaphore_wait : M Db (Unit {0})
  semaphore_wait s =
      if not s.sem_open
      then (stop fault, s)
      else if s.sem_value == 0
      then (stop blocked, s)
      else (go tt, record s { sem_value = s.sem_value - 1 })

  abbrev pub semaphore_post : M Db (Unit {0})
  semaphore_post s =
      if not s.sem_open then (stop fault, s) else (go tt, record s { sem_value = s.sem_value + 1 })

-- What the caller of a call sees: its code, and the cell, which an early return leaves alone.
abbrev pub caught : {O : Type 0} → O → Step (ℤ × O) → Step (ℤ × O)
caught out (go r) = go r
caught out (stop (returned code)) = go (code, out)
caught out (stop fault) = stop fault
caught out (stop blocked) = stop blocked
caught out (stop thrown) = stop thrown

module _ {Db O : Type 0} where
  abbrev pub called : O → M Db (ℤ × O) → M Db (ℤ × O)
  called out m s = let (r, s') = m s in (caught out r, s')

-- `if (p != NULL) *p = a;`
abbrev pub store {ℓ} : {A : Type ℓ} → Option A → A → Option A
store none a = none
store (some old) a = some a

-- How a call ended; the last statement of a call returns a code beside the cells that it wrote.
abbrev pub ending : {O : Type 0} → Step (ℤ × O) → Exit
ending (go r) = returned r.0
ending (stop e) = e
