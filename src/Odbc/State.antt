-- ===== src/Odbc/State.antt =====
-- `cpl_odbc_t` as the calls of the backend see it, and the pools of statements in it.
use prov_cpl.Prelude.{ℕ, Text, Bool, true, false, ◌||◌, Option, none, some, if◌then◌else◌}
use prov_cpl.Odbc.Statements.{Statement, same, get_prefixes_with_key}
use prov_cpl.Odbc.Pool.{Slots, take_first, cpl_acquire_stmt, cpl_release_stmt}

-- `CPL_STMT_MAX`
abbrev pub cpl_stmt_max : ℕ
cpl_stmt_max = 4

-- `freed`: the arrays of handles have been freed, and not been allocated again. `corrupted`: the code
-- has read or written a freed array, freed it a second time, or read through NULL. `waits`: a call has
-- waited for ever on the semaphore of a pool; the state is then followed as if it had not.
-- `get_prefixes_with_key_sem` and its lock are never initialised: the value is what the memory held, 0
-- if a call waits there for ever. `issued` is no part of the structure: the handles that the last
-- allocation put into the arrays, which nothing reads.
pub record Odbc (Conn : Type 0) : Type 0 where
  pub connection_string : Text
  pub conn : Conn
  pub pools : Statement → Slots
  pub freed : Bool
  pub corrupted : Bool
  pub waits : Bool
  pub get_prefixes_with_key_sem : ℕ
  pub issued : Statement → Slots

-- A part of a call. The failures of the code are values, since it jumps to its labels by `goto`.
abbrev pub O : Type 0 → Type 0 → Type 0
O Conn A = Odbc Conn → A × Odbc Conn

module _ {Conn A B : Type 0} where
  infixl 5 ◌>>=◌ ◌>>◌
  unfoldable pub ◌>>=◌ : O Conn A → (A → O Conn B) → O Conn B
  ◌>>=◌ m f s = let (a, t) = m s in f a t

  unfoldable pub ◌>>◌ : O Conn A → O Conn B → O Conn B
  unfolding ◌>>=◌
  m >> n = m >>= λ _. n

module _ {Conn A : Type 0} where
  unfoldable pub pure : A → O Conn A
  pure a s = (a, s)

  -- A call of the driver.
  unfoldable pub driver : (Conn → A × Conn) → O Conn A
  driver f s = let (a, c) = f s.conn in (a, record s { conn = c })

abbrev pub set_pool : Statement → Slots → (Statement → Slots) → Statement → Slots
set_pool name slots pools other = if same other name then slots else pools other

-- The pool of a statement, and what putting a handle back into it gives; NULL in a slot that is NULL
-- changes nothing.
abbrev pub put_back : Option ℕ → Slots → Slots
put_back none slots = slots
put_back (some h) slots = cpl_release_stmt slots h

module _ {Conn : Type 0} where
  -- The use of the arrays.
  abbrev pub touch : Odbc Conn → Odbc Conn
  touch s = if s.freed then record s { corrupted = true } else s

  -- The semaphore of a pool: a copy that still has its first value.
  abbrev pub semaphore_of : Statement → Odbc Conn → ℕ
  semaphore_of name s =
      if same name get_prefixes_with_key then s.get_prefixes_with_key_sem else cpl_stmt_max

  -- Whether `cpl_acquire_stmt` waits for ever.
  abbrev pub waits_for : Statement → Odbc Conn → Bool
  waits_for name s = elim (cpl_acquire_stmt (semaphore_of name s) (s.pools name)) [
    | none ↦ true
    | some taken ↦ false
  ]

  -- `STMT_ACQUIRE`
  unfoldable pub stmt_acquire : Statement → O Conn (Option ℕ)
  stmt_acquire name s =
      let (stmt, left) = take_first (s.pools name) in
      (
        stmt,
        record (touch s) {
          pools = set_pool name left s.pools;
          waits = s.waits || waits_for name s;
        },
      )

  -- `STMT_RELEASE`
  unfoldable pub stmt_release : Statement → Option ℕ → O Conn (Unit {0})
  stmt_release name stmt s =
      (tt, record (touch s) { pools = set_pool name (put_back stmt (s.pools name)) s.pools })
