-- ===== src/Odbc/Pool.antt =====
-- The pools of prepared statements: `cpl_acquire_stmt` and `cpl_release_stmt` of
-- backends/cpl-odbc/cpl-odbc.cpp. Both take the semaphore and the mutex by value (`sema_t` is a
-- structure on Linux), so that they wait on copies and post to copies, which end with the call: the
-- pool's semaphore keeps the value that it was made with, and its mutex is never held.
pub mod Laws
use prov_cpl.Prelude.{ℕ, List, [], ◌∷◌, Option, none, some, if◌then◌else◌, ◌==◌}

-- `CPL_STMT_MAX` slots; NULL is `none`. A handle is a number.
abbrev pub Slots : Type 0
Slots = List (Option ℕ)

-- The loop: the first handle that is there leaves its slot.
unfoldable pub take_first : Slots → Option ℕ × Slots
take_first [] = (none, [])
take_first (some stmt ∷ slots) = (some stmt, none ∷ slots)
take_first (none ∷ slots) = let (found, left) = take_first slots in (found, none ∷ left)

-- What the call gives; `none` if it waits for ever, on a copy of a semaphore at 0. If there is no handle
-- the result is NULL.
unfoldable pub cpl_acquire_stmt : ℕ → Slots → Option (Option ℕ × Slots)
unfolding take_first
cpl_acquire_stmt semaphore stmt_array =
    if semaphore == 0 then none else some (take_first stmt_array)

-- The loop has no `break` and no `return`: every slot that is NULL gets the handle.
unfoldable pub cpl_release_stmt : Slots → ℕ → Slots
cpl_release_stmt [] stmt = []
cpl_release_stmt (none ∷ slots) stmt = some stmt ∷ cpl_release_stmt slots stmt
cpl_release_stmt (some other ∷ slots) stmt = some other ∷ cpl_release_stmt slots stmt
