-- ===== src/Odbc/Delivery.antt =====
-- How a call of backends/cpl-odbc/cpl-odbc.cpp hands the rows that it has fetched to a callback that
-- may throw. The calls that list rows all end like this, each with its own structure and with its own
-- code for no rows, which is the first argument: `CPL_E_NOT_FOUND` in `cpl_odbc_lookup_object_ext` and
-- in `cpl_odbc_lookup_object_by_property`, `CPL_S_NO_DATA` in the others.
use prov_cpl.Prelude.{ℤ, List, [], ◌∷◌, Option, none, some, not, if◌then◌else◌}
use prov_cpl.Codes.{cpl_ok, cpl_is_ok}
use prov_cpl.Api.Collect.{Reply, replied, threw, undefined}

-- What follows the callback for one row: its failure is returned at once.
abbrev pub proceed : {Ctx : Type 0} → Reply Ctx → (Ctx → Reply Ctx) → Reply Ctx
proceed (replied r context) rest = if not (cpl_is_ok r) then replied r context else rest context
proceed threw rest = threw
proceed undefined rest = undefined

module _ {E Ctx : Type 0} where
  -- The `for` loop, and the `return` behind it.
  unfoldable pub each : List E → (E → Ctx → Reply Ctx) → Ctx → Reply Ctx
  each [] callback context = replied cpl_ok context
  each (entry ∷ entries) callback context = proceed (callback entry context) (each entries callback)

  -- From `if (entries.empty())` on.
  unfoldable pub deliver : ℤ → List E → Option (E → Ctx → Reply Ctx) → Ctx → Reply Ctx
  deliver empty [] callback context = replied empty context
  deliver empty (entry ∷ entries) none context = replied cpl_ok context
  deliver empty (entry ∷ entries) (some callback) context = each (entry ∷ entries) callback context
