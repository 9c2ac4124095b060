-- ===== src/Odbc/Calls.antt =====
-- The calls of the ODBC backend, as a release build has them: `assert` does nothing. Here are the parts
-- that several of them have in common, each from `SQL_EXECUTE` on.
pub mod Objects
pub mod Relations
pub mod Properties
pub mod Info
use prov_cpl.Prelude.{
  ℕ, zero, suc, ℤ, pos, negsuc, Text, List, [], ◌∷◌, Bool, true, false, not, Option, none, some,
  if◌then◌else◌, get_elem?, ltb, ◌%◌, ◌^◌, ◌-◌,
}
use prov_cpl.Codes.{cpl_ok, cpl_is_ok, cpl_e_statement_error}
use prov_cpl.Api.Effect.{store}
use prov_cpl.Api.Backend.{Iterator}
use prov_cpl.Odbc.Statements.{Statement}
use prov_cpl.Odbc.Driver.{Driver, Datum, number, Cell}
use prov_cpl.Odbc.State.{Odbc, O, ◌>>=◌, ◌>>◌, pure, driver, stmt_acquire, stmt_release}
use prov_cpl.Odbc.Execute.{of_llong, sql_execute}
use prov_cpl.Odbc.Fetch.{as_number, cpl_sql_fetch_single_llong, collect_rows}

-- The sizes of include/backends/cpl-odbc.h.
abbrev pub cpl_prefix_len : ℕ
cpl_prefix_len = 255

abbrev pub cpl_name_len : ℕ
cpl_name_len = 255

abbrev pub cpl_key_len : ℕ
cpl_key_len = 255

abbrev pub cpl_value_len : ℕ
cpl_value_len = 4095

-- `if (out_id != NULL) *out_id = id;`, where `id` is `CPL_NONE` if nothing was read.
abbrev pub read_id : {Timestamp : Type 0} → Option (Datum Timestamp) → ℕ
read_id none = 0
read_id (some value) = of_llong (as_number value)

-- The bound column with this index, from 0.
abbrev pub column : {Timestamp : Type 0} → ℕ → List (Cell Timestamp) → Cell Timestamp
column i cells = elim (get_elem? cells i) [
  | none ↦ record { is_null = true; datum = number (pos 0) }
  | some cell ↦ cell
]

-- The loop that hands the entries to the callback.
unfoldable pub iterate : {E Ctx : Type 0} → List E → Iterator E Ctx → Ctx → ℤ × Ctx
iterate [] callback context = (cpl_ok, context)
iterate (entry ∷ entries) callback context =
    let (r, context') = callback entry context in
    let rest = iterate entries callback context' in
    if not (cpl_is_ok r) then (r, context') else rest

-- From the test for an empty result on; `none` if the rows could not be read.
unfoldable pub hand_over : {E Ctx : Type 0} → ℤ → Option (List E) → Iterator E Ctx → Ctx → ℤ × Ctx
unfolding iterate
hand_over empty none callback context = (cpl_e_statement_error, context)
hand_over empty (some []) callback context = (empty, context)
hand_over empty (some (entry ∷ entries)) callback context =
    iterate (entry ∷ entries) callback context

module _ {Conn Timestamp : Type 0} (d : Driver Conn Timestamp) where
  -- A call that gives one identifier: its fetch, its two returns and its label `err`.
  unfoldable pub give_id : Statement → Option ℕ → Bool → Option ℕ → O Conn (ℤ × Option ℕ)
  give_id name stmt executed out_id =
      if not executed
      then (do stmt_release name stmt; pure (cpl_e_statement_error, out_id))
      else (do
        r ← cpl_sql_fetch_single_llong d stmt
        if not (cpl_is_ok r.0)
            then (do stmt_release name stmt; pure (r.0, out_id))
            else (do stmt_release name stmt; pure (cpl_ok, store out_id (read_id r.1))))

  -- A call that only writes.
  unfoldable pub finish_write : Statement → Option ℕ → Bool → O Conn ℤ
  finish_write name stmt executed =
      if executed
      then (do stmt_release name stmt; pure cpl_ok)
      else (do stmt_release name stmt; pure cpl_e_statement_error)

  -- A call that reads rows: its loop, and the release on every way out of it; `none` is the return
  -- of `CPL_E_STATEMENT_ERROR`.
  unfoldable pub give_rows :
      {E : Type 0}
      → Statement
      → Option ℕ
      → Bool
      → ℕ
      → (List (Cell Timestamp) → List E)
      → O Conn (Option (List E))
  give_rows name stmt executed columns read =
      if not executed
      then (do stmt_release name stmt; pure none)
      else do entries ← collect_rows d stmt columns read; stmt_release name stmt; pure entries
