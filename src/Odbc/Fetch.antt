-- ===== src/Odbc/Fetch.antt =====
-- The reading of results: one value after the other, or all rows through bound columns.
use prov_cpl.Prelude.{
  ℕ, zero, suc, ℤ, pos, ◌+◌, Text, List, [], ◌++◌, Bool, true, false, not, Option, none, some,
  if◌then◌else◌, ltb_ℤ, ◌==◌,
}
use prov_cpl.Codes.{cpl_ok, cpl_e_statement_error, cpl_e_not_found, cpl_e_db_null}
use prov_cpl.Odbc.Driver.{
  Driver, sql_succeeded, is_no_data, Datum, number, characters, timestamp, Cell,
}
use prov_cpl.Odbc.State.{O, ◌>>=◌, ◌>>◌, pure, driver}

module _ {Timestamp : Type 0} where
  -- What a buffer of one C type holds; the driver writes data of that type alone.
  abbrev pub as_number : Datum Timestamp → ℤ
  as_number (number n) = n
  as_number (characters text) = pos 0
  as_number (timestamp t) = pos 0

  abbrev pub as_text : Datum Timestamp → Text
  as_text (number n) = []
  as_text (characters text) = text
  as_text (timestamp t) = []

  abbrev pub as_time : (Timestamp → ℕ) → Datum Timestamp → ℕ
  as_time unix_time (number n) = 0
  as_time unix_time (characters text) = 0
  as_time unix_time (timestamp t) = unix_time t

-- How the loop over the rows ends: by `SQL_NO_DATA`, by a failure, or not within the fuel.
pub data Ended (E : Type 0) : Type 0 where
  all_rows : List E → Ended E
  fetch_failed out_of_fuel : Ended E

module _ {Conn Timestamp : Type 0} (d : Driver Conn Timestamp) where
  -- The labels `err`, `err_nf` and `err_null`.
  unfoldable pub close_with : Option ℕ → ℤ → O Conn (ℤ × Option (Datum Timestamp))
  close_with stmt code = do driver (d.sql_close_cursor stmt); pure (code, none)

  unfoldable pub null_value : Option ℕ → Bool → O Conn (ℤ × Option (Datum Timestamp))
  null_value stmt handle_nulls =
      if handle_nulls then pure (cpl_e_db_null, none) else close_with stmt cpl_e_not_found

  unfoldable pub close_ok : Option ℕ → Datum Timestamp → O Conn (ℤ × Option (Datum Timestamp))
  close_ok stmt value = do
    ret ← driver (d.sql_close_cursor stmt)
    if sql_succeeded ret then pure (cpl_ok, some value) else close_with stmt cpl_e_statement_error

  -- After the fetch.
  unfoldable pub get_value : Option ℕ → ℕ → Bool → Bool → O Conn (ℤ × Option (Datum Timestamp))
  get_value stmt column close_if_ok handle_nulls = do
    got ← driver (d.sql_get_data stmt column)
    if is_no_data got.0
        then null_value stmt handle_nulls
        else if not (sql_succeeded got.0)
        then close_with stmt cpl_e_statement_error
        else if not (ltb_ℤ (pos 0) got.1)
        then null_value stmt handle_nulls
        else if close_if_ok
        then close_ok stmt got.2
        else pure (cpl_ok, some got.2)

  -- The code, and the value where it is `CPL_OK`.
  unfoldable pub cpl_sql_fetch_single_value :
      Option ℕ → ℕ → Bool → Bool → Bool → O Conn (ℤ × Option (Datum Timestamp))
  cpl_sql_fetch_single_value stmt column fetch close_if_ok handle_nulls =
      if fetch
      then (do
        ret ← driver (d.sql_fetch stmt)
        if is_no_data ret
            then close_with stmt cpl_e_not_found
            else if not (sql_succeeded ret)
            then close_with stmt cpl_e_statement_error
            else get_value stmt column close_if_ok handle_nulls)
      else get_value stmt column close_if_ok handle_nulls

  -- `cpl_sql_fetch_single_llong(stmt, &id, 1)`, with what the variable then holds.
  unfoldable pub cpl_sql_fetch_single_llong : Option ℕ → O Conn (ℤ × Option (Datum Timestamp))
  cpl_sql_fetch_single_llong stmt = cpl_sql_fetch_single_value stmt 1 true true false

  -- `CPL_SQL_SIMPLE_FETCH_EXT`: column 1 fetches the row, and the cursor stays open.
  unfoldable pub cpl_sql_simple_fetch : Option ℕ → ℕ → Bool → O Conn (ℤ × Option (Datum Timestamp))
  cpl_sql_simple_fetch stmt column handle_nulls =
      cpl_sql_fetch_single_value stmt column (column == 1) false handle_nulls

  -- The calls of `SQLBindCol` for the columns from one on: `false` jumps to `err_close`.
  unfoldable pub bind_cols : ℕ → ℕ → Option ℕ → O Conn Bool
  bind_cols zero column stmt = pure true
  bind_cols (suc columns) column stmt = do
    ret ← driver (d.sql_bind_col stmt column)
    if sql_succeeded ret then bind_cols columns (column + 1) stmt else pure false

  -- The loop `while (true)` around `SQLFetch`, with fuel, and the entries so far.
  unfoldable pub fetch_loop :
      {E : Type 0} → ℕ → Option ℕ → (List (Cell Timestamp) → List E) → List E → O Conn (Ended E)
  fetch_loop zero stmt read entries = pure out_of_fuel
  fetch_loop (suc fuel) stmt read entries = do
    ret ← driver (d.sql_fetch stmt)
    cells ← driver (λ c. (d.sql_cells stmt c, c))
    if sql_succeeded ret
        then fetch_loop fuel stmt read (entries ++ read cells)
        else pure (if is_no_data ret then all_rows entries else fetch_failed)

  -- What follows the loop: `none` jumps to `err`.
  unfoldable pub close_rows : {E : Type 0} → Option ℕ → Ended E → O Conn (Option (List E))
  close_rows stmt (all_rows entries) = do
    ret ← driver (d.sql_close_cursor stmt)
    pure (if sql_succeeded ret then some entries else none)
  close_rows stmt fetch_failed = do driver (d.sql_close_cursor stmt); pure none
  close_rows stmt out_of_fuel = pure none

  -- The fuel is one round more than there are rows.
  unfoldable pub collect_rows :
      {E : Type 0} → Option ℕ → ℕ → (List (Cell Timestamp) → List E) → O Conn (Option (List E))
  collect_rows stmt columns read = do
    bound ← bind_cols columns 1 stmt
    if not bound then (do driver (d.sql_close_cursor stmt); pure none) else do
      rows ← driver (λ c. (d.sql_rows_left stmt c, c))
      ended ← fetch_loop (suc rows) stmt read []
      close_rows stmt ended
