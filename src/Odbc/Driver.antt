-- ===== src/Odbc/Driver.antt =====
-- The ODBC functions that backends/cpl-odbc/cpl-odbc.cpp calls. They and the database behind them are
-- not part of the repository: the driver is a record of functions over a type that stands for the
-- connection with all that it reaches.
use prov_cpl.Prelude.{ℕ, ℤ, Bool, Text, List, Option}
use prov_cpl.Odbc.Statements.{Statement}

-- `SQLRETURN`
pub data SqlReturn : Type 0 where
  sql_success sql_success_with_info sql_no_data sql_invalid_handle sql_error : SqlReturn

-- `SQL_SUCCEEDED`
abbrev pub sql_succeeded : SqlReturn → Bool
sql_succeeded sql_success = Bool.true
sql_succeeded sql_success_with_info = Bool.true
sql_succeeded sql_no_data = Bool.false
sql_succeeded sql_invalid_handle = Bool.false
sql_succeeded sql_error = Bool.false

abbrev pub is_no_data : SqlReturn → Bool
is_no_data sql_no_data = Bool.true
is_no_data _ = Bool.false

-- A parameter of a statement: `SQL_BIND_INTEGER`, and `SQL_BIND_VARCHAR` with its size, where NULL is
-- `none`.
pub data Parameter : Type 0 where
  integer : ℤ → Parameter
  varchar : ℕ → Option Text → Parameter

-- What a buffer holds, by the C type that it was bound with.
pub data Datum (Timestamp : Type 0) : Type 0 where
  number : ℤ → Datum Timestamp
  characters : Text → Datum Timestamp
  timestamp : Timestamp → Datum Timestamp

-- A bound column after a fetch: whether its indicator says `SQL_NULL_DATA`, and what the buffer holds.
pub record Cell (Timestamp : Type 0) : Type 0 where
  pub is_null : Bool
  pub datum : Datum Timestamp

-- A handle is a number; NULL is `none`.
pub record Driver (Conn Timestamp : Type 0) : Type 0 where
  pub sql_driver_connect : Text → Conn → SqlReturn × Conn
  pub sql_disconnect : Conn → SqlReturn × Conn
  -- `SQLAllocHandle` of a statement; the code does not look at its result.
  pub sql_alloc_handle : Conn → ℕ × Conn
  pub sql_free_handle : Option ℕ → Conn → Conn
  pub sql_prepare : Option ℕ → Statement → Conn → SqlReturn × Conn
  pub sql_bind_parameter : Option ℕ → ℕ → Parameter → Conn → SqlReturn × Conn
  pub sql_execute : Option ℕ → Conn → SqlReturn × Conn
  -- The answers of `SQLGetDiagRec` to the indices 1, 2, and so on, each with the state that it wrote.
  pub sql_diag_recs : Option ℕ → Conn → List (SqlReturn × Text)
  pub sql_bind_col : Option ℕ → ℕ → Conn → SqlReturn × Conn
  pub sql_fetch : Option ℕ → Conn → SqlReturn × Conn
  -- How many rows the result set has left, and the bound columns after the last fetch.
  pub sql_rows_left : Option ℕ → Conn → ℕ
  pub sql_cells : Option ℕ → Conn → List (Cell Timestamp)
  -- The result, the indicator `cb` and the value.
  pub sql_get_data : Option ℕ → ℕ → Conn → (SqlReturn × ℤ × Datum Timestamp) × Conn
  pub sql_close_cursor : Option ℕ → Conn → SqlReturn × Conn
  -- `cpl_sql_timestamp_to_unix_time`, which rests on `mktime` and `localtime_r`.
  pub unix_time : Timestamp → ℕ
