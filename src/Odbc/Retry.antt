-- ===== src/Odbc/Retry.antt =====
-- What becomes of `SQL_EXECUTE` behind a reconnection: the handle that it was called with belongs to
-- the connection that was closed.
use prov_cpl.Prelude.{ℕ, Text, [], Bool, false, Option, some, ◌≡◌, ◌≢◌}
use prov_cpl.Odbc.Statements.{Statement}
use prov_cpl.Odbc.Driver.{Driver, Parameter, sql_invalid_handle}
use prov_cpl.Odbc.State.{Odbc}
use prov_cpl.Odbc.Execute.{sql_execute}

module _ {Conn Timestamp : Type 0} (d : Driver Conn Timestamp)
    (valid : Option ℕ → Conn → Bool) where
  -- What ODBC says of the statement handles of a connection: `SQLDisconnect` frees them all, a handle
  -- that is not valid becomes valid only if it is allocated, and a function that gets one that is not
  -- valid gives `SQL_INVALID_HANDLE`, as does `SQLGetDiagRec`, so that there is no error to read.
  pub record FreesStatements : Type 0 where
    pub disconnects : (stmt : Option ℕ) (c : Conn) → valid stmt (d.sql_disconnect c).1 ≡ false
    pub connects :
        (stmt : Option ℕ) (text : Text) (c : Conn)
        → valid stmt c ≡ false
        → valid stmt (d.sql_driver_connect text c).1 ≡ false
    pub allocates :
        (stmt : Option ℕ) (c : Conn)
        → valid stmt c ≡ false
        → stmt ≢ some (d.sql_alloc_handle c).0
        → valid stmt (d.sql_alloc_handle c).1 ≡ false
    pub prepares :
        (stmt other : Option ℕ) (name : Statement) (c : Conn)
        → valid stmt c ≡ false
        → valid stmt (d.sql_prepare other name c).1 ≡ false
    pub binds :
        (stmt : Option ℕ) (arg : ℕ) (p : Parameter) (c : Conn)
        → valid stmt c ≡ false
        → (d.sql_bind_parameter stmt arg p c).0 ≡ sql_invalid_handle
    pub executes :
        (stmt : Option ℕ) (c : Conn)
        → valid stmt c ≡ false
        → (d.sql_execute stmt c).0 ≡ sql_invalid_handle
    pub reports :
        (stmt : Option ℕ) (c : Conn)
        → valid stmt c ≡ false
        → d.sql_diag_recs stmt (d.sql_execute stmt c).1 ≡ []
