-- ===== src/Odbc/Connect.antt =====
-- `cpl_odbc_connect`, `cpl_odbc_disconnect`, `cpl_odbc_reconnect` and `cpl_odbc_destroy`. Memory
-- allocation succeeds. The handles of the environment and of the connection are the driver's.
use prov_cpl.Prelude.{ℕ, zero, suc, ℤ, List, [], ◌∷◌, Bool, true, false, some, if◌then◌else◌}
use prov_cpl.Codes.{cpl_ok}
use prov_cpl.Odbc.Statements.{Statement, all_statements, prepared_statements}
use prov_cpl.Odbc.Pool.{Slots}
use prov_cpl.Odbc.Driver.{Driver, sql_succeeded}
use prov_cpl.Odbc.State.{O, ◌>>=◌, ◌>>◌, pure, driver, set_pool, touch, cpl_stmt_max}

abbrev pub cpl_e_db_connection_error : ℤ
cpl_e_db_connection_error = ℤ.negsuc 2

abbrev pub cpl_e_prepare_statement_error : ℤ
cpl_e_prepare_statement_error = ℤ.negsuc 6

module _ {Conn Timestamp : Type 0} (d : Driver Conn Timestamp) where
  -- The loops of `FREE_HANDLE`, over the slots of one pool and over the pools.
  unfoldable pub free_slots : Slots → Conn → Conn
  free_slots [] c = c
  free_slots (stmt ∷ slots) c = free_slots slots (d.sql_free_handle stmt c)

  unfoldable pub free_pools : List Statement → (Statement → Slots) → Conn → Conn
  free_pools [] pools c = c
  free_pools (name ∷ names) pools c = free_pools names pools (free_slots (pools name) c)

  unfoldable pub cpl_odbc_free_statement_handles : O Conn (Unit {0})
  cpl_odbc_free_statement_handles s =
      (tt, record (touch s) { conn = free_pools all_statements s.pools s.conn; freed = true })

  -- `ALLOC_STMT` for one pool and for all of them.
  unfoldable pub alloc_slots : ℕ → Conn → Slots × Conn
  alloc_slots zero c = ([], c)
  alloc_slots (suc n) c =
      let (stmt, c') = d.sql_alloc_handle c in
      let (slots, c'') = alloc_slots n c' in (some stmt ∷ slots, c'')

  unfoldable pub alloc_stmts : List Statement → O Conn (Unit {0})
  alloc_stmts [] s = (tt, record s { freed = false })
  alloc_stmts (name ∷ names) s =
      let (slots, c) = alloc_slots cpl_stmt_max s.conn in
      alloc_stmts names (record s {
        conn = c;
        pools = set_pool name slots s.pools;
        issued = set_pool name slots s.issued;
      })

  -- `PREPARE` for one pool and for all of them: whether every statement was prepared.
  unfoldable pub prepare_slots : Statement → Slots → Conn → Bool × Conn
  prepare_slots name [] c = (true, c)
  prepare_slots name (stmt ∷ slots) c =
      let (ret, c') = d.sql_prepare stmt name c in
      let rest = prepare_slots name slots c' in if sql_succeeded ret then rest else (false, c')

  unfoldable pub prepare_pools : List Statement → (Statement → Slots) → Conn → Bool × Conn
  prepare_pools [] pools c = (true, c)
  prepare_pools (name ∷ names) pools c =
      let (prepared, c') = prepare_slots name (pools name) c in
      let rest = prepare_pools names pools c' in if prepared then rest else (false, c')

  unfoldable pub prepare_stmts : O Conn Bool
  prepare_stmts s =
      let (prepared, c) = prepare_pools prepared_statements s.pools s.conn in
      (prepared, record s { conn = c })

  -- The end of the call: the label `err_stmts` if a statement was not prepared.
  unfoldable pub finish_connect : Bool → O Conn ℤ
  finish_connect prepared = if prepared then pure cpl_ok else do
    cpl_odbc_free_statement_handles
    driver d.sql_disconnect
    pure cpl_e_prepare_statement_error

  -- What follows the connection.
  unfoldable pub set_up : O Conn ℤ
  set_up = do alloc_stmts all_statements; prepared ← prepare_stmts; finish_connect prepared

  unfoldable pub open_connection : O Conn Bool
  open_connection s =
      let (ret, c) = d.sql_driver_connect s.connection_string s.conn in
      (sql_succeeded ret, record s { conn = c })

  unfoldable pub cpl_odbc_connect : O Conn ℤ
  cpl_odbc_connect = do
    connected ← open_connection
    if connected then set_up else pure cpl_e_db_connection_error

  unfoldable pub cpl_odbc_disconnect : O Conn ℤ
  cpl_odbc_disconnect = do
    cpl_odbc_free_statement_handles
    ret ← driver d.sql_disconnect
    pure (if sql_succeeded ret then cpl_ok else cpl_e_db_connection_error)

  unfoldable pub cpl_odbc_reconnect : O Conn ℤ
  cpl_odbc_reconnect = do cpl_odbc_disconnect; cpl_odbc_connect

  unfoldable pub cpl_odbc_destroy : O Conn ℤ
  cpl_odbc_destroy = do cpl_odbc_disconnect; pure cpl_ok
