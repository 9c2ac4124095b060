-- ===== src/Odbc/Calls/Info.antt =====
-- `cpl_odbc_get_session_info` and `cpl_odbc_get_object_info`, which read the columns of one row.
use prov_cpl.Prelude.{
  ℕ, ℤ, pos, negsuc, ◌-◌, ◌%◌, ◌^◌, Text, [], ◌∷◌, Bool, true, false, not, ◌&&◌, Option, none, some,
  if◌then◌else◌, ltb, eq_ℤ,
}
use prov_cpl.Codes.{cpl_ok, cpl_is_ok, cpl_e_statement_error, cpl_e_db_null}
use prov_cpl.Api.Backend.{SessionInfo, ObjectInfo}
use prov_cpl.Odbc.Statements.{Statement, get_session_info, get_object_info}
use prov_cpl.Odbc.Driver.{Driver, Datum, sql_succeeded}
use prov_cpl.Odbc.State.{O, ◌>>=◌, ◌>>◌, pure, driver, stmt_acquire, stmt_release}
use prov_cpl.Odbc.Execute.{bind_id, sql_execute}
use prov_cpl.Odbc.Fetch.{as_number, as_text, as_time, cpl_sql_simple_fetch}

-- `(int) l` of a `long long`.
abbrev to_int : ℤ → ℤ
to_int (pos n) =
    if ltb (n % 2 ^ 32) (2 ^ 31) then pos (n % 2 ^ 32) else negsuc (2 ^ 32 - 1 - n % 2 ^ 32)
to_int (negsuc n) =
    if ltb (n % 2 ^ 32) (2 ^ 31) then negsuc (n % 2 ^ 32) else pos (2 ^ 32 - 1 - n % 2 ^ 32)

module _ {Timestamp : Type 0} where
  -- A text that was read; a NULL that is handled is the empty text.
  abbrev text_of : Option (Datum Timestamp) → Text
  text_of none = []
  text_of (some value) = as_text value

  abbrev number_of_value : Option (Datum Timestamp) → ℤ
  number_of_value none = pos 0
  number_of_value (some value) = as_number value

  abbrev time_of : (Timestamp → ℕ) → Option (Datum Timestamp) → ℕ
  time_of unix_time none = 0
  time_of unix_time (some value) = as_time unix_time value

module _ {Conn Timestamp : Type 0} (d : Driver Conn Timestamp) where
  -- The label `err_r`: what was read is freed.
  unfoldable pub err_r : {A : Type 0} → Statement → Option ℕ → A → ℤ → O Conn (ℤ × A)
  err_r name stmt out r = do stmt_release name stmt; pure (r, out)

  -- `CPL_SQL_SIMPLE_FETCH_EXT`, with the rest of the call, and where the macro jumps.
  unfoldable pub simple_fetch :
      {B : Type 0}
      → Option ℕ
      → ℕ
      → Bool
      → (ℤ → O Conn B)
      → (Option (Datum Timestamp) → O Conn B)
      → O Conn B
  simple_fetch stmt column handle_nulls fail rest = do
    r ← cpl_sql_simple_fetch d stmt column handle_nulls
    if not (eq_ℤ r.0 cpl_e_db_null) && not (cpl_is_ok r.0) then fail r.0 else rest r.1

  -- From `SQLCloseCursor` on: the structure is given out if the cursor closes.
  unfoldable pub close_and_give :
      {A : Type 0} → Statement → Option ℕ → Option A → A → O Conn (ℤ × Option A)
  close_and_give name stmt out p = do
    ret ← driver (d.sql_close_cursor stmt)
    if not (sql_succeeded ret)
        then err_r name stmt out cpl_e_statement_error
        else (do stmt_release name stmt; pure (cpl_ok, some p))

  unfoldable pub read_session_info :
      Option ℕ → ℕ → Option SessionInfo → O Conn (ℤ × Option SessionInfo)
  read_session_info stmt id out =
      let fail = err_r get_session_info stmt out in
      simple_fetch stmt 1 false fail λ mac_address. simple_fetch stmt 2 false fail λ user.
        simple_fetch stmt 3 false fail λ l. simple_fetch stmt 4 false fail λ program.
          simple_fetch stmt 5 false fail λ cmdline. simple_fetch stmt 6 false fail λ start_time.
            close_and_give get_session_info stmt out record {
              id = id;
              mac_address = some (text_of mac_address);
              user = some (text_of user);
              pid = to_int (number_of_value l);
              program = some (text_of program);
              cmdline = some (text_of cmdline);
              start_time = time_of d.unix_time start_time;
            }

  unfoldable pub cpl_odbc_get_session_info :
      ℕ → Option SessionInfo → O Conn (ℤ × Option SessionInfo)
  cpl_odbc_get_session_info id out = do
    stmt ← stmt_acquire get_session_info
    executed ← sql_execute d stmt (bind_id id ∷ [])
    if not executed
        then err_r get_session_info stmt out cpl_e_statement_error
        else read_session_info stmt id out

  unfoldable pub read_object_info :
      Option ℕ → ℕ → Option ObjectInfo → O Conn (ℤ × Option ObjectInfo)
  read_object_info stmt id out =
      let fail = err_r get_object_info stmt out in
      simple_fetch stmt 1 false fail λ creation_time. simple_fetch stmt 2 true fail λ prefix.
        simple_fetch stmt 3 true fail λ name. simple_fetch stmt 4 false fail λ kind.
          close_and_give get_object_info stmt out record {
            id = id;
            creation_time = time_of d.unix_time creation_time;
            prefix = text_of prefix;
            name = text_of name;
            kind = number_of_value kind;
          }

  unfoldable pub cpl_odbc_get_object_info : ℕ → Option ObjectInfo → O Conn (ℤ × Option ObjectInfo)
  cpl_odbc_get_object_info id out = do
    stmt ← stmt_acquire get_object_info
    executed ← sql_execute d stmt (bind_id id ∷ [])
    if not executed
        then err_r get_object_info stmt out cpl_e_statement_error
        else read_object_info stmt id out
