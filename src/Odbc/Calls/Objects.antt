-- ===== src/Odbc/Calls/Objects.antt =====
-- `cpl_odbc_create_session`, `cpl_odbc_create_object`, `cpl_odbc_lookup_object`,
-- `cpl_odbc_lookup_object_ext`, `cpl_odbc_get_all_objects` and `cpl_odbc_get_bundle_objects`.
use prov_cpl.Prelude.{ℕ, ℤ, pos, Text, List, [], ◌∷◌, Option, some, if◌then◌else◌, eq_ℤ, take}
use prov_cpl.Codes.{cpl_e_not_found, cpl_s_no_data}
use prov_cpl.Api.Backend.{Iterator, IdTimestamp, ObjectInfo}
use prov_cpl.Odbc.Statements.{
  Statement, create_session, create_object, lookup_object_nt, lookup_object_t, lookup_object_nt_ext,
  lookup_object_t_ext, get_all_objects_nt, get_all_objects_t, get_bundle_objects,
}
use prov_cpl.Odbc.Driver.{Driver, Cell, Parameter, integer, varchar}
use prov_cpl.Odbc.State.{O, ◌>>=◌, pure, stmt_acquire}
use prov_cpl.Odbc.Execute.{bind_id, of_llong, sql_execute}
use prov_cpl.Odbc.Fetch.{as_number, as_text, as_time}
use prov_cpl.Odbc.Calls.{cpl_prefix_len, cpl_name_len, column, hand_over, give_id, give_rows}

-- Two statements, for a type that is 0 and for another, and the parameter for the latter.
abbrev pub typed : Statement → Statement → ℤ → Statement
typed nt t kind = if eq_ℤ kind (pos 0) then nt else t

abbrev pub type_parameter : ℤ → List Parameter
type_parameter kind = if eq_ℤ kind (pos 0) then [] else integer kind ∷ []

module _ {Conn Timestamp : Type 0} (d : Driver Conn Timestamp) where
  -- The sizes `CPL_MAC_ADDR_LEN`, `CPL_USER_LEN`, `CPL_PROGRAM_LEN` and `CPL_CMDLINE_LEN`.
  unfoldable pub cpl_odbc_create_session :
      Option Text → Text → ℤ → Text → Text → Option ℕ → O Conn (ℤ × Option ℕ)
  cpl_odbc_create_session mac_address user pid program cmdline out_id = do
    stmt ← stmt_acquire create_session
    executed ← sql_execute d stmt (
        varchar 18 mac_address
        ∷ varchar 255 (some user)
        ∷ integer pid
        ∷ varchar 4095 (some program)
        ∷ varchar 4095 (some cmdline)
        ∷ [])
    give_id d create_session stmt executed out_id

  unfoldable pub cpl_odbc_create_object : Text → Text → ℤ → Option ℕ → O Conn (ℤ × Option ℕ)
  cpl_odbc_create_object prefix name kind out_id = do
    stmt ← stmt_acquire create_object
    executed ← sql_execute d stmt (
        varchar cpl_prefix_len (some prefix) ∷ varchar cpl_name_len (some name) ∷ integer kind ∷ [])
    give_id d create_object stmt executed out_id

  unfoldable pub cpl_odbc_lookup_object : Text → Text → ℤ → Option ℕ → O Conn (ℤ × Option ℕ)
  cpl_odbc_lookup_object prefix name kind out_id = do
    let e = typed lookup_object_nt lookup_object_t kind
    stmt ← stmt_acquire e
    executed ← sql_execute d stmt (
        varchar cpl_prefix_len (some prefix)
        ∷ varchar cpl_name_len (some name)
        ∷ type_parameter kind)
    give_id d e stmt executed out_id

  -- One row: an identifier and a time.
  abbrev id_timestamp_row : List (Cell Timestamp) → List IdTimestamp
  id_timestamp_row cells =
      record {
        id = of_llong (as_number (column 0 cells).datum);
        timestamp = as_time d.unix_time (column 1 cells).datum;
      }
      ∷ []

  unfoldable pub cpl_odbc_lookup_object_ext :
      {Ctx : Type 0} → Text → Text → ℤ → ℤ → Iterator IdTimestamp Ctx → Ctx → O Conn (ℤ × Ctx)
  cpl_odbc_lookup_object_ext prefix name kind flags callback context = do
    let e = typed lookup_object_nt_ext lookup_object_t_ext kind
    stmt ← stmt_acquire e
    executed ← sql_execute d stmt (
        varchar cpl_prefix_len (some prefix)
        ∷ varchar cpl_name_len (some name)
        ∷ type_parameter kind)
    entries ← give_rows d e stmt executed 2 id_timestamp_row
    pure (hand_over cpl_e_not_found entries callback context)

  -- One row: an object. The texts are cut off as by the `strncpy` before the callback.
  abbrev pub object_row : List (Cell Timestamp) → List ObjectInfo
  object_row cells =
      record {
        id = of_llong (as_number (column 0 cells).datum);
        creation_time = as_time d.unix_time (column 1 cells).datum;
        prefix = take cpl_prefix_len (as_text (column 2 cells).datum);
        name = take cpl_name_len (as_text (column 3 cells).datum);
        kind = as_number (column 4 cells).datum;
      }
      ∷ []

  unfoldable pub cpl_odbc_get_all_objects :
      {Ctx : Type 0} → Option Text → ℤ → ℤ → Iterator ObjectInfo Ctx → Ctx → O Conn (ℤ × Ctx)
  cpl_odbc_get_all_objects prefix flags kind callback context = do
    let e = typed get_all_objects_nt get_all_objects_t kind
    stmt ← stmt_acquire e
    executed ← sql_execute d stmt (varchar cpl_prefix_len prefix ∷ type_parameter kind)
    entries ← give_rows d e stmt executed 5 object_row
    pure (hand_over cpl_s_no_data entries callback context)

  unfoldable pub cpl_odbc_get_bundle_objects :
      {Ctx : Type 0} → ℕ → Iterator ObjectInfo Ctx → Ctx → O Conn (ℤ × Ctx)
  cpl_odbc_get_bundle_objects id callback context = do
    stmt ← stmt_acquire get_bundle_objects
    executed ← sql_execute d stmt (bind_id id ∷ [])
    entries ← give_rows d get_bundle_objects stmt executed 5 object_row
    pure (hand_over cpl_s_no_data entries callback context)
