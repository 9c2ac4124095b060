-- ===== src/Odbc/Outs.antt =====
-- The calls that give an identifier: their codes, and what the cell of the caller then holds.
use prov_cpl.Prelude.{ℕ, ℤ, Text, Bool, true, false, Option, some, none, ◌≡◌, ◌⊎◌, arith}
use prov_cpl.Codes.{cpl_ok, cpl_e_not_found, cpl_e_statement_error}
use prov_cpl.Odbc.Statements.{Statement}
use prov_cpl.Odbc.Driver.{Driver}
use prov_cpl.Odbc.State.{Odbc, ◌>>=◌, ◌>>◌, pure, driver, stmt_release}
use prov_cpl.Odbc.Fetch.{
  close_with, null_value, close_ok, get_value, cpl_sql_fetch_single_value,
  cpl_sql_fetch_single_llong,
}
use prov_cpl.Odbc.Calls.{give_id}
use prov_cpl.Odbc.Calls.Objects.{cpl_odbc_create_object, cpl_odbc_lookup_object}
use prov_cpl.Odbc.Calls.Relations.{cpl_odbc_add_relation, cpl_odbc_lookup_relation}
use prov_cpl.Odbc.Calls.Properties.{cpl_odbc_lookup_object_property_wildcard}

-- Either the call succeeds, or it fails with one of two codes and has not touched the cell.
abbrev pub WritesOnSuccess : {A : Type 0} → A → ℤ × A → Type 0
WritesOnSuccess out (code, left) =
    (code ≡ cpl_ok) ⊎ (((code ≡ cpl_e_not_found) ⊎ (code ≡ cpl_e_statement_error)) × (left ≡ out))

-- What reading one value gives.
abbrev FetchedValue : {A : Type 0} → ℤ × Option A → Type 0
FetchedValue (code, some value) = code ≡ cpl_ok
FetchedValue (code, none) = (code ≡ cpl_e_not_found) ⊎ (code ≡ cpl_e_statement_error)

module _ {Conn Timestamp : Type 0} (d : Driver Conn Timestamp) where
  get_value-FetchedValue :
      (stmt : Option ℕ) (column : ℕ) (s : Odbc Conn)
      → FetchedValue (get_value d stmt column true false s).0
  unfolding get_value close_with null_value close_ok ◌>>=◌ ◌>>◌ driver pure
  get_value-FetchedValue stmt column s = ground arith

  fetch-FetchedValue :
      (stmt : Option ℕ) (s : Odbc Conn) → FetchedValue (cpl_sql_fetch_single_llong d stmt s).0
  unfolding cpl_sql_fetch_single_llong cpl_sql_fetch_single_value close_with ◌>>=◌ ◌>>◌ driver pure
  fetch-FetchedValue stmt s =
      let k = get_value-FetchedValue stmt 1 (record s { conn = (d.sql_fetch stmt s.conn).1 }) in
      ground arith

  give_id-WritesOnSuccess :
      (name : Statement) (stmt : Option ℕ) (b : Bool) (out : Option ℕ) (s : Odbc Conn)
      → WritesOnSuccess out (give_id d name stmt b out s).0
  unfolding give_id ◌>>=◌ ◌>>◌ pure stmt_release
  give_id-WritesOnSuccess name stmt b out s = let k = fetch-FetchedValue stmt s in ground arith

  -- Whatever the driver does, the calls that create or look up an object, a relation or an object by
  -- a value return `CPL_OK`, or else leave the caller's cell alone and return `CPL_E_NOT_FOUND` or
  -- `CPL_E_STATEMENT_ERROR`.
  pub calls-WritesOnSuccess :
      (prefix name value : Text) (kind : ℤ) (from to : ℕ) (out : Option ℕ) (s : Odbc Conn)
      → WritesOnSuccess out (cpl_odbc_create_object d prefix name kind out s).0
        × WritesOnSuccess out (cpl_odbc_lookup_object d prefix name kind out s).0
        × WritesOnSuccess out (cpl_odbc_add_relation d from to kind out s).0
        × WritesOnSuccess out (cpl_odbc_lookup_relation d from to kind out s).0
        × WritesOnSuccess out (cpl_odbc_lookup_object_property_wildcard d (some value) out s).0
  unfolding cpl_odbc_create_object cpl_odbc_lookup_object cpl_odbc_add_relation
      cpl_odbc_lookup_relation cpl_odbc_lookup_object_property_wildcard ◌>>=◌
  calls-WritesOnSuccess prefix name value kind from to out s = (
    give_id-WritesOnSuccess _ _ _ out _,
    give_id-WritesOnSuccess _ _ _ out _,
    give_id-WritesOnSuccess _ _ _ out _,
    give_id-WritesOnSuccess _ _ _ out _,
    give_id-WritesOnSuccess _ _ _ out _,
  )
