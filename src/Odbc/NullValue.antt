-- ===== src/Odbc/NullValue.antt =====
-- The look-up of an object by a value that is NULL.
use prov_cpl.Prelude.{ℕ, true, Option, some, none, ◌≡◌, refl}
use prov_cpl.Api.Effect.{State}
use prov_cpl.Api.Call.{lookup_object_property_wildcard, perform}
use prov_cpl.Api.Numbers.{Numbers}
use prov_cpl.Odbc.Driver.{Driver}
use prov_cpl.Odbc.State.{Odbc, ◌>>=◌, ◌>>◌, pure}
use prov_cpl.Api.Within.{Within}
use prov_cpl.Odbc.Calls.Properties.{cpl_odbc_lookup_object_property_wildcard}
use prov_cpl.Odbc.Interface.{cpl_odbc_backend}

module _ (Ctx : Type 0) {Conn Timestamp Double : Type 0} (d : Driver Conn Timestamp)
    (numbers : Numbers Double) where
  -- On an attached library over the ODBC backend a look-up by a value that is NULL passes the library,
  -- and the backend reads the length of the text through NULL.
  pub wildcard_null :
      (out : Option ℕ) (s : State (Odbc Conn)) (db : Odbc Conn)
      → s.initialized ≡ true
      → s.backend ≡ some db
      → Within
          (λ t. t.corrupted ≡ true)
          (perform
            (cpl_odbc_backend {Ctx = Ctx} d)
            numbers
            (lookup_object_property_wildcard none out)
            s).1
  unfolding perform cpl_odbc_lookup_object_property_wildcard ◌>>=◌ ◌>>◌ pure
  wildcard_null out s db e f = rw (e, f) refl
