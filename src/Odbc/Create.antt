-- ===== src/Odbc/Create.antt =====
-- `cpl_create_odbc_backend` and `cpl_create_odbc_backend_dsn`.
pub mod Laws
use prov_cpl.Prelude.{
  ℕ, ℤ, Text, codes, List, [], ◌∷◌, ◌++◌, any, Bool, true, false, ◌||◌, ◌==◌, Option, none, some,
  if◌then◌else◌,
}
use prov_cpl.Codes.{cpl_ok, cpl_is_ok, cpl_e_invalid_argument}
use prov_cpl.Odbc.Driver.{Driver}
use prov_cpl.Odbc.State.{Odbc}
use prov_cpl.Odbc.Connect.{cpl_odbc_connect}

-- The structure as it is allocated: the arrays of handles do not exist yet, and what is not initialised
-- is what the memory held.
abbrev pub allocated_odbc : {Conn : Type 0} → Text → ℕ → Conn → Odbc Conn
allocated_odbc connection_string memory c = record {
  connection_string = connection_string;
  conn = c;
  pools = λ name. [];
  freed = true;
  corrupted = false;
  waits = false;
  get_prefixes_with_key_sem = memory;
  issued = λ name. [];
}

-- `;`, `{` and `}`
abbrev is_reserved : ℕ → Bool
is_reserved c = c == 59 || c == 123 || c == 125

abbrev pub has_reserved : Text → Bool
has_reserved dsn = any is_reserved dsn

module _ {Conn Timestamp : Type 0} (d : Driver Conn Timestamp) where
  -- The code, and what the out argument then points to.
  unfoldable pub cpl_create_odbc_backend :
      Text → ℕ → Conn → Option (Odbc Conn) → ℤ × Option (Odbc Conn)
  cpl_create_odbc_backend connection_string memory c out =
      let (r, odbc) = cpl_odbc_connect d (allocated_odbc connection_string memory c) in
      if cpl_is_ok r then (cpl_ok, some odbc) else (r, out)

  unfoldable pub cpl_create_odbc_backend_dsn :
      Text → ℕ → Conn → Option (Odbc Conn) → ℤ × Option (Odbc Conn)
  unfolding cpl_create_odbc_backend
  cpl_create_odbc_backend_dsn dsn memory c out =
      if has_reserved dsn
      then (cpl_e_invalid_argument, none)
      else cpl_create_odbc_backend (codes "DSN=" ++ dsn ++ codes ";") memory c none
