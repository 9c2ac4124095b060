-- ===== src/Examples/Retry.antt =====
-- A driver that frees the statements of a connection with it, and whose link goes down.
use prov_cpl.Prelude.{
  ℕ, ◌+◌, ◌==◌, Bool, true, false, pos, codes, [], ◌∷◌, Option, none, some, ◌≡◌, refl,
  if◌then◌else◌,
}
use prov_cpl.Odbc.Driver.{
  Driver, SqlReturn, sql_success, sql_no_data, sql_error, sql_invalid_handle, number,
}
use prov_cpl.Odbc.State.{Odbc}
use prov_cpl.Odbc.Execute.{sql_execute}

-- The handles that are valid, and how many were allocated.
record Link : Type 0 where
  live : ℕ → Bool
  count : ℕ

abbrev is_live : Option ℕ → Link → Bool
is_live none c = false
is_live (some h) c = c.live h

abbrev reply_if : Bool → SqlReturn → SqlReturn
reply_if valid ret = if valid then ret else sql_invalid_handle

-- The first handle is 2.
abbrev allocate : Link → ℕ × Link
allocate c =
    let new = c.count + 2 in
    (new, record { live = λ h. if h == new then true else c.live h; count = c.count + 1 })

abbrev flaky_driver : Driver Link ℕ
flaky_driver = record {
  sql_driver_connect = λ text c. (sql_success, c);
  sql_disconnect = λ c. (sql_success, record c { live = λ h. false });
  sql_alloc_handle = allocate;
  sql_free_handle = λ stmt c. c;
  sql_prepare = λ stmt name c. (sql_success, c);
  sql_bind_parameter = λ stmt arg p c. (reply_if (is_live stmt c) sql_success, c);
  sql_execute = λ stmt c. (reply_if (is_live stmt c) sql_error, c);
  sql_diag_recs = λ stmt c. if is_live stmt c then (sql_success, codes "08S01") ∷ [] else [];
  sql_bind_col = λ stmt column c. (sql_success, c);
  sql_fetch = λ stmt c. (sql_no_data, c);
  sql_rows_left = λ stmt c. 0;
  sql_cells = λ stmt c. [];
  sql_get_data = λ stmt column c. ((sql_success, pos 8, number (pos 7)), c);
  sql_close_cursor = λ stmt c. (sql_success, c);
  unix_time = λ t. t;
}

freed : (stmt : Option ℕ) (c : Link) → is_live stmt (record c { live = λ h. false }) ≡ false
freed none c = refl
freed (some h) c = refl

abbrev shaky : Odbc Link
shaky = record {
  connection_string = codes "DSN=CPL";
  conn = record { live = λ h. h == 1; count = 0 };
  pools = λ name. [];
  freed = false;
  corrupted = false;
  waits = false;
  get_prefixes_with_key_sem = 0;
  issued = λ name. some 1 ∷ [];
}
