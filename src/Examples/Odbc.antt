-- ===== src/Examples/Odbc.antt =====
-- The theorems on the ODBC backend, applied over a driver of one table and one that has lost its link.
use prov_cpl.Prelude.{
  ℕ, ◌+◌, ◌<◌, ℤ, pos, Text, codes, List, [], ◌∷◌, true, false, some, none, Option, map,
  if◌then◌else◌, ◌==◌, ◌≡◌, ◌≢◌, refl, arith, length,
}
use prov_cpl.Codes.{cpl_ok, cpl_d_ancestors}
use prov_cpl.Api.Backend.{ObjectInfo, Relation}
use prov_cpl.Api.History.{Event, attaches, calls, run, startup}
use prov_cpl.Api.Call.{create_object, get_bundle_objects}
use prov_cpl.Api.Within.{Within}
use prov_cpl.Odbc.Driver.{
  Driver, SqlReturn, sql_success, sql_no_data, sql_error, sql_succeeded, is_no_data, Cell, number,
  characters, timestamp,
}
use prov_cpl.Odbc.Statements.{Statement, get_bundle_relations}
use prov_cpl.Odbc.State.{Odbc, ◌>>=◌, driver, pure}
use prov_cpl.Odbc.Connect.{cpl_odbc_connect, cpl_odbc_reconnect}
use prov_cpl.Odbc.Execute.{bind_id, sql_execute, sql_execute_ext, follow, attempt, bind_from}
use prov_cpl.Odbc.Fetch.{as_time, fetch_loop, out_of_fuel}
use prov_cpl.Odbc.Interface.{cpl_odbc_backend}
use prov_cpl.Odbc.Intact.{IsIntact}
use prov_cpl.Odbc.Intact.Reconnect.{Reconnects, connect_ok, reconnect-IsIntact}
use prov_cpl.Odbc.Intact.Backend.{history-IsIntact}
use prov_cpl.Odbc.Calls.Objects.{
  cpl_odbc_create_object, cpl_odbc_lookup_object, cpl_odbc_get_bundle_objects,
}
use prov_cpl.Odbc.Calls.Relations.{
  cpl_odbc_add_relation, cpl_odbc_lookup_relation, cpl_odbc_add_prefix,
  cpl_odbc_get_object_relations, cpl_odbc_get_bundle_relations,
}
use prov_cpl.Odbc.Calls.Properties.{cpl_odbc_lookup_object_property_wildcard}
use prov_cpl.Odbc.Outs.{WritesOnSuccess, calls-WritesOnSuccess}
use prov_cpl.Odbc.Create.{cpl_create_odbc_backend_dsn}
use prov_cpl.Odbc.Create.Laws.{DsnAnswer, create_dsn-DsnAnswer}
use prov_cpl.Odbc.Cursor.{
  Counts, Serves, walk_cells, walked, relation_cells, bundled, object_cells, listed_object, handed,
}
use prov_cpl.Odbc.Cursor.Calls.{executed_by, results, walk, calls_deliver}
use prov_cpl.Odbc.Pool.{take_first}
use prov_cpl.Odbc.State.{stmt_acquire}
use prov_cpl.Odbc.Statements.{number_of}
use prov_cpl.Odbc.Cursor.Laws.{fetch_loop_ends}
use prov_cpl.Odbc.LostLink.{LosesLink, calls_corrupt}
use prov_cpl.Examples.Toys.{toy_numbers}

abbrev Row : Type 0
Row = List (Cell ℕ)

-- The connection of the first driver: the row of the last fetch, and the rows behind it.
abbrev Open : Type 0
Open = Row × List Row

abbrev integer_cell : ℕ → Cell ℕ
integer_cell n = record { is_null = false; datum = number (pos n) }

abbrev text_cell : Text → Cell ℕ
text_cell text = record { is_null = false; datum = characters text }

abbrev table : List Row
table =
    (integer_cell 7
      ∷ record { is_null = false; datum = timestamp 5 }
      ∷ text_cell (codes "ex")
      ∷ text_cell (codes "alice")
      ∷ integer_cell 3
      ∷ [])
    ∷ (integer_cell 8
        ∷ record { is_null = false; datum = timestamp 6 }
        ∷ text_cell (codes "ex")
        ∷ text_cell (codes "bob")
        ∷ integer_cell 3
        ∷ [])
    ∷ []

abbrev fetch : Open → SqlReturn × Open
fetch (row, []) = (sql_no_data, (row, []))
fetch (row, next ∷ rest) = (sql_success, (next, rest))

abbrev table_driver : Driver Open ℕ
table_driver = record {
  sql_driver_connect = λ text c. (sql_success, c);
  sql_disconnect = λ c. (sql_success, c);
  sql_alloc_handle = λ c. (1, c);
  sql_free_handle = λ stmt c. c;
  sql_prepare = λ stmt name c. (sql_success, c);
  sql_bind_parameter = λ stmt arg p c. (sql_success, c);
  sql_execute = λ stmt c. (sql_success, ([], table));
  sql_diag_recs = λ stmt c. [];
  sql_bind_col = λ stmt column c. (sql_success, c);
  sql_fetch = λ stmt c. fetch c;
  sql_rows_left = λ stmt c. length c.1;
  sql_cells = λ stmt c. c.0;
  sql_get_data = λ stmt column c. ((sql_success, pos 8, number (pos 7)), c);
  sql_close_cursor = λ stmt c. (sql_success, c);
  unix_time = λ t. t;
}

table_driver-Reconnects : Reconnects table_driver
table_driver-Reconnects = record { connects = λ text c. refl; prepares = λ stmt name c. refl }

abbrev unconnected : Odbc Open
unconnected = record {
  connection_string = codes "DSN=CPL";
  conn = ([], []);
  pools = λ name. [];
  freed = false;
  corrupted = false;
  waits = false;
  get_prefixes_with_key_sem = 0;
  issued = λ name. [];
}

abbrev connected : Odbc Open
connected = (cpl_odbc_connect table_driver unconnected).1

connected-IsIntact : IsIntact connected
connected-IsIntact = (connect_ok table_driver table_driver-Reconnects unconnected refl).1

abbrev count_objects : ObjectInfo → ℕ → ℤ × ℕ
count_objects info n = (cpl_ok, n + 1)

abbrev events : List (Event (Odbc Open) ℕ ℕ)
events =
    attaches (some connected) (some 1)
    ∷ calls (create_object (some (codes "ex")) (some (codes "alice")) (pos 3) (some 0))
    ∷ calls (get_bundle_objects 7 (some count_objects) 0)
    ∷ []

history-IsIntact_example :
    Within IsIntact (run (cpl_odbc_backend table_driver) toy_numbers events (startup (Odbc Open) 1))
history-IsIntact_example =
    history-IsIntact table_driver table_driver-Reconnects toy_numbers events 1
      (connected-IsIntact, (refl, (refl, tt)))

reconnect-IsIntact_example :
    ((cpl_odbc_reconnect table_driver connected).0 ≡ cpl_ok)
    × IsIntact (cpl_odbc_reconnect table_driver connected).1
reconnect-IsIntact_example =
    reconnect-IsIntact table_driver table_driver-Reconnects connected connected-IsIntact.allocated
      connected-IsIntact.sound

fewer_rows : (c : Open) → sql_succeeded (fetch c).0 ≡ true → length (fetch c).1.1 < length c.1
fewer_rows (row, []) e = cc
fewer_rows (row, next ∷ rest) e = ground arith

table_driver-Counts : Counts table_driver
table_driver-Counts = record { takes_row = λ stmt c e. fewer_rows c e }

next_row :
    (c : Open) (row : Row) (rest : List Row)
    → c.1 ≡ row ∷ rest
    → (sql_succeeded (fetch c).0 ≡ true) × ((fetch c).1.0 ≡ row) × ((fetch c).1.1 ≡ rest)
next_row (last, []) row rest e = cc
next_row (last, next ∷ others) row rest e = (refl, cc, cc)

no_row : (c : Open) → c.1 ≡ [] → is_no_data (fetch c).0 ≡ true
no_row (last, []) e = refl
no_row (last, next ∷ others) e = cc

table_driver-Serves : Serves table_driver (λ stmt c. c.1)
table_driver-Serves = record {
  counts = λ stmt c. refl;
  fetches_row = λ stmt c row rest e. next_row c row rest e;
  fetches_none = λ stmt c e. no_row c e;
  binds = λ stmt column c. (refl, refl);
  closes = λ stmt c. refl;
}

abbrev executed : Odbc Open
executed = record connected { conn = ([], table) }

abbrev first_cell : Row → List ℕ
first_cell [] = []
first_cell (cell ∷ cells) = as_time (λ n. n) cell.datum ∷ []

fetch_loop_ends_example :
    ((fetch_loop table_driver 3 (some 1) first_cell [] executed).0 ≢ out_of_fuel)
    × (fetch_loop table_driver 9 (some 1) first_cell [] executed
        ≡ fetch_loop table_driver 3 (some 1) first_cell [] executed)
fetch_loop_ends_example =
    fetch_loop_ends table_driver first_cell table_driver-Counts 3 9 (some 1) [] executed
      (ground arith) (ground arith)

abbrev count_relations : Relation → ℕ → ℤ × ℕ
count_relations relation n = (cpl_ok, n + 1)

-- The rows of the three statements.
abbrev steps : List (ℤ × ℤ × ℤ)
steps = (pos 9, pos 8, pos 11) ∷ (pos 10, pos 6, pos 12) ∷ []

abbrev members : List (ℤ × ℕ × Text × Text × ℤ)
members =
    (pos 7, 5, codes "ex", codes "alice", pos 3) ∷ (pos 8, 6, codes "ex", codes "bob", pos 3) ∷ []

abbrev links : List (ℤ × ℤ × ℤ × ℤ)
links = (pos 12, pos 8, pos 7, pos 11) ∷ []

abbrev rows_of : Option ℕ → List Row
rows_of none = []
rows_of (some h) =
    if h == number_of Statement.get_bundle_objects
    then map object_cells members
    else if h == number_of get_bundle_relations
    then map relation_cells links
    else map walk_cells steps

abbrev bundle_driver : Driver Open ℕ
bundle_driver = record table_driver { sql_execute = λ stmt c. (sql_success, ([], rows_of stmt)) }

bundle_driver-Serves : Serves bundle_driver (λ stmt c. c.1)
bundle_driver-Serves = record {
  counts = λ stmt c. refl;
  fetches_row = λ stmt c row rest e. next_row c row rest e;
  fetches_none = λ stmt c e. no_row c e;
  binds = λ stmt column c. (refl, refl);
  closes = λ stmt c. refl;
}

-- One handle for each statement.
abbrev numbered : Odbc Open
numbered = record unconnected { pools = λ name. some (number_of name) ∷ [] }

is_executed :
    (name : Statement) (id : ℕ)
    → (executed_by bundle_driver name (bind_id id ∷ []) numbered).0 ≡ true
unfolding sql_execute sql_execute_ext follow attempt bind_from ◌>>=◌ driver pure
is_executed name id = refl

rows_1 :
    results bundle_driver (λ stmt c. c.1) (walk cpl_d_ancestors) (bind_id 7 ∷ []) numbered
    ≡ map walk_cells steps
unfolding sql_execute sql_execute_ext follow attempt bind_from stmt_acquire take_first ◌>>=◌ driver
    pure
rows_1 = refl

rows_2 :
    results bundle_driver (λ stmt c. c.1) Statement.get_bundle_objects (bind_id 7 ∷ []) numbered
    ≡ map object_cells members
unfolding sql_execute sql_execute_ext follow attempt bind_from stmt_acquire take_first ◌>>=◌ driver
    pure
rows_2 = refl

rows_3 :
    results bundle_driver (λ stmt c. c.1) get_bundle_relations (bind_id 7 ∷ []) numbered
    ≡ map relation_cells links
unfolding sql_execute sql_execute_ext follow attempt bind_from stmt_acquire take_first ◌>>=◌ driver
    pure
rows_3 = refl

calls_deliver_example :
    ((cpl_odbc_get_object_relations bundle_driver 7 cpl_d_ancestors
        (pos 0)
        count_relations
        0
        numbered).0
      ≡ handed (map (walked 7) steps) count_relations 0)
    × ((cpl_odbc_get_bundle_objects bundle_driver 7 count_objects 0 numbered).0
        ≡ handed (map (listed_object (λ t. t)) members) count_objects 0)
    × ((cpl_odbc_get_bundle_relations bundle_driver 7 count_relations 0 numbered).0
        ≡ handed (map bundled links) count_relations 0)
calls_deliver_example =
    calls_deliver bundle_driver (λ stmt c. c.1) bundle_driver-Serves 7 cpl_d_ancestors (pos 0)
      count_objects count_relations 0 numbered steps members links
      (is_executed (walk cpl_d_ancestors) 7) rows_1 (is_executed Statement.get_bundle_objects 7)
      rows_2 (is_executed get_bundle_relations 7) rows_3

calls-WritesOnSuccess_example :
    WritesOnSuccess
      (some 0)
      (cpl_odbc_create_object table_driver
        (codes "ex")
        (codes "alice")
        (pos 3)
        (some 0)
        connected).0
    × WritesOnSuccess
        (some 0)
        (cpl_odbc_lookup_object table_driver
          (codes "ex")
          (codes "alice")
          (pos 3)
          (some 0)
          connected).0
    × WritesOnSuccess (some 0) (cpl_odbc_add_relation table_driver 7 8 (pos 3) (some 0) connected).0
    × WritesOnSuccess
        (some 0)
        (cpl_odbc_lookup_relation table_driver 7 8 (pos 3) (some 0) connected).0
    × WritesOnSuccess
        (some 0)
        (cpl_odbc_lookup_object_property_wildcard table_driver
          (some (codes "v"))
          (some 0)
          connected).0
calls-WritesOnSuccess_example =
    calls-WritesOnSuccess table_driver (codes "ex") (codes "alice") (codes "v") (pos 3) 7 8 (some 0)
      connected

-- The database has gone away.
abbrev lost_driver : Driver Open ℕ
lost_driver = record table_driver {
  sql_driver_connect = λ text c. (sql_error, c);
  sql_execute = λ stmt c. (sql_error, c);
  sql_diag_recs = λ stmt c. (sql_success, codes "08S01") ∷ [];
}

lost_driver-LosesLink : LosesLink lost_driver
lost_driver-LosesLink = record {
  binds = λ stmt arg p c. refl;
  refuses = λ stmt c. refl;
  reports = λ stmt c. refl;
  unreachable = λ text c. refl;
}

calls_corrupt_example :
    ((cpl_odbc_add_prefix lost_driver 7 (codes "ex") (codes "urn:ex") connected).1.corrupted ≡ true)
    × ((cpl_odbc_create_object lost_driver
          (codes "ex")
          (codes "alice")
          (pos 3)
          (some 0)
          connected).1.corrupted
        ≡ true)
calls_corrupt_example =
    calls_corrupt lost_driver lost_driver-LosesLink 7 (codes "ex") (codes "urn:ex") (codes "alice")
      (pos 3) (some 0) connected connected-IsIntact

create_dsn-DsnAnswer_example :
    DsnAnswer false (cpl_create_odbc_backend_dsn table_driver (codes "CPL") 7 ([], []) none)
create_dsn-DsnAnswer_example =
    create_dsn-DsnAnswer table_driver table_driver-Reconnects (codes "CPL") 7 ([], []) none
