-- ===== src/Lib.antt =====
-- Prov-CPL, the core provenance library: a C interface for recording objects, their properties and
-- the relations between them, over a database backend, and the exchange of Prov-JSON documents.
--
-- The program. cpl-standalone/cpl-standalone.cpp holds the public calls (`cpl_*`) and the functions on
-- documents. A call checks its arguments by the macros of cpl-standalone/cpl-private.h and forwards to
-- a backend, a structure of function pointers that include/cpl-db-backend.h declares; the one backend
-- of the repository is backends/cpl-odbc/cpl-odbc.cpp. `cpl_attach` and `cpl_detach` set and clear
-- the static variables that all calls read. `cpl_lookup_or_create_object` holds a semaphore that the
-- processes of a host share. cpl-standalone/cpl-lock.cpp has the locks and semaphores. The import of a
-- document runs on the public calls; its validation uses none.
--
-- The files.
--   Prelude: names of the libraries passed on, lists and options over native numbers, C integers (ℤ),
--     and text as lists of bytes.
--   Codes: the return codes, `cpl_error_string`, the object and relation types and their tests.
--   Api/Effect: the static variables as a record (State), a call as a state-passing function whose
--     result is a value or an early exit, the macros, the lock and the semaphore. Out arguments are
--     options of the cell that they point to, NULL is `none`.
--   Api/Backend: the backend as a record of functions over a type that stands for its state; they
--     are assumed to return, and where a theorem says so, that a look-up finds what was created.
--   Api/Numbers: `double` and its conversions, parameters.
--   Api/Lifecycle, Objects, Relations, Access, Properties: one function for each public call, under
--     the call's name. Api/Call: the calls as data.
--   Api/Collect: the callbacks `cpl_cb_collect_*`. A callback's reply is a value: its code and context,
--     an exception, or a cast of the context to a vector of another type.
--   Api/Ready, Guards, History, Objects/Laws, Lifecycle/Laws, Collect/Laws: what holds of them.
--   Document/Table, Tokens, Graph, Json, Validate, Import: `rdata_array`, `name_to_tokens`, the graph of
--     `validate_json`, the JSON library as a parameter, `validate_json`, and `import_document_json`
--     with its helpers. The sort of boost::graph is a parameter with its documented behaviour as a law.
--   Document/Export with Decimal, Vectors, Objects, Relations: `export_bundle_json` and its helpers on
--     the public calls. The context of a callback is one of the vectors of the exports, or a mark that
--     a callback threw. Export/Listing, Ends: what an exported document holds.
--   Api/Free: the calls that free a structure, without the heap.
--   Api/Processes: `cpl_lookup_or_create_object` run by several processes on one database and one
--     semaphore, as a step relation; Processes/Exclusion, Once, Progress: what holds of them.
--   Lock/UniqueId: the generator of unique identifiers of cpl-standalone/cpl-lock.cpp.
--   Platform: `cpl_platform_get_mac_address` of cpl-standalone/cpl-platform.cpp, as compiled on Unix.
--   Lock/Spin: `cpl_lock` and `cpl_unlock` under any schedule of threads.
--   Api/Within: what the functions of a backend keep, the calls and histories of the library keep.
--   Odbc/Statements, Pool: the names of the prepared statements, and the pools of their handles.
--   Odbc/Driver: the ODBC functions and the database behind them as a record of functions over a
--     type that stands for the connection. Laws of a driver are records beside the theorems that
--     need them: Reconnects, Counts, Serves, Works,
--     KeepsStatements, Prepares, LosesLink, FreesStatements.
--   Odbc/State: `cpl_odbc_t` as a record, with three flags: `freed` says that the arrays of handles
--     have been freed, `corrupted` that such an array, or NULL, has been used, `waits` that a call has
--     waited for ever, which is then followed as if it had not. What the semaphore that is never
--     initialised holds is a field. A part of a call is a state-passing function; its jumps are
--     values.
--   Odbc/Create, Connect, Execute, Fetch: the constructors, connecting and reconnecting,
--     `SQL_EXECUTE` and its parameters, and the reading of values and rows.
--   Odbc/Calls with Objects, Relations, Properties, Info: one function for each `cpl_odbc_*` call.
--     Odbc/Interface: `CPL_ODBC_BACKEND`, the backend that the library calls.
--   Odbc/Database: the tables behind a driver that does not fail (View), and what ODBC says of its
--     functions then (Works). The effect of a statement on the tables is a parameter.
--     Odbc/Database/Sessions: lists of calls of the backend, and of their statements on the tables
--     alone; Prepared, Created: what a connection prepares, and the calls of a backend that was
--     created; with Quiet, which says what a call leaves of the pools and of the handles, and Serving.
--   Odbc/Intact, Create/Laws, Cursor, Database/Laws, Outs, Ids, Retry, NullValue, LostLink: what
--     holds of them.
--   Odbc/Delivery: the loop that hands fetched rows to a callback that may throw, for Api/Collect.
--   Examples: the results that have hypotheses, at concrete inputs.
--
-- Bounds. Loops run over lists and end with them; only the loop over `SQLFetch` has fuel, one round
-- more than the rows that the result set has left. `SQL_EXECUTE` reconnects at most three times. The
-- identifiers pass through `long long` with its wrap-around. Elsewhere the C `int` is an unbounded
-- integer: codes, types and flags are compared and never added. Identifiers are natural numbers, 0 is
-- `CPL_NONE`. The loops of the pools run over a list of any length in place of `CPL_STMT_MAX` slots.
-- Whether a call waits for ever is a value (`blocked`) of its exit.
--
-- The calls of the ODBC backend are those of a release build: `assert` does nothing, and memory
-- allocation succeeds.
--
-- Not modelled: the heap, the text of the SQL statements and the tables behind them, the locks of the
-- pools, which the code takes by value like their semaphores, the printing of errors and of debugging, the variant of the platform layer for Mac OS, the waiting inside the
-- generator of unique identifiers (which is not compiled in by default), the bindings for other
-- languages, tests, scripts and packaging. The session code of `cpl_attach` stands inside a comment.
mod Prelude
pub mod Codes
pub mod Api
pub mod Document
pub mod Lock
pub mod Odbc
pub mod Platform
mod Examples
