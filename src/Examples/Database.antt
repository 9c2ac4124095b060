-- ===== src/Examples/Database.antt =====
-- A driver over a table of objects that is only a counter, with a counter of handles.
use prov_cpl.Prelude.{
  ℕ, ◌+◌, ◌<◌, pos, codes, List, [], ◌∷◌, length, get_elem?, true, false, Option, some, none, ◌≡◌,
  refl, arith, if◌then◌else◌, ◌==◌, ltb, Bool, ap,
}
use prov_cpl.Odbc.Statements.{
  Statement, create_session, create_object, lookup_object_t, number_of, all_statements, same,
}
use prov_cpl.Odbc.Driver.{
  Driver, SqlReturn, sql_success, sql_no_data, Parameter, integer, Datum, number, sql_succeeded,
  is_no_data,
}
use prov_cpl.Odbc.State.{Odbc, stmt_acquire}
use prov_cpl.Odbc.Pool.{cpl_acquire_stmt}
use prov_cpl.Codes.{cpl_ok, cpl_e_not_found, cpl_s_object_created}
use prov_cpl.Api.Backend.{Backend}
use prov_cpl.Api.Effect.{State, go}
use prov_cpl.Api.Objects.{cpl_create_object, cpl_lookup_object}
use prov_cpl.Odbc.Interface.{cpl_odbc_backend}
use prov_cpl.Odbc.Database.Recall.{Recalls, created_is_found}
use prov_cpl.Odbc.Database.{View, Works, Seen}
use prov_cpl.Odbc.Create.{cpl_create_odbc_backend}
use prov_cpl.Odbc.Intact.Reconnect.{Reconnects}
use prov_cpl.Odbc.Database.Prepared.{Prepares}
use prov_cpl.Odbc.Database.Created.{Answered, created_answers}
use prov_cpl.Odbc.Database.Quiet.{KeepsStatements}
use prov_cpl.Odbc.Database.Sessions.{
  Demand, creates, looks_up, relates, looks_up_relation, sets_object, sets_prefix, serve_all,
  answer_all,
}
use prov_cpl.Odbc.Database.Sessions.Serving.{IsServing, sessions_answer}
use prov_cpl.Odbc.Database.Calls.{ArePrepared}

record Counter : Type 0 where
  count : ℕ
  handles : ℕ
  prepared : ℕ → Statement
  slots : ℕ → Parameter
  left : List (Datum ℕ)
  now : Datum ℕ

abbrev statement_of : Option ℕ → Counter → Statement
statement_of none c = create_session
statement_of (some h) c = c.prepared h

abbrev prepare : Option ℕ → Statement → Counter → SqlReturn × Counter
prepare none name c = (sql_success, c)
prepare (some h) name c =
    (sql_success, record c { prepared = λ other. if h == other then name else c.prepared other })

abbrev allocate : Counter → ℕ × Counter
allocate c = (c.handles, record c { handles = c.handles + 1 })

abbrev run_statement : Statement → ℕ → List (Datum ℕ) × ℕ
run_statement name n =
    if same name create_object
    then (number (pos (n + 1)) ∷ [], n + 1)
    else if same name lookup_object_t
    then (number (pos n) ∷ [], n)
    else ([], n)

abbrev execute : Option ℕ → Counter → SqlReturn × Counter
execute stmt c =
    let (rows, n) = run_statement (statement_of stmt c) c.count in
    (sql_success, record c { count = n; left = rows })

abbrev fetch : Counter → SqlReturn × Counter
fetch c = elim c.left [
  | [] ↦ (sql_no_data, c)
  | first ∷ rest ↦ (sql_success, record c { left = rest; now = first })
]

abbrev bind : ℕ → Parameter → Counter → SqlReturn × Counter
bind arg p c =
    (sql_success, record c { slots = λ other. if other == arg then p else c.slots other })

abbrev counter_driver : Driver Counter ℕ
counter_driver = record {
  sql_driver_connect = λ text c. (sql_success, c);
  sql_disconnect = λ c. (sql_success, c);
  sql_alloc_handle = allocate;
  sql_free_handle = λ stmt c. c;
  sql_prepare = prepare;
  sql_bind_parameter = λ stmt arg p c. bind arg p c;
  sql_execute = λ stmt c. execute stmt c;
  sql_diag_recs = λ stmt c. [];
  sql_bind_col = λ stmt column c. (sql_success, c);
  sql_fetch = λ stmt c. fetch c;
  sql_rows_left = λ stmt c. length c.left;
  sql_cells = λ stmt c. [];
  sql_get_data = λ stmt column c. ((sql_success, pos 8, c.now), c);
  sql_close_cursor = λ stmt c. (sql_success, c);
  unix_time = λ t. t;
}

abbrev counter_view : View Counter ℕ ℕ
counter_view = record {
  tables = λ c. c.count;
  statement = statement_of;
  parameter = λ stmt arg c. c.slots arg;
  rows = λ stmt c. c.left;
  current = λ stmt c. c.now;
  run = λ name ps n. run_statement name n;
}

same_slot : (arg : ℕ) (p q : Parameter) → (if arg == arg then p else q) ≡ p
same_slot arg p q = ground arith

other_slot : (arg other : ℕ) (p q : Parameter) → other < arg → (if other == arg then p else q) ≡ q
other_slot arg other p q h = ground arith

fetches_first :
    (left : List (Datum ℕ)) (c : Counter) (first : Datum ℕ) (rest : List (Datum ℕ))
    → left ≡ first ∷ rest
    → (sql_succeeded (fetch (record c { left = left })).0 ≡ true)
      × ((fetch (record c { left = left })).1.now ≡ first)
fetches_first [] c first rest e = cc
fetches_first (datum ∷ data_left) c first rest e = (refl, cc)

fetches_nothing :
    (left : List (Datum ℕ)) (c : Counter)
    → left ≡ []
    → is_no_data (fetch (record c { left = left })).0 ≡ true
fetches_nothing [] c e = refl
fetches_nothing (datum ∷ data_left) c e = cc

fetch_counts :
    (left : List (Datum ℕ)) (c : Counter) → (fetch (record c { left = left })).1.count ≡ c.count
fetch_counts [] c = refl
fetch_counts (datum ∷ data_left) c = refl

fetch_prepared :
    (left : List (Datum ℕ)) (c : Counter)
    → (fetch (record c { left = left })).1.prepared ≡ c.prepared
fetch_prepared [] c = refl
fetch_prepared (datum ∷ data_left) c = refl

keep_statement :
    (h : Option ℕ) (c after : Counter)
    → after.prepared ≡ c.prepared
    → statement_of h after ≡ statement_of h c
keep_statement none c after e = refl
keep_statement (some h) c after e = ap (λ f. f h) e

counter_driver-Works : Works counter_driver counter_view
counter_driver-Works = record {
  binds = λ stmt arg p c. (refl, same_slot arg p (c.slots arg), keep_statement stmt c _ refl, refl);
  binds_one = λ stmt arg other p c h. other_slot arg other p (c.slots other) h;
  executes = λ stmt ps c e bound. (refl, refl, refl);
  fetches = λ stmt c first rest e. fetches_first c.left c first rest e;
  fetches_none = λ stmt c e. fetches_nothing c.left c e;
  gets = λ stmt c. (refl, refl, refl);
  closes = λ stmt c. refl;
  reading = λ stmt c. (fetch_counts c.left c, refl, refl);
}

abbrev statement_at : ℕ → Statement
statement_at h = elim (get_elem? all_statements h) [ none ↦ create_session | some name ↦ name ]

abbrev over_counter : Odbc Counter
over_counter = record {
  connection_string = codes "DSN=CPL";
  conn = record {
    count = 6;
    handles = 28;
    prepared = statement_at;
    slots = λ arg. integer (pos 0);
    left = [];
    now = number (pos 0);
  };
  pools = λ name. some (number_of name) ∷ [];
  freed = false;
  corrupted = false;
  waits = false;
  get_prefixes_with_key_sem = 0;
  issued = λ name. some (number_of name) ∷ [];
}

over_counter-ArePrepared : ArePrepared counter_view over_counter
unfolding stmt_acquire cpl_acquire_stmt
over_counter-ArePrepared create_session = refl
over_counter-ArePrepared _ = refl

over_counter-IsServing : IsServing counter_view over_counter
over_counter-IsServing = record { full = λ m. refl; prepared = over_counter-ArePrepared }

counter_driver-KeepsStatements : KeepsStatements counter_driver counter_view
counter_driver-KeepsStatements = record {
  binds = λ stmt h arg p c. keep_statement h c _ refl;
  executes = λ stmt h c. keep_statement h c _ refl;
  fetches = λ stmt h c. keep_statement h c _ (fetch_prepared c.left c);
  gets = λ stmt h column c. refl;
  closes = λ stmt h c. refl;
}

always_prepares :
    (stmt : Option ℕ) (name : Statement) (c : Counter)
    → sql_succeeded (prepare stmt name c).0 ≡ true
always_prepares none name c = refl
always_prepares (some h) name c = refl

counter_driver-Reconnects : Reconnects counter_driver
counter_driver-Reconnects = record {
  connects = λ text c. refl;
  prepares = λ stmt name c. always_prepares stmt name c;
}

abbrev known : ℕ → Counter → Bool
known h c = ltb h c.handles

counter_driver-Prepares : Prepares counter_driver counter_view known
counter_driver-Prepares = record {
  fresh = λ c. ground arith;
  allocates = λ c. ground arith;
  keeps = λ h c e. ground arith;
  prepares = λ h name c. ground arith;
  prepares_one = λ h other name c e. ground arith;
}

abbrev demands : List Demand
demands =
    creates (codes "ex") (codes "alice") (pos 3) (some 0)
    ∷ looks_up (codes "ex") (codes "alice") (pos 3) (some 0)
    ∷ relates 7 6 (pos 3) none
    ∷ creates (codes "ex") (codes "bob") (pos 2) (some 0)
    ∷ sets_object 7 (codes "ex") (codes "k") (codes "v") (pos 3)
    ∷ sets_prefix 7 (codes "ex") (codes "urn:ex")
    ∷ looks_up_relation 7 6 (pos 3) (some 0)
    ∷ []

sessions_answer_example :
    Seen counter_view
      (answer_all counter_view demands 6).0
      (answer_all counter_view demands 6).1
      (serve_all counter_driver demands over_counter)
    × IsServing counter_view (serve_all counter_driver demands over_counter).1
sessions_answer_example =
    sessions_answer counter_driver counter_view counter_driver-Works counter_driver-KeepsStatements
      demands over_counter over_counter-IsServing

created_answers_example :
    Answered counter_driver counter_view demands
      (cpl_create_odbc_backend counter_driver (codes "DSN=CPL;") 0 over_counter.conn none)
created_answers_example =
    created_answers counter_driver counter_view known counter_driver-Reconnects
      counter_driver-Prepares counter_driver-Works counter_driver-KeepsStatements demands
      (codes "DSN=CPL;") 0 over_counter.conn none

-- What these calls answer.
answers : answer_all counter_view demands 6 ≡ (
  (cpl_ok, some 7)
      ∷ (cpl_ok, some 7)
      ∷ (cpl_e_not_found, none)
      ∷ (cpl_ok, some 8)
      ∷ (cpl_ok, none)
      ∷ (cpl_ok, none)
      ∷ (cpl_e_not_found, some 0)
      ∷ [],
  8,
)
answers = refl

abbrev seven-Recalls : Recalls counter_view (codes "ex") (codes "alice") (pos 3) (number (pos 7)) 6
seven-Recalls = record { rest = []; others = []; inserts = refl; finds = refl }

abbrev attached : State (Odbc Counter)
attached = record {
  initialized = true;
  backend = some over_counter;
  session = 0;
  locked = false;
  sem_open = true;
  sem_value = 1;
}

created_is_found_example :
    let vt : Backend (Odbc Counter) ℕ = cpl_odbc_backend counter_driver in
    let made =
      cpl_create_object vt (some (codes "ex")) (some (codes "alice")) (pos 3) none attached in
    let found =
      cpl_lookup_object vt (some (codes "ex")) (some (codes "alice")) (pos 3) (some 0) made.1 in
    (made.0 ≡ go (cpl_s_object_created, none)) × (found.0 ≡ go (cpl_ok, some 7))
created_is_found_example =
    created_is_found counter_driver counter_view counter_driver-Works counter_driver-KeepsStatements
      ℕ (codes "ex") (codes "alice") (pos 3) none (some 0) (number (pos 7)) attached over_counter
      refl refl refl over_counter-IsServing seven-Recalls
