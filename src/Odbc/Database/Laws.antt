-- ===== src/Odbc/Database/Laws.antt =====
-- The calls that give an identifier, and those that only write, are one statement on the tables.
use prov_cpl.Prelude.{
  ℕ, ◌+◌, ◌<◌, Bool, true, false, Option, some, none, List, [], ◌∷◌, length, ◌≡◌, refl, sym, ap,
  subst, ◌∙◌, arith,
}
use prov_cpl.Codes.{cpl_ok, cpl_e_not_found}
use prov_cpl.Api.Effect.{store}
use prov_cpl.Odbc.Statements.{Statement}
use prov_cpl.Odbc.Driver.{
  Driver, SqlReturn, sql_no_data, Datum, Parameter, sql_succeeded, is_no_data,
}
use prov_cpl.Odbc.State.{Odbc, O, touch, ◌>>=◌, ◌>>◌, pure, driver, stmt_acquire, stmt_release}
use prov_cpl.Odbc.Pool.{cpl_acquire_stmt}
use prov_cpl.Odbc.Execute.{bind_from, attempt, follow, sql_execute_ext, sql_execute}
use prov_cpl.Odbc.Fetch.{
  close_with, close_ok, get_value, cpl_sql_fetch_single_value, cpl_sql_fetch_single_llong,
}
use prov_cpl.Odbc.Calls.{read_id, give_id, finish_write}
use prov_cpl.Odbc.Database.{View, Bound, Works, Seen, markers, id_answer}

module _ {Conn : Type 0} where
  touch_conn : (s : Odbc Conn) → (touch s).conn ≡ s.conn
  touch_conn s = ground arith

  pub acquire_conn : (name : Statement) (s : Odbc Conn) → (stmt_acquire name s).1.conn ≡ s.conn
  unfolding stmt_acquire cpl_acquire_stmt
  acquire_conn name s = ground (arith, touch_conn s)

module _ {Conn Timestamp Tables : Type 0} (d : Driver Conn Timestamp)
    (view : View Conn Timestamp Tables) (w : Works d view) where
  pub bind_from_all :
      (ps : List Parameter) (arg : ℕ) (stmt : Option ℕ) (s : Odbc Conn)
      → ((bind_from d arg stmt ps s).0 ≡ true)
        × Bound d view stmt arg ps (bind_from d arg stmt ps s).1.conn
        × (view.statement stmt (bind_from d arg stmt ps s).1.conn ≡ view.statement stmt s.conn)
        × (view.tables (bind_from d arg stmt ps s).1.conn ≡ view.tables s.conn)
        × ((other : ℕ)
            → other < arg
            → view.parameter stmt other (bind_from d arg stmt ps s).1.conn
              ≡ view.parameter stmt other s.conn)
  unfolding bind_from ◌>>=◌ driver pure
  bind_from_all [] arg stmt s = (refl, tt, refl, refl, λ other h. refl)
  bind_from_all (p ∷ ps) arg stmt s =
      let (ok, bound, same_statement, same_tables) = w.binds stmt arg p s.conn in
      let t : Odbc Conn = record s { conn = (d.sql_bind_parameter stmt arg p s.conn).1 } in
      let (all, later, statement, tables, before) = bind_from_all ps (arg + 1) stmt t in
      rw ok (
        all,
        (before arg (ground arith) ∙ bound, later),
        statement ∙ same_statement,
        tables ∙ same_tables,
        λ other h. before other (ground arith) ∙ w.binds_one stmt arg other p s.conn h,
      )

  -- The statement runs at the first attempt.
  execute_runs :
      (stmt : Option ℕ) (ps : List Parameter) (s : Odbc Conn)
      → length ps ≡ markers (view.statement stmt s.conn)
      → ((sql_execute d stmt ps s).0 ≡ true)
        × (view.rows stmt (sql_execute d stmt ps s).1.conn
            ≡ (view.run (view.statement stmt s.conn) ps (view.tables s.conn)).0)
        × (view.tables (sql_execute d stmt ps s).1.conn
            ≡ (view.run (view.statement stmt s.conn) ps (view.tables s.conn)).1)
  unfolding sql_execute sql_execute_ext attempt follow ◌>>=◌ driver pure
  execute_runs stmt ps s e =
      let (all, bound, statement, tables, before) = bind_from_all ps 1 stmt s in
      let t = (bind_from d 1 stmt ps s).1 in
      let (ok, rows, after) = w.executes stmt ps t.conn (e ∙ ap markers (sym statement)) bound in
      let changed : view.run (view.statement stmt t.conn) ps (view.tables t.conn)
          ≡ view.run (view.statement stmt s.conn) ps (view.tables s.conn) =
        rw (statement, tables) refl in
      rw (all, ok) (refl, rows ∙ ap (λ k. k.0) changed, after ∙ ap (λ k. k.1) changed)

  no_data_fails : (r : SqlReturn) → sql_succeeded r ≡ true → is_no_data r ≡ false
  no_data_fails sql_no_data e = cc
  no_data_fails _ e = refl

  fetch_none :
      (stmt : Option ℕ) (s : Odbc Conn)
      → view.rows stmt s.conn ≡ []
      → ((cpl_sql_fetch_single_llong d stmt s).0 ≡ (cpl_e_not_found, none))
        × (view.tables (cpl_sql_fetch_single_llong d stmt s).1.conn ≡ view.tables s.conn)
  unfolding cpl_sql_fetch_single_llong cpl_sql_fetch_single_value close_with ◌>>=◌ ◌>>◌ driver pure
  fetch_none stmt s e =
      let c = (d.sql_fetch stmt s.conn).1 in
      rw (w.fetches_none stmt s.conn e) (refl, (w.reading stmt c).2 ∙ (w.reading stmt s.conn).0)

  get_first :
      (stmt : Option ℕ) (s : Odbc Conn)
      → ((get_value d stmt 1 true false s).0 ≡ (cpl_ok, some (view.current stmt s.conn)))
        × (view.tables (get_value d stmt 1 true false s).1.conn ≡ view.tables s.conn)
  unfolding get_value close_ok ◌>>=◌ ◌>>◌ driver pure
  get_first stmt s =
      let (ok, some_bytes, value) = w.gets stmt s.conn in
      let c = (d.sql_get_data stmt 1 s.conn).1 in
      rw (no_data_fails _ ok, ok, some_bytes, w.closes stmt c, value)
        (refl, (w.reading stmt c).2 ∙ (w.reading stmt s.conn).1)

  fetch_first :
      (stmt : Option ℕ) (s : Odbc Conn) (first : Datum Timestamp) (rest : List (Datum Timestamp))
      → view.rows stmt s.conn ≡ first ∷ rest
      → ((cpl_sql_fetch_single_llong d stmt s).0 ≡ (cpl_ok, some first))
        × (view.tables (cpl_sql_fetch_single_llong d stmt s).1.conn ≡ view.tables s.conn)
  unfolding cpl_sql_fetch_single_llong cpl_sql_fetch_single_value ◌>>=◌ driver
  fetch_first stmt s first rest e =
      let (ok, current) = w.fetches stmt s.conn first rest e in
      let t : Odbc Conn = record s { conn = (d.sql_fetch stmt s.conn).1 } in
      let (answer, tables) = get_first stmt t in
      rw (no_data_fails _ ok, ok)
        (answer ∙ ap (λ k. (cpl_ok, some k)) current, tables ∙ (w.reading stmt s.conn).0)

  released :
      {A : Type 0} (name : Statement) (stmt : Option ℕ) (a : A) (s : Odbc Conn)
      → (((stmt_release name stmt >> pure a) s).0 ≡ a)
        × (view.tables ((stmt_release name stmt >> pure a) s).1.conn ≡ view.tables s.conn)
  unfolding stmt_release ◌>>=◌ ◌>>◌ pure
  released name stmt a s = (refl, ap view.tables (touch_conn s))

  pub give_id_reads :
      (name : Statement) (stmt out : Option ℕ) (s : Odbc Conn) (rs : List (Datum Timestamp))
      → view.rows stmt s.conn ≡ rs
      → ((give_id d name stmt true out s).0 ≡ id_answer rs out)
        × (view.tables (give_id d name stmt true out s).1.conn ≡ view.tables s.conn)
  unfolding give_id ◌>>=◌
  give_id_reads name stmt out s [] e =
      let (answer, tables) = fetch_none stmt s e in
      let (code, after) =
        released name stmt (cpl_e_not_found, out) (cpl_sql_fetch_single_llong d stmt s).1 in
      rw answer (code, after ∙ tables)
  give_id_reads name stmt out s (first ∷ rest) e =
      let (answer, tables) = fetch_first stmt s first rest e in
      let (code, after) =
        released name stmt (cpl_ok, store out (read_id (some first)))
          (cpl_sql_fetch_single_llong d stmt s).1 in
      rw answer (code, after ∙ tables)

  pub finish_write_keeps :
      (name : Statement) (stmt : Option ℕ) (s : Odbc Conn)
      → Seen view cpl_ok (view.tables s.conn) (finish_write d name stmt true s)
  unfolding finish_write
  finish_write_keeps name stmt s = released name stmt cpl_ok s

  -- A call from its statement on, whose end leaves the tables.
  pub call_runs :
      {A : Type 0} (name : Statement) (ps : List Parameter) (k : Option ℕ → Bool → O Conn A)
      (answer : List (Datum Timestamp) → A) (s : Odbc Conn)
      → length ps ≡ markers name
      → view.statement (stmt_acquire name s).0 s.conn ≡ name
      → ((stmt : Option ℕ) (t : Odbc Conn) (rs : List (Datum Timestamp))
          → view.rows stmt t.conn ≡ rs
          → Seen view (answer rs) (view.tables t.conn) (k stmt true t))
      → Seen view
          (answer (view.run name ps (view.tables s.conn)).0)
          (view.run name ps (view.tables s.conn)).1
          ((stmt_acquire name >>= λ stmt. sql_execute d stmt ps >>= k stmt) s)
  unfolding ◌>>=◌
  call_runs name ps k answer s e prepared h =
      let (stmt, t) = stmt_acquire name s in
      let same_conn : t.conn ≡ s.conn = acquire_conn name s in
      let here : view.statement stmt t.conn ≡ name =
        ap (view.statement stmt) same_conn ∙ prepared in
      let (ok, rows, tables) = execute_runs stmt ps t (e ∙ ap markers (sym here)) in
      let u = (sql_execute d stmt ps t).1 in
      let changed : view.run (view.statement stmt t.conn) ps (view.tables t.conn)
          ≡ view.run name ps (view.tables s.conn) =
        rw (here, same_conn) refl in
      let (found, kept) = h stmt u _ (rows ∙ ap (λ r. r.0) changed) in
      subst
        (λ b.
          Seen view (answer (view.run name ps (view.tables s.conn)).0)
            (view.run name ps (view.tables s.conn)).1 (k stmt b u))
        (sym ok) (found, kept ∙ tables ∙ ap (λ r. r.1) changed)
