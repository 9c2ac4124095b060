-- ===== src/Odbc/Database/Sessions/Serving.antt =====
-- The backend answers as the database does, for as long as it is asked.
use prov_cpl.Prelude.{
  ℕ, ℤ, Bool, Bool-cases, inl, inr, Option, none, some, List, [], ◌∷◌, length, ◌≡◌, refl, sym, ap,
  subst, ◌∙◌, arith,
}
use prov_cpl.Odbc.Statements.{Statement, same}
use prov_cpl.Odbc.Statements.Numbers.{same_eq}
use prov_cpl.Odbc.Driver.{Driver, Parameter, varchar}
use prov_cpl.Odbc.State.{Odbc, O, ◌>>=◌, pure, driver, set_pool, put_back, stmt_acquire}
use prov_cpl.Odbc.Pool.{take_first, cpl_acquire_stmt}
use prov_cpl.Odbc.Pool.Laws.{nulls}
use prov_cpl.Odbc.Intact.{same_refl, take_first-put_back}
use prov_cpl.Odbc.Execute.{attempt, follow, sql_execute_ext, sql_execute, bind_from}
use prov_cpl.Odbc.Database.{View, Works, Seen, markers, id_answer}
use prov_cpl.Codes.{cpl_ok}
use prov_cpl.Odbc.Calls.{cpl_prefix_len, cpl_name_len, give_id, finish_write}
use prov_cpl.Odbc.Calls.Objects.{cpl_odbc_create_object, cpl_odbc_lookup_object}
use prov_cpl.Odbc.Calls.Relations.{
  cpl_odbc_add_relation, cpl_odbc_lookup_relation, cpl_odbc_add_prefix,
}
use prov_cpl.Odbc.Calls.Properties.{cpl_odbc_add_object_property, cpl_odbc_add_relation_property}
use prov_cpl.Odbc.Database.Laws.{acquire_conn, bind_from_all}
use prov_cpl.Odbc.Database.Calls.{ArePrepared, id_call-Gives, write_call-Writes, typed-markers}
use prov_cpl.Odbc.Database.Quiet.{
  IsSame, GivesBack, KeepsStatements, attempt-IsQuiet, give_id-GivesBack, finish_write-GivesBack,
}
use prov_cpl.Odbc.Database.Sessions.{
  Demand, creates, looks_up, relates, looks_up_relation, sets_object, sets_relation, sets_prefix,
  serve, serve_all, without_cell, statement_of, answer_of, answer_all,
}

module _ {Conn Timestamp Tables : Type 0} (view : View Conn Timestamp Tables) where
  -- Every handle is in its pool, and the one that a call would take is prepared.
  pub record IsServing (s : Odbc Conn) : Type 0 where
    pub full : (m : Statement) → nulls (s.pools m) ≡ 0
    pub prepared : ArePrepared view s

  pub acquire_handle :
      (name : Statement) (s : Odbc Conn) → (stmt_acquire name s).0 ≡ (take_first (s.pools name)).0
  unfolding stmt_acquire cpl_acquire_stmt
  acquire_handle name s = refl

  pub IsSame-IsServing : (s t : Odbc Conn) → IsSame view s t → IsServing s → IsServing t
  IsSame-IsServing s t same_state h = record {
    full = λ m. rw (same_state.pools m) (h.full m);
    prepared = λ name.
        ap (λ h. view.statement h t.conn)
          (acquire_handle name t
            ∙ ap (λ l. (take_first l).0) (same_state.pools name)
            ∙ sym (acquire_handle name s))
        ∙ same_state.statements (stmt_acquire name s).0
        ∙ h.prepared name;
  }

  -- A handle that is taken from a full pool and put back leaves the pools as they were.
  acquire_back :
      (name : Statement) (s : Odbc Conn) (m : Statement)
      → nulls (s.pools name) ≡ 0
      → set_pool name
          (put_back (stmt_acquire name s).0 ((stmt_acquire name s).1.pools name))
          (stmt_acquire name s).1.pools
          m
        ≡ s.pools m
  unfolding stmt_acquire cpl_acquire_stmt
  acquire_back name s m e =
      let back = take_first-put_back (s.pools name) e in
      elim (Bool-cases (same m name)) [
        | inl here ↦ ground (arith, same_refl name, back, ap s.pools (same_eq m name here))
        | inr other ↦ ground arith
      ]

  set_pool-cong :
      (name m : Statement) (x : Option ℕ) (s t u : Odbc Conn)
      → ((n : Statement) → u.pools n ≡ t.pools n)
      → set_pool name (put_back x (t.pools name)) t.pools m ≡ s.pools m
      → set_pool name (put_back x (u.pools name)) u.pools m ≡ s.pools m
  set_pool-cong name m x s t u e r = ground (arith, e m, e name, r)

  -- What was seen of a call, and that it leaves the pools and the handles as they were.
  abbrev pub Continues :
      {A : Type 0} → (A × Odbc Conn → Type 0) → Odbc Conn → A × Odbc Conn → Type 0
  Continues P s result = P result × IsSame view s result.1

module _ {Conn Timestamp Tables : Type 0} (d : Driver Conn Timestamp)
    (view : View Conn Timestamp Tables) where
  module _ (w : Works d view) (k : KeepsStatements d view) where
    -- The statement is executed at the first attempt.
    execute_at_once :
        (stmt : Option ℕ) (ps : List Parameter) (s : Odbc Conn)
        → length ps ≡ markers (view.statement stmt s.conn)
        → (sql_execute d stmt ps s).1 ≡ (attempt d stmt ps s).1
    unfolding sql_execute sql_execute_ext attempt follow ◌>>=◌ driver pure
    execute_at_once stmt ps s e =
        let (all, bound, statement, tables, before) = bind_from_all d view w ps 1 stmt s in
        let t = (bind_from d 1 stmt ps s).1 in
        let (ok, rows, after) = w.executes stmt ps t.conn (e ∙ ap markers (sym statement)) bound in
        rw (all, ok) refl

    execute-IsSame :
        (stmt : Option ℕ) (ps : List Parameter) (s : Odbc Conn)
        → length ps ≡ markers (view.statement stmt s.conn)
        → IsSame view s (sql_execute d stmt ps s).1
    execute-IsSame stmt ps s e =
        subst (IsSame view s) (sym (execute_at_once stmt ps s e))
          ((attempt-IsQuiet d view k stmt ps).quiet s)

    -- A call from its statement on.
    call-IsSame :
        {A : Type 0} (name : Statement) (ps : List Parameter) (f : Option ℕ → Bool → O Conn A)
        (s : Odbc Conn)
        → IsServing view s
        → length ps ≡ markers name
        → ((stmt : Option ℕ) (b : Bool) → GivesBack view name stmt (f stmt b))
        → IsSame view s ((stmt_acquire name >>= λ stmt. sql_execute d stmt ps >>= f stmt) s).1
    unfolding ◌>>=◌
    call-IsSame name ps f s h e g =
        let (stmt, t) = stmt_acquire name s in
        let here : view.statement stmt t.conn ≡ name =
          ap (view.statement stmt) (acquire_conn name s) ∙ h.prepared name in
        let run = execute-IsSame stmt ps t (e ∙ ap markers (sym here)) in
        let u = (sql_execute d stmt ps t).1 in
        let done = (g stmt (sql_execute d stmt ps t).0).gives u in
        record {
          pools = λ m.
              done.pools m
              ∙ set_pool-cong view name m stmt s t u run.pools
                  (acquire_back view name s m (h.full name));
          statements = λ x.
              done.statements x ∙ run.statements x ∙ ap (view.statement x) (acquire_conn name s);
        }

    id_call-IsSame :
        (name : Statement) (ps : List Parameter) (out : Option ℕ) (s : Odbc Conn)
        → IsServing view s
        → length ps ≡ markers name
        → Continues view
            (Seen view
              (id_answer (view.run name ps (view.tables s.conn)).0 out)
              (view.run name ps (view.tables s.conn)).1)
            s
            ((stmt_acquire name >>= λ stmt.
                sql_execute d stmt ps >>= λ b. give_id d name stmt b out)
              s)
    id_call-IsSame name ps out s h e = (
      id_call-Gives d view w name ps out s h.prepared e,
      call-IsSame name ps (λ stmt b. give_id d name stmt b out) s h e
          (λ stmt b. give_id-GivesBack d view k name stmt b out),
    )

    write_call-IsSame :
        (name : Statement) (ps : List Parameter) (s : Odbc Conn)
        → IsServing view s
        → length ps ≡ markers name
        → Continues view (Seen view cpl_ok (view.run name ps (view.tables s.conn)).1) s (
            (stmt_acquire name >>= λ stmt.
            sql_execute d stmt ps >>= λ b. finish_write d name stmt b)
              s)
    write_call-IsSame name ps s h e = (
      write_call-Writes d view w name ps s h.prepared e,
      call-IsSame name ps (λ stmt b. finish_write d name stmt b) s h e
          (λ stmt b. finish_write-GivesBack d view k name stmt b),
    )

    without_cell-Continues :
        (m : O Conn ℤ) (after : Tables) (s : Odbc Conn)
        → Continues view (Seen view cpl_ok after) s (m s)
        → Continues view (Seen view (cpl_ok, none) after) s (without_cell d m s)
    without_cell-Continues m after s ((answer, tables), kept) =
        ((ap (λ code. (code, none)) answer, tables), kept)

    -- One call.
    pub serve-Continues :
        (r : Demand) (s : Odbc Conn)
        → IsServing view s
        → let effect = view.run (statement_of r).0 (statement_of r).1 (view.tables s.conn) in
          Continues view (Seen view (answer_of r effect.0) effect.1) s (serve d r s)
    unfolding serve cpl_odbc_create_object cpl_odbc_lookup_object cpl_odbc_add_relation
        cpl_odbc_lookup_relation cpl_odbc_add_object_property cpl_odbc_add_relation_property
        cpl_odbc_add_prefix
    serve-Continues (creates prefix name kind out) s h = id_call-IsSame _ _ out s h refl
    serve-Continues (looks_up prefix name kind out) s h = id_call-IsSame _ _ out s h (
        typed-markers d view w (varchar cpl_prefix_len (some prefix))
          (varchar cpl_name_len (some name)) kind)
    serve-Continues (relates from to kind out) s h = id_call-IsSame _ _ out s h refl
    serve-Continues (looks_up_relation from to kind out) s h = id_call-IsSame _ _ out s h refl
    serve-Continues (sets_object id prefix key value kind) s h =
        without_cell-Continues (cpl_odbc_add_object_property d id prefix key value kind) _ s
          (write_call-IsSame _ _ s h refl)
    serve-Continues (sets_relation id prefix key value kind) s h =
        without_cell-Continues (cpl_odbc_add_relation_property d id prefix key value kind) _ s
          (write_call-IsSame _ _ s h refl)
    serve-Continues (sets_prefix id prefix iri) s h =
        without_cell-Continues (cpl_odbc_add_prefix d id prefix iri) _ s
          (write_call-IsSame _ _ s h refl)

    -- Over a driver that does not fail and leaves each handle prepared for its statement, from a state in
    -- which no handle is out of its pool and the handle that a call would take is prepared for the
    -- statement of the pool, any list of calls that create, look up, relate and set properties and
    -- prefixes answers as the list of their statements does on the tables alone, leaves the tables as
    -- these statements leave them, and ends in such a state.
    pub sessions_answer :
        (rs : List Demand) (s : Odbc Conn)
        → IsServing view s
        → Seen view
            (answer_all view rs (view.tables s.conn)).0
            (answer_all view rs (view.tables s.conn)).1
            (serve_all d rs s)
          × IsServing view (serve_all d rs s).1
    unfolding serve_all
    sessions_answer [] s h = ((refl, refl), h)
    sessions_answer (r ∷ rs) s h =
        let ((answer, tables), kept) = serve-Continues r s h in
        let t = (serve d r s).1 in
        let ((answers, after), serving) = sessions_answer rs t (IsSame-IsServing view s t kept h) in
        ((ground (arith, answer, tables, answers), ground (arith, tables, after)), serving)
