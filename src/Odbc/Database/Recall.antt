-- ===== src/Odbc/Database/Recall.antt =====
-- The library over the ODBC backend over a database.
use prov_cpl.Prelude.{ℕ, ℤ, Text, true, false, Option, some, List, [], ◌∷◌, ◌≡◌, refl, ap, ◌∙◌}
use prov_cpl.Codes.{cpl_ok, cpl_s_object_created, o_type_refused}
use prov_cpl.Api.Backend.{Backend}
use prov_cpl.Api.Effect.{State, go, store}
use prov_cpl.Api.Objects.{cpl_create_object, cpl_lookup_object}
use prov_cpl.Odbc.Statements.{create_object, lookup_object_nt, lookup_object_t}
use prov_cpl.Odbc.Driver.{Driver, Datum, Parameter, integer, varchar}
use prov_cpl.Odbc.State.{Odbc}
use prov_cpl.Odbc.Execute.{of_llong}
use prov_cpl.Odbc.Fetch.{as_number}
use prov_cpl.Odbc.Interface.{with_cell, cpl_odbc_backend}
use prov_cpl.Odbc.Calls.{cpl_prefix_len, cpl_name_len}
use prov_cpl.Odbc.Calls.Objects.{
  typed, type_parameter, cpl_odbc_create_object, cpl_odbc_lookup_object,
}
use prov_cpl.Odbc.Database.{View, Works, id_answer}
use prov_cpl.Odbc.Database.Calls.{ArePrepared, calls_run}
use prov_cpl.Odbc.Database.Quiet.{KeepsStatements}
use prov_cpl.Odbc.Database.Sessions.{creates, serve}
use prov_cpl.Odbc.Database.Sessions.Serving.{IsServing, IsSame-IsServing, serve-Continues}

module _ {Db Ctx : Type 0} (vt : Backend Db Ctx) where
  -- The two calls on an attached library, by what the backend does.
  create_object_attached :
      (p n : Text) (k : ℤ) (out : Option ℕ) (s : State Db) (db after : Db) (id : ℕ)
      → s.initialized ≡ true
      → s.backend ≡ some db
      → o_type_refused k ≡ false
      → vt.cpl_db_create_object db p n k ≡ ((cpl_ok, id), after)
      → cpl_create_object vt (some p) (some n) k out s
        ≡ (go (cpl_s_object_created, store out id), record s { backend = some after })
  unfolding cpl_create_object
  create_object_attached p n k out s db after id e f g h = rw (e, f, g, h) refl

  lookup_object_attached :
      (p n : Text) (k : ℤ) (out : Option ℕ) (s : State Db) (db after : Db) (id : ℕ)
      → s.initialized ≡ true
      → s.backend ≡ some db
      → vt.cpl_db_lookup_object db p n k ≡ ((cpl_ok, id), after)
      → cpl_lookup_object vt (some p) (some n) k out s
        ≡ (go (cpl_ok, store out id), record s { backend = some after })
  unfolding cpl_lookup_object
  lookup_object_attached p n k out s db after id e f h = rw (e, f, h) refl

abbrev pub object_parameters : Text → Text → List Parameter → List Parameter
object_parameters prefix name ps =
    varchar cpl_prefix_len (some prefix) ∷ varchar cpl_name_len (some name) ∷ ps

module _ {Conn Timestamp Tables : Type 0} (view : View Conn Timestamp Tables) where
  -- The statement that inserts an object gives a row, and the one that looks it up then finds a row
  -- with the same identifier first.
  pub record Recalls (prefix name : Text) (kind : ℤ) (first : Datum Timestamp) (t : Tables)
      : Type 0 where
    pub rest : List (Datum Timestamp)
    pub others : List (Datum Timestamp)
    pub inserts :
        (view.run create_object (object_parameters prefix name (integer kind ∷ [])) t).0
        ≡ first ∷ rest
    pub finds :
        (view.run
          (typed lookup_object_nt lookup_object_t kind)
          (object_parameters prefix name (type_parameter kind))
          (view.run create_object (object_parameters prefix name (integer kind ∷ [])) t).1).0
        ≡ first ∷ others

module _ {Conn Timestamp Tables : Type 0} (d : Driver Conn Timestamp)
    (view : View Conn Timestamp Tables) where
  module _ (w : Works d view) where
    odbc_created :
        (prefix name : Text) (kind : ℤ) (first : Datum Timestamp) (db : Odbc Conn)
        → ArePrepared view db
        → Recalls view prefix name kind first (view.tables db.conn)
        → (cpl_odbc_create_object d prefix name kind (some 0) db).0
          ≡ (cpl_ok, some (of_llong (as_number first)))
    odbc_created prefix name kind first db prepared r =
        (calls_run d view w prefix name [] [] [] kind 0 0 0 (some 0) db prepared).0.0
        ∙ ap (λ rows. id_answer rows (some 0)) r.inserts

    odbc_found :
        (prefix name : Text) (kind : ℤ) (first : Datum Timestamp) (db : Odbc Conn)
        → ArePrepared view db
        → ArePrepared view (cpl_odbc_create_object d prefix name kind (some 0) db).1
        → Recalls view prefix name kind first (view.tables db.conn)
        → (cpl_odbc_lookup_object d prefix name kind
            (some 0)
            (cpl_odbc_create_object d prefix name kind (some 0) db).1).0
          ≡ (cpl_ok, some (of_llong (as_number first)))
    odbc_found prefix name kind first db prepared prepared_after r =
        let after = (cpl_odbc_create_object d prefix name kind (some 0) db).1 in
        let made = calls_run d view w prefix name [] [] [] kind 0 0 0 (some 0) db prepared in
        let look =
          calls_run d view w prefix name [] [] [] kind 0 0 0 (some 0) after prepared_after in
        look.1.0
        ∙ ap
            (λ t.
              id_answer
                (view.run (typed lookup_object_nt lookup_object_t kind)
                  (object_parameters prefix name (type_parameter kind)) t).0
                (some 0))
            made.0.1
        ∙ ap (λ rows. id_answer rows (some 0)) r.finds

    created-ArePrepared :
        (k : KeepsStatements d view) (prefix name : Text) (kind : ℤ) (db : Odbc Conn)
        → IsServing view db
        → ArePrepared view (cpl_odbc_create_object d prefix name kind (some 0) db).1
    unfolding serve
    created-ArePrepared k prefix name kind db h =
        (IsSame-IsServing view db _
          (serve-Continues d view w k (creates prefix name kind (some 0)) db h).1 h).prepared

    -- On an attached library over the ODBC backend, whose driver does not fail and leaves each handle
    -- prepared for its statement, with no handle out of its pool and the handle that a call would take
    -- prepared for the statement of the pool: if the database inserts an object and then finds it,
    -- `cpl_create_object` gives an identifier, and `cpl_lookup_object` after it gives the same.
    pub created_is_found :
        (k : KeepsStatements d view) (Ctx : Type 0) (prefix name : Text) (kind : ℤ)
        (out again : Option ℕ) (first : Datum Timestamp) (s : State (Odbc Conn)) (db : Odbc Conn)
        → s.initialized ≡ true
        → s.backend ≡ some db
        → o_type_refused kind ≡ false
        → IsServing view db
        → Recalls view prefix name kind first (view.tables db.conn)
        → let vt : Backend (Odbc Conn) Ctx = cpl_odbc_backend d in
          let made = cpl_create_object vt (some prefix) (some name) kind out s in
          let found = cpl_lookup_object vt (some prefix) (some name) kind again made.1 in
          (made.0 ≡ go (cpl_s_object_created, store out (of_llong (as_number first))))
          × (found.0 ≡ go (cpl_ok, store again (of_llong (as_number first))))
    created_is_found k Ctx prefix name kind out again first s db e f g h r =
        let prepared = h.prepared in
        let prepared_after = created-ArePrepared k prefix name kind db h in
        let vt : Backend (Odbc Conn) Ctx = cpl_odbc_backend d in
        let after = (cpl_odbc_create_object d prefix name kind (some 0) db).1 in
        let last = (cpl_odbc_lookup_object d prefix name kind (some 0) after).1 in
        let id = of_llong (as_number first) in
        let made =
          create_object_attached vt prefix name kind out s db after id e f g
            (ap (λ x. with_cell (x, after)) (odbc_created prefix name kind first db prepared r)) in
        let found =
          lookup_object_attached vt prefix name kind again (record s { backend = some after }) after
            last id e refl
            (ap (λ x. with_cell (x, last))
              (odbc_found prefix name kind first db prepared prepared_after r)) in
        rw made (refl, ap (λ x. x.0) found)
