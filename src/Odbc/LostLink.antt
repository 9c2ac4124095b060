-- ===== src/Odbc/LostLink.antt =====
-- A database that goes away: the link fails, and a new connection is refused.
use prov_cpl.Prelude.{
  ℕ, ◌+◌, ℤ, Text, codes, List, [], ◌∷◌, Bool, true, false, Option, ◌≡◌, sym, subst, text_eq, refl,
}
use prov_cpl.Odbc.Statements.{Statement}
use prov_cpl.Odbc.Driver.{Driver, sql_success, sql_succeeded, Parameter}
use prov_cpl.Odbc.State.{Odbc, O, ◌>>=◌, ◌>>◌, pure, driver, stmt_acquire, stmt_release}
use prov_cpl.Odbc.Connect.{
  cpl_odbc_free_statement_handles, cpl_odbc_disconnect, cpl_odbc_connect, cpl_odbc_reconnect,
  open_connection, cpl_e_db_connection_error,
}
use prov_cpl.Odbc.Execute.{
  link_down, bind_from, linked_down, fetch_odbc_error, should_reconnect_due_to_odbc_error, attempt,
  follow, after_reconnect, sql_execute_ext, sql_execute,
}
use prov_cpl.Odbc.Calls.{finish_write, give_id}
use prov_cpl.Odbc.Calls.Objects.{cpl_odbc_create_object}
use prov_cpl.Odbc.Calls.Relations.{cpl_odbc_add_prefix}
use prov_cpl.Odbc.Intact.{IsIntact}

module _ {Conn Timestamp : Type 0} (d : Driver Conn Timestamp) where
  -- Parameters can be bound, no statement can be executed for want of a link, and no connection made.
  pub record LosesLink : Type 0 where
    pub binds :
        (stmt : Option ℕ) (arg : ℕ) (p : Parameter) (c : Conn)
        → sql_succeeded (d.sql_bind_parameter stmt arg p c).0 ≡ true
    pub refuses : (stmt : Option ℕ) (c : Conn) → sql_succeeded (d.sql_execute stmt c).0 ≡ false
    pub reports :
        (stmt : Option ℕ) (c : Conn) → d.sql_diag_recs stmt c ≡ (sql_success, codes "08S01") ∷ []
    pub unreachable :
        (text : Text) (c : Conn) → sql_succeeded (d.sql_driver_connect text c).0 ≡ false

  module _ (lost : LosesLink) where
    bind_from_ok :
        (ps : List Parameter) (arg : ℕ) (stmt : Option ℕ) (s : Odbc Conn)
        → (bind_from d arg stmt ps s).0 ≡ true
    unfolding bind_from ◌>>=◌ driver pure
    bind_from_ok [] arg stmt s = refl
    bind_from_ok (p ∷ ps) arg stmt s = rw (lost.binds stmt arg p s.conn) (
        bind_from_ok ps (arg + 1) stmt
          (record s { conn = (d.sql_bind_parameter stmt arg p s.conn).1 }))

    attempt_down :
        (stmt : Option ℕ) (ps : List Parameter) (s : Odbc Conn)
        → (attempt d stmt ps s).0 ≡ link_down
    unfolding attempt linked_down fetch_odbc_error should_reconnect_due_to_odbc_error ◌>>=◌ driver
        pure text_eq
    attempt_down stmt ps s =
        let t = (bind_from d 1 stmt ps s).1 in
        rw
          (
            bind_from_ok ps 1 stmt s,
            lost.refuses stmt t.conn,
            lost.reports stmt (d.sql_execute stmt t.conn).1,
          )
          refl

    reconnect_fails :
        (s : Odbc Conn)
        → ((cpl_odbc_reconnect d s).0 ≡ cpl_e_db_connection_error)
          × ((cpl_odbc_reconnect d s).1.freed ≡ true)
    unfolding cpl_odbc_reconnect cpl_odbc_disconnect cpl_odbc_free_statement_handles
        cpl_odbc_connect open_connection ◌>>=◌ ◌>>◌ driver pure
    reconnect_fails s =
        let t = (cpl_odbc_disconnect d s).1 in
        rw (lost.unreachable t.connection_string t.conn) (refl, refl)

    execute_fails :
        (stmt : Option ℕ) (ps : List Parameter) (s : Odbc Conn)
        → ((sql_execute d stmt ps s).0 ≡ false) × ((sql_execute d stmt ps s).1.freed ≡ true)
    unfolding sql_execute sql_execute_ext follow after_reconnect ◌>>=◌ pure
    execute_fails stmt ps s =
        let t = (attempt d stmt ps s).1 in
        rw (attempt_down stmt ps s, (reconnect_fails t).0) (refl, (reconnect_fails t).1)

    -- A call whose end, if the statement has failed, gives the handle back.
    call_corrupts :
        {A : Type 0} (name : Statement) (ps : List Parameter) (k : Option ℕ → Bool → O Conn A)
        (s : Odbc Conn)
        → ((stmt : Option ℕ) (t : Odbc Conn) → t.freed ≡ true → (k stmt false t).1.corrupted ≡ true)
        → ((stmt_acquire name >>= λ stmt. sql_execute d stmt ps >>= k stmt) s).1.corrupted ≡ true
    unfolding ◌>>=◌
    call_corrupts name ps k s h =
        let (stmt, t) = stmt_acquire name s in
        let u = (sql_execute d stmt ps t).1 in
        let (code, freed) = execute_fails stmt ps t in
        subst (λ b. (k stmt b u).1.corrupted ≡ true) (sym code) (h stmt u freed)

    write_corrupts :
        (name : Statement) (stmt : Option ℕ) (t : Odbc Conn)
        → t.freed ≡ true
        → (finish_write d name stmt false t).1.corrupted ≡ true
    unfolding finish_write stmt_release ◌>>=◌ ◌>>◌ pure
    write_corrupts name stmt t h = rw h refl

    id_corrupts :
        (name : Statement) (out stmt : Option ℕ) (t : Odbc Conn)
        → t.freed ≡ true
        → (give_id d name stmt false out t).1.corrupted ≡ true
    unfolding give_id stmt_release ◌>>=◌ ◌>>◌ pure
    id_corrupts name out stmt t h = rw h refl

    -- If the link is lost and the database refuses a new connection, a call that writes and a call
    -- that gives an identifier put their handle into an array that the failed reconnection has
    -- freed.
    pub calls_corrupt :
        (id : ℕ) (prefix iri name : Text) (kind : ℤ) (out : Option ℕ) (s : Odbc Conn)
        → IsIntact s
        → ((cpl_odbc_add_prefix d id prefix iri s).1.corrupted ≡ true)
          × ((cpl_odbc_create_object d prefix name kind out s).1.corrupted ≡ true)
    unfolding cpl_odbc_add_prefix cpl_odbc_create_object
    calls_corrupt id prefix iri name kind out s h =
        (call_corrupts _ _ _ s (write_corrupts _), call_corrupts _ _ _ s (id_corrupts _ out))
