-- ===== src/Odbc/Database.antt =====
-- A database behind a driver that does not fail: tables, and what the statements do to them.
pub mod Laws
pub mod Calls
pub mod Recall
pub mod Created
pub mod Prepared
pub mod Quiet
pub mod Sessions
use prov_cpl.Prelude.{
  ℕ, suc, ℤ, pos, ◌+◌, ◌<◌, Bool, true, Option, List, [], ◌∷◌, length, ◌≡◌, ltb_ℤ,
}
use prov_cpl.Codes.{cpl_ok, cpl_e_not_found}
use prov_cpl.Api.Effect.{store}
use prov_cpl.Odbc.Statements.{
  Statement, create_session, create_object, lookup_object_nt, lookup_object_t, lookup_object_nt_ext,
  lookup_object_t_ext, add_relation, lookup_relation, lookup_object_property_wildcard,
  add_object_property, add_relation_property, add_prefix, get_session_info, get_all_objects_nt,
  get_all_objects_t, get_object_info, get_object_ancestors, get_object_descendants,
  get_object_properties, get_object_properties_with_key, lookup_object_by_property,
  get_relation_properties, get_relation_properties_with_key, has_immediate_ancestor,
  get_bundle_objects, get_bundle_relations, get_prefixes, get_prefixes_with_key,
}
use prov_cpl.Odbc.Driver.{Driver, Datum, Parameter, sql_succeeded, is_no_data}
use prov_cpl.Odbc.State.{Odbc}
use prov_cpl.Odbc.Execute.{of_llong}
use prov_cpl.Odbc.Fetch.{as_number}

-- How many parameters the text of a statement has.
abbrev pub markers : Statement → ℕ
markers create_session = 5
markers create_object = 3
markers lookup_object_nt = 2
markers lookup_object_t = 3
markers lookup_object_nt_ext = 2
markers lookup_object_t_ext = 3
markers add_relation = 3
markers lookup_relation = 3
markers lookup_object_property_wildcard = 1
markers add_object_property = 5
markers add_relation_property = 5
markers add_prefix = 3
markers get_session_info = 1
markers get_all_objects_nt = 1
markers get_all_objects_t = 2
markers get_object_info = 1
markers get_object_ancestors = 1
markers get_object_descendants = 1
markers get_object_properties = 2
markers get_object_properties_with_key = 4
markers lookup_object_by_property = 4
markers get_relation_properties = 2
markers get_relation_properties_with_key = 4
markers has_immediate_ancestor = 2
markers get_bundle_objects = 1
markers get_bundle_relations = 1
markers get_prefixes = 1
markers get_prefixes_with_key = 2

-- What a driver keeps for a statement handle, and what is behind it: the tables, the statement that a
-- handle was prepared for, the parameters that are bound, by their numbers, the first columns of the
-- rows that are left and of the row of the last fetch, and the effect of a statement.
pub record View (Conn Timestamp Tables : Type 0) : Type 0 where
  pub tables : Conn → Tables
  pub statement : Option ℕ → Conn → Statement
  pub parameter : Option ℕ → ℕ → Conn → Parameter
  pub rows : Option ℕ → Conn → List (Datum Timestamp)
  pub current : Option ℕ → Conn → Datum Timestamp
  pub run : Statement → List Parameter → Tables → List (Datum Timestamp) × Tables

module _ {Conn Timestamp Tables : Type 0} (d : Driver Conn Timestamp)
    (view : View Conn Timestamp Tables) where
  -- The parameters with these numbers are bound to these values.
  abbrev pub Bound : Option ℕ → ℕ → List Parameter → Conn → Type 0
  Bound stmt arg [] c = Unit {0}
  Bound stmt arg (p ∷ ps) c = (view.parameter stmt arg c ≡ p) × Bound stmt (arg + 1) ps c

  -- What ODBC says of the functions when they do not fail and no first column is NULL.
  pub record Works : Type 0 where
    pub binds :
        (stmt : Option ℕ) (arg : ℕ) (p : Parameter) (c : Conn)
        → (sql_succeeded (d.sql_bind_parameter stmt arg p c).0 ≡ true)
          × (view.parameter stmt arg (d.sql_bind_parameter stmt arg p c).1 ≡ p)
          × (view.statement stmt (d.sql_bind_parameter stmt arg p c).1 ≡ view.statement stmt c)
          × (view.tables (d.sql_bind_parameter stmt arg p c).1 ≡ view.tables c)
    pub binds_one :
        (stmt : Option ℕ) (arg other : ℕ) (p : Parameter) (c : Conn)
        → other < arg
        → view.parameter stmt other (d.sql_bind_parameter stmt arg p c).1
          ≡ view.parameter stmt other c
    pub executes :
        (stmt : Option ℕ) (ps : List Parameter) (c : Conn)
        → length ps ≡ markers (view.statement stmt c)
        → Bound stmt 1 ps c
        → (sql_succeeded (d.sql_execute stmt c).0 ≡ true)
          × (view.rows stmt (d.sql_execute stmt c).1
              ≡ (view.run (view.statement stmt c) ps (view.tables c)).0)
          × (view.tables (d.sql_execute stmt c).1
              ≡ (view.run (view.statement stmt c) ps (view.tables c)).1)
    pub fetches :
        (stmt : Option ℕ) (c : Conn) (first : Datum Timestamp) (rest : List (Datum Timestamp))
        → view.rows stmt c ≡ first ∷ rest
        → (sql_succeeded (d.sql_fetch stmt c).0 ≡ true)
          × (view.current stmt (d.sql_fetch stmt c).1 ≡ first)
    pub fetches_none :
        (stmt : Option ℕ) (c : Conn)
        → view.rows stmt c ≡ []
        → is_no_data (d.sql_fetch stmt c).0 ≡ true
    pub gets :
        (stmt : Option ℕ) (c : Conn)
        → (sql_succeeded (d.sql_get_data stmt 1 c).0.0 ≡ true)
          × (ltb_ℤ (pos 0) (d.sql_get_data stmt 1 c).0.1 ≡ true)
          × ((d.sql_get_data stmt 1 c).0.2 ≡ view.current stmt c)
    pub closes : (stmt : Option ℕ) (c : Conn) → sql_succeeded (d.sql_close_cursor stmt c).0 ≡ true
    pub reading :
        (stmt : Option ℕ) (c : Conn)
        → (view.tables (d.sql_fetch stmt c).1 ≡ view.tables c)
          × (view.tables (d.sql_get_data stmt 1 c).1 ≡ view.tables c)
          × (view.tables (d.sql_close_cursor stmt c).1 ≡ view.tables c)

-- The answer of a call that gives an identifier, from the first columns of the rows.
abbrev pub id_answer : {Timestamp : Type 0} → List (Datum Timestamp) → Option ℕ → ℤ × Option ℕ
id_answer [] out = (cpl_e_not_found, out)
id_answer (first ∷ rest) out = (cpl_ok, store out (of_llong (as_number first)))

-- What a call answers, with the tables that it leaves.
abbrev pub Seen :
    {Conn Timestamp Tables A : Type 0}
    → View Conn Timestamp Tables
    → A
    → Tables
    → A × Odbc Conn
    → Type 0
Seen view answer after (found, t) = (found ≡ answer) × (view.tables t.conn ≡ after)
