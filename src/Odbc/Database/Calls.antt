-- ===== src/Odbc/Database/Calls.antt =====
-- Each call that gives an identifier or writes, as one statement on the tables.
use prov_cpl.Prelude.{
  ℕ, ℤ, pos, Text, Bool-cases, inl, inr, Option, some, List, [], ◌∷◌, length, ◌≡◌, refl, eq_ℤ,
}
use prov_cpl.Codes.{cpl_ok}
use prov_cpl.Odbc.Statements.{
  Statement, create_object, lookup_object_nt, lookup_object_t, add_relation, lookup_relation,
  add_object_property, add_relation_property, add_prefix,
}
use prov_cpl.Odbc.Driver.{Driver, Parameter, integer, varchar}
use prov_cpl.Odbc.State.{Odbc, ◌>>=◌, stmt_acquire}
use prov_cpl.Odbc.Execute.{bind_id, sql_execute}
use prov_cpl.Odbc.Calls.{
  cpl_prefix_len, cpl_name_len, cpl_key_len, cpl_value_len, give_id, finish_write,
}
use prov_cpl.Odbc.Calls.Objects.{
  typed, type_parameter, cpl_odbc_create_object, cpl_odbc_lookup_object,
}
use prov_cpl.Odbc.Calls.Relations.{
  cpl_odbc_add_relation, cpl_odbc_lookup_relation, cpl_odbc_add_prefix,
}
use prov_cpl.Odbc.Calls.Properties.{cpl_odbc_add_object_property, cpl_odbc_add_relation_property}
use prov_cpl.Odbc.Database.{View, Works, Seen, markers, id_answer}
use prov_cpl.Odbc.Database.Laws.{call_runs, give_id_reads, finish_write_keeps}

module _ {Conn Timestamp Tables : Type 0} (view : View Conn Timestamp Tables) where
  -- The handle that a call would take from a pool is prepared for the statement of the pool.
  abbrev pub ArePrepared : Odbc Conn → Type 0
  ArePrepared s = (name : Statement) → view.statement (stmt_acquire name s).0 s.conn ≡ name

  -- The call has given the identifier that its statement returns, or has succeeded without one, and
  -- left the tables as the statement leaves them.
  abbrev pub Gives :
      Statement → List Parameter → Option ℕ → Odbc Conn → (ℤ × Option ℕ) × Odbc Conn → Type 0
  Gives name ps out s result =
      let effect = view.run name ps (view.tables s.conn) in
      Seen view (id_answer effect.0 out) effect.1 result

  abbrev pub Writes : Statement → List Parameter → Odbc Conn → ℤ × Odbc Conn → Type 0
  Writes name ps s result =
      let effect = view.run name ps (view.tables s.conn) in Seen view cpl_ok effect.1 result

module _ {Conn Timestamp Tables : Type 0} (d : Driver Conn Timestamp)
    (view : View Conn Timestamp Tables) where
  module _ (w : Works d view) where
    pub id_call-Gives :
        (name : Statement) (ps : List Parameter) (out : Option ℕ) (s : Odbc Conn)
        → ArePrepared view s
        → length ps ≡ markers name
        → Gives view name ps out s (
            (stmt_acquire name >>= λ stmt. sql_execute d stmt ps >>= λ b. give_id d name stmt b out)
              s)
    id_call-Gives name ps out s prepared e =
        call_runs d view w name ps (λ stmt b. give_id d name stmt b out) (λ rs. id_answer rs out) s
          e (prepared name) (λ stmt t rs r. give_id_reads d view w name stmt out t rs r)

    pub write_call-Writes :
        (name : Statement) (ps : List Parameter) (s : Odbc Conn)
        → ArePrepared view s
        → length ps ≡ markers name
        → Writes view name ps s (
            (stmt_acquire name >>= λ stmt.
            sql_execute d stmt ps >>= λ b. finish_write d name stmt b)
              s)
    write_call-Writes name ps s prepared e =
        call_runs d view w name ps (λ stmt b. finish_write d name stmt b) (λ rs. cpl_ok) s e
          (prepared name) (λ stmt t rs r. finish_write_keeps d view w name stmt t)

    pub typed-markers :
        (p n : Parameter) (kind : ℤ)
        → length (p ∷ n ∷ type_parameter kind)
          ≡ markers (typed lookup_object_nt lookup_object_t kind)
    typed-markers p n kind = elim (Bool-cases (eq_ℤ kind (pos 0))) [
      | inl e ↦ rw e refl
      | inr e ↦ rw e refl
    ]

    -- Over a driver that does not fail, with handles in the pools that are prepared, each of the calls
    -- that create and look up objects and relations and that add properties and prefixes is one
    -- statement on the tables, with the arguments of the call as its parameters: the call gives the
    -- identifier in the first row of the result, or `CPL_E_NOT_FOUND` if there is no row, and leaves
    -- the tables as the statement leaves them.
    pub calls_run :
        (prefix name value key iri : Text) (kind : ℤ) (id from to : ℕ) (out : Option ℕ)
        (s : Odbc Conn)
        → ArePrepared view s
        → Gives view create_object
            (varchar cpl_prefix_len (some prefix)
              ∷ varchar cpl_name_len (some name)
              ∷ integer kind
              ∷ [])
            out
            s
            (cpl_odbc_create_object d prefix name kind out s)
          × Gives view
              (typed lookup_object_nt lookup_object_t kind)
              (varchar cpl_prefix_len (some prefix)
                ∷ varchar cpl_name_len (some name)
                ∷ type_parameter kind)
              out
              s
              (cpl_odbc_lookup_object d prefix name kind out s)
          × Gives view add_relation
              (bind_id from ∷ bind_id to ∷ integer kind ∷ [])
              out
              s
              (cpl_odbc_add_relation d from to kind out s)
          × Gives view lookup_relation
              (bind_id from ∷ bind_id to ∷ integer kind ∷ [])
              out
              s
              (cpl_odbc_lookup_relation d from to kind out s)
          × Writes view add_object_property
              (bind_id id
                ∷ varchar cpl_prefix_len (some prefix)
                ∷ varchar cpl_key_len (some key)
                ∷ varchar cpl_value_len (some value)
                ∷ integer kind
                ∷ [])
              s
              (cpl_odbc_add_object_property d id prefix key value kind s)
          × Writes view add_relation_property
              (bind_id id
                ∷ varchar cpl_prefix_len (some prefix)
                ∷ varchar cpl_key_len (some key)
                ∷ varchar cpl_value_len (some value)
                ∷ integer kind
                ∷ [])
              s
              (cpl_odbc_add_relation_property d id prefix key value kind s)
          × Writes view add_prefix
              (bind_id id
                ∷ varchar cpl_prefix_len (some prefix)
                ∷ varchar cpl_value_len (some iri)
                ∷ [])
              s
              (cpl_odbc_add_prefix d id prefix iri s)
    unfolding cpl_odbc_create_object cpl_odbc_lookup_object cpl_odbc_add_relation
        cpl_odbc_lookup_relation cpl_odbc_add_object_property cpl_odbc_add_relation_property
        cpl_odbc_add_prefix
    calls_run prefix name value key iri kind id from to out s prepared = (
      id_call-Gives _ _ out s prepared refl,
      id_call-Gives _ _ out s prepared (
          typed-markers (varchar cpl_prefix_len (some prefix)) (varchar cpl_name_len (some name))
            kind),
      id_call-Gives _ _ out s prepared refl,
      id_call-Gives _ _ out s prepared refl,
      write_call-Writes _ _ s prepared refl,
      write_call-Writes _ _ s prepared refl,
      write_call-Writes _ _ s prepared refl,
    )
