-- ===== src/Odbc/Database/Sessions.antt =====
-- Any number of calls of the ODBC backend, one after the other, on a database.
pub mod Serving
use prov_cpl.Prelude.{ℕ, ℤ, pos, Text, Option, none, some, List, [], ◌∷◌}
use prov_cpl.Codes.{cpl_ok}
use prov_cpl.Odbc.Statements.{
  Statement, create_object, lookup_object_nt, lookup_object_t, add_relation, lookup_relation,
  add_object_property, add_relation_property, add_prefix,
}
use prov_cpl.Odbc.Driver.{Driver, Datum, Parameter, integer, varchar}
use prov_cpl.Odbc.State.{O, ◌>>=◌, pure}
use prov_cpl.Odbc.Execute.{bind_id}
use prov_cpl.Odbc.Calls.{cpl_prefix_len, cpl_name_len, cpl_key_len, cpl_value_len}
use prov_cpl.Odbc.Calls.Objects.{
  typed, type_parameter, cpl_odbc_create_object, cpl_odbc_lookup_object,
}
use prov_cpl.Odbc.Calls.Relations.{
  cpl_odbc_add_relation, cpl_odbc_lookup_relation, cpl_odbc_add_prefix,
}
use prov_cpl.Odbc.Calls.Properties.{cpl_odbc_add_object_property, cpl_odbc_add_relation_property}
use prov_cpl.Odbc.Database.{View, id_answer}

-- A call that writes or gives an identifier, with its arguments; the last one of the latter is the cell
-- of the caller.
pub data Demand : Type 0 where
  creates looks_up : Text → Text → ℤ → Option ℕ → Demand
  relates looks_up_relation : ℕ → ℕ → ℤ → Option ℕ → Demand
  sets_object sets_relation : ℕ → Text → Text → Text → ℤ → Demand
  sets_prefix : ℕ → Text → Text → Demand

-- The code and the cell; a call that only writes has none.
abbrev pub Answer : Type 0
Answer = ℤ × Option ℕ

module _ {Conn Timestamp : Type 0} (d : Driver Conn Timestamp) where
  abbrev pub without_cell : O Conn ℤ → O Conn Answer
  without_cell m s = let (code, t) = m s in ((code, none), t)

  -- The function of the backend.
  unfoldable pub serve : Demand → O Conn Answer
  serve (creates prefix name kind out) = cpl_odbc_create_object d prefix name kind out
  serve (looks_up prefix name kind out) = cpl_odbc_lookup_object d prefix name kind out
  serve (relates from to kind out) = cpl_odbc_add_relation d from to kind out
  serve (looks_up_relation from to kind out) = cpl_odbc_lookup_relation d from to kind out
  serve (sets_object id prefix key value kind) =
      without_cell (cpl_odbc_add_object_property d id prefix key value kind)
  serve (sets_relation id prefix key value kind) =
      without_cell (cpl_odbc_add_relation_property d id prefix key value kind)
  serve (sets_prefix id prefix iri) = without_cell (cpl_odbc_add_prefix d id prefix iri)

  -- One call after the other.
  unfoldable pub serve_all : List Demand → O Conn (List Answer)
  serve_all [] s = ([], s)
  serve_all (r ∷ rs) s =
      let (answer, t) = serve r s in let (answers, u) = serve_all rs t in (answer ∷ answers, u)

-- What a demand is to a database: a statement with parameters.
abbrev pub statement_of : Demand → Statement × List Parameter
statement_of (creates prefix name kind out) = (
  create_object,
  varchar cpl_prefix_len (some prefix) ∷ varchar cpl_name_len (some name) ∷ integer kind ∷ [],
)
statement_of (looks_up prefix name kind out) = (
  typed lookup_object_nt lookup_object_t kind,
  varchar cpl_prefix_len (some prefix) ∷ varchar cpl_name_len (some name) ∷ type_parameter kind,
)
statement_of (relates from to kind out) =
    (add_relation, bind_id from ∷ bind_id to ∷ integer kind ∷ [])
statement_of (looks_up_relation from to kind out) =
    (lookup_relation, bind_id from ∷ bind_id to ∷ integer kind ∷ [])
statement_of (sets_object id prefix key value kind) = (
  add_object_property,
  bind_id id
      ∷ varchar cpl_prefix_len (some prefix)
      ∷ varchar cpl_key_len (some key)
      ∷ varchar cpl_value_len (some value)
      ∷ integer kind
      ∷ [],
)
statement_of (sets_relation id prefix key value kind) = (
  add_relation_property,
  bind_id id
      ∷ varchar cpl_prefix_len (some prefix)
      ∷ varchar cpl_key_len (some key)
      ∷ varchar cpl_value_len (some value)
      ∷ integer kind
      ∷ [],
)
statement_of (sets_prefix id prefix iri) = (
  add_prefix,
  bind_id id ∷ varchar cpl_prefix_len (some prefix) ∷ varchar cpl_value_len (some iri) ∷ [],
)

-- What it answers, from the first columns of the rows.
abbrev pub answer_of : {Timestamp : Type 0} → Demand → List (Datum Timestamp) → Answer
answer_of (creates prefix name kind out) rows = id_answer rows out
answer_of (looks_up prefix name kind out) rows = id_answer rows out
answer_of (relates from to kind out) rows = id_answer rows out
answer_of (looks_up_relation from to kind out) rows = id_answer rows out
answer_of (sets_object id prefix key value kind) rows = (cpl_ok, none)
answer_of (sets_relation id prefix key value kind) rows = (cpl_ok, none)
answer_of (sets_prefix id prefix iri) rows = (cpl_ok, none)

module _ {Conn Timestamp Tables : Type 0} (view : View Conn Timestamp Tables) where
  -- The demands on the tables alone.
  abbrev pub answer_all : List Demand → Tables → List Answer × Tables
  answer_all [] t = ([], t)
  answer_all (r ∷ rs) t =
      let effect = view.run (statement_of r).0 (statement_of r).1 t in
      let (answers, after) = answer_all rs effect.1 in (answer_of r effect.0 ∷ answers, after)
