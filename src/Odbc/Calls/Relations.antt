-- ===== src/Odbc/Calls/Relations.antt =====
-- `cpl_odbc_add_relation`, `cpl_odbc_lookup_relation`, `cpl_odbc_has_immediate_ancestor`,
-- `cpl_odbc_get_object_relations`, `cpl_odbc_get_bundle_relations`, `cpl_odbc_add_prefix` and
-- `cpl_odbc_get_prefixes`.
use prov_cpl.Prelude.{
  ℕ, ℤ, pos, Text, List, [], ◌∷◌, not, ◌||◌, Option, none, some, if◌then◌else◌, eq_ℤ,
}
use prov_cpl.Codes.{
  cpl_ok, cpl_is_ok, cpl_e_not_found, cpl_e_statement_error, cpl_s_no_data, cpl_d_ancestors,
}
use prov_cpl.Api.Effect.{store}
use prov_cpl.Api.Backend.{Iterator, Relation, PrefixEntry}
use prov_cpl.Odbc.Statements.{
  Statement, add_relation, lookup_relation, has_immediate_ancestor, get_object_ancestors,
  get_object_descendants, get_bundle_relations, add_prefix, get_prefixes, get_prefixes_with_key,
}
use prov_cpl.Odbc.Driver.{Driver, Cell, Parameter, integer, varchar}
use prov_cpl.Odbc.State.{O, ◌>>=◌, ◌>>◌, pure, stmt_acquire, stmt_release}
use prov_cpl.Odbc.Execute.{bind_id, of_llong, sql_execute}
use prov_cpl.Odbc.Fetch.{as_number, as_text, cpl_sql_fetch_single_llong}
use prov_cpl.Odbc.Calls.{
  cpl_prefix_len, cpl_value_len, column, hand_over, give_id, finish_write, give_rows,
}

module _ {Conn Timestamp : Type 0} (d : Driver Conn Timestamp) where
  unfoldable pub cpl_odbc_add_relation : ℕ → ℕ → ℤ → Option ℕ → O Conn (ℤ × Option ℕ)
  cpl_odbc_add_relation from_id to_id kind out_id = do
    stmt ← stmt_acquire add_relation
    executed ← sql_execute d stmt (bind_id from_id ∷ bind_id to_id ∷ integer kind ∷ [])
    give_id d add_relation stmt executed out_id

  unfoldable pub cpl_odbc_lookup_relation : ℕ → ℕ → ℤ → Option ℕ → O Conn (ℤ × Option ℕ)
  cpl_odbc_lookup_relation from_id to_id kind out_id = do
    stmt ← stmt_acquire lookup_relation
    executed ← sql_execute d stmt (bind_id from_id ∷ bind_id to_id ∷ integer kind ∷ [])
    give_id d lookup_relation stmt executed out_id

  -- Finding nothing is the answer 0.
  abbrev pub answer : ℤ → Option ℤ → ℤ × Option ℤ
  answer r out =
      if cpl_is_ok r
      then (cpl_ok, store out (pos 1))
      else if eq_ℤ r cpl_e_not_found
      then (cpl_ok, store out (pos 0))
      else (r, out)

  unfoldable pub cpl_odbc_has_immediate_ancestor : ℕ → ℕ → Option ℤ → O Conn (ℤ × Option ℤ)
  cpl_odbc_has_immediate_ancestor object_id query_object_id out = do
    stmt ← stmt_acquire has_immediate_ancestor
    executed ← sql_execute d stmt (bind_id query_object_id ∷ bind_id object_id ∷ [])
    if not executed
        then (do stmt_release has_immediate_ancestor stmt; pure (cpl_e_statement_error, out))
        else (do
          r ← cpl_sql_fetch_single_llong d stmt
          stmt_release has_immediate_ancestor stmt
          pure (answer r.0 out))

  -- One row of a walk from `id`.
  abbrev pub relation_row : ℕ → List (Cell Timestamp) → List Relation
  relation_row id cells =
      record {
        id = of_llong (as_number (column 0 cells).datum);
        query_object_id = id;
        other_object_id = of_llong (as_number (column 1 cells).datum);
        kind = as_number (column 2 cells).datum;
      }
      ∷ []

  unfoldable pub cpl_odbc_get_object_relations :
      {Ctx : Type 0} → ℕ → ℤ → ℤ → Iterator Relation Ctx → Ctx → O Conn (ℤ × Ctx)
  cpl_odbc_get_object_relations id direction flags callback context = do
    let name =
        if eq_ℤ direction cpl_d_ancestors then get_object_ancestors else get_object_descendants
    stmt ← stmt_acquire name
    executed ← sql_execute d stmt (bind_id id ∷ [])
    entries ← give_rows d name stmt executed 3 (relation_row id)
    pure (hand_over cpl_s_no_data entries callback context)

  abbrev pub bundle_relation_row : List (Cell Timestamp) → List Relation
  bundle_relation_row cells =
      record {
        id = of_llong (as_number (column 0 cells).datum);
        query_object_id = of_llong (as_number (column 1 cells).datum);
        other_object_id = of_llong (as_number (column 2 cells).datum);
        kind = as_number (column 3 cells).datum;
      }
      ∷ []

  unfoldable pub cpl_odbc_get_bundle_relations :
      {Ctx : Type 0} → ℕ → Iterator Relation Ctx → Ctx → O Conn (ℤ × Ctx)
  cpl_odbc_get_bundle_relations id callback context = do
    stmt ← stmt_acquire get_bundle_relations
    executed ← sql_execute d stmt (bind_id id ∷ [])
    entries ← give_rows d get_bundle_relations stmt executed 4 bundle_relation_row
    pure (hand_over cpl_s_no_data entries callback context)

  unfoldable pub cpl_odbc_add_prefix : ℕ → Text → Text → O Conn ℤ
  cpl_odbc_add_prefix id prefix iri = do
    stmt ← stmt_acquire add_prefix
    executed ←
        sql_execute d stmt (
          bind_id id ∷ varchar cpl_prefix_len (some prefix) ∷ varchar cpl_value_len (some iri) ∷ [])
    finish_write d add_prefix stmt executed

  -- A row with a NULL is passed over.
  abbrev prefix_row : ℕ → List (Cell Timestamp) → List PrefixEntry
  prefix_row id cells =
      if (column 1 cells).is_null || (column 2 cells).is_null
      then []
      else record {
        id = id;
        prefix = as_text (column 1 cells).datum;
        iri = as_text (column 2 cells).datum;
      }
        ∷ []

  abbrev prefixes_name : Option Text → Statement
  prefixes_name none = get_prefixes
  prefixes_name (some prefix) = get_prefixes_with_key

  abbrev prefix_parameter : Option Text → List Parameter
  prefix_parameter none = []
  prefix_parameter (some prefix) = varchar cpl_prefix_len (some prefix) ∷ []

  unfoldable pub cpl_odbc_get_prefixes :
      {Ctx : Type 0} → ℕ → Option Text → Iterator PrefixEntry Ctx → Ctx → O Conn (ℤ × Ctx)
  cpl_odbc_get_prefixes id prefix callback context = do
    stmt ← stmt_acquire (prefixes_name prefix)
    executed ← sql_execute d stmt (bind_id id ∷ prefix_parameter prefix)
    entries ← give_rows d (prefixes_name prefix) stmt executed 3 (prefix_row id)
    pure (hand_over cpl_s_no_data entries callback context)
