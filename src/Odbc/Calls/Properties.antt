-- ===== src/Odbc/Calls/Properties.antt =====
-- `cpl_odbc_add_object_property`, `cpl_odbc_add_relation_property`,
-- `cpl_odbc_get_object_properties`, `cpl_odbc_get_relation_properties`,
-- `cpl_odbc_lookup_object_by_property` and `cpl_odbc_lookup_object_property_wildcard`.
use prov_cpl.Prelude.{
  ℕ, ℤ, Text, List, [], ◌∷◌, Bool, ◌||◌, Option, none, some, if◌then◌else◌, length,
}
use prov_cpl.Codes.{cpl_e_not_found, cpl_s_no_data}
use prov_cpl.Api.Backend.{Iterator, Property}
use prov_cpl.Odbc.Statements.{
  Statement, add_object_property, add_relation_property, get_object_properties,
  get_object_properties_with_key, get_relation_properties, get_relation_properties_with_key,
  lookup_object_by_property, lookup_object_property_wildcard,
}
use prov_cpl.Odbc.Driver.{Driver, Cell, Parameter, integer, varchar}
use prov_cpl.Odbc.State.{O, ◌>>=◌, ◌>>◌, pure, stmt_acquire}
use prov_cpl.Odbc.Execute.{bind_id, of_llong, sql_execute}
use prov_cpl.Odbc.Fetch.{as_number, as_text}
use prov_cpl.Odbc.Calls.{
  cpl_prefix_len, cpl_key_len, cpl_value_len, column, hand_over, give_id, finish_write, give_rows,
}

-- Without a prefix or without a key every property of the type is read.
abbrev keyed : Statement → Statement → Option Text → Option Text → Statement
keyed plain with_key none key = plain
keyed plain with_key (some prefix) none = plain
keyed plain with_key (some prefix) (some key) = with_key

abbrev key_parameters : Option Text → Option Text → ℤ → List Parameter
key_parameters none key kind = integer kind ∷ []
key_parameters (some prefix) none kind = integer kind ∷ []
key_parameters (some prefix) (some key) kind =
    varchar cpl_prefix_len (some prefix) ∷ varchar cpl_key_len (some key) ∷ integer kind ∷ []

-- One row of the properties of `id`; one with a NULL is passed over.
abbrev property_row : {Timestamp : Type 0} → ℕ → ℤ → List (Cell Timestamp) → List Property
property_row id kind cells =
    if (column 1 cells).is_null || ((column 2 cells).is_null || (column 3 cells).is_null)
    then []
    else record {
      id = id;
      prefix = as_text (column 1 cells).datum;
      key = as_text (column 2 cells).datum;
      value = as_text (column 3 cells).datum;
      kind = kind;
    }
      ∷ []

-- One row of a look-up, which gives the identifier alone.
abbrev found_row :
    {Timestamp : Type 0} → Text → Text → Text → ℤ → List (Cell Timestamp) → List Property
found_row prefix key value kind cells =
    record {
      id = of_llong (as_number (column 0 cells).datum);
      prefix = prefix;
      key = key;
      value = value;
      kind = kind;
    }
    ∷ []

-- `strlen(value)` of NULL.
abbrev pub read_null : {Conn : Type 0} → O Conn (Unit {0})
read_null s = (tt, record s { corrupted = Bool.true })

module _ {Conn Timestamp : Type 0} (d : Driver Conn Timestamp) where
  unfoldable pub cpl_odbc_add_object_property : ℕ → Text → Text → Text → ℤ → O Conn ℤ
  cpl_odbc_add_object_property id prefix key value kind = do
    stmt ← stmt_acquire add_object_property
    executed ← sql_execute d stmt (
        bind_id id
        ∷ varchar cpl_prefix_len (some prefix)
        ∷ varchar cpl_key_len (some key)
        ∷ varchar cpl_value_len (some value)
        ∷ integer kind
        ∷ [])
    finish_write d add_object_property stmt executed

  unfoldable pub cpl_odbc_add_relation_property : ℕ → Text → Text → Text → ℤ → O Conn ℤ
  cpl_odbc_add_relation_property id prefix key value kind = do
    stmt ← stmt_acquire add_relation_property
    executed ← sql_execute d stmt (
        bind_id id
        ∷ varchar cpl_prefix_len (some prefix)
        ∷ varchar cpl_key_len (some key)
        ∷ varchar cpl_value_len (some value)
        ∷ integer kind
        ∷ [])
    finish_write d add_relation_property stmt executed

  unfoldable pub cpl_odbc_get_object_properties :
      {Ctx : Type 0}
      → ℕ
      → Option Text
      → Option Text
      → ℤ
      → Iterator Property Ctx
      → Ctx
      → O Conn (ℤ × Ctx)
  cpl_odbc_get_object_properties id prefix key kind callback context = do
    let name = keyed get_object_properties get_object_properties_with_key prefix key
    stmt ← stmt_acquire name
    executed ← sql_execute d stmt (bind_id id ∷ key_parameters prefix key kind)
    entries ← give_rows d name stmt executed 4 (property_row id kind)
    pure (hand_over cpl_s_no_data entries callback context)

  unfoldable pub cpl_odbc_get_relation_properties :
      {Ctx : Type 0}
      → ℕ
      → Option Text
      → Option Text
      → ℤ
      → Iterator Property Ctx
      → Ctx
      → O Conn (ℤ × Ctx)
  cpl_odbc_get_relation_properties id prefix key kind callback context = do
    let name = keyed get_relation_properties get_relation_properties_with_key prefix key
    stmt ← stmt_acquire name
    executed ← sql_execute d stmt (bind_id id ∷ key_parameters prefix key kind)
    entries ← give_rows d name stmt executed 4 (property_row id kind)
    pure (hand_over cpl_s_no_data entries callback context)

  unfoldable pub cpl_odbc_lookup_object_by_property :
      {Ctx : Type 0} → Text → Text → Text → ℤ → Iterator Property Ctx → Ctx → O Conn (ℤ × Ctx)
  cpl_odbc_lookup_object_by_property prefix key value kind callback context = do
    stmt ← stmt_acquire lookup_object_by_property
    executed ← sql_execute d stmt (
        varchar cpl_prefix_len (some prefix)
        ∷ varchar cpl_key_len (some key)
        ∷ varchar cpl_value_len (some value)
        ∷ integer kind
        ∷ [])
    entries ←
        give_rows d lookup_object_by_property stmt executed 1 (found_row prefix key value kind)
    pure (hand_over cpl_e_not_found entries callback context)

  -- The size of the parameter is the length of the text, which the code reads also if it is NULL.
  unfoldable pub cpl_odbc_lookup_object_property_wildcard :
      Option Text → Option ℕ → O Conn (ℤ × Option ℕ)
  cpl_odbc_lookup_object_property_wildcard none out_id = do
    stmt ← stmt_acquire lookup_object_property_wildcard
    read_null
    pure (cpl_e_not_found, out_id)
  cpl_odbc_lookup_object_property_wildcard (some value) out_id = do
    stmt ← stmt_acquire lookup_object_property_wildcard
    executed ← sql_execute d stmt (varchar (length value) (some value) ∷ [])
    give_id d lookup_object_property_wildcard stmt executed out_id
