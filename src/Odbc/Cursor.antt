-- ===== src/Odbc/Cursor.antt =====
-- The rows of a result set, as the calls read them.
pub mod Laws
pub mod Calls
use prov_cpl.Prelude.{
  ℕ, ℤ, pos, Text, Bool, true, false, Option, List, [], ◌∷◌, ◌++◌, ◌≡◌, length, ◌<◌, take, ltb_ℤ,
  if◌then◌else◌,
}
use prov_cpl.Codes.{cpl_s_no_data}
use prov_cpl.Api.Backend.{Iterator, ObjectInfo, Relation}
use prov_cpl.Odbc.Execute.{of_llong}
use prov_cpl.Odbc.Driver.{
  Driver, Cell, Datum, number, characters, timestamp, sql_succeeded, is_no_data,
}

-- What the rows hold, in order.
abbrev pub entries_of : {Row E : Type 0} → (Row → List E) → List Row → List E
entries_of read [] = []
entries_of read (row ∷ rows) = read row ++ entries_of read rows

-- Rows as a database gives them, and what they tell: a walk has the relation, the other object and the
-- type; a bundle has its relations with both ends, and its objects with their time, prefix, name and
-- type.
abbrev pub number_cell : {Timestamp : Type 0} → ℤ → Cell Timestamp
number_cell n = record { is_null = false; datum = number n }

abbrev pub text_cell : {Timestamp : Type 0} → Text → Cell Timestamp
text_cell text = record { is_null = false; datum = characters text }

abbrev pub walk_cells : {Timestamp : Type 0} → ℤ × ℤ × ℤ → List (Cell Timestamp)
walk_cells (id, other, kind) = number_cell id ∷ number_cell other ∷ number_cell kind ∷ []

abbrev pub walked : ℕ → ℤ × ℤ × ℤ → Relation
walked from (id, other, kind) = record {
  id = of_llong id;
  query_object_id = from;
  other_object_id = of_llong other;
  kind = kind;
}

abbrev pub relation_cells : {Timestamp : Type 0} → ℤ × ℤ × ℤ × ℤ → List (Cell Timestamp)
relation_cells (id, from, to, kind) =
    number_cell id ∷ number_cell from ∷ number_cell to ∷ number_cell kind ∷ []

abbrev pub bundled : ℤ × ℤ × ℤ × ℤ → Relation
bundled (id, from, to, kind) = record {
  id = of_llong id;
  query_object_id = of_llong from;
  other_object_id = of_llong to;
  kind = kind;
}

abbrev pub object_cells :
    {Timestamp : Type 0} → ℤ × Timestamp × Text × Text × ℤ → List (Cell Timestamp)
object_cells (id, t, prefix, name, kind) =
    number_cell id
    ∷ record { is_null = false; datum = timestamp t }
    ∷ text_cell prefix
    ∷ text_cell name
    ∷ number_cell kind
    ∷ []

-- The texts are cut off behind the sizes of the columns.
abbrev pub listed_object :
    {Timestamp : Type 0} → (Timestamp → ℕ) → ℤ × Timestamp × Text × Text × ℤ → ObjectInfo
listed_object unix_time (id, t, prefix, name, kind) = record {
  id = of_llong id;
  creation_time = unix_time t;
  prefix = take 255 prefix;
  name = take 255 name;
  kind = kind;
}

-- What a callback makes of its entries: it is offered one after the other, until it gives a negative
-- code, which is then the result; else the result is 0.
abbrev pub offered : {E Ctx : Type 0} → List E → Iterator E Ctx → ℤ × Ctx → ℤ × Ctx
offered [] callback (r, context) = if ltb_ℤ r (pos 0) then (r, context) else (pos 0, context)
offered (entry ∷ entries) callback (r, context) =
    offered entries callback (if ltb_ℤ r (pos 0) then (r, context) else callback entry context)

-- No entries are `CPL_S_NO_DATA`.
abbrev pub handed : {E Ctx : Type 0} → List E → Iterator E Ctx → Ctx → ℤ × Ctx
handed [] callback context = (cpl_s_no_data, context)
handed (entry ∷ entries) callback context = offered (entry ∷ entries) callback (pos 0, context)

module _ {Conn Timestamp : Type 0} (d : Driver Conn Timestamp) where
  -- What ODBC says of the count of the rows that are left: a fetch that succeeds takes one of them.
  pub record Counts : Type 0 where
    pub takes_row :
        (stmt : Option ℕ) (c : Conn)
        → sql_succeeded (d.sql_fetch stmt c).0 ≡ true
        → d.sql_rows_left stmt (d.sql_fetch stmt c).1 < d.sql_rows_left stmt c

  -- A driver without failures, with the rows that the cursor of a statement still has before it.
  pub record Serves (rows : Option ℕ → Conn → List (List (Cell Timestamp))) : Type 0 where
    pub counts : (stmt : Option ℕ) (c : Conn) → d.sql_rows_left stmt c ≡ length (rows stmt c)
    pub fetches_row :
        (stmt : Option ℕ) (c : Conn) (row : List (Cell Timestamp))
        (rest : List (List (Cell Timestamp)))
        → rows stmt c ≡ row ∷ rest
        → (sql_succeeded (d.sql_fetch stmt c).0 ≡ true)
          × (d.sql_cells stmt (d.sql_fetch stmt c).1 ≡ row)
          × (rows stmt (d.sql_fetch stmt c).1 ≡ rest)
    pub fetches_none :
        (stmt : Option ℕ) (c : Conn) → rows stmt c ≡ [] → (is_no_data (d.sql_fetch stmt c).0 ≡ true)
    pub binds :
        (stmt : Option ℕ) (column : ℕ) (c : Conn)
        → (sql_succeeded (d.sql_bind_col stmt column c).0 ≡ true)
          × (rows stmt (d.sql_bind_col stmt column c).1 ≡ rows stmt c)
    pub closes : (stmt : Option ℕ) (c : Conn) → sql_succeeded (d.sql_close_cursor stmt c).0 ≡ true
