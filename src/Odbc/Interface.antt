-- ===== src/Odbc/Interface.antt =====
-- `CPL_ODBC_BACKEND`: the calls of the ODBC backend as the functions that the library calls.
use prov_cpl.Prelude.{ℕ, ℤ, Option, none, some}
use prov_cpl.Api.Backend.{Backend}
use prov_cpl.Odbc.Driver.{Driver}
use prov_cpl.Odbc.State.{Odbc}
use prov_cpl.Odbc.Connect.{cpl_odbc_destroy}
use prov_cpl.Odbc.Calls.Objects.{
  cpl_odbc_create_object, cpl_odbc_lookup_object, cpl_odbc_lookup_object_ext,
  cpl_odbc_get_all_objects, cpl_odbc_get_bundle_objects,
}
use prov_cpl.Odbc.Calls.Relations.{
  cpl_odbc_add_relation, cpl_odbc_lookup_relation, cpl_odbc_get_object_relations,
  cpl_odbc_get_bundle_relations, cpl_odbc_add_prefix, cpl_odbc_get_prefixes,
}
use prov_cpl.Odbc.Calls.Properties.{
  cpl_odbc_add_object_property, cpl_odbc_add_relation_property, cpl_odbc_get_object_properties,
  cpl_odbc_get_relation_properties, cpl_odbc_lookup_object_by_property,
  cpl_odbc_lookup_object_property_wildcard,
}
use prov_cpl.Odbc.Calls.Info.{cpl_odbc_get_session_info, cpl_odbc_get_object_info}

-- The library passes the address of a variable; what it then holds.
abbrev pub cell : Option ℕ → ℕ
cell none = 0
cell (some id) = id

abbrev pub with_cell : {Db : Type 0} → (ℤ × Option ℕ) × Db → (ℤ × ℕ) × Db
with_cell ((code, out), db) = ((code, cell out), db)

module _ {Conn Timestamp Ctx : Type 0} (d : Driver Conn Timestamp) where
  abbrev pub cpl_odbc_backend : Backend (Odbc Conn) Ctx
  cpl_odbc_backend = record {
    cpl_db_destroy = cpl_odbc_destroy d;
    cpl_db_create_object = λ s p n k. with_cell (cpl_odbc_create_object d p n k (some 0) s);
    cpl_db_lookup_object = λ s p n k. with_cell (cpl_odbc_lookup_object d p n k (some 0) s);
    cpl_db_lookup_object_ext = λ s p n k f it c. cpl_odbc_lookup_object_ext d p n k f it c s;
    cpl_db_add_relation = λ s a b k. with_cell (cpl_odbc_add_relation d a b k (some 0) s);
    cpl_db_add_object_property = λ s i p n v k. cpl_odbc_add_object_property d i p n v k s;
    cpl_db_add_relation_property = λ s i p n v k. cpl_odbc_add_relation_property d i p n v k s;
    cpl_db_lookup_relation = λ s a b k out. cpl_odbc_lookup_relation d a b k out s;
    cpl_db_lookup_object_property_wildcard =
        λ s v out. cpl_odbc_lookup_object_property_wildcard d v out s;
    cpl_db_add_prefix = λ s i p r. cpl_odbc_add_prefix d i p r s;
    cpl_db_get_session_info = λ s i out. cpl_odbc_get_session_info d i out s;
    cpl_db_get_all_objects = λ s p f k it c. cpl_odbc_get_all_objects d p f k it c s;
    cpl_db_get_object_info = λ s i out. cpl_odbc_get_object_info d i out s;
    cpl_db_get_object_relations = λ s i r f it c. cpl_odbc_get_object_relations d i r f it c s;
    cpl_db_get_object_properties =
        λ s i p n k it c. cpl_odbc_get_object_properties d i p n k it c s;
    cpl_db_lookup_object_by_property =
        λ s p n v k it c. cpl_odbc_lookup_object_by_property d p n v k it c s;
    cpl_db_get_relation_properties =
        λ s i p n k it c. cpl_odbc_get_relation_properties d i p n k it c s;
    cpl_db_get_bundle_objects = λ s i it c. cpl_odbc_get_bundle_objects d i it c s;
    cpl_db_get_bundle_relations = λ s i it c. cpl_odbc_get_bundle_relations d i it c s;
    cpl_db_get_prefixes = λ s i p it c. cpl_odbc_get_prefixes d i p it c s;
  }
