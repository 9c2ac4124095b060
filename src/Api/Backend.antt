-- ===== src/Api/Backend.antt =====
-- The record of function pointers `cpl_db_backend_t` of include/cpl-db-backend.h, and the structures
-- of include/cpl.h that pass through it.
use prov_cpl.Prelude.{ℕ, ℤ, Option, Text}

-- `cpl_object_info_t`
pub record ObjectInfo : Type 0 where
  pub id : ℕ
  pub creation_time : ℕ
  pub prefix : Text
  pub name : Text
  pub kind : ℤ

-- `cpl_session_info_t`; a NULL string is `none`
pub record SessionInfo : Type 0 where
  pub id : ℕ
  pub mac_address : Option Text
  pub user : Option Text
  pub pid : ℤ
  pub program : Option Text
  pub cmdline : Option Text
  pub start_time : ℕ

-- Iterators: the callback's arguments without its context. A callback is given the context and
-- returns a code and the context that it leaves.
abbrev pub Iterator : Type 0 → Type 0 → Type 0
Iterator E Ctx = E → Ctx → ℤ × Ctx

-- (id, timestamp)
pub record IdTimestamp : Type 0 where
  pub id : ℕ
  pub timestamp : ℕ

-- (relation_id, query_object_id, other_object_id, type)
pub record Relation : Type 0 where
  pub id : ℕ
  pub query_object_id : ℕ
  pub other_object_id : ℕ
  pub kind : ℤ

-- (id, prefix, key, value, type)
pub record Property : Type 0 where
  pub id : ℕ
  pub prefix : Text
  pub key : Text
  pub value : Text
  pub kind : ℤ

-- (id, prefix, iri)
pub record PrefixEntry : Type 0 where
  pub id : ℕ
  pub prefix : Text
  pub iri : Text

-- `Db` is the structure behind the pointer, with all that it reaches; `Ctx` is what `void* context`
-- points to. Each function returns its code, what its out argument then holds, and the structure.
pub record Backend (Db Ctx : Type 0) : Type 0 where
  pub cpl_db_destroy : Db → ℤ × Db
  pub cpl_db_create_object : Db → Text → Text → ℤ → (ℤ × ℕ) × Db
  pub cpl_db_lookup_object : Db → Text → Text → ℤ → (ℤ × ℕ) × Db
  pub cpl_db_lookup_object_ext :
      Db → Text → Text → ℤ → ℤ → Iterator IdTimestamp Ctx → Ctx → (ℤ × Ctx) × Db
  pub cpl_db_add_relation : Db → ℕ → ℕ → ℤ → (ℤ × ℕ) × Db
  pub cpl_db_add_object_property : Db → ℕ → Text → Text → Text → ℤ → ℤ × Db
  pub cpl_db_add_relation_property : Db → ℕ → Text → Text → Text → ℤ → ℤ × Db
  pub cpl_db_lookup_relation : Db → ℕ → ℕ → ℤ → Option ℕ → (ℤ × Option ℕ) × Db
  pub cpl_db_lookup_object_property_wildcard : Db → Option Text → Option ℕ → (ℤ × Option ℕ) × Db
  pub cpl_db_add_prefix : Db → ℕ → Text → Text → ℤ × Db
  pub cpl_db_get_session_info : Db → ℕ → Option SessionInfo → (ℤ × Option SessionInfo) × Db
  pub cpl_db_get_all_objects :
      Db → Option Text → ℤ → ℤ → Iterator ObjectInfo Ctx → Ctx → (ℤ × Ctx) × Db
  pub cpl_db_get_object_info : Db → ℕ → Option ObjectInfo → (ℤ × Option ObjectInfo) × Db
  pub cpl_db_get_object_relations : Db → ℕ → ℤ → ℤ → Iterator Relation Ctx → Ctx → (ℤ × Ctx) × Db
  pub cpl_db_get_object_properties :
      Db → ℕ → Option Text → Option Text → ℤ → Iterator Property Ctx → Ctx → (ℤ × Ctx) × Db
  pub cpl_db_lookup_object_by_property :
      Db → Text → Text → Text → ℤ → Iterator Property Ctx → Ctx → (ℤ × Ctx) × Db
  pub cpl_db_get_relation_properties :
      Db → ℕ → Option Text → Option Text → ℤ → Iterator Property Ctx → Ctx → (ℤ × Ctx) × Db
  pub cpl_db_get_bundle_objects : Db → ℕ → Iterator ObjectInfo Ctx → Ctx → (ℤ × Ctx) × Db
  pub cpl_db_get_bundle_relations : Db → ℕ → Iterator Relation Ctx → Ctx → (ℤ × Ctx) × Db
  pub cpl_db_get_prefixes : Db → ℕ → Option Text → Iterator PrefixEntry Ctx → Ctx → (ℤ × Ctx) × Db
