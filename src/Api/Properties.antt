-- ===== src/Api/Properties.antt =====
-- Properties of objects and relations, by type of the value. The three calls of a family differ in the
-- value's conversion to text and in the type that they pass on.
use prov_cpl.Prelude.{ℤ, ℕ, Option, Bool, Text}
use prov_cpl.Codes.{stringproperty, numericalproperty, booleanproperty}
use prov_cpl.Api.Effect.{
  M, ◌>>=◌, ◌>>◌, finish, ensure_not_null, ensure_initialized, ensure_not_none, call_backend,
}
use prov_cpl.Api.Backend.{Backend, Iterator, Property}
use prov_cpl.Api.Numbers.{Numbers, bool_to_string}

module _ {Db Ctx Double : Type 0} (vt : Backend Db Ctx) (numbers : Numbers Double) where
  unfoldable pub cpl_add_object_string_property :
      ℕ → Option Text → Option Text → Option Text → M Db (ℤ × Unit {0})
  cpl_add_object_string_property id prefix key value = do
    ensure_initialized
    ensure_not_none id
    p ← ensure_not_null prefix
    k ← ensure_not_null key
    v ← ensure_not_null value
    r ← call_backend (λ db. vt.cpl_db_add_object_property db id p k v stringproperty)
    finish r

  unfoldable pub cpl_add_object_numerical_property :
      ℕ → Option Text → Option Text → Double → M Db (ℤ × Unit {0})
  cpl_add_object_numerical_property id prefix key value = do
    ensure_initialized
    ensure_not_none id
    p ← ensure_not_null prefix
    k ← ensure_not_null key
    r ←
        call_backend (λ db.
          vt.cpl_db_add_object_property db id p k (numbers.to_string value) numericalproperty)
    finish r

  unfoldable pub cpl_add_object_boolean_property :
      ℕ → Option Text → Option Text → Bool → M Db (ℤ × Unit {0})
  cpl_add_object_boolean_property id prefix key value = do
    ensure_initialized
    ensure_not_none id
    p ← ensure_not_null prefix
    k ← ensure_not_null key
    r ←
        call_backend
          (λ db. vt.cpl_db_add_object_property db id p k (bool_to_string value) booleanproperty)
    finish r

  unfoldable pub cpl_add_relation_string_property :
      ℕ → Option Text → Option Text → Option Text → M Db (ℤ × Unit {0})
  cpl_add_relation_string_property id prefix key value = do
    ensure_initialized
    ensure_not_none id
    p ← ensure_not_null prefix
    k ← ensure_not_null key
    v ← ensure_not_null value
    r ← call_backend (λ db. vt.cpl_db_add_relation_property db id p k v stringproperty)
    finish r

  unfoldable pub cpl_add_relation_numerical_property :
      ℕ → Option Text → Option Text → Double → M Db (ℤ × Unit {0})
  cpl_add_relation_numerical_property id prefix key value = do
    ensure_initialized
    ensure_not_none id
    p ← ensure_not_null prefix
    k ← ensure_not_null key
    r ← call_backend (λ db.
        vt.cpl_db_add_relation_property db id p k (numbers.to_string value) numericalproperty)
    finish r

  unfoldable pub cpl_add_relation_boolean_property :
      ℕ → Option Text → Option Text → Bool → M Db (ℤ × Unit {0})
  cpl_add_relation_boolean_property id prefix key value = do
    ensure_initialized
    ensure_not_none id
    p ← ensure_not_null prefix
    k ← ensure_not_null key
    r ←
        call_backend
          (λ db. vt.cpl_db_add_relation_property db id p k (bool_to_string value) booleanproperty)
    finish r

  unfoldable pub cpl_lookup_object_by_string_property :
      Option Text
      → Option Text
      → Option Text
      → Option (Iterator Property Ctx)
      → Ctx
      → M Db (ℤ × Ctx)
  cpl_lookup_object_by_string_property prefix key value iterator context = do
    ensure_initialized
    f ← ensure_not_null iterator
    p ← ensure_not_null prefix
    k ← ensure_not_null key
    v ← ensure_not_null value
    call_backend (λ db. vt.cpl_db_lookup_object_by_property db p k v stringproperty f context)

  unfoldable pub cpl_lookup_object_by_numerical_property :
      Option Text → Option Text → Double → Option (Iterator Property Ctx) → Ctx → M Db (ℤ × Ctx)
  cpl_lookup_object_by_numerical_property prefix key value iterator context = do
    ensure_initialized
    f ← ensure_not_null iterator
    p ← ensure_not_null prefix
    k ← ensure_not_null key
    call_backend (λ db.
        vt.cpl_db_lookup_object_by_property db p k (numbers.to_string value) numericalproperty f
          context)

  unfoldable pub cpl_lookup_object_by_boolean_property :
      Option Text → Option Text → Bool → Option (Iterator Property Ctx) → Ctx → M Db (ℤ × Ctx)
  cpl_lookup_object_by_boolean_property prefix key value iterator context = do
    ensure_initialized
    f ← ensure_not_null iterator
    p ← ensure_not_null prefix
    k ← ensure_not_null key
    call_backend (λ db.
        vt.cpl_db_lookup_object_by_property db p k (bool_to_string value) booleanproperty f context)

module _ {Db Ctx : Type 0} (vt : Backend Db Ctx) where
  unfoldable pub cpl_get_object_string_properties :
      ℕ → Option Text → Option Text → Option (Iterator Property Ctx) → Ctx → M Db (ℤ × Ctx)
  cpl_get_object_string_properties id prefix key iterator context = do
    ensure_initialized
    ensure_not_none id
    f ← ensure_not_null iterator
    call_backend (λ db. vt.cpl_db_get_object_properties db id prefix key stringproperty f context)

  unfoldable pub cpl_get_object_numerical_properties :
      ℕ → Option Text → Option Text → Option (Iterator Property Ctx) → Ctx → M Db (ℤ × Ctx)
  cpl_get_object_numerical_properties id prefix key iterator context = do
    ensure_initialized
    ensure_not_none id
    f ← ensure_not_null iterator
    call_backend
        (λ db. vt.cpl_db_get_object_properties db id prefix key numericalproperty f context)

  unfoldable pub cpl_get_object_boolean_properties :
      ℕ → Option Text → Option Text → Option (Iterator Property Ctx) → Ctx → M Db (ℤ × Ctx)
  cpl_get_object_boolean_properties id prefix key iterator context = do
    ensure_initialized
    ensure_not_none id
    f ← ensure_not_null iterator
    call_backend (λ db. vt.cpl_db_get_object_properties db id prefix key booleanproperty f context)

  unfoldable pub cpl_get_relation_string_properties :
      ℕ → Option Text → Option Text → Option (Iterator Property Ctx) → Ctx → M Db (ℤ × Ctx)
  cpl_get_relation_string_properties id prefix key iterator context = do
    ensure_initialized
    ensure_not_none id
    f ← ensure_not_null iterator
    call_backend (λ db. vt.cpl_db_get_relation_properties db id prefix key stringproperty f context)

  unfoldable pub cpl_get_relation_numerical_properties :
      ℕ → Option Text → Option Text → Option (Iterator Property Ctx) → Ctx → M Db (ℤ × Ctx)
  cpl_get_relation_numerical_properties id prefix key iterator context = do
    ensure_initialized
    ensure_not_none id
    f ← ensure_not_null iterator
    call_backend
        (λ db. vt.cpl_db_get_relation_properties db id prefix key numericalproperty f context)

  unfoldable pub cpl_get_relation_boolean_properties :
      ℕ → Option Text → Option Text → Option (Iterator Property Ctx) → Ctx → M Db (ℤ × Ctx)
  cpl_get_relation_boolean_properties id prefix key iterator context = do
    ensure_initialized
    ensure_not_none id
    f ← ensure_not_null iterator
    call_backend
        (λ db. vt.cpl_db_get_relation_properties db id prefix key booleanproperty f context)
