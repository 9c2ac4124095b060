-- ===== src/Api/Guards.antt =====
-- What the guards of the public calls refuse, by a table that is written apart from the code.
use prov_cpl.Prelude.{
  ℤ, ℕ, zero, suc, pos, negsuc, Option, none, some, ◌≡◌, Bool, true, false, not, ◌||◌, ◌&&◌, leb,
  arith,
}
use prov_cpl.Codes.{cpl_e_not_initialized, cpl_e_invalid_argument}
use prov_cpl.Api.Effect.{State, returned}
use prov_cpl.Api.Backend.{Backend}
use prov_cpl.Api.Numbers.{Numbers}
use prov_cpl.Api.Ready.{IsReady}
use prov_cpl.Api.Call.{
  Call, create_object, lookup_object, lookup_object_ext, lookup_or_create_object,
  add_object_string_property, add_object_numerical_property, add_object_boolean_property,
  add_relation_string_property, add_relation_numerical_property, add_relation_boolean_property,
  add_relation, lookup_relation, get_object_relations, add_prefix, get_prefixes,
  lookup_object_property_wildcard, get_current_session, get_session_info, get_all_objects,
  get_object_info, get_bundle_objects, get_bundle_relations, lookup_object_by_string_property,
  lookup_object_by_numerical_property, lookup_object_by_boolean_property,
  get_object_string_properties, get_object_numerical_properties, get_object_boolean_properties,
  get_relation_string_properties, get_relation_numerical_properties,
  get_relation_boolean_properties, perform,
}

abbrev is_null {ℓ} : {A : Type ℓ} → Option A → Bool
is_null none = true
is_null (some a) = false

abbrev is_zero : ℕ → Bool
is_zero zero = true
is_zero (suc n) = false

-- lo ≤ k ≤ hi
abbrev between : ℕ → ℕ → ℤ → Bool
between lo hi (pos n) = leb lo n && leb n hi
between lo hi (negsuc n) = false

-- The arguments that a call does not accept: NULL where a text, a callback or an information cell is
-- wanted, the ID 0, a type or a direction out of range. Out arguments may be NULL.
abbrev pub is_refused : {Ctx Double : Type 0} → Call Ctx Double → Bool
is_refused (create_object a b c d) = is_null a || is_null b || not (between 1 4 c)
is_refused (lookup_object a b c d) = is_null a || is_null b
is_refused (lookup_or_create_object a b c d) = is_null a || is_null b
is_refused (lookup_object_ext a b c d e f) = is_null a || is_null b || is_null e
is_refused (add_object_string_property a b c d) = is_zero a || is_null b || is_null c || is_null d
is_refused (add_object_numerical_property a b c d) = is_zero a || is_null b || is_null c
is_refused (add_object_boolean_property a b c d) = is_zero a || is_null b || is_null c
is_refused (add_relation_string_property a b c d) = is_zero a || is_null b || is_null c || is_null d
is_refused (add_relation_numerical_property a b c d) = is_zero a || is_null b || is_null c
is_refused (add_relation_boolean_property a b c d) = is_zero a || is_null b || is_null c
is_refused (add_relation a b c d) = is_zero a || is_zero b || not (between 1 20 c)
is_refused (lookup_relation a b c d) = is_zero a || is_zero b || not (between 1 20 c)
is_refused (get_object_relations a b c d e) = is_zero a || is_null d || not (between 0 1 b)
is_refused (add_prefix a b c) = is_zero a || is_null b || is_null c
is_refused (get_prefixes a b c d) = is_zero a || is_null c
is_refused (lookup_object_property_wildcard a b) = false
is_refused (get_current_session a) = false
is_refused (get_session_info a b) = is_zero a || is_null b
is_refused (get_all_objects a b c d e) = is_null d
is_refused (get_object_info a b) = is_zero a || is_null b
is_refused (get_bundle_objects a b c) = is_zero a || is_null b
is_refused (get_bundle_relations a b c) = is_zero a || is_null b
is_refused (lookup_object_by_string_property a b c d e) =
    is_null a || is_null b || is_null c || is_null d
is_refused (lookup_object_by_numerical_property a b c d e) = is_null a || is_null b || is_null d
is_refused (lookup_object_by_boolean_property a b c d e) = is_null a || is_null b || is_null d
is_refused (get_object_string_properties a b c d e) = is_zero a || is_null d
is_refused (get_object_numerical_properties a b c d e) = is_zero a || is_null d
is_refused (get_object_boolean_properties a b c d e) = is_zero a || is_null d
is_refused (get_relation_string_properties a b c d e) = is_zero a || is_null d
is_refused (get_relation_numerical_properties a b c d e) = is_zero a || is_null d
is_refused (get_relation_boolean_properties a b c d e) = is_zero a || is_null d

module _ {Db Ctx Double : Type 0} (vt : Backend Db Ctx) (numbers : Numbers Double) where
  -- Before `cpl_attach` every call returns `CPL_E_NOT_INITIALIZED` and changes nothing.
  pub perform-uninitialized :
      (c : Call Ctx Double) (s : State Db)
      → s.initialized ≡ false
      → perform vt numbers c s ≡ (returned cpl_e_not_initialized, s)
  unfolding perform
  perform-uninitialized (create_object p n k o) s h = ground arith
  perform-uninitialized c s h = ground arith

  -- On a ready library a call with an argument that the table refuses returns
  -- `CPL_E_INVALID_ARGUMENT` and changes nothing: neither the backend nor the semaphore.
  pub perform-refused :
      (c : Call Ctx Double) (s : State Db)
      → IsReady s
      → is_refused c ≡ true
      → perform vt numbers c s ≡ (returned cpl_e_invalid_argument, s)
  unfolding perform
  perform-refused (create_object p n k o) s r h = ground arith
  perform-refused c s r h = ground arith
