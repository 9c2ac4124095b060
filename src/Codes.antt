-- ===== src/Codes.antt =====
-- Return codes, object and relation types, flags and their tests: include/cpl.h,
-- cpl-standalone/cpl-private.h and `cpl_error_string` of cpl-standalone/cpl-standalone.cpp.
-- An `int` is a ℤ; the code compares these values and negates one, and adds nothing to them.
pub mod Laws
use prov_cpl.Prelude.{
  ℕ, zero, suc, ◌%◌, ◌==◌, ℤ, pos, negsuc, String, Option, none, some, List, [], ◌∷◌, Bool, true,
  false, ◌&&◌, ◌||◌, not, ltb_ℤ, eq_ℤ, if◌then◌else◌, get_elem?,
}

-- The ID of nothing.
abbrev pub cpl_none : ℕ
cpl_none = 0

abbrev pub cpl_s_ok : ℤ
cpl_s_ok = pos 0

abbrev pub cpl_s_duplicate_ignored : ℤ
cpl_s_duplicate_ignored = pos 1

abbrev pub cpl_s_no_data : ℤ
cpl_s_no_data = pos 2

abbrev pub cpl_s_object_created : ℤ
cpl_s_object_created = pos 3

abbrev pub cpl_e_invalid_argument : ℤ
cpl_e_invalid_argument = negsuc 0

abbrev pub cpl_e_insufficient_resources : ℤ
cpl_e_insufficient_resources = negsuc 1

abbrev pub cpl_e_not_initialized : ℤ
cpl_e_not_initialized = negsuc 5

abbrev pub cpl_e_already_initialized : ℤ
cpl_e_already_initialized = negsuc 4

abbrev pub cpl_e_statement_error : ℤ
cpl_e_statement_error = negsuc 7

abbrev pub cpl_e_internal_error : ℤ
cpl_e_internal_error = negsuc 8

abbrev pub cpl_e_not_found : ℤ
cpl_e_not_found = negsuc 10

abbrev pub cpl_e_platform_error : ℤ
cpl_e_platform_error = negsuc 12

abbrev pub cpl_e_db_null : ℤ
cpl_e_db_null = negsuc 14

abbrev pub cpl_e_invalid_json : ℤ
cpl_e_invalid_json = negsuc 17

-- `CPL_OK` is another name of the first success code.
abbrev pub cpl_ok : ℤ
cpl_ok = cpl_s_ok

-- `CPL_IS_OK`: (r) >= 0.
abbrev pub cpl_is_ok : ℤ → Bool
cpl_is_ok r = not (ltb_ℤ r (pos 0))

-- The last codes that have a string.
abbrev pub cpl_s_last_success : ℤ
cpl_s_last_success = pos 3

abbrev pub cpl_e_last_error : ℤ
cpl_e_last_error = negsuc 16

abbrev pub cpl_s_str : List String
cpl_s_str =
    "Success" ∷ "Success (duplicate ignored)" ∷ "Success (no data)" ∷ "Success (object created)"
    ∷ []

abbrev pub cpl_e_str : List String
cpl_e_str =
    "Success" ∷ "Invalid argument" ∷ "Insufficient resources" ∷ "Database connection error"
    ∷ "Not implemented" ∷ "CPL has already been initialized" ∷ "CPL has not yet been initialized"
    ∷ "The database failed to compile a prepared statement"
    ∷ "The database failed to execute a statement (a query)" ∷ "Internal error"
    ∷ "Database or the database driver internal error" ∷ "Not found" ∷ "Already exits"
    ∷ "Could not handle an error returned by the native API" ∷ "Invalid version"
    ∷ "The database returned an unexpected NULL value"
    ∷ "The database did not find the specified key"
    ∷ "The value in a database has an unexpected type" ∷ []

-- A subscript of a C array by an `int`: `none` is a read out of bounds.
unfoldable pub subscript : List String → ℤ → Option String
subscript a (pos i) = get_elem? a i
subscript a (negsuc i) = none

-- The unary minus.
unfoldable pub neg : ℤ → ℤ
neg (pos zero) = pos zero
neg (pos (suc n)) = negsuc n
neg (negsuc n) = pos (suc n)

unfoldable pub cpl_error_string : ℤ → Option String
unfolding subscript neg
cpl_error_string code =
    if cpl_is_ok code
    then (if not (ltb_ℤ code (pos 0)) && not (ltb_ℤ cpl_s_last_success code)
        then subscript cpl_s_str code
        else some "Success (unknown success code)")
    else if not (ltb_ℤ (pos 0) code) && not (ltb_ℤ code cpl_e_last_error)
    then subscript cpl_e_str (neg code)
    else some "Unknown error"

-- The standard object types of include/cpl.h.
abbrev pub cpl_entity : ℤ
cpl_entity = pos 1

abbrev pub cpl_activity : ℤ
cpl_activity = pos 2

abbrev pub cpl_agent : ℤ
cpl_agent = pos 3

abbrev pub cpl_bundle : ℤ
cpl_bundle = pos 4

-- `CPL_IS_OBJECT_TYPE`, which the ODBC backend asserts: (r) > 0 && (r) < 4.
abbrev pub cpl_is_object_type : ℤ → Bool
cpl_is_object_type r = ltb_ℤ (pos 0) r && ltb_ℤ r (pos 4)

-- `CPL_IS_RELATION_TYPE`, which the ODBC backend asserts: (r) > 0 && (r) < 20.
abbrev pub cpl_is_relation_type : ℤ → Bool
cpl_is_relation_type r = ltb_ℤ (pos 0) r && ltb_ℤ r (pos 20)

-- The tests of the macros `CPL_ENSURE_O_TYPE` and `CPL_ENSURE_R_TYPE`, which the public calls make:
-- whether the macro returns `CPL_E_INVALID_ARGUMENT`.
abbrev pub o_type_refused : ℤ → Bool
o_type_refused n = ltb_ℤ n (pos 1) || ltb_ℤ (pos 4) n

abbrev pub r_type_refused : ℤ → Bool
r_type_refused n = ltb_ℤ n (pos 1) || ltb_ℤ (pos 20) n

-- The relation type that puts a relation into a bundle, and one that imports write.
abbrev pub bundlerelation : ℤ
bundlerelation = pos 20

abbrev pub alternateof : ℤ
alternateof = pos 2

-- Property types.
abbrev pub stringproperty : ℤ
stringproperty = pos 0

abbrev pub numericalproperty : ℤ
numericalproperty = pos 1

abbrev pub booleanproperty : ℤ
booleanproperty = pos 2

-- Directions of `cpl_get_object_relations`.
abbrev pub cpl_d_ancestors : ℤ
cpl_d_ancestors = pos 0

abbrev pub cpl_d_descendants : ℤ
cpl_d_descendants = pos 1

-- (flags & CPL_L_NO_FAIL) == CPL_L_NO_FAIL, where the flag is bit 0: in two's complement bit 0 of
-- -(n + 1) is that of n, flipped.
abbrev pub has_no_fail : ℤ → Bool
has_no_fail (pos n) = n % 2 == 1
has_no_fail (negsuc n) = n % 2 == 0
