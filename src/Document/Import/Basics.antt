-- ===== src/Document/Import/Basics.antt =====
-- What the importers of a document share: C strings, the table of imported names, early returns.
use prov_cpl.Prelude.{
  ℤ, ℕ, ◌==◌, Text, List, [], ◌∷◌, not, Option, none, some, if◌then◌else◌, text_eq,
}
use prov_cpl.Codes.{cpl_none, cpl_is_ok}
use prov_cpl.Api.Effect.{thrown, go, stop, M, ◌>>◌, pure, early}

-- `s.c_str()` read as a C string: it ends at the first zero byte.
unfoldable pub c_str : Text → Text
c_str [] = []
c_str (c ∷ s) = let rest = c_str s in if c == 0 then [] else c ∷ rest

-- `std::map<std::string, cpl_id_t>`: `emplace` keeps an entry that is there.
abbrev pub LookupTable : Type 0
LookupTable = List (Text × ℕ)

unfoldable pub find_id : Text → LookupTable → Option ℕ
find_id k [] = none
find_id k ((j, v) ∷ m) = if text_eq j k then some v else find_id k m

unfoldable pub emplace : Text → ℕ → LookupTable → LookupTable
unfolding find_id
emplace k v m = elim (find_id k m) [ none ↦ (k, v) ∷ m | some old ↦ m ]

module _ {Db : Type 0} where
  -- `if (!CPL_IS_OK(call)) return code;`
  abbrev pub ensure_ok : ℤ → ℤ → M Db (Unit {0})
  ensure_ok r code = if not (cpl_is_ok r) then early code else pure tt

  -- A conversion that throws on a value of another kind.
  abbrev pub or_throw : {A : Type 0} → Option A → M Db A
  or_throw none s = (stop thrown, s)
  or_throw (some a) s = (go a, s)

  -- A range-based loop whose body may return from the function.
  unfoldable pub for_each : {A : Type 0} → (A → M Db (Unit {0})) → List A → M Db (Unit {0})
  for_each body [] = pure tt
  for_each body (x ∷ xs) = do body x; for_each body xs

-- What a local variable `cpl_id_t id` holds after a call got `&id`. Before, it is not initialised; it
-- is read only where the call succeeded.
abbrev pub id_in : Option ℕ → ℕ
id_in none = cpl_none
id_in (some id) = id

abbrev pub local_id : Option ℕ
local_id = some cpl_none
