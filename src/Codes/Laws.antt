-- ===== src/Codes/Laws.antt =====
-- What the code tables and the type tests guarantee, and where two tests of one notion differ.
use prov_cpl.Prelude.{
  ℕ, zero, suc, ℤ, pos, negsuc, String, some, ◌≡◌, ◌<◌, ◌≤◌, inl, inr, refl, arith, get_elem?, List,
  [], ◌∷◌, length, Bool-cases, ltb,
}
use prov_cpl.Codes.{cpl_error_string, cpl_s_str, cpl_e_str}

get_elem?-lt : (xs : List String) (i : ℕ) → i < length xs → (s : String) × (get_elem? xs i ≡ some s)
get_elem?-lt [] i h = elim h [ ]
get_elem?-lt (x ∷ xs) zero h = (x, refl)
get_elem?-lt (x ∷ xs) (suc i) h = get_elem?-lt xs i (omega arith)

success_string : (n : ℕ) → (s : String) × (cpl_error_string (pos n) ≡ some s)
unfolding cpl_error_string
success_string n = elim (Bool-cases (ltb 3 n)) [
  | inl past ↦ ("Success (unknown success code)", ground arith)
  | inr known ↦ let (s, e) = get_elem?-lt cpl_s_str n (ground arith) in (s, ground (arith, e))
]

failure_string : (n : ℕ) → (s : String) × (cpl_error_string (negsuc n) ≡ some s)
unfolding cpl_error_string
failure_string n = elim (Bool-cases (ltb 16 n)) [
  | inl past ↦ ("Unknown error", ground arith)
  | inr known ↦ let (s, e) = get_elem?-lt cpl_e_str (suc n) (ground arith) in (s, ground (arith, e))
]

-- `cpl_error_string` gives a string for every `int`: neither table is read out of bounds.
pub error_string_total : (code : ℤ) → (s : String) × (cpl_error_string code ≡ some s)
error_string_total (pos n) = success_string n
error_string_total (negsuc n) = failure_string n

-- Every error code of -18 and below, `CPL_E_INVALID_JSON` among them, is reported as unknown.
pub error_string_unknown : (n : ℕ) → 17 ≤ n → cpl_error_string (negsuc n) ≡ some "Unknown error"
unfolding cpl_error_string
error_string_unknown n h = ground arith
