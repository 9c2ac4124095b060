-- ===== src/Examples/Parts.antt =====
-- The theorems on the code tables, the spin lock and the statement pools, applied.
use prov_cpl.Prelude.{ℕ, ◌≤◌, negsuc, none, some, ◌≡◌, List, [], ◌∷◌, refl, String}
use prov_cpl.Codes.{cpl_error_string}
use prov_cpl.Codes.Laws.{error_string_total}
use prov_cpl.Lock.Spin.{run, fresh}
use prov_cpl.Lock.Spin.Exclusion.{holders, mutual_exclusion}
use prov_cpl.Odbc.Pool.{cpl_acquire_stmt, cpl_release_stmt}
use prov_cpl.Odbc.Pool.Laws.{release_duplicates}

error_string_total_example : (s : String) × (cpl_error_string (negsuc 10) ≡ some s)
error_string_total_example = error_string_total (negsuc 10)

-- Two threads that both want the lock: the second spins until the first is out.
abbrev contended : List ℕ
contended = 0 ∷ 1 ∷ 0 ∷ 1 ∷ 1 ∷ 0 ∷ 1 ∷ 1 ∷ []

mutual_exclusion_example :
    (holders (run contended (fresh 2)).places ≤ 1)
    × (holders (run contended (fresh 2)).places ≡ (run contended (fresh 2)).word)
mutual_exclusion_example = mutual_exclusion 2 contended

release_duplicates_example :
    let slots = cpl_release_stmt (none ∷ none ∷ []) 20 in
    (cpl_acquire_stmt 5 (some 20 ∷ some 21 ∷ []) ≡ some (some 20, none ∷ some 21 ∷ []))
    × (cpl_acquire_stmt 5 (none ∷ some 21 ∷ []) ≡ some (some 21, none ∷ none ∷ []))
    × (cpl_acquire_stmt 5 slots ≡ some (some 20, none ∷ some 20 ∷ []))
    × (cpl_acquire_stmt 5 (none ∷ some 20 ∷ []) ≡ some (some 20, none ∷ none ∷ []))
release_duplicates_example = release_duplicates 4 20 21 [] refl
