-- ===== src/Odbc/Ids.antt =====
-- Identifiers on their way to the database and back.
use prov_cpl.Prelude.{ℕ, ◌^◌, ◌<◌, ◌≡◌, arith}
use prov_cpl.Odbc.Execute.{to_llong, of_llong}

-- Each identifier of 64 bits is read back as it was bound, although a `long long` has no room for the
-- upper half of them.
pub of_llong-to_llong : (id : ℕ) → id < 2 ^ 64 → of_llong (to_llong id) ≡ id
of_llong-to_llong id h = ground arith
