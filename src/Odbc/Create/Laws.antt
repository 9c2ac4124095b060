-- ===== src/Odbc/Create/Laws.antt =====
-- What the constructors of the ODBC backend give.
use prov_cpl.Prelude.{
  ℕ, ℤ, Text, codes, ◌++◌, [], ◌∷◌, any, ◌||◌, ◌==◌, Bool, true, false, Bool-cases, inl, inr,
  Option, none, some, ◌≡◌, refl, arith,
}
use prov_cpl.Codes.{cpl_ok, cpl_e_invalid_argument}
use prov_cpl.Odbc.Driver.{Driver}
use prov_cpl.Odbc.State.{Odbc}
use prov_cpl.Odbc.Intact.{IsIntact}
use prov_cpl.Odbc.Intact.Reconnect.{Reconnects, connect_ok}
use prov_cpl.Odbc.Create.{
  allocated_odbc, has_reserved, cpl_create_odbc_backend, cpl_create_odbc_backend_dsn,
}

-- Whether a name has a semicolon or a brace.
abbrev pub has_mark : Text → Bool
has_mark [] = false
has_mark (c ∷ name) = any (λ mark. c == mark) (codes ";{}") || has_mark name

has_reserved_lem : (name : Text) → has_reserved name ≡ has_mark name
has_reserved_lem [] = refl
has_reserved_lem (c ∷ name) = ground (arith, has_reserved_lem name)

-- A backend has been given out, and it is intact.
abbrev pub Created : {Conn : Type 0} → ℤ × Option (Odbc Conn) → Type 0
Created (code, none) = ⊥
Created (code, some odbc) = (code ≡ cpl_ok) × IsIntact odbc

-- The two answers, by whether the name has a reserved character.
abbrev pub DsnAnswer : {Conn : Type 0} → Bool → ℤ × Option (Odbc Conn) → Type 0
DsnAnswer true answer = answer ≡ (cpl_e_invalid_argument, none)
DsnAnswer false answer = Created answer

module _ {Conn Timestamp : Type 0} (d : Driver Conn Timestamp) where
  create-Created :
      Reconnects d
      → (connection_string : Text) (memory : ℕ) (c : Conn) (out : Option (Odbc Conn))
      → Created (cpl_create_odbc_backend d connection_string memory c out)
  unfolding cpl_create_odbc_backend
  create-Created r connection_string memory c out =
      let (ok, intact) = connect_ok d r (allocated_odbc connection_string memory c) refl in
      rw ok (refl, intact)

  -- Over a driver that connects and prepares, a data source name with `;`, `{` or `}` is refused, and
  -- any other gives a backend that is intact.
  pub create_dsn-DsnAnswer :
      Reconnects d
      → (dsn : Text) (memory : ℕ) (c : Conn) (out : Option (Odbc Conn))
      → DsnAnswer (has_mark dsn) (cpl_create_odbc_backend_dsn d dsn memory c out)
  unfolding cpl_create_odbc_backend_dsn
  create_dsn-DsnAnswer r dsn memory c out =
      rw (← has_reserved_lem dsn) (elim (Bool-cases (has_reserved dsn)) [
        | inl e ↦ rw e refl
        | inr e ↦ rw e (create-Created r (codes "DSN=" ++ dsn ++ codes ";") memory c none)
      ])
