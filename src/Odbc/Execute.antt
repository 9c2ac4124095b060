-- ===== src/Odbc/Execute.antt =====
-- The binding of parameters, `SQL_EXECUTE` with its reconnections, and the reading of one value.
use prov_cpl.Prelude.{
  ℕ, zero, suc, ℤ, pos, negsuc, ◌+◌, ◌-◌, ◌%◌, ◌^◌, Text, codes, text_eq, List, [], ◌∷◌, Bool, true,
  false, not, Option, if◌then◌else◌, ltb,
}
use prov_cpl.Codes.{cpl_is_ok}
use prov_cpl.Odbc.Driver.{
  Driver, SqlReturn, sql_success, sql_success_with_info, sql_no_data, sql_invalid_handle, sql_error,
  sql_succeeded, Parameter, integer,
}
use prov_cpl.Odbc.State.{O, ◌>>=◌, pure, driver}
use prov_cpl.Odbc.Connect.{cpl_odbc_reconnect}

-- `(long long) id` of a `cpl_id_t`, and the identifier that a `long long` is read as.
abbrev pub to_llong : ℕ → ℤ
to_llong id = if ltb id (2 ^ 63) then pos id else negsuc (2 ^ 64 - 1 - id)

abbrev pub of_llong : ℤ → ℕ
of_llong (pos n) = n % 2 ^ 64
of_llong (negsuc n) = 2 ^ 64 - 1 - n % 2 ^ 64

-- The parameters that the calls bind.
abbrev pub bind_id : ℕ → Parameter
bind_id id = integer (to_llong id)

-- The loop of `fetch_odbc_error`: it goes on while the result is exactly `SQL_SUCCESS`.
unfoldable pub fetch_odbc_error : List (SqlReturn × Text) → List Text
fetch_odbc_error [] = []
fetch_odbc_error ((sql_success, state) ∷ recs) = state ∷ fetch_odbc_error recs
fetch_odbc_error ((sql_success_with_info, state) ∷ recs) = state ∷ []
fetch_odbc_error ((sql_no_data, state) ∷ recs) = []
fetch_odbc_error ((sql_invalid_handle, state) ∷ recs) = []
fetch_odbc_error ((sql_error, state) ∷ recs) = []

-- The link has failed, and that is the only error.
unfoldable pub should_reconnect_due_to_odbc_error : List Text → Bool
should_reconnect_due_to_odbc_error [] = false
should_reconnect_due_to_odbc_error (state ∷ []) = text_eq state (codes "08S01")
should_reconnect_due_to_odbc_error (state ∷ other ∷ states) = false

-- How one run through `SQL_EXECUTE` ends.
pub data Attempt : Type 0 where
  executed failed link_down : Attempt

module _ {Conn Timestamp : Type 0} (d : Driver Conn Timestamp) where
  -- `SQL_BIND_INTEGER` and `SQL_BIND_VARCHAR` from the label `retry`: `false` jumps to `err`.
  unfoldable pub bind_from : ℕ → Option ℕ → List Parameter → O Conn Bool
  bind_from arg stmt [] = pure true
  bind_from arg stmt (p ∷ ps) = do
    ret ← driver (d.sql_bind_parameter stmt arg p)
    if sql_succeeded ret then bind_from (arg + 1) stmt ps else pure false

  unfoldable pub linked_down : Option ℕ → O Conn Bool
  unfolding fetch_odbc_error should_reconnect_due_to_odbc_error
  linked_down stmt s =
      (should_reconnect_due_to_odbc_error (fetch_odbc_error (d.sql_diag_recs stmt s.conn)), s)

  -- From `retry` to the test of the errors.
  unfoldable pub attempt : Option ℕ → List Parameter → O Conn Attempt
  attempt stmt ps = do
    bound ← bind_from 1 stmt ps
    if not bound then pure failed else do
      ret ← driver (d.sql_execute stmt)
      if sql_succeeded ret
          then pure executed
          else do down ← linked_down stmt; pure (if down then link_down else failed)

  -- What follows an attempt, with what is left to try if the link was down: `false` jumps to `err`.
  unfoldable pub follow : O Conn Bool → Attempt → O Conn Bool
  follow again executed = pure true
  follow again failed = pure false
  follow again link_down = again

  unfoldable pub after_reconnect : O Conn Bool → ℤ → O Conn Bool
  after_reconnect again r = if cpl_is_ok r then again else pure false

  -- `SQL_EXECUTE` with `retries_left`.
  unfoldable pub sql_execute_ext : ℕ → Option ℕ → List Parameter → O Conn Bool
  sql_execute_ext zero stmt ps = attempt stmt ps >>= follow (pure false)
  sql_execute_ext (suc retries_left) stmt ps =
      attempt stmt ps
      >>= follow (cpl_odbc_reconnect d >>= after_reconnect (sql_execute_ext retries_left stmt ps))

  -- `SQL_START` sets `retries_left` to 3.
  unfoldable pub sql_execute : Option ℕ → List Parameter → O Conn Bool
  sql_execute = sql_execute_ext 3
