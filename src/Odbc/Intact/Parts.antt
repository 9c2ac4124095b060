-- ===== src/Odbc/Intact/Parts.antt =====
-- What the parts of a call do to the pools: all but the release leave the handle out.
use prov_cpl.Prelude.{
  ℕ, zero, suc, ℤ, List, [], ◌∷◌, ◌++◌, ◌+◌, Bool, true, false, not, Option, if◌then◌else◌, ltb_ℤ,
  pos,
}
use prov_cpl.Codes.{cpl_is_ok}
use prov_cpl.Odbc.Statements.{Statement}
use prov_cpl.Odbc.Driver.{Driver, Datum, Cell, Parameter, sql_succeeded, is_no_data}
use prov_cpl.Odbc.State.{O, ◌>>=◌, ◌>>◌, pure, driver}
use prov_cpl.Odbc.Execute.{
  Attempt, executed, failed, link_down, bind_from, linked_down, attempt, follow, after_reconnect,
  sql_execute_ext, sql_execute,
}
use prov_cpl.Odbc.Fetch.{
  Ended, all_rows, fetch_failed, out_of_fuel, close_with, null_value, close_ok, get_value,
  cpl_sql_fetch_single_value, bind_cols, fetch_loop, close_rows, collect_rows,
}
use prov_cpl.Odbc.Intact.{Lent, Triple, Triple-bind, Triple-then, Triple-if, pure-Lent, driver-Lent}
use prov_cpl.Odbc.Intact.Reconnect.{Reconnects, reconnect-Lent}

-- A part that leaves the handle out.
abbrev pub Holds : {Conn A : Type 0} → Statement → Option ℕ → O Conn A → Type 0
Holds name stmt m = Triple (Lent name stmt) m (λ a. Lent name stmt)

module _ {Conn : Type 0} (name : Statement) (stmt : Option ℕ) where
  pub Holds-bind :
      {A B : Type 0} (m : O Conn A) (f : A → O Conn B)
      → Holds name stmt m
      → ((a : A) → Holds name stmt (f a))
      → Holds name stmt (m >>= f)
  Holds-bind m f = Triple-bind (Lent name stmt) (λ a. Lent name stmt) (λ b. Lent name stmt) m f

  pub Holds-if :
      {A : Type 0} (b : Bool) (m n : O Conn A)
      → Holds name stmt m
      → Holds name stmt n
      → Holds name stmt (if b then m else n)
  Holds-if b m n = Triple-if (Lent name stmt) (λ a. Lent name stmt) b m n

  pub Holds-then :
      {A B : Type 0} (m : O Conn A) (n : O Conn B)
      → Holds name stmt m
      → Holds name stmt n
      → Holds name stmt (m >> n)
  Holds-then m n = Triple-then (Lent name stmt) (Lent name stmt) (λ b. Lent name stmt) m n

  -- The call of the driver, whatever follows it.
  pub after_driver :
      {A B : Type 0} (g : Conn → A × Conn) (f : A → O Conn B)
      → ((a : A) → Holds name stmt (f a))
      → Holds name stmt (driver g >>= f)
  after_driver g f = Holds-bind (driver g) f (driver-Lent name stmt g)

  pub Holds-pure : {A : Type 0} (a : A) → Holds {Conn = Conn} name stmt (pure a)
  Holds-pure a = pure-Lent name stmt a

module _ {Conn Timestamp : Type 0} (d : Driver Conn Timestamp) (name : Statement)
    (out : Option ℕ) where
  bind_from-Holds :
      (ps : List Parameter) (arg : ℕ) (stmt : Option ℕ) → Holds name out (bind_from d arg stmt ps)
  unfolding bind_from
  bind_from-Holds [] arg stmt = Holds-pure name out true
  bind_from-Holds (p ∷ ps) arg stmt = after_driver name out _ _ λ ret.
      Holds-if name out (sql_succeeded ret) _ _ (bind_from-Holds ps (arg + 1) stmt)
        (Holds-pure name out false)

  linked_down-Holds : (stmt : Option ℕ) → Holds name out (linked_down d stmt)
  unfolding linked_down
  linked_down-Holds stmt s h = h

  attempt-Holds : (stmt : Option ℕ) (ps : List Parameter) → Holds name out (attempt d stmt ps)
  unfolding attempt
  attempt-Holds stmt ps = Holds-bind name out _ _ (bind_from-Holds ps 1 stmt) λ bound.
      Holds-if name out (not bound) _ _ (Holds-pure name out failed) (
        after_driver name out _ _ λ ret.
          Holds-if name out (sql_succeeded ret) _ _ (Holds-pure name out executed)
            (Holds-bind name out _ _ (linked_down-Holds stmt) λ down. Holds-pure name out _))

  follow-Holds :
      (again : O Conn Bool)
      → Holds name out again
      → (a : Attempt) → Holds name out (follow d again a)
  unfolding follow
  follow-Holds again h executed = Holds-pure name out true
  follow-Holds again h failed = Holds-pure name out false
  follow-Holds again h link_down = h

  sql_execute_ext-Holds :
      Reconnects d
      → (retries : ℕ) (stmt : Option ℕ) (ps : List Parameter)
      → Holds name out (sql_execute_ext d retries stmt ps)
  unfolding sql_execute_ext after_reconnect
  sql_execute_ext-Holds r zero stmt ps =
      Holds-bind name out _ _ (attempt-Holds stmt ps) (follow-Holds _ (Holds-pure name out false))
  sql_execute_ext-Holds r (suc retries) stmt ps = Holds-bind name out _ _ (attempt-Holds stmt ps) (
      follow-Holds _ (
        Holds-bind name out _ _ (reconnect-Lent d r name out) λ code.
          Holds-if name out (cpl_is_ok code) _ _ (sql_execute_ext-Holds r retries stmt ps)
            (Holds-pure name out false)))

  pub sql_execute-Holds :
      Reconnects d
      → (stmt : Option ℕ) (ps : List Parameter) → Holds name out (sql_execute d stmt ps)
  unfolding sql_execute
  sql_execute-Holds r stmt ps = sql_execute_ext-Holds r 3 stmt ps

  close_with-Holds : (stmt : Option ℕ) (code : ℤ) → Holds name out (close_with d stmt code)
  unfolding close_with
  close_with-Holds stmt code =
      Holds-then name out _ _ (driver-Lent name out _) (Holds-pure name out _)

  null_value-Holds : (stmt : Option ℕ) (b : Bool) → Holds name out (null_value d stmt b)
  unfolding null_value
  null_value-Holds stmt b =
      Holds-if name out b _ _ (Holds-pure name out _) (close_with-Holds stmt _)

  close_ok-Holds :
      (stmt : Option ℕ) (value : Datum Timestamp) → Holds name out (close_ok d stmt value)
  unfolding close_ok
  close_ok-Holds stmt value = after_driver name out _ _ λ ret.
      Holds-if name out (sql_succeeded ret) _ _ (Holds-pure name out _) (close_with-Holds stmt _)

  get_value-Holds :
      (stmt : Option ℕ) (column : ℕ) (close nulls : Bool)
      → Holds name out (get_value d stmt column close nulls)
  unfolding get_value
  get_value-Holds stmt column close nulls = after_driver name out _ _ λ got.
      Holds-if name out (is_no_data got.0) _ _ (null_value-Holds stmt nulls) (
        Holds-if name out (not (sql_succeeded got.0)) _ _ (close_with-Holds stmt _) (
          Holds-if name out (not (ltb_ℤ (pos 0) got.1)) _ _ (null_value-Holds stmt nulls)
            (Holds-if name out close _ _ (close_ok-Holds stmt got.2) (Holds-pure name out _))))

  pub fetch_single_value-Holds :
      (stmt : Option ℕ) (column : ℕ) (fetch close nulls : Bool)
      → Holds name out (cpl_sql_fetch_single_value d stmt column fetch close nulls)
  unfolding cpl_sql_fetch_single_value
  fetch_single_value-Holds stmt column fetch close nulls =
      let got = get_value-Holds stmt column close nulls in
      Holds-if name out fetch _ _
        (after_driver name out _ _ λ ret.
          Holds-if name out (is_no_data ret) _ _ (close_with-Holds stmt _)
            (Holds-if name out (not (sql_succeeded ret)) _ _ (close_with-Holds stmt _) got))
        got

  bind_cols-Holds : (n column : ℕ) (stmt : Option ℕ) → Holds name out (bind_cols d n column stmt)
  unfolding bind_cols
  bind_cols-Holds zero column stmt = Holds-pure name out true
  bind_cols-Holds (suc n) column stmt = after_driver name out _ _ λ ret.
      Holds-if name out (sql_succeeded ret) _ _ (bind_cols-Holds n (column + 1) stmt)
        (Holds-pure name out false)

  fetch_loop-Holds :
      {E : Type 0} (fuel : ℕ) (stmt : Option ℕ) (read : List (Cell Timestamp) → List E)
      (entries : List E)
      → Holds name out (fetch_loop d fuel stmt read entries)
  unfolding fetch_loop
  fetch_loop-Holds zero stmt read entries = Holds-pure name out out_of_fuel
  fetch_loop-Holds (suc fuel) stmt read entries = after_driver name out _ _ λ ret.
      after_driver name out _ _ λ cells.
        Holds-if name out (sql_succeeded ret) _ _
          (fetch_loop-Holds fuel stmt read (entries ++ read cells)) (Holds-pure name out _)

  close_rows-Holds :
      {E : Type 0} (stmt : Option ℕ) (e : Ended E) → Holds name out (close_rows d stmt e)
  unfolding close_rows
  close_rows-Holds stmt (all_rows entries) = after_driver name out _ _ λ ret. Holds-pure name out _
  close_rows-Holds stmt fetch_failed =
      Holds-then name out _ _ (driver-Lent name out _) (Holds-pure name out _)
  close_rows-Holds stmt out_of_fuel = Holds-pure name out _

  pub collect_rows-Holds :
      {E : Type 0} (stmt : Option ℕ) (columns : ℕ) (read : List (Cell Timestamp) → List E)
      → Holds name out (collect_rows d stmt columns read)
  unfolding collect_rows
  collect_rows-Holds stmt columns read =
      Holds-bind name out _ _ (bind_cols-Holds columns 1 stmt) λ bound.
        Holds-if name out (not bound) _ _
          (Holds-then name out _ _ (driver-Lent name out _) (Holds-pure name out _))
          (after_driver name out _ _ λ rows.
            Holds-bind name out _ _ (fetch_loop-Holds (suc rows) stmt read [])
              λ ended. close_rows-Holds stmt ended)
