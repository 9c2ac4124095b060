-- ===== src/Odbc/Intact/Returns.antt =====
-- The ends of the calls, which give the handle back on every way out.
use prov_cpl.Prelude.{ℕ, ℤ, List, Bool, true, false, not, Option, if◌then◌else◌}
use prov_cpl.Codes.{cpl_is_ok}
use prov_cpl.Api.Backend.{ObjectInfo, SessionInfo}
use prov_cpl.Odbc.Statements.{Statement, get_session_info, get_object_info}
use prov_cpl.Odbc.Driver.{Driver, Datum, Cell, sql_succeeded}
use prov_cpl.Odbc.State.{O, ◌>>=◌, ◌>>◌, pure, stmt_release}
use prov_cpl.Odbc.Fetch.{cpl_sql_fetch_single_llong, cpl_sql_simple_fetch}
use prov_cpl.Odbc.Calls.{give_id, finish_write, give_rows}
use prov_cpl.Odbc.Calls.Info.{
  err_r, simple_fetch, close_and_give, read_session_info, read_object_info,
}
use prov_cpl.Odbc.Intact.{
  IsIntact, Lent, Triple, Triple-bind, Triple-then, Triple-if, pure-IsIntact, driver-Lent,
  stmt_release-IsIntact,
}
use prov_cpl.Odbc.Intact.Parts.{Holds, fetch_single_value-Holds, collect_rows-Holds}

-- From a handle that is out to a handle in its pool.
abbrev pub Returns : {Conn A : Type 0} → Statement → Option ℕ → O Conn A → Type 0
Returns name stmt m = Triple (Lent name stmt) m (λ a. IsIntact)

module _ {Conn : Type 0} (name : Statement) (stmt : Option ℕ) where
  pub release_with :
      {A : Type 0} (a : A) → Returns {Conn = Conn} name stmt (stmt_release name stmt >> pure a)
  release_with a =
      Triple-then (Lent name stmt) IsIntact (λ b. IsIntact) _ _ (stmt_release-IsIntact name stmt)
        (pure-IsIntact a)

  pub Returns-if :
      {A : Type 0} (b : Bool) (m n : O Conn A)
      → Returns name stmt m
      → Returns name stmt n
      → Returns name stmt (if b then m else n)
  Returns-if b m n = Triple-if (Lent name stmt) (λ a. IsIntact) b m n

  pub Returns-bind :
      {A B : Type 0} (m : O Conn A) (f : A → O Conn B)
      → Holds name stmt m
      → ((a : A) → Returns name stmt (f a))
      → Returns name stmt (m >>= f)
  Returns-bind m f = Triple-bind (Lent name stmt) (λ a. Lent name stmt) (λ b. IsIntact) m f

module _ {Conn Timestamp : Type 0} (d : Driver Conn Timestamp) where
  pub fetch_single_llong-Holds :
      (name : Statement) (out stmt : Option ℕ) → Holds name out (cpl_sql_fetch_single_llong d stmt)
  unfolding cpl_sql_fetch_single_llong
  fetch_single_llong-Holds name out stmt =
      fetch_single_value-Holds d name out stmt 1 true true false

  pub give_id-Returns :
      (name : Statement) (stmt : Option ℕ) (executed : Bool) (out : Option ℕ)
      → Returns name stmt (give_id d name stmt executed out)
  unfolding give_id
  give_id-Returns name stmt executed out =
      Returns-if name stmt (not executed) _ _ (release_with name stmt _) (
        Returns-bind name stmt _ _ (fetch_single_llong-Holds name stmt stmt) λ r.
          Returns-if name stmt (not (cpl_is_ok r.0)) _ _ (release_with name stmt _)
            (release_with name stmt _))

  pub finish_write-Returns :
      (name : Statement) (stmt : Option ℕ) (executed : Bool)
      → Returns name stmt (finish_write d name stmt executed)
  unfolding finish_write
  finish_write-Returns name stmt executed =
      Returns-if name stmt executed _ _ (release_with name stmt _) (release_with name stmt _)

  pub give_rows-Returns :
      {E B : Type 0} (name : Statement) (stmt : Option ℕ) (executed : Bool) (columns : ℕ)
      (read : List (Cell Timestamp) → List E) (k : Option (List E) → B)
      → Returns name stmt (give_rows d name stmt executed columns read >>= λ es. pure (k es))
  unfolding give_rows
  give_rows-Returns name stmt executed columns read k =
      Triple-bind (Lent name stmt) (λ es. IsIntact) (λ b. IsIntact) _ _
        (Returns-if name stmt (not executed) _ _ (release_with name stmt _) (
          Returns-bind name stmt _ _ (collect_rows-Holds d name stmt stmt columns read)
            λ es. release_with name stmt es))
        (λ es. pure-IsIntact _)

  pub err_r-Returns :
      {A : Type 0} (name : Statement) (stmt : Option ℕ) (out : A) (r : ℤ)
      → Returns name stmt (err_r d name stmt out r)
  unfolding err_r
  err_r-Returns name stmt out r = release_with name stmt _

  simple_fetch-Returns :
      {B : Type 0} (name : Statement) (stmt : Option ℕ) (column : ℕ) (nulls : Bool)
      (fail : ℤ → O Conn B) (rest : Option (Datum Timestamp) → O Conn B)
      → ((r : ℤ) → Returns name stmt (fail r))
      → ((v : Option (Datum Timestamp)) → Returns name stmt (rest v))
      → Returns name stmt (simple_fetch d stmt column nulls fail rest)
  unfolding simple_fetch cpl_sql_simple_fetch
  simple_fetch-Returns name stmt column nulls fail rest hf hr =
      Returns-bind name stmt _ _ (fetch_single_value-Holds d name stmt stmt column _ false nulls)
        λ r. Returns-if name stmt _ _ _ (hf r.0) (hr r.1)

  close_and_give-Returns :
      {A : Type 0} (name : Statement) (stmt : Option ℕ) (out : Option A) (p : A)
      → Returns name stmt (close_and_give d name stmt out p)
  unfolding close_and_give
  close_and_give-Returns name stmt out p =
      Returns-bind name stmt _ _ (driver-Lent name stmt _) λ ret.
        Returns-if name stmt (not (sql_succeeded ret)) _ _ (err_r-Returns name stmt out _)
          (release_with name stmt _)

  -- One fetch of a value, whose failure goes to `err_r`.
  fetch_step :
      {A : Type 0} (name : Statement) (stmt : Option ℕ) (out : A) (column : ℕ) (nulls : Bool)
      (rest : Option (Datum Timestamp) → O Conn (ℤ × A))
      → ((v : Option (Datum Timestamp)) → Returns name stmt (rest v))
      → Returns name stmt (simple_fetch d stmt column nulls (err_r d name stmt out) rest)
  fetch_step name stmt out column nulls rest =
      simple_fetch-Returns name stmt column nulls _ rest (err_r-Returns name stmt out)

  pub read_session_info-Returns :
      (stmt : Option ℕ) (id : ℕ) (out : Option SessionInfo)
      → Returns get_session_info stmt (read_session_info d stmt id out)
  unfolding read_session_info
  read_session_info-Returns stmt id out = fetch_step get_session_info stmt out 1 false _ λ a.
      fetch_step get_session_info stmt out 2 false _ λ b.
        fetch_step get_session_info stmt out 3 false _ λ c.
          fetch_step get_session_info stmt out 4 false _ λ e.
            fetch_step get_session_info stmt out 5 false _ λ f.
              fetch_step get_session_info stmt out 6 false _
                λ g. close_and_give-Returns get_session_info stmt out _

  pub read_object_info-Returns :
      (stmt : Option ℕ) (id : ℕ) (out : Option ObjectInfo)
      → Returns get_object_info stmt (read_object_info d stmt id out)
  unfolding read_object_info
  read_object_info-Returns stmt id out = fetch_step get_object_info stmt out 1 false _ λ a.
      fetch_step get_object_info stmt out 2 true _ λ b.
        fetch_step get_object_info stmt out 3 true _ λ c.
          fetch_step get_object_info stmt out 4 false _
            λ e. close_and_give-Returns get_object_info stmt out _
