-- ===== src/Odbc/Database/Quiet.antt =====
-- Calls leave the pools as they were and the handles prepared as they were.
use prov_cpl.Prelude.{
  ℕ, ℤ, pos, ltb_ℤ, ◌+◌, Bool, true, false, not, Option, List, [], ◌∷◌, ◌≡◌, refl, ◌∙◌,
  if◌then◌else◌, arith,
}
use prov_cpl.Codes.{cpl_is_ok}
use prov_cpl.Odbc.Statements.{Statement}
use prov_cpl.Odbc.Driver.{Driver, Datum, Parameter, sql_succeeded, is_no_data}
use prov_cpl.Odbc.State.{Odbc, O, ◌>>=◌, ◌>>◌, pure, driver, set_pool, put_back, stmt_release}
use prov_cpl.Odbc.Execute.{executed, failed, bind_from, attempt, linked_down}
use prov_cpl.Odbc.Fetch.{
  close_with, null_value, close_ok, get_value, cpl_sql_fetch_single_value,
  cpl_sql_fetch_single_llong,
}
use prov_cpl.Odbc.Calls.{give_id, finish_write}
use prov_cpl.Odbc.Database.{View}

module _ {Conn Timestamp Tables : Type 0} (view : View Conn Timestamp Tables) where
  -- The pools are the same, and each handle is prepared for the same statement.
  pub record IsSame (s t : Odbc Conn) : Type 0 where
    pub pools : (m : Statement) → t.pools m ≡ s.pools m
    pub statements : (h : Option ℕ) → view.statement h t.conn ≡ view.statement h s.conn

  -- The same after a handle was put back.
  pub record IsBack (name : Statement) (stmt : Option ℕ) (s t : Odbc Conn) : Type 0 where
    pub pools : (m : Statement) → t.pools m ≡ set_pool name (put_back stmt (s.pools name)) s.pools m
    pub statements : (h : Option ℕ) → view.statement h t.conn ≡ view.statement h s.conn

  pub record IsQuiet {A : Type 0} (m : O Conn A) : Type 0 where
    pub quiet : (s : Odbc Conn) → IsSame s (m s).1

  -- A part of a call that puts its handle back.
  pub record GivesBack {A : Type 0} (name : Statement) (stmt : Option ℕ) (m : O Conn A)
      : Type 0 where
    pub gives : (s : Odbc Conn) → IsBack name stmt s (m s).1

  pub pure-IsQuiet : {A : Type 0} → (a : A) → IsQuiet (pure a)
  unfolding pure
  pure-IsQuiet a = record { quiet = λ s. record { pools = λ m. refl; statements = λ h. refl } }

  pub driver-IsQuiet :
      {A : Type 0}
      → (f : Conn → A × Conn)
      → ((h : Option ℕ) (c : Conn) → view.statement h (f c).1 ≡ view.statement h c)
      → IsQuiet (driver f)
  unfolding driver
  driver-IsQuiet f k = record {
    quiet = λ s. record { pools = λ m. refl; statements = λ h. k h s.conn };
  }

  pub bind-IsQuiet :
      {A B : Type 0}
      → (m : O Conn A) (f : A → O Conn B) → IsQuiet m
      → ((a : A) → IsQuiet (f a))
      → IsQuiet (m >>= f)
  unfolding ◌>>=◌
  bind-IsQuiet m f hm hf = record {
    quiet = λ s.
        let one = hm.quiet s in
        let two = (hf (m s).0).quiet (m s).1 in
        record {
          pools = λ n. two.pools n ∙ one.pools n;
          statements = λ h. two.statements h ∙ one.statements h;
        };
  }

  pub then-IsQuiet :
      {A B : Type 0} → (m : O Conn A) (n : O Conn B) → IsQuiet m → IsQuiet n → IsQuiet (m >> n)
  unfolding ◌>>◌
  then-IsQuiet m n hm hn = bind-IsQuiet m (λ a. n) hm (λ a. hn)

  pub if-IsQuiet :
      {A : Type 0}
      → (b : Bool) (m n : O Conn A) → IsQuiet m
      → IsQuiet n
      → IsQuiet (if b then m else n)
  if-IsQuiet true m n hm hn = hm
  if-IsQuiet false m n hm hn = hn

  pub release-GivesBack :
      {A : Type 0}
      → (name : Statement) (stmt : Option ℕ) (a : A)
      → GivesBack name stmt (stmt_release name stmt >> pure a)
  unfolding stmt_release ◌>>◌ ◌>>=◌ pure
  release-GivesBack name stmt a = record {
    gives = λ s. record { pools = λ m. ground arith; statements = λ h. ground arith };
  }

  pub bind-GivesBack :
      {A B : Type 0}
      → (name : Statement) (stmt : Option ℕ) (m : O Conn A) (f : A → O Conn B) → IsQuiet m
      → ((a : A) → GivesBack name stmt (f a))
      → GivesBack name stmt (m >>= f)
  unfolding ◌>>=◌
  bind-GivesBack name stmt m f hm hf = record {
    gives = λ s.
        let one = hm.quiet s in
        let two = (hf (m s).0).gives (m s).1 in
        record {
          pools = λ n. ground (arith, two.pools n, one.pools n, one.pools name);
          statements = λ h. two.statements h ∙ one.statements h;
        };
  }

  pub if-GivesBack :
      {A : Type 0}
      → (name : Statement) (stmt : Option ℕ) (b : Bool) (m n : O Conn A) → GivesBack name stmt m
      → GivesBack name stmt n
      → GivesBack name stmt (if b then m else n)
  if-GivesBack name stmt true m n hm hn = hm
  if-GivesBack name stmt false m n hm hn = hn

module _ {Conn Timestamp Tables : Type 0} (d : Driver Conn Timestamp)
    (view : View Conn Timestamp Tables) where
  -- The functions of the driver leave each handle prepared for its statement.
  pub record KeepsStatements : Type 0 where
    pub binds :
        (stmt h : Option ℕ) (arg : ℕ) (p : Parameter) (c : Conn)
        → view.statement h (d.sql_bind_parameter stmt arg p c).1 ≡ view.statement h c
    pub executes :
        (stmt h : Option ℕ) (c : Conn)
        → view.statement h (d.sql_execute stmt c).1 ≡ view.statement h c
    pub fetches :
        (stmt h : Option ℕ) (c : Conn)
        → view.statement h (d.sql_fetch stmt c).1 ≡ view.statement h c
    pub gets :
        (stmt h : Option ℕ) (column : ℕ) (c : Conn)
        → view.statement h (d.sql_get_data stmt column c).1 ≡ view.statement h c
    pub closes :
        (stmt h : Option ℕ) (c : Conn)
        → view.statement h (d.sql_close_cursor stmt c).1 ≡ view.statement h c

  module _ (k : KeepsStatements) where
    close_with-IsQuiet : (stmt : Option ℕ) (code : ℤ) → IsQuiet view (close_with d stmt code)
    unfolding close_with
    close_with-IsQuiet stmt code =
        then-IsQuiet view _ _ (driver-IsQuiet view _ (k.closes stmt)) (pure-IsQuiet view _)

    null_value-IsQuiet : (stmt : Option ℕ) (b : Bool) → IsQuiet view (null_value d stmt b)
    unfolding null_value
    null_value-IsQuiet stmt b =
        if-IsQuiet view b _ _ (pure-IsQuiet view _) (close_with-IsQuiet stmt _)

    close_ok-IsQuiet : (stmt : Option ℕ) (v : Datum Timestamp) → IsQuiet view (close_ok d stmt v)
    unfolding close_ok
    close_ok-IsQuiet stmt v = bind-IsQuiet view _ _ (driver-IsQuiet view _ (k.closes stmt)) λ ret.
        if-IsQuiet view (sql_succeeded ret) _ _ (pure-IsQuiet view _) (close_with-IsQuiet stmt _)

    get_value-IsQuiet :
        (stmt : Option ℕ) (column : ℕ) (close nulls : Bool)
        → IsQuiet view (get_value d stmt column close nulls)
    unfolding get_value
    get_value-IsQuiet stmt column close nulls =
        bind-IsQuiet view _ _ (driver-IsQuiet view _ (λ h c. k.gets stmt h column c)) λ got.
          if-IsQuiet view (is_no_data got.0) _ _ (null_value-IsQuiet stmt nulls) (
            if-IsQuiet view (not (sql_succeeded got.0)) _ _ (close_with-IsQuiet stmt _) (
              if-IsQuiet view (not (ltb_ℤ (pos 0) got.1)) _ _ (null_value-IsQuiet stmt nulls)
                (if-IsQuiet view close _ _ (close_ok-IsQuiet stmt got.2) (pure-IsQuiet view _))))

    fetch_llong-IsQuiet : (stmt : Option ℕ) → IsQuiet view (cpl_sql_fetch_single_llong d stmt)
    unfolding cpl_sql_fetch_single_llong cpl_sql_fetch_single_value
    fetch_llong-IsQuiet stmt = bind-IsQuiet view _ _ (driver-IsQuiet view _ (k.fetches stmt)) λ ret.
        if-IsQuiet view (is_no_data ret) _ _ (close_with-IsQuiet stmt _) (
          if-IsQuiet view (not (sql_succeeded ret)) _ _ (close_with-IsQuiet stmt _)
            (get_value-IsQuiet stmt 1 true false))

    bind_from-IsQuiet :
        (ps : List Parameter) (arg : ℕ) (stmt : Option ℕ) → IsQuiet view (bind_from d arg stmt ps)
    unfolding bind_from
    bind_from-IsQuiet [] arg stmt = pure-IsQuiet view true
    bind_from-IsQuiet (p ∷ ps) arg stmt =
        bind-IsQuiet view _ _ (driver-IsQuiet view _ (λ h c. k.binds stmt h arg p c)) λ ret.
          if-IsQuiet view (sql_succeeded ret) _ _ (bind_from-IsQuiet ps (arg + 1) stmt)
            (pure-IsQuiet view false)

    linked_down-IsQuiet : (stmt : Option ℕ) → IsQuiet view (linked_down d stmt)
    unfolding linked_down
    linked_down-IsQuiet stmt = record {
      quiet = λ s. record { pools = λ m. refl; statements = λ h. refl };
    }

    pub attempt-IsQuiet : (stmt : Option ℕ) (ps : List Parameter) → IsQuiet view (attempt d stmt ps)
    unfolding attempt
    attempt-IsQuiet stmt ps = bind-IsQuiet view _ _ (bind_from-IsQuiet ps 1 stmt) λ bound.
        if-IsQuiet view (not bound) _ _ (pure-IsQuiet view failed) (
          bind-IsQuiet view _ _ (driver-IsQuiet view _ (k.executes stmt)) λ ret.
            if-IsQuiet view (sql_succeeded ret) _ _ (pure-IsQuiet view executed)
              (bind-IsQuiet view _ _ (linked_down-IsQuiet stmt) λ down. pure-IsQuiet view _))

    pub give_id-GivesBack :
        (name : Statement) (stmt : Option ℕ) (b : Bool) (out : Option ℕ)
        → GivesBack view name stmt (give_id d name stmt b out)
    unfolding give_id
    give_id-GivesBack name stmt b out =
        if-GivesBack view name stmt (not b) _ _ (release-GivesBack view name stmt _) (
          bind-GivesBack view name stmt _ _ (fetch_llong-IsQuiet stmt) λ r.
            if-GivesBack view name stmt (not (cpl_is_ok r.0)) _ _
              (release-GivesBack view name stmt _) (release-GivesBack view name stmt _))

    pub finish_write-GivesBack :
        (name : Statement) (stmt : Option ℕ) (b : Bool)
        → GivesBack view name stmt (finish_write d name stmt b)
    unfolding finish_write
    finish_write-GivesBack name stmt b =
        if-GivesBack view name stmt b _ _ (release-GivesBack view name stmt _)
          (release-GivesBack view name stmt _)
