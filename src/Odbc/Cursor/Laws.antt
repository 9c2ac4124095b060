-- ===== src/Odbc/Cursor/Laws.antt =====
-- The loop over the rows ends, and reads every row once.
use prov_cpl.Prelude.{
  ℕ, zero, suc, ◌+◌, Bool, true, false, Bool-cases, inl, inr, Option, some, List, [], ◌∷◌, ◌++◌,
  ◌≡◌, ◌≢◌, length, ◌<◌, append-nil, append_assoc, refl, ap, ◌∙◌, arith, if◌then◌else◌,
}
use prov_cpl.Odbc.Driver.{Driver, SqlReturn, sql_no_data, Cell, sql_succeeded, is_no_data}
use prov_cpl.Odbc.State.{Odbc, ◌>>=◌, ◌>>◌, pure, driver}
use prov_cpl.Odbc.Fetch.{
  all_rows, fetch_failed, out_of_fuel, bind_cols, fetch_loop, close_rows, collect_rows,
}
use prov_cpl.Odbc.Cursor.{Counts, Serves, entries_of}

module _ {Conn Timestamp E : Type 0} (d : Driver Conn Timestamp)
    (read : List (Cell Timestamp) → List E) where
  -- One round of the loop: the fetch, and what follows it.
  fetch_loop-more :
      (fuel : ℕ) (stmt : Option ℕ) (entries : List E) (s : Odbc Conn)
      → sql_succeeded (d.sql_fetch stmt s.conn).0 ≡ true
      → fetch_loop d (suc fuel) stmt read entries s ≡ (
          let c = (d.sql_fetch stmt s.conn).1 in
          fetch_loop d fuel stmt read
            (entries ++ read (d.sql_cells stmt c))
            (record s { conn = c }))
  unfolding fetch_loop ◌>>=◌ driver
  fetch_loop-more fuel stmt entries s e = rw e refl

  fetch_loop-end :
      (fuel : ℕ) (stmt : Option ℕ) (entries : List E) (s : Odbc Conn)
      → sql_succeeded (d.sql_fetch stmt s.conn).0 ≡ false
      → fetch_loop d (suc fuel) stmt read entries s ≡ (
        (if is_no_data (d.sql_fetch stmt s.conn).0 then all_rows entries else fetch_failed),
        record s { conn = (d.sql_fetch stmt s.conn).1 },
      )
  unfolding fetch_loop ◌>>=◌ driver pure
  fetch_loop-end fuel stmt entries s e = rw e refl

  not_out :
      (b : Bool) (entries : List E) → (if b then all_rows entries else fetch_failed) ≢ out_of_fuel
  not_out true entries = λ f. cc
  not_out false entries = λ f. cc

  -- If each fetch that succeeds takes a row, then with more fuel than rows the loop over the rows
  -- ends by itself, and it does the same with any such fuel.
  pub fetch_loop_ends :
      Counts d
      → (fuel other : ℕ) (stmt : Option ℕ) (entries : List E) (s : Odbc Conn)
      → d.sql_rows_left stmt s.conn < fuel
      → d.sql_rows_left stmt s.conn < other
      → ((fetch_loop d fuel stmt read entries s).0 ≢ out_of_fuel)
        × (fetch_loop d other stmt read entries s ≡ fetch_loop d fuel stmt read entries s)
  fetch_loop_ends k zero other stmt entries s h g = absurd (ground arith)
  fetch_loop_ends k (suc fuel) zero stmt entries s h g = absurd (ground arith)
  fetch_loop_ends k (suc fuel) (suc other) stmt entries s h g =
      elim (Bool-cases (sql_succeeded (d.sql_fetch stmt s.conn).0)) [
        | inl e ↦
            let smaller = k.takes_row stmt s.conn e in
            rw (fetch_loop-more fuel stmt entries s e, fetch_loop-more other stmt entries s e)
              (fetch_loop_ends k fuel other stmt _ _ (ground arith) (ground arith))
        | inr e ↦
            rw (fetch_loop-end fuel stmt entries s e, fetch_loop-end other stmt entries s e)
              (not_out (is_no_data (d.sql_fetch stmt s.conn).0) entries, refl)
      ]

  no_data_fails : (r : SqlReturn) → is_no_data r ≡ true → sql_succeeded r ≡ false
  no_data_fails sql_no_data e = refl
  no_data_fails _ e = cc

  module _ (rows : Option ℕ → Conn → List (List (Cell Timestamp))) (v : Serves d rows) where
    fetch_loop_all :
        (left : List (List (Cell Timestamp))) (stmt : Option ℕ) (entries : List E) (s : Odbc Conn)
        → rows stmt s.conn ≡ left
        → (fetch_loop d (suc (length left)) stmt read entries s).0
          ≡ all_rows (entries ++ entries_of read left)
    fetch_loop_all [] stmt entries s e =
        let none_left = v.fetches_none stmt s.conn e in
        rw
          (
            fetch_loop-end 0 stmt entries s (no_data_fails _ none_left),
            none_left,
            append-nil entries,
          )
          refl
    fetch_loop_all (row ∷ left) stmt entries s e =
        let (ok, cells, rest) = v.fetches_row stmt s.conn row left e in
        let c = (d.sql_fetch stmt s.conn).1 in
        rw (fetch_loop-more (suc (length left)) stmt entries s ok, cells)
          (fetch_loop_all left stmt (entries ++ read row) (record s { conn = c }) rest
            ∙ ap all_rows (append_assoc entries (read row) (entries_of read left)))

    bind_cols_ok :
        (n column : ℕ) (stmt : Option ℕ) (s : Odbc Conn)
        → ((bind_cols d n column stmt s).0 ≡ true)
          × (rows stmt (bind_cols d n column stmt s).1.conn ≡ rows stmt s.conn)
    unfolding bind_cols ◌>>=◌ driver pure
    bind_cols_ok zero column stmt s = (refl, refl)
    bind_cols_ok (suc n) column stmt s =
        let (ok, same_rows) = v.binds stmt column s.conn in
        let c = (d.sql_bind_col stmt column s.conn).1 in
        let (k, rest) = bind_cols_ok n (column + 1) stmt (record s { conn = c }) in
        rw ok (k, rest ∙ same_rows)

    -- Over a driver without failures a call reads the rows of its result set, each once and in
    -- order.
    pub collect_rows_all :
        (columns : ℕ) (stmt : Option ℕ) (s : Odbc Conn)
        → (collect_rows d stmt columns read s).0 ≡ some (entries_of read (rows stmt s.conn))
    unfolding collect_rows close_rows ◌>>=◌ ◌>>◌ driver pure
    collect_rows_all columns stmt s =
        let (ok, same_rows) = bind_cols_ok columns 1 stmt s in
        let t = (bind_cols d columns 1 stmt s).1 in
        let all = fetch_loop_all (rows stmt t.conn) stmt [] t refl in
        rw (ok, v.counts stmt t.conn, all, v.closes stmt _)
          (ap (λ k. some (entries_of read k)) same_rows)
