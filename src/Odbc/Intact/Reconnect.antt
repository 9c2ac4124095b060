-- ===== src/Odbc/Intact/Reconnect.antt =====
-- A reconnection that succeeds fills the pools with new handles.
use prov_cpl.Prelude.{
  ℕ, zero, suc, Text, List, [], ◌∷◌, any, Bool, true, false, Option, none, some, ◌≡◌, ◌⊎◌,
  Bool-cases, inl, inr, refl, sym, ap, ◌∙◌, arith, if◌then◌else◌, ◌||◌,
}
use prov_cpl.Codes.{cpl_ok}
use prov_cpl.Odbc.Statements.{Statement, create_session, same, all_statements, prepared_statements}
use prov_cpl.Odbc.Statements.Numbers.{same_eq}
use prov_cpl.Odbc.Pool.{Slots}
use prov_cpl.Odbc.Pool.Laws.{nulls, no_nulls_release}
use prov_cpl.Odbc.Driver.{Driver, sql_succeeded}
use prov_cpl.Odbc.State.{Odbc, ◌>>=◌, ◌>>◌, pure, driver, set_pool, put_back, cpl_stmt_max}
use prov_cpl.Odbc.Connect.{
  alloc_slots, alloc_stmts, prepare_slots, prepare_pools, prepare_stmts, cpl_odbc_connect, set_up,
  finish_connect, open_connection, cpl_odbc_disconnect, cpl_odbc_reconnect,
  cpl_odbc_free_statement_handles,
}
use prov_cpl.Odbc.Intact.{IsIntact, Lent, Triple}

pub listed : (m : Statement) → any (same m) all_statements ≡ true
listed create_session = refl
listed _ = refl

put_back-full :
    (stmt : Option ℕ) (slots : Slots) → nulls slots ≡ 0 → nulls (put_back stmt slots) ≡ 0
put_back-full none slots e = e
put_back-full (some h) slots e = rw (no_nulls_release slots h e) e

put_back-same : (stmt : Option ℕ) (slots : Slots) → nulls slots ≡ 0 → put_back stmt slots ≡ slots
put_back-same none slots e = refl
put_back-same (some h) slots e = no_nulls_release slots h e

pool_same :
    (name m : Statement) (slots : Slots) (pools : Statement → Slots)
    → slots ≡ pools name
    → set_pool name slots pools m ≡ pools m
pool_same name m slots pools e = elim (Bool-cases (same m name)) [
  | inl here ↦ rw here (e ∙ ap pools (sym (same_eq m name here)))
  | inr other ↦ rw other refl
]

later :
    (name : Statement) (rest : Bool) (slots old : Slots) (m : Statement)
    → same m name ≡ false
    → (nulls old ≡ 0) ⊎ ((same m name || rest) ≡ true)
    → (nulls (if same m name then slots else old) ≡ 0) ⊎ (rest ≡ true)
later name rest slots old m other (inl e) = inl (rw other e)
later name rest slots old m other (inr e) = inr (rw other at e)

-- What a loop over pools still has to fill, after one pool.
met :
    (name : Statement) (rest : Bool) (slots old : Slots) (m : Statement)
    → nulls slots ≡ 0
    → (nulls old ≡ 0) ⊎ ((same m name || rest) ≡ true)
    → (nulls (if same m name then slots else old) ≡ 0) ⊎ (rest ≡ true)
met name rest slots old m e h = elim (Bool-cases (same m name)) [
  | inl here ↦ inl (rw here e)
  | inr other ↦ later name rest slots old m other h
]

module _ {Conn Timestamp : Type 0} (d : Driver Conn Timestamp) where
  alloc_slots-full : (n : ℕ) (c : Conn) → nulls (alloc_slots d n c).0 ≡ 0
  unfolding alloc_slots
  alloc_slots-full zero c = refl
  alloc_slots-full (suc n) c = alloc_slots-full n (d.sql_alloc_handle c).1

  -- Every pool that the loop meets is full afterwards, and the others are as they were.
  alloc_stmts-full :
      (names : List Statement) (s : Odbc Conn) (m : Statement)
      → (nulls (s.pools m) ≡ 0) ⊎ (any (same m) names ≡ true)
      → nulls ((alloc_stmts d names s).1.pools m) ≡ 0
  unfolding alloc_stmts
  alloc_stmts-full [] s m (inl e) = e
  alloc_stmts-full [] s m (inr e) = cc
  alloc_stmts-full (name ∷ names) s m h =
      let (slots, c) = alloc_slots d cpl_stmt_max s.conn in
      alloc_stmts-full names
        (record s {
          conn = c;
          pools = set_pool name slots s.pools;
          issued = set_pool name slots s.issued;
        })
        m
        (met name (any (same m) names) slots (s.pools m) m (alloc_slots-full cpl_stmt_max s.conn) h)

  -- What the arrays hold is what was allocated.
  alloc_stmts-own :
      (names : List Statement) (s : Odbc Conn) (m : Statement)
      → (s.pools m ≡ s.issued m) ⊎ (any (same m) names ≡ true)
      → (alloc_stmts d names s).1.pools m ≡ (alloc_stmts d names s).1.issued m
  unfolding alloc_stmts
  alloc_stmts-own [] s m (inl e) = e
  alloc_stmts-own [] s m (inr e) = cc
  alloc_stmts-own (name ∷ names) s m h =
      let (slots, c) = alloc_slots d cpl_stmt_max s.conn in
      alloc_stmts-own names
        (record s {
          conn = c;
          pools = set_pool name slots s.pools;
          issued = set_pool name slots s.issued;
        })
        m
        (elim (Bool-cases (same m name)) [
          | inl here ↦ inl (rw here refl)
          | inr other ↦ elim h [ inl e ↦ inl (rw other e) | inr e ↦ inr (rw other at e) ]
        ])

  alloc_stmts-flags :
      (names : List Statement) (s : Odbc Conn)
      → ((alloc_stmts d names s).1.freed ≡ false)
        × ((alloc_stmts d names s).1.corrupted ≡ s.corrupted)
  unfolding alloc_stmts
  alloc_stmts-flags [] s = (refl, refl)
  alloc_stmts-flags (name ∷ names) s =
      let (slots, c) = alloc_slots d cpl_stmt_max s.conn in
      alloc_stmts-flags names (record s {
        conn = c;
        pools = set_pool name slots s.pools;
        issued = set_pool name slots s.issued;
      })

  -- What a reconnection relies on: the driver connects, and prepares the statements.
  pub record Reconnects : Type 0 where
    pub connects : (text : Text) (c : Conn) → sql_succeeded (d.sql_driver_connect text c).0 ≡ true
    pub prepares :
        (stmt : Option ℕ) (name : Statement) (c : Conn)
        → sql_succeeded (d.sql_prepare stmt name c).0 ≡ true

  module _ (r : Reconnects) where
    pub prepare_slots_all :
        (name : Statement) (slots : Slots) (c : Conn) → (prepare_slots d name slots c).0 ≡ true
    unfolding prepare_slots
    prepare_slots_all name [] c = refl
    prepare_slots_all name (stmt ∷ slots) c =
        rw (r.prepares stmt name c) (prepare_slots_all name slots (d.sql_prepare stmt name c).1)

    pub prepare_pools_all :
        (names : List Statement) (pools : Statement → Slots) (c : Conn)
        → (prepare_pools d names pools c).0 ≡ true
    unfolding prepare_pools
    prepare_pools_all [] pools c = refl
    prepare_pools_all (name ∷ names) pools c =
        rw (prepare_slots_all name (pools name) c)
          (prepare_pools_all names pools (prepare_slots d name (pools name) c).1)

    prepare_stmts_ok :
        (s : Odbc Conn) → IsIntact s → (prepare_stmts d s).0 ≡ true × IsIntact (prepare_stmts d s).1
    unfolding prepare_stmts
    prepare_stmts_ok s h = (
      prepare_pools_all prepared_statements s.pools s.conn,
      record { allocated = h.allocated; sound = h.sound; full = h.full; own = h.own },
    )

    set_up_ok :
        (s : Odbc Conn) → s.corrupted ≡ false → ((set_up d s).0 ≡ cpl_ok) × IsIntact (set_up d s).1
    unfolding set_up ◌>>=◌ ◌>>◌ finish_connect pure
    set_up_ok s e =
        let t = (alloc_stmts d all_statements s).1 in
        let flags = alloc_stmts-flags all_statements s in
        let intact : IsIntact t = record {
          allocated = flags.0;
          sound = flags.1 ∙ e;
          full = λ m. alloc_stmts-full all_statements s m (inr (listed m));
          own = λ m. alloc_stmts-own all_statements s m (inr (listed m));
        } in
        let prepared = prepare_stmts_ok t intact in rw prepared.0 (refl, prepared.1)

    pub connect_ok :
        (s : Odbc Conn)
        → s.corrupted ≡ false
        → ((cpl_odbc_connect d s).0 ≡ cpl_ok) × IsIntact (cpl_odbc_connect d s).1
    unfolding cpl_odbc_connect open_connection ◌>>=◌
    connect_ok s e =
        let c = d.sql_driver_connect s.connection_string s.conn in
        rw (r.connects s.connection_string s.conn) (set_up_ok (record s { conn = c.1 }) e)

    disconnect_sound :
        (s : Odbc Conn)
        → s.freed ≡ false
        → s.corrupted ≡ false
        → (cpl_odbc_disconnect d s).1.corrupted ≡ false
    unfolding cpl_odbc_disconnect cpl_odbc_free_statement_handles ◌>>=◌ ◌>>◌ driver pure
    disconnect_sound s f e = ground (arith, f, e)

    pub reconnect-IsIntact :
        (s : Odbc Conn)
        → s.freed ≡ false
        → s.corrupted ≡ false
        → ((cpl_odbc_reconnect d s).0 ≡ cpl_ok) × IsIntact (cpl_odbc_reconnect d s).1
    unfolding cpl_odbc_reconnect ◌>>=◌ ◌>>◌
    reconnect-IsIntact s f e = connect_ok (cpl_odbc_disconnect d s).1 (disconnect_sound s f e)

    -- With a handle out, of the old connection, that its pool has no room for.
    pub reconnect-Lent :
        (name : Statement) (stmt : Option ℕ)
        → Triple (Lent name stmt) (cpl_odbc_reconnect d) (λ code. Lent name stmt)
    reconnect-Lent name stmt s h =
        let t = (cpl_odbc_reconnect d s).1 in
        let intact = (reconnect-IsIntact s h.allocated h.sound).1 in
        record {
          allocated = intact.allocated;
          sound = intact.sound;
          full_again = λ m.
              ground (arith, intact.full m, put_back-full stmt (t.pools name) (intact.full name));
          own_again = λ m.
              pool_same name m (put_back stmt (t.pools name)) t.pools
                (put_back-same stmt (t.pools name) (intact.full name))
              ∙ intact.own m;
        }
