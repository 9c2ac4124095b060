-- ===== src/Odbc/Database/Created.antt =====
-- A backend that was created serves.
use prov_cpl.Prelude.{
  ℕ, ℤ, Text, Bool, true, false, Bool-cases, inl, inr, ◌⊎◌, Option, none, some, List, [], ◌∷◌, any,
  ◌==◌, ==_iff, ◌≡◌, refl, sym, ap, subst, ◌∙◌,
}
use prov_cpl.Codes.{cpl_ok}
use prov_cpl.Odbc.Statements.{Statement, create_session, same, all_statements, prepared_statements}
use prov_cpl.Odbc.Statements.Numbers.{same_eq}
use prov_cpl.Odbc.Driver.{Driver}
use prov_cpl.Odbc.State.{Odbc, ◌>>=◌, ◌>>◌, pure}
use prov_cpl.Odbc.Pool.{Slots, take_first}
use prov_cpl.Odbc.Intact.{same_refl}
use prov_cpl.Odbc.Intact.Reconnect.{
  Reconnects, listed, connect_ok, prepare_slots_all, prepare_pools_all,
}
use prov_cpl.Odbc.Connect.{
  alloc_stmts, prepare_slots, prepare_pools, prepare_stmts, finish_connect, set_up, open_connection,
  cpl_odbc_connect,
}
use prov_cpl.Odbc.Create.{allocated_odbc, cpl_create_odbc_backend}
use prov_cpl.Odbc.Database.{View, Works, Seen}
use prov_cpl.Odbc.Database.Prepared.{Prepares, Owned, OwnedPool, stmts-Owners}
use prov_cpl.Odbc.Database.Sessions.Serving.{IsServing, acquire_handle, sessions_answer}
use prov_cpl.Odbc.Database.Sessions.{Demand, serve_all, answer_all}
use prov_cpl.Odbc.Database.Quiet.{KeepsStatements}
use prov_cpl.Odbc.Database.Calls.{ArePrepared}

among_prepared : (m : Statement) → any (same m) prepared_statements ≡ true
among_prepared create_session = refl
among_prepared _ = refl

-- A backend was given out, and it answered these calls as the statements do on the tables that it was
-- created over.
abbrev pub Answered :
    {Conn Timestamp Tables : Type 0}
    → Driver Conn Timestamp
    → View Conn Timestamp Tables
    → List Demand
    → ℤ × Option (Odbc Conn)
    → Type 0
Answered d view rs (code, none) = ⊥
Answered d view rs (code, some odbc) =
    let t = view.tables odbc.conn in
    (code ≡ cpl_ok)
    × Seen view (answer_all view rs t).0 (answer_all view rs t).1 (serve_all d rs odbc)
    × IsServing view (serve_all d rs odbc).1

module _ {Conn Timestamp Tables : Type 0} (d : Driver Conn Timestamp)
    (view : View Conn Timestamp Tables) (known : ℕ → Conn → Bool) where
  distinct :
      (owner : ℕ → Statement) (h other : ℕ) (name m : Statement)
      → owner h ≡ name
      → owner other ≡ m
      → same m name ≡ false
      → (h == other) ≡ false
  distinct owner h other name m e f g = elim (Bool-cases (h == other)) [
    | inl here ↦
        let equal : m ≡ name = sym f ∙ sym (ap owner ((==_iff h other).0 here)) ∙ e in
        let both : same m name ≡ true = ap (same m) (sym equal) ∙ same_refl m in cc
    | inr apart ↦ apart
  ]

  module _ (r : Reconnects d) (p : Prepares d view known) where
    -- Preparing the handles of one pool leaves those of another.
    slots_leave :
        (owner : ℕ → Statement) (before : Conn) (name m : Statement) (slots : Slots) (h : ℕ)
        (c : Conn)
        → Owned d view known owner before name slots
        → owner h ≡ m
        → same m name ≡ false
        → view.statement (some h) (prepare_slots d name slots c).1 ≡ view.statement (some h) c
    unfolding prepare_slots
    slots_leave owner before name m [] h c o f g = refl
    slots_leave owner before name m (none ∷ slots) h c o f g = elim o [ ]
    slots_leave owner before name m (some other ∷ slots) h c (mine, there, o) f g =
        rw (r.prepares (some other) name c) (
          slots_leave owner before name m slots h (d.sql_prepare (some other) name c).1 o f g
          ∙ p.prepares_one other h name c (distinct owner other h name m mine f g))

    stays_one :
        (other h : ℕ) (name : Statement) (c : Conn)
        → view.statement (some h) c ≡ name
        → view.statement (some h) (d.sql_prepare (some other) name c).1 ≡ name
    stays_one other h name c e = elim (Bool-cases (other == h)) [
      | inl here ↦
          subst (λ x. view.statement (some x) (d.sql_prepare (some other) name c).1 ≡ name)
            ((==_iff other h).0 here) (p.prepares other name c)
      | inr apart ↦ p.prepares_one other h name c apart ∙ e
    ]

    slots_stay :
        (owner : ℕ → Statement) (before : Conn) (name : Statement) (slots : Slots) (h : ℕ)
        (c : Conn)
        → Owned d view known owner before name slots
        → view.statement (some h) c ≡ name
        → view.statement (some h) (prepare_slots d name slots c).1 ≡ name
    unfolding prepare_slots
    slots_stay owner before name [] h c o e = e
    slots_stay owner before name (none ∷ slots) h c o e = elim o [ ]
    slots_stay owner before name (some other ∷ slots) h c (mine, there, o) e =
        rw (r.prepares (some other) name c) (
          slots_stay owner before name slots h (d.sql_prepare (some other) name c).1 o
            (stays_one other h name c e))

    -- The first handle of a pool, after its pool was met and after another one was.
    pool_prepared :
        (owner : ℕ → Statement) (before : Conn) (name : Statement) (slots : Slots) (c : Conn)
        → OwnedPool d view known owner before name slots
        → view.statement (take_first slots).0 (prepare_slots d name slots c).1 ≡ name
    unfolding prepare_slots take_first
    pool_prepared owner before name [] c o = elim o [ ]
    pool_prepared owner before name (none ∷ slots) c o = elim o [ ]
    pool_prepared owner before name (some h ∷ slots) c (mine, there, o) =
        rw (r.prepares (some h) name c) (
          slots_stay owner before name slots h (d.sql_prepare (some h) name c).1 o
            (p.prepares h name c))

    pool_left :
        (owner : ℕ → Statement) (before : Conn) (name m : Statement) (slots mine : Slots) (c : Conn)
        → OwnedPool d view known owner before name slots
        → OwnedPool d view known owner before m mine
        → same m name ≡ false
        → view.statement (take_first mine).0 (prepare_slots d name slots c).1
          ≡ view.statement (take_first mine).0 c
    unfolding take_first
    pool_left owner before name m [] mine c o q g = elim o [ ]
    pool_left owner before name m (x ∷ slots) [] c o q g = elim q [ ]
    pool_left owner before name m (x ∷ slots) (none ∷ mine) c o q g = elim q [ ]
    pool_left owner before name m (x ∷ slots) (some h ∷ mine) c o q g =
        slots_leave owner before name m (x ∷ slots) h c o q.0 g

    pools_prepared :
        (owner : ℕ → Statement) (before : Conn) (pools : Statement → Slots) (names : List Statement)
        (m : Statement) (c : Conn)
        → ((n : Statement) → OwnedPool d view known owner before n (pools n))
        → (view.statement (take_first (pools m)).0 c ≡ m) ⊎ (any (same m) names ≡ true)
        → view.statement (take_first (pools m)).0 (prepare_pools d names pools c).1 ≡ m
    unfolding prepare_pools
    pools_prepared owner before pools [] m c o (inl e) = e
    pools_prepared owner before pools [] m c o (inr e) = cc
    pools_prepared owner before pools (name ∷ names) m c o e =
        let c' = (prepare_slots d name (pools name) c).1 in
        rw (prepare_slots_all d r name (pools name) c) (
          pools_prepared owner before pools names m c' o (elim (Bool-cases (same m name)) [
            | inl here ↦ inl (
                subst (λ n. view.statement (take_first (pools n)).0 c' ≡ n)
                  (sym (same_eq m name here))
                  (pool_prepared owner before name (pools name) c (o name)))
            | inr other ↦ elim e [
              | inl already ↦ inl (
                  pool_left owner before name m (pools name) (pools m) c (o name) (o m) other
                  ∙ already)
              | inr later ↦ inr (rw other at later)
            ]
          ]))

    set_up-ArePrepared : (s : Odbc Conn) → ArePrepared view (set_up d s).1
    unfolding set_up prepare_stmts finish_connect pure ◌>>=◌ ◌>>◌
    set_up-ArePrepared s name =
        let t = (alloc_stmts d all_statements s).1 in
        let owners =
          stmts-Owners d view known p all_statements s (λ h. create_session)
            (λ m. inr (listed m)) in
        rw (prepare_pools_all d r prepared_statements t.pools t.conn) (
          ap (λ h. view.statement h (prepare_pools d prepared_statements t.pools t.conn).1)
            (acquire_handle view name _)
          ∙ pools_prepared owners.owner t.conn t.pools prepared_statements name t.conn owners.owned
              (inr (among_prepared name)))

    connect-IsServing :
        (s : Odbc Conn) → s.corrupted ≡ false → IsServing view (cpl_odbc_connect d s).1
    unfolding cpl_odbc_connect open_connection ◌>>=◌
    connect-IsServing s e = record {
      full = (connect_ok d r s e).1.full;
      prepared =
          let c = d.sql_driver_connect s.connection_string s.conn in
          rw (r.connects s.connection_string s.conn) (set_up-ArePrepared (record s { conn = c.1 }));
    }

    -- Over a driver that connects, prepares and does not fail, whose handles are new when they are
    -- allocated and stay prepared for the last statement that they were prepared for,
    -- `cpl_create_odbc_backend` gives out a backend, and any list of calls on it that create, look up,
    -- relate and set properties and prefixes answers as the list of their statements does on the
    -- tables alone, leaves the tables as these statements leave them, and leaves every handle in its
    -- pool and prepared.
    pub created_answers :
        Works d view
        → KeepsStatements d view
        → (rs : List Demand) (connection_string : Text) (memory : ℕ) (c : Conn)
          (out : Option (Odbc Conn))
        → Answered d view rs (cpl_create_odbc_backend d connection_string memory c out)
    unfolding cpl_create_odbc_backend
    created_answers w k rs connection_string memory c out =
        let s = allocated_odbc connection_string memory c in
        let ok = (connect_ok d r s refl).0 in
        let served =
          sessions_answer d view w k rs (cpl_odbc_connect d s).1 (connect-IsServing s refl) in
        rw ok (refl, served.0, served.1)
