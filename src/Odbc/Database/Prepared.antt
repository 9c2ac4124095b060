-- ===== src/Odbc/Database/Prepared.antt =====
-- A connection prepares each handle for the statement of its pool.
use prov_cpl.Prelude.{
  ℕ, zero, suc, Bool, true, false, Bool-cases, inl, inr, ◌⊎◌, none, some, List, [], ◌∷◌, any, ◌==◌,
  ==_iff, ◌≡◌, sym, ap, subst, ◌∙◌, if◌then◌else◌, arith,
}
use prov_cpl.Odbc.Statements.{Statement, same}
use prov_cpl.Odbc.Statements.Numbers.{same_eq}
use prov_cpl.Odbc.Driver.{Driver}
use prov_cpl.Odbc.State.{Odbc, set_pool, cpl_stmt_max}
use prov_cpl.Odbc.Pool.{Slots}
use prov_cpl.Odbc.Connect.{alloc_slots, alloc_stmts}
use prov_cpl.Odbc.Database.{View}

module _ {Conn Timestamp Tables : Type 0} (d : Driver Conn Timestamp)
    (view : View Conn Timestamp Tables) (known : ℕ → Conn → Bool) where
  -- A handle that is allocated is new, and a handle is prepared for the last statement that it was
  -- prepared for.
  pub record Prepares : Type 0 where
    pub fresh : (c : Conn) → known (d.sql_alloc_handle c).0 c ≡ false
    pub allocates : (c : Conn) → known (d.sql_alloc_handle c).0 (d.sql_alloc_handle c).1 ≡ true
    pub keeps : (h : ℕ) (c : Conn) → known h c ≡ true → known h (d.sql_alloc_handle c).1 ≡ true
    pub prepares :
        (h : ℕ) (name : Statement) (c : Conn)
        → view.statement (some h) (d.sql_prepare (some h) name c).1 ≡ name
    pub prepares_one :
        (h other : ℕ) (name : Statement) (c : Conn)
        → (h == other) ≡ false
        → view.statement (some other) (d.sql_prepare (some h) name c).1
          ≡ view.statement (some other) c

  -- Every slot has a handle, that is known and that belongs to the statement.
  abbrev pub Owned : (ℕ → Statement) → Conn → Statement → Slots → Type 0
  Owned owner c m [] = Unit {0}
  Owned owner c m (none ∷ slots) = ⊥
  Owned owner c m (some h ∷ slots) = (owner h ≡ m) × (known h c ≡ true) × Owned owner c m slots

  -- The same of an array that is not empty.
  abbrev pub OwnedPool : (ℕ → Statement) → Conn → Statement → Slots → Type 0
  OwnedPool owner c m [] = ⊥
  OwnedPool owner c m (stmt ∷ slots) = Owned owner c m (stmt ∷ slots)

  record Grown (owner : ℕ → Statement) (c : Conn) (name : Statement) (result : Slots × Conn)
      : Type 0 where
    after : ℕ → Statement
    own : Owned after result.1 name result.0
    keep : (m : Statement) (slots : Slots) → Owned owner c m slots → Owned after result.1 m slots

  pub record Owners (s : Odbc Conn) : Type 0 where
    pub owner : ℕ → Statement
    pub owned : (m : Statement) → OwnedPool owner s.conn m (s.pools m)

  module _ (p : Prepares) where
    other_handle : (h : ℕ) (c : Conn) → known h c ≡ true → (h == (d.sql_alloc_handle c).0) ≡ false
    other_handle h c e = elim (Bool-cases (h == (d.sql_alloc_handle c).0)) [
      | inl here ↦
          let clash : known h c ≡ false =
            ap (λ x. known x c) ((==_iff h (d.sql_alloc_handle c).0).0 here) ∙ p.fresh c in
          cc
      | inr other ↦ other
    ]

    grow :
        (owner : ℕ → Statement) (c : Conn) (name m : Statement) (slots : Slots)
        → Owned owner c m slots
        → Owned
            (λ h. if h == (d.sql_alloc_handle c).0 then name else owner h)
            (d.sql_alloc_handle c).1
            m
            slots
    grow owner c name m [] o = tt
    grow owner c name m (none ∷ slots) o = elim o [ ]
    grow owner c name m (some h ∷ slots) (mine, there, o) =
        (rw (other_handle h c there) mine, p.keeps h c there, grow owner c name m slots o)

    slots-Grown :
        (n : ℕ) (owner : ℕ → Statement) (c : Conn) (name : Statement)
        → Grown owner c name (alloc_slots d n c)
    unfolding alloc_slots
    slots-Grown zero owner c name = record { after = owner; own = tt; keep = λ m slots o. o }
    slots-Grown (suc n) owner c name =
        let (new, there) = d.sql_alloc_handle c in
        let owner_then : ℕ → Statement = λ h. if h == new then name else owner h in
        let rest = slots-Grown n owner_then there name in
        let first : owner_then new ≡ name = ground arith in
        let mine = rest.keep name (some new ∷ []) (first, p.allocates c, tt) in
        record {
          after = rest.after;
          own = (mine.0, mine.1, rest.own);
          keep = λ m slots o. rest.keep m slots (grow owner c name m slots o);
        }

    -- A pool of the statement that is allocated, and the others.
    set_pool-Owned :
        (owner : ℕ → Statement) (c : Conn) (name m : Statement) (slots old : Slots)
        → same m name ≡ true
        → OwnedPool owner c name slots
        → OwnedPool owner c m (if same m name then slots else old)
    set_pool-Owned owner c name m slots old e o =
        rw e (subst (λ x. OwnedPool owner c x slots) (sym (same_eq m name e)) o)

    keep_pool :
        (owner : ℕ → Statement) (c : Conn) (name : Statement) (result : Slots × Conn)
        (g : Grown owner c name result) (m : Statement) (slots : Slots)
        → OwnedPool owner c m slots
        → OwnedPool g.after result.1 m slots
    keep_pool owner c name result g m [] o = elim o [ ]
    keep_pool owner c name result g m (stmt ∷ slots) o = g.keep m (stmt ∷ slots) o

    filled :
        (owner : ℕ → Statement) (c : Conn) (name : Statement)
        → let g = slots-Grown cpl_stmt_max owner c name in
          let (slots, after) = alloc_slots d cpl_stmt_max c in OwnedPool g.after after name slots
    unfolding slots-Grown alloc_slots
    filled owner c name = (slots-Grown cpl_stmt_max owner c name).own

    pub stmts-Owners :
        (names : List Statement) (s : Odbc Conn) (owner : ℕ → Statement)
        → ((m : Statement) → (OwnedPool owner s.conn m (s.pools m)) ⊎ (any (same m) names ≡ true))
        → Owners (alloc_stmts d names s).1
    unfolding alloc_stmts
    stmts-Owners [] s owner h = record {
      owner = owner;
      owned = λ m. elim (h m) [ inl o ↦ o | inr e ↦ cc ];
    }
    stmts-Owners (name ∷ names) s owner h =
        let (slots, c) = alloc_slots d cpl_stmt_max s.conn in
        let g = slots-Grown cpl_stmt_max owner s.conn name in
        stmts-Owners names
          (record s {
            conn = c;
            pools = set_pool name slots s.pools;
            issued = set_pool name slots s.issued;
          })
          g.after
          λ m. elim (Bool-cases (same m name)) [
            | inl here ↦
                inl (
                  set_pool-Owned g.after c name m slots (s.pools m) here (filled owner s.conn name))
            | inr other ↦ elim (h m) [
              | inl o ↦ inl (rw other (keep_pool owner s.conn name (slots, c) g m (s.pools m) o))
              | inr e ↦ inr (rw other at e)
            ]
          ]
