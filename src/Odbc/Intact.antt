-- ===== src/Odbc/Intact.antt =====
-- A backend whose statements are all in their pools, and how the parts of a call keep it so.
pub mod Reconnect
pub mod Parts
pub mod Returns
pub mod Calls
pub mod Backend
use prov_cpl.Prelude.{
  ℕ, ℤ, Option, none, some, Bool-cases, inl, inr, ◌∙◌, Bool, true, false, ◌≡◌, refl, ap, sym, subst,
  arith, if◌then◌else◌, ◌==◌, [], ◌∷◌,
}
use prov_cpl.Odbc.Statements.{Statement, same}
use prov_cpl.Odbc.Statements.Numbers.{same_eq}
use prov_cpl.Odbc.Pool.{Slots, take_first, cpl_acquire_stmt, cpl_release_stmt}
use prov_cpl.Odbc.Pool.Laws.{nulls, no_nulls_release}
use prov_cpl.Odbc.State.{
  Odbc, O, ◌>>=◌, ◌>>◌, pure, driver, set_pool, put_back, stmt_acquire, stmt_release,
}

-- No array of handles is freed, nothing has gone wrong, and every pool has the handles that were
-- allocated for it, each in its slot, with no slot empty.
pub record IsIntact {Conn : Type 0} (s : Odbc Conn) : Type 0 where
  pub allocated : s.freed ≡ false
  pub sound : s.corrupted ≡ false
  pub full : (m : Statement) → nulls (s.pools m) ≡ 0
  pub own : (m : Statement) → s.pools m ≡ s.issued m

-- The same with one handle out: putting it back would fill its pool.
pub record Lent {Conn : Type 0} (name : Statement) (stmt : Option ℕ) (s : Odbc Conn) : Type 0 where
  pub allocated : s.freed ≡ false
  pub sound : s.corrupted ≡ false
  pub full_again :
      (m : Statement) → nulls (set_pool name (put_back stmt (s.pools name)) s.pools m) ≡ 0
  pub own_again :
      (m : Statement) → set_pool name (put_back stmt (s.pools name)) s.pools m ≡ s.issued m

-- From a state with the first property a part of a call gives a value and a state with the second.
abbrev pub Triple :
    {Conn A : Type 0} → (Odbc Conn → Type 0) → O Conn A → (A → Odbc Conn → Type 0) → Type 0
Triple {Conn} P m Q = (s : Odbc Conn) → P s → Q (m s).0 (m s).1

module _ {Conn A B : Type 0} where
  pub Triple-bind :
      (P : Odbc Conn → Type 0) (R : A → Odbc Conn → Type 0) (Q : B → Odbc Conn → Type 0)
      (m : O Conn A) (f : A → O Conn B)
      → Triple P m R
      → ((a : A) → Triple (R a) (f a) Q)
      → Triple P (m >>= f) Q
  unfolding ◌>>=◌
  Triple-bind P R Q m f hm hf s h = hf (m s).0 (m s).1 (hm s h)

  pub Triple-then :
      (P R : Odbc Conn → Type 0) (Q : B → Odbc Conn → Type 0) (m : O Conn A) (n : O Conn B)
      → Triple P m (λ a. R)
      → Triple R n Q
      → Triple P (m >> n) Q
  unfolding ◌>>◌
  Triple-then P R Q m n hm hn s h = hn (m s).1 (hm s h)

module _ {Conn A : Type 0} where
  pub Triple-if :
      (P : Odbc Conn → Type 0) (Q : A → Odbc Conn → Type 0) (b : Bool) (m n : O Conn A)
      → Triple P m Q
      → Triple P n Q
      → Triple P (if b then m else n) Q
  Triple-if P Q true m n hm hn = hm
  Triple-if P Q false m n hm hn = hn

  pub pure-Lent :
      (name : Statement) (stmt : Option ℕ) (a : A)
      → Triple {Conn = Conn} (Lent name stmt) (pure a) (λ b. Lent name stmt)
  unfolding pure
  pure-Lent name stmt a s h = h

  pub pure-IsIntact : (a : A) → Triple {Conn = Conn} IsIntact (pure a) (λ b. IsIntact)
  unfolding pure
  pure-IsIntact a s h = h

  -- The driver has no part in the pools.
  pub driver-Lent :
      (name : Statement) (stmt : Option ℕ) (f : Conn → A × Conn)
      → Triple (Lent name stmt) (driver f) (λ b. Lent name stmt)
  unfolding driver
  driver-Lent name stmt f s h = record {
    allocated = h.allocated;
    sound = h.sound;
    full_again = h.full_again;
    own_again = h.own_again;
  }

pub same_refl : (m : Statement) → same m m ≡ true
same_refl m = ground arith

pub take_first-put_back :
    (slots : Slots) → nulls slots ≡ 0 → put_back (take_first slots).0 (take_first slots).1 ≡ slots
unfolding take_first cpl_release_stmt
take_first-put_back [] e = refl
take_first-put_back (none ∷ slots) e = absurd (ground arith)
take_first-put_back (some h ∷ slots) e = ap (λ k. some h ∷ k) (no_nulls_release slots h e)

-- The pool that a handle came from is as it was when the handle is back, and so are the others.
pool_back :
    (name m : Statement) (pools : Statement → Slots)
    → nulls (pools name) ≡ 0
    → (if same m name
        then put_back (take_first (pools name)).0 (take_first (pools name)).1
        else pools m)
      ≡ pools m
pool_back name m pools e =
    let back = take_first-put_back (pools name) e in
    elim (Bool-cases (same m name)) [
      | inl here ↦ rw here (back ∙ ap pools (sym (same_eq m name here)))
      | inr other ↦ rw other refl
    ]

module _ {Conn : Type 0} where
  pub stmt_acquire-Lent :
      (name : Statement) → Triple {Conn = Conn} IsIntact (stmt_acquire name) (Lent name)
  unfolding stmt_acquire cpl_acquire_stmt
  stmt_acquire-Lent name s h = record {
    allocated = ground (arith, h.allocated);
    sound = ground (arith, h.allocated, h.sound);
    full_again = λ m. ground (
      arith,
      same_refl name,
      h.full m,
      h.full name,
      take_first-put_back (s.pools name) (h.full name),
    );
    own_again =
        λ m. ground (arith, same_refl name, pool_back name m s.pools (h.full name), h.own m);
  }

  pub stmt_release-IsIntact :
      (name : Statement) (stmt : Option ℕ)
      → Triple {Conn = Conn} (Lent name stmt) (stmt_release name stmt) (λ u. IsIntact)
  unfolding stmt_release
  stmt_release-IsIntact name stmt s h = record {
    allocated = ground (arith, h.allocated);
    sound = ground (arith, h.allocated, h.sound);
    full = h.full_again;
    own = λ m. ground (arith, h.allocated, h.own_again m);
  }
