-- ===== src/Odbc/Pool/Laws.antt =====
-- What the statement pools give and take back.
use prov_cpl.Prelude.{ℕ, suc, ◌+◌, [], ◌∷◌, none, some, ◌≡◌, refl, arith, ap, ◌==◌, if◌then◌else◌}
use prov_cpl.Odbc.Pool.{Slots, take_first, cpl_acquire_stmt, cpl_release_stmt}

-- How often a handle stands in the slots, and how many slots are NULL.
abbrev pub copies : ℕ → Slots → ℕ
copies h [] = 0
copies h (none ∷ slots) = copies h slots
copies h (some g ∷ slots) = (if g == h then 1 else 0) + copies h slots

abbrev pub nulls : Slots → ℕ
nulls [] = 0
nulls (none ∷ slots) = suc (nulls slots)
nulls (some g ∷ slots) = nulls slots

take_first-copies :
    (slots : Slots) (h g : ℕ)
    → (take_first slots).0 ≡ some h
    → (copies g slots ≡ copies g (take_first slots).1 + (if g == h then 1 else 0))
      × (nulls (take_first slots).1 ≡ suc (nulls slots))
unfolding take_first
take_first-copies [] h g e = cc
take_first-copies (some x ∷ slots) h g e = ground arith
take_first-copies (none ∷ slots) h g e = ground (arith, take_first-copies slots h g e)

pub no_nulls_release : (slots : Slots) (h : ℕ) → nulls slots ≡ 0 → cpl_release_stmt slots h ≡ slots
unfolding cpl_release_stmt
no_nulls_release [] h e = refl
no_nulls_release (none ∷ slots) h e = absurd (omega arith)
no_nulls_release (some x ∷ slots) h e = ap (λ s. some x ∷ s) (no_nulls_release slots h e)

-- What a call that gave a handle did.
acquired :
    (sem : ℕ) (slots : Slots) (h : ℕ) (left : Slots)
    → cpl_acquire_stmt sem slots ≡ some (some h, left)
    → ((take_first slots).0 ≡ some h) × ((take_first slots).1 ≡ left)
unfolding cpl_acquire_stmt
acquired sem slots h left e = ground arith

-- An acquired handle was in the pool, and leaves it once; nothing else changes.
pub acquire-copies :
    (sem : ℕ) (slots : Slots) (h g : ℕ) (left : Slots)
    → cpl_acquire_stmt sem slots ≡ some (some h, left)
    → (copies g slots ≡ copies g left + (if g == h then 1 else 0))
      × (nulls left ≡ suc (nulls slots))
acquire-copies sem slots h g left e =
    let (first, rest) = acquired sem slots h left e in
    rw (← rest) (take_first-copies slots h g first)

-- Releasing a handle puts it into every slot that is NULL.
pub release-copies :
    (slots : Slots) (h : ℕ)
    → (copies h (cpl_release_stmt slots h) ≡ copies h slots + nulls slots)
      × (nulls (cpl_release_stmt slots h) ≡ 0)
unfolding cpl_release_stmt
release-copies [] h = ground arith
release-copies (none ∷ slots) h = ground (arith, release-copies slots h)
release-copies (some g ∷ slots) h = ground (arith, release-copies slots h)

-- One handle at a time: from a full pool, release undoes acquire.
pub release-acquire :
    (sem h : ℕ) (slots left : Slots)
    → nulls slots ≡ 0
    → cpl_acquire_stmt sem slots ≡ some (some h, left)
    → cpl_release_stmt left h ≡ slots
unfolding take_first cpl_release_stmt
release-acquire sem h [] left full e =
    let none_there = (acquired sem [] h left e).0 in cc none_there
release-acquire sem h (none ∷ slots) left full e = absurd (omega arith)
release-acquire sem h (some x ∷ slots) left full e =
    let (first, rest) = acquired sem (some x ∷ slots) h left e in
    rw (← rest) (ground (arith, first, no_nulls_release slots h full))

-- Two users at a time: after the first handle comes back, the pool gives that handle out twice, and
-- has lost the second.
pub release_duplicates :
    (sem a b : ℕ) (rest : Slots)
    → nulls rest ≡ 0
    → let slots = cpl_release_stmt (none ∷ none ∷ rest) a in
      (cpl_acquire_stmt (suc sem) (some a ∷ some b ∷ rest) ≡ some (some a, none ∷ some b ∷ rest))
      × (cpl_acquire_stmt (suc sem) (none ∷ some b ∷ rest) ≡ some (some b, none ∷ none ∷ rest))
      × (cpl_acquire_stmt (suc sem) slots ≡ some (some a, none ∷ some a ∷ rest))
      × (cpl_acquire_stmt (suc sem) (none ∷ some a ∷ rest) ≡ some (some a, none ∷ none ∷ rest))
unfolding cpl_acquire_stmt cpl_release_stmt
release_duplicates sem a b rest full =
    (ground arith, ground arith, rw (no_nulls_release rest a full) (ground arith), ground arith)
