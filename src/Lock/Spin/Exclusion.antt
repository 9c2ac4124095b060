-- ===== src/Lock/Spin/Exclusion.antt =====
-- Mutual exclusion by the lock word.
use prov_cpl.Prelude.{
  ℕ, zero, suc, ◌+◌, ◌-◌, ◌≤◌, List, [], ◌∷◌, some, ◌≡◌, refl, ap, inl, inr, arith, get_elem?, set,
  Option-cases,
}
use prov_cpl.Lock.Spin.{
  Place, outside, testing, spinning, holding, Lock, access, step, run, all_outside, fresh,
}

abbrev holds : Place → ℕ
holds outside = 0
holds testing = 0
holds spinning = 0
holds holding = 1

-- How many threads are between `cpl_lock` and `cpl_unlock`.
abbrev pub holders : List Place → ℕ
holders [] = 0
holders (p ∷ ps) = holds p + holders ps

holders-set :
    (ps : List Place) (i : ℕ) (old new : Place)
    → get_elem? ps i ≡ some old
    → holders (set ps i new) + holds old ≡ holders ps + holds new
holders-set [] i old new e = cc
holders-set (p ∷ ps) zero old new e = let same : p ≡ old = cc in omega (arith, ap holds same)
holders-set (p ∷ ps) (suc i) old new e = omega (arith, holders-set ps i old new e)

held : (ps : List Place) (i : ℕ) (p : Place) → get_elem? ps i ≡ some p → holds p ≤ holders ps
held [] i p e = cc
held (q ∷ ps) zero p e = let same : q ≡ p = cc in omega (arith, ap holds same)
held (q ∷ ps) (suc i) p e = omega (arith, held ps i p e)

-- The word counts the holders, and is 0 or 1.
pub record IsExclusive (l : Lock) : Type 0 where
  pub counted : holders l.places ≡ l.word
  pub bit : l.word ≤ 1

access-counts :
    (word : ℕ) (place : Place) (others : ℕ)
    → others + holds place ≡ word
    → word ≤ 1
    → (others + holds (access word place).1 ≡ (access word place).0) × ((access word place).0 ≤ 1)
unfolding access
access-counts word outside others e b = ground arith
access-counts word testing others e b = ground arith
access-counts word spinning others e b = ground arith
access-counts word holding others e b = ground arith

step-IsExclusive : (i : ℕ) (l : Lock) → IsExclusive l → IsExclusive (step i l)
unfolding step
step-IsExclusive i l h = elim (Option-cases (get_elem? l.places i)) [
  | inl e ↦ rw (e, step) h
  | inr (place, e) ↦
      let after = (access l.word place).1 in
      let moved = holders-set l.places i place after e in
      let others = holders l.places - holds place in
      rw (e, step)
        (let counts =
            access-counts l.word place others
              (ground (arith, h.counted, moved, held l.places i place e)) h.bit in
          record {
            counted = ground (arith, counts.0, moved, held l.places i place e);
            bit = counts.1;
          })
]

run-IsExclusive : (schedule : List ℕ) (l : Lock) → IsExclusive l → IsExclusive (run schedule l)
unfolding run
run-IsExclusive [] l h = h
run-IsExclusive (i ∷ schedule) l h = run-IsExclusive schedule (step i l) (step-IsExclusive i l h)

holders-all_outside : (n : ℕ) → holders (all_outside n) ≡ 0
holders-all_outside zero = refl
holders-all_outside (suc n) = omega (arith, holders-all_outside n)

-- However many threads run and however their accesses interleave, at most one is between `cpl_lock`
-- and `cpl_unlock`, and the lock word is 1 exactly while there is one.
pub mutual_exclusion :
    (n : ℕ) (schedule : List ℕ)
    → (holders (run schedule (fresh n)).places ≤ 1)
      × (holders (run schedule (fresh n)).places ≡ (run schedule (fresh n)).word)
unfolding fresh
mutual_exclusion n schedule =
    let start : IsExclusive (record { word = 0; places = all_outside n }) = record {
      counted = holders-all_outside n;
      bit = omega arith;
    } in
    let h = run-IsExclusive schedule _ start in (omega (arith, h.counted, h.bit), h.counted)
