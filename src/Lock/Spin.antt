-- ===== src/Lock/Spin.antt =====
-- `cpl_lock` and `cpl_unlock` of cpl-standalone/cpl-lock.cpp, run by any number of threads. Each step
-- is one atomic access to the lock word by one thread; a schedule is the list of the threads that step.
pub mod Exclusion
use prov_cpl.Prelude.{
  ℕ, zero, suc, List, [], ◌∷◌, Option, none, some, if◌then◌else◌, ◌==◌, get_elem?, set,
}

-- Where a thread stands: outside, before `__sync_lock_test_and_set`, in the inner `while (*lock)`, or
-- between `cpl_lock` and `cpl_unlock`.
pub data Place : Type 0 where
  outside testing spinning holding : Place

pub record Lock : Type 0 where
  pub word : ℕ
  pub places : List Place

-- The next access of a thread: the new lock word, and where the thread then stands.
unfoldable pub access : ℕ → Place → ℕ × Place
-- calls `cpl_lock`
access word outside = (word, testing)
-- `while (__sync_lock_test_and_set(lock, 1))`
access word testing = (1, if word == 0 then holding else spinning)
-- `while (*lock)`
access word spinning = (word, if word == 0 then testing else spinning)
-- `__sync_lock_release(lock)` of `cpl_unlock`
access word holding = (0, outside)

-- One step of the thread with this number; a number that no thread has does nothing.
unfoldable pub step : ℕ → Lock → Lock
step i l = elim (get_elem? l.places i) [
  | none ↦ l
  | some place ↦
      let (word, after) = access l.word place in
      record { word = word; places = set l.places i after }
]

unfoldable pub run : List ℕ → Lock → Lock
run [] l = l
run (i ∷ schedule) l = run schedule (step i l)

-- All threads outside, and the word released.
abbrev all_outside : ℕ → List Place
all_outside zero = []
all_outside (suc n) = outside ∷ all_outside n

unfoldable pub fresh : ℕ → Lock
fresh n = record { word = 0; places = all_outside n }
