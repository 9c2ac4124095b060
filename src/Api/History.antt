-- ===== src/Api/History.antt =====
-- Whole histories of the library in one process: attach, detach and calls, in any order.
use prov_cpl.Prelude.{
  ℕ, zero, suc, ℤ, Option, none, ◌≡◌, ◌≢◌, inl, inr, refl, true, false, List, [], ◌∷◌, arith,
  Bool-cases, Text, Text,
}
use prov_cpl.Api.Effect.{State, Exit, fault}
use prov_cpl.Api.Backend.{Backend}
use prov_cpl.Api.Numbers.{Numbers}
use prov_cpl.Api.Lifecycle.{cpl_attach, cpl_detach}
use prov_cpl.Api.Call.{Call, create_object, lookup_or_create_object, observe, perform}
use prov_cpl.Api.Guards.{perform-uninitialized}
use prov_cpl.Api.Ready.{IsAttached, lookup_or_create_object-IsClean, lookup_or_create_object_waits}

pub data Event (Db Ctx Double : Type 0) : Type 0 where
  attaches : Option Db → Option ℕ → Event Db Ctx Double
  detaches : Event Db Ctx Double
  calls : Call Ctx Double → Event Db Ctx Double

-- The flag, the backend pointer and the semaphore handle agree.
pub record IsConsistent {Db : Type 0} (s : State Db) : Type 0 where
  pub attached : s.initialized ≡ true → s.backend ≢ none
  pub opened : s.initialized ≡ true → s.sem_open ≡ true
  pub detached : s.initialized ≡ false → s.backend ≡ none

-- The static variables as the program starts, over a semaphore with some value.
unfoldable pub startup : (Db : Type 0) → ℕ → State Db
startup Db value = record {
  initialized = false;
  backend = none;
  session = 0;
  locked = false;
  sem_open = false;
  sem_value = value;
}

module _ {Db Ctx Double : Type 0} (vt : Backend Db Ctx) (numbers : Numbers Double) where
  unfoldable pub step : Event Db Ctx Double → State Db → Exit × State Db
  step (attaches db answer) s = observe (cpl_attach db answer s)
  step detaches s = observe (cpl_detach vt s)
  step (calls c) s = perform vt numbers c s

  unfoldable pub run : List (Event Db Ctx Double) → State Db → State Db
  run [] s = s
  run (e ∷ es) s = run es (step e s).1

  lookup_or_create-IsConsistent :
      (p n : Option Text) (k : ℤ) (o : Option ℕ) (s : State Db) (v : ℕ)
      → s.sem_value ≡ v
      → IsAttached s
      → ((perform vt numbers (lookup_or_create_object p n k o) s).0 ≢ fault)
        × IsConsistent (perform vt numbers (lookup_or_create_object p n k o) s).1
  unfolding perform
  lookup_or_create-IsConsistent p n k o s zero e a =
      rw (lookup_or_create_object_waits vt p n k o s a e) ((λ f. cc), ground arith)
  lookup_or_create-IsConsistent p n k o s (suc v) e a =
      ground (arith, lookup_or_create_object-IsClean vt p n k o s a)

  perform_off-IsConsistent :
      (c : Call Ctx Double) (s : State Db)
      → s.initialized ≡ false
      → IsConsistent s
      → ((perform vt numbers c s).0 ≢ fault) × IsConsistent (perform vt numbers c s).1
  perform_off-IsConsistent c s off h = rw (perform-uninitialized vt numbers c s off) ((λ f. cc), h)

  perform-IsConsistent :
      (c : Call Ctx Double) (s : State Db)
      → IsConsistent s
      → ((perform vt numbers c s).0 ≢ fault) × IsConsistent (perform vt numbers c s).1
  unfolding perform
  perform-IsConsistent (create_object p n k o) s h = ground arith
  perform-IsConsistent (lookup_or_create_object p n k o) s h = elim (Bool-cases s.initialized) [
    | inl on ↦ lookup_or_create-IsConsistent p n k o s s.sem_value refl (ground arith)
    | inr off ↦ perform_off-IsConsistent (lookup_or_create_object p n k o) s off h
  ]
  perform-IsConsistent c s h = ground arith

  step-IsConsistent :
      (e : Event Db Ctx Double) (s : State Db)
      → IsConsistent s
      → ((step e s).0 ≢ fault) × IsConsistent (step e s).1
  unfolding step cpl_attach cpl_detach
  step-IsConsistent (attaches db answer) s h = ground arith
  step-IsConsistent detaches s h = ground arith
  step-IsConsistent (calls c) s h = perform-IsConsistent c s h

  run-IsConsistent :
      (es : List (Event Db Ctx Double)) (s : State Db) → IsConsistent s → IsConsistent (run es s)
  unfolding run
  run-IsConsistent [] s h = h
  run-IsConsistent (e ∷ es) s h = run-IsConsistent es (step e s).1 (step-IsConsistent e s h).1

  -- Whatever came before since the program started, no attach, detach or call dereferences a NULL
  -- backend pointer or uses a semaphore that is not open, and the three variables that say whether
  -- the library is attached agree.
  pub history_no_fault :
      (es : List (Event Db Ctx Double)) (e : Event Db Ctx Double) (value : ℕ)
      → ((step e (run es (startup Db value))).0 ≢ fault) × IsConsistent (run es (startup Db value))
  unfolding startup
  history_no_fault es e value =
      let h = run-IsConsistent es (startup Db value) (ground arith) in
      ((step-IsConsistent e _ h).0, h)
