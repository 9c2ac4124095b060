-- ===== src/Examples/Api.antt =====
-- The theorems on the public calls, applied.
use prov_cpl.Prelude.{ℕ, pos, none, some, false, ◌≡◌, ◌≢◌, codes, List, [], ◌∷◌, refl}
use prov_cpl.Codes.{cpl_ok, cpl_e_not_initialized, cpl_e_invalid_argument, cpl_e_platform_error}
use prov_cpl.Api.Effect.{returned, fault, blocked, stop, ending}
use prov_cpl.Api.Call.{Call, lookup_or_create_object, add_prefix, perform}
use prov_cpl.Api.Guards.{perform-uninitialized, perform-refused}
use prov_cpl.Api.Ready.{IsAttached}
use prov_cpl.Api.Lifecycle.{cpl_attach, cpl_detach}
use prov_cpl.Api.Lifecycle.Laws.{IsDetached, attach-IsDetached, early_return_keeps_lock}
use prov_cpl.Api.History.{
  Event, attaches, detaches, calls, IsConsistent, startup, step, run, history_no_fault,
}
use prov_cpl.Examples.Toys.{
  toy_backend, toy_numbers, detached_state, ready_state, detached_state-IsDetached,
  ready_state-IsReady,
}

-- An agent is looked up, and made if it is not there.
abbrev asked : Call (Unit {0}) ℕ
asked = lookup_or_create_object (some (codes "ex")) (some (codes "alice")) (pos 3) (some 0)

perform-uninitialized_example :
    perform toy_backend toy_numbers asked detached_state
    ≡ (returned cpl_e_not_initialized, detached_state)
perform-uninitialized_example =
    perform-uninitialized toy_backend toy_numbers asked detached_state refl

-- An IRI that is NULL.
abbrev no_iri : Call (Unit {0}) ℕ
no_iri = add_prefix 4 (some (codes "ex")) none

perform-refused_example :
    perform toy_backend toy_numbers no_iri ready_state
    ≡ (returned cpl_e_invalid_argument, ready_state)
perform-refused_example =
    perform-refused toy_backend toy_numbers no_iri ready_state ready_state-IsReady refl

-- A session, a second one that the system refuses a semaphore, and a call after it.
abbrev sessions : List (Event ℕ (Unit {0}) ℕ)
sessions = attaches (some 0) (some 1) ∷ calls asked ∷ detaches ∷ attaches (some 0) none ∷ []

history_no_fault_example :
    ((step toy_backend toy_numbers
        (calls asked)
        (run toy_backend toy_numbers sessions (startup ℕ 1))).0
      ≢ fault)
    × IsConsistent (run toy_backend toy_numbers sessions (startup ℕ 1))
history_no_fault_example = history_no_fault toy_backend toy_numbers sessions (calls asked) 1

attach-IsDetached_example :
    (let opened = cpl_attach (some 5) (some 0) detached_state in
      (ending opened.0 ≡ returned cpl_ok)
      × IsAttached opened.1
      × (opened.1.backend ≡ some 5)
      × (opened.1.locked ≡ false)
      × (opened.1.sem_value ≡ 0))
    × (let failed = cpl_attach (some 5) none detached_state in
        (ending failed.0 ≡ returned cpl_e_platform_error) × IsDetached failed.1)
attach-IsDetached_example = attach-IsDetached 5 0 detached_state detached_state-IsDetached

early_return_keeps_lock_example :
    let after_attach = (cpl_attach none (some 1) detached_state).1 in
    let after_detach = (cpl_detach toy_backend detached_state).1 in
    (ending (cpl_attach none (some 1) detached_state).0 ≡ returned cpl_e_invalid_argument)
    × (ending (cpl_detach toy_backend detached_state).0 ≡ returned cpl_e_not_initialized)
    × (cpl_attach (some 5) (some 1) after_attach ≡ (stop blocked, after_attach))
    × (cpl_detach toy_backend after_attach ≡ (stop blocked, after_attach))
    × (cpl_attach (some 5) (some 1) after_detach ≡ (stop blocked, after_detach))
    × (cpl_detach toy_backend after_detach ≡ (stop blocked, after_detach))
early_return_keeps_lock_example =
    early_return_keeps_lock toy_backend detached_state detached_state-IsDetached (some 5) (some 1)
