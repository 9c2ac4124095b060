-- ===== src/Api/Within/History.antt =====
-- The same for whole histories of the library.
use prov_cpl.Prelude.{false, none, some, ◌≡◌, List, [], ◌∷◌, arith}
use prov_cpl.Api.Effect.{State}
use prov_cpl.Api.Backend.{Backend}
use prov_cpl.Api.Numbers.{Numbers}
use prov_cpl.Api.Lifecycle.{cpl_attach, cpl_detach}
use prov_cpl.Api.History.{Event, attaches, detaches, calls, step, run}
use prov_cpl.Api.Within.{Within, IsKept, looks_up_null, perform-Within}

-- An event that a history may have: backends that are attached have the property, and NULL is not
-- looked up.
abbrev pub Fair : {Db Ctx Double : Type 0} → (Db → Type 0) → Event Db Ctx Double → Type 0
Fair I (attaches none answer) = Unit {0}
Fair I (attaches (some db) answer) = I db
Fair I detaches = Unit {0}
Fair I (calls c) = looks_up_null c ≡ false

abbrev pub AllFair : {Db Ctx Double : Type 0} → (Db → Type 0) → List (Event Db Ctx Double) → Type 0
AllFair I [] = Unit {0}
AllFair I (e ∷ es) = Fair I e × AllFair I es

module _ {Db Ctx Double : Type 0} (vt : Backend Db Ctx) (numbers : Numbers Double) (I : Db → Type 0)
    (kept : IsKept vt I) where
  step-Within :
      (e : Event Db Ctx Double) (s : State Db)
      → Fair I e
      → Within I s
      → Within I (step vt numbers e s).1
  unfolding step cpl_attach cpl_detach
  step-Within (attaches none answer) s f h = ground arith
  step-Within (attaches (some db) answer) s f h = ground arith
  step-Within detaches s f h = ground arith
  step-Within (calls c) s f h = perform-Within vt I kept numbers c s f h

  pub run-Within :
      (es : List (Event Db Ctx Double)) (s : State Db)
      → AllFair I es
      → Within I s
      → Within I (run vt numbers es s)
  unfolding run
  run-Within [] s f h = h
  run-Within (e ∷ es) s f h = run-Within es (step vt numbers e s).1 f.1 (step-Within e s f.0 h)
