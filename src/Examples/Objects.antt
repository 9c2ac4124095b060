-- ===== src/Examples/Objects.antt =====
-- The theorems on `cpl_lookup_or_create_object`, applied.
use prov_cpl.Prelude.{
  ℕ, suc, ℤ, pos, Text, codes, text_eq, text_eq_refl, eq_ℤ_iff, [], ◌∷◌, length, true, false, some,
  ◌≡◌, refl, arith,
}
use prov_cpl.Codes.{cpl_ok, cpl_is_ok}
use prov_cpl.Api.Effect.{State, go}
use prov_cpl.Api.Ready.{IsReady}
use prov_cpl.Api.Objects.{
  cpl_lookup_object, cpl_create_object, create_if_missing, cpl_lookup_or_create_object,
}
use prov_cpl.Api.Objects.Laws.{
  found_or_created, RemembersObjects, lookup_or_create_object_found, lookup_or_create_object_again,
}
use prov_cpl.Examples.Toys.{toy_backend, memory_backend, Rows, ready_state, ready_state-IsReady}

lookup_or_create_object_found_example :
    let (reply, after) =
      found_or_created toy_backend
        (codes "ex")
        (codes "alice")
        (pos 3)
        (some 0)
        (toy_backend.cpl_db_lookup_object 7 (codes "ex") (codes "alice") (pos 3)) in
    cpl_lookup_or_create_object toy_backend
      (some (codes "ex"))
      (some (codes "alice"))
      (pos 3)
      (some 0)
      ready_state
    ≡ (go reply, record ready_state { backend = some after })
lookup_or_create_object_found_example =
    lookup_or_create_object_found toy_backend (codes "ex") (codes "alice") (pos 3) (some 0) 7
      ready_state ready_state-IsReady refl

recalled :
    (db : Rows) (p n : Text) (k : ℤ) (code : ℤ) (id : ℕ) (db' : Rows)
    → memory_backend.cpl_db_create_object db p n k ≡ ((code, id), db')
    → cpl_is_ok code ≡ true
    → memory_backend.cpl_db_lookup_object db' p n k ≡ ((cpl_ok, id), db')
recalled db p n k code id db' e ok =
    let made : db' ≡ (p, n, k) ∷ db = cc in
    let known : suc (length db) ≡ id = cc in
    rw (made, text_eq_refl p, text_eq_refl n, (eq_ℤ_iff k k).1 refl, known) refl

memory_backend-RemembersObjects : RemembersObjects memory_backend
memory_backend-RemembersObjects = record { remembers = recalled }

abbrev over_rows : Rows → State Rows
over_rows rows = record {
  initialized = true;
  backend = some rows;
  session = 0;
  locked = false;
  sem_open = true;
  sem_value = 1;
}

over_rows-IsReady : (rows : Rows) → IsReady (over_rows rows)
over_rows-IsReady rows = record {
  is_attached = record { started = refl; attached = λ e. cc; opened = refl };
  unlocked = refl;
  available = omega arith;
}

lookup_or_create_object_again_example :
    cpl_lookup_or_create_object memory_backend
      (some (codes "ex"))
      (some (codes "bob"))
      (pos 3)
      (some 0)
      (over_rows ((codes "ex", codes "bob", pos 3) ∷ []))
    ≡ (go (cpl_ok, some 1), over_rows ((codes "ex", codes "bob", pos 3) ∷ []))
unfolding cpl_lookup_or_create_object create_if_missing cpl_lookup_object cpl_create_object text_eq
lookup_or_create_object_again_example =
    lookup_or_create_object_again memory_backend memory_backend-RemembersObjects (codes "ex")
      (codes "bob") (pos 3) 0 0 1 (over_rows []) (over_rows ((codes "ex", codes "bob", pos 3) ∷ []))
      (over_rows-IsReady []) refl
