-- ===== src/Api/Ready.antt =====
-- The state between `cpl_attach` and `cpl_detach`, which every other call keeps.
use prov_cpl.Prelude.{ℕ, ℤ, Option, none, ◌≡◌, ◌≢◌, true, false, ◌<◌, ◌-◌, ◌+◌, arith, Text}
use prov_cpl.Api.Effect.{
  State, Exit, returned, fault, blocked, thrown, Step, go, stop, ending, called, caught, continue,
  ◌>>=◌,
}
use prov_cpl.Api.Backend.{Backend}
use prov_cpl.Api.Numbers.{Numbers}
use prov_cpl.Api.Objects.{
  cpl_lookup_object, cpl_create_object, cpl_lookup_or_create_object, create_if_missing,
}
use prov_cpl.Api.Call.{Call}

-- The library is attached, and the shared semaphore is open.
pub record IsAttached {Db : Type 0} (s : State Db) : Type 0 where
  pub started : s.initialized ≡ true
  pub attached : s.backend ≢ none
  pub opened : s.sem_open ≡ true

-- Besides, the backend lock and the semaphore are free.
pub record IsReady {Db : Type 0} (s : State Db) : Type 0 where
  pub is_attached : IsAttached s
  pub unlocked : s.locked ≡ false
  pub available : 0 < s.sem_value

abbrev pub HasReturned : Exit → Type 0
HasReturned (returned code) = Unit
HasReturned fault = ⊥
HasReturned blocked = ⊥
HasReturned thrown = ⊥

-- A call that returned, from `s` to `t`: the library is still attached, and the session, the
-- backend lock and the semaphore are as they were.
pub record IsClean {Db : Type 0} (e : Exit) (s t : State Db) : Type 0 where
  pub has_returned : HasReturned e
  pub still_attached : IsAttached t
  pub same_lock : t.locked ≡ s.locked
  pub same_session : t.session ≡ s.session
  pub same_value : t.sem_value ≡ s.sem_value

module _ {Db Ctx : Type 0} (vt : Backend Db Ctx) where
  pub lookup_object-IsClean :
      (p n : Option Text) (k : ℤ) (o : Option ℕ) (s : State Db)
      → IsAttached s
      → IsClean (ending (cpl_lookup_object vt p n k o s).0) s (cpl_lookup_object vt p n k o s).1
  unfolding cpl_lookup_object
  lookup_object-IsClean p n k o s h = ground arith

  pub create_object-IsClean :
      (p n : Option Text) (k : ℤ) (o : Option ℕ) (s : State Db)
      → IsAttached s
      → IsClean (ending (cpl_create_object vt p n k o s).0) s (cpl_create_object vt p n k o s).1
  unfolding cpl_create_object
  create_object-IsClean p n k o s h = ground arith

  -- The second half posts the semaphore once.
  create_if_missing-post :
      (p n : Option Text) (k : ℤ) (found : ℤ × Option ℕ) (s : State Db)
      → IsAttached s
      → IsClean
          (ending (create_if_missing vt p n k found s).0)
          (record s { sem_value = s.sem_value + 1 })
          (create_if_missing vt p n k found s).1
  unfolding create_if_missing
  create_if_missing-post p n k found s h = ground (arith, create_object-IsClean p n k found.1 s h)

  -- What follows the look-up, for each way in which the look-up can end.
  resume-IsClean :
      (p n : Option Text) (k : ℤ) (o : Option ℕ) (s : State Db) (r : Step (ℤ × Option ℕ))
      (t : State Db)
      → 0 < s.sem_value
      → IsClean (ending r) (record s { sem_value = s.sem_value - 1 }) t
      → IsClean
          (ending (continue (caught o r) (create_if_missing vt p n k) t).0)
          s
          (continue (caught o r) (create_if_missing vt p n k) t).1
  resume-IsClean p n k o s (go found) t v h =
      ground (arith, create_if_missing-post p n k found t h.still_attached)
  resume-IsClean p n k o s (stop (returned code)) t v h =
      ground (arith, create_if_missing-post p n k (code, o) t h.still_attached)
  resume-IsClean p n k o s (stop fault) t v h = absurd h.has_returned
  resume-IsClean p n k o s (stop blocked) t v h = absurd h.has_returned
  resume-IsClean p n k o s (stop thrown) t v h = absurd h.has_returned

  -- With the semaphore taken the call waits, and has changed nothing.
  pub lookup_or_create_object_waits :
      (p n : Option Text) (k : ℤ) (o : Option ℕ) (s : State Db)
      → IsAttached s
      → s.sem_value ≡ 0
      → cpl_lookup_or_create_object vt p n k o s ≡ (stop blocked, s)
  unfolding cpl_lookup_or_create_object
  lookup_or_create_object_waits p n k o s h z = ground arith

  -- On a ready library the call is the look-up with the semaphore taken, and its second half.
  lookup_or_create_object_lem :
      (p n : Option Text) (k : ℤ) (o : Option ℕ) (s : State Db)
      → IsAttached s
      → 0 < s.sem_value
      → cpl_lookup_or_create_object vt p n k o s
        ≡ (called o (cpl_lookup_object vt p n k o) >>= create_if_missing vt p n k)
            (record s { sem_value = s.sem_value - 1 })
  unfolding cpl_lookup_or_create_object
  lookup_or_create_object_lem p n k o s h v = ground arith

  pub lookup_or_create_object-IsClean :
      (p n : Option Text) (k : ℤ) (o : Option ℕ) (s : State Db)
      → IsAttached s
      → 0 < s.sem_value
      → IsClean
          (ending (cpl_lookup_or_create_object vt p n k o s).0)
          s
          (cpl_lookup_or_create_object vt p n k o s).1
  lookup_or_create_object-IsClean p n k o s h v = rw (lookup_or_create_object_lem p n k o s h v) (
      resume-IsClean p n k o s _ _ v
        (lookup_object-IsClean p n k o (record s { sem_value = s.sem_value - 1 }) (ground arith)))
