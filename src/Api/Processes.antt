-- ===== src/Api/Processes.antt =====
-- `cpl_lookup_or_create_object` of cpl-standalone/cpl-standalone.cpp, run by any number of processes on
-- one database and one named semaphore. A step is what one process does at once: a wait, a call of the
-- backend, or a post.
pub mod Exclusion
pub mod Once
pub mod Progress
use prov_cpl.Prelude.{ℕ, ℤ, ◌+◌, ◌-◌, ◌<◌, ◌==◌, Text, not, ◌||◌, eq_ℤ, if◌then◌else◌, ◌≡◌}
use prov_cpl.Codes.{cpl_e_not_found, o_type_refused}
use prov_cpl.Api.Backend.{Backend}

-- The arguments of a call.
pub record Request : Type 0 where
  pub prefix : Text
  pub name : Text
  pub kind : ℤ

-- Where a process stands: outside the call or waiting; behind the wait; behind a look-up that found
-- nothing; before the post.
pub data Stage : Type 0 where
  outside leaving : Stage
  looking creating : Request → Stage

pub record World (Db : Type 0) : Type 0 where
  pub db : Db
  pub sem_value : ℕ
  pub place : ℕ → Stage

abbrev pub update : (ℕ → Stage) → ℕ → Stage → ℕ → Stage
update f i p j = if i == j then p else f j

-- `if (r != CPL_E_NOT_FOUND) goto out;`, and the check of the type in `cpl_create_object`.
unfoldable pub after_look : Request → ℤ → Stage
after_look r code =
    if not (eq_ℤ code cpl_e_not_found) || o_type_refused r.kind then leaving else creating r

module _ {Db Ctx : Type 0} (vt : Backend Db Ctx) where
  pub data Step : World Db → World Db → Type 0 where
    wait :
        (w : World Db) (i : ℕ) (r : Request)
        → w.place i ≡ outside
        → 0 < w.sem_value
        → Step w (record {
          db = w.db;
          sem_value = w.sem_value - 1;
          place = update w.place i (looking r);
        })
    look :
        (w : World Db) (i : ℕ) (r : Request)
        → w.place i ≡ looking r
        → Step w (
            let (reply, after) = vt.cpl_db_lookup_object w.db r.prefix r.name r.kind in
            record {
              db = after;
              sem_value = w.sem_value;
              place = update w.place i (after_look r reply.0);
            })
    create :
        (w : World Db) (i : ℕ) (r : Request)
        → w.place i ≡ creating r
        → Step w (
            let (reply, after) = vt.cpl_db_create_object w.db r.prefix r.name r.kind in
            record { db = after; sem_value = w.sem_value; place = update w.place i leaving })
    post :
        (w : World Db) (i : ℕ)
        → w.place i ≡ leaving
        → Step w
            (record { db = w.db; sem_value = w.sem_value + 1; place = update w.place i outside })

  -- What can come of a world.
  pub data Reach (w : World Db) : World Db → Type 0 where
    here : Reach w w
    later : {u v : World Db} → Reach w u → Step u v → Reach w v

-- The semaphore is new, and no process is in the call.
abbrev pub start : {Db : Type 0} → Db → World Db
start db = record { db = db; sem_value = 1; place = λ i. outside }
