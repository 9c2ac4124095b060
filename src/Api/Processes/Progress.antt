-- ===== src/Api/Processes/Progress.antt =====
-- The semaphore comes back, and a process that runs alone does what the call does.
use prov_cpl.Prelude.{
  ℕ, ℤ, ◌+◌, ◌-◌, ◌<◌, Option, ◌≡◌, ◌⊎◌, inl, inr, true, refl, ap, ◌∙◌, Bool-cases, not, ◌||◌, eq_ℤ,
  eq_ℤ_iff, arith,
}
use prov_cpl.Codes.{cpl_e_not_found, o_type_refused}
use prov_cpl.Api.Backend.{Backend}
use prov_cpl.Api.Objects.Laws.{found_or_created}
use prov_cpl.Api.Processes.{
  Request, Stage, outside, looking, creating, leaving, World, update, after_look, Step, wait, look,
  create, post, Reach, here, later, start,
}
use prov_cpl.Api.Processes.Exclusion.{is_inside, free, taken, update-same, Reach-Held}

module _ {Db Ctx : Type 0} (vt : Backend Db Ctx) where
  -- The process whose step it is.
  pub mover : {w u : World Db} → Step vt w u → ℕ
  mover (wait w i r e h) = i
  mover (look w i r e) = i
  mover (create w i r e) = i
  mover (post w i e) = i

  -- What one process can do while the others do nothing.
  pub data Solo (i : ℕ) : World Db → World Db → Type 0 where
    idle : (w : World Db) → Solo i w w
    moves : {w u v : World Db} → (s : Step vt w u) → mover s ≡ i → Solo i u v → Solo i w v

  Reach-cons : {w u v : World Db} → Step vt w u → Reach vt u v → Reach vt w v
  Reach-cons s here = later here s
  Reach-cons s (later r t) = later (Reach-cons s r) t

  Solo-Reach : {i : ℕ} {w u : World Db} → Solo i w u → Reach vt w u
  Solo-Reach (idle w) = here
  Solo-Reach (moves s e r) = Reach-cons s (Solo-Reach r)

  -- The rest of a call of process `i`: what it does alone, up to the post.
  record Ends (w : World Db) (i : ℕ) (db : Db) : Type 0 where
    last : World Db
    reached : Solo i w last
    same_db : last.db ≡ db
    posted : last.sem_value ≡ w.sem_value + 1
    gone : last.place i ≡ outside

  -- The database behind what a process still has to do.
  abbrev rest_of : Db → Stage → Db
  rest_of db (creating r) = (vt.cpl_db_create_object db r.prefix r.name r.kind).1
  rest_of db _ = db

  leaving-Ends : (w : World Db) (i : ℕ) → w.place i ≡ leaving → Ends w i w.db
  unfolding mover
  leaving-Ends w i e = record {
    last = record { db = w.db; sem_value = w.sem_value + 1; place = update w.place i outside };
    reached = moves (post w i e) refl (idle _);
    same_db = refl;
    posted = refl;
    gone = update-same w.place i outside;
  }

  creating-Ends :
      (w : World Db) (i : ℕ) (r : Request)
      → w.place i ≡ creating r
      → Ends w i (vt.cpl_db_create_object w.db r.prefix r.name r.kind).1
  unfolding mover
  creating-Ends w i r e =
      let made = vt.cpl_db_create_object w.db r.prefix r.name r.kind in
      let next : World Db = record {
        db = made.1;
        sem_value = w.sem_value;
        place = update w.place i leaving;
      } in
      let k = leaving-Ends next i (update-same w.place i leaving) in
      record {
        last = k.last;
        reached = moves (create w i r e) refl k.reached;
        same_db = k.same_db;
        posted = k.posted;
        gone = k.gone;
      }

  after_look-cases :
      (r : Request) (code : ℤ) → (after_look r code ≡ leaving) ⊎ (after_look r code ≡ creating r)
  unfolding after_look
  after_look-cases r code =
      elim (Bool-cases (not (eq_ℤ code cpl_e_not_found) || o_type_refused r.kind)) [
        | inl b ↦ inl (rw b refl)
        | inr b ↦ inr (rw b refl)
      ]

  -- After a look-up.
  looked-Ends :
      (w : World Db) (i : ℕ) (r : Request) (code : ℤ)
      → w.place i ≡ after_look r code
      → Ends w i (rest_of w.db (after_look r code))
  looked-Ends w i r code e = elim (after_look-cases r code) [
    | inl p ↦ rw p (leaving-Ends w i (e ∙ p))
    | inr p ↦ rw p (creating-Ends w i r (e ∙ p))
  ]

  looking-Ends :
      (w : World Db) (i : ℕ) (r : Request)
      → w.place i ≡ looking r
      → let answer = vt.cpl_db_lookup_object w.db r.prefix r.name r.kind in
        Ends w i (rest_of answer.1 (after_look r answer.0.0))
  unfolding mover
  looking-Ends w i r e =
      let answer = vt.cpl_db_lookup_object w.db r.prefix r.name r.kind in
      let next : World Db = record {
        db = answer.1;
        sem_value = w.sem_value;
        place = update w.place i (after_look r answer.0.0);
      } in
      let k = looked-Ends next i r answer.0.0 (update-same w.place i (after_look r answer.0.0)) in
      record {
        last = k.last;
        reached = moves (look w i r e) refl k.reached;
        same_db = k.same_db;
        posted = k.posted;
        gone = k.gone;
      }

  inside-Ends :
      (w : World Db) (i : ℕ) (p : Stage)
      → w.place i ≡ p
      → is_inside p ≡ true
      → (db : Db) × Ends w i db
  inside-Ends w i outside e h = absurd (ground arith)
  inside-Ends w i leaving e h = (w.db, leaving-Ends w i e)
  inside-Ends w i (looking r) e h = (_, looking-Ends w i r e)
  inside-Ends w i (creating r) e h = (_, creating-Ends w i r e)

  -- From every world that the processes can come to, they can go on so that the semaphore is free: the
  -- process that holds it needs no other one for its remaining steps.
  pub semaphore_returns :
      (db : Db) (w : World Db)
      → Reach vt (start db) w
      → (u : World Db) × Reach vt w u × (u.sem_value ≡ 1)
  semaphore_returns db w r = elim (Reach-Held vt db r) [
    | free e out ↦ (w, here, e)
    | taken i e busy only ↦
        let (after, k) = inside-Ends w i (w.place i) refl busy in
        (k.last, Solo-Reach k.reached, k.posted ∙ ap (λ n. n + 1) e)
  ]

  rest_of_lem :
      (r : Request) (out : Option ℕ) (answer : (ℤ × ℕ) × Db)
      → rest_of answer.1 (after_look r answer.0.0)
        ≡ (found_or_created vt r.prefix r.name r.kind out answer).1
  unfolding after_look
  rest_of_lem r out ((code, id), db) = ground (arith, eq_ℤ_iff code cpl_e_not_found)

  -- The world behind the wait of a process.
  abbrev pub entered : World Db → ℕ → Request → World Db
  entered w i r = record {
    db = w.db;
    sem_value = w.sem_value - 1;
    place = update w.place i (looking r);
  }

  -- A process that is outside while the semaphore is free can pass the wait, and from there, while no
  -- other process does anything, it comes out of the call, with the semaphore as it was. The database is
  -- then the one that the call leaves without other processes: that of the look-up and, if need be, of
  -- the creation.
  pub process_alone :
      (w : World Db) (i : ℕ) (r : Request) (out : Option ℕ)
      → w.place i ≡ outside
      → 0 < w.sem_value
      → (u : World Db) × Step vt w (entered w i r)
        × Solo i (entered w i r) u
        × (u.db
            ≡ (found_or_created vt r.prefix r.name r.kind out
                (vt.cpl_db_lookup_object w.db r.prefix r.name r.kind)).1)
        × (u.sem_value ≡ w.sem_value)
        × (u.place i ≡ outside)
  process_alone w i r out e h =
      let k = looking-Ends (entered w i r) i r (update-same w.place i (looking r)) in
      (
        k.last,
        wait w i r e h,
        k.reached,
        k.same_db ∙ rest_of_lem r out (vt.cpl_db_lookup_object w.db r.prefix r.name r.kind),
        omega (arith, k.posted),
        k.gone,
      )
