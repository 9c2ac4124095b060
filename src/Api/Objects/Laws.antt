-- ===== src/Api/Objects/Laws.antt =====
-- `cpl_lookup_or_create_object` against one operation on the backend alone.
use prov_cpl.Prelude.{
  Option-cases, inl, inr, ap, sym, ◌∙◌, ℤ, ℕ, Text, Option, some, ◌≡◌, refl, true, not,
  if◌then◌else◌, arith, eq_ℤ,
}
use prov_cpl.Codes.{
  cpl_ok, cpl_is_ok, cpl_e_not_found, cpl_e_invalid_argument, cpl_s_object_created, o_type_refused,
}
use prov_cpl.Api.Effect.{State, go, store}
use prov_cpl.Api.Backend.{Backend}
use prov_cpl.Api.Ready.{IsReady}
use prov_cpl.Api.Objects.{
  cpl_lookup_object, cpl_create_object, create_if_missing, cpl_lookup_or_create_object,
}

module _ {Db Ctx : Type 0} (vt : Backend Db Ctx) where
  -- What creating an object comes to: its code, the caller's cell, and the backend.
  abbrev pub created : Option ℕ → (ℤ × ℕ) × Db → (ℤ × Option ℕ) × Db
  created out ((code, id), db) =
      if cpl_is_ok code then ((cpl_s_object_created, store out id), db) else ((code, out), db)

  -- What finding it comes to, and creating it if it is not there.
  abbrev pub found_or_created : Text → Text → ℤ → Option ℕ → (ℤ × ℕ) × Db → (ℤ × Option ℕ) × Db
  found_or_created p n k out ((code, id), db) =
      if cpl_is_ok code
      then ((cpl_ok, store out id), db)
      else if not (eq_ℤ code cpl_e_not_found)
      then ((code, out), db)
      else if o_type_refused k
      then ((cpl_e_invalid_argument, out), db)
      else created out (vt.cpl_db_create_object db p n k)

  -- On a ready library the call is one look-up in the backend and, exactly if that finds nothing and the
  -- type is one that objects have, one creation: the code, the caller's cell and the backend are those
  -- of the two operations done in a row, and the rest of the state is as it was.
  pub lookup_or_create_object_found :
      (p n : Text) (k : ℤ) (out : Option ℕ) (db : Db) (s : State Db)
      → IsReady s
      → s.backend ≡ some db
      → let (reply, after) = found_or_created p n k out (vt.cpl_db_lookup_object db p n k) in
        cpl_lookup_or_create_object vt (some p) (some n) k out s
        ≡ (go reply, record s { backend = some after })
  unfolding cpl_lookup_or_create_object create_if_missing cpl_lookup_object cpl_create_object
  lookup_or_create_object_found p n k out db s h e = ground arith

  -- What the second call relies on: a look-up finds the object that was just created, by its ID, and
  -- changes nothing.
  pub record RemembersObjects : Type 0 where
    pub remembers :
        (db : Db) (p n : Text) (k : ℤ) (code : ℤ) (id : ℕ) (db' : Db)
        → vt.cpl_db_create_object db p n k ≡ ((code, id), db')
        → cpl_is_ok code ≡ true
        → vt.cpl_db_lookup_object db' p n k ≡ ((cpl_ok, id), db')

  -- A creation that is reported took place in the backend.
  creation_facts :
      (p n : Text) (k : ℤ) (x id : ℕ) (code : ℤ) (i : ℕ) (before after : Db)
      → found_or_created p n k (some x) ((code, i), before)
        ≡ ((cpl_s_object_created, some id), after)
      → (cpl_is_ok (vt.cpl_db_create_object before p n k).0.0 ≡ true)
        × (vt.cpl_db_create_object before p n k
            ≡ (((vt.cpl_db_create_object before p n k).0.0, id), after))
  creation_facts p n k x id code i before after e = ground arith

  -- The second call, after a state that the first one left.
  found_again :
      (p n : Text) (k : ℤ) (y id : ℕ) (after : Db) (s : State Db)
      → IsReady s
      → vt.cpl_db_lookup_object after p n k ≡ ((cpl_ok, id), after)
      → cpl_lookup_or_create_object vt
          (some p)
          (some n)
          k
          (some y)
          (record s { backend = some after })
        ≡ (go (cpl_ok, some id), record s { backend = some after })
  found_again p n k y id after s h e =
      lookup_or_create_object_found p n k (some y) after (record s { backend = some after })
        (ground arith) refl
      ∙ rw e refl

  -- Over a backend that remembers the objects it creates: if a call of `cpl_lookup_or_create_object`
  -- creates an object, the same call made again finds it, with the same ID, and changes nothing.
  pub lookup_or_create_object_again :
      RemembersObjects
      → (p n : Text) (k : ℤ) (x y id : ℕ) (s t : State Db) → IsReady s
      → cpl_lookup_or_create_object vt (some p) (some n) k (some x) s
        ≡ (go (cpl_s_object_created, some id), t)
      → cpl_lookup_or_create_object vt (some p) (some n) k (some y) t ≡ (go (cpl_ok, some id), t)
  lookup_or_create_object_again law p n k x y id s t h e = elim (Option-cases s.backend) [
    | inl missing ↦ absurd (h.is_attached.attached missing)
    | inr (db, eb) ↦
        let found = vt.cpl_db_lookup_object db p n k in
        let first = found_or_created p n k (some x) found in
        let both = sym (lookup_or_create_object_found p n k (some x) db s h eb) ∙ e in
        let same : record s { backend = some first.1 } ≡ t = cc in
        let reply : first.0 ≡ (cpl_s_object_created, some id) = cc in
        let (fine, made) =
          creation_facts p n k x id found.0.0 found.0.1 found.1 first.1
            (ap (λ r. (r, first.1)) reply) in
        rw (← same)
          (found_again p n k y id first.1 s h (law.remembers found.1 p n k _ id first.1 made fine))
  ]
