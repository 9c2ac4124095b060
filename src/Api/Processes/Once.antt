-- ===== src/Api/Processes/Once.antt =====
-- No object is made twice, however the processes interleave.
use prov_cpl.Prelude.{
  ℕ, ℤ, suc, ◌≤◌, ◌≡◌, ◌⊎◌, inl, inr, sym, ap, ◌∙◌, true, Bool-cases, arith, eq_ℤ, eq_ℤ_iff,
}
use prov_cpl.Codes.{cpl_e_not_found}
use prov_cpl.Api.Backend.{Backend}
use prov_cpl.Api.Processes.{
  Request, Stage, outside, looking, creating, leaving, World, update, after_look, Step, wait, look,
  create, post, Reach, here, later, start,
}
use prov_cpl.Api.Processes.Exclusion.{is_inside, update-cases, processes_exclude}

module _ {Db Ctx : Type 0} (vt : Backend Db Ctx) (count : Db → Request → ℕ) where
  -- What is relied on in the backend, where `count` is the number of objects of a prefix, a name and a
  -- type: a look-up changes no number, and finds nothing only where there is none; a creation makes at
  -- most one object, of its own prefix, name and type.
  pub record Counts : Type 0 where
    pub finds :
        (db : Db) (r : Request)
        → (vt.cpl_db_lookup_object db r.prefix r.name r.kind).0.0 ≡ cpl_e_not_found
        → count db r ≡ 0
    pub looks :
        (db : Db) (r q : Request)
        → count (vt.cpl_db_lookup_object db r.prefix r.name r.kind).1 q ≡ count db q
    pub creates :
        (db : Db) (r q : Request)
        → (count (vt.cpl_db_create_object db r.prefix r.name r.kind).1 q ≤ count db q)
          ⊎ ((q ≡ r)
              × (count (vt.cpl_db_create_object db r.prefix r.name r.kind).1 q ≤ suc (count db q)))

  -- There is at most one object of each kind, and none of the kind that a process is about to create.
  record IsSingle (w : World Db) : Type 0 where
    singles : (q : Request) → count w.db q ≤ 1
    pending : (i : ℕ) (r : Request) → w.place i ≡ creating r → count w.db r ≡ 0

  -- A process that is not about to create moves to another such place.
  still_pending :
      (db : Db) (f : ℕ → Stage) (i : ℕ) (p : Stage)
      → ((j : ℕ) (r : Request) → f j ≡ creating r → count db r ≡ 0)
      → ((r : Request) → p ≡ creating r → count db r ≡ 0)
      → (j : ℕ) (r : Request) → update f i p j ≡ creating r
      → count db r ≡ 0
  still_pending db f i p old new j r e = elim (update-cases f i j p) [
    | inl (same, u) ↦ new r (sym u ∙ e)
    | inr (apart, u) ↦ old j r (sym u ∙ e)
  ]

  after_look_facts :
      (r q : Request) (code : ℤ)
      → after_look r code ≡ creating q
      → (code ≡ cpl_e_not_found) × (r ≡ q)
  unfolding after_look
  after_look_facts r q code e = elim (Bool-cases (eq_ℤ code cpl_e_not_found)) [
    | inl found ↦ ((eq_ℤ_iff code cpl_e_not_found).0 found, ground arith)
    | inr other ↦ absurd (ground arith)
  ]

  module _ (laws : Counts) where
    Step-IsSingle :
        {w u : World Db}
        → Step vt w u
        → ((i j : ℕ) → is_inside (w.place i) ≡ true → is_inside (w.place j) ≡ true → i ≡ j)
        → IsSingle w
        → IsSingle u
    Step-IsSingle (wait w i r e h) alone k = record {
      singles = k.singles;
      pending = still_pending w.db w.place i (looking r) k.pending (λ q x. absurd (ground arith));
    }
    Step-IsSingle (look w i r e) alone k =
        let answer = vt.cpl_db_lookup_object w.db r.prefix r.name r.kind in
        record {
          singles = λ q. rw (laws.looks w.db r q) (k.singles q);
          pending =
              still_pending answer.1 w.place i (after_look r answer.0.0)
                (λ j q x. laws.looks w.db r q ∙ k.pending j q x)
                (λ q x.
                  let (nothing, same) = after_look_facts r q answer.0.0 x in
                  laws.looks w.db r q ∙ ap (count w.db) (sym same) ∙ laws.finds w.db r nothing);
        }
    Step-IsSingle (create w i r e) alone k =
        let after = (vt.cpl_db_create_object w.db r.prefix r.name r.kind).1 in
        record {
          singles = λ q. elim (laws.creates w.db r q) [
            | inl fewer ↦ omega (arith, fewer, k.singles q)
            | inr (same, more) ↦ omega (arith, more, ap (count w.db) same, k.pending i r e)
          ];
          pending = λ j q x. elim (update-cases w.place i j leaving) [
            | inl (same, u) ↦ absurd (ground arith)
            | inr (apart, u) ↦
                absurd (apart (alone i j (ap is_inside e) (ap is_inside (sym u ∙ x))))
          ];
        }
    Step-IsSingle (post w i e) alone k = record {
      singles = k.singles;
      pending = still_pending w.db w.place i outside k.pending (λ q x. absurd (ground arith));
    }

    -- If there is at most one object of each prefix, name and type at the start, there is at most one
    -- whatever the processes do, in whichever order.
    pub created_once :
        (db : Db) (w : World Db)
        → ((q : Request) → count db q ≤ 1)
        → Reach vt (start db) w
        → (q : Request) → count w.db q ≤ 1
    created_once db w few r q = (Reach-IsSingle r).singles q
      where
        Reach-IsSingle : {u : World Db} → Reach vt (start db) u → IsSingle u
        Reach-IsSingle here = record { singles = few; pending = λ i r x. absurd (ground arith) }
        Reach-IsSingle (later {u = v} before s) =
            Step-IsSingle s (λ i j. processes_exclude vt db v i j before) (Reach-IsSingle before)
