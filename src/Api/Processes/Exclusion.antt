-- ===== src/Api/Processes/Exclusion.antt =====
-- At most one process is between the wait and the post.
use prov_cpl.Prelude.{
  ℕ, ℤ, ◌+◌, ◌-◌, ◌<◌, ◌≡◌, ◌≢◌, ◌⊎◌, inl, inr, Bool, true, false, refl, sym, ap, ◌∙◌, ◌==◌, ==_iff,
  Bool-cases, arith,
}
use prov_cpl.Api.Backend.{Backend}
use prov_cpl.Api.Processes.{
  Request, Stage, outside, looking, creating, leaving, World, update, after_look, Step, wait, look,
  create, post, Reach, here, later, start,
}

abbrev pub is_inside : Stage → Bool
is_inside outside = false
is_inside leaving = true
is_inside (looking r) = true
is_inside (creating r) = true

-- Either the semaphore is free and no process is inside, or it is taken by the one that is.
pub data Held (sem_value : ℕ) (place : ℕ → Stage) : Type 0 where
  free : sem_value ≡ 1 → ((i : ℕ) → is_inside (place i) ≡ false) → Held sem_value place
  taken :
      (i : ℕ)
      → sem_value ≡ 0
      → is_inside (place i) ≡ true
      → ((j : ℕ) → is_inside (place j) ≡ true → i ≡ j)
      → Held sem_value place

pub update-cases :
    (f : ℕ → Stage) (i j : ℕ) (p : Stage)
    → ((i ≡ j) × (update f i p j ≡ p)) ⊎ ((i ≢ j) × (update f i p j ≡ f j))
update-cases f i j p = elim (Bool-cases (i == j)) [
  | inl same ↦ inl ((==_iff i j).0 same, rw same refl)
  | inr other ↦ inr ((λ same. let yes_same = (==_iff i j).1 same in cc), rw other refl)
]

pub update-same : (f : ℕ → Stage) (i : ℕ) (p : Stage) → update f i p i ≡ p
update-same f i p = rw ((==_iff i i).1 refl) refl

-- A process that is inside moves within, or leaves; one that is outside enters.
moves :
    (n : ℕ) (f : ℕ → Stage) (i : ℕ) (p : Stage)
    → Held n f
    → is_inside (f i) ≡ true
    → is_inside p ≡ true
    → Held n (update f i p)
moves n f i p (free e out) h q = absurd (let o = out i in cc)
moves n f i p (taken k e busy only) h q = taken i e (rw (update-same f i p) q) (λ j x.
    elim (update-cases f i j p) [
      | inl (same, u) ↦ same
      | inr (apart, u) ↦ sym (only i h) ∙ only j (sym (ap is_inside u) ∙ x)
    ])

leaves :
    (n : ℕ) (f : ℕ → Stage) (i : ℕ)
    → Held n f
    → is_inside (f i) ≡ true
    → Held (n + 1) (update f i outside)
leaves n f i (free e out) h = absurd (let o = out i in cc)
leaves n f i (taken k e busy only) h = free (omega arith) (λ j. elim (update-cases f i j outside) [
  | inl (same, u) ↦ ap is_inside u
  | inr (apart, u) ↦ elim (Bool-cases (is_inside (f j))) [
    | inl in_j ↦ absurd (apart (sym (only i h) ∙ only j in_j))
    | inr out_j ↦ ap is_inside u ∙ out_j
  ]
])

enters :
    (n : ℕ) (f : ℕ → Stage) (i : ℕ) (p : Stage)
    → Held n f
    → 0 < n
    → is_inside p ≡ true
    → Held (n - 1) (update f i p)
enters n f i p (free e out) h q = taken i (omega arith) (rw (update-same f i p) q) (λ j x.
    elim (update-cases f i j p) [
      | inl (same, u) ↦ same
      | inr (apart, u) ↦ absurd (let o = out j in let v = ap is_inside u in cc)
    ])
enters n f i p (taken k e busy only) h q = absurd (omega arith)

after_look-is_inside : (r : Request) (code : ℤ) → is_inside (after_look r code) ≡ true
unfolding after_look
after_look-is_inside r code = ground arith

module _ {Db Ctx : Type 0} (vt : Backend Db Ctx) where
  Step-Held : {w u : World Db} → Step vt w u → Held w.sem_value w.place → Held u.sem_value u.place
  Step-Held (wait w i r e h) k = enters w.sem_value w.place i (looking r) k h refl
  Step-Held (look w i r e) k =
      moves w.sem_value w.place i _ k (ap is_inside e) (after_look-is_inside r _)
  Step-Held (create w i r e) k = moves w.sem_value w.place i leaving k (ap is_inside e) refl
  Step-Held (post w i e) k = leaves w.sem_value w.place i k (ap is_inside e)

  pub Reach-Held : (db : Db) {w : World Db} → Reach vt (start db) w → Held w.sem_value w.place
  Reach-Held db here = free refl (λ i. refl)
  Reach-Held db (later r s) = Step-Held s (Reach-Held db r)

  -- Whatever the processes do, in whichever order, no two of them are between the wait and the post.
  pub processes_exclude :
      (db : Db) (w : World Db) (i j : ℕ)
      → Reach vt (start db) w
      → is_inside (w.place i) ≡ true
      → is_inside (w.place j) ≡ true
      → i ≡ j
  processes_exclude db w i j r hi hj = elim (Reach-Held db r) [
    | free e out ↦ absurd (let o = out i in cc)
    | taken k e busy only ↦ sym (only i hi) ∙ only j hj
  ]
