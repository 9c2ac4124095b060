-- ===== src/Examples/Processes.antt =====
-- The theorems on processes that share a database, applied to two that want the same object.
use prov_cpl.Prelude.{
  ℕ, ℤ, suc, pos, ◌+◌, ◌≤◌, ◌≡◌, ◌⊎◌, inl, inr, refl, arith, Text, codes, [], ◌∷◌, ◌&&◌, none,
  if◌then◌else◌, Bool-cases, eq_ℤ, eq_ℤ_iff, text_eq, text_eq_iff,
}
use prov_cpl.Codes.{cpl_e_not_found}
use prov_cpl.Api.Objects.Laws.{found_or_created}
use prov_cpl.Api.Processes.{
  Request, outside, creating, World, after_look, wait, look, create, post, Reach, here, later,
  start, Step,
}
use prov_cpl.Api.Processes.Exclusion.{processes_exclude}
use prov_cpl.Api.Processes.Once.{Counts, created_once}
use prov_cpl.Api.Processes.Progress.{Solo, entered, semaphore_returns, process_alone}
use prov_cpl.Examples.Toys.{Rows, search_rows, memory_backend}

abbrev matches : Text × Text × ℤ → Request → ℕ
matches (a, b, c) q = if text_eq a q.prefix && text_eq b q.name && eq_ℤ c q.kind then 1 else 0

abbrev count_rows : Rows → Request → ℕ
count_rows [] q = 0
count_rows (row ∷ rows) q = matches row q + count_rows rows q

search_finds :
    (rows : Rows) (q : Request)
    → (search_rows rows q.prefix q.name q.kind).0 ≡ cpl_e_not_found
    → count_rows rows q ≡ 0
search_finds [] q e = refl
search_finds ((a, b, c) ∷ rows) q e =
    elim (Bool-cases (text_eq a q.prefix && text_eq b q.name && eq_ℤ c q.kind)) [
      | inl same ↦ absurd (ground arith)
      | inr other ↦ ground (arith, search_finds rows q)
    ]

makes_one :
    (rows : Rows) (r q : Request)
    → (count_rows ((r.prefix, r.name, r.kind) ∷ rows) q ≤ count_rows rows q)
      ⊎ ((q ≡ r) × (count_rows ((r.prefix, r.name, r.kind) ∷ rows) q ≤ suc (count_rows rows q)))
makes_one rows r q =
    elim (Bool-cases (text_eq r.prefix q.prefix && text_eq r.name q.name && eq_ℤ r.kind q.kind)) [
      | inl same ↦ inr (
        ground (
          arith,
          text_eq_iff r.prefix q.prefix,
          text_eq_iff r.name q.name,
          eq_ℤ_iff r.kind q.kind,
        ),
        ground arith,
      )
      | inr other ↦ inl (ground arith)
    ]

memory_backend-Counts : Counts memory_backend count_rows
memory_backend-Counts = record { finds = search_finds; looks = λ db r q. refl; creates = makes_one }

abbrev alice : Request
alice = record { prefix = codes "ex"; name = codes "alice"; kind = pos 3 }

goes_on : after_look alice cpl_e_not_found ≡ creating alice
unfolding after_look
goes_on = refl

-- The process 0 makes the object, and the process 1 looks for it next.
abbrev race : (w : World Rows) × Reach memory_backend (start []) w
race = (
  _,
  later
      (later
        (later
          (later
            (later (later here (wait (start []) 0 alice refl (omega arith))) (look _ 0 alice refl))
            (create _ 0 alice goes_on))
          (post _ 0 refl))
        (wait _ 1 alice refl (omega arith)))
      (look _ 1 alice refl),
)

created_once_example : count_rows race.0.db alice ≤ 1
created_once_example =
    created_once memory_backend count_rows memory_backend-Counts [] race.0 (λ q. omega arith) race.1
      alice

processes_exclude_example : ◌≡◌ {A = ℕ} 1 1
unfolding after_look text_eq
processes_exclude_example = processes_exclude memory_backend [] race.0 1 1 race.1 refl refl

semaphore_returns_example : (u : World Rows) × Reach memory_backend race.0 u × (u.sem_value ≡ 1)
semaphore_returns_example = semaphore_returns memory_backend [] race.0 race.1

process_alone_example :
    (u : World Rows) × Step memory_backend (start []) (entered memory_backend (start []) 0 alice)
    × Solo memory_backend 0 (entered memory_backend (start []) 0 alice) u
    × (u.db
        ≡ (found_or_created memory_backend
            (codes "ex")
            (codes "alice")
            (pos 3)
            none
            (memory_backend.cpl_db_lookup_object [] (codes "ex") (codes "alice") (pos 3))).1)
    × (u.sem_value ≡ 1)
    × (u.place 0 ≡ outside)
process_alone_example = process_alone memory_backend (start []) 0 alice none refl (omega arith)
