-- ===== src/Lock/UniqueId/Increasing.antt =====
-- Each identifier is greater than those before it.
use Prim.Native.Nat.{bit_or}
use prov_cpl.Prelude.{
  ℕ, zero, suc, ◌+◌, ◌-◌, ◌*◌, ◌/◌, ◌%◌, ◌^◌, ◌≤◌, ◌<◌, ◌≡◌, ◌⊎◌, inl, inr, refl, subst, ap, ◌∙◌,
  List, [], ◌∷◌, none, some, leb, Bool-cases, arith,
}
use prov_cpl.Lock.UniqueId.{
  Moment, Generator, base_of, cpl_host_unique_id_generator_initialize, advance,
  cpl_next_host_unique_id, ids,
}
use prov_cpl.Lock.UniqueId.Bits.{bit_or_above, bit_or_below}

-- A moment of a clock that shows a date from 2001 to 2069.
pub record IsMoment (tv : Moment) : Type 0 where
  pub since : 1000000000 ≤ tv.tv_sec
  pub until : tv.tv_sec < 1000000000 + 2 ^ 31
  pub part : tv.tv_usec < 1000000

-- In milliseconds.
abbrev pub stamp : Moment → ℕ
stamp tv = tv.tv_sec * 1000 + tv.tv_usec / 1000

-- The moments are later than `time`, and each is later than the one before, by a millisecond or more.
abbrev pub Ticks : ℕ → List Moment → Type 0
Ticks time [] = Unit
Ticks time (tv ∷ clock) = IsMoment tv × (time < stamp tv) × Ticks (stamp tv) clock

-- The numbers are at least `bound`, and each is greater than those before.
abbrev pub Increasing : ℕ → List ℕ → Type 0
Increasing bound [] = Unit
Increasing bound (x ∷ xs) = (bound ≤ x) × Increasing (suc x) xs

-- What the base is: the milliseconds, in steps of the counter's range.
base_of_lem :
    (tv : Moment)
    → IsMoment tv
    → base_of tv ≡ (((tv.tv_sec - 1000000000) * 1024) + tv.tv_usec / 1000) * 2 ^ 22
unfolding base_of
base_of_lem tv h =
    let secs = tv.tv_sec - 1000000000 in
    let k = bit_or_above 32 secs (tv.tv_usec / 1000 * 2 ^ 22) (omega (arith, h.part)) in
    let e1 : (tv.tv_sec + 2 ^ 64 - 1000000000) % 2 ^ 64 * 2 ^ 32 % 2 ^ 64 ≡ secs * 2 ^ 32 =
      omega (arith, h.since, h.until) in
    let e2 : tv.tv_usec / 1000 * 2 ^ 22 % 2 ^ 64 ≡ tv.tv_usec / 1000 * 2 ^ 22 =
      omega (arith, h.part) in
    rw (e1, e2, k) (omega (arith, h.since, h.until, h.part))

-- The generator was initialised at `tv`, and will be at later moments.
pub record IsInitialized (g : Generator) (tv : Moment) : Type 0 where
  pub moment : IsMoment tv
  pub base : g.cpl_unique_base ≡ base_of tv
  pub small : g.cpl_unique_counter ≤ 2 ^ 22
  pub ticks : Ticks (stamp tv) g.clock

-- Two initialisations leave room for the counter between them.
base_of-room :
    (a b : Moment) → IsMoment a → IsMoment b → stamp a < stamp b → base_of a + 2 ^ 22 ≤ base_of b
base_of-room a b ha hb h =
    rw (base_of_lem a ha, base_of_lem b hb) (omega (arith, ha.since, ha.part, hb.since, hb.part, h))

-- The counter and the base have their digits apart.
advance_lem :
    (g : Generator) (tv : Moment)
    → IsInitialized g tv
    → g.cpl_unique_counter < 2 ^ 22
    → advance g ≡ (
      some (g.cpl_unique_base + g.cpl_unique_counter),
      record g { cpl_unique_counter = g.cpl_unique_counter + 1 },
    )
unfolding advance
advance_lem g tv h small =
    let ms = (tv.tv_sec - 1000000000) * 1024 + tv.tv_usec / 1000 in
    let b : g.cpl_unique_base ≡ ms * 2 ^ 22 = h.base ∙ base_of_lem tv h.moment in
    let k = bit_or_below 22 ms g.cpl_unique_counter small in
    let id : bit_or g.cpl_unique_counter g.cpl_unique_base
        ≡ g.cpl_unique_base + g.cpl_unique_counter =
      ap (bit_or g.cpl_unique_counter) b ∙ k ∙ omega (arith, b) in
    ground (arith, id)

next_counts :
    (g : Generator) (tv : Moment)
    → IsInitialized g tv
    → g.cpl_unique_counter < 2 ^ 22
    → cpl_next_host_unique_id g ≡ advance g
unfolding cpl_next_host_unique_id
next_counts g tv h small = ground arith

-- A full counter begins again, if there is a further moment.
next_fails :
    (g : Generator)
    → 2 ^ 22 ≤ g.cpl_unique_counter
    → g.clock ≡ []
    → cpl_next_host_unique_id g ≡ (none, g)
unfolding cpl_next_host_unique_id cpl_host_unique_id_generator_initialize
next_fails g full e = ground arith

next_restarts :
    (g : Generator) (tv : Moment) (clock : List Moment)
    → 2 ^ 22 ≤ g.cpl_unique_counter
    → g.clock ≡ tv ∷ clock
    → cpl_next_host_unique_id g
      ≡ advance (record { cpl_unique_base = base_of tv; cpl_unique_counter = 0; clock = clock })
unfolding cpl_next_host_unique_id cpl_host_unique_id_generator_initialize
next_restarts g tv clock full e = ground arith

List-cases : (l : List Moment) → (l ≡ []) ⊎ ((x : Moment) × (xs : List Moment) × (l ≡ x ∷ xs))
List-cases [] = inl refl
List-cases (x ∷ xs) = inr (x, xs, refl)

weaken : (a b : ℕ) (xs : List ℕ) → a ≤ b → Increasing b xs → Increasing a xs
weaken a b [] h k = tt
weaken a b (x ∷ xs) h k = (omega (arith, k.0), k.1)

ids-Increasing :
    (calls : ℕ) (g : Generator) (tv : Moment)
    → IsInitialized g tv
    → Increasing (g.cpl_unique_base + g.cpl_unique_counter) (ids calls g)
unfolding ids
ids-Increasing zero g tv h = tt
ids-Increasing (suc calls) g tv h = elim (Bool-cases (leb (2 ^ 22) g.cpl_unique_counter)) [
  | inr room ↦ rw (next_counts g tv h (ground arith) ∙ advance_lem g tv h (ground arith)) (
    omega arith,
    (let moved : Generator = record g { cpl_unique_counter = g.cpl_unique_counter + 1 } in
        weaken _ (g.cpl_unique_base + (g.cpl_unique_counter + 1)) (ids calls moved) (omega arith) (
          ids-Increasing calls moved tv
            (record { moment = h.moment; base = h.base; small = ground arith; ticks = h.ticks }))),
  )
  | inl full ↦ elim (List-cases g.clock) [
    | inl e ↦ rw (next_fails g (ground arith) e) (ids-Increasing calls g tv h)
    | inr (next, clock, e) ↦
        let ticks = subst (Ticks (stamp tv)) e h.ticks in
        let again : Generator = record {
          cpl_unique_base = base_of next;
          cpl_unique_counter = 0;
          clock = clock;
        } in
        let fresh : IsInitialized again next = record {
          moment = ticks.0;
          base = refl;
          small = omega arith;
          ticks = ticks.2;
        } in
        let room = base_of-room tv next h.moment ticks.0 ticks.1 in
        let moved : Generator = record again { cpl_unique_counter = 0 + 1 } in
        rw
          (next_restarts g next clock (ground arith) e ∙ advance_lem again next fresh (omega arith))
          (
            omega (arith, room, h.base, h.small),
            weaken _ (base_of next + 1) (ids calls moved) (omega arith) (
                ids-Increasing calls moved next
                  (record { moment = ticks.0; base = refl; small = omega arith; ticks = ticks.2 })),
          )
  ]
]

-- From the initialisation at a moment on, and while the clock of the machine advances by a millisecond
-- or more between two initialisations, each call gives an identifier that is greater than all those
-- given before, over however many initialisations.
pub unique_ids :
    (calls : ℕ) (g : Generator) (tv : Moment) (clock : List Moment)
    → g.clock ≡ tv ∷ clock
    → IsMoment tv
    → Ticks (stamp tv) clock
    → Increasing 0 (ids calls (cpl_host_unique_id_generator_initialize g).1)
unfolding cpl_host_unique_id_generator_initialize
unique_ids calls g tv clock e m h =
    let start : Generator = record {
      cpl_unique_base = base_of tv;
      cpl_unique_counter = 0;
      clock = clock;
    } in
    let made : IsInitialized start tv = record {
      moment = m;
      base = refl;
      small = omega arith;
      ticks = h;
    } in
    rw e (
      weaken 0 (base_of tv + 0) (ids calls start) (omega arith)
        (ids-Increasing calls start tv made))
