-- ===== src/Api/Effect/Laws.antt =====
-- How a run of several steps is taken apart.
use prov_cpl.Prelude.{◌≡◌, refl, arith}
use prov_cpl.Api.Effect.{State, Step, go, stop, M, continue, ◌>>=◌}

module _ {Db A B : Type 0} where
  continue_facts :
      (r : Step A) (f : A → M Db B) (s t : State Db) (b : B)
      → continue r f s ≡ (go b, t)
      → (a : A) × (r ≡ go a) × (f a s ≡ (go b, t))
  continue_facts (go a) f s t b e = (a, refl, e)
  continue_facts (stop e') f s t b e = absurd (ground arith)

  -- A run that goes on to the end went on after its first step, and the rest went on from there.
  pub bind_facts :
      (m : M Db A) (f : A → M Db B) (s t : State Db) (b : B)
      → (m >>= f) s ≡ (go b, t)
      → (a : A) × (u : State Db) × (m s ≡ (go a, u)) × (f a u ≡ (go b, t))
  bind_facts m f s t b e =
      let (a, went, rest) = continue_facts (m s).0 f (m s).1 t b e in
      (a, (m s).1, ground arith, rest)
