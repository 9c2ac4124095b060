-- ===== src/Lock/UniqueId.antt =====
-- The generator of unique identifiers in cpl-standalone/cpl-lock.cpp, which is compiled where
-- `_CPL_CUSTOM_GLOBALLY_UNIQUE_IDS` is defined. The semaphore that serialises the initialisation, and
-- the lock that serialises the calls, are as they were after each call; their waiting is not part of
-- this model.
mod Bits
pub mod Increasing
use Prim.Native.Nat.{bit_or}
use prov_cpl.Prelude.{
  ℕ, ℤ, zero, suc, ◌+◌, ◌-◌, ◌*◌, ◌/◌, ◌%◌, ◌^◌, List, [], ◌∷◌, Option, none, some, not, leb,
  if◌then◌else◌,
}
use prov_cpl.Codes.{cpl_ok, cpl_is_ok, cpl_e_platform_error}

-- What `gettimeofday` gives.
pub record Moment : Type 0 where
  pub tv_sec : ℕ
  pub tv_usec : ℕ

-- The static variables, and what `gettimeofday` will give to the initialisations to come; without a
-- further moment, the semaphore cannot be opened.
pub record Generator : Type 0 where
  pub cpl_unique_base : ℕ
  pub cpl_unique_counter : ℕ
  pub clock : List Moment

-- The base, on 64 bits: the seconds since a fixed moment in the upper half, the milliseconds below. The
-- mask of 63 ones is a remainder.
unfoldable pub base_of : Moment → ℕ
base_of tv =
    bit_or ((tv.tv_sec + 2 ^ 64 - 1000000000) % 2 ^ 64 * 2 ^ 32 % 2 ^ 64)
      (tv.tv_usec / 1000 * 2 ^ 22 % 2 ^ 64)
    % 2 ^ 63

unfoldable pub cpl_host_unique_id_generator_initialize : Generator → ℤ × Generator
unfolding base_of
cpl_host_unique_id_generator_initialize g = elim g.clock [
  | [] ↦ (cpl_e_platform_error, g)
  | tv ∷ later ↦
      (cpl_ok, record { cpl_unique_base = base_of tv; cpl_unique_counter = 0; clock = later })
]

-- `(cpl_unique_counter++) | cpl_unique_base`
unfoldable pub advance : Generator → Option ℕ × Generator
advance g = (
  some (bit_or g.cpl_unique_counter g.cpl_unique_base),
  record g { cpl_unique_counter = (g.cpl_unique_counter + 1) % 2 ^ 64 },
)

-- `none` is the exception of a failed initialisation.
unfoldable pub cpl_next_host_unique_id : Generator → Option ℕ × Generator
unfolding cpl_host_unique_id_generator_initialize advance
cpl_next_host_unique_id g =
    if leb (2 ^ 22) g.cpl_unique_counter
    then (let (r, after) = cpl_host_unique_id_generator_initialize g in
        if not (cpl_is_ok r) then (none, after) else advance after)
    else advance g

abbrev given : Option ℕ → List ℕ → List ℕ
given none ids = ids
given (some id) ids = id ∷ ids

-- The identifiers that a number of calls give, in their order.
unfoldable pub ids : ℕ → Generator → List ℕ
unfolding cpl_next_host_unique_id
ids zero g = []
ids (suc calls) g = let (id, after) = cpl_next_host_unique_id g in given id (ids calls after)
